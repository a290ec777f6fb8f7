-- ===== src/Verification/Verify/Once.antt =====
-- `verifyPlan` of src/lib/verification/verify.ts: one verification, and a second one.
use aijoes_app.Prelude.{ℕ, ℤ, true, ◌≡◌, refl, ap, none, some, is_some}
use aijoes_app.Benefits.Ledger
use aijoes_app.Benefits.Ledger.{Update, stage_index, advanced, no_update}
use aijoes_app.Execution.Store.{Db, ok}
use aijoes_app.Verification.Baseline.{Baseline, get_baseline}
use aijoes_app.Verification.Facts.{get_facts}
use aijoes_app.Verification.Verify.Writes.{verify_plan-writes}
use aijoes_app.Verification.Verify.{
  Comparison, VerificationResult, gain, compare, verify_baseline, verify_plan, already_done,
}

verify_plan-done :
    (tenant plan actor now : ℕ) (db : Db) (b : Baseline) (before : ℕ) (value : ℤ)
    → get_baseline tenant db.baselines plan ≡ some b
    → b.verified_at ≡ some before
    → b.verified_value ≡ some value
    → let (r, db') = verify_plan tenant plan actor now db in
      ((v : VerificationResult) × (r ≡ ok v)
        × (v.verified_value ≡ value)
        × (v.verified ≡ true)
        × (v.reason ≡ some already_done))
      × (db' ≡ db)
unfolding verify_plan verify_baseline
verify_plan-done tenant plan actor now db b before value found done worth =
    let settled : is_some b.verified_at ≡ true = ap is_some done in
    rw (found, settled) ((_, refl, rw worth refl, refl, refl), refl)

module _ (tenant plan actor now : ℕ) (db : Db) (b : Baseline) (c : Comparison)
    (found : get_baseline tenant db.baselines plan ≡ some b) (fresh : b.verified_at ≡ none)
    (compared : compare b (get_facts tenant db.facts b.company_id) b.kind ≡ some c) where
  -- After it, verifying again changes nothing and repeats the value, but says verified whether or
  -- not the cost fell.
  pub verify_plan-again :
      (actor' later : ℕ)
      → let db' = (verify_plan tenant plan actor now db).1 in
        let (r, db'') = verify_plan tenant plan actor' later db' in
        ((v : VerificationResult) × (r ≡ ok v)
          × (v.verified_value ≡ gain c.delta)
          × (v.verified ≡ true)
          × (v.reason ≡ some already_done))
        × (db'' ≡ db')
  verify_plan-again actor' later =
      verify_plan-done tenant plan actor' later (verify_plan tenant plan actor now db).1 _ now
        (gain c.delta) (verify_plan-writes tenant plan actor now db b c found fresh compared).1 refl
        refl
