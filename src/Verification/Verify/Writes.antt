-- ===== src/Verification/Verify/Writes.antt =====
-- `verifyPlan` of src/lib/verification/verify.ts: what the first verification writes.
use aijoes_app.Prelude.{
  ℕ, ℤ, pos, ◌≤ℤ◌, ◌≤◌, ltb_ℤ, Bool, true, false, ◌&&◌, ◌≡◌, refl, ◌∙◌, ap, ◌⊎◌, inl, inr, Option,
  none, some, [], ◌++◌, is_some, ◌∷◌, arith, if◌then◌else◌, find?-map_of, find?-eq_some, Bool-cases,
  ◌==◌,
}
use aijoes_app.Benefits.Ledger
use aijoes_app.Benefits.Ledger.{
  has_id, BenefitTable, Update, stage_index, Benefit, advanced, persist, get_benefit_by_opportunity,
  no_update,
}
use aijoes_app.Benefits.Ledger.Stages.{advance-branches}
use aijoes_app.Execution.Authorise.{lift_ledger}
use aijoes_app.Execution.Store.{benefit_verified, Db, pure, Result, ok, ◌>>=◌}
use aijoes_app.Verification.Baseline.{Baseline, get_baseline, record_verification, mark, of_plan}
use aijoes_app.Verification.Facts.{get_facts}
use aijoes_app.Verification.Verify.{
  Comparison, VerificationResult, gain, compare, verify_benefit, verify_comparison, verify_baseline,
  verify_plan, proof_of,
}

mark-of_plan :
    (tenant plan : ℕ) (b : Baseline) (c : Comparison) (now : ℕ) (x : Baseline)
    → of_plan tenant plan (mark tenant b.id (gain c.delta) c.narrative now x)
      ≡ of_plan tenant plan x
mark-of_plan tenant plan b c now x = elim (Bool-cases (x.tenant_id == tenant && x.id == b.id)) [
  | inl e ↦ rw e
  | inr e ↦ rw e
]

-- What the step on the benefit does.
abbrev Moves : Comparison → Option Benefit → Db → Result (Option Benefit) × Db → Type 0
Moves c found db (r, db') =
    ((updated : Option Benefit) × (r ≡ ok updated)
      × (((ltb_ℤ (pos 0) c.delta ≡ false) × (updated ≡ found) × (db'.benefits ≡ db.benefits))
          ⊎ ((ltb_ℤ (pos 0) c.delta ≡ true)
              × ((x : Benefit)
                  → found ≡ some x
                  → (next : Benefit) × (updated ≡ some next)
                    × (next.stage ≡ Ledger.BenefitStage.verified)
                    × (next.verified_value ≡ c.delta)
                    × (next.id ≡ x.id)
                    × ((t : ℕ) × (db'.benefits ≡ persist t db.benefits next))))))
    × (db'.baselines ≡ db.baselines)

gain-pos : (d : ℤ) → ltb_ℤ (pos 0) (gain d) ≡ ltb_ℤ (pos 0) d
gain-pos d = ground arith

last_stage : (x : Benefit) → stage_index x.stage ≤ 5
last_stage x = ground arith

if-of_true : {A : Type 0} → (t : Bool) (a b v : A) → t ≡ true → a ≡ v → (if t then a else b) ≡ v
if-of_true t a b v e f = rw e f

lifted :
    (r : Ledger.Result (Benefit × BenefitTable)) (next : Benefit) (rows : BenefitTable) (db : Db)
    → r ≡ Ledger.ok (next, rows)
    → (lift_ledger r >>= λ n. pure (some n)) db ≡ (ok (some next), record db { benefits = rows })
lifted r next rows db e = rw e refl

not_low : (d : ℤ) → ltb_ℤ (pos 0) d ≡ true → gain d ≤ℤ pos 0 → ⊥
not_low d e low = ground arith

some-inj : (x y : Benefit) → some x ≡ some y → x ≡ y
some-inj x y e = cc

verify_benefit-Moves :
    (tenant : ℕ) (b : Baseline) (c : Comparison) (now : ℕ) (found : Option Benefit) (db : Db)
    → Moves c found db (verify_benefit tenant b c now found db)
verify_benefit-Moves tenant b c now none db = elim (Bool-cases (ltb_ℤ (pos 0) c.delta)) [
  | inl e ↦ ((none, refl, inr (e, λ x f. cc)), refl)
  | inr e ↦ ((none, refl, inl (e, refl, refl)), refl)
]
verify_benefit-Moves tenant b c now (some x) db = elim (Bool-cases (ltb_ℤ (pos 0) c.delta)) [
  | inl e ↦
      let u : Update = record no_update {
        verified_value = some (gain c.delta);
        evidence = some (proof_of b c now ∷ []);
      } in
      elim (advance-branches tenant db.benefits x Ledger.BenefitStage.verified u now) [
        | inl (good, _, _) ↦
            let made : verify_benefit tenant b c now (some x) db ≡ (
              ok (some (advanced x Ledger.BenefitStage.verified u now)),
              record db {
                benefits =
                    persist tenant db.benefits (advanced x Ledger.BenefitStage.verified u now);
              },
            ) =
              if-of_true _ _ _ _ (gain-pos c.delta ∙ e) (lifted _ _ _ db good) in
            rw made (
              (
                some (advanced x Ledger.BenefitStage.verified u now),
                refl,
                inr (
                  e,
                  λ y f. (
                    advanced x Ledger.BenefitStage.verified u now,
                    refl,
                    refl,
                    rw e refl,
                    ap (λ z. z.id) (some-inj x y f),
                    (tenant, refl),
                  ),
                ),
              ),
              refl,
            )
        | inr (inl (_, back)) ↦ absurd (omega (arith, last_stage x))
        | inr (inr (_, _, low)) ↦ absurd (not_low c.delta e low)
      ]
  | inr e ↦ rw (gain-pos c.delta, e) ((some x, refl, inl (refl, refl, refl)), refl)
]

module _ (tenant plan actor now : ℕ) (db : Db) (b : Baseline) (c : Comparison)
    (found : get_baseline tenant db.baselines plan ≡ some b) (fresh : b.verified_at ≡ none)
    (compared : compare b (get_facts tenant db.facts b.company_id) b.kind ≡ some c) where
  marked_baseline :
      get_baseline tenant
        (record_verification tenant db.baselines b.id (gain c.delta) c.narrative now)
        plan
      ≡ some (record b {
        verified_at = some now;
        verified_value = some (gain c.delta);
        outcome = some c.narrative;
      })
  unfolding get_baseline record_verification
  marked_baseline =
      let (listed, fits) = find?-eq_some (of_plan tenant plan) b db.baselines found in
      let own : (b.tenant_id == tenant && b.id == b.id) ≡ true = ground arith in
      rw
        (
          find?-map_of (of_plan tenant plan) (mark tenant b.id (gain c.delta) c.narrative now)
              db.baselines (mark-of_plan tenant plan b c now),
          found,
          own,
        )
        refl

  -- What the first verification returns and writes.
  pub verify_plan-writes :
      let (r, db') = verify_plan tenant plan actor now db in
      ((v : VerificationResult) × (r ≡ ok v)
        × (v.verified_value ≡ gain c.delta)
        × (((v.verified ≡ false) × (c.delta ≤ℤ pos 0) × (db'.benefits ≡ db.benefits))
            ⊎ ((v.verified ≡ true)
                × (pos 1 ≤ℤ c.delta)
                × ((x : Benefit)
                    → get_benefit_by_opportunity tenant db.benefits b.opportunity_id ≡ some x
                    → (next : Benefit) × (v.benefit ≡ some next)
                      × (next.stage ≡ Ledger.BenefitStage.verified)
                      × (next.verified_value ≡ c.delta)
                      × (next.id ≡ x.id)
                      × ((t : ℕ) × (db'.benefits ≡ persist t db.benefits next))))))
      × (get_baseline tenant db'.baselines plan
          ≡ some (record b {
            verified_at = some now;
            verified_value = some (gain c.delta);
            outcome = some c.narrative;
          }))
  unfolding verify_plan verify_baseline verify_comparison
  verify_plan-writes =
      let x = get_benefit_by_opportunity tenant db.benefits b.opportunity_id in
      let between : Db = record db {
        baselines = record_verification tenant db.baselines b.id (gain c.delta) c.narrative now;
        audit_log =
            db.audit_log
            ++ record {
              tenant_id = tenant;
              actor = actor;
              action = benefit_verified (gain c.delta);
              subject_id = plan;
              at = now;
            }
              ∷ [];
      } in
      let ((updated, returned, moved), kept) = verify_benefit-Moves tenant b c now x between in
      let not_yet : is_some b.verified_at ≡ false = ap is_some fresh in
      rw (found, not_yet, compared, ◌>>=◌, returned)
        (
          (
            _,
            refl,
            refl,
            elim moved [
              | inl (e, same, rows) ↦ inl (gain-pos c.delta ∙ e, ground arith, rows)
              | inr (e, f) ↦ inr (gain-pos c.delta ∙ e, ground arith, f)
            ],
          ),
          ap (λ rows. get_baseline tenant rows plan) kept ∙ marked_baseline,
        )
