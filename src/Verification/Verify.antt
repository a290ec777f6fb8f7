-- ===== src/Verification/Verify.antt =====
-- src/lib/verification/verify.ts: `verifyPlan`, which compares the figures that were kept before a
-- plan ran with the ones that the connected systems give now. Amounts are whole pounds; the day of
-- `capturedAt` is its instant.
pub mod Compare
pub mod Once
pub mod Writes
use aijoes_app.Prelude.{
  ℕ, ℤ, pos, ◌+ℤ◌, ◌-ℤ◌, ltb_ℤ, Bool, true, false, Option, none, some, get_or, is_some, List, [],
  ◌∷◌, length, if◌then◌else◌,
}
use aijoes_app.Benefits.Ledger
use aijoes_app.Benefits.Ledger.{Benefit, no_update, get_benefit_by_opportunity, advance}
use aijoes_app.Core.Evidence.{
  Statement, Source, EvidenceItem, fact, licence_fell, licence_unchanged, licence_rose, spend_fell,
  spend_unchanged, spend_rose, no_baseline_captured, source_silent, already_verified, microsoft_365,
  accounting,
}
use aijoes_app.Execution.Authorise.{lift_ledger}
use aijoes_app.Execution.Store.{Db, Action, ok, ◌>>=◌, ◌>>◌, pure, modify, audit, benefit_verified}
use aijoes_app.Verification.Baseline.{Baseline, BaselineKind, get_baseline, record_verification}
use aijoes_app.Verification.Facts.{
  ConnectedFacts, LicenceFacts, FinancialFacts, Sku, Spend, get_facts,
}

pub data Label : Type 0 where
  annual_licence_cost licensed_users unassigned_seats leavers_still_licensed : Label
  software_spend total_supplier_spend supplier_count : Label

pub record Line : Type 0 where
  pub label : Label
  pub before : ℤ
  pub after : ℤ
  pub delta : ℤ

pub record Comparison : Type 0 where
  pub delta : ℤ
  pub narrative : Statement
  pub lines : List Line

pub data Reason : Type 0 where
  no_baseline already_done source_unavailable no_change_measured : Reason

pub record VerificationResult : Type 0 where
  pub verified : Bool
  pub verified_value : ℤ
  pub narrative : Statement
  pub lines : List Line
  pub benefit : Option Benefit
  pub reason : Option Reason

abbrev pub line : Label → ℤ → ℤ → Line
line l before after = record { label = l; before = before; after = after; delta = before -ℤ after }

-- `Math.max(0, delta)` and `Math.abs(delta)` where it is negative.
abbrev pub gain : ℤ → ℤ
gain d = if ltb_ℤ (pos 0) d then d else pos 0

abbrev pub magnitude : ℤ → ℤ
magnitude d = if ltb_ℤ d (pos 0) then pos 0 -ℤ d else d

unfoldable pub total_unassigned : List Sku → ℤ
total_unassigned [] = pos 0
total_unassigned (x ∷ xs) = x.unassigned +ℤ total_unassigned xs

unfoldable pub total_spend : List Spend → ℤ
total_spend [] = pos 0
total_spend (x ∷ xs) = x.annual_spend +ℤ total_spend xs

-- The three narratives of a comparison, by the sign of the difference.
abbrev by_sign : ℤ → Statement → Statement → Statement → Statement
by_sign d fell same rose = if ltb_ℤ (pos 0) d then fell else if ltb_ℤ d (pos 0) then rose else same

abbrev pub licence_comparison : LicenceFacts → LicenceFacts → Comparison
licence_comparison before after =
    let cost = before.annual_licence_cost_gbp -ℤ after.annual_licence_cost_gbp in
    record {
      delta = cost;
      narrative =
          by_sign cost
            (licence_fell before.annual_licence_cost_gbp after.annual_licence_cost_gbp cost
              (before.licensed_users -ℤ after.licensed_users))
            licence_unchanged (licence_rose (magnitude cost));
      lines =
          line annual_licence_cost before.annual_licence_cost_gbp after.annual_licence_cost_gbp
          ∷ line licensed_users before.licensed_users after.licensed_users
          ∷ line unassigned_seats (total_unassigned before.skus) (total_unassigned after.skus)
          ∷ line leavers_still_licensed before.licensed_disabled_users after.licensed_disabled_users
          ∷ [];
    }

abbrev pub financial_comparison : ℕ → FinancialFacts → FinancialFacts → Comparison
financial_comparison captured before after =
    let software =
      total_spend before.software_subscriptions -ℤ total_spend after.software_subscriptions in
    let suppliers = total_spend before.supplier_spend -ℤ total_spend after.supplier_spend in
    let count = pos (length before.supplier_spend) -ℤ pos (length after.supplier_spend) in
    let delta = if ltb_ℤ (pos 0) software then software else suppliers in
    record {
      delta = delta;
      narrative =
          by_sign delta (spend_fell delta captured (gain count)) spend_unchanged
            (spend_rose (magnitude delta));
      lines =
          line software_spend (total_spend before.software_subscriptions)
            (total_spend after.software_subscriptions)
          ∷ line total_supplier_spend (total_spend before.supplier_spend)
              (total_spend after.supplier_spend)
          ∷ line supplier_count (pos (length before.supplier_spend))
              (pos (length after.supplier_spend))
          ∷ [];
    }

-- `if (!before || !after) return null`
abbrev pub both : {A : Type 0} → (A → A → Comparison) → Option A → Option A → Option Comparison
both f none after = none
both f (some before) none = none
both f (some before) (some after) = some (f before after)

unfoldable pub compare : Baseline → ConnectedFacts → BaselineKind → Option Comparison
compare b current BaselineKind.licence = both licence_comparison b.facts.licence current.licence
compare b current BaselineKind.financial =
    both (financial_comparison b.captured_at) b.facts.financial current.financial

abbrev pub source_of : BaselineKind → Source
source_of BaselineKind.licence = microsoft_365
source_of BaselineKind.financial = accounting

abbrev pub proof_of : Baseline → Comparison → ℕ → EvidenceItem
proof_of b c now = record {
  statement = c.narrative;
  epistemics = fact;
  confidence = 95;
  source = source_of b.kind;
  retrieved_at = now;
}

-- `if (benefit && verifiedValue > 0) updated = advance(…)`
abbrev pub verify_benefit : ℕ → Baseline → Comparison → ℕ → Option Benefit → Action (Option Benefit)
verify_benefit tenant b c now none db = (ok none, db)
verify_benefit tenant b c now (some benefit) db =
    if ltb_ℤ (pos 0) (gain c.delta)
    then (lift_ledger (
            advance tenant db.benefits benefit Ledger.BenefitStage.verified
              (record no_update {
                verified_value = some (gain c.delta);
                evidence = some (proof_of b c now ∷ []);
              })
              now)
          >>= λ next. pure (some next))
        db
    else (ok (some benefit), db)

unfoldable pub verify_comparison :
    ℕ → ℕ → ℕ → ℕ → Baseline → Option Benefit → Option Comparison → Action VerificationResult
verify_comparison tenant plan actor now b found none = pure (record {
  verified = false;
  verified_value = pos 0;
  narrative = source_silent;
  lines = [];
  benefit = found;
  reason = some source_unavailable;
})
verify_comparison tenant plan actor now b found (some c) = do
  modify (λ db. record db {
    baselines = record_verification tenant db.baselines b.id (gain c.delta) c.narrative now;
  })
  audit (record {
    tenant_id = tenant;
    actor = actor;
    action = benefit_verified (gain c.delta);
    subject_id = plan;
    at = now;
  })
  updated ← verify_benefit tenant b c now found
  pure (record {
    verified = ltb_ℤ (pos 0) (gain c.delta);
    verified_value = gain c.delta;
    narrative = c.narrative;
    lines = c.lines;
    benefit = updated;
    reason = if ltb_ℤ (pos 0) (gain c.delta) then none else some no_change_measured;
  })

unfoldable pub verify_baseline : ℕ → ℕ → ℕ → ℕ → Option Baseline → Action VerificationResult
verify_baseline tenant plan actor now none db = (
  ok (record {
    verified = false;
    verified_value = pos 0;
    narrative = no_baseline_captured;
    lines = [];
    benefit = none;
    reason = some no_baseline;
  }),
  db,
)
verify_baseline tenant plan actor now (some b) db =
    if is_some b.verified_at
    then (
      ok (record {
        verified = true;
        verified_value = get_or b.verified_value (pos 0);
        narrative = get_or b.outcome already_verified;
        lines = [];
        benefit = get_benefit_by_opportunity tenant db.benefits b.opportunity_id;
        reason = some already_done;
      }),
      db,
    )
    else verify_comparison tenant plan actor now b
        (get_benefit_by_opportunity tenant db.benefits b.opportunity_id)
        (compare b (get_facts tenant db.facts b.company_id) b.kind) db

unfoldable pub verify_plan : ℕ → ℕ → ℕ → ℕ → Action VerificationResult
verify_plan tenant plan actor now db =
    verify_baseline tenant plan actor now (get_baseline tenant db.baselines plan) db
