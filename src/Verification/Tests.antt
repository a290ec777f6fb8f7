-- ===== src/Verification/Tests.antt =====
-- Verifications of a licence baseline, and instances of the theorems on them.
use aijoes_app.Prelude.{◌-ℤ◌, ℕ, pos, true, ◌≡◌, refl, none, some, [], ◌∷◌}
use aijoes_app.Benefits.Ledger
use aijoes_app.Benefits.Ledger.{
  Benefit, BenefitRow, get_benefit_by_opportunity, advance, persist, unique,
}
use aijoes_app.Execution.Store.{Db, ok}
use aijoes_app.Verification.Baseline.{Baseline, BaselineKind, get_baseline, record_verification}
use aijoes_app.Verification.Facts.{ConnectedFacts, Fact, LicenceFacts, get_facts, read_rows}
use aijoes_app.Verification.Verify.{
  Comparison, VerificationResult, gain, compare, licence_comparison, verify_plan, verify_baseline,
  verify_comparison, already_done,
}
use aijoes_app.Verification.Verify.Once.{verify_plan-again}

abbrev cost : ℕ → LicenceFacts
cost n = record {
  annual_licence_cost_gbp = pos n;
  licensed_users = pos 10;
  licensed_disabled_users = pos 2;
  skus = [];
}

abbrev kept : Baseline
kept = record {
  id = 40;
  tenant_id = 1;
  company_id = 5;
  opportunity_id = 6;
  execution_plan_id = 20;
  kind = BaselineKind.licence;
  facts = record { licence = some (cost 900); financial = none };
  captured_at = 10;
  verify_after = 20;
  verified_at = none;
  verified_value = none;
  outcome = none;
}

abbrev reading : ℕ → ConnectedFacts
reading n = record { licence = some (cost n); financial = none }

abbrev measured : ℕ → Db
measured n = record {
  plans = [];
  tasks = [];
  approvals = [];
  opportunities = [];
  benefits = [];
  baselines = kept ∷ [];
  facts = record { tenant_id = 1; company_id = 5; fact = Fact.licence (cost n) } ∷ [];
  jobs = [];
  audit_log = [];
  agent_events = [];
  invoked = [];
}

kept_found : get_baseline 1 (kept ∷ []) 20 ≡ some kept
unfolding get_baseline
kept_found = refl

compared :
    (n : ℕ)
    → compare kept (get_facts 1 (measured n).facts 5) BaselineKind.licence
      ≡ some (licence_comparison (cost 900) (cost n))
unfolding compare get_facts read_rows
compared n = refl

abbrev fallen : Comparison
fallen = licence_comparison (cost 900) (cost 600)

-- The benefit of the opportunity, as the plan's run left it.
abbrev realised_benefit : Benefit
realised_benefit = record {
  id = 7;
  tenant_id = 1;
  company_id = 5;
  opportunity_id = 6;
  type = Ledger.saving;
  stage = Ledger.BenefitStage.realised;
  forecast_value = pos 400;
  realised_value = pos 350;
  verified_value = pos 0;
  measurement_period = none;
  baseline = none;
  measurement_method = 1;
  evidence = [];
  confidence = 40;
  attributed_capabilities = [];
  created_at = 10;
  updated_at = 30;
}

abbrev benefit_row : BenefitRow
benefit_row = record {
  row_id = 7;
  tenant_id = 1;
  company_id = 5;
  opportunity_id = 6;
  benefit = realised_benefit;
}

abbrev with_benefit : Db
with_benefit = record (measured 600) { benefits = benefit_row ∷ [] }

-- The benefit is there before, and verified at 300 after.
verified_run :
    (next : Benefit) × (get_benefit_by_opportunity 1
        (verify_plan 1 20 3 70 with_benefit).1.benefits
        6
      ≡ some next)
    × (next.verified_value ≡ pos 300)
unfolding verify_plan verify_baseline verify_comparison get_baseline record_verification compare
    get_facts read_rows get_benefit_by_opportunity advance persist unique ◌-ℤ◌
verified_run = (_, refl, refl)

verify_plan-again_example :
    let db' = (verify_plan 1 20 3 70 (measured 600)).1 in
    let (r, db'') = verify_plan 1 20 4 80 db' in
    ((v : VerificationResult) × (r ≡ ok v)
      × (v.verified_value ≡ gain fallen.delta)
      × (v.verified ≡ true)
      × (v.reason ≡ some already_done))
    × (db'' ≡ db')
verify_plan-again_example =
    verify_plan-again 1 20 3 70 (measured 600) kept fallen kept_found refl (compared 600) 4 80
