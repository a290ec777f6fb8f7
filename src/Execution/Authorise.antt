-- ===== src/Execution/Authorise.antt =====
-- `authorisePlan` of src/lib/execution/engine.ts, step 9: a named human accepts a plan. An operation
-- reads the clock once; `randomUUID()` and the registry of playbooks are arguments.
pub mod Branches
use aijoes_app.Prelude.{ℕ, Bool, true, false, not, Option, none, some, get_or, List, [], ◌∷◌, ◌++◌}
use aijoes_app.Benefits.Ledger
use aijoes_app.Benefits.Ledger.{
  Benefit, BenefitTable, no_update, Update, get_benefit_by_opportunity, advance_at_least,
}
use aijoes_app.Execution.Types.{PlanStatus, ExecutionPlan}
use aijoes_app.Execution.Store.{
  Approval, Decision, plan_not_found, blocked, not_awaiting_authorisation, ledger, Action, ok, err,
  ◌>>=◌, ◌>>◌, pure, throw_if, modify, audit, persist_plan, get_plan, or_throw, plan_authorised,
  baseline_captured,
}
use aijoes_app.Verification.Baseline.{Baseline, capture_baseline}

-- A call of `advanceAtLeast` on the benefit table of the database.
abbrev pub lift_ledger : Ledger.Result (Benefit × BenefitTable) → Action Benefit
lift_ledger (Ledger.Result.ok (b, rows)) db = (ok b, record db { benefits = rows })
lift_ledger (Ledger.Result.err e) db = (err (ledger e), db)

abbrev pub advance_found :
    ℕ → Option Benefit → Ledger.BenefitStage → Update → ℕ → Action (Option Benefit)
advance_found tenant none stage u now db = (ok none, db)
advance_found tenant (some b) stage u now db =
    (lift_ledger (advance_at_least tenant db.benefits b stage u now) >>= λ b'. pure (some b')) db

abbrev pub has_blockers : List ℕ → Bool
has_blockers [] = false
has_blockers (b ∷ bs) = true

abbrev pub is_awaiting_authorisation : PlanStatus → Bool
is_awaiting_authorisation PlanStatus.awaiting_authorisation = true
is_awaiting_authorisation _ = false

-- The last step of `authorisePlan`: the baseline, and its record in the audit log.
abbrev pub note_baseline : ℕ → ℕ → ℕ → ℕ → Option Baseline × List Baseline → Action (Unit {0})
note_baseline tenant user plan now (none, rows) = modify (λ db. record db { baselines = rows })
note_baseline tenant user plan now (some b, rows) =
    modify (λ db. record db { baselines = rows })
    >> audit (record {
      tenant_id = tenant;
      actor = user;
      action = baseline_captured b.kind;
      subject_id = plan;
      at = now;
    })

abbrev pub authorised_plan : ExecutionPlan → ℕ → ℕ → ExecutionPlan
authorised_plan p user now = record p {
  status = PlanStatus.authorised;
  authorised_at = some now;
  authorised_by = some user;
}

abbrev pub authorisation : ℕ → ℕ → ℕ → ℕ → ℕ → ℕ → Approval
authorisation fresh tenant plan user rationale now = record {
  id = fresh;
  tenant_id = tenant;
  execution_plan_id = plan;
  task_id = none;
  requested_at = now;
  decided_at = some now;
  decided_by = some user;
  decision = some Decision.approved;
  rationale = some rationale;
}

-- What `authorisePlan` writes once its checks have passed. `windows` gives a playbook's measurement
-- window, `?? 90` where it has none; `fresh` and `fresh_baseline` are the two ids that it draws.
unfoldable pub commit_authorisation :
    (ℕ → Option ℕ) → ℕ → ℕ → ℕ → ℕ → ℕ → ℕ → ℕ → ExecutionPlan → Action ExecutionPlan
commit_authorisation windows tenant plan user rationale fresh fresh_baseline now p = do
  modify (persist_plan tenant (authorised_plan p user now))
  modify (λ db. record db {
    approvals = db.approvals ++ authorisation fresh tenant plan user rationale now ∷ [];
  })
  audit (record {
    tenant_id = tenant;
    actor = user;
    action = plan_authorised rationale;
    subject_id = plan;
    at = now;
  })
  (λ db.
      advance_found tenant (get_benefit_by_opportunity tenant db.benefits p.opportunity_id)
        Ledger.BenefitStage.approved no_update now db)
  (λ db.
      note_baseline tenant user plan now
        (capture_baseline tenant db.baselines db.facts p p.playbook_id
          (get_or (windows p.playbook_id) 90) fresh_baseline now)
        db)
  pure (authorised_plan p user now)

unfoldable pub authorise_plan : (ℕ → Option ℕ) → ℕ → ℕ → ℕ → ℕ → ℕ → ℕ → ℕ → Action ExecutionPlan
authorise_plan windows tenant plan user rationale fresh fresh_baseline now = do
  p ← λ db. or_throw (get_plan tenant db plan) (plan_not_found plan) db
  throw_if (has_blockers p.blockers) (blocked p.blockers)
  throw_if (not (is_awaiting_authorisation p.status)) (not_awaiting_authorisation p.status)
  commit_authorisation windows tenant plan user rationale fresh fresh_baseline now p
