-- ===== src/Execution/Run.antt =====
-- `runExecution` of src/lib/execution/engine.ts, steps 10 to 15. The registry of adapters, the clock
-- and `randomUUID()` are arguments.
pub mod Frame
pub mod Halting
pub mod Revival
pub mod Safety
use aijoes_app.Prelude.{
  ℕ, ℤ, pos, Bool, true, false, ◌&&◌, not, Option, none, some, is_some, List, [], ◌∷◌, map, any,
  length, if◌then◌else◌, ◌==◌,
}
use aijoes_app.Benefits.Ledger
use aijoes_app.Benefits.Ledger.{
  Benefit, BenefitTable, no_update, Update, get_benefit_by_opportunity, advance_at_least,
}
use aijoes_app.Core.Evidence.{
  EvidenceItem, plan_completed, hypothesis, inferred_fact, execution_engine,
}
use aijoes_app.Core.Opportunity.{Opportunity, ExecutionStatus}
use aijoes_app.Execution.Types.{PlanStatus, ExecutionPlan, ExecutionTask}
use aijoes_app.Execution.Store.{
  Db, OpportunityRow, plan_not_found, not_authorised, adapter_rejected, Action, ok, ◌>>=◌, ◌>>◌,
  pure, throw_if, modify, audit, persist_plan, get_plan, or_throw, run_ended,
}
use aijoes_app.Execution.Task.{Adapter}
use aijoes_app.Jobs.Queue.{Jobs, enqueue, JobType}
use aijoes_app.Verification.Baseline.{Baseline, get_baseline}
use aijoes_app.Execution.Authorise.{advance_found}
use aijoes_app.Execution.Loop.{Work, run_loop, worked_plan, runnable, is_rejected}

-- The evidence of a completed plan.
abbrev pub completion_evidence : ExecutionPlan → ℕ → EvidenceItem
completion_evidence p now =
    let simulated = any (λ t. t.simulated) p.tasks in
    record {
      statement = plan_completed p.id (length p.tasks) simulated;
      epistemics = if simulated then hypothesis else inferred_fact;
      confidence = if simulated then 40 else 80;
      source = execution_engine p.id;
      retrieved_at = now;
    }

-- Steps 12 and 13, by the plan's status.
abbrev pub benefit_step :
    ℕ → ExecutionPlan → ℤ → ℕ → Option Benefit → PlanStatus → Action (Option Benefit)
benefit_step tenant p measured now found PlanStatus.completed =
    advance_found tenant found Ledger.BenefitStage.realised
      (record no_update {
        realised_value = some measured;
        attributed_capabilities = some p.required_capabilities;
        evidence = some (completion_evidence p now ∷ []);
      })
      now
benefit_step tenant p measured now found PlanStatus.executing =
    advance_found tenant found Ledger.BenefitStage.forecast
      (record no_update { forecast_value = some p.financial_target }) now
benefit_step tenant p measured now found PlanStatus.awaiting_approval =
    advance_found tenant found Ledger.BenefitStage.forecast
      (record no_update { forecast_value = some p.financial_target }) now
benefit_step tenant p measured now found _ = pure found

abbrev pub record_benefit : ℕ → ExecutionPlan → ℤ → ℕ → Action (Option Benefit)
record_benefit tenant p measured now db =
    benefit_step tenant p measured now
      (get_benefit_by_opportunity tenant db.benefits p.opportunity_id) p.status db

-- `statusMap`.
abbrev pub execution_status_of : PlanStatus → ExecutionStatus
execution_status_of PlanStatus.draft = ExecutionStatus.planning
execution_status_of PlanStatus.awaiting_authorisation = ExecutionStatus.awaiting_approval
execution_status_of PlanStatus.authorised = ExecutionStatus.executing
execution_status_of PlanStatus.executing = ExecutionStatus.executing
execution_status_of PlanStatus.awaiting_approval = ExecutionStatus.awaiting_approval
execution_status_of PlanStatus.completed = ExecutionStatus.completed
execution_status_of PlanStatus.failed = ExecutionStatus.failed
execution_status_of PlanStatus.stopped = ExecutionStatus.stopped

abbrev pub is_completed : PlanStatus → Bool
is_completed PlanStatus.completed = true
is_completed _ = false

abbrev pub first_of_two : Option ℕ → ℕ → Option ℕ
first_of_two none d = some d
first_of_two (some a) d = some a

abbrev pub updated_opportunity : ExecutionPlan → ℤ → Opportunity → Opportunity
updated_opportunity p measured o = record o {
  execution_status = execution_status_of p.status;
  started_at = first_of_two o.started_at p.created_at;
  completed_at = p.completed_at;
  realised_value = if is_completed p.status then some measured else o.realised_value;
}

abbrev pub is_opportunity : ℕ → ℕ → OpportunityRow → Bool
is_opportunity tenant o r = r.tenant_id == tenant && r.row_id == o

-- The id is the table's primary key, so the row that is read is the only one that is written.
unfoldable pub update_opportunity_status : ℕ → ExecutionPlan → ℤ → Db → Db
update_opportunity_status tenant p measured db = record db {
  opportunities =
      map
        (λ r.
          if is_opportunity tenant p.opportunity_id r
          then record r { opportunity = updated_opportunity p measured r.opportunity }
          else r)
        db.opportunities;
}

abbrev pub unverified : Option Baseline → Option Baseline
unverified none = none
unverified (some b) = if is_some b.verified_at then none else some b

abbrev pub queue_for : ℕ → ℕ → ℕ → ℕ → Option Baseline → Jobs → Jobs
queue_for tenant plan fresh now none jobs = jobs
queue_for tenant plan fresh now (some b) jobs =
    enqueue tenant JobType.verification plan (some 5) (some b.verify_after) fresh now jobs

unfoldable pub queue_verification : ℕ → ExecutionPlan → ℕ → ℕ → Db → Db
queue_verification tenant p fresh now db = record db {
  jobs =
      if is_completed p.status
      then queue_for tenant p.id fresh now (unverified (get_baseline tenant db.baselines p.id))
          db.jobs
      else db.jobs;
}

pub record RunResult : Type 0 where
  pub plan : ExecutionPlan
  pub benefit : Option Benefit
  pub awaiting_approval : List ExecutionTask
  pub measured_value_gbp : ℤ
  pub total_cost_gbp : ℤ

-- What follows the loop: the plan is written from memory, then benefit, opportunity, job and audit.
unfoldable pub finish_run : ℕ → ℕ → ℕ → ℕ → ExecutionPlan → Work → Action RunResult
finish_run tenant user fresh_job now p w = do
  modify (persist_plan tenant p)
  b ← record_benefit tenant p w.measured now
  modify (update_opportunity_status tenant p w.measured)
  modify (queue_verification tenant p fresh_job now)
  audit (record {
    tenant_id = tenant;
    actor = user;
    action = run_ended p.status w.measured;
    subject_id = p.id;
    at = now;
  })
  pure (record {
    plan = p;
    benefit = b;
    awaiting_approval = w.awaiting;
    measured_value_gbp = w.measured;
    total_cost_gbp = w.cost;
  })

abbrev pub started : ExecutionPlan → ExecutionPlan
started p = record p { status = PlanStatus.executing }

-- The loop on the plan as it was started.
abbrev pub work_on : (ℕ → Option Adapter) → ℕ → ExecutionPlan → ℕ → ℕ → Db → Work
work_on adapters tenant p fresh now db =
    run_loop adapters tenant (started p) fresh now p.tasks (pos 0) (pos 0) db

unfoldable pub run_execution : (ℕ → Option Adapter) → ℕ → ℕ → ℕ → ℕ → ℕ → ℕ → Action RunResult
run_execution adapters tenant plan user fresh fresh_job now = do
  p ← λ db. or_throw (get_plan tenant db plan) (plan_not_found plan) db
  throw_if (not (runnable p.status)) (not_authorised p.status)
  modify (persist_plan tenant (started p))
  w ← λ db.
      (ok (work_on adapters tenant p fresh now db), (work_on adapters tenant p fresh now db).db)
  throw_if (is_rejected w.ending) adapter_rejected
  finish_run tenant user fresh_job now (worked_plan (started p) w now) w
