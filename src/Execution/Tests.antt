-- ===== src/Execution/Tests.antt =====
-- The engine at a plan of two tasks, the second behind its gate, and instances of its theorems.
use aijoes_app.Prelude.{
  ◌+ℤ◌, ℕ, pos, true, false, ◌≡◌, ◌≢◌, ◌⊎◌, refl, inl, Option, some, none, [], ◌∷◌, In, All,
}
use aijoes_app.Benefits.Ledger.{get_benefit_by_opportunity}
use aijoes_app.Execution.Types.{
  ExecutionPlan, ExecutionTask, PlanStatus, TaskStatus, TaskInputs, done,
}
use aijoes_app.Execution.Store.{
  Db, get_plan, put_tasks, persist_plan, Decision, not_authorised, adapter_rejected, blocked,
  not_awaiting_authorisation, ok, err,
}
use aijoes_app.Execution.Task.{
  Adapter, CapabilityOutcome, execute_task, invocation, gated, request_approval, invoke_loop,
  attempts_of,
}
use aijoes_app.Execution.Task.Retry.{execute_task-attempts, Ran, Rejects}
use aijoes_app.Execution.Authorise.{authorise_plan, commit_authorisation, authorisation}
use aijoes_app.Execution.Authorise.Branches.{authorise_plan-returns}
use aijoes_app.Execution.Loop.{settled, waiting_task, run_loop, worked_plan, runnable, Work}
use aijoes_app.Execution.Run.{
  run_execution, RunResult, started, finish_run, work_on, update_opportunity_status,
  queue_verification,
}
use aijoes_app.Execution.Run.Safety.{
  IsRunnable, Concludes, run_execution-Released, run_execution-Concludes,
}
use aijoes_app.Execution.Run.Halting.{Still, stop_plan-halts}
use aijoes_app.Execution.Run.Revival.{approve_task-decides, finish_run-stop, run_execution-reruns}
use aijoes_app.Execution.Control.{approve_task, stop_plan, stopped_plan, decided_plan, decide_first}

abbrev saved : CapabilityOutcome
saved = record {
  ok = true;
  simulated = false;
  evidence = 31 ∷ [];
  cost_gbp = pos 5;
  measured_value_gbp = some (pos 40);
  failure = none;
}

abbrev working : ℕ → Option Adapter
working c = some (λ made i. some saved)

abbrev inputs : TaskInputs
inputs = record {
  company_id = 5;
  tenant_id = 1;
  objective = 8;
  financial_target = pos 100;
  approval_id = none;
}

abbrev survey : ExecutionTask
survey = record {
  id = 21;
  execution_plan_id = 20;
  seq = 1;
  name = 9;
  assigned_capability = 3;
  capability_action = 4;
  inputs = inputs;
  approval_required = false;
  approval_id = none;
  status = TaskStatus.pending;
  started_at = none;
  completed_at = none;
  outcome = none;
  evidence = [];
  cost_gbp = pos 0;
  measured_value_gbp = none;
  retry_count = 0;
  simulated = true;
}

abbrev purchase : ExecutionTask
purchase = record survey { id = 22; seq = 2; approval_required = true }

abbrev proposed : ExecutionPlan
proposed = record {
  id = 20;
  tenant_id = 1;
  company_id = 5;
  opportunity_id = 6;
  playbook_id = 7;
  objective = 8;
  financial_target = pos 100;
  tasks = survey ∷ purchase ∷ [];
  required_capabilities = 3 ∷ [];
  status = PlanStatus.awaiting_authorisation;
  created_at = 50;
  authorised_at = none;
  authorised_by = none;
  completed_at = none;
  blockers = [];
}

abbrev holding : ExecutionPlan → Db
holding p = record {
  plans = record { row_id = 20; tenant_id = 1; plan = p } ∷ [];
  tasks = [];
  approvals = [];
  opportunities = [];
  benefits = [];
  baselines = [];
  facts = [];
  jobs = [];
  audit_log = [];
  agent_events = [];
  invoked = [];
}

engine : Unit {0}
unfolding get_plan put_tasks persist_plan execute_task invoke_loop attempts_of request_approval
    run_loop worked_plan runnable run_execution finish_run update_opportunity_status
    queue_verification authorise_plan commit_authorisation decide_first
engine = tt

-- One attempt is enough for an adapter that works.
execute_task-attempts_example :
    Ran working proposed survey
      (holding proposed)
      (execute_task working proposed survey 60 (holding proposed))
execute_task-attempts_example = execute_task-attempts working proposed survey 60 (holding proposed)

abbrev windows : ℕ → Option ℕ
windows p = none

held : (p : ExecutionPlan) → get_plan 1 (holding p) 20 ≡ some p
unfolding get_plan
held p = refl

abbrev hindered : ExecutionPlan
hindered = record proposed { blockers = 71 ∷ [] }

abbrev under_way : ExecutionPlan
under_way = record proposed { status = PlanStatus.authorised }

authorise_plan-returns_example :
    let (r, db') = authorise_plan windows 1 20 2 80 90 91 60 (holding proposed) in
    let q : ExecutionPlan = record proposed {
      status = PlanStatus.authorised;
      authorised_at = some 60;
      authorised_by = some 2;
    } in
    ((proposed.blockers ≢ []) × (r ≡ err (blocked proposed.blockers)) × (db' ≡ holding proposed))
    ⊎ ((proposed.blockers ≡ [])
        × (proposed.status ≢ PlanStatus.awaiting_authorisation)
        × (r ≡ err (not_awaiting_authorisation proposed.status))
        × (db' ≡ holding proposed))
    ⊎ ((proposed.blockers ≡ [])
        × (proposed.status ≡ PlanStatus.awaiting_authorisation)
        × (r ≡ ok q)
        × IsRunnable 1 db' 20 q
        × (db'.approvals ≡ authorisation 90 1 20 2 80 60 ∷ [])
        × (db'.invoked ≡ [])
        × ((user' rationale' fresh' fresh_baseline' later : ℕ)
            → authorise_plan windows 1 20 user' rationale' fresh' fresh_baseline' later db'
              ≡ (err (not_awaiting_authorisation PlanStatus.authorised), db')))
authorise_plan-returns_example =
    authorise_plan-returns windows 1 20 2 80 90 91 60 (holding proposed) proposed (held proposed)
      refl

under_way-IsRunnable : IsRunnable 1 (holding under_way) 20 under_way
under_way-IsRunnable = record { found = held under_way; status = inl refl }

abbrev ran : Db
ran = (run_execution working 1 20 2 92 93 60 (holding under_way)).1

second : Unit {0}
unfolding engine get_benefit_by_opportunity
second = tt

first_invoked : In (invocation (started under_way) survey) ran.invoked
unfolding second
first_invoked = inl refl

-- What the run invoked is the task with no gate.
run_execution-Released_example :
    In (invocation (started under_way) survey) []
    ⊎ ((p : ExecutionPlan) × IsRunnable 1 (holding under_way) 20 p
        × (t : ExecutionTask) × In t p.tasks
        × (settled t.status ≡ false)
        × (gated t ≡ false)
        × (invocation (started under_way) survey ≡ invocation (started p) t))
run_execution-Released_example =
    run_execution-Released working 1 20 2 92 93 60 (holding under_way)
      (invocation (started under_way) survey) first_invoked

run_execution-Concludes_example :
    let (result, db') = run_execution working 1 20 2 92 93 60 (holding under_way) in
    ((r : RunResult) × (result ≡ ok r)
      × Concludes working 1 20 2 92 93 60 (holding under_way) under_way r
      × (get_plan 1 db' 20 ≡ some r.plan))
    ⊎ ((result ≡ err adapter_rejected)
        × (get_plan 1 db' 20 ≡ some (started under_way))
        × ((t : ExecutionTask) × In t (survey ∷ purchase ∷ [])
            × Rejects working (started under_way) t))
run_execution-Concludes_example =
    run_execution-Concludes working 1 20 2 92 93 60 (holding under_way) under_way
      under_way-IsRunnable refl

-- An adapter that rejects leaves the plan EXECUTING.
abbrev rejecting : ℕ → Option Adapter
rejecting c = some (λ made i. none)

rejecting_run :
    ((run_execution rejecting 1 20 2 92 93 60 (holding under_way)).0 ≡ err adapter_rejected)
    × (get_plan 1 (run_execution rejecting 1 20 2 92 93 60 (holding under_way)).1 20
        ≡ some (started under_way))
unfolding second
rejecting_run = (refl, refl)

stop_plan-halts_example :
    let (r, db') = stop_plan 1 20 2 81 60 (holding under_way) in
    (r ≡ ok (stopped_plan 81 under_way))
    × All Still (stopped_plan 81 under_way).tasks
    × (run_execution working 1 20 2 92 93 70 db' ≡ (err (not_authorised PlanStatus.stopped), db'))
stop_plan-halts_example =
    stop_plan-halts 1 20 2 81 60 (holding under_way) under_way (held under_way) refl working 2 92 93
      70

-- A plan with blockers that was never authorised.
approve_task-decides_example :
    let (r, db') = approve_task 1 20 22 2 Decision.approved 82 60 (holding hindered) in
    let (r', db'') = approve_task 1 20 22 2 Decision.rejected 82 60 (holding hindered) in
    ((r ≡ ok (decided_plan 22 Decision.approved 82 hindered))
      × IsRunnable 1 db' 20 (decided_plan 22 Decision.approved 82 hindered))
    × (r' ≡ ok (decided_plan 22 Decision.rejected 82 hindered))
    × ((adapters : ℕ → Option Adapter) (runner fresh fresh_job later : ℕ)
        → run_execution adapters 1 20 runner fresh fresh_job later db''
          ≡ (err (not_authorised PlanStatus.stopped), db''))
approve_task-decides_example =
    approve_task-decides 1 20 (holding hindered) hindered (held hindered) refl 22 2 82 60 purchase
      refl

abbrev loop_work : Work
loop_work = work_on working 1 under_way 92 60 (holding (started under_way))

finish_run-stop_example :
    let db' = (stop_plan 1 20 2 81 65 (holding (started under_way))).1 in
    let after = worked_plan (started under_way) loop_work 60 in
    (get_plan 1 db' 20 ≡ some (stopped_plan 81 (started under_way)))
    × (get_plan 1 (finish_run 1 2 93 60 after loop_work db').1 20 ≡ some after)
    × (after.status ≢ PlanStatus.stopped)
    × (after.tasks ≡ loop_work.tasks)
finish_run-stop_example =
    finish_run-stop 1 20 (holding (started under_way)) (started under_way)
      (held (started under_way)) refl 2 81 65 under_way loop_work 2 93 60 refl

abbrev surveyed : ExecutionTask
surveyed = record survey {
  status = TaskStatus.completed;
  started_at = some 60;
  completed_at = some 60;
  outcome = some (done 3 9);
  evidence = 31 ∷ [];
  cost_gbp = pos 5;
  measured_value_gbp = some (pos 40);
  simulated = false;
}

abbrev first_result : RunResult
first_result = record {
  plan = record under_way {
    status = PlanStatus.awaiting_approval;
    tasks = surveyed ∷ waiting_task purchase 92 ∷ [];
  };
  benefit = none;
  awaiting_approval = waiting_task purchase 92 ∷ [];
  measured_value_gbp = pos 40;
  total_cost_gbp = pos 5;
}

ran_plan : (run_execution working 1 20 2 92 93 60 (holding under_way)).0 ≡ ok first_result
unfolding second ◌+ℤ◌
ran_plan = refl

run_execution-reruns_example :
    let db'' = (run_execution working 1 20 2 94 95 70 ran).1 in
    (t : ExecutionTask) × In t (survey ∷ purchase ∷ [])
    × (gated t ≡ true)
    × In (invocation (started first_result.plan) (waiting_task t 92)) db''.invoked
run_execution-reruns_example =
    run_execution-reruns working working (λ c e. cc) 1 20 2 92 93 60 (λ e. cc) (holding under_way)
      under_way under_way-IsRunnable refl first_result ran_plan refl 2 94 95 70
