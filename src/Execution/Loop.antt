-- ===== src/Execution/Loop.antt =====
-- The loop of `runExecution` in src/lib/execution/engine.ts: the tasks of a plan in order, up to the
-- first that waits for approval or fails.
pub mod Gate
pub mod Rerun
use aijoes_app.Prelude.{
  ℕ, ℤ, pos, ◌+ℤ◌, Bool, true, false, Option, none, some, get_or, List, [], ◌∷◌, all, if◌then◌else◌,
}
use aijoes_app.Execution.Types.{PlanStatus, ExecutionPlan, ExecutionTask, TaskStatus}
use aijoes_app.Execution.Store.{Db}
use aijoes_app.Execution.Task.{Adapter, gated, execute_task, request_approval}

-- The loop of `runExecution`: what it has done to the tasks, and how it ended.
pub data Ending : Type 0 where
  ended gate_reached task_failed task_rejected : Ending

pub record Work : Type 0 where
  pub tasks : List ExecutionTask
  pub awaiting : List ExecutionTask
  pub measured : ℤ
  pub cost : ℤ
  pub ending : Ending
  pub db : Db

abbrev pub settled : TaskStatus → Bool
settled TaskStatus.completed = true
settled TaskStatus.skipped = true
settled _ = false

abbrev pub is_failed : TaskStatus → Bool
is_failed TaskStatus.failed = true
is_failed _ = false

abbrev pub keep_task : ExecutionTask → Work → Work
keep_task t w = record w { tasks = t ∷ w.tasks }

abbrev pub waiting_task : ExecutionTask → ℕ → ExecutionTask
waiting_task t fresh = record t { status = TaskStatus.awaiting_approval; approval_id = some fresh }

unfoldable pub run_loop :
    (ℕ → Option Adapter) → ℕ → ExecutionPlan → ℕ → ℕ → List ExecutionTask → ℤ → ℤ → Db → Work
run_loop adapters tenant p fresh now [] measured cost db = record {
  tasks = [];
  awaiting = [];
  measured = measured;
  cost = cost;
  ending = ended;
  db = db;
}
run_loop adapters tenant p fresh now (t ∷ ts) measured cost db =
    let skip = keep_task t (
      run_loop adapters tenant p fresh now ts (measured +ℤ get_or t.measured_value_gbp (pos 0))
        (cost +ℤ t.cost_gbp) db) in
    let stop : Work = record {
      tasks = waiting_task t fresh ∷ ts;
      awaiting = waiting_task t fresh ∷ [];
      measured = measured;
      cost = cost;
      ending = gate_reached;
      db = request_approval tenant p t fresh now db;
    } in
    let (done, db') = execute_task adapters p t now db in
    let throw : Work = record {
      tasks = t ∷ ts;
      awaiting = [];
      measured = measured;
      cost = cost;
      ending = task_rejected;
      db = db';
    } in
    let run : Work = elim done [
      | none ↦ throw
      | some t' ↦
          let measured' = measured +ℤ get_or t'.measured_value_gbp (pos 0) in
          let cost' = cost +ℤ t'.cost_gbp in
          let fail : Work = record {
            tasks = t' ∷ ts;
            awaiting = [];
            measured = measured';
            cost = cost';
            ending = task_failed;
            db = db';
          } in
          let go = keep_task t' (run_loop adapters tenant p fresh now ts measured' cost' db') in
          if is_failed t'.status then fail else go
    ] in
    if settled t.status then skip else if gated t then stop else run

-- The run throws where the loop did.
abbrev pub is_rejected : Ending → Bool
is_rejected task_rejected = true
is_rejected _ = false

abbrev pub ending_status : Ending → PlanStatus
ending_status ended = PlanStatus.executing
ending_status task_rejected = PlanStatus.executing
ending_status gate_reached = PlanStatus.awaiting_approval
ending_status task_failed = PlanStatus.failed

-- The plan after the loop, with `allDone`.
unfoldable pub worked_plan : ExecutionPlan → Work → ℕ → ExecutionPlan
worked_plan p w now =
    if all (λ t. settled t.status) w.tasks
    then record p { tasks = w.tasks; status = PlanStatus.completed; completed_at = some now }
    else record p { tasks = w.tasks; status = ending_status w.ending }

unfoldable pub runnable : PlanStatus → Bool
runnable PlanStatus.authorised = true
runnable PlanStatus.executing = true
runnable PlanStatus.awaiting_approval = true
runnable _ = false
