-- ===== src/Execution/Run/Halting.antt =====
-- `stopPlan` of src/lib/execution/engine.ts, and a run that comes after it.
use aijoes_app.Prelude.{ℕ, false, ◌≡◌, refl, ◌∙◌, Option, some, List, [], ◌∷◌, arith, map, All}
use aijoes_app.Execution.Control.{stop_plan, stopped_plan, stop_task, stoppable}
use aijoes_app.Execution.Loop.{runnable}
use aijoes_app.Execution.Run.{run_execution}
use aijoes_app.Execution.Run.Frame.{run_execution-throws}
use aijoes_app.Execution.Store.{
  Db, not_authorised, ok, err, persist_plan, get_plan, found_or, ◌>>=◌,
}
use aijoes_app.Execution.Store.Plans.{get_plan-persist_plan, get_plan_of_plans}
use aijoes_app.Execution.Task.{Adapter}
use aijoes_app.Execution.Types.{ExecutionPlan, ExecutionTask, PlanStatus}

-- No task is left that could still run.
abbrev pub Still : ExecutionTask → Type 0
Still t = stoppable t.status ≡ false

stop_task-Still : (reason : ℕ) (ts : List ExecutionTask) → All Still (map (stop_task reason) ts)
stop_task-Still reason [] = tt
stop_task-Still reason (t ∷ ts) = (first t, stop_task-Still reason ts)
  where
    first : (t : ExecutionTask) → Still (stop_task reason t)
    first t = ground arith

module _ (tenant plan user reason now : ℕ) (db : Db) (p : ExecutionPlan)
    (found : get_plan tenant db plan ≡ some p) (own : p.id ≡ plan) where
  pub stop_plan-stored :
      get_plan tenant (stop_plan tenant plan user reason now db).1 plan
      ≡ some (stopped_plan reason p)
  unfolding stop_plan
  stop_plan-stored =
      rw (found, found_or, ◌>>=◌)
        (get_plan_of_plans tenant (persist_plan tenant (stopped_plan reason p) db) _ plan refl
          ∙ get_plan-persist_plan tenant tenant db plan (stopped_plan reason p) p found own)

  -- Stopping a plan of the tenant returns it STOPPED, with no task pending, running or awaiting
  -- approval, and a run that comes after it throws and changes nothing.
  pub stop_plan-halts :
      (adapters : ℕ → Option Adapter) (runner fresh fresh_job later : ℕ)
      → let (r, db') = stop_plan tenant plan user reason now db in
        (r ≡ ok (stopped_plan reason p))
        × All Still (stopped_plan reason p).tasks
        × (run_execution adapters tenant plan runner fresh fresh_job later db'
            ≡ (err (not_authorised PlanStatus.stopped), db'))
  unfolding stop_plan
  stop_plan-halts adapters runner fresh fresh_job later = (
    rw (found, found_or, ◌>>=◌) refl,
    stop_task-Still reason p.tasks,
    (run_execution-throws adapters tenant plan runner fresh fresh_job later
          (stop_plan tenant plan user reason now db).1).1
        (stopped_plan reason p) stop_plan-stored (unfold runnable in refl),
  )
