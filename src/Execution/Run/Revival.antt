-- ===== src/Execution/Run/Revival.antt =====
-- `runExecution`, `approveTask` and `stopPlan` of src/lib/execution/engine.ts against each other: a
-- second run, a decision on a plan in any state, and a stop while a run is under way.
use aijoes_app.Prelude.{
  false, ℕ, ℤ, pos, true, ◌≡◌, ◌≢◌, refl, ◌∙◌, ap, sym, map, get_or, inl, inr, Option, none, some,
  List, arith, all, find?, In, Bool-cases, ◌==◌,
}
use aijoes_app.Execution.Control.{
  decide_approval, approve_task, stop_plan, stopped_plan, decided_plan,
}
use aijoes_app.Execution.Loop.{
  runnable, is_rejected, Work, gate_reached, Ending, run_loop, worked_plan, settled, waiting_task,
  ending_status,
}
use aijoes_app.Execution.Loop.Rerun.{run_loop-Passed}
use aijoes_app.Execution.Run.{run_execution, finish_run, RunResult, started}
use aijoes_app.Execution.Run.Frame.{
  work, run_execution-returns, run_execution-throws, run_execution-rejected, run_execution-invoked,
  finish_run-returns,
}
use aijoes_app.Execution.Run.Halting.{stop_plan-stored}
use aijoes_app.Execution.Run.Safety.{
  IsRunnable, run_execution-Concludes, runnable_iff, worked_plan-id,
}
use aijoes_app.Execution.Store.{
  Db, Invocation, Decision, Error, ok, err, not_authorised, persist_plan, get_plan, found_or, ◌>>=◌,
}
use aijoes_app.Execution.Store.Plans.{get_plan-persist_plan, get_plan_of_plans}
use aijoes_app.Execution.Task.{Adapter, gated, invocation}
use aijoes_app.Execution.Types.{ExecutionPlan, ExecutionTask, PlanStatus}

gate_of_status :
    (p : ExecutionPlan) (w : Work) (now : ℕ)
    → (worked_plan p w now).status ≡ PlanStatus.awaiting_approval
    → w.ending ≡ gate_reached
unfolding worked_plan
gate_of_status p w now h = elim (Bool-cases (all (λ t. settled t.status) w.tasks)) [
  | inl e ↦ absurd (ground arith)
  | inr e ↦ by_ending w.ending (rw e at h)
]
  where
    by_ending : (e : Ending) → ending_status e ≡ PlanStatus.awaiting_approval → e ≡ gate_reached
    by_ending e h = ground arith

worked_plan-tasks : (p : ExecutionPlan) (w : Work) (now : ℕ) → (worked_plan p w now).tasks ≡ w.tasks
unfolding worked_plan
worked_plan-tasks p w now = elim (Bool-cases (all (λ t. settled t.status) w.tasks)) [
  | inl e ↦ rw e
  | inr e ↦ rw e
]

ok-inj : (a b : RunResult) → ok a ≡ ok b → a ≡ b
ok-inj a b e = cc

ok-err : (a : RunResult) (e : Error) → ok a ≢ err e
ok-err a e k = cc

-- A run never leaves its plan STOPPED.
worked_plan-not_stopped :
    (p : ExecutionPlan) (w : Work) (now : ℕ) → (worked_plan p w now).status ≢ PlanStatus.stopped
unfolding worked_plan
worked_plan-not_stopped p w now h = elim (Bool-cases (all (λ t. settled t.status) w.tasks)) [
  | inl e ↦ absurd (ground arith)
  | inr e ↦ by_ending w.ending (rw e at h)
]
  where
    by_ending : (e : Ending) → ending_status e ≢ PlanStatus.stopped
    by_ending e h = absurd (ground arith)

approve_task-decided :
    (tenant plan : ℕ) (db : Db) (p : ExecutionPlan)
    → get_plan tenant db plan ≡ some p
    → p.id ≡ plan
    → (task user rationale now : ℕ) (t : ExecutionTask) → find? (λ t. t.id == task) p.tasks ≡ some t
    → (d : Decision)
    → ((approve_task tenant plan task user d rationale now db).0
        ≡ ok (decided_plan task d rationale p))
      × (get_plan tenant (approve_task tenant plan task user d rationale now db).1 plan
          ≡ some (decided_plan task d rationale p))
unfolding approve_task
approve_task-decided tenant plan db p found own task user rationale now t listed d =
    let between = record db {
      approvals =
          map (decide_approval tenant (get_or t.approval_id 0) user d rationale now) db.approvals;
    } in
    let p' = decided_plan task d rationale p in
    rw (found, found_or, ◌>>=◌, listed)
      (
        refl,
        get_plan_of_plans tenant (persist_plan tenant p' between) _ plan refl
            ∙ get_plan-persist_plan tenant tenant between plan p' p
                (get_plan_of_plans tenant db between plan refl ∙ found) own,
      )

module _ (tenant plan : ℕ) (db : Db) (p : ExecutionPlan) (found : get_plan tenant db plan ≡ some p)
    (own : p.id ≡ plan) where
  -- A decision on a task of a plan of the tenant is stored whatever the plan's status was: approval
  -- makes the plan one that a run accepts, rejection makes every later run throw and change nothing.
  pub approve_task-decides :
      (task user rationale now : ℕ) (t : ExecutionTask)
      → find? (λ t. t.id == task) p.tasks ≡ some t
      → let (r, db') = approve_task tenant plan task user Decision.approved rationale now db in
        let (r', db'') = approve_task tenant plan task user Decision.rejected rationale now db in
        ((r ≡ ok (decided_plan task Decision.approved rationale p))
          × IsRunnable tenant db' plan (decided_plan task Decision.approved rationale p))
        × (r' ≡ ok (decided_plan task Decision.rejected rationale p))
        × ((adapters : ℕ → Option Adapter) (runner fresh fresh_job later : ℕ)
            → run_execution adapters tenant plan runner fresh fresh_job later db''
              ≡ (err (not_authorised PlanStatus.stopped), db''))
  approve_task-decides task user rationale now t listed =
      let (agreed, kept) =
        approve_task-decided tenant plan db p found own task user rationale now t listed
          Decision.approved in
      let (refused, written) =
        approve_task-decided tenant plan db p found own task user rationale now t listed
          Decision.rejected in
      (
        (agreed, record { found = kept; status = inl refl }),
        refused,
        λ adapters runner fresh fresh_job later.
            (run_execution-throws adapters tenant plan runner fresh fresh_job later _).1
              (decided_plan task Decision.rejected rationale p) written (unfold runnable in refl),
      )

  -- Whatever a run's loop has done, the end of the run overwrites a stop that was made meanwhile:
  -- the plan that is then stored is the one of the run, and it is not STOPPED.
  pub finish_run-stop :
      (stopper reason then : ℕ) (before : ExecutionPlan) (w : Work) (user fresh_job now : ℕ)
      → before.id ≡ plan
      → let db' = (stop_plan tenant plan stopper reason then db).1 in
        let after = worked_plan (started before) w now in
        (get_plan tenant db' plan ≡ some (stopped_plan reason p))
        × (get_plan tenant (finish_run tenant user fresh_job now after w db').1 plan ≡ some after)
        × (after.status ≢ PlanStatus.stopped)
        × (after.tasks ≡ w.tasks)
  finish_run-stop stopper reason then before w user fresh_job now same =
      let after = worked_plan (started before) w now in
      let db' = (stop_plan tenant plan stopper reason then db).1 in
      let (_, plans, _) = finish_run-returns tenant user fresh_job now after w db' in
      let stored = stop_plan-stored tenant plan stopper reason then db p found own in
      (
        stored,
        get_plan_of_plans tenant (persist_plan tenant after db') _ plan plans
            ∙ get_plan-persist_plan tenant tenant db' plan after (stopped_plan reason p) stored
                (worked_plan-id (started before) w now ∙ same),
        worked_plan-not_stopped (started before) w now,
        worked_plan-tasks (started before) w now,
      )

module _ (adapters again : ℕ → Option Adapter) (known : (c : ℕ) → again c ≢ none)
    (tenant plan user fresh fresh_job now : ℕ) (some_id : fresh ≢ 0) (db : Db) (p : ExecutionPlan)
    (h : IsRunnable tenant db plan p) (own : p.id ≡ plan) where
  invoked_of_tasks :
      (q : ExecutionPlan) (fresh' later : ℕ) (m c : ℤ) (ts us : List ExecutionTask) (j : Invocation)
      (d' : Db)
      → us ≡ ts
      → In j (run_loop again tenant q fresh' later ts m c d').db.invoked
      → In j (run_loop again tenant q fresh' later us m c d').db.invoked
  invoked_of_tasks q fresh' later m c ts us j d' e k = rw e k

  -- When a run of a runnable plan returns it AWAITING_APPROVAL, and every capability has an
  -- adapter, a second run with no decision in between hands a task that requires an approval to its
  -- adapter: the id of the pending request opens the gate.
  pub run_execution-reruns :
      (r : RunResult)
      → (run_execution adapters tenant plan user fresh fresh_job now db).0 ≡ ok r
      → r.plan.status ≡ PlanStatus.awaiting_approval
      → (user' fresh' fresh_job' later : ℕ)
      → let db' = (run_execution adapters tenant plan user fresh fresh_job now db).1 in
        let db'' = (run_execution again tenant plan user' fresh' fresh_job' later db').1 in
        (t : ExecutionTask) × In t p.tasks
        × (gated t ≡ true)
        × In (invocation (started r.plan) (waiting_task t fresh)) db''.invoked
  run_execution-reruns r returned waits user' fresh' fresh_job' later =
      let w = work adapters tenant plan user fresh fresh_job now db p in
      let db' = (run_execution adapters tenant plan user fresh fresh_job now db).1 in
      let runs = (runnable_iff p.status).1 h.status in
      let whole : is_rejected w.ending ≡ false = (elim (Bool-cases (is_rejected w.ending)) [
        | inl thrown ↦ absurd (
            ok-err r _ (
              sym returned
              ∙ ap (λ x. x.0)
                  (run_execution-rejected adapters tenant plan user fresh fresh_job now db p h.found
                    runs thrown)))
        | inr e ↦ e
      ]) in
      let ((r', returned', same, _), _, _) =
        run_execution-returns adapters tenant plan user fresh fresh_job now db p h.found runs
          whole in
      let plan_is : r.plan ≡ worked_plan (started p) w now =
        ap (λ x. x.plan) (ok-inj r r' (sym returned ∙ returned')) ∙ same in
      let plan_stored : get_plan tenant db' plan ≡ some r.plan =
        (elim (run_execution-Concludes adapters tenant plan user fresh fresh_job now db p h own) [
          | inl (r'', returned'', _, stored) ↦
              stored ∙ ap (λ x. some x.plan) (ok-inj r'' r (sym returned'' ∙ returned))
          | inr (thrown, _, _) ↦ absurd (ok-err r _ (sym returned ∙ thrown))
        ]) in
      let tasks : r.plan.tasks ≡ w.tasks =
        ap (λ q. q.tasks) plan_is ∙ worked_plan-tasks (started p) w now in
      let (t, listed, gate, again_made) =
        run_loop-Passed adapters tenant (started p) fresh now some_id again known (started r.plan)
          fresh' later p.tasks (pos 0) (pos 0) _
          (gate_of_status (started p) w now (sym (ap (λ q. q.status) plan_is) ∙ waits)) in
      let made =
        run_execution-invoked again tenant plan user' fresh' fresh_job' later db' r.plan plan_stored
          ((runnable_iff r.plan.status).1 (inr (inr waits))) in
      (
        t,
        listed,
        gate,
        rw made (
            invoked_of_tasks (started r.plan) fresh' later (pos 0) (pos 0) w.tasks r.plan.tasks _ _
              tasks (again_made _ _ _)),
      )
