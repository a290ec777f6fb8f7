-- ===== src/Execution/Run/Safety.antt =====
-- `runExecution` of src/lib/execution/engine.ts: what one run may do, how it ends, and what it leaves
-- behind.
use aijoes_app.Prelude.{
  ℕ, pos, true, false, ◌≡◌, refl, sym, ◌∙◌, ap, ◌⊎◌, inl, inr, Option, some, [], ◌∷◌, arith, all,
  In, Bool-cases, Option-cases,
}
use aijoes_app.Execution.Loop.{Work, worked_plan, runnable, settled, waiting_task, is_rejected}
use aijoes_app.Execution.Loop.Gate.{run_loop-Released, Ends, run_loop-Ends, run_loop-plans}
use aijoes_app.Execution.Run.{run_execution, RunResult, started}
use aijoes_app.Execution.Run.Frame.{
  begun, work, run_execution-returns, run_execution-throws, run_execution-rejected,
  run_execution-invoked,
}
use aijoes_app.Execution.Store.{Db, Invocation, ok, err, adapter_rejected, persist_plan, get_plan}
use aijoes_app.Execution.Store.Plans.{get_plan-persist_plan, get_plan_of_plans}
use aijoes_app.Execution.Task.{Adapter, gated, invocation}
use aijoes_app.Execution.Task.Retry.{Rejects}
use aijoes_app.Execution.Types.{ExecutionPlan, ExecutionTask, PlanStatus, TaskStatus}

-- The plan is one that a run accepts.
pub record IsRunnable (tenant : ℕ) (db : Db) (plan : ℕ) (p : ExecutionPlan) : Type 0 where
  pub found : get_plan tenant db plan ≡ some p
  pub status :
      (p.status ≡ PlanStatus.authorised)
      ⊎ (p.status ≡ PlanStatus.executing)
      ⊎ (p.status ≡ PlanStatus.awaiting_approval)

pub runnable_iff :
    (s : PlanStatus)
    → ((runnable s ≡ true)
        → (s ≡ PlanStatus.authorised)
          ⊎ (s ≡ PlanStatus.executing)
          ⊎ (s ≡ PlanStatus.awaiting_approval))
      × ((s ≡ PlanStatus.authorised)
            ⊎ (s ≡ PlanStatus.executing)
            ⊎ (s ≡ PlanStatus.awaiting_approval)
          → runnable s ≡ true)
unfolding runnable
runnable_iff s = (λ h. ground arith, λ h. ground arith)

begun-invoked :
    (adapters : ℕ → Option Adapter) (tenant plan user fresh fresh_job now : ℕ) (db : Db)
    (p : ExecutionPlan)
    → (begun adapters tenant plan user fresh fresh_job now db p).invoked ≡ db.invoked
unfolding persist_plan
begun-invoked adapters tenant plan user fresh fresh_job now db p = refl

pub worked_plan-id : (p : ExecutionPlan) (w : Work) (now : ℕ) → (worked_plan p w now).id ≡ p.id
unfolding worked_plan
worked_plan-id p w now = elim (Bool-cases (all (λ t. settled t.status) w.tasks)) [
  | inl e ↦ rw e
  | inr e ↦ rw e
]

module _ (adapters : ℕ → Option Adapter) (tenant plan user fresh fresh_job now : ℕ) (db : Db) where
  -- Whatever a run hands to an adapter that was not handed over before belongs to a task of a plan
  -- of the tenant in status AUTHORISED, EXECUTING or AWAITING_APPROVAL, and to a task that is
  -- neither settled nor requires an approval for which no request is recorded. In every other case
  -- nothing reaches an adapter.
  pub run_execution-Released :
      (j : Invocation)
      → In j (run_execution adapters tenant plan user fresh fresh_job now db).1.invoked
      → In j db.invoked
        ⊎ ((p : ExecutionPlan) × IsRunnable tenant db plan p
            × (t : ExecutionTask) × In t p.tasks
            × (settled t.status ≡ false)
            × (gated t ≡ false)
            × (j ≡ invocation (started p) t))
  run_execution-Released j m = elim (Option-cases (get_plan tenant db plan)) [
    | inl e ↦
        let (thrown, _) = run_execution-throws adapters tenant plan user fresh fresh_job now db in
        inl (rw (thrown e) at m)
    | inr (p, e) ↦ elim (Bool-cases (runnable p.status)) [
      | inr n ↦
          let (_, thrown) = run_execution-throws adapters tenant plan user fresh fresh_job now db in
          inl (rw (thrown p e n) at m)
      | inl y ↦
          let made = run_execution-invoked adapters tenant plan user fresh fresh_job now db p e y in
          elim (run_loop-Released adapters tenant (started p) fresh now p.tasks (pos 0) (pos 0) _ j
            (rw made at m)) [
              | inl old ↦
                  inl (rw (begun-invoked adapters tenant plan user fresh fresh_job now db p) at old)
              | inr (t, listed, s, g, same) ↦ inr (
                p,
                record { found = e; status = (runnable_iff p.status).0 y },
                t,
                listed,
                s,
                g,
                same,
              )
            ]
    ]
  ]

  -- All through the loop the stored plan is the one that was started.
  pub work-get_plan :
      (p : ExecutionPlan)
      → IsRunnable tenant db plan p
      → p.id ≡ plan
      → get_plan tenant (work adapters tenant plan user fresh fresh_job now db p).db plan
        ≡ some (started p)
  work-get_plan p h own =
      get_plan_of_plans tenant (begun adapters tenant plan user fresh fresh_job now db p) _ plan
        (run_loop-plans adapters tenant (started p) fresh now p.tasks (pos 0) (pos 0) _)
      ∙ get_plan-persist_plan tenant tenant db plan (started p) p h.found own

  -- How a run ended, by the plan that it returns.
  abbrev pub Concludes : ExecutionPlan → RunResult → Type 0
  Concludes p r =
      ((r.plan.status ≡ PlanStatus.completed)
        × (all (λ t. settled t.status) r.plan.tasks ≡ true)
        × (r.awaiting_approval ≡ [])
        × (r.plan.completed_at ≡ some now))
      ⊎ ((r.plan.status ≡ PlanStatus.awaiting_approval)
          × (all (λ t. settled t.status) r.plan.tasks ≡ false)
          × ((t : ExecutionTask) × In t p.tasks
              × (gated t ≡ true)
              × (r.awaiting_approval ≡ waiting_task t fresh ∷ [])
              × In (waiting_task t fresh) r.plan.tasks))
      ⊎ ((r.plan.status ≡ PlanStatus.failed)
          × (all (λ t. settled t.status) r.plan.tasks ≡ false)
          × (r.awaiting_approval ≡ [])
          × ((t : ExecutionTask) × In t r.plan.tasks × (t.status ≡ TaskStatus.failed)))

  worked_plan-Concludes :
      (p : ExecutionPlan) (w : Work) (r : RunResult)
      → Ends adapters tenant (started p) fresh now p.tasks w
      → is_rejected w.ending ≡ false
      → r.plan ≡ worked_plan (started p) w now
      → r.awaiting_approval ≡ w.awaiting
      → Concludes p r
  unfolding worked_plan
  worked_plan-Concludes p w r (inl (e, a, n)) whole same wait =
      inl (rw (same, a) refl, rw (same, a) a, wait ∙ n, rw (same, a) refl)
  worked_plan-Concludes p w r (inr (inl (e, a, (t, m, g, n, k)))) whole same wait =
      inr (inl (rw (same, a, e) refl, rw (same, a) a, (t, m, g, wait ∙ n, rw (same, a) k)))
  worked_plan-Concludes p w r (inr (inr (inl (e, a, n, (t, m, f))))) whole same wait =
      inr (inr (rw (same, a, e) refl, rw (same, a) a, wait ∙ n, (t, rw (same, a) m, f)))
  worked_plan-Concludes p w r (inr (inr (inr (e, _)))) whole same wait = absurd (ground arith)

  -- A run of a runnable plan returns, or it throws since an adapter rejected the invocation of one of
  -- the plan's tasks. The plan that it returns is COMPLETED at that instant, with every task completed
  -- or skipped; or AWAITING_APPROVAL, with one task of the plan, which requires an approval, newly
  -- waiting under its request's id, in the plan and in the result; or FAILED, with a task that failed.
  -- It is never left EXECUTING, and it is the plan that is then stored under the id that the run was
  -- called with. Where the run throws, the plan is stored EXECUTING, with its tasks as they were.
  pub run_execution-Concludes :
      (p : ExecutionPlan)
      → IsRunnable tenant db plan p
      → p.id ≡ plan
      → let (result, db') = run_execution adapters tenant plan user fresh fresh_job now db in
        ((r : RunResult) × (result ≡ ok r)
          × Concludes p r
          × (get_plan tenant db' plan ≡ some r.plan))
        ⊎ ((result ≡ err adapter_rejected)
            × (get_plan tenant db' plan ≡ some (started p))
            × ((t : ExecutionTask) × In t p.tasks × Rejects adapters (started p) t))
  run_execution-Concludes p h own =
      let w = work adapters tenant plan user fresh fresh_job now db p in
      let p' = worked_plan (started p) w now in
      let runs = (runnable_iff p.status).1 h.status in
      let ends =
        run_loop-Ends adapters tenant (started p) fresh now p.tasks (pos 0) (pos 0)
          (begun adapters tenant plan user fresh fresh_job now db p) in
      elim (Bool-cases (is_rejected w.ending)) [
        | inl thrown ↦
            let made =
              run_execution-rejected adapters tenant plan user fresh fresh_job now db p h.found runs
                thrown in
            inr (
              ap (λ x. x.0) made,
              ap (λ x. get_plan tenant x.1 plan) made ∙ work-get_plan p h own,
              rejected_task p w ends thrown,
            )
        | inr whole ↦
            let ((r, returned, same, wait), plans, _) =
              run_execution-returns adapters tenant plan user fresh fresh_job now db p h.found runs
                whole in
            inl (
              r,
              returned,
              worked_plan-Concludes p w r ends whole same wait,
              get_plan_of_plans tenant (persist_plan tenant p' w.db) _ plan plans
                  ∙ get_plan-persist_plan tenant tenant w.db plan p' (started p)
                      (work-get_plan p h own) (worked_plan-id (started p) w now ∙ own)
                  ∙ ap some (sym same),
            )
      ]
    where
      rejected_task :
          (p : ExecutionPlan) (w : Work)
          → Ends adapters tenant (started p) fresh now p.tasks w
          → is_rejected w.ending ≡ true
          → (t : ExecutionTask) × In t p.tasks × Rejects adapters (started p) t
      rejected_task p w (inl (e, _, _)) k = absurd (ground arith)
      rejected_task p w (inr (inl (e, _, _))) k = absurd (ground arith)
      rejected_task p w (inr (inr (inl (e, _, _, _)))) k = absurd (ground arith)
      rejected_task p w (inr (inr (inr (e, t)))) k = t
