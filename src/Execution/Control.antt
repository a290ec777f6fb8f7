-- ===== src/Execution/Control.antt =====
-- `approveTask` and `stopPlan` of src/lib/execution/engine.ts: what a human decides while a plan is
-- under way.
use aijoes_app.Prelude.{
  ℕ, Bool, true, false, ◌&&◌, some, get_or, List, [], ◌∷◌, map, find?, if◌then◌else◌, ◌==◌,
}
use aijoes_app.Execution.Types.{PlanStatus, ExecutionPlan, ExecutionTask, TaskStatus, Outcome}
use aijoes_app.Execution.Store.{
  Approval, Decision, AuditAction, plan_not_found, task_not_found, Action, ◌>>=◌, ◌>>◌, pure,
  modify, audit, persist_plan, get_plan, or_throw, approval_granted, approval_rejected,
  execution_stopped,
}

-- `approveTask`.
abbrev pub decide_approval : ℕ → ℕ → ℕ → Decision → ℕ → ℕ → Approval → Approval
decide_approval tenant id user d rationale now a =
    if a.tenant_id == tenant && a.id == id
    then record a {
      decided_at = some now;
      decided_by = some user;
      decision = some d;
      rationale = some rationale;
    }
    else a

abbrev pub decided_task : Decision → ℕ → ExecutionTask → ExecutionTask
decided_task Decision.approved rationale t = record t {
  status = TaskStatus.pending;
  approval_required = false;
}
decided_task Decision.rejected rationale t = record t {
  status = TaskStatus.skipped;
  outcome = some (Outcome.rejected rationale);
}

-- `tasks[idx] = …` at the first task of that id.
unfoldable pub decide_first : ℕ → Decision → ℕ → List ExecutionTask → List ExecutionTask
decide_first id d rationale [] = []
decide_first id d rationale (t ∷ ts) =
    if t.id == id then decided_task d rationale t ∷ ts else t ∷ decide_first id d rationale ts

abbrev pub decided_status : Decision → PlanStatus
decided_status Decision.approved = PlanStatus.authorised
decided_status Decision.rejected = PlanStatus.stopped

abbrev pub decided_plan : ℕ → Decision → ℕ → ExecutionPlan → ExecutionPlan
decided_plan task d rationale p = record p {
  tasks = decide_first task d rationale p.tasks;
  status = decided_status d;
}

abbrev pub approval_action : Decision → ℕ → ℕ → AuditAction
approval_action Decision.approved plan rationale = approval_granted plan rationale
approval_action Decision.rejected plan rationale = approval_rejected plan rationale

unfoldable pub approve_task : ℕ → ℕ → ℕ → ℕ → Decision → ℕ → ℕ → Action ExecutionPlan
approve_task tenant plan task user d rationale now = do
  p ← λ db. or_throw (get_plan tenant db plan) (plan_not_found plan) db
  t ← or_throw (find? (λ t. t.id == task) p.tasks) (task_not_found task plan)
  modify (λ db. record db {
    approvals =
        map (decide_approval tenant (get_or t.approval_id 0) user d rationale now) db.approvals;
  })
  modify (persist_plan tenant (decided_plan task d rationale p))
  audit (record {
    tenant_id = tenant;
    actor = user;
    action = approval_action d plan rationale;
    subject_id = task;
    at = now;
  })
  pure (decided_plan task d rationale p)

-- `stopPlan`.
abbrev pub stoppable : TaskStatus → Bool
stoppable TaskStatus.pending = true
stoppable TaskStatus.awaiting_approval = true
stoppable TaskStatus.running = true
stoppable _ = false

abbrev pub stop_task : ℕ → ExecutionTask → ExecutionTask
stop_task reason t =
    if stoppable t.status
    then record t { status = TaskStatus.skipped; outcome = some (Outcome.stopped reason) }
    else t

abbrev pub stopped_plan : ℕ → ExecutionPlan → ExecutionPlan
stopped_plan reason p = record p {
  status = PlanStatus.stopped;
  tasks = map (stop_task reason) p.tasks;
}

unfoldable pub stop_plan : ℕ → ℕ → ℕ → ℕ → ℕ → Action ExecutionPlan
stop_plan tenant plan user reason now = do
  p ← λ db. or_throw (get_plan tenant db plan) (plan_not_found plan) db
  modify (persist_plan tenant (stopped_plan reason p))
  audit (record {
    tenant_id = tenant;
    actor = user;
    action = execution_stopped reason;
    subject_id = plan;
    at = now;
  })
  pure (stopped_plan reason p)
