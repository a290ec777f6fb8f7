-- ===== src/Execution/Store.antt =====
-- The database as the execution engine sees it (the tables that src/lib/execution/engine.ts reads
-- and writes), `persistPlan`, `getPlan` and the monad of its operations: a method reads and writes
-- the database, and throws an `ExecutionError` or an error of the ledger. What was written before a
-- throw stays written.
pub mod Plans
use aijoes_app.Prelude.{
  ℕ, ℤ, Bool, ◌&&◌, Option, none, some, List, [], ◌∷◌, ◌++◌, map, find?, any, if◌then◌else◌, ◌==◌,
}
use aijoes_app.Benefits.Ledger.{BenefitTable, BenefitStageError}
use aijoes_app.Core.Opportunity.{Opportunity}
use aijoes_app.Execution.Types.{ExecutionPlan, ExecutionTask, PlanStatus, TaskInputs, Outcome}
use aijoes_app.Jobs.Queue.{Jobs}
use aijoes_app.Verification.Baseline.{Baseline, BaselineKind}
use aijoes_app.Verification.Facts.{FactRow}

-- The columns that are written once, and the plan of `plan_json`.
pub record PlanRow : Type 0 where
  pub row_id : ℕ
  pub tenant_id : ℕ
  pub plan : ExecutionPlan

pub record TaskRow : Type 0 where
  pub row_id : ℕ
  pub tenant_id : ℕ
  pub task : ExecutionTask

pub data Decision : Type 0 where
  approved rejected : Decision

pub record Approval : Type 0 where
  pub id : ℕ
  pub tenant_id : ℕ
  pub execution_plan_id : ℕ
  pub task_id : Option ℕ
  pub requested_at : ℕ
  pub decided_at : Option ℕ
  pub decided_by : Option ℕ
  pub decision : Option Decision
  pub rationale : Option ℕ

pub record OpportunityRow : Type 0 where
  pub row_id : ℕ
  pub tenant_id : ℕ
  pub opportunity : Opportunity

-- The actions of the audit log, with some of the details that the engine writes.
pub data AuditAction : Type 0 where
  plan_authorised : (rationale : ℕ) → AuditAction
  baseline_captured : BaselineKind → AuditAction
  run_ended : PlanStatus → ℤ → AuditAction
  approval_requested : (plan : ℕ) → AuditAction
  approval_granted approval_rejected : (plan rationale : ℕ) → AuditAction
  execution_stopped : (reason : ℕ) → AuditAction
  benefit_verified : ℤ → AuditAction

pub record AuditRecord : Type 0 where
  pub tenant_id : ℕ
  pub actor : ℕ
  pub action : AuditAction
  pub subject_id : ℕ
  pub at : ℕ

pub record AgentEvent : Type 0 where
  pub tenant_id : ℕ
  pub company_id : ℕ
  pub capability_id : ℕ
  pub execution_id : ℕ
  pub task_id : ℕ
  pub succeeded : Bool
  pub cost_gbp : ℤ
  pub benefit_gbp : ℤ
  pub failure : Option Outcome
  pub retry_count : ℕ
  pub simulated : Bool

-- What is handed to a capability's adapter.
pub record Invocation : Type 0 where
  pub capability_id : ℕ
  pub action_id : ℕ
  pub tenant_id : ℕ
  pub company_id : ℕ
  pub inputs : TaskInputs

-- `invoked` is no table: it is the invocations that have left the platform, the latest first.
pub record Db : Type 0 where
  pub plans : List PlanRow
  pub tasks : List TaskRow
  pub approvals : List Approval
  pub opportunities : List OpportunityRow
  pub benefits : BenefitTable
  pub baselines : List Baseline
  pub facts : List FactRow
  pub jobs : Jobs
  pub audit_log : List AuditRecord
  pub agent_events : List AgentEvent
  pub invoked : List Invocation

pub data Error : Type 0 where
  plan_not_found : (plan : ℕ) → Error
  task_not_found : (task plan : ℕ) → Error
  blocked : List ℕ → Error
  not_awaiting_authorisation not_authorised : PlanStatus → Error
  ledger : BenefitStageError → Error
  adapter_rejected : Error

pub data Result (A : Type 0) : Type 0 where
  ok : A → Result A
  err : Error → Result A

abbrev pub Action : Type 0 → Type 0
Action A = Db → Result A × Db

infixl 5 ◌>>=◌ ◌>>◌
abbrev pub ◌>>=◌ : {A B : Type 0} → Action A → (A → Action B) → Action B
◌>>=◌ m f db = let (r, db') = m db in elim r [ ok a ↦ f a db' | err e ↦ (err e, db') ]

abbrev pub ◌>>◌ : {A B : Type 0} → Action A → Action B → Action B
m >> k = m >>= λ _. k

abbrev pub pure : {A : Type 0} → A → Action A
pure a db = (ok a, db)

abbrev pub throw_if : Bool → Error → Action (Unit {0})
throw_if c e db = (if c then err e else ok tt, db)

abbrev pub modify : (Db → Db) → Action (Unit {0})
modify f db = (ok tt, f db)

abbrev pub audit : AuditRecord → Action (Unit {0})
audit r = modify (λ db. record db { audit_log = db.audit_log ++ r ∷ [] })

abbrev pub rewrite_plan : ExecutionPlan → PlanRow → PlanRow
rewrite_plan p r = if r.row_id == p.id then record r { plan = p } else r

abbrev pub put_plan : ℕ → ExecutionPlan → List PlanRow → List PlanRow
put_plan tenant p rows =
    if any (λ r. r.row_id == p.id) rows
    then map (rewrite_plan p) rows
    else rows ++ record { row_id = p.id; tenant_id = tenant; plan = p } ∷ []

abbrev pub rewrite_task : ExecutionTask → TaskRow → TaskRow
rewrite_task t r = if r.row_id == t.id then record r { task = t } else r

abbrev pub put_task : ℕ → ExecutionTask → List TaskRow → List TaskRow
put_task tenant t rows =
    if any (λ r. r.row_id == t.id) rows
    then map (rewrite_task t) rows
    else rows ++ record { row_id = t.id; tenant_id = tenant; task = t } ∷ []

unfoldable pub put_tasks : ℕ → List ExecutionTask → List TaskRow → List TaskRow
put_tasks tenant [] rows = rows
put_tasks tenant (t ∷ ts) rows = put_tasks tenant ts (put_task tenant t rows)

unfoldable pub persist_plan : ℕ → ExecutionPlan → Db → Db
persist_plan tenant p db = record db {
  plans = put_plan tenant p db.plans;
  tasks = put_tasks tenant p.tasks db.tasks;
}

abbrev pub is_plan : ℕ → ℕ → PlanRow → Bool
is_plan tenant plan r = r.tenant_id == tenant && r.row_id == plan

abbrev pub plan_of : Option PlanRow → Option ExecutionPlan
plan_of none = none
plan_of (some r) = some r.plan

unfoldable pub get_plan : ℕ → Db → ℕ → Option ExecutionPlan
get_plan tenant db plan = plan_of (find? (is_plan tenant plan) db.plans)

abbrev pub found_or : {A : Type 0} → Option A → Error → Result A
found_or none e = err e
found_or (some a) e = ok a

abbrev pub or_throw : {A : Type 0} → Option A → Error → Action A
or_throw o e db = (found_or o e, db)
