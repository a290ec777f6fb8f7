-- ===== src/Execution/Types.antt =====
-- src/lib/execution/types.ts: plans and tasks. Texts that no operation reads again (a task's
-- description, agent, rationale, outputs and preconditions; a plan's permissions, constraints,
-- metrics and rollback plan) are left out; any other text is the number that identifies it.
use aijoes_app.Prelude.{ℕ, ℤ, Bool, Option, List}

pub data PlanStatus : Type 0 where
  draft awaiting_authorisation authorised executing awaiting_approval completed failed stopped :
      PlanStatus

pub data TaskStatus : Type 0 where
  pending awaiting_approval running completed failed skipped blocked : TaskStatus

-- The text of a task's outcome.
pub data Outcome : Type 0 where
  no_adapter : (capability : ℕ) → Outcome
  done : (capability task : ℕ) → Outcome
  failure : Option ℕ → Outcome
  rejected stopped : (reason : ℕ) → Outcome

pub record TaskInputs : Type 0 where
  pub company_id : ℕ
  pub tenant_id : ℕ
  pub objective : ℕ
  pub financial_target : ℤ
  pub approval_id : Option ℕ

pub record ExecutionTask : Type 0 where
  pub id : ℕ
  pub execution_plan_id : ℕ
  pub seq : ℕ
  pub name : ℕ
  pub assigned_capability : ℕ
  pub capability_action : ℕ
  pub inputs : TaskInputs
  pub approval_required : Bool
  pub approval_id : Option ℕ
  pub status : TaskStatus
  pub started_at : Option ℕ
  pub completed_at : Option ℕ
  pub outcome : Option Outcome
  pub evidence : List ℕ
  pub cost_gbp : ℤ
  pub measured_value_gbp : Option ℤ
  pub retry_count : ℕ
  pub simulated : Bool

pub record ExecutionPlan : Type 0 where
  pub id : ℕ
  pub tenant_id : ℕ
  pub company_id : ℕ
  pub opportunity_id : ℕ
  pub playbook_id : ℕ
  pub objective : ℕ
  pub financial_target : ℤ
  pub tasks : List ExecutionTask
  pub required_capabilities : List ℕ
  pub status : PlanStatus
  pub created_at : ℕ
  pub authorised_at : Option ℕ
  pub authorised_by : Option ℕ
  pub completed_at : Option ℕ
  pub blockers : List ℕ
