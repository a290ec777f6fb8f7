-- ===== src/Execution/Task.antt =====
-- `executeTask` and `requestApproval` of src/lib/execution/engine.ts: one task of a run.
pub mod Retry
use aijoes_app.Prelude.{
  ℕ, zero, suc, ◌+◌, ℤ, pos, Bool, true, false, ◌&&◌, not, Option, none, some, get_or, List, [],
  ◌∷◌, ◌++◌, if◌then◌else◌, ◌==◌,
}
use aijoes_app.Execution.Types.{
  ExecutionPlan, ExecutionTask, completed, failed, Outcome, no_adapter, done, failure,
}
use aijoes_app.Execution.Store.{Db, Invocation, AgentEvent, approval_requested}

pub record CapabilityOutcome : Type 0 where
  pub ok : Bool
  pub simulated : Bool
  pub evidence : List ℕ
  pub cost_gbp : ℤ
  pub measured_value_gbp : Option ℤ
  pub failure : Option ℕ

-- An adapter's answer may depend on every invocation made so far; where its promise is rejected,
-- there is none.
abbrev pub Adapter : Type 0
Adapter = List Invocation → Invocation → Option CapabilityOutcome

abbrev pub max_retries : ℕ
max_retries = 2

-- A string that may be null is true when it is neither null nor empty.
abbrev pub truthy : Option ℕ → Bool
truthy none = false
truthy (some s) = not (s == 0)

-- The actor "jojo".
abbrev pub jojo : ℕ
jojo = 1

-- The gate of step 10.
abbrev pub gated : ExecutionTask → Bool
gated t = t.approval_required && not (truthy t.approval_id)

abbrev pub invocation : ExecutionPlan → ExecutionTask → Invocation
invocation p t = record {
  capability_id = t.assigned_capability;
  action_id = t.capability_action;
  tenant_id = p.tenant_id;
  company_id = p.company_id;
  inputs =
      if truthy t.approval_id then record (t.inputs) { approval_id = t.approval_id } else t.inputs;
}

-- The state of the retry loop: the last outcome, the attempts that failed, whether the adapter's
-- promise was rejected, what was invoked.
pub record Attempts : Type 0 where
  pub last : Option CapabilityOutcome
  pub attempt : ℕ
  pub rejected : Bool
  pub invoked : List Invocation

-- `while (attempt <= MAX_RETRIES)`: `left` is the number of rounds that the test still allows.
unfoldable pub invoke_loop : ℕ → Adapter → Invocation → Attempts → Attempts
invoke_loop zero adapter i a = a
invoke_loop (suc left) adapter i a = elim (adapter a.invoked i) [
  | none ↦ record a { rejected = true; invoked = i ∷ a.invoked }
  | some outcome ↦
      let again =
        invoke_loop left adapter i
          (record a { last = some outcome; attempt = a.attempt + 1; invoked = i ∷ a.invoked }) in
      if outcome.ok then record a { last = some outcome; invoked = i ∷ a.invoked } else again
]

abbrev pub succeeded : Option CapabilityOutcome → Bool
succeeded none = false
succeeded (some o) = o.ok

abbrev pub last_failure : Option CapabilityOutcome → Outcome
last_failure none = failure none
last_failure (some o) = failure o.failure

-- `last?.field ?? d`
abbrev pub last_field {ℓ} :
    {A : Type ℓ} → (CapabilityOutcome → A) → A → Option CapabilityOutcome → A
last_field f d none = d
last_field f d (some o) = f o

abbrev pub without_adapter : ExecutionTask → ℕ → ExecutionTask
without_adapter t now = record t {
  status = failed;
  started_at = some now;
  completed_at = some now;
  outcome = some (no_adapter t.assigned_capability);
}

abbrev pub finished : ExecutionTask → Attempts → ℕ → ExecutionTask
finished t a now = record t {
  status = if succeeded a.last then completed else failed;
  started_at = some now;
  completed_at = some now;
  outcome =
      some (if succeeded a.last then done t.assigned_capability t.name else last_failure a.last);
  evidence = last_field (λ o. o.evidence) [] a.last;
  cost_gbp = last_field (λ o. o.cost_gbp) (pos 0) a.last;
  measured_value_gbp = last_field (λ o. o.measured_value_gbp) none a.last;
  retry_count = a.attempt;
  simulated = last_field (λ o. o.simulated) true a.last;
}

abbrev pub event_of : ExecutionPlan → ExecutionTask → Attempts → AgentEvent
event_of p t a = record {
  tenant_id = p.tenant_id;
  company_id = p.company_id;
  capability_id = t.assigned_capability;
  execution_id = p.id;
  task_id = t.id;
  succeeded = succeeded a.last;
  cost_gbp = last_field (λ o. o.cost_gbp) (pos 0) a.last;
  benefit_gbp = get_or (last_field (λ o. o.measured_value_gbp) none a.last) (pos 0);
  failure = if succeeded a.last then none else some (last_failure a.last);
  retry_count = a.attempt;
  simulated = last_field (λ o. o.simulated) true a.last;
}

unfoldable pub attempts_of : Adapter → ExecutionPlan → ExecutionTask → Db → Attempts
attempts_of adapter p t db =
    invoke_loop (suc max_retries) adapter (invocation p t)
      (record { last = none; attempt = 0; rejected = false; invoked = db.invoked })

-- There is no task where `executeTask` throws the adapter's rejection.
abbrev pub execute_with :
    Option Adapter → ExecutionPlan → ExecutionTask → ℕ → Db → Option ExecutionTask × Db
execute_with none p t now db = (some (without_adapter t now), db)
execute_with (some adapter) p t now db =
    let a = attempts_of adapter p t db in
    if a.rejected then (none, record db { invoked = a.invoked }) else (
      some (finished t a now),
      record db { invoked = a.invoked; agent_events = db.agent_events ++ event_of p t a ∷ [] },
    )

unfoldable pub execute_task :
    (ℕ → Option Adapter) → ExecutionPlan → ExecutionTask → ℕ → Db → Option ExecutionTask × Db
execute_task adapters p t now db = execute_with (adapters t.assigned_capability) p t now db

unfoldable pub request_approval : ℕ → ExecutionPlan → ExecutionTask → ℕ → ℕ → Db → Db
request_approval tenant p t fresh now db = record db {
  approvals =
      db.approvals
      ++ record {
        id = fresh;
        tenant_id = tenant;
        execution_plan_id = p.id;
        task_id = some t.id;
        requested_at = now;
        decided_at = none;
        decided_by = none;
        decision = none;
        rationale = none;
      }
        ∷ [];
  audit_log =
      db.audit_log
      ++ record {
        tenant_id = tenant;
        actor = jojo;
        action = approval_requested p.id;
        subject_id = t.id;
        at = now;
      }
        ∷ [];
}
