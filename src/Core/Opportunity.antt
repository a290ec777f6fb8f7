-- ===== src/Core/Opportunity.antt =====
-- src/lib/core/opportunity.ts: the part of an opportunity that its execution reads and writes, and
-- the gate of START. Confidence and readiness are in hundredths, so 0.35 is 35.
use aijoes_app.Prelude.{
  ℕ, ℤ, Bool, true, false, not, Option, none, some, if◌then◌else◌, ltb, ◌==◌, ◌≡◌, ◌↔◌, ◌⊎◌, ◌≤◌,
  ◌≢◌, refl, arith,
}

pub data ExecutionStatus : Type 0 where
  not_started planning awaiting_approval executing completed failed stopped : ExecutionStatus

pub record Opportunity : Type 0 where
  pub id : ℕ
  pub company_id : ℕ
  pub playbook_id : Option ℕ
  pub confidence : ℕ
  pub execution_readiness : ℕ
  pub execution_status : ExecutionStatus
  pub started_at : Option ℕ
  pub completed_at : Option ℕ
  pub realised_value : Option ℤ

pub data StartReason : Type 0 where
  already : ExecutionStatus → StartReason
  no_playbook low_confidence not_ready ready : StartReason

abbrev pub may_restart : ExecutionStatus → Bool
may_restart not_started = true
may_restart failed = true
may_restart stopped = true
may_restart _ = false

-- `!o.playbookId`: null, or the empty string, which is 0.
abbrev pub missing : Option ℕ → Bool
missing none = true
missing (some p) = p == 0

unfoldable pub start_available : Opportunity → Bool × StartReason
start_available o =
    if not (may_restart o.execution_status)
    then (false, already o.execution_status)
    else if missing o.playbook_id
    then (false, no_playbook)
    else if ltb o.confidence 35
    then (false, low_confidence)
    else if ltb o.execution_readiness 30
    then (false, not_ready)
    else (true, ready)

-- START is offered exactly when the opportunity is not under way or done, names a playbook, and
-- its confidence and readiness are at least 0.35 and 0.3.
pub start_available_iff :
    (o : Opportunity)
    → ((start_available o).0 ≡ true) ↔ (
        ((o.execution_status ≡ not_started)
          ⊎ (o.execution_status ≡ failed)
          ⊎ (o.execution_status ≡ stopped))
        × ((p : ℕ) × (o.playbook_id ≡ some p) × (p ≢ 0))
        × (35 ≤ o.confidence)
        × (30 ≤ o.execution_readiness))
unfolding start_available
start_available_iff o = (
  λ h. (ground arith, playbook o.playbook_id (ground arith), ground arith, ground arith),
  λ h. let (p, e, ne) = h.1 in ground arith,
)
  where
    playbook : (q : Option ℕ) → missing q ≡ false → (p : ℕ) × (q ≡ some p) × (p ≢ 0)
    playbook none e = cc
    playbook (some p) e = (p, refl, ground arith)
