-- ===== src/Core/Evidence.antt =====
-- The evidence items of src/lib/core/opportunity.ts and the epistemics of
-- src/lib/core/provenance.ts. A confidence is in hundredths; a statement's text is a constructor
-- with the values that its template shows.
use aijoes_app.Prelude.{ℕ, ℤ, Bool}

pub data Epistemics : Type 0 where
  fact inferred_fact hypothesis recommendation executable_action : Epistemics

pub data Statement : Type 0 where
  text : ℕ → Statement
  plan_completed : (plan tasks : ℕ) (simulated : Bool) → Statement
  licence_fell : (before after saving seats : ℤ) → Statement
  licence_unchanged : Statement
  licence_rose : (by : ℤ) → Statement
  spend_fell : (by : ℤ) (captured_at : ℕ) (fewer : ℤ) → Statement
  spend_unchanged : Statement
  spend_rose : (by : ℤ) → Statement
  no_baseline_captured source_silent already_verified : Statement

-- The system that a source names.
pub data Source : Type 0 where
  connector : ℕ → Source
  execution_engine : (plan : ℕ) → Source
  microsoft_365 accounting : Source

pub record EvidenceItem : Type 0 where
  pub statement : Statement
  pub epistemics : Epistemics
  pub confidence : ℕ
  pub source : Source
  pub retrieved_at : ℕ
