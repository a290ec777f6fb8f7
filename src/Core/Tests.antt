-- ===== src/Core/Tests.antt =====
-- START at a concrete opportunity.
use aijoes_app.Prelude.{some, none}
use aijoes_app.Core.Opportunity.{Opportunity, not_started}

abbrev offered : Opportunity
offered = record {
  id = 6;
  company_id = 5;
  playbook_id = some 7;
  confidence = 40;
  execution_readiness = 30;
  execution_status = not_started;
  started_at = none;
  completed_at = none;
  realised_value = none;
}
