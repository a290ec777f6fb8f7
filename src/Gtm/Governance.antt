-- ===== src/Gtm/Governance.antt =====
-- src/lib/gtm/governance.ts: which hypotheses need a person's decision, and the table of decisions.
-- Amounts are whole pounds. `reason`, the text that explains a check, is left out. The rows of the
-- table are in the order of insertion, with the tenant of each; the evidence is the number of its
-- JSON text, and the actor of a decision that of its name. Audit events are left out.
pub mod Policy
pub mod Queue
use Prim.Native.String.{String}
use text.Mathlib.Text
use aijoes_app.Prelude.{
  ℕ, ◌+◌, Bool, true, false, not, ◌&&◌, ◌||◌, Option, none, some, is_some, List, [], ◌∷◌, ◌++◌, map,
  filter, find?, any, length, ltb, leb, ◌==◌, if◌then◌else◌, sort_by, join,
}
use aijoes_app.Gtm.Recovery.Table.{take}

pub data EscalationTrigger : Type 0 where
  strategic_proposition_change major_partnership unusually_high_value : EscalationTrigger
  commercial_risk_threshold pricing_outside_parameters : EscalationTrigger
  new_market_proposition judgement_materially_improves_outcome : EscalationTrigger

abbrev pub trigger_number : EscalationTrigger → ℕ
trigger_number strategic_proposition_change = 0
trigger_number major_partnership = 1
trigger_number unusually_high_value = 2
trigger_number commercial_risk_threshold = 3
trigger_number pricing_outside_parameters = 4
trigger_number new_market_proposition = 5
trigger_number judgement_materially_improves_outcome = 6

pub data Quality : Type 0 where
  strong workable : Quality

pub record CommercialPolicy : Type 0 where
  pub high_value_threshold_gbp : ℕ
  pub campaign_value_threshold_gbp : ℕ
  pub approved_archetypes : List String
  pub approved_service_ids : List String
  pub daily_outreach_limit : ℕ
  pub min_quality_for_auto_outreach : Quality

abbrev pub default_policy : CommercialPolicy
default_policy = record {
  high_value_threshold_gbp = 100_000;
  campaign_value_threshold_gbp = 250_000;
  approved_archetypes =
      "microsoft-cloud-optimisation" ∷ "cyber-security" ∷ "infrastructure-modernisation"
      ∷ "managed-it" ∷ "ps-augmentation" ∷ "technology-migration"
      ∷ "application-infrastructure-project" ∷ [];
  approved_service_ids =
      "azure-virtual-desktop" ∷ "managed-it" ∷ "it-consultancy" ∷ "cyber-security" ∷ "cloud-hosting"
      ∷ "white-label-delivery" ∷ [];
  daily_outreach_limit = 25;
  min_quality_for_auto_outreach = workable;
}

-- The fields of a hypothesis that governance reads.
pub record Hypothesis : Type 0 where
  pub id : ℕ
  pub archetype : String
  pub service_ids : List String
  pub headline : String
  pub what_is_happening : String
  pub why_it_matters : String
  pub evidence : ℕ
  pub value_point : ℕ
  pub next_action : String

pub data DeliveryCapacity : Type 0 where
  ready constrained partner_required not_available : DeliveryCapacity

pub record ServiceLine : Type 0 where
  pub id : String
  pub delivery_capacity : DeliveryCapacity

-- The services of the seller, and its rate card if it has one.
pub record MspProfile : Type 0 where
  pub service_lines : List ServiceLine
  pub rate_card : Option ℕ

pub record EscalationCheck : Type 0 where
  pub required : Bool
  pub trigger : Option EscalationTrigger

-- `texts.includes(t)`
abbrev pub listed : List String → String → Bool
listed texts t = any (λ u. Text.◌==◌ u t) texts

abbrev pub unapproved : CommercialPolicy → Hypothesis → List String
unapproved p h = filter (λ i. not (listed p.approved_service_ids i)) h.service_ids

abbrev pub service_line : MspProfile → String → Option ServiceLine
service_line profile i = find? (λ s. Text.◌==◌ s.id i) profile.service_lines

-- `.map((id) => ...find(...)).find(Boolean)`
abbrev pub first_service : MspProfile → List String → Option ServiceLine
first_service profile [] = none
first_service profile (i ∷ ids) = elim (service_line profile i) [
  | none ↦ first_service profile ids
  | some s ↦ some s
]

abbrev pub is_partner_required : DeliveryCapacity → Bool
is_partner_required partner_required = true
is_partner_required _ = false

abbrev pub needs_partner : Option ServiceLine → Bool
needs_partner none = false
needs_partner (some s) = is_partner_required s.delivery_capacity

abbrev pub escalate : EscalationTrigger → EscalationCheck
escalate t = record { required = true; trigger = some t }

unfoldable pub needs_escalation : Hypothesis → MspProfile → CommercialPolicy → EscalationCheck
needs_escalation h profile policy =
    if leb policy.high_value_threshold_gbp h.value_point
    then escalate unusually_high_value
    else if not (listed policy.approved_archetypes h.archetype)
    then escalate new_market_proposition
    else if ltb 0 (length (unapproved policy h))
    then escalate strategic_proposition_change
    else if needs_partner (first_service profile h.service_ids)
    then escalate major_partnership
    else if not (is_some profile.rate_card) && leb 50_000 h.value_point
    then escalate pricing_outside_parameters
    else record { required = false; trigger = none }

pub data SubjectType : Type 0 where
  hypothesis opportunity campaign proposition partnership : SubjectType

pub data DecisionStatus : Type 0 where
  open_decision approved rejected deferred : DecisionStatus

abbrev pub is_open : DecisionStatus → Bool
is_open open_decision = true
is_open _ = false

pub data DecisionOutcome : Type 0 where
  approve reject defer : DecisionOutcome

abbrev pub status_of : DecisionOutcome → DecisionStatus
status_of approve = approved
status_of reject = rejected
status_of defer = deferred

-- `Omit<Decision, 'id' | 'status' | 'decidedBy' | 'decidedAt' | 'decisionNote' | 'createdAt'>`
pub record DecisionInput : Type 0 where
  pub trigger : EscalationTrigger
  pub subject_type : SubjectType
  pub subject_id : ℕ
  pub context : String
  pub evidence : ℕ
  pub recommendation : String
  pub expected_value : ℕ
  pub proposed_action : String

pub record Decision : Type 0 where
  pub id : ℕ
  pub tenant_id : ℕ
  pub input : DecisionInput
  pub status : DecisionStatus
  pub decided_by : Option ℕ
  pub decided_at : Option ℕ
  pub decision_note : Option String
  pub created_at : ℕ

abbrev pub Decisions : Type 0
Decisions = List Decision

abbrev pub raised : ℕ → DecisionInput → ℕ → ℕ → Decision
raised tenant input fresh now = record {
  id = fresh;
  tenant_id = tenant;
  input = input;
  status = open_decision;
  decided_by = none;
  decided_at = none;
  decision_note = none;
  created_at = now;
}

unfoldable pub raise_decision : ℕ → DecisionInput → ℕ → ℕ → Decisions → Decision × Decisions
raise_decision tenant input fresh now db =
    (raised tenant input fresh now, db ++ raised tenant input fresh now ∷ [])

-- `tenant_id = @tenantId AND subject_id = @subjectId AND trigger = @trigger AND status = 'open'`
abbrev pub open_on : ℕ → ℕ → EscalationTrigger → Decision → Bool
open_on tenant subject trigger d =
    d.tenant_id == tenant
    && d.input.subject_id == subject
    && trigger_number d.input.trigger == trigger_number trigger
    && is_open d.status

unfoldable pub raise_decision_once :
    ℕ → DecisionInput → ℕ → ℕ → Decisions → Option Decision × Decisions
raise_decision_once tenant input fresh now db =
    let (d, db') = raise_decision tenant input fresh now db in
    if is_some (find? (open_on tenant input.subject_id input.trigger) db)
    then (none, db)
    else (some d, db')

abbrev pub dearest : Decision → Decision → Bool
dearest a b = leb b.input.expected_value a.input.expected_value

abbrev pub newest : Decision → Decision → Bool
newest a b = leb b.created_at a.created_at

abbrev pub is_open_of : ℕ → Decision → Bool
is_open_of tenant d = d.tenant_id == tenant && is_open d.status

unfoldable pub list_open_decisions : ℕ → Decisions → Decisions
list_open_decisions tenant db = sort_by dearest (filter (is_open_of tenant) db)

unfoldable pub list_all_decisions : ℕ → Decisions → Decisions
list_all_decisions tenant db = take 200 (sort_by newest (filter (λ d. d.tenant_id == tenant) db))

abbrev pub decides : ℕ → ℕ → Decision → Bool
decides tenant k d = d.tenant_id == tenant && d.id == k && is_open d.status

abbrev pub settle : ℕ → ℕ → DecisionOutcome → ℕ → String → ℕ → Decision → Decision
settle tenant k outcome by note now d =
    if decides tenant k d
    then record d {
      status = status_of outcome;
      decided_by = some by;
      decided_at = some now;
      decision_note = some note;
    }
    else d

unfoldable pub resolve_decision : ℕ → ℕ → DecisionOutcome → ℕ → String → ℕ → Decisions → Decisions
resolve_decision tenant k outcome by note now db = map (settle tenant k outcome by note now) db

abbrev pub recommendation_for : EscalationTrigger → String
recommendation_for unusually_high_value =
    "Approach it, but decide who leads and how it is priced before anything goes out."
recommendation_for new_market_proposition =
    "Worth a controlled test: a small number of accounts in this archetype before committing to it as a proposition."
recommendation_for pricing_outside_parameters =
    "Supply a rate card, or set a price for this one deal, before the conversation starts."
recommendation_for _ = "Approve the approach, or tell the system to stop pursuing this archetype."

-- `check.trigger!` is the trigger here: without one the source has no input to raise.
abbrev pub escalation_for : Hypothesis → String → EscalationTrigger → DecisionInput
escalation_for h account_name trigger = record {
  trigger = trigger;
  subject_type = hypothesis;
  subject_id = h.id;
  context =
      join (
        account_name ∷ ": " ∷ h.headline ∷ ". " ∷ h.what_is_happening ∷ " " ∷ h.why_it_matters
        ∷ []);
  evidence = h.evidence;
  recommendation = recommendation_for trigger;
  expected_value = h.value_point;
  proposed_action = h.next_action;
}
