-- ===== src/Verification/Baseline.antt =====
-- src/lib/verification/baseline.ts: the figures that are kept before a plan runs.
use aijoes_app.Prelude.{
  ℕ, ◌+◌, ◌*◌, ℤ, Bool, ◌&&◌, not, Option, none, some, is_some, List, [], ◌∷◌, ◌++◌, map, find?,
  any, if◌then◌else◌, ◌==◌,
}
use aijoes_app.Core.Evidence.{Statement}
use aijoes_app.Execution.Types.{ExecutionPlan}
use aijoes_app.Verification.Facts.{ConnectedFacts, FactRow, get_facts}

pub data BaselineKind : Type 0 where
  licence financial : BaselineKind

pub record Baseline : Type 0 where
  pub id : ℕ
  pub tenant_id : ℕ
  pub company_id : ℕ
  pub opportunity_id : ℕ
  pub execution_plan_id : ℕ
  pub kind : BaselineKind
  pub facts : ConnectedFacts
  pub captured_at : ℕ
  pub verify_after : ℕ
  pub verified_at : Option ℕ
  pub verified_value : Option ℤ
  pub outcome : Option Statement

-- The playbooks whose value a connected system can prove; the numbers stand for their ids, and the empty id is 0.
abbrev pub microsoft_licence_optimisation : ℕ
microsoft_licence_optimisation = 1

abbrev pub saas_rationalisation : ℕ
saas_rationalisation = 2

abbrev pub supplier_consolidation : ℕ
supplier_consolidation = 3

abbrev pub contract_renewal : ℕ
contract_renewal = 4

abbrev pub procurement_event : ℕ
procurement_event = 5

unfoldable pub baseline_kind_for : ℕ → Option BaselineKind
baseline_kind_for p =
    if p == 0
    then none
    else if p == microsoft_licence_optimisation
    then some licence
    else if any (λ q. p == q)
        (saas_rationalisation ∷ supplier_consolidation ∷ contract_renewal ∷ procurement_event ∷ [])
    then some financial
    else none

-- The counted figures that a baseline of the kind needs.
abbrev pub measurable : BaselineKind → ConnectedFacts → Bool
measurable licence f = is_some f.licence
measurable financial f = is_some f.financial

abbrev pub of_plan : ℕ → ℕ → Baseline → Bool
of_plan tenant plan b = b.tenant_id == tenant && b.execution_plan_id == plan

-- `ON CONFLICT(tenant_id, execution_plan_id) DO NOTHING`: the first baseline of a plan stays.
unfoldable pub insert_baseline : Baseline → List Baseline → List Baseline
insert_baseline b rows =
    if any (of_plan b.tenant_id b.execution_plan_id) rows then rows else rows ++ b ∷ []

abbrev capture_kind :
    ℕ
    → List Baseline
    → ConnectedFacts
    → ExecutionPlan
    → ℕ
    → ℕ
    → ℕ
    → Option BaselineKind
    → Option Baseline × List Baseline
capture_kind tenant rows facts plan days fresh now none = (none, rows)
capture_kind tenant rows facts plan days fresh now (some kind) =
    if not (measurable kind facts)
    then (none, rows)
    else (let b : Baseline = record {
      id = fresh;
      tenant_id = tenant;
      company_id = plan.company_id;
      opportunity_id = plan.opportunity_id;
      execution_plan_id = plan.id;
      kind = kind;
      facts = facts;
      captured_at = now;
      verify_after = now + days * 86_400_000;
      verified_at = none;
      verified_value = none;
      outcome = none;
    } in
        (some b, insert_baseline b rows))

unfoldable pub capture_baseline :
    ℕ
    → List Baseline
    → List FactRow
    → ExecutionPlan
    → ℕ
    → ℕ
    → ℕ
    → ℕ
    → Option Baseline × List Baseline
capture_baseline tenant rows facts plan playbook days fresh now =
    capture_kind tenant rows (get_facts tenant facts plan.company_id) plan days fresh now
      (baseline_kind_for playbook)

unfoldable pub get_baseline : ℕ → List Baseline → ℕ → Option Baseline
get_baseline tenant rows plan = find? (of_plan tenant plan) rows

abbrev pub mark : ℕ → ℕ → ℤ → Statement → ℕ → Baseline → Baseline
mark tenant id value outcome now b =
    if b.tenant_id == tenant && b.id == id
    then record b { verified_at = some now; verified_value = some value; outcome = some outcome }
    else b

unfoldable pub record_verification : ℕ → List Baseline → ℕ → ℤ → Statement → ℕ → List Baseline
record_verification tenant rows id value outcome now = map (mark tenant id value outcome now) rows
