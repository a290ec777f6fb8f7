-- ===== src/Benefits/Ledger.antt =====
-- src/lib/benefits/ledger.ts: the stages of a benefit, the table of benefits, and its operations.
-- A row holds the columns that the queries test and the benefit of `benefit_json`; serialising a
-- benefit and reading it back gives the same benefit. `randomUUID()` and the clock are arguments.
pub mod Table
pub mod Stages
pub mod Ratchet
use aijoes_app.Prelude.{
  ℕ, ℤ, pos, ◌+ℤ◌, leb_ℤ, Bool, true, false, ◌&&◌, not, ◌≡◌, Option, none, some, get_or, is_some,
  List, [], ◌∷◌, ◌++◌, map, ltb, leb, ◌==◌, if◌then◌else◌, any, find?, filter, sort_by,
}
use aijoes_app.Core.Evidence.{EvidenceItem}

pub data BenefitType : Type 0 where
  revenue saving margin mrr arr productivity : BenefitType

pub data BenefitStage : Type 0 where
  theoretical approved forecast committed realised verified : BenefitStage

-- `STAGE_ORDER` and `STAGE_ORDER.indexOf`.
abbrev pub stage_order : List BenefitStage
stage_order = theoretical ∷ approved ∷ forecast ∷ committed ∷ realised ∷ verified ∷ []

abbrev pub stage_index : BenefitStage → ℕ
stage_index theoretical = 0
stage_index approved = 1
stage_index forecast = 2
stage_index committed = 3
stage_index realised = 4
stage_index verified = 5

abbrev pub is_verified : BenefitStage → Bool
is_verified verified = true
is_verified _ = false

abbrev pub is_theoretical : BenefitStage → Bool
is_theoretical theoretical = true
is_theoretical _ = false

pub record Benefit : Type 0 where
  pub id : ℕ
  pub tenant_id : ℕ
  pub company_id : ℕ
  pub opportunity_id : ℕ
  pub type : BenefitType
  pub stage : BenefitStage
  pub forecast_value : ℤ
  pub realised_value : ℤ
  pub verified_value : ℤ
  pub measurement_period : Option ℕ
  pub baseline : Option ℤ
  pub measurement_method : ℕ
  pub evidence : List EvidenceItem
  pub confidence : ℕ
  pub attributed_capabilities : List ℕ
  pub created_at : ℕ
  pub updated_at : ℕ

-- The argument of `createBenefit`: a benefit without its id, tenant and times.
pub record BenefitInput : Type 0 where
  pub company_id : ℕ
  pub opportunity_id : ℕ
  pub type : BenefitType
  pub stage : BenefitStage
  pub forecast_value : ℤ
  pub realised_value : ℤ
  pub verified_value : ℤ
  pub measurement_period : Option ℕ
  pub baseline : Option ℤ
  pub measurement_method : ℕ
  pub evidence : List EvidenceItem
  pub confidence : ℕ
  pub attributed_capabilities : List ℕ

-- The columns that are written once, and the benefit as it was last written.
pub record BenefitRow : Type 0 where
  pub row_id : ℕ
  pub tenant_id : ℕ
  pub company_id : ℕ
  pub opportunity_id : ℕ
  pub benefit : Benefit

abbrev pub BenefitTable : Type 0
BenefitTable = List BenefitRow

abbrev pub has_id : ℕ → BenefitRow → Bool
has_id k r = r.row_id == k

-- `ON CONFLICT(id) DO UPDATE`: the company, the opportunity and the tenant stay as they were.
abbrev pub rewrite : Benefit → BenefitRow → BenefitRow
rewrite b r = if r.row_id == b.id then record r { benefit = b } else r

unfoldable pub persist : ℕ → BenefitTable → Benefit → BenefitTable
persist tenant rows b =
    if any (has_id b.id) rows
    then map (rewrite b) rows
    else rows
      ++ record {
        row_id = b.id;
        tenant_id = tenant;
        company_id = b.company_id;
        opportunity_id = b.opportunity_id;
        benefit = b;
      }
        ∷ []

abbrev pub for_opportunity : ℕ → ℕ → BenefitRow → Bool
for_opportunity tenant o r = r.tenant_id == tenant && r.opportunity_id == o

abbrev pub benefit_of : Option BenefitRow → Option Benefit
benefit_of none = none
benefit_of (some r) = some r.benefit

unfoldable pub get_benefit_by_opportunity : ℕ → BenefitTable → ℕ → Option Benefit
get_benefit_by_opportunity tenant rows o = benefit_of (find? (for_opportunity tenant o) rows)

-- `{ ...existing, ...input, id, tenantId, createdAt, updatedAt: now }`
abbrev refreshed : Benefit → BenefitInput → ℕ → Benefit
refreshed old input now = record {
  id = old.id;
  tenant_id = old.tenant_id;
  company_id = input.company_id;
  opportunity_id = input.opportunity_id;
  type = input.type;
  stage = input.stage;
  forecast_value = input.forecast_value;
  realised_value = input.realised_value;
  verified_value = input.verified_value;
  measurement_period = input.measurement_period;
  baseline = input.baseline;
  measurement_method = input.measurement_method;
  evidence = input.evidence;
  confidence = input.confidence;
  attributed_capabilities = input.attributed_capabilities;
  created_at = old.created_at;
  updated_at = now;
}

abbrev opened : ℕ → ℕ → BenefitInput → ℕ → Benefit
opened fresh tenant input now = record {
  id = fresh;
  tenant_id = tenant;
  company_id = input.company_id;
  opportunity_id = input.opportunity_id;
  type = input.type;
  stage = input.stage;
  forecast_value = input.forecast_value;
  realised_value = input.realised_value;
  verified_value = input.verified_value;
  measurement_period = input.measurement_period;
  baseline = input.baseline;
  measurement_method = input.measurement_method;
  evidence = input.evidence;
  confidence = input.confidence;
  attributed_capabilities = input.attributed_capabilities;
  created_at = now;
  updated_at = now;
}

abbrev create_over :
    ℕ → BenefitTable → BenefitInput → ℕ → ℕ → Option Benefit → Benefit × BenefitTable
create_over tenant rows input fresh now none =
    let b = opened fresh tenant input now in (b, persist tenant rows b)
create_over tenant rows input fresh now (some old) =
    if is_theoretical old.stage
    then (let b = refreshed old input now in (b, persist tenant rows b))
    else (old, rows)

unfoldable pub create_benefit : ℕ → BenefitTable → BenefitInput → ℕ → ℕ → Benefit × BenefitTable
create_benefit tenant rows input fresh now =
    create_over tenant rows input fresh now
      (get_benefit_by_opportunity tenant rows input.opportunity_id)

-- The fields that `advance` may be given.
pub record Update : Type 0 where
  pub forecast_value : Option ℤ
  pub realised_value : Option ℤ
  pub verified_value : Option ℤ
  pub evidence : Option (List EvidenceItem)
  pub confidence : Option ℕ
  pub attributed_capabilities : Option (List ℕ)
  pub measurement_period : Option (Option ℕ)

abbrev pub no_update : Update
no_update = record {
  forecast_value = none;
  realised_value = none;
  verified_value = none;
  evidence = none;
  confidence = none;
  attributed_capabilities = none;
  measurement_period = none;
}

pub data BenefitStageError : Type 0 where
  backwards : BenefitStage → BenefitStage → BenefitStageError
  unverified : BenefitStageError

pub data Result (A : Type 0) : Type 0 where
  ok : A → Result A
  err : BenefitStageError → Result A

-- `[...new Set(xs)]`: each value once, where it first stands.
unfoldable pub unique : List ℕ → List ℕ
unique [] = []
unique (x ∷ xs) = x ∷ filter (λ y. not (y == x)) (unique xs)

abbrev pub extended : List EvidenceItem → Option (List EvidenceItem) → List EvidenceItem
extended old none = old
extended old (some new) = old ++ new

abbrev pub attributed : List ℕ → Option (List ℕ) → List ℕ
attributed old none = old
attributed old (some new) = unique (old ++ new)

abbrev pub advanced : Benefit → BenefitStage → Update → ℕ → Benefit
advanced b stage u now = record {
  id = b.id;
  tenant_id = b.tenant_id;
  company_id = b.company_id;
  opportunity_id = b.opportunity_id;
  type = b.type;
  stage = stage;
  forecast_value = get_or u.forecast_value b.forecast_value;
  realised_value = get_or u.realised_value b.realised_value;
  verified_value = get_or u.verified_value b.verified_value;
  measurement_period = get_or u.measurement_period b.measurement_period;
  baseline = b.baseline;
  measurement_method = b.measurement_method;
  evidence = extended b.evidence u.evidence;
  confidence = get_or u.confidence b.confidence;
  attributed_capabilities = attributed b.attributed_capabilities u.attributed_capabilities;
  created_at = b.created_at;
  updated_at = now;
}

unfoldable pub advance :
    ℕ → BenefitTable → Benefit → BenefitStage → Update → ℕ → Result (Benefit × BenefitTable)
advance tenant rows b stage u now =
    if ltb (stage_index stage) (stage_index b.stage)
    then err (backwards b.stage stage)
    else if is_verified stage && leb_ℤ (get_or u.verified_value b.verified_value) (pos 0)
    then err unverified
    else (let next = advanced b stage u now in ok (next, persist tenant rows next))

unfoldable pub advance_at_least :
    ℕ → BenefitTable → Benefit → BenefitStage → Update → ℕ → Result (Benefit × BenefitTable)
advance_at_least tenant rows b stage u now =
    if leb (stage_index stage) (stage_index b.stage)
    then ok (b, rows)
    else advance tenant rows b stage u now

abbrev pub of_company : Option ℕ → ℕ → Bool
of_company none c = true
of_company (some k) c = c == k

-- `listBenefits`, without the order by the time of the last update.
unfoldable pub list_benefits : ℕ → BenefitTable → Option ℕ → List Benefit
list_benefits tenant [] company = []
list_benefits tenant (r ∷ rows) company =
    let rest = list_benefits tenant rows company in
    if r.tenant_id == tenant && of_company company r.company_id then r.benefit ∷ rest else rest
