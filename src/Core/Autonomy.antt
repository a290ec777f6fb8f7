-- ===== src/Core/Autonomy.antt =====
-- src/lib/core/autonomy.ts: which grant governs an action, and what it allows.
-- A string is the number that identifies it, 0 for the empty string (only its truth value and
-- equality are used); an instant is its number of milliseconds; an amount is an integer. The
-- reason's text is a constructor with the values that the template shows.
pub mod Govern
pub mod Policy
pub mod Halt
mod Tests
use aijoes_app.Prelude.{
  ℕ, ◌+◌, ℤ, Bool, true, false, not, ◌&&◌, Option, none, some, List, [], ◌∷◌, map, ltb, leb, ◌==◌,
  if◌then◌else◌, ltb_ℤ, filter, head?, sort_by, min,
}

pub data AutonomyLevel : Type 0 where
  observe recommend prepare execute autonomous : AutonomyLevel

-- The number of the enum member.
abbrev pub level_number : AutonomyLevel → ℕ
level_number observe = 0
level_number recommend = 1
level_number prepare = 2
level_number execute = 3
level_number autonomous = 4

pub data ActionRisk : Type 0 where
  low medium high : ActionRisk

abbrev pub risk_order : ActionRisk → ℕ
risk_order low = 0
risk_order medium = 1
risk_order high = 2

pub record AutonomyGrant : Type 0 where
  pub id : ℕ
  pub tenant_id : ℕ
  pub user_id : Option ℕ
  pub action_type : Option ℕ
  pub capability_id : Option ℕ
  pub level : AutonomyLevel
  pub monetary_threshold : ℤ
  pub max_risk : ActionRisk
  pub expires_at : Option ℕ

pub record ActionRequest : Type 0 where
  pub tenant_id : ℕ
  pub user_id : ℕ
  pub action_type : ℕ
  pub capability_id : ℕ
  pub monetary_impact : ℤ
  pub risk : ActionRisk
  pub external : Bool

pub data Reason : Type 0 where
  no_grant : Reason
  over_threshold : ℤ → ℤ → Reason
  over_risk : ActionRisk → ActionRisk → Reason
  external_below_execute : AutonomyLevel → Reason
  delegated : AutonomyLevel → Reason
  approval_first : AutonomyLevel → Reason

pub record AutonomyDecision : Type 0 where
  pub level : AutonomyLevel
  pub may_execute : Bool
  pub requires_approval : Bool
  pub grant_id : Option ℕ
  pub reason : Reason

-- `s ? n : 0` at a string that may be null.
abbrev truthy : Option ℕ → ℕ → ℕ
truthy none n = 0
truthy (some s) n = if s == 0 then 0 else n

unfoldable pub specificity : AutonomyGrant → ℕ
specificity g = truthy g.user_id 4 + truthy g.action_type 2 + truthy g.capability_id 1

-- `field === null || field === value`
abbrev pub covers : Option ℕ → ℕ → Bool
covers none v = true
covers (some s) v = s == v

abbrev pub unexpired : Option ℕ → ℕ → Bool
unexpired none now = true
unexpired (some t) now = not (ltb t now)

unfoldable pub applicable : ActionRequest → ℕ → AutonomyGrant → Bool
applicable req now g =
    g.tenant_id == req.tenant_id
    && (covers g.user_id req.user_id
        && (covers g.action_type req.action_type
            && (covers g.capability_id req.capability_id && unexpired g.expires_at now)))

-- The comparator of the sort, `specificity(b) - specificity(a) || a.level - b.level`, is at most 0.
unfoldable pub precedes : AutonomyGrant → AutonomyGrant → Bool
precedes a b =
    if specificity a == specificity b
    then leb (level_number a.level) (level_number b.level)
    else ltb (specificity b) (specificity a)

-- `applicable[0]` after the sort.
unfoldable pub governing : ActionRequest → List AutonomyGrant → ℕ → Option AutonomyGrant
governing req grants now = head? (sort_by precedes (filter (applicable req now) grants))

-- `Math.min(grant.level, AutonomyLevel.PREPARE)`
abbrev pub capped : AutonomyLevel → AutonomyLevel
capped observe = observe
capped recommend = recommend
capped _ = prepare

abbrev held : AutonomyGrant → AutonomyLevel → Reason → AutonomyDecision
held g l r = record {
  level = l;
  may_execute = false;
  requires_approval = true;
  grant_id = some g.id;
  reason = r;
}

-- The decision under the governing grant.
unfoldable pub decide_under : ActionRequest → AutonomyGrant → AutonomyDecision
decide_under req g =
    if ltb_ℤ g.monetary_threshold req.monetary_impact
    then held g (capped g.level) (over_threshold req.monetary_impact g.monetary_threshold)
    else if ltb (risk_order g.max_risk) (risk_order req.risk)
    then held g (capped g.level) (over_risk req.risk g.max_risk)
    else if req.external && ltb (level_number g.level) 3
    then held g g.level (external_below_execute g.level)
    else (let may = leb 3 (level_number g.level) in
        record {
          level = g.level;
          may_execute = may;
          requires_approval = not may;
          grant_id = some g.id;
          reason = if may then delegated g.level else approval_first g.level;
        })

abbrev pub denied : AutonomyDecision
denied = record {
  level = observe;
  may_execute = false;
  requires_approval = true;
  grant_id = none;
  reason = no_grant;
}

abbrev pub decide_by : ActionRequest → Option AutonomyGrant → AutonomyDecision
decide_by req none = denied
decide_by req (some g) = decide_under req g

unfoldable pub resolve_autonomy : ActionRequest → List AutonomyGrant → ℕ → AutonomyDecision
resolve_autonomy req grants now = decide_by req (governing req grants now)

abbrev pub in_halt : Option ℕ → AutonomyGrant → Bool
in_halt none g = true
in_halt (some t) g = g.tenant_id == t

unfoldable pub halt_grant : Option ℕ → AutonomyGrant → AutonomyGrant
halt_grant t g = if in_halt t g then record g { level = observe } else g

unfoldable pub halt_all : List AutonomyGrant → Option ℕ → List AutonomyGrant
halt_all grants t = map (halt_grant t) grants
