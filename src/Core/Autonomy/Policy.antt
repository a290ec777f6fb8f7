-- ===== src/Core/Autonomy/Policy.antt =====
-- `resolveAutonomy` of src/lib/core/autonomy.ts: what its decision says of the grants in force.
use aijoes_app.Prelude.{
  ℕ, ◌≤◌, ◌<◌, ◌≤ℤ◌, true, not, ◌≡◌, ◌≢◌, ◌⊎◌, refl, inl, inr, Option, some, none, List, arith, In,
  In-filter, In-sort_by, head?-ne_none, Option-cases,
}
use aijoes_app.Core.Autonomy.{
  AutonomyGrant, ActionRequest, observe, level_number, risk_order, specificity, applicable,
  precedes, governing, decide_under, denied, resolve_autonomy, covers, unexpired,
}
use aijoes_app.Core.Autonomy.Govern.{governing-In, governing-precedes, precedes-le}

-- A grant is in force for a request: same tenant, each field a wildcard or equal, not expired.
pub record IsInForce (req : ActionRequest) (now : ℕ) (g : AutonomyGrant) : Type 0 where
  pub tenant : g.tenant_id ≡ req.tenant_id
  pub user : (g.user_id ≡ none) ⊎ (g.user_id ≡ some req.user_id)
  pub action : (g.action_type ≡ none) ⊎ (g.action_type ≡ some req.action_type)
  pub capability : (g.capability_id ≡ none) ⊎ (g.capability_id ≡ some req.capability_id)
  pub unexpired : (g.expires_at ≡ none) ⊎ ((t : ℕ) × (g.expires_at ≡ some t) × (now ≤ t))

covers_sound : (o : Option ℕ) (v : ℕ) → covers o v ≡ true → (o ≡ none) ⊎ (o ≡ some v)
covers_sound none v h = inl refl
covers_sound (some s) v h = inr (ground arith)

pub covers_complete : (o : Option ℕ) (v : ℕ) → (o ≡ none) ⊎ (o ≡ some v) → covers o v ≡ true
covers_complete none v h = refl
covers_complete (some s) v h = ground arith

unexpired_sound :
    (o : Option ℕ) (now : ℕ)
    → unexpired o now ≡ true
    → (o ≡ none) ⊎ ((t : ℕ) × (o ≡ some t) × (now ≤ t))
unexpired_sound none now h = inl refl
unexpired_sound (some t) now h = inr (t, refl, ground arith)

unexpired_complete :
    (o : Option ℕ) (now : ℕ)
    → (o ≡ none) ⊎ ((t : ℕ) × (o ≡ some t) × (now ≤ t))
    → unexpired o now ≡ true
unexpired_complete none now h = refl
unexpired_complete (some t) now h = ground arith

pub applicable_sound :
    (req : ActionRequest) (now : ℕ) (g : AutonomyGrant)
    → applicable req now g ≡ true
    → IsInForce req now g
unfolding applicable
applicable_sound req now g h = record {
  tenant = ground arith;
  user = covers_sound g.user_id req.user_id (ground arith);
  action = covers_sound g.action_type req.action_type (ground arith);
  capability = covers_sound g.capability_id req.capability_id (ground arith);
  unexpired = unexpired_sound g.expires_at now (ground arith);
}

pub applicable_complete :
    (req : ActionRequest) (now : ℕ) (g : AutonomyGrant)
    → IsInForce req now g
    → applicable req now g ≡ true
unfolding applicable
applicable_complete req now g h = ground (
  arith,
  covers_complete g.user_id req.user_id h.user,
  covers_complete g.action_type req.action_type h.action,
  covers_complete g.capability_id req.capability_id h.capability,
  unexpired_complete g.expires_at now h.unexpired,
)

decide_under-may :
    (req : ActionRequest) (g : AutonomyGrant)
    → (decide_under req g).may_execute ≡ true
    → (3 ≤ level_number g.level)
      × (req.monetary_impact ≤ℤ g.monetary_threshold)
      × (risk_order req.risk ≤ risk_order g.max_risk)
unfolding decide_under
decide_under-may req g h = (ground arith, ground arith, ground arith)

decide_under-named :
    (req : ActionRequest) (g : AutonomyGrant) → (decide_under req g).grant_id ≢ none
unfolding decide_under
decide_under-named req g e = ground arith

decide_under-may_of :
    (req : ActionRequest) (g : AutonomyGrant)
    → 3 ≤ level_number g.level
    → req.monetary_impact ≤ℤ g.monetary_threshold
    → risk_order req.risk ≤ risk_order g.max_risk
    → (decide_under req g).may_execute ≡ true
unfolding decide_under
decide_under-may_of req g h k l = ground arith

-- If the decision lets an action run without approval, some grant of the list is in force for it,
-- is at EXECUTE or above, covers its amount and its risk, and every other grant in force is less
-- specific, or equally specific with at least the same level.
pub resolve_autonomy-IsInForce :
    (req : ActionRequest) (grants : List AutonomyGrant) (now : ℕ)
    → (resolve_autonomy req grants now).may_execute ≡ true
    → (g : AutonomyGrant) × In g grants
      × IsInForce req now g
      × (3 ≤ level_number g.level)
      × (req.monetary_impact ≤ℤ g.monetary_threshold)
      × (risk_order req.risk ≤ risk_order g.max_risk)
      × ((h : AutonomyGrant)
          → In h grants
          → IsInForce req now h
          → (specificity h < specificity g)
            ⊎ ((specificity h ≡ specificity g) × (level_number g.level ≤ level_number h.level)))
unfolding resolve_autonomy
resolve_autonomy-IsInForce req grants now may = elim (Option-cases (governing req grants now)) [
  | inl e ↦ cc
  | inr (g, e) ↦
      let (listed, fits) = governing-In req grants now g e in
      let may_g : (decide_under req g).may_execute ≡ true = rw e at may in
      let (level, money, risk) = decide_under-may req g may_g in
      (
        g,
        listed,
        applicable_sound req now g fits,
        level,
        money,
        risk,
        λ h m k.
            precedes-le g h
              (governing-precedes req grants now g e h m (applicable_complete req now h k)),
      )
]

governing-ne_none :
    (req : ActionRequest) (grants : List AutonomyGrant) (now : ℕ) (g : AutonomyGrant)
    → In g grants
    → applicable req now g ≡ true
    → governing req grants now ≢ none
unfolding governing
governing-ne_none req grants now g m h =
    head?-ne_none _ g (In-sort_by precedes g _ (In-filter (applicable req now) g grants m h))

-- Delegated authority is honoured: if some grant is in force for the request, and every grant in
-- force is at EXECUTE or above and covers the amount and the risk, the action needs no approval.
pub resolve_autonomy-may_execute :
    (req : ActionRequest) (grants : List AutonomyGrant) (now : ℕ) (g : AutonomyGrant)
    → In g grants
    → IsInForce req now g
    → ((h : AutonomyGrant)
        → In h grants
        → IsInForce req now h
        → (3 ≤ level_number h.level)
          × (req.monetary_impact ≤ℤ h.monetary_threshold)
          × (risk_order req.risk ≤ risk_order h.max_risk))
    → (resolve_autonomy req grants now).may_execute ≡ true
unfolding resolve_autonomy
resolve_autonomy-may_execute req grants now g m fits enough =
    elim (Option-cases (governing req grants now)) [
      | inl e ↦ absurd (governing-ne_none req grants now g m (applicable_complete req now g fits) e)
      | inr (h, e) ↦
          let (listed, k) = governing-In req grants now h e in
          let (level, money, risk) = enough h listed (applicable_sound req now h k) in
          rw e (decide_under-may_of req h level money risk)
    ]

-- Deny by default: with no grant in force the action is at OBSERVE, needs approval, and names no
-- grant; and a decision names no grant only then.
pub resolve_autonomy-none_iff :
    (req : ActionRequest) (grants : List AutonomyGrant) (now : ℕ)
    → (((g : AutonomyGrant) → In g grants → ¬ IsInForce req now g)
        → resolve_autonomy req grants now ≡ denied)
      × ((resolve_autonomy req grants now).grant_id ≡ none
          → (g : AutonomyGrant) → In g grants
          → ¬ IsInForce req now g)
unfolding resolve_autonomy
resolve_autonomy-none_iff req grants now = (
  λ never. elim (Option-cases (governing req grants now)) [
    | inl e ↦ rw e
    | inr (g, e) ↦
        let (listed, k) = governing-In req grants now g e in
        absurd (never g listed (applicable_sound req now g k))
  ],
  λ unnamed g m fits. elim (Option-cases (governing req grants now)) [
    | inl e ↦ governing-ne_none req grants now g m (applicable_complete req now g fits) e
    | inr (h, e) ↦ decide_under-named req h (rw e at unnamed)
  ],
)

decide_under-approval :
    (req : ActionRequest) (g : AutonomyGrant)
    → ((decide_under req g).requires_approval ≡ not (decide_under req g).may_execute)
      × (level_number (decide_under req g).level ≤ level_number g.level)
unfolding decide_under
decide_under-approval req g = (ground arith, ground arith)

-- On every branch approval is required exactly when the action may not execute, and the level of
-- the decision is no more than that of some grant in force, or OBSERVE.
pub resolve_autonomy-level :
    (req : ActionRequest) (grants : List AutonomyGrant) (now : ℕ)
    → let d = resolve_autonomy req grants now in
      (d.requires_approval ≡ not d.may_execute)
      × ((d.level ≡ observe)
          ⊎ ((g : AutonomyGrant) × In g grants
              × IsInForce req now g
              × (level_number d.level ≤ level_number g.level)))
unfolding resolve_autonomy
resolve_autonomy-level req grants now = elim (Option-cases (governing req grants now)) [
  | inl e ↦ rw e (refl, inl refl)
  | inr (g, e) ↦
      let (listed, k) = governing-In req grants now g e in
      let (approval, level) = decide_under-approval req g in
      rw e (approval, inr (g, listed, applicable_sound req now g k, level))
]
