-- ===== src/Gtm/Governance/Policy.antt =====
-- `needsEscalation` of src/lib/gtm/governance.ts: what may proceed without a person.
use aijoes_app.Prelude.{
  ◌<◌, Bool, true, false, not, ◌≡◌, refl, ◌≢◌, ◌⊎◌, ◌↔◌, Option, none, some, is_some, List, [], ◌∷◌,
  all, filter, length, arith, ap,
}
use aijoes_app.Gtm.Governance.{
  Hypothesis, MspProfile, CommercialPolicy, ServiceLine, needs_escalation, listed, first_service,
  partner_required, needs_partner, is_partner_required, DeliveryCapacity,
}

pub filter-none :
    {A : Type 0} (p : A → Bool) (xs : List A)
    → (all p xs ≡ true) ↔ (length (filter (λ x. not (p x)) xs) ≡ 0)
filter-none p [] = ground arith
filter-none p (x ∷ xs) = ground (arith, filter-none p xs)

-- The service that would be delivered first is not one that only a partner can deliver.
abbrev pub IsDelivered : Option ServiceLine → Type 0
IsDelivered o = (s : ServiceLine) → o ≡ some s → s.delivery_capacity ≢ partner_required

is_partner_required_iff :
    (c : DeliveryCapacity) → (is_partner_required c ≡ false) ↔ (c ≢ partner_required)
is_partner_required_iff c = ground arith

needs_partner_iff : (o : Option ServiceLine) → (needs_partner o ≡ false) ↔ IsDelivered o
needs_partner_iff none = (λ _ s e. absurd (cc), λ _. refl)
needs_partner_iff (some s) = (
  λ h t e p.
      (let q = ap needs_partner e in
        let r = (is_partner_required_iff t.delivery_capacity).0 in ground arith),
  λ h. (is_partner_required_iff s.delivery_capacity).1 (h s refl),
)

-- The conditions under which the policy lets a hypothesis go on by itself.
abbrev pub IsRoutine : Hypothesis → MspProfile → CommercialPolicy → Type 0
IsRoutine h profile policy =
    (h.value_point < policy.high_value_threshold_gbp)
    × (listed policy.approved_archetypes h.archetype ≡ true)
    × (all (listed policy.approved_service_ids) h.service_ids ≡ true)
    × IsDelivered (first_service profile h.service_ids)
    × ((is_some profile.rate_card ≡ true) ⊎ (h.value_point < 50_000))

-- A hypothesis goes on without a person exactly if it is below the threshold of value, its
-- archetype and all of its services are approved, its first known service needs no partner, and
-- there is a rate card or it is worth less than fifty thousand pounds. Otherwise, and only then,
-- there is a trigger to raise.
pub needs_escalation-required :
    (h : Hypothesis) (profile : MspProfile) (policy : CommercialPolicy)
    → (((needs_escalation h profile policy).required ≡ false) ↔ IsRoutine h profile policy)
      × (((needs_escalation h profile policy).required ≡ false)
          ↔ ((needs_escalation h profile policy).trigger ≡ none))
unfolding needs_escalation
needs_escalation-required h profile policy =
    let services = filter-none (listed policy.approved_service_ids) h.service_ids in
    let partner = needs_partner_iff (first_service profile h.service_ids) in ground arith
