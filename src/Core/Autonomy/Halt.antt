-- ===== src/Core/Autonomy/Halt.antt =====
-- `haltAll` of src/lib/core/autonomy.ts, and the decisions after it.
use aijoes_app.Prelude.{
  ℕ, true, false, ◌≡◌, ◌≢◌, ◌⊎◌, refl, inl, inr, Option, some, none, List, [], ◌∷◌, arith, All,
  All-In, filter-map_of, Bool-cases, Option-cases, ◌==◌,
}
use aijoes_app.Core.Autonomy.{
  AutonomyGrant, ActionRequest, observe, applicable, governing, decide_under, resolve_autonomy,
  halt_grant, halt_all, covers,
}
use aijoes_app.Core.Autonomy.Govern.{governing-In}
use aijoes_app.Core.Autonomy.Policy.{covers_complete}

halt_all-observe :
    (t : Option ℕ) (req : ActionRequest) (now : ℕ) (grants : List AutonomyGrant)
    → covers t req.tenant_id ≡ true
    → All (λ g. applicable req now g ≡ true → g.level ≡ observe) (halt_all grants t)
unfolding halt_all halt_grant applicable
halt_all-observe t req now [] h = tt
halt_all-observe none req now (g ∷ grants) h = (λ k. refl, halt_all-observe none req now grants h)
halt_all-observe (some t) req now (g ∷ grants) h =
    (λ k. ground arith, halt_all-observe (some t) req now grants h)

decide_under-observe :
    (req : ActionRequest) (g : AutonomyGrant)
    → g.level ≡ observe
    → ((decide_under req g).level ≡ observe) × ((decide_under req g).may_execute ≡ false)
unfolding decide_under
decide_under-observe req g h = (ground arith, ground arith)

-- After a halt of a tenant, or of all tenants, every request of a halted tenant is at OBSERVE and
-- may not execute, whatever was granted.
pub resolve_autonomy-halt_all :
    (t : Option ℕ) (req : ActionRequest) (grants : List AutonomyGrant) (now : ℕ)
    → (t ≡ none) ⊎ (t ≡ some req.tenant_id)
    → let d = resolve_autonomy req (halt_all grants t) now in
      (d.level ≡ observe) × (d.may_execute ≡ false)
unfolding resolve_autonomy
resolve_autonomy-halt_all t req grants now h =
    elim (Option-cases (governing req (halt_all grants t) now)) [
      | inl e ↦ rw e (refl, refl)
      | inr (g, e) ↦
          let (listed, k) = governing-In req (halt_all grants t) now g e in
          let silenced = halt_all-observe t req now grants (covers_complete t req.tenant_id h) in
          let quiet =
            All-In (λ g. applicable req now g ≡ true → g.level ≡ observe) g _ silenced listed k in
          rw e (decide_under-observe req g quiet)
    ]

halt_grant-applicable :
    (t : ℕ) (req : ActionRequest) (now : ℕ) (g : AutonomyGrant)
    → applicable req now (halt_grant (some t) g) ≡ applicable req now g
unfolding halt_grant applicable
halt_grant-applicable t req now g = elim (Bool-cases (g.tenant_id == t)) [
  | inl e ↦ rw e
  | inr e ↦ rw e
]

halt_grant-other :
    (t : ℕ) (req : ActionRequest) (now : ℕ) (g : AutonomyGrant)
    → req.tenant_id ≢ t
    → applicable req now g ≡ true
    → halt_grant (some t) g ≡ g
unfolding halt_grant applicable
halt_grant-other t req now g ne h = ground arith

-- A halt of one tenant changes no decision of any other tenant.
pub resolve_autonomy-halt_all_other :
    (t : ℕ) (req : ActionRequest) (grants : List AutonomyGrant) (now : ℕ)
    → req.tenant_id ≢ t
    → resolve_autonomy req (halt_all grants (some t)) now ≡ resolve_autonomy req grants now
unfolding resolve_autonomy governing halt_all
resolve_autonomy-halt_all_other t req grants now ne = rw (
    filter-map_of (applicable req now) (halt_grant (some t)) grants
      (halt_grant-applicable t req now) (λ g. halt_grant-other t req now g ne))
