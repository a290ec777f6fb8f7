-- ===== src/Core/Autonomy/Govern.antt =====
-- The grant that `resolveAutonomy` of src/lib/core/autonomy.ts sorts to the front.
use aijoes_app.Prelude.{
  ℕ, ◌≤◌, ◌<◌, true, false, ◌≡◌, ◌⊎◌, some, List, arith, In, In-of_head, In-of_filter, In-filter,
  head-sort_by-le,
}
use aijoes_app.Core.Autonomy.{
  AutonomyGrant, ActionRequest, level_number, specificity, applicable, precedes, governing,
}

precedes_total : (a b : AutonomyGrant) → precedes a b ≡ false → precedes b a ≡ true
unfolding precedes
precedes_total a b h = ground arith

precedes_trans :
    (a b c : AutonomyGrant) → precedes a b ≡ true → precedes b c ≡ true → precedes a c ≡ true
unfolding precedes
precedes_trans a b c h k = ground arith

module _ (req : ActionRequest) (grants : List AutonomyGrant) (now : ℕ) (g : AutonomyGrant)
    (e : governing req grants now ≡ some g) where
  pub governing-In : In g grants × (applicable req now g ≡ true)
  unfolding governing
  governing-In = In-of_filter (applicable req now) g grants (In-of_head precedes g _ e)

  pub governing-precedes :
      (h : AutonomyGrant) → In h grants → applicable req now h ≡ true → precedes g h ≡ true
  unfolding governing
  governing-precedes h m k =
      head-sort_by-le precedes precedes_total precedes_trans g h _ e
        (In-filter (applicable req now) h grants m k)

pub precedes-le :
    (g h : AutonomyGrant)
    → precedes g h ≡ true
    → (specificity h < specificity g)
      ⊎ ((specificity h ≡ specificity g) × (level_number g.level ≤ level_number h.level))
unfolding precedes
precedes-le g h e = ground arith
