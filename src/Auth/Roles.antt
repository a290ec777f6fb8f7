-- ===== src/Auth/Roles.antt =====
-- src/lib/auth/rbac.ts: the matrix of roles and permissions.
use aijoes_app.Prelude.{ℕ, Bool, true, List, [], ◌∷◌, any, ◌==◌, ◌≤◌, ◌≡◌, ◌↔◌, arith}

pub data Role : Type 0 where
  platform_admin msp_admin msp_user read_only : Role

pub data Permission : Type 0 where
  read analyse execute halt authorise administer platform : Permission

abbrev pub permission_number : Permission → ℕ
permission_number read = 0
permission_number analyse = 1
permission_number execute = 2
permission_number halt = 3
permission_number authorise = 4
permission_number administer = 5
permission_number platform = 6

abbrev pub matrix : Role → List Permission
matrix read_only = read ∷ []
matrix msp_user = read ∷ analyse ∷ execute ∷ halt ∷ []
matrix msp_admin = read ∷ analyse ∷ execute ∷ halt ∷ authorise ∷ administer ∷ []
matrix platform_admin = read ∷ analyse ∷ execute ∷ halt ∷ authorise ∷ administer ∷ platform ∷ []

-- `MATRIX[role].includes(permission)`
unfoldable pub can : Role → Permission → Bool
can role p = any (λ q. permission_number q == permission_number p) (matrix role)

-- The roles in the order of their authority.
abbrev pub rank : Role → ℕ
rank read_only = 0
rank msp_user = 1
rank msp_admin = 2
rank platform_admin = 3

abbrev lowest : Permission → ℕ
lowest read = 0
lowest analyse = 1
lowest execute = 1
lowest halt = 1
lowest authorise = 2
lowest administer = 2
lowest platform = 3

can-lowest : (r : Role) (p : Permission) → (can r p ≡ true) ↔ (lowest p ≤ rank r)
unfolding can
can-lowest r p = (λ h. ground arith, λ h. ground arith)

-- A role holds every permission of the roles below it; whoever may execute may halt; and only the
-- two administrators may authorise, or administer.
pub can-rank :
    (r s : Role) (p : Permission)
    → (rank r ≤ rank s → can r p ≡ true → can s p ≡ true)
      × ((can r execute ≡ true) ↔ (can r halt ≡ true))
      × ((can r authorise ≡ true) ↔ (2 ≤ rank r))
      × ((can r administer ≡ true) ↔ (2 ≤ rank r))
can-rank r s p = (
  λ h k. (can-lowest s p).1 (omega (arith, (can-lowest r p).0 k)),
  (
    λ k. (can-lowest r halt).1 ((can-lowest r execute).0 k),
    λ k. (can-lowest r execute).1 ((can-lowest r halt).0 k),
  ),
  can-lowest r authorise,
  can-lowest r administer,
)
