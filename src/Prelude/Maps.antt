-- ===== src/Prelude/Maps.antt =====
-- The `Map` of the source with texts as its keys: a list of its entries in the order in which the
-- keys were first set.
use text.Mathlib.TextPositions.{eq_refl}
use text.Mathlib.TextEquality.{eq_iff}
use text.Mathlib.Text
use Prim.Native.String.{String}
use mathlib.Core.Path.{◌≡◌, refl, ap, ◌∙◌, sym}
use mathlib.Core.Logic.{◌↔◌, inl, inr}
use mathlib.Core.Bool.{Bool, true, false}
use mathlib.Core.Option.{Option, none, some}
use mathlib.Core.List.{List, [], ◌∷◌}
use native.Mathlib.Omega.{arith}
use aijoes_app.Prelude.Tests.{if◌then◌else◌, Bool-cases, get_or}
use aijoes_app.Prelude.Lists.{In, All}

abbrev pub same_text : String → String → Bool
same_text a b = Text.◌==◌ a b

pub same_text_iff : (a b : String) → (same_text a b ≡ true) ↔ (a ≡ b)
same_text_iff a b = eq_iff a b

pub same_text_refl : (a : String) → same_text a a ≡ true
same_text_refl a = eq_refl a

abbrev pub Entries : Type 0 → Type 0
Entries V = List (String × V)

module _ {V : Type 0} where
  unfoldable pub lookup : String → Entries V → Option V
  lookup k [] = none
  lookup k ((j, v) ∷ m) = if same_text j k then some v else lookup k m

  -- `map.set(k, v)`
  unfoldable pub insert : String → V → Entries V → Entries V
  insert k v [] = (k, v) ∷ []
  insert k v ((j, w) ∷ m) = if same_text j k then (j, v) ∷ m else (j, w) ∷ insert k v m

  -- `map.delete(k)`
  unfoldable pub delete : String → Entries V → Entries V
  delete k [] = []
  delete k ((j, w) ∷ m) = if same_text j k then delete k m else (j, w) ∷ delete k m

  -- No key occurs twice.
  unfoldable pub IsUnique : Entries V → Type 0
  IsUnique [] = Unit
  IsUnique ((k, v) ∷ m) = (lookup k m ≡ none) × IsUnique m

  pub lookup-insert :
      (set asked : String) (new : V) (entries : Entries V)
      → lookup asked (insert set new entries)
        ≡ (if same_text set asked then some new else lookup asked entries)
  unfolding lookup insert
  lookup-insert set asked new [] = refl
  lookup-insert set asked new ((own, old) ∷ rest) =
      let before = lookup-insert set asked new rest in
      ground (same_text_iff own asked, same_text_iff own set, same_text_iff set asked, arith)

  pub lookup-delete :
      (k j : String) (m : Entries V)
      → lookup j (delete k m) ≡ (if same_text k j then none else lookup j m)
  unfolding lookup delete
  lookup-delete k j [] = ground arith
  lookup-delete k j ((i, w) ∷ m) =
      ground (arith, same_text_iff k j, same_text_iff i k, same_text_iff i j, lookup-delete k j m)

  pub insert-IsUnique : (k : String) (v : V) (m : Entries V) → IsUnique m → IsUnique (insert k v m)
  unfolding insert IsUnique lookup
  insert-IsUnique k v [] h = (refl, tt)
  insert-IsUnique k v ((i, w) ∷ m) h =
      let step = insert-IsUnique k v m h.1 in
      ground (arith, same_text_iff i k, same_text_iff k i, lookup-insert k i v m)

  pub delete-IsUnique : (k : String) (m : Entries V) → IsUnique m → IsUnique (delete k m)
  unfolding delete IsUnique
  delete-IsUnique k [] h = tt
  delete-IsUnique k ((i, w) ∷ m) h =
      let step = delete-IsUnique k m h.1 in ground (arith, lookup-delete k i m)

  pub In-lookup :
      (k : String) (v : V) (m : Entries V) → IsUnique m → In (k, v) m ↔ (lookup k m ≡ some v)
  unfolding IsUnique lookup
  In-lookup k v [] h = (λ m. absurd m, λ e. absurd (cc))
  In-lookup k v ((i, w) ∷ m) h =
      let (to, from) = In-lookup k v m h.1 in
      elim (Bool-cases (same_text i k)) [
        | inl e ↦
            let same : i ≡ k = (same_text_iff i k).0 e in
            let fresh : lookup k m ≡ none = ap (λ x. lookup x m) (sym same) ∙ h.0 in
            rw e (
              elim [
                | inl q ↦ ap (λ x. some x.1) (sym q)
                | inr l ↦ absurd (some_ne_none v (sym (to l) ∙ fresh))
              ],
              λ q. inl (cc),
            )
        | inr e ↦ rw e (
          elim [
            | inl q ↦
                absurd
                  (true_ne_false (sym (eq_refl i) ∙ ap (same_text i) (ap (λ x. x.0) (sym q)) ∙ e))
            | inr l ↦ to l
          ],
          λ q. inr (from q),
        )
      ]
    where
      some_ne_none : (x : V) → some x ≡ none → ⊥
      some_ne_none x q = cc

      true_ne_false : true ≡ false → ⊥
      true_ne_false q = cc

  pub All-insert :
      (P : V → Type 0) (k : String) (v : V) (m : Entries V)
      → P v
      → All (λ e. P e.1) m
      → All (λ e. P e.1) (insert k v m)
  unfolding insert
  All-insert P k v [] p h = (p, tt)
  All-insert P k v ((i, w) ∷ m) p h = ground (arith, All-insert P k v m p h.1)

  pub All-delete :
      (P : V → Type 0) (k : String) (m : Entries V)
      → All (λ e. P e.1) m
      → All (λ e. P e.1) (delete k m)
  unfolding delete
  All-delete P k [] h = tt
  All-delete P k ((i, w) ∷ m) h = ground (arith, All-delete P k m h.1)

  pub All-lookup :
      (P : V → Type 0) (k : String) (d : V) (m : Entries V)
      → P d
      → All (λ e. P e.1) m
      → P (get_or (lookup k m) d)
  unfolding lookup
  All-lookup P k d [] p h = p
  All-lookup P k d ((i, w) ∷ m) p h = elim (Bool-cases (same_text i k)) [
    | inl e ↦ rw e (h.0)
    | inr e ↦ rw e (All-lookup P k d m p h.1)
  ]
