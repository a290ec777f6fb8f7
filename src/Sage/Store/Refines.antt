-- ===== src/Sage/Store/Refines.antt =====
-- Any store of sage-halpin/server/store.ts that keeps the laws of `IsStore` against the abstract
-- table.
use Prim.Native.String.{String}
use aijoes_app.Prelude.{◌≡◌, ◌↔◌, ap, ◌∙◌, sym, none, some, List, [], ◌∷◌, In}
use aijoes_app.Sage.Store.{Store, IsStore, Write, puts, removes, table_of, state_of, at_key}

module _ {V : Type 0} (S : Store V) (store : IsStore S) where
  open S use {State, get, list, list_by_row}
  open store use {
    IsValid, empty, empty-IsValid, put-IsValid, remove-IsValid, get-empty, get-put, get-remove,
    In-list, In-list_by_row,
  }

  pub state_of-IsValid : (ws : List (Write V)) → IsValid (state_of S empty ws)
  state_of-IsValid [] = empty-IsValid
  state_of-IsValid (puts p r v ∷ ws) = put-IsValid p r v (state_of S empty ws) (state_of-IsValid ws)
  state_of-IsValid (removes p r ∷ ws) =
      remove-IsValid p r (state_of S empty ws) (state_of-IsValid ws)

  pub get-state_of :
      (ws : List (Write V)) (p r : String) → get p r (state_of S empty ws) ≡ table_of ws p r
  get-state_of [] p r = get-empty p r
  get-state_of (puts q k v ∷ ws) p r =
      get-put q k v (state_of S empty ws) p r ∙ ap (at_key q k p r (some v)) (get-state_of ws p r)
  get-state_of (removes q k ∷ ws) p r =
      get-remove q k (state_of S empty ws) p r ∙ ap (at_key q k p r none) (get-state_of ws p r)

  -- After any writes, reading and both listings are those of the abstract table.
  abbrev pub Refines : List (Write V) → String → String → V → Type 0
  Refines ws p r v =
      (get p r (state_of S empty ws) ≡ table_of ws p r)
      × (In (r, v) (list p (state_of S empty ws)) ↔ (table_of ws p r ≡ some v))
      × (In (p, v) (list_by_row r (state_of S empty ws)) ↔ (table_of ws p r ≡ some v))

  pub store-Refines : (ws : List (Write V)) (p r : String) (v : V) → Refines ws p r v
  store-Refines ws p r v =
      let same = get-state_of ws p r in
      let valid = state_of-IsValid ws in
      let (in_list, of_list) = In-list p r v (state_of S empty ws) valid in
      let (in_row, of_row) = In-list_by_row p r v (state_of S empty ws) valid in
      (
        same,
        (λ m. sym same ∙ in_list m, λ e. of_list (same ∙ e)),
        (λ m. sym same ∙ in_row m, λ e. of_row (same ∙ e)),
      )
