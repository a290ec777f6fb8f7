-- ===== src/Sage/Store/Memory/Refines.antt =====
-- What `MemoryStore` of sage-halpin/server/store.ts promises as a `Store`.
use Prim.Native.String.{String}
use aijoes_app.Prelude.{
  ◌≡◌, ◌↔◌, refl, ap, ◌∙◌, sym, inl, inr, Option, none, some, get_or, List, [], ◌∷◌, In, All,
  if◌then◌else◌, Bool-cases, Option-cases, arith, same_text, same_text_iff, lookup, insert, delete,
  IsUnique, All-lookup, lookup-insert, lookup-delete, insert-IsUnique, delete-IsUnique, In-lookup,
  All-insert, All-delete,
}
use aijoes_app.Sage.Store.{IsStore, at_key, Write, state_of, table_of}
use aijoes_app.Sage.Store.Refines.{store-Refines}
use aijoes_app.Sage.Store.Memory.{
  Rows, Data, get, put, list, list_by_row, remove, memory_store, row_in, keep_rows, remove_from,
}

module _ {V : Type 0} where
  -- No partition occurs twice, and no row of a partition.
  abbrev pub IsValid : Data V → Type 0
  IsValid d = IsUnique d × All (λ e. IsUnique e.1) d

  rows_of-IsUnique : (p : String) (d : Data V) → IsValid d → IsUnique (get_or (lookup p d) [])
  unfolding IsUnique
  rows_of-IsUnique p d h = All-lookup IsUnique p [] d no_rows h.1
    where
      no_rows : IsUnique {V = V} []
      no_rows = tt

  pub put-IsValid : (p r : String) (v : V) (d : Data V) → IsValid d → IsValid (put p r v d)
  unfolding put
  put-IsValid p r v d h = (
    insert-IsUnique p (insert r v (get_or (lookup p d) [])) d h.0,
    All-insert IsUnique p (insert r v (get_or (lookup p d) [])) d
        (insert-IsUnique r v (get_or (lookup p d) []) (rows_of-IsUnique p d h)) h.1,
  )

  keep_rows-IsValid :
      (p : String) (rows : Rows V) (d : Data V)
      → IsUnique rows
      → IsValid d
      → IsValid (keep_rows p rows d)
  keep_rows-IsValid p [] d u h = (delete-IsUnique p d h.0, All-delete IsUnique p d h.1)
  keep_rows-IsValid p (e ∷ rows) d u h =
      (insert-IsUnique p (e ∷ rows) d h.0, All-insert IsUnique p (e ∷ rows) d u h.1)

  remove_from-IsValid :
      (p r : String) (o : Option (Rows V)) (d : Data V)
      → IsUnique (get_or o [])
      → IsValid d
      → IsValid (remove_from p r o d)
  remove_from-IsValid p r none d u h = h
  remove_from-IsValid p r (some rows) d u h =
      keep_rows-IsValid p (delete r rows) d (delete-IsUnique r rows u) h

  lookup-rows : (r : String) (o : Option (Rows V)) → lookup r (get_or o []) ≡ row_in r o
  unfolding lookup
  lookup-rows r none = refl
  lookup-rows r (some rows) = refl

  pub get-put :
      (p r : String) (v : V) (d : Data V) (p' r' : String)
      → get p' r' (put p r v d) ≡ at_key p r p' r' (some v) (get p' r' d)
  unfolding get put
  get-put p r v d p' r' =
      let inner = lookup-insert r r' v (get_or (lookup p d) []) in
      let outer = lookup-insert p p' (insert r v (get_or (lookup p d) [])) d in
      elim (Bool-cases (same_text p p')) [
        | inl e ↦
            let same = (same_text_iff p p').0 e in
            let rows : lookup r' (get_or (lookup p d) []) ≡ row_in r' (lookup p' d) =
              lookup-rows r' (lookup p d) ∙ ap (λ q. row_in r' (lookup q d)) same in
            rw (outer, e, inner, rows) refl
        | inr e ↦ rw (outer, e) refl
      ]

  -- The rows that are left, and no partition without rows.
  get-keep_rows :
      (p : String) (rows : Rows V) (d : Data V) (p' r' : String)
      → get p' r' (keep_rows p rows d) ≡ (if same_text p p' then lookup r' rows else get p' r' d)
  unfolding get lookup
  get-keep_rows p [] d p' r' = elim (Bool-cases (same_text p p')) [
    | inl e ↦ rw (lookup-delete p p' d, e) refl
    | inr e ↦ rw (lookup-delete p p' d, e) refl
  ]
  get-keep_rows p (x ∷ rows) d p' r' = elim (Bool-cases (same_text p p')) [
    | inl e ↦ rw (lookup-insert p p' (x ∷ rows) d, e) refl
    | inr e ↦ rw (lookup-insert p p' (x ∷ rows) d, e) refl
  ]

  get-remove_from :
      (p r : String) (o : Option (Rows V)) (d : Data V) (p' r' : String)
      → lookup p d ≡ o
      → get p' r' (remove_from p r o d) ≡ at_key p r p' r' none (get p' r' d)
  unfolding get
  get-remove_from p r none d p' r' is = elim (Bool-cases (same_text p p')) [
    | inl e ↦
        let gone : lookup p' d ≡ none =
          ap (λ q. lookup q d) (sym ((same_text_iff p p').0 e)) ∙ is in
        rw (gone) (ground arith)
    | inr e ↦ rw e refl
  ]
  get-remove_from p r (some rows) d p' r' is = elim (Bool-cases (same_text p p')) [
    | inl e ↦
        let here : lookup p' d ≡ some rows =
          ap (λ q. lookup q d) (sym ((same_text_iff p p').0 e)) ∙ is in
        get-keep_rows p (delete r rows) d p' r' ∙ rw (e, lookup-delete r r' rows, here) refl
    | inr e ↦ get-keep_rows p (delete r rows) d p' r' ∙ rw e refl
  ]

  pub get-remove :
      (p r : String) (d : Data V) (p' r' : String)
      → get p' r' (remove p r d) ≡ at_key p r p' r' none (get p' r' d)
  unfolding remove
  get-remove p r d p' r' = get-remove_from p r (lookup p d) d p' r' refl

  lookup-list_by_row :
      (p r : String) (d : Data V) → IsUnique d → lookup p (list_by_row r d) ≡ row_in r (lookup p d)
  unfolding list_by_row lookup IsUnique
  lookup-list_by_row p r [] h = refl
  lookup-list_by_row p r ((q, rows) ∷ d) h =
      let rest = lookup-list_by_row p r d h.1 in
      elim (Option-cases (lookup r rows)) [
        | inl e ↦ elim (Bool-cases (same_text q p)) [
          | inl t ↦
              let gone : lookup p d ≡ none =
                ap (λ k. lookup k d) (sym ((same_text_iff q p).0 t)) ∙ h.0 in
              rw (e, t, e) (rest ∙ ap (row_in r) gone)
          | inr t ↦ rw (e, t) rest
        ]
        | inr (v, e) ↦ elim (Bool-cases (same_text q p)) [
          | inl t ↦ rw (e, t) (sym e)
          | inr t ↦ rw (e, t) rest
        ]
      ]

  list_by_row-IsUnique : (r : String) (d : Data V) → IsUnique d → IsUnique (list_by_row r d)
  unfolding list_by_row IsUnique
  list_by_row-IsUnique r [] h = tt
  list_by_row-IsUnique r ((q, rows) ∷ d) h = elim (Option-cases (lookup r rows)) [
    | inl e ↦ rw e (list_by_row-IsUnique r d h.1)
    | inr (v, e) ↦
        rw e (lookup-list_by_row q r d h.1 ∙ ap (row_in r) (h.0), list_by_row-IsUnique r d h.1)
  ]

  pub In-list_by_row :
      (p r : String) (v : V) (d : Data V)
      → IsUnique d
      → In (p, v) (list_by_row r d) ↔ (get p r d ≡ some v)
  unfolding get
  In-list_by_row p r v d h =
      let (to, from) = In-lookup p v (list_by_row r d) (list_by_row-IsUnique r d h) in
      let same = lookup-list_by_row p r d h in (λ m. sym same ∙ to m, λ e. from (same ∙ e))

  pub In-list :
      (p r : String) (v : V) (d : Data V) → IsValid d → In (r, v) (list p d) ↔ (get p r d ≡ some v)
  unfolding list get
  In-list p r v d h =
      let (to, from) = In-lookup r v (get_or (lookup p d) []) (rows_of-IsUnique p d h) in
      let same = lookup-rows r (lookup p d) in (λ m. sym same ∙ to m, λ e. from (same ∙ e))

  pub remove-IsValid : (p r : String) (d : Data V) → IsValid d → IsValid (remove p r d)
  unfolding remove
  remove-IsValid p r d h = remove_from-IsValid p r (lookup p d) d (rows_of-IsUnique p d h) h

pub empty-IsValid : (V : Type 0) → IsValid {V = V} []
unfolding IsUnique
empty-IsValid V = (tt, tt)

pub get-empty : {V : Type 0} (p r : String) → get {V = V} p r [] ≡ none
unfolding get lookup
get-empty p r = refl

-- The laws that clients rely on.
abbrev pub memory_laws : (V : Type 0) → IsStore (memory_store V)
memory_laws V = record {
  IsValid = IsValid;
  empty = [];
  empty-IsValid = empty-IsValid V;
  put-IsValid = put-IsValid;
  remove-IsValid = remove-IsValid;
  get-empty = get-empty;
  get-put = get-put;
  get-remove = get-remove;
  In-list = In-list;
  In-list_by_row = λ p r v d h. In-list_by_row p r v d h.0;
}

-- The store in memory implements the abstract table from a partition and a row to a document: after
-- any puts and removals, `get` finds what the table has, and `list` and `listByRow` list exactly
-- the documents that the table has in the partition and in the row.
pub memory_store-Refines :
    (V : Type 0) (ws : List (Write V)) (p r : String) (v : V)
    → (get p r (state_of (memory_store V) [] ws) ≡ table_of ws p r)
      × (In (r, v) (list p (state_of (memory_store V) [] ws)) ↔ (table_of ws p r ≡ some v))
      × (In (p, v) (list_by_row r (state_of (memory_store V) [] ws)) ↔ (table_of ws p r ≡ some v))
memory_store-Refines V ws p r v = store-Refines (memory_store V) (memory_laws V) ws p r v
