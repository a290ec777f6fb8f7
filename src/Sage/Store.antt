-- ===== src/Sage/Store.antt =====
-- `Store` of sage-halpin/server/store.ts: documents under a partition and a row. `IsStore` says what
-- a client relies on: each statement reads and writes an abstract table, which is what `get` finds.
-- The JSON text of a document is the document, and a key is one that every store accepts.
pub mod Memory
pub mod Places
pub mod Refines
use Prim.Native.String.{String}
use aijoes_app.Prelude.{
  ◌≡◌, ◌↔◌, Bool, ◌&&◌, Option, none, some, List, [], ◌∷◌, In, if◌then◌else◌, same_text,
}

-- The operations of the interface on the states of one implementation.
pub record Store (V : Type 0) : Type 1 where
  pub State : Type 0
  pub get : String → String → State → Option V
  pub put : String → String → V → State → State
  pub list : String → State → List (String × V)
  pub remove : String → String → State → State
  pub list_by_row : String → State → List (String × V)

-- The document at one place after a write at another.
abbrev pub at_key {ℓ} : {A : Type ℓ} → String → String → String → String → A → A → A
at_key p r p' r' new old = if same_text p p' && same_text r r' then new else old

-- A store refines the abstract table from partition and row to a document: `IsValid` is an invariant
-- of its states, and every statement is the abstract one on what `get` finds.
pub record IsStore {V : Type 0} (S : Store V) : Type 1 where
  pub IsValid : S.State → Type 0
  pub empty : S.State
  pub empty-IsValid : IsValid empty
  pub put-IsValid : (p r : String) (v : V) (s : S.State) → IsValid s → IsValid (S.put p r v s)
  pub remove-IsValid : (p r : String) (s : S.State) → IsValid s → IsValid (S.remove p r s)
  pub get-empty : (p r : String) → S.get p r empty ≡ none
  pub get-put :
      (p r : String) (v : V) (s : S.State) (p' r' : String)
      → S.get p' r' (S.put p r v s) ≡ at_key p r p' r' (some v) (S.get p' r' s)
  pub get-remove :
      (p r : String) (s : S.State) (p' r' : String)
      → S.get p' r' (S.remove p r s) ≡ at_key p r p' r' none (S.get p' r' s)
  pub In-list :
      (p r : String) (v : V) (s : S.State)
      → IsValid s
      → In (r, v) (S.list p s) ↔ (S.get p r s ≡ some v)
  pub In-list_by_row :
      (p r : String) (v : V) (s : S.State)
      → IsValid s
      → In (p, v) (S.list_by_row r s) ↔ (S.get p r s ≡ some v)

-- The statements that write, and the abstract table from partition and row to a document.
pub data Write (V : Type 0) : Type 0 where
  puts : String → String → V → Write V
  removes : String → String → Write V

abbrev pub Table : Type 0 → Type 0
Table V = String → String → Option V

module _ {V : Type 0} where
  abbrev pub write_table : Write V → Table V → Table V
  write_table (puts p r v) t p' r' = at_key p r p' r' (some v) (t p' r')
  write_table (removes p r) t p' r' = at_key p r p' r' none (t p' r')

  -- The table after the writes, the last first.
  abbrev pub table_of : List (Write V) → Table V
  table_of [] = λ p r. none
  table_of (w ∷ ws) = write_table w (table_of ws)

  abbrev pub write : (S : Store V) → Write V → S.State → S.State
  write S (puts p r v) s = S.put p r v s
  write S (removes p r) s = S.remove p r s

  abbrev pub state_of : (S : Store V) → S.State → List (Write V) → S.State
  state_of S empty [] = empty
  state_of S empty (w ∷ ws) = write S w (state_of S empty ws)
