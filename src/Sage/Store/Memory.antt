-- ===== src/Sage/Store/Memory.antt =====
-- `MemoryStore` of sage-halpin/server/store.ts: a map from a partition to a map of its rows.
pub mod Refines
use Prim.Native.String.{String}
use aijoes_app.Prelude.{Option, none, some, get_or, List, [], ◌∷◌, lookup, insert, delete}
use aijoes_app.Sage.Store.{Store}

abbrev pub Rows : Type 0 → Type 0
Rows V = List (String × V)

abbrev pub Data : Type 0 → Type 0
Data V = List (String × Rows V)

module _ {V : Type 0} where
  -- `this.data.get(partition)?.get(row)`
  abbrev pub row_in : String → Option (Rows V) → Option V
  row_in r none = none
  row_in r (some rows) = lookup r rows

  unfoldable pub get : String → String → Data V → Option V
  get p r d = row_in r (lookup p d)

  -- A partition that is not there yet is set with no rows first.
  unfoldable pub put : String → String → V → Data V → Data V
  put p r v d = insert p (insert r v (get_or (lookup p d) [])) d

  unfoldable pub list : String → Data V → Rows V
  list p d = get_or (lookup p d) []

  abbrev pub found_row : String → Option V → Rows V → Rows V
  found_row p none out = out
  found_row p (some v) out = (p, v) ∷ out

  unfoldable pub list_by_row : String → Data V → Rows V
  list_by_row r [] = []
  list_by_row r ((p, rows) ∷ d) = found_row p (lookup r rows) (list_by_row r d)

  -- A partition that has no rows left is deleted.
  abbrev pub keep_rows : String → Rows V → Data V → Data V
  keep_rows p [] d = delete p d
  keep_rows p (e ∷ rows) d = insert p (e ∷ rows) d

  abbrev pub remove_from : String → String → Option (Rows V) → Data V → Data V
  remove_from p r none d = d
  remove_from p r (some rows) d = keep_rows p (delete r rows) d

  unfoldable pub remove : String → String → Data V → Data V
  remove p r d = remove_from p r (lookup p d) d

abbrev pub memory_store : (V : Type 0) → Store V
memory_store V = record {
  State = Data V;
  get = get;
  put = put;
  list = list;
  remove = remove;
  list_by_row = list_by_row;
}
