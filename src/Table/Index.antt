-- ===== src/Table/Index.antt =====
-- `table_index_t` of table.c: for each value of a column, the rows that have it. The structures
-- are allocated one after the other and reached by the hash through their numbers.
pub mod Positions
pub mod Knows
pub mod Find
use fapolicyd_analyzer.Base.{
  ℕ, zero, suc, ◌+◌, Bool, true, false, if◌then◌else◌, Option, none, some, List, [], ◌∷◌, ◌++◌,
  CString, get_elem?, set, length, Outcome, ok, aborted, fault, ◌>>=◌,
}
use fapolicyd_analyzer.UtArray.{UtArray}
use fapolicyd_analyzer.UtHash.{UtHash}
use fapolicyd_analyzer.Table.{Table, check, element, get_row_count, get_value}

module _ (u : UtArray CString) (r : UtArray ℕ) (h : UtHash) where
  -- `struct table_index_struct`; `rows` is the one member of its `index`
  pub record Item : Type 0 where
    pub key : CString
    pub rows : r.Array

  -- the head of the hash, and the structures
  pub record Index : Type 0 where
    pub head : h.Hash
    pub items : List Item

  -- one round of the loop of `table_index_create`; whether `malloc` succeeds
  unfoldable pub add_row : Bool → Index → CString → ℕ → Outcome Index
  add_row allocated index key i = elim (h.find index.head key) [
    | some p ↦ do
      item ← element index.items p
      ok (record index {
        items = set index.items p (record item { rows = r.push_back item.rows i });
      })
    | none ↦ do
      checked ← check allocated
      ok (record {
        head = h.add_keyptr index.head key (length index.items);
        items = index.items ++ record { key = key; rows = r.push_back r.new i } ∷ [];
      })
  ]

  -- the loop from row `i`
  unfoldable pub create_loop : (ℕ → Bool) → Table u → ℕ → (left i : ℕ) → Index → Outcome Index
  create_loop allocated t col_num zero i index = ok index
  create_loop allocated t col_num (suc left) i index = do
    key ← get_value u t col_num i
    index' ← add_row (allocated i) index key i
    create_loop allocated t col_num left (i + 1) index'

  -- `table_index_create`
  unfoldable pub create : (ℕ → Bool) → Table u → ℕ → Outcome Index
  create allocated t col_num = do
    row_count ← get_row_count u t
    create_loop allocated t col_num row_count 0 (record { head = h.empty; items = [] })

  -- `table_index_count`
  unfoldable pub count : Index → ℕ
  count index = h.count index.head

  -- `table_index_find`; null is `none`
  unfoldable pub find : Index → CString → Outcome (Option r.Array)
  find index key = elim (h.find index.head key) [
    | none ↦ ok none
    | some p ↦ do item ← element index.items p; ok (some item.rows)
  ]

  -- `row_index_next`
  unfoldable pub row_index_next : r.Array → Option ℕ → Option ℕ
  row_index_next rows index_p = r.next rows index_p
