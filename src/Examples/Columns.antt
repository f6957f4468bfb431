-- ===== src/Examples/Columns.antt =====
-- A table of two columns and its index.
use mathlib.Core.Option
use fapolicyd_analyzer.Base.{
  str_eq, ℕ, ◌≡◌, refl, arith, Option, List, [], ◌∷◌, ◌++◌, CString, codes, ok, success, true,
}
use fapolicyd_analyzer.UtArray.{UtArray, list_array, list_array-IsUtArray}
use fapolicyd_analyzer.UtHash.{list_hash, list_hash-IsUtHash}
use fapolicyd_analyzer.Table.{Table, find_column_number, append_row, append_column}
use fapolicyd_analyzer.Table.Rows.{contents, put_row, Holds, append_row-Holds}
use fapolicyd_analyzer.Table.Columns.{
  index_of, found, append_column-Holds, find_column_number-index_of,
}
use fapolicyd_analyzer.Table.Index.{Index, create, count, find}
use fapolicyd_analyzer.Table.Index.Positions.{positions, rows_or_null, new_values}
use fapolicyd_analyzer.Table.Index.Find.{create-positions}

abbrev texts : UtArray CString
texts = list_array CString

abbrev numbers : UtArray ℕ
numbers = list_array ℕ

abbrev two_names : List CString
two_names = codes "exe" ∷ codes "path" ∷ []

abbrev exe_column : List CString
exe_column = codes "sh" ∷ codes "cat" ∷ codes "sh" ∷ []

abbrev path_column : List CString
path_column = codes "a" ∷ codes "b" ∷ codes "c" ∷ []

abbrev two_columns : List (List CString)
two_columns = exe_column ∷ path_column ∷ []

abbrev table : Table texts
table = record { column_count = 2; column_names = two_names; columns = two_columns }

table-Holds : Holds (list_array-IsUtArray CString) table two_names two_columns 3
unfolding list_array-IsUtArray contents
table-Holds = record {
  count = refl;
  named = refl;
  values = refl;
  width = refl;
  rows = (refl, (refl, tt));
  some_column = omega arith;
  fits = omega arith;
}

append_row-Holds_example :
    (t' : Table texts) × (append_row texts table (codes "ls" ∷ codes "d" ∷ []) ≡ ok (success, t'))
    × Holds
        (list_array-IsUtArray CString)
        t'
        two_names
        (put_row two_columns (codes "ls" ∷ codes "d" ∷ []))
        4
append_row-Holds_example =
    append_row-Holds (list_array-IsUtArray CString) table-Holds (codes "ls" ∷ codes "d" ∷ []) refl
      (omega arith)

append_column-Holds_example :
    (t' : Table texts) × (append_column texts true true true table (codes "size") path_column
      ≡ ok (success, t'))
    × Holds
        (list_array-IsUtArray CString)
        t'
        (two_names ++ codes "size" ∷ [])
        (two_columns ++ path_column ∷ [])
        3
append_column-Holds_example =
    append_column-Holds (list_array-IsUtArray CString) table-Holds (codes "size") path_column refl
      (omega arith) (omega arith)

find_column_number-index_of_example :
    find_column_number texts table (codes "path") ≡ ok (found 0 (index_of (codes "path") two_names))
find_column_number-index_of_example =
    find_column_number-index_of (list_array-IsUtArray CString) table-Holds (codes "path")

create-positions_example :
    (index : Index texts numbers list_hash) × (create texts numbers list_hash (λ _. true) table 0
      ≡ ok index)
    × (count texts numbers list_hash index ≡ 2)
    × ((key : CString)
        → (rows : Option numbers.Array) × (find texts numbers list_hash index key ≡ ok rows)
          × (Option.map (list_array-IsUtArray ℕ).items rows
              ≡ rows_or_null (positions key 0 exe_column)))
unfolding positions new_values str_eq
create-positions_example =
    create-positions (list_array-IsUtArray CString) (list_array-IsUtArray ℕ) list_hash-IsUtHash
      table-Holds 0 exe_column (λ _. true) refl (λ _. refl) (omega arith)
