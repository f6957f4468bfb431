-- ===== src/Table.antt =====
-- table.c: a table of strings by columns, and an index of the rows by the values of one column.
pub mod Rows
pub mod Columns
pub mod Index
use fapolicyd_analyzer.Base.{
  ℕ, zero, suc, ◌+◌, ◌%◌, ◌^◌, Bool, true, false, if◌then◌else◌, Option, none, some, List, [], ◌∷◌,
  ◌++◌, CString, str_eq, get_elem?, set, replicate, length, Outcome, ok, aborted, fault, ◌>>=◌,
  ErrorCode, success, not_found,
}
use fapolicyd_analyzer.UtArray.{UtArray}

-- `table_t`
pub record Table (u : UtArray CString) : Type 0 where
  pub column_count : ℕ
  pub column_names : List CString
  pub columns : List (u.Array)

-- `CHECK_PTR`: a null pointer aborts
abbrev pub check : Bool → Outcome (Unit {0})
check allocated = if allocated then ok tt else aborted

-- `array[i]`; outside the array it is a fault
abbrev pub element {ℓ} : {A : Type ℓ} → List A → ℕ → Outcome A
element xs i = elim (get_elem? xs i) [ none ↦ fault | some x ↦ ok x ]

-- the loop of `table_initialize` over the names, from index `i`; whether each `strdup` succeeds
unfoldable pub copy_names : (ℕ → Bool) → List CString → (left i : ℕ) → Outcome (List CString)
copy_names allocated column_names zero i = ok []
copy_names allocated column_names (suc left) i = do
  name ← element column_names i
  checked ← check (allocated i)
  rest ← copy_names allocated column_names left (i + 1)
  ok (name ∷ rest)

module _ (u : UtArray CString) where
  -- `table_construct`
  unfoldable pub construct : Bool → Outcome (Table u)
  construct allocated = do
    checked ← check allocated
    ok (record { column_count = 0; column_names = []; columns = [] })

  -- `table_initialize`; the first three arguments say which allocations succeed
  unfoldable pub initialize :
      (names_allocated columns_allocated : Bool)
      → (ℕ → Bool)
      → Table u
      → List CString
      → ℕ
      → Outcome (ErrorCode × Table u)
  initialize names_allocated columns_allocated allocated t column_names column_count = do
    names_checked ← check names_allocated
    columns_checked ← check columns_allocated
    col_names ← copy_names allocated column_names column_count 0
    ok (
      success,
      record {
        column_count = column_count;
        column_names = col_names;
        columns = replicate column_count u.new;
      },
    )

  -- `table_get_column_count`
  unfoldable pub get_column_count : Table u → ℕ
  get_column_count t = t.column_count

  -- `table_get_row_count`
  unfoldable pub get_row_count : Table u → Outcome ℕ
  get_row_count t = do column ← element t.columns 0; ok (u.len column)

  -- `table_get_column_name`
  unfoldable pub get_column_name : Table u → ℕ → Outcome CString
  get_column_name t col_num = element t.column_names col_num

  -- the loop of `table_find_column_number` from index `i`
  unfoldable pub find_loop : Table u → CString → (left i : ℕ) → Outcome (ErrorCode × Option ℕ)
  unfolding get_column_name
  find_loop t col_name zero i = ok (not_found, none)
  find_loop t col_name (suc left) i = do
    name ← get_column_name t i
    elim (str_eq col_name name) [
      | true ↦ ok (success, some i)
      | false ↦ find_loop t col_name left (i + 1)
    ]

  -- `table_find_column_number`: the code, and what is written to `*col_num_ptr`
  unfoldable pub find_column_number : Table u → CString → Outcome (ErrorCode × Option ℕ)
  find_column_number t col_name = find_loop t col_name (get_column_count t) 0

  -- `table_get_value`; the null pointer of a row that is not there is dereferenced
  unfoldable pub get_value : Table u → (col_num row_num : ℕ) → Outcome CString
  get_value t col_num row_num = do
    column ← element t.columns col_num
    elim (u.eltptr column row_num) [ none ↦ fault | some value ↦ ok value ]

  -- the loop of `table_append_row` from index `i`
  unfoldable pub append_loop :
      List CString → (left i : ℕ) → List (u.Array) → Outcome (List (u.Array))
  append_loop row zero i columns = ok columns
  append_loop row (suc left) i columns = do
    column ← element columns i
    value ← element row i
    append_loop row left (i + 1) (set columns i (u.push_back column value))

  -- `table_append_row`
  unfoldable pub append_row : Table u → List CString → Outcome (ErrorCode × Table u)
  append_row t row = do
    columns ← append_loop row (get_column_count t) 0 t.columns
    ok (success, record t { columns = columns })

  -- the loop of `table_append_column` from index `i`
  unfoldable pub column_loop : List CString → (left i : ℕ) → u.Array → Outcome (u.Array)
  column_loop column zero i new_col = ok new_col
  column_loop column (suc left) i new_col = do
    value ← element column i
    column_loop column left (i + 1) (u.push_back new_col value)

  -- `table_append_column`; whether the two `realloc` and the `strdup` succeed
  unfoldable pub append_column :
      (names_allocated columns_allocated name_allocated : Bool)
      → Table u
      → CString
      → List CString
      → Outcome (ErrorCode × Table u)
  append_column names_allocated columns_allocated name_allocated t column_name column = do
    row_count ← get_row_count t
    new_col ← column_loop column row_count 0 (u.reserve u.new row_count)
    names_checked ← check names_allocated
    columns_checked ← check columns_allocated
    name_checked ← check name_allocated
    ok (
      success,
      record {
        column_count = (t.column_count + 1) % 2 ^ 64;
        column_names = t.column_names ++ column_name ∷ [];
        columns = t.columns ++ new_col ∷ [];
      },
    )
