-- ===== src/Table/Rows.antt =====
-- A table as its columns of strings: what the operations do to them.
use mathlib.Core.List.{append_assoc}
use mathlib.Core.Path.{subst}
use fapolicyd_analyzer.Base.{
  ℕ, zero, suc, ◌+◌, ◌^◌, ◌<◌, ◌≡◌, refl, sym, ap, ◌∙◌, some, List, [], ◌∷◌, ◌++◌, CString,
  get_elem?, lt-get_elem?, set, set-middle, get_elem?-middle, length, length-append, ok, success,
  arith,
}
use fapolicyd_analyzer.UtArray.{UtArray, IsUtArray}
use fapolicyd_analyzer.Table.{
  Table, get_column_count, get_row_count, get_value, append_loop, append_row,
}

-- a row put under the columns
unfoldable pub put_row : List (List CString) → List CString → List (List CString)
put_row [] row = []
put_row (column ∷ columns) [] = column ∷ columns
put_row (column ∷ columns) (value ∷ row) = (column ++ value ∷ []) ∷ put_row columns row

length-put_row :
    (columns : List (List CString)) (row : List CString)
    → length (put_row columns row) ≡ length columns
unfolding put_row
length-put_row [] row = refl
length-put_row (c ∷ columns) [] = refl
length-put_row (c ∷ columns) (value ∷ row) = ap suc (length-put_row columns row)

module _ {u : UtArray CString} (ua : IsUtArray u) where
  -- the contents of the arrays
  unfoldable pub contents : List u.Array → List (List CString)
  contents [] = []
  contents (a ∷ columns) = ua.items a ∷ contents columns

  -- Every one of these has this length.
  abbrev pub AllRows : ℕ → List (List CString) → Type 0
  AllRows n [] = Unit
  AllRows n (column ∷ columns) = (length column ≡ n) × AllRows n columns

  -- The table has these names and these columns, each of `n` values.
  pub record Holds (t : Table u) (names : List CString) (columns : List (List CString)) (n : ℕ)
      : Type 0 where
    pub count : t.column_count ≡ length names
    pub named : t.column_names ≡ names
    pub values : contents t.columns ≡ columns
    pub width : length columns ≡ length names
    pub rows : AllRows n columns
    pub some_column : 0 < length names
    pub fits : length names < 2 ^ 31

  length-contents : (columns : List u.Array) → length (contents columns) ≡ length columns
  unfolding contents
  length-contents [] = refl
  length-contents (a ∷ columns) = ap suc (length-contents columns)

  -- the array that holds a column
  pub contents-get_elem? :
      (arrays : List u.Array) (i : ℕ) (column : List CString)
      → get_elem? (contents arrays) i ≡ some column
      → (a : u.Array) × (get_elem? arrays i ≡ some a) × (ua.items a ≡ column)
  unfolding contents
  contents-get_elem? [] i column e = absurd (ground arith)
  contents-get_elem? (a ∷ arrays) zero column e = (a, refl, ground arith)
  contents-get_elem? (a ∷ arrays) (suc i) column e = contents-get_elem? arrays i column e

  pub AllRows-get_elem? :
      (n : ℕ) (columns : List (List CString)) (i : ℕ) (column : List CString)
      → AllRows n columns
      → get_elem? columns i ≡ some column
      → length column ≡ n
  AllRows-get_elem? n [] i column all e = absurd (ground arith)
  AllRows-get_elem? n (c ∷ columns) zero column all e = ground arith
  AllRows-get_elem? n (c ∷ columns) (suc i) column all e =
      AllRows-get_elem? n columns i column all.1 e

  append_step :
      (row : List CString) (left i : ℕ) (columns : List u.Array) (a : u.Array) (value : CString)
      → get_elem? columns i ≡ some a
      → get_elem? row i ≡ some value
      → append_loop u row (suc left) i columns
        ≡ append_loop u row left (i + 1) (set columns i (u.push_back a value))
  unfolding append_loop
  append_step row left i columns a value h h' = ground arith

  module _ {t : Table u} {names : List CString} {columns : List (List CString)} {n : ℕ}
      (holds : Holds t names columns n) where
    -- `table_get_value` reads the value at a place of the columns.
    pub get_value-get_elem? :
        (c r : ℕ) (column : List CString) (value : CString)
        → get_elem? columns c ≡ some column
        → get_elem? column r ≡ some value
        → get_value u t c r ≡ ok value
    unfolding get_value
    get_value-get_elem? c r column value ec er =
        let (a, ea, e) =
          contents-get_elem? t.columns c column (ap (λ cs. get_elem? cs c) holds.values ∙ ec) in
        let found : u.eltptr a r ≡ some value =
          ua.eltptr-items a r ∙ ap (λ xs. get_elem? xs r) e ∙ er in
        ground arith

    pub get_row_count-Holds : get_row_count u t ≡ ok n
    unfolding get_row_count
    get_row_count-Holds =
        let (column, ec) = lt-get_elem? columns 0 (omega (arith, holds.some_column, holds.width)) in
        let (a, ea, e) =
          contents-get_elem? t.columns 0 column (ap (λ cs. get_elem? cs 0) holds.values ∙ ec) in
        let counted : u.len a ≡ n =
          ua.len-items a ∙ ap length e ∙ AllRows-get_elem? n columns 0 column holds.rows ec in
        ground arith

    append_loop-put_row :
        (row : List CString) (done : List u.Array) (rest : List u.Array)
        (row_done row_rest : List CString) (i left : ℕ)
        → row ≡ row_done ++ row_rest
        → i ≡ length done
        → length row_done ≡ length done
        → length row_rest ≡ length rest
        → left ≡ length rest
        → AllRows n (contents rest)
        → n < 2 ^ 31
        → (columns' : List u.Array) × (append_loop u row left i (done ++ rest)
            ≡ ok (done ++ columns'))
          × (contents columns' ≡ put_row (contents rest) row_rest)
    unfolding append_loop contents put_row
    append_loop-put_row row done [] row_done row_rest i left e ei ed er el all fits =
        ([], rw el refl, refl)
    append_loop-put_row row done (a ∷ rest) row_done [] i left e ei ed er el all fits =
        absurd (omega arith)
    append_loop-put_row row done (a ∷ rest) row_done (value ∷ row_rest) i left e ei ed er el all
          fits =
        let a' = u.push_back a value in
        let here : get_elem? (done ++ a ∷ rest) i ≡ some a = rw ei (get_elem?-middle done rest a) in
        let value_here : get_elem? row i ≡ some value =
          rw (e, ei, ← ed) (get_elem?-middle row_done row_rest value) in
        let stored : set (done ++ a ∷ rest) i a' ≡ (done ++ a' ∷ []) ++ rest =
          rw ei (set-middle done rest a a' ∙ sym (append_assoc done (a' ∷ []) rest)) in
        let (columns', run, put) =
          append_loop-put_row row (done ++ a' ∷ []) rest (row_done ++ value ∷ []) row_rest (i + 1)
            (length rest) (e ∙ sym (append_assoc row_done (value ∷ []) row_rest))
            (omega (arith, length-append done (a' ∷ [])))
            (omega (arith, length-append done (a' ∷ []), length-append row_done (value ∷ [])))
            (omega arith) refl all.1 fits in
        (
          a' ∷ columns',
          ap (λ (l : ℕ). append_loop u row l i (done ++ a ∷ rest)) el
              ∙ append_step row (length rest) i (done ++ a ∷ rest) a value here value_here
              ∙ ap (λ cs. append_loop u row (length rest) (i + 1) cs) stored
              ∙ run
              ∙ ap ok (append_assoc done (a' ∷ []) columns'),
          ap (λ c. c ∷ contents columns') (ua.items-push_back a value (omega (arith, all.0)))
              ∙ ap (λ cs. (ua.items a ++ value ∷ []) ∷ cs) put,
        )

    AllRows-put_row :
        (cs : List (List CString)) (row : List CString)
        → length row ≡ length cs
        → AllRows n cs
        → AllRows (suc n) (put_row cs row)
    unfolding put_row
    AllRows-put_row [] row e all = tt
    AllRows-put_row (c ∷ cs) [] e all = absurd (omega arith)
    AllRows-put_row (c ∷ cs) (value ∷ row) e all = (
      omega (arith, all.0, length-append c (value ∷ [])),
      AllRows-put_row cs row (omega arith) all.1,
    )

    -- For arrays with the behaviour of utarray (IsUtArray), let a table hold columns of n values
    -- each under some names (Holds), with n below 2^31. Then `table_append_row` with as many values
    -- as there are columns returns OK without a fault, and the table holds the same columns with
    -- each value behind its own (put_row), n + 1 values in each.
    pub append_row-Holds :
        (row : List CString)
        → length row ≡ length names
        → n < 2 ^ 31
        → (t' : Table u) × (append_row u t row ≡ ok (success, t'))
          × Holds t' names (put_row columns row) (suc n)
    unfolding append_row get_column_count
    append_row-Holds row full fits =
        let arrays : length t.columns ≡ length names =
          omega (arith, length-contents t.columns, ap length holds.values, holds.width) in
        let all : AllRows n (contents t.columns) =
          subst (λ cs. AllRows n cs) (sym holds.values) holds.rows in
        let (columns', run, put) =
          append_loop-put_row row [] t.columns [] row 0 t.column_count refl refl refl
            (omega (arith, full, arrays)) (omega (arith, holds.count, arrays)) all fits in
        let put' : contents columns' ≡ put_row columns row =
          put ∙ ap (λ cs. put_row cs row) holds.values in
        (
          record t { columns = columns' },
          rw run refl,
          record {
            count = holds.count;
            named = holds.named;
            values = put';
            width = length-put_row columns row ∙ holds.width;
            rows = AllRows-put_row columns row (omega (arith, full, holds.width)) holds.rows;
            some_column = holds.some_column;
            fits = holds.fits;
          },
        )
