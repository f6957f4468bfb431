-- ===== src/Table/Columns.antt =====
-- A fresh table, a column put behind the others, and the search for a column by its name.
use mathlib.Core.List.{append_assoc, append-nil}
use fapolicyd_analyzer.Base.{
  ℕ, zero, suc, ◌+◌, ◌%◌, ◌^◌, ◌<◌, ◌≡◌, refl, sym, ap, ◌∙◌, Bool, true, if◌then◌else◌, Option,
  none, some, List, [], ◌∷◌, ◌++◌, CString, str_eq, get_elem?, get_elem?-middle, replicate, length,
  length-append, length-replicate, ok, ErrorCode, success, not_found, arith,
}
use fapolicyd_analyzer.UtArray.{UtArray, IsUtArray}
use fapolicyd_analyzer.Table.{
  Table, copy_names, initialize, get_column_count, get_column_name, find_loop, find_column_number,
  column_loop, append_column,
}
use fapolicyd_analyzer.Table.Rows.{contents, AllRows, Holds, get_row_count-Holds}

copy_names-drop :
    (allocated : ℕ → Bool)
    → ((i : ℕ) → allocated i ≡ true)
    → (names done : List CString) (rest : List CString) (left i : ℕ) → names ≡ done ++ rest
    → i ≡ length done
    → left ≡ length rest
    → copy_names allocated names left i ≡ ok rest
unfolding copy_names
copy_names-drop allocated all names done [] left i e ei el = rw el refl
copy_names-drop allocated all names done (name ∷ rest) left i e ei el =
    let here : get_elem? names i ≡ some name = rw (e, ei) (get_elem?-middle done rest name) in
    let run =
      copy_names-drop allocated all names (done ++ name ∷ []) rest (length rest) (i + 1)
        (e ∙ sym (append_assoc done (name ∷ []) rest))
        (omega (arith, length-append done (name ∷ []))) refl in
    rw el (ground (arith, all i))

-- Specification: where a name stands first.
unfoldable pub index_of : CString → List CString → Option ℕ
index_of name [] = none
index_of name (x ∷ names) =
    if str_eq name x
    then some 0
    else elim (index_of name names) [ none ↦ none | some i ↦ some (i + 1) ]

-- the code and the index that the search gives
abbrev pub found : ℕ → Option ℕ → ErrorCode × Option ℕ
found base none = (not_found, none)
found base (some i) = (success, some (base + i))

module _ {u : UtArray CString} (ua : IsUtArray u) where
  contents-replicate : (n : ℕ) → contents ua (replicate n u.new) ≡ replicate n []
  unfolding contents
  contents-replicate zero = refl
  contents-replicate (suc n) =
      ap (λ c. c ∷ contents ua (replicate n u.new)) ua.items-new
      ∙ ap (λ cs. [] ∷ cs) (contents-replicate n)

  AllRows-replicate : (n : ℕ) → AllRows ua 0 (replicate n [])
  AllRows-replicate zero = tt
  AllRows-replicate (suc n) = (refl, AllRows-replicate n)

  -- `table_initialize` makes an empty column for each name.
  pub initialize-Holds :
      (t : Table u) (names : List CString) (allocated : ℕ → Bool)
      → 0 < length names
      → length names < 2 ^ 31
      → ((i : ℕ) → allocated i ≡ true)
      → (t' : Table u) × (initialize u true true allocated t names (length names)
          ≡ ok (success, t'))
        × Holds ua t' names (replicate (length names) []) 0
  unfolding initialize
  initialize-Holds t names allocated some_name fits all = (
    record {
      column_count = length names;
      column_names = names;
      columns = replicate (length names) u.new;
    },
    rw (copy_names-drop allocated all names [] names (length names) 0 refl refl refl),
    record {
      count = refl;
      named = refl;
      values = contents-replicate (length names);
      width = length-replicate (length names) [];
      rows = AllRows-replicate (length names);
      some_column = some_name;
      fits = fits;
    },
  )

  column_loop-items :
      (column done rest : List CString) (left i : ℕ) (a : u.Array)
      → column ≡ done ++ rest
      → i ≡ length done
      → left ≡ length rest
      → ua.items a ≡ done
      → length column < 2 ^ 31
      → (a' : u.Array) × (column_loop u column left i a ≡ ok a') × (ua.items a' ≡ column)
  unfolding column_loop
  column_loop-items column done [] left i a e ei el ea fits =
      (a, rw el refl, ea ∙ sym (append-nil done) ∙ sym e)
  column_loop-items column done (value ∷ rest) left i a e ei el ea fits =
      let here : get_elem? column i ≡ some value = rw (e, ei) (get_elem?-middle done rest value) in
      let wide : length column ≡ length done + suc (length rest) =
        ap length e ∙ length-append done (value ∷ rest) in
      let pushed : ua.items (u.push_back a value) ≡ done ++ value ∷ [] =
        ua.items-push_back a value (omega (arith, ap length ea)) ∙ ap (λ xs. xs ++ value ∷ []) ea in
      let (a', run, items) =
        column_loop-items column (done ++ value ∷ []) rest (length rest) (i + 1)
          (u.push_back a value) (e ∙ sym (append_assoc done (value ∷ []) rest))
          (omega (arith, length-append done (value ∷ []))) refl pushed fits in
      (a', rw el (ground arith), items)

  contents-append :
      (xs ys : List u.Array) → contents ua (xs ++ ys) ≡ contents ua xs ++ contents ua ys
  unfolding contents
  contents-append [] ys = refl
  contents-append (x ∷ xs) ys = ap (λ cs. ua.items x ∷ cs) (contents-append xs ys)

  AllRows-append :
      (n : ℕ) (xs ys : List (List CString))
      → AllRows ua n xs
      → AllRows ua n ys
      → AllRows ua n (xs ++ ys)
  AllRows-append n [] ys all all' = all'
  AllRows-append n (x ∷ xs) ys all all' = (all.0, AllRows-append n xs ys all.1 all')

  module _ {t : Table u} {names : List CString} {columns : List (List CString)} {n : ℕ}
      (holds : Holds ua t names columns n) where
    -- For arrays with the behaviour of utarray (IsUtArray), let a table hold columns of n values
    -- each under some names (Holds), n and the number of names with the new one below 2^31, and let
    -- every allocation succeed. Then `table_append_column` with a name and n values returns OK
    -- without a fault, and the table holds the new column under its name behind the others.
    pub append_column-Holds :
        (name : CString) (column : List CString)
        → length column ≡ n
        → n < 2 ^ 31
        → length names + 1 < 2 ^ 31
        → (t' : Table u) × (append_column u true true true t name column ≡ ok (success, t'))
          × Holds ua t' (names ++ name ∷ []) (columns ++ column ∷ []) n
    unfolding append_column
    append_column-Holds name column full small fits =
        let counted = get_row_count-Holds ua holds in
        let empty : ua.items (u.reserve u.new n) ≡ [] = ua.items-reserve u.new n ∙ ua.items-new in
        let (a, run, items) =
          column_loop-items column [] column n 0 (u.reserve u.new n) refl refl (sym full) empty
            (omega arith) in
        let one_more : (t.column_count + 1) % 2 ^ 64 ≡ length (names ++ name ∷ []) =
          omega (arith, holds.count, length-append names (name ∷ []), fits) in
        (
          record {
            column_count = (t.column_count + 1) % 2 ^ 64;
            column_names = t.column_names ++ name ∷ [];
            columns = t.columns ++ a ∷ [];
          },
          rw (counted, run) refl,
          record {
            count = one_more;
            named = ap (λ ns. ns ++ name ∷ []) holds.named;
            values =
                contents-append t.columns (a ∷ [])
                ∙ ap (λ cs. cs ++ contents ua (a ∷ [])) holds.values
                ∙ ap (λ cs. columns ++ cs) (unfold contents in ap (λ c. c ∷ []) items);
            width = omega (
              arith,
              holds.width,
              length-append columns (column ∷ []),
              length-append names (name ∷ []),
            );
            rows = AllRows-append n columns (column ∷ []) holds.rows (full, tt);
            some_column = omega (arith, length-append names (name ∷ []));
            fits = omega (arith, length-append names (name ∷ []), fits);
          },
        )

    find_loop-index_of :
        (name : CString) (done rest : List CString) (left i : ℕ)
        → names ≡ done ++ rest
        → i ≡ length done
        → left ≡ length rest
        → find_loop u t name left i ≡ ok (found i (index_of name rest))
    unfolding find_loop get_column_name index_of
    find_loop-index_of name done [] left i e ei el = rw el refl
    find_loop-index_of name done (x ∷ rest) left i e ei el =
        let here : get_elem? t.column_names i ≡ some x =
          rw (holds.named, e, ei) (get_elem?-middle done rest x) in
        let run =
          find_loop-index_of name (done ++ x ∷ []) rest (length rest) (i + 1)
            (e ∙ sym (append_assoc done (x ∷ []) rest)) (omega (arith, length-append done (x ∷ [])))
            refl in
        rw el (ground arith)

    -- On a table that holds columns under some names (Holds, over arrays with the behaviour of
    -- utarray), `table_find_column_number` returns without a fault the place at which a name stands
    -- first among them, with OK, or NOT_FOUND if it is not there (found, index_of).
    pub find_column_number-index_of :
        (name : CString) → find_column_number u t name ≡ ok (found 0 (index_of name names))
    unfolding find_column_number get_column_count
    find_column_number-index_of name =
        find_loop-index_of name [] names t.column_count 0 refl refl holds.count
