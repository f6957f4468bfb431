-- ===== src/Table/Index/Find.antt =====
-- The index of a column leads each value to the rows that have it, in their order.
use mathlib.Core.List.{append_assoc, append-nil}
use mathlib.Core.Path.{subst}
use mathlib.Core.Option
use fapolicyd_analyzer.Base.{
  ℕ, suc, ◌+◌, ◌^◌, ◌<◌, ◌≡◌, refl, sym, ap, ◌∙◌, Bool, true, Option, none, some, List, [], ◌∷◌,
  ◌++◌, CString, get_elem?, get_elem?-middle, length, length-append, ok, arith,
}
use fapolicyd_analyzer.UtArray.{UtArray, IsUtArray}
use fapolicyd_analyzer.UtHash.{UtHash, IsUtHash}
use fapolicyd_analyzer.Table.{Table, get_value}
use fapolicyd_analyzer.Table.Rows.{
  Holds, AllRows-get_elem?, get_row_count-Holds, get_value-get_elem?,
}
use fapolicyd_analyzer.Table.Index.{Index, add_row, create_loop, create, count, find}
use fapolicyd_analyzer.Table.Index.Positions.{
  positions, rows_or_null, rows_or_null-some, new_values, new_values-append,
}
use fapolicyd_analyzer.Table.Index.Knows.{Knows, unknown, known, known_after}

module _ {u : UtArray CString} {r : UtArray ℕ} {h : UtHash} (ua : IsUtArray u) (ra : IsUtArray r)
    (ha : IsUtHash h) where
  -- What the index knows of every key after these values.
  pub record IsIndex (index : Index u r h) (done : List CString) : Type 0 where
    pub knows : (key : CString) → Knows ua ra ha index done key
    pub counted : h.count index.head ≡ new_values [] done

  create_loop-IsIndex :
      (allocated : ℕ → Bool)
      → ((i : ℕ) → allocated i ≡ true)
      → (t : Table u) (c : ℕ) (values : List CString)
      → ((i : ℕ) (value : CString) → get_elem? values i ≡ some value → get_value u t c i ≡ ok value)
      → length values < 2 ^ 31
      → (rest done : List CString) (left i : ℕ) (index : Index u r h) → values ≡ done ++ rest
      → i ≡ length done
      → left ≡ length rest
      → IsIndex index done
      → (index' : Index u r h) × (create_loop u r h allocated t c left i index ≡ ok index')
        × IsIndex index' values
  unfolding create_loop
  create_loop-IsIndex allocated all t c values read small [] done left i index e ei el is_index =
      (index, rw el refl, subst (λ vs. IsIndex index vs) (sym (append-nil done) ∙ sym e) is_index)
  create_loop-IsIndex allocated all t c values read small (value ∷ rest) done left i index e ei el
        is_index =
      let here : get_value u t c i ≡ ok value =
        read i value (rw (e, ei) (get_elem?-middle done rest value)) in
      let wide : length values ≡ length done + suc (length rest) =
        ap length e ∙ length-append done (value ∷ rest) in
      let (index₁, run, knows, more) =
        known_after ua ra ha (allocated i) index done value (all i) is_index.knows (omega arith) in
      let run' : add_row u r h (allocated i) index value i ≡ ok index₁ =
        ap (λ (j : ℕ). add_row u r h (allocated i) index value j) ei ∙ run in
      let (index₂, run'', is_index') =
        create_loop-IsIndex allocated all t c values read small rest (done ++ value ∷ [])
          (length rest) (i + 1) index₁ (e ∙ sym (append_assoc done (value ∷ []) rest))
          (omega (arith, length-append done (value ∷ []))) refl
          (record {
            knows = knows;
            counted = omega (arith, more, is_index.counted, new_values-append [] done value);
          }) in
      (index₂, rw el (ground arith), is_index')

  find-positions :
      {index : Index u r h} {values : List CString} (key : CString)
      → Knows ua ra ha index values key
      → (rows : Option r.Array) × (find u r h index key ≡ ok rows)
        × (Option.map ra.items rows ≡ rows_or_null (positions key 0 values))
  unfolding find
  find-positions {index} {values} key (unknown absent nowhere) =
      (none, ground arith, rw nowhere refl)
  find-positions {index} {values} key (known p item there at same rows some_rows) = (
    some item.rows,
    ground arith,
    ap some rows ∙ rows_or_null-some (positions key 0 values) some_rows,
  )

  -- For arrays and hashes with the behaviour of utarray and uthash (IsUtArray, IsUtHash), let a
  -- table hold columns of n values, n below 2^31, and let every allocation succeed. Then
  -- `table_index_create` on one of the columns returns without a fault, `table_index_count` then
  -- gives the number of different values in it (new_values), and `table_index_find` leads any key
  -- to exactly the rows in which the column has it, in their order, or to null if there is none.
  pub create-positions :
      {t : Table u} {names : List CString} {columns : List (List CString)} {n : ℕ}
      → Holds ua t names columns n
      → (c : ℕ) (column : List CString) (allocated : ℕ → Bool) → get_elem? columns c ≡ some column
      → ((i : ℕ) → allocated i ≡ true)
      → n < 2 ^ 31
      → (index : Index u r h) × (create u r h allocated t c ≡ ok index)
        × (count u r h index ≡ new_values [] column)
        × ((key : CString)
            → (rows : Option r.Array) × (find u r h index key ≡ ok rows)
              × (Option.map ra.items rows ≡ rows_or_null (positions key 0 column)))
  unfolding create count
  create-positions {t} {names} {columns} {n} holds c column allocated ec all small =
      let tall : length column ≡ n = AllRows-get_elem? ua n columns c column holds.rows ec in
      let start : IsIndex (record { head = h.empty; items = [] }) [] = record {
        knows = λ key. unknown (ha.find-empty key) (unfold positions in refl);
        counted = unfold new_values in ha.count-empty;
      } in
      let (index, run, is_index) =
        create_loop-IsIndex allocated all t c column
          (λ i value e. get_value-get_elem? ua holds c i column value ec e) (omega arith) column []
          n 0 (record { head = h.empty; items = [] }) refl refl (sym tall) start in
      (
        index,
        rw (get_row_count-Holds ua holds) run,
        is_index.counted,
        λ key. find-positions key (is_index.knows key),
      )
