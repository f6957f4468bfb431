-- ===== src/Table/Index/Knows.antt =====
-- What an index knows of a key, and what a further row does to that.
use mathlib.Core.List.{append-nil}
use fapolicyd_analyzer.Base.{
  ℕ, ◌+◌, ◌^◌, ◌<◌, ◌≡◌, ◌≢◌, refl, sym, ap, ◌∙◌, inl, inr, Bool, true, false, none, some, List, [],
  ◌∷◌, ◌++◌, CString, str_eq, str_eq→eq, str_eq_refl, get_elem?, get_elem?-lt, get_elem?-middle,
  get_elem?-append_left, get_elem?-set_self, get_elem?-set_ne, set, length, ok, arith, Bool-cases,
}
use fapolicyd_analyzer.UtArray.{UtArray, IsUtArray}
use fapolicyd_analyzer.UtHash.{UtHash, IsUtHash}
use fapolicyd_analyzer.Table.Index.{Item, Index, add_row}
use fapolicyd_analyzer.Table.Index.Positions.{
  positions, positions-append, length-positions, one_if_none, one_if_none-some,
}

module _ {u : UtArray CString} {r : UtArray ℕ} {h : UtHash} (ua : IsUtArray u) (ra : IsUtArray r)
    (ha : IsUtHash h) where
  -- What the index knows of one key after these values.
  pub data Knows (index : Index u r h) (done : List CString) (key : CString) : Type 0 where
    unknown : h.find index.head key ≡ none → positions key 0 done ≡ [] → Knows index done key
    known :
        (p : ℕ) (item : Item u r h)
        → h.find index.head key ≡ some p
        → get_elem? index.items p ≡ some item
        → item.key ≡ key
        → ra.items item.rows ≡ positions key 0 done
        → positions key 0 done ≢ []
        → Knows index done key

  module _ (index : Index u r h) (done : List CString) (value key : CString) where
    after_same :
        str_eq key value ≡ true
        → positions key 0 (done ++ value ∷ []) ≡ positions key 0 done ++ length done ∷ []
    after_same same =
        let counted : 0 + length done ≡ length done = omega arith in
        positions-append key 0 done value ∙ rw (same, counted) refl

    after_other :
        str_eq key value ≡ false → positions key 0 (done ++ value ∷ []) ≡ positions key 0 done
    after_other other =
        positions-append key 0 done value ∙ rw other (append-nil (positions key 0 done))

    not_nil : (xs : List ℕ) (x : ℕ) → xs ++ x ∷ [] ≢ []
    not_nil [] x = λ e. absurd (ground arith)
    not_nil (y ∷ xs) x = λ e. absurd (ground arith)

    -- a value that was not there yet
    add_new-Knows :
        h.find index.head value ≡ none
        → positions value 0 done ≡ []
        → length done < 2 ^ 31
        → Knows index done key
        → Knows
            (record {
              head = h.add_keyptr index.head value (length index.items);
              items =
                  index.items
                  ++ record { key = value; rows = r.push_back r.new (length done) } ∷ [];
            })
            (done ++ value ∷ [])
            key
    add_new-Knows absent none_yet small knows = elim (Bool-cases (str_eq key value)) [
      | inl same ↦
          let e : key ≡ value = str_eq→eq key value same in
          known (length index.items)
            (record { key = value; rows = r.push_back r.new (length done) })
            (ha.find-add_keyptr index.head value (length index.items) key absent ∙ rw same refl)
            (get_elem?-middle index.items [] _) (sym e)
            (ra.items-push_back r.new (length done) (omega (arith, ap length ra.items-new))
              ∙ ap (λ xs. xs ++ length done ∷ []) (ra.items-new ∙ sym (rw e none_yet))
              ∙ sym (after_same same))
            (λ nil. not_nil (positions key 0 done) (length done) (sym (after_same same) ∙ nil))
      | inr other ↦
          let kept : h.find (h.add_keyptr index.head value (length index.items)) key
              ≡ h.find index.head key =
            ha.find-add_keyptr index.head value (length index.items) key absent ∙ rw other refl in
          elim knows [
            | unknown gone nowhere ↦ unknown (kept ∙ gone) (after_other other ∙ nowhere)
            | known p item there at same rows some_rows ↦
                known p item (kept ∙ there)
                  (get_elem?-append_left index.items _ p (get_elem?-lt index.items p at) ∙ at) same
                  (rows ∙ sym (after_other other))
                  (λ nil. some_rows (sym (after_other other) ∙ nil))
          ]
    ]

    -- a value whose structure is number `p`
    add_again-Knows :
        (p : ℕ) (item : Item u r h)
        → h.find index.head value ≡ some p
        → get_elem? index.items p ≡ some item
        → item.key ≡ value
        → ra.items item.rows ≡ positions value 0 done
        → length done < 2 ^ 31
        → Knows index done key
        → Knows
            (record index {
              items =
                  set index.items p (record item { rows = r.push_back item.rows (length done) });
            })
            (done ++ value ∷ [])
            key
    add_again-Knows p item there at same_key rows small knows =
        elim (Bool-cases (str_eq key value)) [
          | inl same ↦
              let e : key ≡ value = str_eq→eq key value same in
              let shorter : length (ra.items item.rows) < 2 ^ 31 =
                omega (arith, ap length rows, length-positions value 0 done) in
              known p (record item { rows = r.push_back item.rows (length done) }) (rw e there)
                (get_elem?-set_self index.items p _ (get_elem?-lt index.items p at))
                (same_key ∙ sym e)
                (ra.items-push_back item.rows (length done) shorter
                  ∙ ap (λ xs. xs ++ length done ∷ []) (rows ∙ rw e refl)
                  ∙ sym (after_same same))
                (λ nil. not_nil (positions key 0 done) (length done) (sym (after_same same) ∙ nil))
          | inr other ↦ elim knows [
            | unknown gone nowhere ↦ unknown gone (after_other other ∙ nowhere)
            | known q item' there' at' same' rows' some_rows ↦
                let apart : p ≢ q =
                  λ e. absurd (ground (arith, str_eq_refl value, rw e at at, same_key, same')) in
                known q item' there' (get_elem?-set_ne index.items p q _ apart ∙ at') same'
                  (rows' ∙ sym (after_other other))
                  (λ nil. some_rows (sym (after_other other) ∙ nil))
          ]
        ]

  pub known_after :
      (allocated : Bool) (index : Index u r h) (done : List CString) (value : CString)
      → allocated ≡ true
      → ((key : CString) → Knows index done key)
      → length done < 2 ^ 31
      → (index' : Index u r h) × (add_row u r h allocated index value (length done) ≡ ok index')
        × ((key : CString) → Knows index' (done ++ value ∷ []) key)
        × (h.count index'.head ≡ h.count index.head + one_if_none (positions value 0 done))
  unfolding add_row
  known_after allocated index done value yes_allocated knows small = go (knows value)
    where
      go :
          Knows index done value
          → (index' : Index u r h) × (add_row u r h allocated index value (length done) ≡ ok index')
            × ((key : CString) → Knows index' (done ++ value ∷ []) key)
            × (h.count index'.head ≡ h.count index.head + one_if_none (positions value 0 done))
      go (unknown absent none_yet) = (
        record {
          head = h.add_keyptr index.head value (length index.items);
          items =
              index.items ++ record { key = value; rows = r.push_back r.new (length done) } ∷ [];
        },
        ground arith,
        λ key. add_new-Knows index done value key absent none_yet small (knows key),
        omega (
          arith,
          ha.count-add_keyptr index.head value (length index.items) absent,
          ap one_if_none none_yet,
        ),
      )
      go (known p item there e same rows some_rows) = (
        record index {
          items = set index.items p (record item { rows = r.push_back item.rows (length done) });
        },
        ground arith,
        λ key. add_again-Knows index done value key p item there e same rows small (knows key),
        omega (arith, one_if_none-some (positions value 0 done) some_rows),
      )
