-- ===== src/Parse/Reading.antt =====
-- What the accessors return after the values of a record were written.
use mathlib.Core.List.{append_assoc}
use mathlib.Core.Path.{subst}
use fapolicyd_analyzer.Base.{
  ℕ, suc, ◌+◌, ◌<◌, ◌≤◌, ◌≡◌, refl, ◌∙◌, true, List, [], ◌∷◌, ◌++◌, length, length-append,
  length-set, set, get_elem?, get_elem?-set_self, get_elem?-set_ne, Option, some, ok, arith,
  success,
}
use fapolicyd_analyzer.FieldArray.{
  FieldArray, block, load, get_key, get_value, get_field, get_num_fields,
}
use fapolicyd_analyzer.Parse.Cursor.{cstring_at}
use fapolicyd_analyzer.Parse.Format.{plain, Pair, All, torn, put_values, cstring_at-append}
use fapolicyd_analyzer.Parse.Fields.{KeysMatch, names}

-- From index `i` on, `get_field` gives these pairs, the keys in the exemplar, the values in `bytes`.
abbrev pub FieldsRead : FieldArray → (exemplar bytes : List ℕ) → ℕ → List Pair → Type 0
FieldsRead fa exemplar bytes i [] = Unit
FieldsRead fa exemplar bytes i (p ∷ ps) =
    ((key value : ℕ) × (get_field fa i
        ≡ ok (success, some (record { key = some key; value = some value })))
      × (cstring_at exemplar key ≡ ok p.key)
      × (cstring_at bytes value ≡ ok p.value))
    × FieldsRead fa exemplar bytes (i + 1) ps

put_values-below :
    (base i : ℕ) (ps : List Pair) (values : List (Option ℕ)) (j : ℕ)
    → j < i
    → get_elem? (put_values base i ps values) j ≡ get_elem? values j
unfolding put_values
put_values-below base i [] values j h = refl
put_values-below base i (p ∷ ps) values j h =
    put_values-below (base + length p.key + 1 + length p.value + 1) (suc i) ps
      (set values i (some (base + length p.key + 1))) j (omega arith)
    ∙ get_elem?-set_ne values i j (some (base + length p.key + 1)) (omega arith)

pub length-put_values :
    (base i : ℕ) (ps : List Pair) (values : List (Option ℕ))
    → length (put_values base i ps values) ≡ length values
unfolding put_values
length-put_values base i [] values = refl
length-put_values base i (p ∷ ps) values =
    length-put_values (base + length p.key + 1 + length p.value + 1) (suc i) ps
      (set values i (some (base + length p.key + 1)))
    ∙ length-set values i (some (base + length p.key + 1))

put_values-here :
    (base i : ℕ) (p : Pair) (ps : List Pair) (values : List (Option ℕ))
    → i < length values
    → get_elem? (put_values base i (p ∷ ps) values) i ≡ some (some (base + length p.key + 1))
unfolding put_values
put_values-here base i p ps values h =
    put_values-below (base + length p.key + 1 + length p.value + 1) (suc i) ps
      (set values i (some (base + length p.key + 1))) i (omega arith)
    ∙ get_elem?-set_self values i (some (base + length p.key + 1)) h

get_field-arr :
    (fa : FieldArray) (values : List (Option ℕ)) (i key value : ℕ)
    → fa.values ≡ block values
    → i < get_num_fields fa
    → load fa.keys i ≡ ok (some key)
    → get_elem? values i ≡ some (some value)
    → get_field fa i ≡ ok (success, some (record { key = some key; value = some value }))
unfolding get_field get_key get_value load
get_field-arr fa values i key value e h at_key at_value = ground arith

value_string :
    (before key value after : List ℕ)
    → plain value ≡ true
    → cstring_at (before ++ ((key ++ 0 ∷ value) ++ 0 ∷ after)) (length before + length key + 1)
      ≡ ok value
value_string before key value after h =
    let start : length ((before ++ key) ++ 0 ∷ []) ≡ length before + length key + 1 =
      omega (arith, length-append (before ++ key) (0 ∷ []), length-append before key) in
    let same : ((before ++ key) ++ 0 ∷ []) ++ (value ++ 0 ∷ after)
        ≡ before ++ ((key ++ 0 ∷ value) ++ 0 ∷ after) =
      simp append_assoc in
    rw (start, same) at (cstring_at-append ((before ++ key) ++ 0 ∷ []) value after h)

bytes_eq :
    (before key value rest after : List ℕ)
    → before ++ ((key ++ 0 ∷ (value ++ 0 ∷ rest)) ++ 0 ∷ after)
      ≡ before ++ ((key ++ 0 ∷ value) ++ 0 ∷ (rest ++ 0 ∷ after))
bytes_eq before key value rest after = simp append_assoc

module _ (fa : FieldArray) (exemplar : List ℕ) where
  pub put_values-FieldsRead :
      (ps : List Pair) (before after : List ℕ) (i : ℕ) (values : List (Option ℕ))
      → All ps
      → KeysMatch exemplar fa.keys i (names ps)
      → i + length ps ≤ get_num_fields fa
      → i + length ps ≤ length values
      → fa.values ≡ block (put_values (length before) i ps values)
      → FieldsRead fa exemplar (before ++ (torn ps ++ 0 ∷ after)) i ps
  unfolding torn put_values
  put_values-FieldsRead [] before after i values good match count room e = tt
  put_values-FieldsRead (p ∷ []) before after i values (good, _) ((q, at_q, named), _) count room
        e =
      (
        (
          q,
          length before + length p.key + 1,
          get_field-arr fa _ i q (length before + length p.key + 1) e (omega arith) at_q
              (put_values-here (length before) i p [] values (omega arith)),
          named,
          value_string before p.key p.value after good.plain_value,
        ),
        tt,
      )
  put_values-FieldsRead (p ∷ p' ∷ ps) before after i values (good, goods) ((q, at_q, named), match)
        count room e =
      let before' : List ℕ = (before ++ (p.key ++ 0 ∷ p.value)) ++ 0 ∷ [] in
      let v' = set values i (some (length before + length p.key + 1)) in
      let one : i + 1 ≡ suc i = omega arith in
      let width : length before' ≡ length before + length p.key + 1 + length p.value + 1 = omega (
        arith,
        length-append (before ++ (p.key ++ 0 ∷ p.value)) (0 ∷ []),
        length-append before (p.key ++ 0 ∷ p.value),
        length-append p.key (0 ∷ p.value),
      ) in
      let regroup : before' ++ (torn (p' ∷ ps) ++ 0 ∷ after)
          ≡ before ++ (torn (p ∷ p' ∷ ps) ++ 0 ∷ after) =
        simp append_assoc in
      let onward : FieldsRead fa exemplar (before' ++ (torn (p' ∷ ps) ++ 0 ∷ after)) (i + 1)
          (p' ∷ ps) =
        put_values-FieldsRead (p' ∷ ps) before' after (i + 1) v' goods match (omega arith)
          (omega (arith, length-set values i (some (length before + length p.key + 1))))
          (rw (width, one) e) in
      (
        (
          q,
          length before + length p.key + 1,
          get_field-arr fa _ i q (length before + length p.key + 1) e (omega arith) at_q
              (put_values-here (length before) i p (p' ∷ ps) values (omega arith)),
          named,
          (rw (bytes_eq before p.key p.value (torn (p' ∷ ps)) after)
              (value_string before p.key p.value (torn (p' ∷ ps) ++ 0 ∷ after) good.plain_value)),
        ),
        subst (λ b. FieldsRead fa exemplar b (i + 1) (p' ∷ ps)) regroup onward,
      )
