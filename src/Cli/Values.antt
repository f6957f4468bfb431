-- ===== src/Cli/Values.antt =====
-- `get_subject_value` and `get_object_value` on a record that was parsed.
use fapolicyd_analyzer.Base.{
  ℕ, zero, suc, ◌+◌, ◌<◌, ◌≡◌, if◌then◌else◌, Option, none, some, List, [], ◌∷◌, CString, str_eq,
  length, ok, range_error, arith, Bool-cases, inl, inr,
}
use fapolicyd_analyzer.FieldArray.{FieldArray, get_field, get_num_fields}
use fapolicyd_analyzer.Parse.Context.{
  Context, get_subject_field, get_object_field, get_number_of_subject_fields,
  get_number_of_object_fields,
}
use fapolicyd_analyzer.Parse.Cursor.{cstring_at}
use fapolicyd_analyzer.Parse.Record.{string_at}
use fapolicyd_analyzer.Parse.Format.{Pair}
use fapolicyd_analyzer.Parse.Reading.{FieldsRead}
use fapolicyd_analyzer.Parse.Correct.{HasRead, length-names}
use fapolicyd_analyzer.Cli.{value_loop, get_subject_value, get_object_value}

-- Specification: the value of the first pair with a key.
unfoldable pub value_of : CString → List Pair → Option CString
value_of key [] = none
value_of key (p ∷ ps) = if str_eq p.key key then some p.value else value_of key ps

-- A pointer into these bytes leads to this string, or both are null.
abbrev pub LeadsTo : List ℕ → Option ℕ → Option CString → Type 0
LeadsTo bytes none none = Unit
LeadsTo bytes none (some value) = ⊥
LeadsTo bytes (some i) none = ⊥
LeadsTo bytes (some i) (some value) = cstring_at bytes i ≡ ok value

value_loop-value_of :
    (fa : FieldArray) (exemplar bytes : List ℕ) (key : CString) (ps : List Pair) (i fuel : ℕ)
    → FieldsRead fa exemplar bytes i ps
    → get_num_fields fa ≡ i + length ps
    → length ps < fuel
    → (r : Option ℕ) × (value_loop (get_field fa) (some exemplar) key fuel i ≡ ok r)
      × LeadsTo bytes r (value_of key ps)
unfolding value_loop value_of string_at
value_loop-value_of fa exemplar bytes key ps i zero read count enough = absurd (omega arith)
value_loop-value_of fa exemplar bytes key [] i (suc fuel) read count enough =
    let past : get_field fa i ≡ ok (range_error, none) = unfold get_field in ground arith in
    (none, ground arith, tt)
value_loop-value_of fa exemplar bytes key (p ∷ ps) i (suc fuel) ((k, v, at, named, valued), read)
      count enough =
    elim (Bool-cases (str_eq p.key key)) [
      | inl same ↦ (some v, ground arith, rw same valued)
      | inr other ↦
          let (r, run, leads) =
            value_loop-value_of fa exemplar bytes key ps (i + 1) fuel read (omega arith)
              (omega arith) in
          (r, ground arith, rw other leads)
    ]

module _ {exemplar bytes : List ℕ} {ps qs : List Pair} {ctx : Context}
    (has_read : HasRead exemplar bytes ps qs ctx) (key : CString) where
  -- On a context that holds a record that `parse` has read (HasRead), `get_subject_value` returns
  -- without a fault, and what it returns leads in the line to the value of the first subject field
  -- with the key (value_of), or is null if there is none.
  pub get_subject_value-value_of :
      (r : Option ℕ) × (get_subject_value ctx key ≡ ok r) × LeadsTo bytes r (value_of key ps)
  unfolding get_subject_value get_subject_field get_number_of_subject_fields
  get_subject_value-value_of =
      let count : get_num_fields ctx.subject ≡ 0 + length ps =
        omega (arith, has_read.subject_again.count, length-names ps) in
      let (r, run, leads) =
        value_loop-value_of ctx.subject exemplar bytes key ps 0 (get_num_fields ctx.subject + 1)
          has_read.subject_read count (omega (arith, count)) in
      (r, ground (arith, has_read.keeps_exemplar), leads)

  -- `get_object_value`, likewise.
  pub get_object_value-value_of :
      (r : Option ℕ) × (get_object_value ctx key ≡ ok r) × LeadsTo bytes r (value_of key qs)
  unfolding get_object_value get_object_field get_number_of_object_fields
  get_object_value-value_of =
      let count : get_num_fields ctx.object ≡ 0 + length qs =
        omega (arith, has_read.object_again.count, length-names qs) in
      let (r, run, leads) =
        value_loop-value_of ctx.object exemplar bytes key qs 0 (get_num_fields ctx.object + 1)
          has_read.object_read count (omega (arith, count)) in
      (r, ground (arith, has_read.keeps_exemplar), leads)
