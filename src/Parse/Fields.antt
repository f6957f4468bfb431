-- ===== src/Parse/Fields.antt =====
-- The loop of `parse` over the fields of one side.
use mathlib.Core.List.{append_assoc}
use mathlib.Core.Path.{subst₃}
use fapolicyd_analyzer.Base.{
  ℕ, suc, ◌+◌, ◌<◌, ◌≤◌, ◌≡◌, refl, true, List, [], ◌∷◌, ◌++◌, CString, length, length-append,
  length-set, set, Option, some, Outcome, ok, arith,
}
use fapolicyd_analyzer.FieldArray.{FieldArray, Block, block, load, store, get_key, set_value}
use fapolicyd_analyzer.Parse.Context.{Context, Side, subject, object, fields, with_fields}
use fapolicyd_analyzer.Parse.Cursor.{cstring_at}
use fapolicyd_analyzer.Parse.Format.{
  plain_byte, plain, starts, Pair, IsPair, All, render, torn, put_values, cstring_at-append,
}
use fapolicyd_analyzer.Parse.Record.{Loop, string_at}
use fapolicyd_analyzer.Parse.Steps.{Runs, cursor, step_equals, step_space, steps_plain}

-- A field array whose values may be written.
abbrev pub arr : ℕ → Block → List (Option ℕ) → FieldArray
arr num_fields keys values = record { num_fields = num_fields; keys = keys; values = block values }

-- From index `i` on the array of keys points at these names in the exemplar.
abbrev pub KeysMatch : List ℕ → Block → ℕ → List CString → Type 0
KeysMatch exemplar keys i [] = Unit
KeysMatch exemplar keys i (name ∷ names) =
    ((p : ℕ) × (load keys i ≡ ok (some p)) × (cstring_at exemplar p ≡ ok name))
    × KeysMatch exemplar keys (i + 1) names

abbrev pub names : List Pair → List CString
names [] = []
names (p ∷ ps) = p.key ∷ names ps

-- The loop stands behind the first byte of a field that begins at the end of `before`.
abbrev pub Starts : Side → ℕ → List ℕ → List ℕ → Context → Outcome Loop → Type 0
Starts side i before [] ctx result = ⊥
Starts side i before (c ∷ text) ctx result =
    Runs side i (length before) (cursor (before ++ c ∷ []) text) ctx result

pub fields-with_fields :
    (side : Side) (ctx : Context) (fa : FieldArray) → fields side (with_fields side ctx fa) ≡ fa
fields-with_fields subject ctx fa = refl
fields-with_fields object ctx fa = refl

pub with_fields-with_fields :
    (side : Side) (ctx : Context) (fa fb : FieldArray)
    → with_fields side (with_fields side ctx fa) fb ≡ with_fields side ctx fb
with_fields-with_fields subject ctx fa fb = refl
with_fields-with_fields object ctx fa fb = refl

pub exemplar-with_fields :
    (side : Side) (ctx : Context) (fa : FieldArray)
    → (with_fields side ctx fa).exemplar ≡ ctx.exemplar
exemplar-with_fields subject ctx fa = refl
exemplar-with_fields object ctx fa = refl

set_value-arr :
    (n : ℕ) (keys : Block) (values : List (Option ℕ)) (i p : ℕ)
    → i < length values
    → set_value (arr n keys values) i p ≡ ok (arr n keys (set values i (some p)))
unfolding set_value store
set_value-arr n keys values i p h = ground arith

abbrev pub reading : Side → Context → ℕ → Block → List (Option ℕ) → Context
reading side ctx n keys values = with_fields side ctx (arr n keys values)

module _ (side : Side) (ctx : Context) (exemplar : List ℕ)
    (has_exemplar : ctx.exemplar ≡ some exemplar) (n : ℕ) (keys : Block)
    {result : Outcome Loop} where
  field_at :
      (c : ℕ) (key value before tail : List ℕ) (i p : ℕ) (values : List (Option ℕ))
      → plain (c ∷ key) ≡ true
      → plain value ≡ true
      → load keys i ≡ ok (some p)
      → cstring_at exemplar p ≡ ok (c ∷ key)
      → i < length values
      → Runs side
          (i + 1)
          (length before)
          (cursor (before ++ ((c ∷ key) ++ 0 ∷ value)) tail)
          (reading side ctx n keys (set values i (some (length before + length (c ∷ key) + 1))))
          result
      → Runs side i
          (length before)
          (cursor (before ++ c ∷ []) (key ++ b'=' ∷ (value ++ tail)))
          (reading side ctx n keys values)
          result
  unfolding get_key string_at
  field_at c key value before tail i p values plain_key plain_value at_p named room rest =
      let b₁ : List ℕ = (before ++ c ∷ []) ++ key in
      let same : b₁ ≡ before ++ c ∷ key = append_assoc before (c ∷ []) key in
      let width : length (b₁ ++ 0 ∷ []) ≡ length before + length (c ∷ key) + 1 = rw same (
        omega
          (arith, length-append (before ++ c ∷ key) (0 ∷ []), length-append before (c ∷ key))) in
      let whole : (b₁ ++ 0 ∷ []) ++ value ≡ before ++ ((c ∷ key) ++ 0 ∷ value) =
        simp append_assoc in
      steps_plain (before ++ c ∷ []) key (b'=' ∷ (value ++ tail)) (unfold plain in ground arith) (
        step_equals b₁ (value ++ tail) (some p) (c ∷ key)
          (arr n keys (set values i (some (length (b₁ ++ 0 ∷ []))))) (rw fields-with_fields at_p)
          (rw (exemplar-with_fields, has_exemplar) named)
          (rw (same, append_assoc before (c ∷ key) (0 ∷ (value ++ tail)))
            (cstring_at-append before (c ∷ key) (value ++ tail) plain_key))
          (rw fields-with_fields (set_value-arr n keys values i _ room))
          (rw with_fields-with_fields
            (steps_plain (b₁ ++ 0 ∷ []) value tail plain_value (rw (whole, width) rest))))

  -- One field: its name is the expected one, and its value is recorded.
  field_run :
      (p : Pair) (before tail : List ℕ) (i q : ℕ) (values : List (Option ℕ))
      → IsPair p
      → load keys i ≡ ok (some q)
      → cstring_at exemplar q ≡ ok p.key
      → i < length values
      → Runs side
          (i + 1)
          (length before)
          (cursor (before ++ (p.key ++ 0 ∷ p.value)) tail)
          (reading side ctx n keys (set values i (some (length before + length p.key + 1))))
          result
      → Starts side i before
          (p.key ++ b'=' ∷ (p.value ++ tail))
          (reading side ctx n keys values)
          result
  field_run p before tail i q values good at_q named room rest = go p.key refl
    where
      go :
          (key : CString)
          → p.key ≡ key
          → Starts side i before
              (key ++ b'=' ∷ (p.value ++ tail))
              (reading side ctx n keys values)
              result
      go [] e = absurd (unfold starts in ground (arith, good.starting))
      go (c ∷ key) e =
          field_at c key p.value before tail i q values (rw e at good.plain_key) good.plain_value
            at_q (rw e at named) room (rw e at rest)

pub space-Starts :
    (side : Side) (i line : ℕ) (ctx : Context) {result : Outcome Loop} (p : Pair)
    (before text : List ℕ)
    → IsPair p
    → Starts side i (before ++ 0 ∷ []) (p.key ++ text) ctx result
    → Runs side i line (cursor before (b' ' ∷ (p.key ++ text))) ctx result
space-Starts side i line ctx {result} p before text good = go p.key refl
  where
    go :
        (key : CString)
        → p.key ≡ key
        → Starts side i (before ++ 0 ∷ []) (key ++ text) ctx result
        → Runs side i line (cursor before (b' ' ∷ (key ++ text))) ctx result
    go [] e rest = absurd (unfold starts in ground (arith, good.starting))
    go (c ∷ key) e rest =
        step_space before (key ++ text) c
          (unfold plain plain_byte in ground (arith, good.plain_key))
          (unfold starts in ground (arith, good.starting)) rest

pub render_head :
    (p : Pair) (ps : List Pair) (tail : List ℕ)
    → (text : List ℕ) × (render (p ∷ ps) ++ tail ≡ p.key ++ text)
unfolding render
render_head p [] tail = ((b'=' ∷ p.value) ++ tail, append_assoc p.key (b'=' ∷ p.value) tail)
render_head p (q ∷ ps) tail =
    (_, append_assoc p.key (b'=' ∷ (p.value ++ b' ' ∷ render (q ∷ ps))) tail)

module _ (side : Side) (ctx : Context) (exemplar : List ℕ)
    (has_exemplar : ctx.exemplar ≡ some exemplar) (n : ℕ) (keys : Block)
    {result : Outcome Loop} where
  -- All fields of a side: the names are the expected ones, and the values are recorded in order.
  pub fields_run :
      (p : Pair) (ps : List Pair) (before tail : List ℕ) (i : ℕ) (values : List (Option ℕ))
      → All (p ∷ ps)
      → KeysMatch exemplar keys i (names (p ∷ ps))
      → i + length (p ∷ ps) ≤ length values
      → ((line : ℕ)
          → Runs side
              (i + length (p ∷ ps))
              line
              (cursor (before ++ torn (p ∷ ps)) tail)
              (reading side ctx n keys (put_values (length before) i (p ∷ ps) values))
              result)
      → Starts side i before (render (p ∷ ps) ++ tail) (reading side ctx n keys values) result
  unfolding render torn put_values
  fields_run p [] before tail i values (good, _) ((q, at_q, named), _) room rest =
      rw (append_assoc p.key (b'=' ∷ p.value) tail) (
        field_run side ctx exemplar has_exemplar n keys p before tail i q values good at_q named
          (omega arith) (rest (length before)))
  fields_run p (p' ∷ ps) before tail i values (good, goods) ((q, at_q, named), match) room rest =
      let text = render (p' ∷ ps) in
      let b' : List ℕ = (before ++ (p.key ++ 0 ∷ p.value)) ++ 0 ∷ [] in
      let v' = set values i (some (length before + length p.key + 1)) in
      let (t, e) = render_head p' ps tail in
      let width : length b' ≡ length before + length p.key + 1 + length p.value + 1 = omega (
        arith,
        length-append (before ++ (p.key ++ 0 ∷ p.value)) (0 ∷ []),
        length-append before (p.key ++ 0 ∷ p.value),
        length-append p.key (0 ∷ p.value),
      ) in
      let one : suc i ≡ i + 1 = omega arith in
      let onward =
        fields_run p' ps b' tail (i + 1) v' goods match
          (omega (arith, length-set values i (some (length before + length p.key + 1))))
          (λ line.
            subst₃ (λ j b v. Runs side j line (cursor b tail) (reading side ctx n keys v) result)
              (omega arith) (simp append_assoc) (rw (width, one)) (rest line)) in
      rw
        (
          append_assoc p.key (b'=' ∷ (p.value ++ b' ' ∷ text)) tail,
          append_assoc p.value (b' ' ∷ text) tail,
        )
        (field_run side ctx exemplar has_exemplar n keys p before (b' ' ∷ (text ++ tail)) i q values
          good at_q named (omega arith)
          (rw e (
            space-Starts side (i + 1) (length before) _ p' (before ++ (p.key ++ 0 ∷ p.value)) t
              goods.0 (rw e at onward))))
