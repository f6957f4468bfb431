-- ===== src/Parse/Count.antt =====
-- The loop of `imbue_parser` that counts the fields, on a record.
use fapolicyd_analyzer.Base.{
  ℕ, suc, ◌+◌, ◌%◌, ◌^◌, ◌<◌, ◌≡◌, refl, ap, ◌∙◌, Bool, true, false, ◌==◌, List, [], ◌∷◌, ◌++◌,
  CString, lacks, length, replicate, none, arith, success,
}
use mathlib.Core.List.{append_assoc}
use fapolicyd_analyzer.FieldArray
use fapolicyd_analyzer.FieldArray.{FieldArray, block}
use fapolicyd_analyzer.Parse.Context.{Context, Side, subject, with_fields}
use fapolicyd_analyzer.Parse.Format.{plain_byte, plain, Pair, IsPair, All, render}
use fapolicyd_analyzer.Parse.Imbue.{initialize_side, count_fields}

-- No colon in the key or in the value.
pub record IsFlat (p : Pair) : Type 0 where
  pub flat_key : lacks b':' p.key ≡ true
  pub flat_value : lacks b':' p.value ≡ true

abbrev pub AllFlat : List Pair → Type 0
AllFlat [] = Unit
AllFlat (p ∷ ps) = IsFlat p × AllFlat ps

-- A field array as `field_array_initialize` leaves it for fewer than 2^31 fields.
abbrev pub fresh_array : ℕ → FieldArray
fresh_array n = record {
  num_fields = n % 2 ^ 32;
  keys = block (replicate (n + 1) none);
  values = block (replicate (n + 1) none);
}

pub initialize_side-fresh :
    (side : Side) (ctx : Context) (n : ℕ)
    → n < 2 ^ 31
    → initialize_side (true, true) side ctx n ≡ (success, with_fields side ctx (fresh_array n))
unfolding initialize_side FieldArray.initialize
initialize_side-fresh side ctx n few =
    let size : (n + 1) % 2 ^ 64 ≡ n + 1 = omega (arith, few) in rw size refl

module _ (alloc : ℕ → Bool × Bool) (ctx : Context) where
  -- Bytes that are neither `=` nor a colon are passed over.
  count_fields-plain :
      (i n : ℕ) (s rest : CString)
      → plain s ≡ true
      → lacks b':' s ≡ true
      → count_fields alloc i n ctx (s ++ rest) ≡ count_fields alloc (i + length s) n ctx rest
  unfolding count_fields plain plain_byte lacks
  count_fields-plain i n [] rest h h' =
      ap (λ (j : ℕ). count_fields alloc j n ctx rest) (omega arith)
  count_fields-plain i n (c ∷ s) rest h h' =
      let onward = count_fields-plain (i + 1) n s rest (ground arith) (ground arith) in
      let same : i + 1 + length s ≡ i + suc (length s) = omega arith in ground (arith, onward)

  count_fields-pair :
      (i n : ℕ) (p : Pair) (rest : CString)
      → IsPair p
      → IsFlat p
      → (j : ℕ) × (count_fields alloc i n ctx (p.key ++ b'=' ∷ (p.value ++ rest))
          ≡ count_fields alloc j (n + 1) ctx rest)
  unfolding count_fields
  count_fields-pair i n p rest good flat = (
    i + length p.key + 1 + length p.value,
    count_fields-plain i n p.key (b'=' ∷ (p.value ++ rest)) good.plain_key flat.flat_key
        ∙ count_fields-plain (i + length p.key + 1) (n + 1) p.value rest good.plain_value
            flat.flat_value,
  )

  -- A side of a record adds its number of pairs.
  pub count_fields-render :
      (ps : List Pair) (i n : ℕ) (rest : CString)
      → All ps
      → AllFlat ps
      → (j : ℕ) × (count_fields alloc i n ctx (render ps ++ rest)
          ≡ count_fields alloc j (n + length ps) ctx rest)
  unfolding render
  count_fields-render [] i n rest good flat =
      (i, ap (λ (m : ℕ). count_fields alloc i m ctx rest) (omega arith))
  count_fields-render (p ∷ []) i n rest (good, _) (flat, _) =
      let (j, run) = count_fields-pair i n p rest good flat in
      (j, rw (append_assoc p.key (b'=' ∷ p.value) rest) run)
  count_fields-render (p ∷ q ∷ ps) i n rest (good, goods) (flat, flats) =
      let (j, run) = count_fields-pair i n p (b' ' ∷ (render (q ∷ ps) ++ rest)) good flat in
      let (k, run') = count_fields-render (q ∷ ps) (j + 1) (n + 1) rest goods flats in
      let space : count_fields alloc j (n + 1) ctx (b' ' ∷ (render (q ∷ ps) ++ rest))
          ≡ count_fields alloc (j + 1) (n + 1) ctx (render (q ∷ ps) ++ rest) =
        unfold count_fields in refl in
      let total : n + 1 + length (q ∷ ps) ≡ n + length (p ∷ q ∷ ps) = omega arith in
      (
        k,
        rw
              (
                append_assoc p.key (b'=' ∷ (p.value ++ b' ' ∷ render (q ∷ ps))) rest,
                append_assoc p.value (b' ' ∷ render (q ∷ ps)) rest,
              )
              run
            ∙ space
            ∙ run'
            ∙ ap (λ (m : ℕ). count_fields alloc k m ctx rest) total,
      )

-- The text of a record: both sides with ` : ` between them, and the newline.
abbrev pub record_text : (ps qs : List Pair) → CString
record_text ps qs = render ps ++ b' ' ∷ b':' ∷ b' ' ∷ (render qs ++ b'\n' ∷ [])

-- Both sides are counted, and the subject has its array.
pub count_fields-record_text :
    (alloc : ℕ → Bool × Bool) (ctx : Context) (p : Pair) (ps qs : List Pair)
    → ((i : ℕ) → alloc i ≡ (true, true))
    → All (p ∷ ps)
    → AllFlat (p ∷ ps)
    → All qs
    → AllFlat qs
    → length (p ∷ ps) < 2 ^ 31
    → count_fields alloc 0 0 ctx (record_text (p ∷ ps) qs)
      ≡ (success, length qs, with_fields subject ctx (fresh_array (length (p ∷ ps))))
unfolding count_fields
count_fields-record_text alloc ctx p ps qs all good_p flat_p good_q flat_q few =
    let n = length (p ∷ ps) in
    let ctx' = with_fields subject ctx (fresh_array n) in
    let (j, run) =
      count_fields-render alloc ctx (p ∷ ps) 0 0 (b' ' ∷ b':' ∷ b' ' ∷ (render qs ++ b'\n' ∷ []))
        good_p flat_p in
    let (k, run') =
      count_fields-render alloc ctx' qs (j + 1 + 1 + 1) 0 (b'\n' ∷ []) good_q flat_q in
    let fresh : initialize_side (alloc (j + 1)) subject ctx (0 + n) ≡ (success, ctx') =
      ap (λ (a : Bool × Bool). initialize_side a subject ctx (0 + n)) (all (j + 1))
      ∙ initialize_side-fresh subject ctx (0 + n) (omega (arith, few))
      ∙ ap (λ (m : ℕ). (success, with_fields subject ctx (fresh_array m))) (omega arith) in
    let some_fields : (0 + n == 0) ≡ false = ground arith in
    let colon : count_fields alloc j (0 + n) ctx (b' ' ∷ b':' ∷ b' ' ∷ (render qs ++ b'\n' ∷ []))
        ≡ count_fields alloc (j + 1 + 1 + 1) 0 ctx' (render qs ++ b'\n' ∷ []) =
      ground arith in
    let total : 0 + length qs ≡ length qs = omega arith in
    run ∙ colon ∙ run' ∙ ap (λ (m : ℕ). (success, m, ctx')) total
