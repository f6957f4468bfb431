-- ===== src/Parse/Taken.antt =====
-- The loop of `imbue_parser` that takes the keys, over a whole record.
use mathlib.Core.List.{append_assoc}
use fapolicyd_analyzer.Base.{
  ℕ, ◌+◌, ◌%◌, ◌^◌, ◌≤◌, ◌≡◌, refl, List, [], ◌∷◌, ◌++◌, length, set, replicate, length-replicate,
  Option, none, some, ok, arith,
}
use fapolicyd_analyzer.FieldArray.{FieldArray, block}
use fapolicyd_analyzer.Parse.Context.{Context, subject, object, with_fields}
use fapolicyd_analyzer.Parse.Format.{plain, plain_byte, Pair, All, render}
use fapolicyd_analyzer.Parse.Fields.{render_head}
use fapolicyd_analyzer.Parse.Steps.{cursor}
use fapolicyd_analyzer.Parse.Count.{fresh_array, record_text}
use fapolicyd_analyzer.Parse.Sets.{Sets, past_colon, Sets-plain, Sets-colon, end_run}
use fapolicyd_analyzer.Parse.Keys.{named, set_key-named, put_keys, cut, keying, keys_run}

-- the buffer that is left: each `=` a terminator, and the terminator of the line
abbrev pub imprint : (ps qs : List Pair) → List ℕ
imprint ps qs = cut ps ++ b' ' ∷ b':' ∷ b' ' ∷ (cut qs ++ b'\n' ∷ 0 ∷ [])

-- as many pointers as `field_array_initialize` allocates
abbrev pub cells : ℕ → List (Option ℕ)
cells n = replicate (n + 1) none

pub length-cells : (n : ℕ) → length (cells n) ≡ n + 1
length-cells n = length-replicate (n + 1) none

-- the array of a side whose keys are set, rendered from `base` on
abbrev pub side_array : ℕ → List Pair → FieldArray
side_array base rs =
    named (length rs % 2 ^ 32) (put_keys base 0 rs (cells (length rs))) (block (cells (length rs)))

module _ (ctx : Context) (p : Pair) (ps : List Pair) (q : Pair) (qs : List Pair) where
  abbrev pub colon_at : List ℕ
  colon_at = past_colon (cut (p ∷ ps))

  -- the arrays before any key is set
  abbrev pub counted : Context
  counted =
      with_fields object (with_fields subject ctx (fresh_array (length (p ∷ ps))))
        (fresh_array (length (q ∷ qs)))

  abbrev pub keyed : Context
  keyed =
      with_fields object (with_fields subject ctx (side_array 0 (p ∷ ps)))
        (side_array (length colon_at) (q ∷ qs))

  abbrev pub subject_keyed : Context
  subject_keyed = record counted { subject = side_array 0 (p ∷ ps) }

  -- the buffer when the loop has reached its terminator
  abbrev pub passed : List ℕ
  passed = (colon_at ++ cut (q ∷ qs)) ++ b'\n' ∷ []

  end_Sets :
      Sets object
        (0 + length (q ∷ qs))
        (cursor (colon_at ++ cut (q ∷ qs)) (b'\n' ∷ 0 ∷ []))
        keyed
        (ok (keyed, passed ++ 0 ∷ []))
  unfolding plain plain_byte
  end_Sets = Sets-plain (colon_at ++ cut (q ∷ qs)) (b'\n' ∷ []) (0 ∷ []) refl (record {
    run =
        λ fuel enough. end_run object _ keyed (ok (keyed, passed ++ 0 ∷ [])) passed [] fuel enough;
  })

  object_Sets :
      All (q ∷ qs)
      → Sets subject
          (0 + length (p ∷ ps))
          (cursor (cut (p ∷ ps)) (b' ' ∷ b':' ∷ b' ' ∷ (render (q ∷ qs) ++ b'\n' ∷ 0 ∷ [])))
          subject_keyed
          (ok (keyed, passed ++ 0 ∷ []))
  object_Sets good =
      let blank = cells (length (q ∷ qs)) in
      let m = length (q ∷ qs) % 2 ^ 32 in
      let (t, e) = render_head q qs (b'\n' ∷ 0 ∷ []) in
      let room : 0 + length (q ∷ qs) ≤ length blank =
        omega (arith, length-cells (length (q ∷ qs))) in
      let onward =
        keys_run object subject_keyed m (block blank) q qs colon_at (b'\n' ∷ 0 ∷ []) 0 blank good
          room end_Sets in
      rw e (
        Sets-colon q (cut (p ∷ ps)) t (named m (set blank 0 (some (length colon_at))) (block blank))
          good.0 (set_key-named m blank (block blank) 0 (length colon_at) (omega (arith, room)))
          (rw e at onward))

  -- The loop takes all keys of a record.
  pub subject_Sets :
      All (p ∷ ps)
      → All (q ∷ qs)
      → Sets subject 1
          (cursor [] (record_text (p ∷ ps) (q ∷ qs) ++ 0 ∷ []))
          (keying subject counted
            (length (p ∷ ps) % 2 ^ 32)
            (block (cells (length (p ∷ ps))))
            (set (cells (length (p ∷ ps))) 0 (some 0)))
          (ok (keyed, imprint (p ∷ ps) (q ∷ qs)))
  subject_Sets good_p good_q =
      let blank = cells (length (p ∷ ps)) in
      let room : 0 + length (p ∷ ps) ≤ length blank =
        omega (arith, length-cells (length (p ∷ ps))) in
      let whole : passed ++ 0 ∷ [] ≡ imprint (p ∷ ps) (q ∷ qs) = simp append_assoc in
      let text : render (p ∷ ps) ++ b' ' ∷ b':' ∷ b' ' ∷ (render (q ∷ qs) ++ b'\n' ∷ 0 ∷ [])
          ≡ record_text (p ∷ ps) (q ∷ qs) ++ 0 ∷ [] =
        simp append_assoc in
      rw (whole, text) at
        (keys_run subject counted (length (p ∷ ps) % 2 ^ 32) (block blank) p ps []
          (b' ' ∷ b':' ∷ b' ' ∷ (render (q ∷ qs) ++ b'\n' ∷ 0 ∷ [])) 0 blank good_p room
          (object_Sets good_q))
