-- ===== src/Parse/Keys.antt =====
-- The loop of `imbue_parser` that takes the keys, over a side of a record.
use mathlib.Core.List.{append_assoc}
use mathlib.Core.Path.{subst₃}
use fapolicyd_analyzer.Base.{
  ℕ, suc, ◌+◌, ◌<◌, ◌≤◌, ◌≡◌, refl, List, [], ◌∷◌, ◌++◌, length, length-append, length-set, set,
  Option, some, Outcome, ok, arith,
}
use fapolicyd_analyzer.FieldArray.{FieldArray, Block, block, store, set_key}
use fapolicyd_analyzer.Parse.Context.{Context, Side, with_fields}
use fapolicyd_analyzer.Parse.Format.{Pair, All, render}
use fapolicyd_analyzer.Parse.Fields.{fields-with_fields, with_fields-with_fields, render_head}
use fapolicyd_analyzer.Parse.Steps.{cursor}
use fapolicyd_analyzer.Parse.Sets.{Sets, Sets-field, Sets-space}

-- A field array whose keys may be written.
abbrev pub named : ℕ → List (Option ℕ) → Block → FieldArray
named num_fields keys values = record {
  num_fields = num_fields;
  keys = block keys;
  values = values;
}

pub set_key-named :
    (m : ℕ) (keys : List (Option ℕ)) (values : Block) (i p : ℕ)
    → i < length keys
    → set_key (named m keys values) i p ≡ ok (named m (set keys i (some p)) values)
unfolding set_key store
set_key-named m keys values i p h = ground arith

-- the pointers to the keys of `ps`, rendered from offset `base` on, written from index `i` on
unfoldable pub put_keys : (base i : ℕ) → List Pair → List (Option ℕ) → List (Option ℕ)
put_keys base i [] keys = keys
put_keys base i (p ∷ ps) keys =
    put_keys (base + length p.key + 1 + length p.value + 1) (suc i) ps (set keys i (some base))

-- the rendered pairs with each `=` made a terminator
unfoldable pub cut : List Pair → List ℕ
cut [] = []
cut (p ∷ []) = p.key ++ 0 ∷ p.value
cut (p ∷ q ∷ ps) = p.key ++ 0 ∷ (p.value ++ b' ' ∷ cut (q ∷ ps))

abbrev pub keying : Side → Context → ℕ → Block → List (Option ℕ) → Context
keying side ctx m values keys = with_fields side ctx (named m keys values)

module _ (side : Side) (ctx : Context) (m : ℕ) (values : Block)
    {result : Outcome (Context × List ℕ)} where
  -- The fields of a side, of which the first key is set already: all keys are set in order.
  pub keys_run :
      (p : Pair) (ps : List Pair) (before tail : List ℕ) (i : ℕ) (keys : List (Option ℕ))
      → All (p ∷ ps)
      → i + length (p ∷ ps) ≤ length keys
      → Sets side
          (i + length (p ∷ ps))
          (cursor (before ++ cut (p ∷ ps)) tail)
          (keying side ctx m values (put_keys (length before) i (p ∷ ps) keys))
          result
      → Sets side
          (i + 1)
          (cursor before (render (p ∷ ps) ++ tail))
          (keying side ctx m values (set keys i (some (length before))))
          result
  unfolding render cut put_keys
  keys_run p [] before tail i keys (good, _) room rest =
      rw (append_assoc p.key (b'=' ∷ p.value) tail) (Sets-field p before tail good rest)
  keys_run p (p' ∷ ps) before tail i keys (good, goods) room rest =
      let text = render (p' ∷ ps) in
      let b : List ℕ = before ++ (p.key ++ 0 ∷ p.value) in
      let b' : List ℕ = b ++ b' ' ∷ [] in
      let keys' = set keys i (some (length before)) in
      let (t, e) = render_head p' ps tail in
      let width : length b' ≡ length before + length p.key + 1 + length p.value + 1 = omega (
        arith,
        length-append (before ++ (p.key ++ 0 ∷ p.value)) (b' ' ∷ []),
        length-append before (p.key ++ 0 ∷ p.value),
        length-append p.key (0 ∷ p.value),
      ) in
      let one : suc i ≡ i + 1 = omega arith in
      let fits : i + 1 + length (p' ∷ ps) ≤ length keys' =
        omega (arith, length-set keys i (some (length before))) in
      let onward = keys_run p' ps b' tail (i + 1) keys' goods fits (
        subst₃ (λ j b v. Sets side j (cursor b tail) (keying side ctx m values v) result)
          (omega arith) (simp append_assoc) (rw (width, one) refl) rest) in
      rw
        (
          append_assoc p.key (b'=' ∷ (p.value ++ b' ' ∷ text)) tail,
          append_assoc p.value (b' ' ∷ text) tail,
        )
        (Sets-field p before (b' ' ∷ (text ++ tail)) good (
          rw e (
            Sets-space p' b t (named m (set keys' (i + 1) (some (length b'))) values) goods.0
              (rw fields-with_fields
                (set_key-named m keys' values (i + 1) (length b') (omega arith)))
              (rw with_fields-with_fields (rw e at onward)))))
