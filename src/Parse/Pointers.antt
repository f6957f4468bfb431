-- ===== src/Parse/Pointers.antt =====
-- The key pointers that `imbue_parser` leaves, and the names they lead to in the exemplar.
use mathlib.Core.List.{append_assoc}
use mathlib.Core.Path.{subst₂}
use fapolicyd_analyzer.Base.{
  ℕ, suc, ◌+◌, ◌<◌, ◌≤◌, ◌≡◌, refl, ◌∙◌, List, [], ◌∷◌, ◌++◌, length, length-append, length-set,
  set, get_elem?, get_elem?-set_self, get_elem?-set_ne, Option, some, ok, arith,
}
use fapolicyd_analyzer.FieldArray.{block, load}
use fapolicyd_analyzer.Parse.Cursor.{cstring_at}
use fapolicyd_analyzer.Parse.Format.{Pair, All, cstring_at-append}
use fapolicyd_analyzer.Parse.Fields.{KeysMatch, names}
use fapolicyd_analyzer.Parse.Keys.{put_keys, cut}

put_keys-below :
    (base i : ℕ) (ps : List Pair) (keys : List (Option ℕ)) (j : ℕ)
    → j < i
    → get_elem? (put_keys base i ps keys) j ≡ get_elem? keys j
unfolding put_keys
put_keys-below base i [] keys j h = refl
put_keys-below base i (p ∷ ps) keys j h =
    put_keys-below (base + length p.key + 1 + length p.value + 1) (suc i) ps
      (set keys i (some base)) j (omega arith)
    ∙ get_elem?-set_ne keys i j (some base) (omega arith)

pub length-put_keys :
    (base i : ℕ) (ps : List Pair) (keys : List (Option ℕ))
    → length (put_keys base i ps keys) ≡ length keys
unfolding put_keys
length-put_keys base i [] keys = refl
length-put_keys base i (p ∷ ps) keys =
    length-put_keys (base + length p.key + 1 + length p.value + 1) (suc i) ps
      (set keys i (some base))
    ∙ length-set keys i (some base)

put_keys-here :
    (base i : ℕ) (p : Pair) (ps : List Pair) (keys : List (Option ℕ))
    → i < length keys
    → load (block (put_keys base i (p ∷ ps) keys)) i ≡ ok (some base)
unfolding put_keys load
put_keys-here base i p ps keys h =
    let here : get_elem? (put_keys base i (p ∷ ps) keys) i ≡ some (some base) =
      put_keys-below (base + length p.key + 1 + length p.value + 1) (suc i) ps
        (set keys i (some base)) i (omega arith)
      ∙ get_elem?-set_self keys i (some base) h in
    ground (arith, here)

-- Once a side is rendered with its keys cut off, its key pointers lead to its names.
pub put_keys-KeysMatch :
    (ps : List Pair) (before after : List ℕ) (i : ℕ) (keys : List (Option ℕ))
    → All ps
    → i + length ps ≤ length keys
    → KeysMatch
        (before ++ (cut ps ++ after))
        (block (put_keys (length before) i ps keys))
        i
        (names ps)
unfolding cut put_keys
put_keys-KeysMatch [] before after i keys good room = tt
put_keys-KeysMatch (p ∷ []) before after i keys (good, _) room = (
  (
    length before,
    put_keys-here (length before) i p [] keys (omega arith),
    rw (append_assoc p.key (0 ∷ p.value) after)
        (cstring_at-append before p.key (p.value ++ after) good.plain_key),
  ),
  tt,
)
put_keys-KeysMatch (p ∷ p' ∷ ps) before after i keys (good, goods) room =
    let before' : List ℕ = (before ++ (p.key ++ 0 ∷ p.value)) ++ b' ' ∷ [] in
    let keys' = set keys i (some (length before)) in
    let one : i + 1 ≡ suc i = omega arith in
    let width : length before' ≡ length before + length p.key + 1 + length p.value + 1 = omega (
      arith,
      length-append (before ++ (p.key ++ 0 ∷ p.value)) (b' ' ∷ []),
      length-append before (p.key ++ 0 ∷ p.value),
      length-append p.key (0 ∷ p.value),
    ) in
    let regroup : before' ++ (cut (p' ∷ ps) ++ after) ≡ before ++ (cut (p ∷ p' ∷ ps) ++ after) =
      simp append_assoc in
    let here : cstring_at (before ++ (cut (p ∷ p' ∷ ps) ++ after)) (length before) ≡ ok p.key =
      rw
        (
          append_assoc p.key (0 ∷ (p.value ++ b' ' ∷ cut (p' ∷ ps))) after,
          append_assoc p.value (b' ' ∷ cut (p' ∷ ps)) after,
        )
        (cstring_at-append before p.key (p.value ++ b' ' ∷ (cut (p' ∷ ps) ++ after))
          good.plain_key) in
    let onward =
      put_keys-KeysMatch (p' ∷ ps) before' after (i + 1) keys' goods
        (omega (arith, length-set keys i (some (length before)))) in
    (
      (length before, put_keys-here (length before) i p (p' ∷ ps) keys (omega arith), here),
      subst₂ (λ b ks. KeysMatch b (block ks) (i + 1) (names (p' ∷ ps))) regroup
          (rw (width, one) refl) onward,
    )
