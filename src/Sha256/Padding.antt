-- ===== src/Sha256/Padding.antt =====
-- Writing bytes into a block.
use mathlib.Core.List.{append_assoc}
use fapolicyd_analyzer.Base.{
  set-middle, ℕ, zero, suc, ◌+◌, ◌≤◌, ◌≡◌, refl, ap, true, List, [], ◌∷◌, ◌++◌, length,
  length-append, ltb, ok, arith,
}
use fapolicyd_analyzer.Sha256.{put, write, big_endian}

pub put-middle :
    (before after : List ℕ) (i x y : ℕ)
    → i ≡ length before
    → put (before ++ x ∷ after) i y ≡ ok (before ++ y ∷ after)
unfolding put
put-middle before after i x y e =
    let inside : ltb (length before) (length (before ++ x ∷ after)) ≡ true =
      ground (arith, length-append before (x ∷ after)) in
    rw (e, inside) (ap ok (set-middle before after x y))

-- Bytes written over as many others leave what stands before and behind.
pub write-middle :
    (bytes before old after : List ℕ) (i : ℕ)
    → i ≡ length before
    → length old ≡ length bytes
    → write (before ++ (old ++ after)) i bytes ≡ ok (before ++ (bytes ++ after))
unfolding write
write-middle [] before [] after i e same = refl
write-middle [] before (x ∷ old) after i e same = absurd (omega arith)
write-middle (byte ∷ bytes) before [] after i e same = absurd (omega arith)
write-middle (byte ∷ bytes) before (x ∷ old) after i e same =
    let here = put-middle before (old ++ after) i x byte e in
    let onward =
      write-middle bytes (before ++ byte ∷ []) old after (i + 1)
        (omega (arith, length-append before (byte ∷ []))) (omega arith) in
    let left : (before ++ byte ∷ []) ++ (old ++ after) ≡ before ++ byte ∷ (old ++ after) =
      simp append_assoc in
    let right : (before ++ byte ∷ []) ++ (bytes ++ after) ≡ before ++ byte ∷ (bytes ++ after) =
      simp append_assoc in
    rw here (rw (left, right) at onward)

pub length-big_endian : (n v : ℕ) → length (big_endian n v) ≡ n
unfolding big_endian
length-big_endian zero v = refl
length-big_endian (suc n) v = ap suc (length-big_endian n v)

-- the first `n` of a list, and the rest
pub record Split (xs : List ℕ) (n : ℕ) : Type 0 where
  pub front : List ℕ
  pub back : List ℕ
  pub joined : front ++ back ≡ xs
  pub width : length front ≡ n

pub split : (xs : List ℕ) (n : ℕ) → n ≤ length xs → Split xs n
split xs zero h = record { front = []; back = xs; joined = refl; width = refl }
split [] (suc n) h = absurd (omega arith)
split (x ∷ xs) (suc n) h =
    let s = split xs n (omega arith) in
    record {
      front = x ∷ s.front;
      back = s.back;
      joined = ap (λ ys. x ∷ ys) s.joined;
      width = ap suc s.width;
    }
