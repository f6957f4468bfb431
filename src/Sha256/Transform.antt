-- ===== src/Sha256/Transform.antt =====
-- `_sha256_transform`, with its macros and its constants.
use Prim.Native.Nat.{bit_and, bit_or, bit_xor}
use fapolicyd_analyzer.Base.{
  ℕ, zero, suc, ◌+◌, ◌-◌, ◌*◌, ◌/◌, ◌%◌, ◌^◌, none, some, List, [], ◌∷◌, ◌++◌, get_elem?,
}

-- `ROTRIGHT`, `CH`, `MAJ`, `EP0`, `EP1`, `SIG0` and `SIG1`
abbrev rotright : ℕ → ℕ → ℕ
rotright a b = bit_or (a / 2 ^ b) (a * 2 ^ (32 - b) % 2 ^ 32)

abbrev xor3 : ℕ → ℕ → ℕ → ℕ
xor3 x y z = bit_xor (bit_xor x y) z

unfoldable pub ch : ℕ → ℕ → ℕ → ℕ
ch x y z = bit_xor (bit_and x y) (bit_and (bit_xor x (2 ^ 32 - 1)) z)

unfoldable pub maj : ℕ → ℕ → ℕ → ℕ
maj x y z = xor3 (bit_and x y) (bit_and x z) (bit_and y z)

unfoldable pub ep0 : ℕ → ℕ
ep0 x = xor3 (rotright x 2) (rotright x 13) (rotright x 22)

unfoldable pub ep1 : ℕ → ℕ
ep1 x = xor3 (rotright x 6) (rotright x 11) (rotright x 25)

unfoldable pub sig0 : ℕ → ℕ
sig0 x = xor3 (rotright x 7) (rotright x 18) (x / 2 ^ 3)

unfoldable pub sig1 : ℕ → ℕ
sig1 x = xor3 (rotright x 17) (rotright x 19) (x / 2 ^ 10)

-- `k`
abbrev pub k : List ℕ
k =
    0x428a2f98 ∷ 0x71374491 ∷ 0xb5c0fbcf ∷ 0xe9b5dba5 ∷ 0x3956c25b ∷ 0x59f111f1 ∷ 0x923f82a4
    ∷ 0xab1c5ed5 ∷ 0xd807aa98 ∷ 0x12835b01 ∷ 0x243185be ∷ 0x550c7dc3 ∷ 0x72be5d74 ∷ 0x80deb1fe
    ∷ 0x9bdc06a7 ∷ 0xc19bf174 ∷ 0xe49b69c1 ∷ 0xefbe4786 ∷ 0x0fc19dc6 ∷ 0x240ca1cc ∷ 0x2de92c6f
    ∷ 0x4a7484aa ∷ 0x5cb0a9dc ∷ 0x76f988da ∷ 0x983e5152 ∷ 0xa831c66d ∷ 0xb00327c8 ∷ 0xbf597fc7
    ∷ 0xc6e00bf3 ∷ 0xd5a79147 ∷ 0x06ca6351 ∷ 0x14292967 ∷ 0x27b70a85 ∷ 0x2e1b2138 ∷ 0x4d2c6dfc
    ∷ 0x53380d13 ∷ 0x650a7354 ∷ 0x766a0abb ∷ 0x81c2c92e ∷ 0x92722c85 ∷ 0xa2bfe8a1 ∷ 0xa81a664b
    ∷ 0xc24b8b70 ∷ 0xc76c51a3 ∷ 0xd192e819 ∷ 0xd6990624 ∷ 0xf40e3585 ∷ 0x106aa070 ∷ 0x19a4c116
    ∷ 0x1e376c08 ∷ 0x2748774c ∷ 0x34b0bcb5 ∷ 0x391c0cb3 ∷ 0x4ed8aa4a ∷ 0x5b9cca4f ∷ 0x682e6ff3
    ∷ 0x748f82ee ∷ 0x78a5636f ∷ 0x84c87814 ∷ 0x8cc70208 ∷ 0x90befffa ∷ 0xa4506ceb ∷ 0xbef9a3f7
    ∷ 0xc67178f2 ∷ []

-- `unsigned int state[8]`, and the variables `a` to `h`
pub record Words : Type 0 where
  pub a : ℕ
  pub b : ℕ
  pub c : ℕ
  pub d : ℕ
  pub e : ℕ
  pub f : ℕ
  pub g : ℕ
  pub h : ℕ

-- the first loop of `_sha256_transform`: `m[0]` to `m[15]` from 64 bytes
unfoldable pub first_words : List ℕ → List ℕ
first_words (x ∷ y ∷ z ∷ w ∷ buffer) =
    (x * 2 ^ 24 + y * 2 ^ 16 + z * 2 ^ 8 + w) ∷ first_words buffer
first_words buffer = []

-- `m[i]`, which the loop below reads only where it was written
abbrev at : List ℕ → ℕ → ℕ
at m i = elim (get_elem? m i) [ none ↦ 0 | some x ↦ x ]

-- the second loop, from `m[i]` on
unfoldable pub extend : (left i : ℕ) → List ℕ → List ℕ
unfolding sig0 sig1
extend zero i m = m
extend (suc left) i m = extend left (i + 1) (
    m
    ++ ((sig1 (at m (i - 2)) + at m (i - 7) + sig0 (at m (i - 15)) + at m (i - 16)) % 2 ^ 32) ∷ [])

-- one round of the third loop
unfoldable pub round : ℕ → ℕ → Words → Words
unfolding ch maj ep0 ep1
round k_i m_i s =
    let t1 = (s.h + ep1 s.e + ch s.e s.f s.g + k_i + m_i) % 2 ^ 32 in
    let t2 = (ep0 s.a + maj s.a s.b s.c) % 2 ^ 32 in
    record {
      a = (t1 + t2) % 2 ^ 32;
      b = s.a;
      c = s.b;
      d = s.c;
      e = (s.d + t1) % 2 ^ 32;
      f = s.e;
      g = s.f;
      h = s.g;
    }

unfoldable pub rounds : List ℕ → List ℕ → Words → Words
rounds [] m s = s
rounds (k_i ∷ ks) [] s = s
rounds (k_i ∷ ks) (m_i ∷ m) s = rounds ks m (round k_i m_i s)

-- `_sha256_transform`: the state after a block of 64 bytes
unfoldable pub transform : Words → List ℕ → Words
unfolding first_words extend round rounds
transform s buffer =
    let t = rounds k (extend 48 16 (first_words buffer)) s in
    record {
      a = (s.a + t.a) % 2 ^ 32;
      b = (s.b + t.b) % 2 ^ 32;
      c = (s.c + t.c) % 2 ^ 32;
      d = (s.d + t.d) % 2 ^ 32;
      e = (s.e + t.e) % 2 ^ 32;
      f = (s.f + t.f) % 2 ^ 32;
      g = (s.g + t.g) % 2 ^ 32;
      h = (s.h + t.h) % 2 ^ 32;
    }
