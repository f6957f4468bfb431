-- ===== src/Sha256/Digits.antt =====
-- The text of a digest.
use fapolicyd_analyzer.Base.{
  ℕ, suc, ◌*◌, ◌<◌, ◌≡◌, refl, ap, ◌∙◌, Bool, true, ◌&&◌, ◌||◌, ltb, not, zero, ◌++◌, some, List,
  [], ◌∷◌, CString, length, ok, success, arith,
}
use fapolicyd_analyzer.Sha256.{Context, create, big_endian, output, hex, sha256_file}
use fapolicyd_analyzer.Sha256.Transform.{Words}
use fapolicyd_analyzer.Sha256.Digest.{length-output, sha256_file-IsDigest}

-- from 0 to 9 or from a to f
unfoldable pub is_hex_digit : ℕ → Bool
is_hex_digit c = (not (ltb c b'0') && not (ltb b'9' c)) || (not (ltb c b'a') && not (ltb b'f' c))

unfoldable pub all_hex_digits : CString → Bool
all_hex_digits [] = true
all_hex_digits (c ∷ s) = is_hex_digit c && all_hex_digits s

-- The numbers of the list are bytes.
abbrev AreBytes : List ℕ → Type 0
AreBytes [] = Unit
AreBytes (byte ∷ bytes) = (byte < 256) × AreBytes bytes

AreBytes-append : (xs ys : List ℕ) → AreBytes xs → AreBytes ys → AreBytes (xs ++ ys)
AreBytes-append [] ys are are' = are'
AreBytes-append (x ∷ xs) ys (small, are) are' = (small, AreBytes-append xs ys are are')

big_endian-AreBytes : (n v : ℕ) → AreBytes (big_endian n v)
unfolding big_endian
big_endian-AreBytes zero v = tt
big_endian-AreBytes (suc n) v = (omega arith, big_endian-AreBytes n v)

words-AreBytes : (v : ℕ) (rest : List ℕ) → AreBytes rest → AreBytes (big_endian 4 v ++ rest)
words-AreBytes v rest are = AreBytes-append (big_endian 4 v) rest (big_endian-AreBytes 4 v) are

output-AreBytes : (s : Words) → AreBytes (output s)
unfolding output
output-AreBytes s =
    let h = big_endian 4 s.h in
    let g = big_endian 4 s.g ++ h in
    let f = big_endian 4 s.f ++ g in
    let e = big_endian 4 s.e ++ f in
    let d = big_endian 4 s.d ++ e in
    let c = big_endian 4 s.c ++ d in
    let b = big_endian 4 s.b ++ c in
    words-AreBytes s.a b (
      words-AreBytes s.b c (
        words-AreBytes s.c d (
          words-AreBytes s.d e (
            words-AreBytes s.e f
              (words-AreBytes s.f g (words-AreBytes s.g h (big_endian-AreBytes 4 s.h)))))))

hex-digits :
    (bytes : List ℕ)
    → AreBytes bytes
    → (length (hex bytes) ≡ 2 * length bytes) × (all_hex_digits (hex bytes) ≡ true)
unfolding hex all_hex_digits is_hex_digit
hex-digits [] are = (refl, refl)
hex-digits (byte ∷ bytes) (small, are) =
    let (width, digits) = hex-digits bytes are in (omega (arith, width), ground (arith, digits))

-- From a context that `sha256_create` returned, on memory with any 64 bytes in the place of `data`,
-- `sha256_file` with a buffer of more than 64 bytes, on a file whose bytes come in any pieces,
-- returns OK without a fault and a text of 64 characters, each a digit or a letter from a to f.
pub sha256_file-digits :
    (memory : List ℕ) (ctx : Context) (reads : List (List ℕ)) (hash_buf_len : ℕ)
    → create true memory ≡ some ctx
    → length memory ≡ 64
    → 64 < hash_buf_len
    → (text : CString) × (sha256_file (some ctx) hash_buf_len (some reads) ≡ ok (success, text))
      × (length text ≡ 64)
      × (all_hex_digits text ≡ true)
sha256_file-digits memory ctx reads hash_buf_len made width room =
    let (digest, run, is_digest) = sha256_file-IsDigest memory ctx reads hash_buf_len made width in
    let bytes : length digest ≡ 32 = ap length is_digest.digests ∙ length-output _ in
    let are : AreBytes digest = rw (is_digest.digests) (output-AreBytes _) in
    let (wide, digits) = hex-digits digest are in
    (hex digest, ground (arith, run), omega (arith, wide, bytes), digits)
