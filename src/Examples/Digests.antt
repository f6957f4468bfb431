-- ===== src/Examples/Digests.antt =====
-- Digests of short messages.
use fapolicyd_analyzer.Base.{
  ℕ, ◌≡◌, refl, true, arith, CString, length, some, List, [], ◌∷◌, codes, replicate, ok, success,
}
use fapolicyd_analyzer.Sha256.Blocks.{joined, IsDigest}
use fapolicyd_analyzer.Sha256.Digest.{sha256_file-IsDigest}
use fapolicyd_analyzer.Sha256.Digits.{all_hex_digits, sha256_file-digits}
use fapolicyd_analyzer.Sha256.{
  Context, first_state, sha256_file, create, update_all, update, update_byte, put, write, pad,
  final, big_endian, output, to_hex, hex,
}
use fapolicyd_analyzer.Sha256.Transform.{transform}

abc :
    sha256_file (create true (replicate 64 7)) 65 (some (codes "abc" ∷ []))
    ≡ ok (success, codes "ba7816bf8f01cfea414140de5dae2223b00361a396177a9cb410ff61f20015ad")
unfolding sha256_file create update_all update update_byte put write pad final transform big_endian
    output to_hex hex
abc = refl

abbrev fresh : Context
fresh = record { buffer = replicate 64 7; datalen = 0; bitlen = 0; state = first_state }

-- the file comes in two reads
sha256_file-IsDigest_example :
    (digest : List ℕ) × (sha256_file (some fresh) 65 (some (codes "ab" ∷ codes "c" ∷ []))
      ≡ ok (success, hex digest))
    × IsDigest (joined (codes "ab" ∷ codes "c" ∷ [])) digest
unfolding create
sha256_file-IsDigest_example =
    sha256_file-IsDigest (replicate 64 7) fresh (codes "ab" ∷ codes "c" ∷ []) 65 refl refl

sha256_file-digits_example :
    (text : CString) × (sha256_file (some fresh) 80 (some (codes "abc" ∷ [])) ≡ ok (success, text))
    × (length text ≡ 64)
    × (all_hex_digits text ≡ true)
unfolding create
sha256_file-digits_example =
    sha256_file-digits (replicate 64 7) fresh (codes "abc" ∷ []) 80 refl refl (omega arith)
