-- ===== src/Sha256/Digest.antt =====
-- `sha256_file` against the hash of a whole message, block by block.
use mathlib.Core.Path.{subst}
use fapolicyd_analyzer.Base.{
  ℕ, ◌*◌, ◌≡◌, refl, ap, ◌∙◌, true, ltb, if◌then◌else◌, some, List, [], length, ok, success,
  range_error, arith,
}
use fapolicyd_analyzer.Sha256.{
  Context, first_state, create, big_endian, output, hex, to_hex, sha256_file,
}
use fapolicyd_analyzer.Sha256.Transform.{Words}
use fapolicyd_analyzer.Sha256.Blocks.{joined, IsDigest}
use fapolicyd_analyzer.Sha256.Streaming.{TookAll, start-TookAll, update_all-TookAll}
use fapolicyd_analyzer.Sha256.Final.{final-IsDigest}

pub length-output : (s : Words) → length (output s) ≡ 32
unfolding output big_endian
length-output s = refl

-- From a context that `sha256_create` returned, on memory with any 64 bytes in the place of `data`,
-- `sha256_file` on a file whose bytes come in any pieces returns without a fault: OK and the digits
-- of a digest if the buffer has more than 64 bytes, RANGE_ERROR and no digits otherwise. The digest
-- is the state after the blocks of the padded message, taken in turn from the first state
-- (IsDigest): there are blocks of 64 bytes that joined are the message, the byte 0x80, the least
-- number of zeros that fills a block, and its length in bits modulo 2^64 in eight bytes.
pub sha256_file-IsDigest :
    (memory : List ℕ) (ctx : Context) (reads : List (List ℕ)) (hash_buf_len : ℕ)
    → create true memory ≡ some ctx
    → length memory ≡ 64
    → (digest : List ℕ) × (sha256_file (some ctx) hash_buf_len (some reads)
        ≡ ok (if ltb 64 hash_buf_len then (success, hex digest) else (range_error, [])))
      × IsDigest (joined reads) digest
unfolding create sha256_file to_hex
sha256_file-IsDigest memory ctx reads hash_buf_len made width =
    let shape : record { buffer = memory; datalen = 0; bitlen = 0; state = first_state } ≡ ctx =
      ground (arith, made) in
    let (ctx', run, all) =
      update_all-TookAll reads [] (subst (λ c. TookAll c []) shape (start-TookAll memory width)) in
    let (digest, run', is_digest) = final-IsDigest all.took in
    let bytes : length digest ≡ 32 = ap length is_digest.digests ∙ length-output _ in
    let needed : length digest * 2 ≡ 64 = omega (arith, bytes) in
    (
      digest,
      rw (run, run', to_hex, needed) refl,
      subst (λ m. IsDigest m digest) all.whole is_digest,
    )
