-- ===== src/Sha256.antt =====
-- sha256.c: the digest of a file, as hexadecimal digits. A word is a number below 2 ^ 32.
pub mod Transform
pub mod Padding
pub mod Blocks
pub mod Streaming
pub mod Final
pub mod Digest
pub mod Digits
use fapolicyd_analyzer.Base.{
  ℕ, zero, suc, ◌+◌, ◌-◌, ◌*◌, ◌/◌, ◌%◌, ◌^◌, Bool, true, false, ◌==◌, ltb, if◌then◌else◌, Option,
  none, some, List, [], ◌∷◌, ◌++◌, get_elem?, set, length, replicate, CString, Outcome, ok, aborted,
  fault, ◌>>=◌, ErrorCode, success, range_error,
}
use fapolicyd_analyzer.Sha256.Transform.{Words, transform}

-- `sha256_ctx_t`; `buffer` is its `data`
pub record Context : Type 0 where
  pub buffer : List ℕ
  pub datalen : ℕ
  pub bitlen : ℕ
  pub state : Words

abbrev pub first_state : Words
first_state = record {
  a = 0x6a09e667;
  b = 0xbb67ae85;
  c = 0x3c6ef372;
  d = 0xa54ff53a;
  e = 0x510e527f;
  f = 0x9b05688c;
  g = 0x1f83d9ab;
  h = 0x5be0cd19;
}

-- `sha256_create`, on memory with these 64 bytes in the place of `data`
unfoldable pub create : Bool → List ℕ → Option Context
create allocated memory =
    if allocated
    then some (record { buffer = memory; datalen = 0; bitlen = 0; state = first_state })
    else none

-- `data[i] = byte`
unfoldable pub put : List ℕ → ℕ → ℕ → Outcome (List ℕ)
put buffer i byte = if ltb i (length buffer) then ok (set buffer i byte) else fault

-- one byte of `sha256_update`
unfoldable pub update_byte : Context → ℕ → Outcome Context
update_byte ctx byte = do
  buffer ← put ctx.buffer ctx.datalen byte
  let datalen : ℕ = (ctx.datalen + 1) % 2 ^ 32
  elim (datalen == 64) [
    | true ↦ ok (record {
      buffer = buffer;
      datalen = 0;
      bitlen = (ctx.bitlen + 512) % 2 ^ 64;
      state = transform ctx.state buffer;
    })
    | false ↦ ok (record ctx { buffer = buffer; datalen = datalen })
  ]

-- `sha256_update`
unfoldable pub update : Context → List ℕ → Outcome Context
update ctx [] = ok ctx
update ctx (byte ∷ bytes) = do ctx' ← update_byte ctx byte; update ctx' bytes

-- `data[i++] = byte` for these bytes in turn
unfoldable pub write : List ℕ → ℕ → List ℕ → Outcome (List ℕ)
write buffer i [] = ok buffer
write buffer i (byte ∷ bytes) = do buffer' ← put buffer i byte; write buffer' (i + 1) bytes

-- the `n` low bytes of a number, the highest first
unfoldable pub big_endian : ℕ → ℕ → List ℕ
big_endian zero v = []
big_endian (suc n) v = v / 2 ^ (8 * n) % 256 ∷ big_endian n v

-- the first half of `sha256_final`: the data and the state when the length is to be appended
unfoldable pub pad : Context → Outcome (List ℕ × Words)
pad ctx =
    if ltb ctx.datalen 56
    then (do
      buffer ← write ctx.buffer ctx.datalen (0x80 ∷ replicate (55 - ctx.datalen) 0)
      ok (buffer, ctx.state))
    else (do
      buffer ← write ctx.buffer ctx.datalen (0x80 ∷ replicate (63 - ctx.datalen) 0)
      cleared ← write buffer 0 (replicate 56 0)
      ok (cleared, transform ctx.state buffer))

-- the last loop of `sha256_final`
unfoldable pub output : Words → List ℕ
unfolding big_endian
output s =
    big_endian 4 s.a
    ++ big_endian 4 s.b
    ++ big_endian 4 s.c
    ++ big_endian 4 s.d
    ++ big_endian 4 s.e
    ++ big_endian 4 s.f
    ++ big_endian 4 s.g
    ++ big_endian 4 s.h

-- `sha256_final`: the digest
unfoldable pub final : Context → Outcome (List ℕ)
final ctx = do
  (buffer, state) ← pad ctx
  block ← write buffer 56 (big_endian 8 ((ctx.bitlen + ctx.datalen * 8 % 2 ^ 32) % 2 ^ 64))
  ok (output (transform state block))

-- `%02x`
abbrev hex_digit : ℕ → ℕ
hex_digit n = if ltb n 10 then b'0' + n else b'a' + (n - 10)

unfoldable pub hex : List ℕ → CString
hex [] = []
hex (byte ∷ digest) = hex_digit (byte / 16) ∷ hex_digit (byte % 16) ∷ hex digest

-- `to_hex`: the code, and what is written to a buffer of this length
unfoldable pub to_hex : ℕ → List ℕ → ErrorCode × CString
to_hex hash_buf_len digest =
    if ltb (length digest * 2) hash_buf_len then (success, hex digest) else (range_error, [])

unfoldable pub update_all : Context → List (List ℕ) → Outcome Context
update_all ctx [] = ok ctx
update_all ctx (buf ∷ reads) = do ctx' ← update ctx buf; update_all ctx' reads

-- `sha256_file`: what `read` returns in turn, or `none` if the file cannot be opened, which ends
-- the process. A null context is dereferenced.
unfoldable pub sha256_file :
    Option Context → ℕ → Option (List (List ℕ)) → Outcome (ErrorCode × CString)
sha256_file created hash_buf_len none = aborted
sha256_file none hash_buf_len (some reads) = fault
sha256_file (some ctx) hash_buf_len (some reads) = do
  ctx' ← update_all ctx reads
  digest ← final ctx'
  ok (to_hex hash_buf_len digest)
