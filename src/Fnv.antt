-- ===== src/Fnv.antt =====
-- `_hash` of util/hash_set.c and util/hash_table.c.
use Prim.Native.Nat.{bit_xor}
use fapolicyd_analyzer.Base.{ℕ, ◌*◌, ◌%◌, ◌^◌, ◌<◌, ◌≡◌, refl, [], ◌∷◌, ◌++◌, CString, codes, arith}

-- The loop over the bytes.
unfoldable pub hash_from : ℕ → CString → ℕ
hash_from h [] = h
hash_from h (c ∷ key) = hash_from (bit_xor h c * 1099511628211 % 2 ^ 64) key

unfoldable pub hash : CString → ℕ
unfolding hash_from
hash key = hash_from 14695981039346656073 key

-- The hash fits `uint64_t`.
hash_from-lt : (h : ℕ) (key : CString) → h < 2 ^ 64 → hash_from h key < 2 ^ 64
unfolding hash_from
hash_from-lt h [] small = small
hash_from-lt h (c ∷ key) small =
    hash_from-lt (bit_xor h c * 1099511628211 % 2 ^ 64) key (omega arith)

pub hash-lt : (key : CString) → hash key < 2 ^ 64
unfolding hash
hash-lt key = hash_from-lt 14695981039346656073 key (omega arith)

-- The loop can be cut in two.
pub hash_from-append : (h : ℕ) (a b : CString) → hash_from h (a ++ b) ≡ hash_from (hash_from h a) b
unfolding hash_from
hash_from-append h [] b = refl
hash_from-append h (c ∷ a) b = hash_from-append (bit_xor h c * 1099511628211 % 2 ^ 64) a b

-- With the published offset basis, ... 037, the loop gives the published value of FNV-1a.
published_basis : hash_from 14695981039346656037 (codes "foobar") ≡ 0x85944171f73967e8
unfolding hash_from
published_basis = refl
