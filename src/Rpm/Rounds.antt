-- ===== src/Rpm/Rounds.antt =====
-- One round of the loop of `package_hash_files`.
use fapolicyd_analyzer.Base.{
  ℕ, suc, ◌+◌, ◌≡◌, refl, Bool, true, false, ◌&&◌, ltb, Option, none, some, List, [], ◌∷◌, CString,
  decimal, length, ok, success, arith,
}
use fapolicyd_analyzer.UtArray.{UtArray}
use fapolicyd_analyzer.Table.{Table, append_row, get_value}
use fapolicyd_analyzer.Sha256
use fapolicyd_analyzer.Sha256.{hex, sha256_file}
use fapolicyd_analyzer.Sha256.Blocks.{joined, IsDigest}
use fapolicyd_analyzer.Sha256.Digest.{sha256_file-IsDigest}
use fapolicyd_analyzer.Rpm.{System}
use fapolicyd_analyzer.Rpm.Files.{hash_of, hashed_row, hash_loop}

-- A file of the table: its package and its path.
pub record Listed : Type 0 where
  pub nvra : CString
  pub path : CString

abbrev counts : Option (Bool × ℕ) → Bool
counts none = false
counts (some (is_regular, size)) = is_regular && ltb 0 size

-- Specification: a file is hashed if it can be read, is a regular one and is not empty.
abbrev pub is_hashed : System → CString → Bool
is_hashed system path = system.access path && counts (system.stat path)

module _ (u : UtArray CString) (system : System) (allocated : ℕ → Bool)
    (all : (i : ℕ) → allocated i ≡ true) (memory : ℕ → List ℕ)
    (width : (i : ℕ) → length (memory i) ≡ 64) where
  -- A file that is not hashed leaves the table.
  pub round-passed_over :
      (files : Table u) (c d row_count left i : ℕ) (t : Table u) (f : Listed)
      → get_value u files c i ≡ ok f.nvra
      → get_value u files d i ≡ ok f.path
      → is_hashed system f.path ≡ false
      → hash_loop u system allocated memory none files c d row_count (suc left) i t
        ≡ hash_loop u system allocated memory none files c d row_count left (i + 1) t
  unfolding hash_loop hash_of hashed_row
  round-passed_over files c d row_count left i t f at_c at_d unused =
      go (system.access f.path) refl (system.stat f.path) refl
    where
      go :
          (a : Bool)
          → system.access f.path ≡ a
          → (s : Option (Bool × ℕ)) → system.stat f.path ≡ s
          → hash_loop u system allocated memory none files c d row_count (suc left) i t
            ≡ hash_loop u system allocated memory none files c d row_count left (i + 1) t
      go false ea s es = ground arith
      go true ea none es = ground arith
      go true ea (some (is_regular, size)) es =
          let out : (is_regular && ltb 0 size) ≡ false = rw (ea, es) at unused in ground arith

  -- The status of a file that is hashed.
  pub status :
      (path : CString)
      → is_hashed system path ≡ true
      → (size : ℕ) × (system.access path ≡ true)
        × (system.stat path ≡ some (true, size))
        × (ltb 0 size ≡ true)
  status path used = go (system.access path) refl (system.stat path) refl
    where
      go :
          (a : Bool)
          → system.access path ≡ a
          → (s : Option (Bool × ℕ)) → system.stat path ≡ s
          → (size : ℕ) × (system.access path ≡ true)
            × (system.stat path ≡ some (true, size))
            × (ltb 0 size ≡ true)
      go false ea s es = absurd (ground arith)
      go true ea none es = absurd (ground arith)
      go true ea (some (false, size)) es = absurd (ground arith)
      go true ea (some (true, size)) es = (size, ea, es, ground arith)

  -- The digest of a file that is hashed.
  pub hash_of-IsDigest :
      (path : CString) (size : ℕ) (reads : List (List ℕ)) (i : ℕ)
      → system.stat path ≡ some (true, size)
      → ltb 0 size ≡ true
      → system.reads path ≡ some reads
      → (digest : List ℕ) × (hash_of u system (allocated i) (memory i) path
          ≡ ok (some (hex digest)))
        × IsDigest (joined reads) digest
  unfolding hash_of Sha256.create
  hash_of-IsDigest path size reads i es positive opened =
      let (digest, run, is_digest) = sha256_file-IsDigest (memory i) _ reads 80 refl (width i) in
      (digest, rw (hash_of, es, positive, all i, opened, run) refl, is_digest)

  -- A file that is hashed has its row.
  pub round-hashed :
      (files : Table u) (c d row_count left i : ℕ) (t : Table u) {t' : Table u} (f : Listed)
      (size : ℕ) (hash : CString)
      → get_value u files c i ≡ ok f.nvra
      → get_value u files d i ≡ ok f.path
      → system.access f.path ≡ true
      → system.stat f.path ≡ some (true, size)
      → hash_of u system (allocated i) (memory i) f.path ≡ ok (some hash)
      → append_row u t (f.nvra ∷ f.path ∷ decimal size ∷ hash ∷ []) ≡ ok (success, t')
      → hash_loop u system allocated memory none files c d row_count (suc left) i t
        ≡ hash_loop u system allocated memory none files c d row_count left (i + 1) t'
  unfolding hash_loop hashed_row
  round-hashed files c d row_count left i t f size hash at_c at_d ea es digest appended =
      ground arith
