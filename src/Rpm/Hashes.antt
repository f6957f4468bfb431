-- ===== src/Rpm/Hashes.antt =====
-- `package_hash_files` on the files of a table.
use mathlib.Core.List.{append_assoc}
use fapolicyd_analyzer.Base.{
  ℕ, suc, ◌+◌, ◌^◌, ◌<◌, ◌≡◌, refl, sym, ap, ◌∙◌, Bool, true, false, Option, none, some, List, [],
  ◌∷◌, ◌++◌, map, CString, codes, decimal, length, length-append, length-map, get_elem?-map, inl,
  inr, Bool-cases, get_elem?, get_elem?-middle, replicate, ok, success, arith,
}
use fapolicyd_analyzer.UtArray.{UtArray, IsUtArray}
use fapolicyd_analyzer.Table.{Table, find_column_number, get_value}
use fapolicyd_analyzer.Table.Rows.{
  Holds, AllRows-get_elem?, put_row, append_row-Holds, get_row_count-Holds, get_value-get_elem?,
}
use fapolicyd_analyzer.Table.Columns.{index_of, found, find_column_number-index_of}
use fapolicyd_analyzer.Sha256.{hex}
use fapolicyd_analyzer.Sha256.Blocks.{joined, IsDigest}
use fapolicyd_analyzer.Rpm.{hash_names, TableAlloc, System}
use fapolicyd_analyzer.Rpm.Info.{IsEnough, new_table-Holds}
use fapolicyd_analyzer.Rpm.Files.{hash_loop, column_or_abort, package_hash_files}
use fapolicyd_analyzer.Rpm.Rounds.{
  Listed, is_hashed, round-passed_over, status, hash_of-IsDigest, round-hashed,
}

-- Specification: the rows for these files, in order. A file that is hashed has one, with its size
-- and the digits of the digest of its bytes.
pub data HasRows (system : System) : List Listed → List (List CString) → Type 0 where
  end : HasRows system [] []
  passed_over :
      {f : Listed} {files : List Listed} {rows : List (List CString)}
      → is_hashed system f.path ≡ false
      → HasRows system files rows
      → HasRows system (f ∷ files) rows
  hashed :
      {f : Listed} {files : List Listed} {rows : List (List CString)} {size : ℕ}
      {reads : List (List ℕ)} {digest : List ℕ}
      → is_hashed system f.path ≡ true
      → system.stat f.path ≡ some (true, size)
      → system.reads f.path ≡ some reads
      → IsDigest (joined reads) digest
      → HasRows system files rows
      → HasRows system (f ∷ files) ((f.nvra ∷ f.path ∷ decimal size ∷ hex digest ∷ []) ∷ rows)

-- Specification: the columns after these rows.
unfoldable pub put_all : List (List CString) → List (List CString) → List (List CString)
put_all columns [] = columns
put_all columns (row ∷ rows) = put_all (put_row columns row) rows

-- Every file that is hashed can be opened, and gives its bytes in some pieces.
abbrev pub CanOpen : System → Type 0
CanOpen system =
    (path : CString)
    → is_hashed system path ≡ true
    → (reads : List (List ℕ)) × (system.reads path ≡ some reads)

module _ {u : UtArray CString} (ua : IsUtArray u) (system : System) (can_open : CanOpen system)
    (allocated : ℕ → Bool) (all : (i : ℕ) → allocated i ≡ true) (memory : ℕ → List ℕ)
    (width : (i : ℕ) → length (memory i) ≡ 64) where
  module _ (files : Table u) (c d row_count : ℕ) (listed : List Listed)
      (nvra_at : (i : ℕ) (f : Listed)
        → get_elem? listed i ≡ some f
        → get_value u files c i ≡ ok f.nvra)
      (path_at : (i : ℕ) (f : Listed)
        → get_elem? listed i ≡ some f
        → get_value u files d i ≡ ok f.path) where
    hash_loop-HasRows :
        (rest done : List Listed) (i : ℕ) {t : Table u} {columns : List (List CString)} (n : ℕ)
        → listed ≡ done ++ rest
        → i ≡ length done
        → Holds ua t hash_names columns n
        → n + length rest < 2 ^ 31
        → (rows : List (List CString)) × (t' : Table u) × HasRows system rest rows
          × (hash_loop u system allocated memory none files c d row_count (length rest) i t ≡ ok t')
          × Holds ua t' hash_names (put_all columns rows) (n + length rows)
    unfolding hash_loop put_all
    hash_loop-HasRows [] done i {t} n e ei holds few =
        let same : n + 0 ≡ n = omega arith in ([], t, end, refl, rw same holds)
    hash_loop-HasRows (f ∷ rest) done i {t} {columns} n e ei holds few =
        let here : get_elem? listed i ≡ some f = rw (e, ei) (get_elem?-middle done rest f) in
        let e' : listed ≡ (done ++ f ∷ []) ++ rest = e ∙ sym (append_assoc done (f ∷ []) rest) in
        let ei' : i + 1 ≡ length (done ++ f ∷ []) = omega (arith, length-append done (f ∷ [])) in
        elim (Bool-cases (is_hashed system f.path)) [
          | inr unused ↦
              let (rows, t', has, run, holds') =
                hash_loop-HasRows rest (done ++ f ∷ []) (i + 1) n e' ei' holds (omega arith) in
              (
                rows,
                t',
                passed_over unused has,
                round-passed_over u system allocated all memory width files c d row_count
                      (length rest) i t f (nvra_at i f here) (path_at i f here) unused
                    ∙ run,
                holds',
              )
          | inl used ↦
              let (size, readable, es, positive) =
                status u system allocated all memory width f.path used in
              let (reads, opened) = can_open f.path used in
              let (digest, run_hash, is_digest) =
                hash_of-IsDigest u system allocated all memory width f.path size reads i es positive
                  opened in
              let row = f.nvra ∷ f.path ∷ decimal size ∷ hex digest ∷ [] in
              let (t₁, appended, holds₁) = append_row-Holds ua holds row refl (omega arith) in
              let (rows, t', has, run, holds') =
                hash_loop-HasRows rest (done ++ f ∷ []) (i + 1) (suc n) e' ei' holds₁
                  (omega arith) in
              let same : n + suc (length rows) ≡ suc n + length rows = omega arith in
              (
                row ∷ rows,
                t',
                hashed used es opened is_digest has,
                round-hashed u system allocated all memory width files c d row_count (length rest) i
                      t f size (hex digest) (nvra_at i f here) (path_at i f here) readable es
                      run_hash appended
                    ∙ run,
                rw same holds',
              )
        ]

  column_or_abort-index_of :
      {t : Table u} {names : List CString} {columns : List (List CString)} {n : ℕ}
      → Holds ua t names columns n
      → (name : CString) (c : ℕ) → index_of name names ≡ some c
      → column_or_abort u t name ≡ ok c
  unfolding column_or_abort
  column_or_abort-index_of {t} holds name c place =
      let same : 0 + c ≡ c = omega arith in
      let where_found : find_column_number u t name ≡ ok (success, some c) =
        find_column_number-index_of ua holds name
        ∙ ap (λ (r : Option ℕ). ok (found 0 r)) place
        ∙ ap (λ (k : ℕ). ok (success, some k)) same in
      rw where_found refl

  -- Let a table of fewer than 2^31 rows hold the packages and the paths of some files in its
  -- columns NVRA and Path (Holds), let each file that can be read, is regular and is not empty
  -- (is_hashed) be opened and give its bytes in some pieces, let all allocations succeed and each
  -- context, allocated anew for its file, have any 64 bytes of its own in the place of `data`. Then
  -- `package_hash_files` without a callback returns a table, without a fault, that holds under its
  -- four column names a row for each of these files, in order, and for no other (HasRows): its
  -- package, its path, its size and the digits of the digest of its bytes.
  pub package_hash_files-HasRows :
      (alloc : TableAlloc) {files : Table u} {names : List CString} {columns : List (List CString)}
      {n : ℕ} (listed : List Listed)
      → Holds ua files names columns n
      → (c d : ℕ) → index_of (codes "NVRA") names ≡ some c
      → index_of (codes "Path") names ≡ some d
      → get_elem? columns c ≡ some (map (λ f. f.nvra) listed)
      → get_elem? columns d ≡ some (map (λ f. f.path) listed)
      → IsEnough alloc
      → n < 2 ^ 31
      → (rows : List (List CString)) × (t : Table u) × HasRows system listed rows
        × (package_hash_files u system alloc allocated memory none files ≡ ok t)
        × Holds ua t hash_names (put_all (replicate 4 []) rows) (length rows)
  unfolding package_hash_files
  package_hash_files-HasRows alloc {files} {names} {columns} {n} listed holds c d at_nvra at_path
        column_c column_d enough few =
      let tall : length (map (λ (f : Listed). f.nvra) listed) ≡ n =
        AllRows-get_elem? ua n columns c _ holds.rows column_c in
      let size : length listed ≡ n = sym (length-map (λ (f : Listed). f.nvra) listed) ∙ tall in
      let (t, made, holds') =
        new_table-Holds ua alloc hash_names (omega arith) (omega arith) enough in
      let (rows, t', has, run, holds'') =
        hash_loop-HasRows files c d n listed
          (λ i f e.
            get_value-get_elem? ua holds c i _ f.nvra column_c
              (get_elem?-map (λ (f : Listed). f.nvra) listed i f e))
          (λ i f e.
            get_value-get_elem? ua holds d i _ f.path column_d
              (get_elem?-map (λ (f : Listed). f.path) listed i f e))
          listed [] 0 0 refl refl holds' (omega arith) in
      let counted =
        ap (λ (left : ℕ). hash_loop u system allocated memory none files c d n left 0 t)
          (sym size) in
      let total : 0 + length rows ≡ length rows = omega arith in
      (
        rows,
        t',
        has,
        rw
            (
              get_row_count-Holds ua holds,
              column_or_abort-index_of holds (codes "Path") d at_path,
              column_or_abort-index_of holds (codes "NVRA") c at_nvra,
              made,
            )
            (counted ∙ run),
        rw total at holds'',
      )
