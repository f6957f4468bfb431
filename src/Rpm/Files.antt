-- ===== src/Rpm/Files.antt =====
-- `package_get_rpm_files_info` and `package_hash_files` of rpm.c.
use fapolicyd_analyzer.Base.{
  ℕ, zero, suc, ◌+◌, Bool, true, false, ◌&&◌, not, ◌==◌, ltb, if◌then◌else◌, Option, none, some,
  List, [], ◌∷◌, ◌++◌, CString, codes, decimal, Outcome, ok, aborted, fault, ◌>>=◌, success,
}
use fapolicyd_analyzer.UtArray.{UtArray}
use fapolicyd_analyzer.Table.{Table, append_row, find_column_number, get_row_count, get_value}
use fapolicyd_analyzer.Sha256
use fapolicyd_analyzer.Sha256.{sha256_file}
use fapolicyd_analyzer.Rpm.{
  split_fields, chomp, TableAlloc, System, new_table, file_names, hash_names,
}

-- the fields of a line of `rpm -ql --dump`, behind the name of the package
unfoldable pub dump_record : CString → CString → Outcome (List CString)
dump_record nvra line = do fields ← split_fields b' ' 10 (chomp line); ok (nvra ∷ fields)

-- `line[0] == '('`
abbrev pub contains_no_file : CString → Bool
contains_no_file [] = false
contains_no_file (c ∷ line) = c == b'('

module _ (u : UtArray CString) where
  -- the loop over the lines for one package
  unfoldable pub dump_loop : CString → List CString → Table u → Outcome (Table u)
  dump_loop nvra [] t = ok t
  dump_loop nvra (line ∷ lines) t = elim (contains_no_file line) [
    | true ↦ dump_loop nvra lines t
    | false ↦ do
      fields ← dump_record nvra line
      (code, t') ← append_row u t fields
      dump_loop nvra lines t'
  ]

  -- The progress callback, if there is one: whether it returns something other than 0 for the
  -- number of rows and the number of those that are done.
  abbrev pub Progress : Type 0
  Progress = Option (ℕ → ℕ → Bool)

  abbrev stops : Progress → ℕ → ℕ → Bool
  stops none row_count rows_done = false
  stops (some callback) row_count rows_done = callback row_count rows_done

  -- the loop of `package_get_rpm_files_info` over the packages, from row `i`
  unfoldable pub files_loop :
      System
      → Progress
      → Table u
      → (nvra_col_num row_count : ℕ) → (left i : ℕ) → Table u
      → Outcome (Table u)
  files_loop system progress rpm_table nvra_col_num row_count zero i t = ok t
  files_loop system progress rpm_table nvra_col_num row_count (suc left) i t = do
    nvra ← get_value u rpm_table nvra_col_num i
    elim (system.popen (codes "/usr/bin/rpm -ql --dump " ++ nvra)) [
      | none ↦ aborted
      | some lines ↦ do
        t' ← dump_loop nvra lines t
        elim (stops progress row_count (i + 1)) [
          | true ↦ ok t'
          | false ↦ files_loop system progress rpm_table nvra_col_num row_count left (i + 1) t'
        ]
    ]

  -- `if (OK != table_find_column_number(...)) abort();`
  unfoldable pub column_or_abort : Table u → CString → Outcome ℕ
  column_or_abort t name = do
    (code, number) ← find_column_number u t name
    elim code [ success ↦ elim number [ none ↦ fault | some i ↦ ok i ] | other_code ↦ aborted ]

  -- `package_get_rpm_files_info`, where the `calloc` of each command succeeds
  unfoldable pub package_get_rpm_files_info :
      System → TableAlloc → Progress → Table u → Outcome (Table u)
  package_get_rpm_files_info system alloc progress rpm_table = do
    row_count ← get_row_count u rpm_table
    t ← new_table u alloc file_names
    nvra_col_num ← column_or_abort rpm_table (codes "NVRA")
    files_loop system progress rpm_table nvra_col_num row_count row_count 0 t

  -- The digest of a file for `package_hash_files`, or `none` if the file is passed over; `memory`
  -- is what `malloc` gives to `sha256_create`.
  unfoldable pub hash_of :
      System → (allocated : Bool) → (memory : List ℕ) → CString → Outcome (Option CString)
  hash_of system allocated memory path = elim (system.stat path) [
    | none ↦ ok none
    | some (is_regular, size) ↦
        if is_regular && ltb 0 size
        then (do
          (code, hash) ← sha256_file (Sha256.create allocated memory) 80 (system.reads path)
          elim code [ success ↦ ok (some hash) | other_code ↦ ok none ])
        else ok none
  ]

  -- `%lld` of the size, in a buffer with room for it
  abbrev size_text : System → CString → CString
  size_text system path = elim (system.stat path) [
    | none ↦ []
    | some (is_regular, size) ↦ decimal size
  ]

  abbrev is_none : Option (Bool × ℕ) → Bool
  is_none none = true
  is_none (some status) = false

  -- the row of a file, if it was hashed
  unfoldable pub hashed_row : Table u → List CString → Option CString → Outcome (Table u)
  hashed_row t row none = ok t
  hashed_row t row (some hash) = do (code, t') ← append_row u t (row ++ hash ∷ []); ok t'

  -- the loop of `package_hash_files` over the files, from row `i`, with what `malloc` gives for the
  -- context of each file; a file that cannot be read does not count as progress
  unfoldable pub hash_loop :
      System
      → (ℕ → Bool)
      → (ℕ → List ℕ)
      → Progress
      → Table u
      → (nvra_col_num path_col_num row_count : ℕ) → (left i : ℕ) → Table u
      → Outcome (Table u)
  hash_loop system allocated memory progress files nvra_col_num path_col_num row_count zero i t =
      ok t
  hash_loop system allocated memory progress files nvra_col_num path_col_num row_count (suc left) i
        t =
      do
        nvra ← get_value u files nvra_col_num i
        path ← get_value u files path_col_num i
        elim (system.access path && not (is_none (system.stat path))) [
          | false ↦
              hash_loop system allocated memory progress files nvra_col_num path_col_num row_count
                left (i + 1) t
          | true ↦ do
            hash ← hash_of system (allocated i) (memory i) path
            t' ← hashed_row t (nvra ∷ path ∷ size_text system path ∷ []) hash
            elim (stops progress row_count (i + 1)) [
              | true ↦ ok t'
              | false ↦
                  hash_loop system allocated memory progress files nvra_col_num path_col_num
                    row_count left (i + 1) t'
            ]
        ]

  -- `package_hash_files`
  unfoldable pub package_hash_files :
      System → TableAlloc → (ℕ → Bool) → (ℕ → List ℕ) → Progress → Table u → Outcome (Table u)
  package_hash_files system alloc allocated memory progress files = do
    row_count ← get_row_count u files
    path_col_num ← column_or_abort files (codes "Path")
    nvra_col_num ← column_or_abort files (codes "NVRA")
    t ← new_table u alloc hash_names
    hash_loop system allocated memory progress files nvra_col_num path_col_num row_count row_count 0
        t
