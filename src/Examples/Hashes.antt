-- ===== src/Examples/Hashes.antt =====
-- A table of two files, which are hashed.
use fapolicyd_analyzer.Base.{
  List, str_eq, ◌≡◌, refl, arith, true, none, some, [], ◌∷◌, CString, codes, length, replicate, ok,
}
use fapolicyd_analyzer.UtArray.{list_array, list_array-IsUtArray}
use fapolicyd_analyzer.Table.{Table}
use fapolicyd_analyzer.Table.Columns.{index_of}
use fapolicyd_analyzer.Table.Rows.{contents, Holds}
use fapolicyd_analyzer.Rpm.{System, TableAlloc, hash_names}
use fapolicyd_analyzer.Rpm.Files.{package_hash_files}
use fapolicyd_analyzer.Rpm.Rounds.{Listed}
use fapolicyd_analyzer.Rpm.Hashes.{HasRows, put_all, package_hash_files-HasRows}

abbrev disk : System
disk = record {
  popen = λ _. none;
  access = λ _. true;
  stat = λ _. some (true, 1);
  reads = λ _. some ((b'x' ∷ []) ∷ []);
}

abbrev plenty : TableAlloc
plenty = record { table = true; names = true; columns = true; name = λ _. true }

abbrev shell : Listed
shell = record { nvra = codes "bash-5.2"; path = codes "/bin/sh" }

abbrev list : Listed
list = record { nvra = codes "ls-1"; path = codes "/bin/ls" }

abbrev file_table : Table (list_array CString)
file_table = record {
  column_count = 2;
  column_names = codes "NVRA" ∷ codes "Path" ∷ [];
  columns = (shell.nvra ∷ list.nvra ∷ []) ∷ (shell.path ∷ list.path ∷ []) ∷ [];
}

file_table-Holds :
    Holds
      (list_array-IsUtArray CString)
      file_table
      (codes "NVRA" ∷ codes "Path" ∷ [])
      ((shell.nvra ∷ list.nvra ∷ []) ∷ (shell.path ∷ list.path ∷ []) ∷ [])
      2
unfolding list_array-IsUtArray contents
file_table-Holds = record {
  count = refl;
  named = refl;
  values = refl;
  width = refl;
  rows = (refl, (refl, tt));
  some_column = omega arith;
  fits = omega arith;
}

package_hash_files-HasRows_example :
    (rows : List (List CString)) × (t : Table (list_array CString)) × HasRows disk
      (shell ∷ list ∷ [])
      rows
    × (package_hash_files
          (list_array CString)
          disk
          plenty
          (λ _. true)
          (λ i. replicate 64 i)
          none
          file_table
        ≡ ok t)
    × Holds
        (list_array-IsUtArray CString)
        t
        hash_names
        (put_all (replicate 4 []) rows)
        (length rows)
unfolding index_of str_eq
package_hash_files-HasRows_example =
    package_hash_files-HasRows (list_array-IsUtArray CString) disk
      (λ path used. ((b'x' ∷ []) ∷ [], refl)) (λ _. true) (λ i. refl) (λ i. replicate 64 i)
      (λ i. refl) plenty (shell ∷ list ∷ []) file_table-Holds 0 1 refl refl refl refl
      (record { table = refl; names = refl; columns = refl; name = λ _. refl }) (omega arith)
