-- ===== src/Rpm/Listing.antt =====
-- `package_get_rpm_files_info` on the output of the commands.
use mathlib.Core.List.{append_assoc}
use fapolicyd_analyzer.Base.{
  ℕ, suc, ◌+◌, ◌^◌, ◌<◌, ◌≡◌, refl, sym, ap, ◌∙◌, true, false, Option, none, some, List, [], ◌∷◌,
  ◌++◌, map, CString, codes, length, length-append, get_elem?, get_elem?-middle, replicate, ok,
  success, arith,
}
use fapolicyd_analyzer.UtArray.{UtArray, IsUtArray}
use fapolicyd_analyzer.Table.{Table, find_column_number, get_value}
use fapolicyd_analyzer.Table.Rows.{
  Holds, AllRows-get_elem?, put_row, append_row-Holds, get_row_count-Holds, get_value-get_elem?,
}
use fapolicyd_analyzer.Table.Columns.{index_of, found, find_column_number-index_of}
use fapolicyd_analyzer.Rpm.{chomp, split_fields, file_names, TableAlloc, System}
use fapolicyd_analyzer.Rpm.Fields.{all_lack, joined_by, split_fields-joined_by, chomp-append}
use fapolicyd_analyzer.Rpm.Info.{IsEnough, new_table-Holds}
use fapolicyd_analyzer.Rpm.Files.{
  dump_record, contains_no_file, dump_loop, files_loop, column_or_abort, package_get_rpm_files_info,
}

-- A file of a package: the fields of its line before the last space, and the last field.
pub record File : Type 0 where
  pub fields : List CString
  pub last : CString

abbrev pub file_line : File → CString
file_line f = joined_by b' ' f.fields f.last ++ b'\n' ∷ []

-- There are ten fields and the last, none of the ten with a space, and the line does not say that
-- there is no file.
pub record IsFile (f : File) : Type 0 where
  pub count : length f.fields ≡ 10
  pub clean : all_lack b' ' f.fields ≡ true
  pub present : contains_no_file (file_line f) ≡ false

abbrev pub AllFiles : List File → Type 0
AllFiles [] = Unit
AllFiles (f ∷ files) = IsFile f × AllFiles files

abbrev pub file_row : CString → File → List CString
file_row nvra f = nvra ∷ (f.fields ++ f.last ∷ [])

-- Specification: the columns after the files of a package, and after those of all packages.
unfoldable pub put_files : CString → List (List CString) → List File → List (List CString)
put_files nvra columns [] = columns
put_files nvra columns (f ∷ files) = put_files nvra (put_row columns (file_row nvra f)) files

unfoldable pub put_listing :
    (CString → List File) → List (List CString) → List CString → List (List CString)
put_listing files columns [] = columns
put_listing files columns (nvra ∷ nvras) =
    put_listing files (put_files nvra columns (files nvra)) nvras

unfoldable pub number_of_files : (CString → List File) → List CString → ℕ
number_of_files files [] = 0
number_of_files files (nvra ∷ nvras) = length (files nvra) + number_of_files files nvras

module _ {u : UtArray CString} (ua : IsUtArray u) where
  dump_record-file_row :
      (nvra : CString) (f : File) → IsFile f → dump_record nvra (file_line f) ≡ ok (file_row nvra f)
  unfolding dump_record
  dump_record-file_row nvra f good =
      let cut : split_fields b' ' 10 (chomp (file_line f)) ≡ ok (f.fields ++ f.last ∷ []) =
        ap (split_fields b' ' 10) (chomp-append (joined_by b' ' f.fields f.last))
        ∙ ap (λ (k : ℕ). split_fields b' ' k (joined_by b' ' f.fields f.last)) (sym good.count)
        ∙ split_fields-joined_by b' ' f.fields f.last good.clean in
      rw cut refl

  dump_loop-put_files :
      (nvra : CString) (files : List File) {t : Table u} {columns : List (List CString)} (n : ℕ)
      → Holds ua t file_names columns n
      → AllFiles files
      → n + length files < 2 ^ 31
      → (t' : Table u) × (dump_loop u nvra (map file_line files) t ≡ ok t')
        × Holds ua t' file_names (put_files nvra columns files) (n + length files)
  unfolding dump_loop put_files
  dump_loop-put_files nvra [] {t} {columns} n holds all fits =
      let same : n + 0 ≡ n = omega arith in (t, refl, rw same holds)
  dump_loop-put_files nvra (f ∷ files) n holds (good, all) fits =
      let cut = dump_record-file_row nvra f good in
      let (t₁, run, holds₁) =
        append_row-Holds ua holds (file_row nvra f)
          (omega (arith, good.count, length-append f.fields (f.last ∷ []))) (omega arith) in
      let (t₂, run', holds₂) = dump_loop-put_files nvra files (suc n) holds₁ all (omega arith) in
      let same : n + suc (length files) ≡ suc n + length files = omega arith in
      (t₂, ground (arith, good.present), rw same holds₂)

  module _ (system : System) (files : CString → List File)
      (commands : (nvra : CString)
        → system.popen (codes "/usr/bin/rpm -ql --dump " ++ nvra)
          ≡ some (map file_line (files nvra)))
      (all : (nvra : CString) → AllFiles (files nvra)) where
    files_loop-put_listing :
        (rpm_table : Table u) (c row_count : ℕ) (column : List CString)
        → ((i : ℕ) (nvra : CString)
            → get_elem? column i ≡ some nvra
            → get_value u rpm_table c i ≡ ok nvra)
        → (rest done : List CString) (left i : ℕ) {t : Table u} {columns : List (List CString)}
          (n : ℕ)
        → column ≡ done ++ rest
        → i ≡ length done
        → left ≡ length rest
        → Holds ua t file_names columns n
        → n + number_of_files files rest < 2 ^ 31
        → (t' : Table u) × (files_loop u system none rpm_table c row_count left i t ≡ ok t')
          × Holds ua t' file_names (put_listing files columns rest) (n + number_of_files files rest)
    unfolding files_loop put_listing number_of_files
    files_loop-put_listing rpm_table c row_count column read [] done left i {t} n e ei el holds
          fits =
        let same : n + 0 ≡ n = omega arith in (t, rw el refl, rw same holds)
    files_loop-put_listing rpm_table c row_count column read (nvra ∷ rest) done left i n e ei el
          holds fits =
        let here : get_value u rpm_table c i ≡ ok nvra =
          read i nvra (rw (e, ei) (get_elem?-middle done rest nvra)) in
        let (t₁, run, holds₁) =
          dump_loop-put_files nvra (files nvra) n holds (all nvra) (omega arith) in
        let (t₂, run', holds₂) =
          files_loop-put_listing rpm_table c row_count column read rest (done ++ nvra ∷ [])
            (length rest) (i + 1) (n + length (files nvra))
            (e ∙ sym (append_assoc done (nvra ∷ []) rest))
            (omega (arith, length-append done (nvra ∷ []))) refl holds₁ (omega arith) in
        let same : n + (length (files nvra) + number_of_files files rest)
            ≡ n + length (files nvra) + number_of_files files rest =
          omega arith in
        (t₂, rw el (ground (arith, commands nvra)), rw same holds₂)

    -- Let the table of packages hold a column NVRA (Holds), let the rpm command give for any
    -- package a line for each of its files, whose eleven fields have a space between them and a
    -- newline behind, where only the last may contain a space and the line does not begin with a
    -- parenthesis; let all allocations succeed and there be fewer than 2^31 files in all. Then
    -- `package_get_rpm_files_info` without a callback returns a table, without a fault, that holds
    -- under its 12 column names a row for each file of each package, in order, with the package
    -- before the fields.
    pub package_get_rpm_files_info-Holds :
        (alloc : TableAlloc) {rpm_table : Table u} {names : List CString}
        {columns : List (List CString)} {n : ℕ}
        → Holds ua rpm_table names columns n
        → (c : ℕ) (column : List CString) → index_of (codes "NVRA") names ≡ some c
        → get_elem? columns c ≡ some column
        → IsEnough alloc
        → number_of_files files column < 2 ^ 31
        → (t : Table u) × (package_get_rpm_files_info u system alloc none rpm_table ≡ ok t)
          × Holds ua t file_names
              (put_listing files (replicate 12 []) column)
              (number_of_files files column)
    unfolding package_get_rpm_files_info column_or_abort
    package_get_rpm_files_info-Holds alloc {rpm_table} {names} {columns} {n} holds c column place at
          enough few =
        let tall : length column ≡ n = AllRows-get_elem? ua n columns c column holds.rows at in
        let rows = get_row_count-Holds ua holds in
        let (t, run, holds') =
          new_table-Holds ua alloc file_names (omega arith) (omega arith) enough in
        let same : 0 + c ≡ c = omega arith in
        let where_found : find_column_number u rpm_table (codes "NVRA") ≡ ok (success, some c) =
          find_column_number-index_of ua holds (codes "NVRA")
          ∙ ap (λ (r : Option ℕ). ok (found 0 r)) place
          ∙ ap (λ (k : ℕ). ok (success, some k)) same in
        let total : 0 + number_of_files files column ≡ number_of_files files column = omega arith in
        let (t', run', holds'') =
          files_loop-put_listing rpm_table c n column
            (λ i nvra e. get_value-get_elem? ua holds c i column nvra at e) column [] n 0 0 refl
            refl (sym tall) holds' (omega arith) in
        (t', rw (rows, run, where_found) run', rw total at holds'')
