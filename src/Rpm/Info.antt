-- ===== src/Rpm/Info.antt =====
-- `package_get_rpm_info` on the output of the command.
use fapolicyd_analyzer.Base.{
  ℕ, suc, ◌+◌, ◌^◌, ◌<◌, ◌≡◌, refl, sym, ap, ◌∙◌, true, some, List, [], ◌∷◌, ◌++◌, map, CString,
  length, length-append, replicate, ok, ◌>>=◌, success, arith,
}
use fapolicyd_analyzer.UtArray.{UtArray, IsUtArray}
use fapolicyd_analyzer.Table.{Table, construct, initialize}
use fapolicyd_analyzer.Table.Rows.{Holds, put_row, append_row-Holds}
use fapolicyd_analyzer.Table.Columns.{initialize-Holds}
use fapolicyd_analyzer.Rpm.{
  chomp, split_fields, rpm_names, rpm_command, TableAlloc, System, new_table, info_loop,
  package_get_rpm_info,
}
use fapolicyd_analyzer.Rpm.Fields.{all_lack, joined_by, split_fields-joined_by, chomp-append}

-- A package: the fields before the last tab, and the last field.
pub record Package : Type 0 where
  pub fields : List CString
  pub last : CString

-- There are as many fields as the table has columns, and no tab in those before the last.
pub record IsPackage (p : Package) : Type 0 where
  pub count : length p.fields ≡ 13
  pub clean : all_lack b'\t' p.fields ≡ true

abbrev pub AllPackages : List Package → Type 0
AllPackages [] = Unit
AllPackages (p ∷ ps) = IsPackage p × AllPackages ps

-- a line of the output
abbrev pub package_line : Package → CString
package_line p = joined_by b'\t' p.fields p.last ++ b'\n' ∷ []

-- Specification: the columns after these rows.
unfoldable pub put_rows : List (List CString) → List Package → List (List CString)
put_rows columns [] = columns
put_rows columns (p ∷ ps) = put_rows (put_row columns (p.fields ++ p.last ∷ [])) ps

-- Every allocation succeeds.
pub record IsEnough (alloc : TableAlloc) : Type 0 where
  pub table : alloc.table ≡ true
  pub names : alloc.names ≡ true
  pub columns : alloc.columns ≡ true
  pub name : (i : ℕ) → alloc.name i ≡ true

module _ {u : UtArray CString} (ua : IsUtArray u) where
  info_loop-put_rows :
      (ps : List Package) {t : Table u} {columns : List (List CString)} (n : ℕ)
      → Holds ua t rpm_names columns n
      → AllPackages ps
      → n + length ps < 2 ^ 31
      → (t' : Table u) × (info_loop u (map package_line ps) t ≡ ok t')
        × Holds ua t' rpm_names (put_rows columns ps) (n + length ps)
  unfolding info_loop put_rows
  info_loop-put_rows [] {t} {columns} n holds all fits =
      let same : n + 0 ≡ n = omega arith in (t, refl, rw same holds)
  info_loop-put_rows (p ∷ ps) n holds (good, all) fits =
      let row = p.fields ++ p.last ∷ [] in
      let cut : split_fields b'\t' 13 (chomp (package_line p)) ≡ ok row =
        ap (split_fields b'\t' 13) (chomp-append (joined_by b'\t' p.fields p.last))
        ∙ ap (λ (k : ℕ). split_fields b'\t' k (joined_by b'\t' p.fields p.last)) (sym good.count)
        ∙ split_fields-joined_by b'\t' p.fields p.last good.clean in
      let (t₁, run, holds₁) =
        append_row-Holds ua holds row
          (omega (arith, good.count, length-append p.fields (p.last ∷ []))) (omega arith) in
      let (t₂, run', holds₂) = info_loop-put_rows ps (suc n) holds₁ all (omega arith) in
      let same : n + suc (length ps) ≡ suc n + length ps = omega arith in
      (t₂, ground arith, rw same holds₂)

  -- the command's lines go through the loop
  package_get_rpm_info-some :
      (system : System) (alloc : TableAlloc) (lines : List CString)
      → system.popen rpm_command ≡ some lines
      → package_get_rpm_info u system alloc
        ≡ (do t ← new_table u alloc rpm_names; t' ← info_loop u lines t; ok (some t'))
  unfolding package_get_rpm_info
  package_get_rpm_info-some system alloc lines output = rw (output, package_get_rpm_info) refl

  pub new_table-Holds :
      (alloc : TableAlloc) (names : List CString)
      → 0 < length names
      → length names < 2 ^ 31
      → IsEnough alloc
      → (t : Table u) × (new_table u alloc names ≡ ok t)
        × Holds ua t names (replicate (length names) []) 0
  unfolding new_table construct
  new_table-Holds alloc names some_name small enough =
      let (t, run, holds) =
        initialize-Holds ua (record { column_count = 0; column_names = []; columns = [] }) names
          alloc.name some_name small enough.name in
      let made : construct u alloc.table
          ≡ ok (record { column_count = 0; column_names = []; columns = [] }) =
        rw enough.table refl in
      let filled : initialize u alloc.names alloc.columns alloc.name
            (record { column_count = 0; column_names = []; columns = [] }) names (length names)
          ≡ ok (success, t) =
        rw (enough.names, enough.columns) run in
      (t, ground arith, holds)

  -- Let the rpm command give a line for each of fewer than 2^31 packages, the fields of the package
  -- with a tab between them and a newline behind, where each package has 14 fields and only the
  -- last may contain a tab; let all allocations succeed. Then `package_get_rpm_info` returns a
  -- table, without a fault, that holds under its 14 column names a row for each package, in order.
  pub package_get_rpm_info-Holds :
      (system : System) (alloc : TableAlloc) (ps : List Package)
      → system.popen rpm_command ≡ some (map package_line ps)
      → IsEnough alloc
      → AllPackages ps
      → length ps < 2 ^ 31
      → (t : Table u) × (package_get_rpm_info u system alloc ≡ ok (some t))
        × Holds ua t rpm_names (put_rows (replicate 14 []) ps) (length ps)
  package_get_rpm_info-Holds system alloc ps output enough all fits =
      let (t, run, holds) = new_table-Holds alloc rpm_names (omega arith) (omega arith) enough in
      let (t', run', holds') = info_loop-put_rows ps 0 holds all (omega arith) in
      let same : 0 + length ps ≡ length ps = omega arith in
      let started = package_get_rpm_info-some system alloc (map package_line ps) output in
      (t', ground (arith, started), rw same at holds')
