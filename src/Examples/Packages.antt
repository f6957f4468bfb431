-- ===== src/Examples/Packages.antt =====
-- Lines of the package database.
use fapolicyd_analyzer.Table.Columns.{index_of}
use fapolicyd_analyzer.Rpm.Files.{package_get_rpm_files_info}
use fapolicyd_analyzer.Rpm.Listing.{
  File, file_line, AllFiles, put_listing, number_of_files, package_get_rpm_files_info-Holds,
}
use fapolicyd_analyzer.Base.{
  lacks, List, str_eq, ◌≡◌, refl, arith, none, some, [], ◌∷◌, CString, codes, replicate, ok, fault,
  true,
}
use fapolicyd_analyzer.UtArray.{list_array, list_array-IsUtArray}
use fapolicyd_analyzer.Table.{Table}
use fapolicyd_analyzer.Table.Rows.{contents, Holds}
use fapolicyd_analyzer.Rpm.{
  System, TableAlloc, rpm_names, file_names, split_fields, package_get_rpm_info,
}
use fapolicyd_analyzer.Rpm.Fields.{all_lack, joined_by, occurrences, split_fields-fault}
use fapolicyd_analyzer.Rpm.Info.{
  Package, AllPackages, package_line, put_rows, package_get_rpm_info-Holds,
}

split_fields-fault_example : split_fields b'\t' 13 (codes "bash 5.2") ≡ fault
split_fields-fault_example =
    split_fields-fault b'\t' 13 (codes "bash 5.2") (unfold occurrences in omega arith)

abbrev bash : Package
bash = record {
  fields =
      codes "bash-5.2"
      ∷ codes "bash"
      ∷ codes "5.2"
      ∷ codes "1"
      ∷ codes "x86_64"
      ∷ codes "8"
      ∷ codes "f0"
      ∷ codes "1"
      ∷ codes "2"
      ∷ codes "Shells"
      ∷ codes "u"
      ∷ codes "4.18"
      ∷ codes "The shell"
      ∷ [];
  last = codes "(none)";
}

abbrev host : System
host = record {
  popen = λ _. some (package_line bash ∷ []);
  access = λ _. true;
  stat = λ _. none;
  reads = λ _. none;
}

abbrev enough : TableAlloc
enough = record { table = true; names = true; columns = true; name = λ _. true }

bash-Good : AllPackages (bash ∷ [])
unfolding all_lack lacks
bash-Good = (record { count = refl; clean = refl }, tt)

package_get_rpm_info-Holds_example :
    (t : Table (list_array CString)) × (package_get_rpm_info (list_array CString) host enough
      ≡ ok (some t))
    × Holds (list_array-IsUtArray CString) t rpm_names (put_rows (replicate 14 []) (bash ∷ [])) 1
package_get_rpm_info-Holds_example =
    package_get_rpm_info-Holds (list_array-IsUtArray CString) host enough (bash ∷ []) refl
      (record { table = refl; names = refl; columns = refl; name = λ _. refl }) bash-Good
      (omega arith)

abbrev shell_file : File
shell_file = record {
  fields =
      codes "/bin/sh"
      ∷ codes "8"
      ∷ codes "1"
      ∷ codes "f0"
      ∷ codes "0100755"
      ∷ codes "root"
      ∷ codes "root"
      ∷ codes "0"
      ∷ codes "0"
      ∷ codes "0"
      ∷ [];
  last = codes "X";
}

abbrev files_of : CString → List File
files_of nvra = shell_file ∷ []

abbrev file_host : System
file_host = record {
  popen = λ _. some (file_line shell_file ∷ []);
  access = λ _. true;
  stat = λ _. none;
  reads = λ _. none;
}

shell_file-Good : AllFiles (shell_file ∷ [])
unfolding all_lack lacks joined_by
shell_file-Good = (record { count = refl; clean = refl; present = refl }, tt)

abbrev bash_table : Table (list_array CString)
bash_table = record {
  column_count = 1;
  column_names = codes "NVRA" ∷ [];
  columns = (codes "bash-5.2" ∷ []) ∷ [];
}

bash_table-Holds :
    Holds
      (list_array-IsUtArray CString)
      bash_table
      (codes "NVRA" ∷ [])
      ((codes "bash-5.2" ∷ []) ∷ [])
      1
unfolding list_array-IsUtArray contents
bash_table-Holds = record {
  count = refl;
  named = refl;
  values = refl;
  width = refl;
  rows = (refl, tt);
  some_column = omega arith;
  fits = omega arith;
}

package_get_rpm_files_info-Holds_example :
    (t : Table (list_array CString)) × (package_get_rpm_files_info
        (list_array CString)
        file_host
        enough
        none
        bash_table
      ≡ ok t)
    × Holds
        (list_array-IsUtArray CString)
        t
        file_names
        (put_listing files_of (replicate 12 []) (codes "bash-5.2" ∷ []))
        (number_of_files files_of (codes "bash-5.2" ∷ []))
unfolding index_of str_eq number_of_files
package_get_rpm_files_info-Holds_example =
    package_get_rpm_files_info-Holds (list_array-IsUtArray CString) file_host files_of (λ _. refl)
      (λ _. shell_file-Good) enough bash_table-Holds 0 (codes "bash-5.2" ∷ []) refl refl
      (record { table = refl; names = refl; columns = refl; name = λ _. refl }) (omega arith)
