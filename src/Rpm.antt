-- ===== src/Rpm.antt =====
-- rpm.c: tables of the installed packages, of their files, and of the digests of these.
pub mod Fields
pub mod Info
pub mod Files
pub mod Listing
pub mod Rounds
pub mod Hashes
use fapolicyd_analyzer.Base.{
  ℕ, zero, suc, ◌+◌, ◌*◌, Bool, true, false, ◌&&◌, not, ◌==◌, ltb, if◌then◌else◌, Option, none,
  some, List, [], ◌∷◌, ◌++◌, CString, codes, decimal, length, Outcome, ok, aborted, fault, ◌>>=◌,
  ErrorCode, success,
}
use fapolicyd_analyzer.UtArray.{UtArray}
use fapolicyd_analyzer.Table
use fapolicyd_analyzer.Table.{Table, append_row, find_column_number, get_row_count, get_value}
use fapolicyd_analyzer.Sha256
use fapolicyd_analyzer.Sha256.{sha256_file}

-- `strchr`: what stands before the first such byte, and what stands behind it
unfoldable pub strchr : ℕ → CString → Option (CString × CString)
strchr c [] = none
strchr c (d ∷ text) =
    let onward = strchr c text in
    if d == c
    then some ([], text)
    else elim onward [ none ↦ none | some (before, behind) ↦ some (d ∷ before, behind) ]

-- The loop that cuts a line at the next `left` separators; a null pointer is written through.
unfoldable pub split_fields : ℕ → (left : ℕ) → CString → Outcome (List CString)
split_fields c zero text = ok (text ∷ [])
split_fields c (suc left) text = elim (strchr c text) [
  | none ↦ fault
  | some (field, rest) ↦ do fields ← split_fields c left rest; ok (field ∷ fields)
]

-- `if (line[read - 1] == '\n') line[read - 1] = '\0';`
unfoldable pub chomp : CString → CString
chomp [] = []
chomp (c ∷ []) = if c == b'\n' then [] else c ∷ []
chomp (c ∷ d ∷ line) = c ∷ chomp (d ∷ line)

-- Which allocations of `table_construct` and `table_initialize` succeed.
pub record TableAlloc : Type 0 where
  pub table : Bool
  pub names : Bool
  pub columns : Bool
  pub name : ℕ → Bool

-- What the operating system and the rpm command give: the output of a command, line by line, or
-- `none` if it cannot be run; and of a path, whether it can be read, whether it is a regular file
-- and its size, and what `open` and `read` give.
pub record System : Type 0 where
  pub popen : CString → Option (List CString)
  pub access : CString → Bool
  pub stat : CString → Option (Bool × ℕ)
  pub reads : CString → Option (List (List ℕ))

abbrev pub rpm_names : List CString
rpm_names =
    codes "NVRA"
    ∷ codes "NAME"
    ∷ codes "VERSION"
    ∷ codes "RELEASE"
    ∷ codes "ARCH"
    ∷ codes "SIZE"
    ∷ codes "SHA256HEADER"
    ∷ codes "BUILDTIME"
    ∷ codes "INSTALLTIME"
    ∷ codes "GROUP"
    ∷ codes "URL"
    ∷ codes "RPMVERSION"
    ∷ codes "SUMMARY"
    ∷ codes "SIGNATURE"
    ∷ []

abbrev pub file_names : List CString
file_names =
    codes "NVRA"
    ∷ codes "Path"
    ∷ codes "Size"
    ∷ codes "Field_3"
    ∷ codes "SHA256"
    ∷ codes "Permissions"
    ∷ codes "User"
    ∷ codes "Group"
    ∷ codes "Field_8"
    ∷ codes "Field_9"
    ∷ codes "Field_10"
    ∷ codes "Field_11"
    ∷ []

abbrev pub hash_names : List CString
hash_names = codes "NVRA" ∷ codes "Path" ∷ codes "Size" ∷ codes "SHA256" ∷ []

-- each with a tab behind it
abbrev tabbed : List CString → CString
tabbed [] = []
tabbed (text ∷ texts) = text ++ b'\t' ∷ tabbed texts

-- the command of `package_get_rpm_info`
unfoldable pub rpm_command : CString
rpm_command =
    codes "/usr/bin/rpm -qa --queryformat "
    ++ b'"'
      ∷ (tabbed (
            codes "%{NVRA}"
            ∷ codes "%{NAME}"
            ∷ codes "%{VERSION}"
            ∷ codes "%{RELEASE}"
            ∷ codes "%{ARCH}"
            ∷ codes "%{SIZE}"
            ∷ codes "%{SHA256HEADER}"
            ∷ codes "%{BUILDTIME}"
            ∷ codes "%{INSTALLTIME}"
            ∷ codes "%{GROUP}"
            ∷ codes "%{URL}"
            ∷ codes "%{RPMVERSION}"
            ∷ codes "%{SUMMARY}"
            ∷ [])
          ++ (codes "%|DSAHEADER?{%{DSAHEADER:pgpsig}}:{%|RSAHEADER?{%{RSAHEADER:pgpsig}}:{%|"
              ++ (codes "SIGGPG?{%{SIGGPG:pgpsig}}:{%|SIGPGP?{%{SIGPGP:pgpsig}}:{(none)}|}|}|}|"
                  ++ b'\n' ∷ b'"' ∷ [])))

module _ (u : UtArray CString) where
  -- `table_construct` and then `table_initialize`, whose result is ignored
  unfoldable pub new_table : TableAlloc → List CString → Outcome (Table u)
  new_table alloc names = do
    t ← Table.construct u alloc.table
    (code, t') ← Table.initialize u alloc.names alloc.columns alloc.name t names (length names)
    ok t'

  -- the loop over the lines of `package_get_rpm_info`
  unfoldable pub info_loop : List CString → Table u → Outcome (Table u)
  info_loop [] t = ok t
  info_loop (line ∷ lines) t = do
    fields ← split_fields b'\t' 13 (chomp line)
    (code, t') ← append_row u t fields
    info_loop lines t'

  -- `package_get_rpm_info`; null is `none`
  unfoldable pub package_get_rpm_info : System → TableAlloc → Outcome (Option (Table u))
  package_get_rpm_info system alloc = elim (system.popen rpm_command) [
    | none ↦ ok none
    | some lines ↦ do t ← new_table alloc rpm_names; t' ← info_loop lines t; ok (some t')
  ]
