-- ===== src/Match.antt =====
-- match.c: file names against shell patterns.
use fapolicyd_analyzer.Base.{ℕ, ◌+◌, CString}

-- `FNM_PATHNAME | FNM_PERIOD`
abbrev pub flags : ℕ
flags = 1 + 4

-- `match_filename`, given `fnmatch`
unfoldable pub match_filename : (fnmatch : CString → CString → ℕ → ℕ) → CString → CString → ℕ
match_filename fnmatch pattern string = fnmatch pattern string flags
