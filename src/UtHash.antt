-- ===== src/UtHash.antt =====
-- What the program relies on of the hash macros of detail/uthash.h, a copy of the uthash project: a
-- map from C strings to the structures that carry a handle. A structure is the number of its
-- allocation. A macro that is refused memory ends the process.
use fapolicyd_analyzer.Base.{
  ℕ, suc, ◌≡◌, refl, Option, none, some, List, [], ◌∷◌, CString, str_eq, length, if◌then◌else◌,
}

pub record UtHash : Type 1 where
  pub Hash : Type 0
  -- the null head
  pub empty : Hash
  -- `HASH_FIND_STR`
  pub find : Hash → CString → Option ℕ
  -- `HASH_ADD_KEYPTR`
  pub add_keyptr : Hash → CString → ℕ → Hash
  -- `HASH_COUNT`
  pub count : Hash → ℕ

-- The documented behaviour; a key is to be added once.
pub record IsUtHash (u : UtHash) : Type 0 where
  pub find-empty : (k : CString) → u.find u.empty k ≡ none
  pub find-add_keyptr :
      (h : u.Hash) (key : CString) (p : ℕ) (k : CString)
      → u.find h key ≡ none
      → u.find (u.add_keyptr h key p) k ≡ (if str_eq k key then some p else u.find h k)
  pub count-empty : u.count u.empty ≡ 0
  pub count-add_keyptr :
      (h : u.Hash) (key : CString) (p : ℕ)
      → u.find h key ≡ none
      → u.count (u.add_keyptr h key p) ≡ suc (u.count h)

abbrev pub find_pair : List (CString × ℕ) → CString → Option ℕ
find_pair [] k = none
find_pair ((key, p) ∷ pairs) k = if str_eq k key then some p else find_pair pairs k

-- Lists of pairs are such maps.
abbrev pub list_hash : UtHash
list_hash = record {
  Hash = List (CString × ℕ);
  empty = [];
  find = find_pair;
  add_keyptr = λ h key p. (key, p) ∷ h;
  count = length;
}

pub list_hash-IsUtHash : IsUtHash list_hash
list_hash-IsUtHash = record {
  find-empty = λ k. refl;
  find-add_keyptr = λ h key p k absent. refl;
  count-empty = refl;
  count-add_keyptr = λ h key p absent. refl;
}
