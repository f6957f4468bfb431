-- ===== src/UtArray.antt =====
-- What the program relies on of the array macros of detail/utarray.h, a copy of the uthash project:
-- a growing array of elements, each copied into it. A macro that is refused memory ends the
-- process, so the operations say what holds when it returns. A pointer to an element is its index,
-- and null is `none`. The counter of the array is 32 bits wide.
use fapolicyd_analyzer.Base.{
  ℕ, ◌+◌, ◌^◌, ◌<◌, ◌≡◌, refl, Option, none, some, List, [], ◌∷◌, ◌++◌, get_elem?, length, ltb,
  if◌then◌else◌,
}

pub record UtArray (A : Type 0) : Type 1 where
  pub Array : Type 0
  -- `utarray_new`
  pub new : Array
  -- `utarray_push_back`
  pub push_back : Array → A → Array
  -- `utarray_reserve`
  pub reserve : Array → ℕ → Array
  -- `utarray_len`
  pub len : Array → ℕ
  -- `utarray_eltptr`, and the element behind the pointer
  pub eltptr : Array → ℕ → Option A
  -- `utarray_next`
  pub next : Array → Option ℕ → Option ℕ

-- The element behind `e`, or the first one if that is null.
abbrev pub next_element : (len : ℕ) → Option ℕ → Option ℕ
next_element len none = if ltb 0 len then some 0 else none
next_element len (some i) = if ltb (i + 1) len then some (i + 1) else none

-- The documented behaviour.
pub record IsUtArray {A : Type 0} (u : UtArray A) : Type 0 where
  pub items : u.Array → List A
  pub items-new : items u.new ≡ []
  pub items-push_back :
      (a : u.Array) (x : A)
      → length (items a) < 2 ^ 31
      → items (u.push_back a x) ≡ items a ++ x ∷ []
  pub items-reserve : (a : u.Array) (n : ℕ) → items (u.reserve a n) ≡ items a
  pub len-items : (a : u.Array) → u.len a ≡ length (items a)
  pub eltptr-items : (a : u.Array) (i : ℕ) → u.eltptr a i ≡ get_elem? (items a) i
  pub next-items : (a : u.Array) (e : Option ℕ) → u.next a e ≡ next_element (length (items a)) e

-- Lists are such arrays.
abbrev pub list_array : (A : Type 0) → UtArray A
list_array A = record {
  Array = List A;
  new = [];
  push_back = λ a x. a ++ x ∷ [];
  reserve = λ a n. a;
  len = length;
  eltptr = get_elem?;
  next = λ a e. next_element (length a) e;
}

unfoldable pub list_array-IsUtArray : (A : Type 0) → IsUtArray (list_array A)
list_array-IsUtArray A = record {
  items = λ a. a;
  items-new = refl;
  items-push_back = λ a x h. refl;
  items-reserve = λ a n. refl;
  len-items = λ a. refl;
  eltptr-items = λ a i. refl;
  next-items = λ a e. refl;
}
