-- ===== src/ArrayList/Refines.antt =====
-- An array list refines a list.
use native.Mathlib.Nat.{pow-suc}
use fapolicyd_analyzer.Base.{
  ℕ, zero, suc, ◌+◌, ◌-◌, ◌*◌, ◌%◌, ◌^◌, ◌≡◌, ◌≤◌, ◌<◌, refl, sym, ap, ◌∙◌, inl, inr, true, false,
  ltb, ◌==◌, if◌then◌else◌, Option, none, some, List, [], ◌∷◌, ◌++◌, get_elem?, get_elem?-set_self,
  get_elem?-set_ne, get_elem?-lt, lt-get_elem?, get_elem?-outside, get_elem?-append_left,
  get_elem?-append_right, set, set-outside, length, length-set, length-append, length-replicate,
  replicate, ok, success, range_error, arith, Bool-cases,
}
use fapolicyd_analyzer.ArrayList.{
  ArrayList, double_until, cells, initialize, load, store, get, put, push, clear,
}

-- The first cells hold the items.
pub record Holds (l : ArrayList) (xs : List ℕ) : Type 0 where
  pub count : l.size ≡ length xs
  pub room : l.size ≤ l.capacity
  pub width : length (cells l.values) ≡ l.capacity
  pub items : (i x : ℕ) → get_elem? xs i ≡ some x → get_elem? (cells l.values) i ≡ some (some x)

-- The doubling loop of `array_list_initialize`, from a capacity that is not 0 and reaches the size
-- asked for, which is at most 2^63, when doubled `fuel` times, ends with one round more of fuel;
-- what it returns is at least the size and at least the capacity that it began with.
pub double_until_total :
    (fuel n size : ℕ)
    → 0 < n
    → size ≤ n * 2 ^ fuel
    → size ≤ 2 ^ 63
    → (c : ℕ) × (double_until (suc fuel) n size ≡ ok c) × (size ≤ c) × (n ≤ c)
unfolding double_until
double_until_total zero n size pos enough small = (n, ground arith, omega arith, omega arith)
double_until_total (suc fuel) n size pos enough small = elim (Bool-cases (ltb n size)) [
  | inr h ↦ (n, rw (h, double_until), ground arith, omega arith)
  | inl h ↦
      let twice : n * 2 % 2 ^ 64 ≡ n * 2 = ground arith in
      let power : n * 2 ^ suc fuel ≡ n * 2 * 2 ^ fuel =
        omega (arith, ap (λ (t : ℕ). n * t) (pow-suc 2 fuel)) in
      let (c, run, low, up) =
        double_until_total fuel (n * 2) size (omega arith) (omega arith) small in
      (c, ground (arith, run, twice), low, omega arith)
]

-- Asked for one cell more than there are items, the list has it afterwards and keeps its items;
-- if the memory is refused, the cells are lost.
record IsGrown (l : ArrayList) (xs : List ℕ) (l' : ArrayList) : Type 0 where
  kept : Holds l' xs
  free : l'.size < l'.capacity

append-items :
    (old : List (Option ℕ)) (n : ℕ) (i x : ℕ)
    → get_elem? old i ≡ some (some x)
    → get_elem? (old ++ replicate n none) i ≡ some (some x)
append-items old n i x e = get_elem?-append_left old (replicate n none) i (get_elem?-lt old i e) ∙ e

pub last_index :
    (xs : List ℕ) (x i y : ℕ)
    → get_elem? (xs ++ x ∷ []) i ≡ some y
    → ltb i (length xs) ≡ false
    → i ≡ length xs
last_index xs x i y e above =
    let below = get_elem?-lt (xs ++ x ∷ []) i e in ground (arith, length-append xs (x ∷ []))

last_item : (xs : List ℕ) (x y : ℕ) → get_elem? (xs ++ x ∷ []) (length xs) ≡ some y → x ≡ y
last_item xs x y e =
    let end : get_elem? (xs ++ x ∷ []) (length xs + 0) ≡ some x =
      get_elem?-append_right xs (x ∷ []) 0 in
    let zero_off : length xs + 0 ≡ length xs = omega arith in ground (arith, rw zero_off at end)

module _ {l : ArrayList} {xs : List ℕ} (holds : Holds l xs) where
  initialize-IsGrown :
      l.size < 2 ^ 63
      → (l' : ArrayList) × (initialize true l (l.size + 1) ≡ ok (success, l')) × IsGrown l xs l'
  unfolding initialize
  initialize-IsGrown small = elim (Bool-cases (ltb l.capacity (l.size + 1))) [
    | inr h ↦ (l, rw h, record { kept = holds; free = ground arith })
    | inl h ↦
        let start : ℕ = if ltb l.capacity 1024 then 1024 else l.capacity in
        let (c, run, low, up) =
          double_until_total 64 start (l.size + 1) (ground arith) (ground (arith, holds.room))
            (omega arith) in
        let wide : l.capacity ≤ c = ground arith in
        (
          record l {
            capacity = c;
            values = some (cells l.values ++ replicate (c - l.capacity) none);
          },
          rw (h, run),
          record {
            kept = record {
              count = holds.count;
              room = omega arith;
              width = omega (
                arith,
                length-append (cells l.values) (replicate (c - l.capacity) none),
                length-replicate {A = Option ℕ} (c - l.capacity) none,
                holds.width,
              );
              items =
                  λ i x e. append-items (cells l.values) (c - l.capacity) i x (holds.items i x e);
            };
            free = omega arith;
          },
        )
  ]

  load-items : (i x : ℕ) → get_elem? xs i ≡ some x → load l.values i ≡ ok x
  unfolding load
  load-items i x e = rw (holds.items i x e, load)

  -- On an array list that holds `xs`, `array_list_get` returns without a fault the item of `xs` at
  -- the index, and null outside `xs`.
  pub get-get_elem? : (i : ℕ) → get l i ≡ ok (get_elem? xs i)
  unfolding get
  get-get_elem? i = elim (Bool-cases (ltb i l.size)) [
    | inl h ↦
        let (x, e) = lt-get_elem? xs i (ground (arith, holds.count)) in
        ground (arith, load-items i x e)
    | inr h ↦ rw (h, get_elem?-outside xs i (ground (arith, holds.count)))
  ]

  load-room :
      (i : ℕ)
      → i < l.capacity
      → (x : ℕ) → store l.values i x ≡ ok (some (set (cells l.values) i (some x)))
  unfolding store
  load-room i h x = ground (arith, holds.width)

  put_inside :
      (i x : ℕ)
      → i < length xs
      → (l' : ArrayList) × (put l i x ≡ ok (success, l')) × Holds l' (set xs i x)
  unfolding put
  put_inside i x h =
      let inside : i < length (cells l.values) =
        omega (arith, holds.count, holds.room, holds.width) in
      (
        record l { values = some (set (cells l.values) i (some x)) },
        ground (arith, load-room i (omega (arith, holds.count, holds.room)) x, holds.count),
        record {
          count = holds.count ∙ sym (length-set xs i x);
          room = holds.room;
          width = length-set (cells l.values) i (some x) ∙ holds.width;
          items = λ j y e. elim (Bool-cases (i == j)) [
            | inl same ↦ ground (
              arith,
              get_elem?-set_self xs i x,
              get_elem?-set_self (cells l.values) i (some x) inside,
            )
            | inr ne ↦
                get_elem?-set_ne (cells l.values) i j (some x) (ground arith)
                ∙ holds.items j y (sym (get_elem?-set_ne xs i j x (ground arith)) ∙ e)
          ];
        },
      )

  -- On an array list that holds `xs`, `array_list_set` returns OK and replaces the item at an index
  -- within `xs`; at any other index it returns RANGE_ERROR and the list holds `xs` as before.
  pub put-set :
      (i x : ℕ)
      → (l' : ArrayList) × (put l i x
          ≡ ok ((if ltb i (length xs) then success else range_error), l'))
        × Holds l' (set xs i x)
  unfolding put
  put-set i x = elim (Bool-cases (ltb i (length xs))) [
    | inl h ↦ rw h (put_inside i x (ground arith))
    | inr h ↦ (l, ground (arith, holds.count), rw (set-outside xs i x (ground arith)) holds)
  ]

  -- the cell at the end of a grown list, once it is written
  written :
      {l' : ArrayList} (grown : IsGrown l xs l') (x : ℕ)
      → Holds
          (record l' { size = l'.size + 1; values = some (set (cells l'.values) l'.size (some x)) })
          (xs ++ x ∷ [])
  written {l'} grown x =
      let kept = grown.kept in
      let inside : l'.size < length (cells l'.values) = omega (arith, kept.width, grown.free) in
      record {
        count = omega (arith, kept.count, length-append xs (x ∷ []));
        room = omega (arith, grown.free);
        width = length-set (cells l'.values) l'.size (some x) ∙ kept.width;
        items = λ i y e. elim (Bool-cases (ltb i (length xs))) [
          | inl below ↦
              let within : i < length xs = ground arith in
              get_elem?-set_ne (cells l'.values) l'.size i (some x) (omega (arith, kept.count))
              ∙ kept.items i y (sym (get_elem?-append_left xs (x ∷ []) i within) ∙ e)
          | inr above ↦
              let at_end : i ≡ l'.size = last_index xs x i y e above ∙ sym kept.count in
              let same : x ≡ y = last_item xs x y (
                ap (λ (j : ℕ). get_elem? (xs ++ x ∷ []) j) (sym (last_index xs x i y e above))
                ∙ e) in
              rw (at_end, same) (get_elem?-set_self (cells l'.values) l'.size (some y) inside)
        ];
      }

  -- On an array list that holds the items `xs` (Holds), with memory and fewer than 2^63 items,
  -- `array_list_push` returns OK without a fault, and the list holds `xs` with the new item behind
  -- them.
  pub push-append :
      (x : ℕ)
      → l.size < 2 ^ 63
      → (l' : ArrayList) × (push true l x ≡ ok (success, l')) × Holds l' (xs ++ x ∷ [])
  unfolding push store
  push-append x small =
      let (l', run, grown) = initialize-IsGrown small in
      let inside : l'.size < length (cells l'.values) =
        omega (arith, grown.kept.width, grown.free) in
      (
        record l' { size = l'.size + 1; values = some (set (cells l'.values) l'.size (some x)) },
        ground (arith, run),
        written grown x,
      )

  pub clear-nil : Holds (clear l) []
  unfolding clear
  clear-nil = record {
    count = refl;
    room = omega arith;
    width = holds.width;
    items = λ i x e. absurd (ground arith);
  }
