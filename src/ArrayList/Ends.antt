-- ===== src/ArrayList/Ends.antt =====
-- An array list at its ends: `array_list_pop`, and `array_list_push` when the memory is refused.
use fapolicyd_analyzer.Base.{
  ℕ, ◌+◌, ◌-◌, ◌^◌, ◌≡◌, ◌<◌, ◌∙◌, true, false, ltb, if◌then◌else◌, none, some, List, [], ◌∷◌, ◌++◌,
  get_elem?, get_elem?-lt, get_elem?-append_left, get_elem?-append_right, length, length-append, ok,
  fault, allocation_error, arith,
}
use fapolicyd_analyzer.ArrayList.{ArrayList, cells, initialize, load, get, push, pop}
use fapolicyd_analyzer.ArrayList.Refines.{Holds, double_until_total}

pub pop-nil : {l : ArrayList} → Holds l [] → pop l ≡ ok (none, l)
unfolding pop
pop-nil holds = ground (arith, holds.count)

-- On an array list that holds `xs` and one item behind them, `array_list_pop` returns that item and
-- the list then holds `xs`.
pub pop-append :
    {l : ArrayList} (xs : List ℕ) (x : ℕ)
    → Holds l (xs ++ x ∷ [])
    → (l' : ArrayList) × (pop l ≡ ok (some x, l')) × Holds l' xs
unfolding pop load
pop-append {l} xs x holds =
    let count : l.size ≡ length xs + 1 = omega (arith, holds.count, length-append xs (x ∷ [])) in
    let end : get_elem? (xs ++ x ∷ []) (length xs + 0) ≡ some x =
      get_elem?-append_right xs (x ∷ []) 0 in
    let last : length xs + 0 ≡ l.size - 1 = omega (arith, count) in
    let stored : get_elem? (cells l.values) (l.size - 1) ≡ some (some x) =
      holds.items (l.size - 1) x (rw last at end) in
    (
      record l { size = l.size - 1 },
      ground (arith, count, stored),
      record {
        count = omega (arith, count);
        room = omega (arith, holds.room);
        width = holds.width;
        items = λ i y e.
            holds.items i y (get_elem?-append_left xs (x ∷ []) i (get_elem?-lt xs i e) ∙ e);
      },
    )

-- On an array list that holds `xs`, is full and has fewer than 2^63 items, `array_list_push` with
-- the memory refused returns ALLOCATION_ERROR; the size is still that of `xs`, and `array_list_get`
-- of any of its indices faults.
pub push-refused :
    {l : ArrayList} {xs : List ℕ}
    → Holds l xs
    → l.size ≡ l.capacity
    → l.size < 2 ^ 63
    → (x : ℕ)
    → (l' : ArrayList) × (push false l x ≡ ok (allocation_error, l'))
      × (l'.size ≡ length xs)
      × ((i : ℕ) → i < length xs → get l' i ≡ fault)
unfolding push initialize get load
push-refused {l} {xs} holds full small x =
    let start : ℕ = if ltb l.capacity 1024 then 1024 else l.capacity in
    let (c, run, low, up) =
      double_until_total 64 start (l.size + 1) (ground arith) (ground arith) (omega arith) in
    let grows : ltb l.capacity (l.size + 1) ≡ true = ground arith in
    (record l { values = none }, rw (grows, run), holds.count, λ i h. ground (arith, holds.count))
