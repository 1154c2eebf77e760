-- ===== src/Ds/SkipList/Examples.antt =====
-- Runs of ds/kv_skiplist.h on concrete keys, and the theorems there.
use cpp_utils.Base.{
  ℕ, zero, suc, ◌≤◌, ◌<◌, ◌≡◌, subst, ◌⊎◌, length, Among, inl, inr, Bool-cases, false, ok_injective,
  refl, arith, ltb, ◌==◌, Option, none, some, List, [], ◌∷◌, ◌+◌, ok, fault, ◌>>=◌,
}
use cpp_utils.Base.Int.{pos, ◌-ℤ◌}
use cpp_utils.Ds.SkipList.{
  count_up, count_down, Node, SkipList, load, store_next, new_skip_list, search, walk,
  get_random_level, link, insert, find_pre, find, unlink, shrink, take_out, erase,
}
use cpp_utils.Ds.SkipList.Complete.{IsOrder, Sorted}
use cpp_utils.Ds.SkipList.Absent.{IsTotal, Absent}
use cpp_utils.Ds.SkipList.Display.{level_items, levels_from}
use cpp_utils.Ds.SkipList.Rows.{Row}
use cpp_utils.Ds.SkipList.Links.{succ_at}
use cpp_utils.Ds.SkipList.Whole.{IsWhole}
use cpp_utils.Ds.SkipList.Spec.{
  Held, Represents, put_new, remove_key, put_each, Finds, Grown, insert_each,
}
use cpp_utils.Ds.SkipList.Filled.{new_skip_list-Represents, insert-Represents}
use cpp_utils.Ds.SkipList.Emptied.{erase-Represents}
use cpp_utils.Ds.SkipList.Erase.{erase_dangling}
use cpp_utils.Ds.SkipList.Store.{find-insert_each, find-erase_inserted}

-- A skip list of numbers with the key 5 on level 0.
abbrev head_node : Node ℕ ℕ
head_node = record { k = 0; v = 0; next = some 1 ∷ none ∷ none ∷ []; level = 2 }

abbrev five : Node ℕ ℕ
five = record { k = 5; v = 50; next = none ∷ none ∷ []; level = 1 }

abbrev one_key : SkipList ℕ ℕ
one_key = record {
  max_level = 2;
  cur_level = 1;
  head = 0;
  counts = pos 1;
  heap = some head_node ∷ some five ∷ [];
}

one_key_run : insert ltb ◌==◌ 0 5 50 (new_skip_list 0 0 2) ≡ ok (0, one_key)
unfolding insert count_up search walk load get_random_level link store_next
one_key_run = refl

-- The order of the numbers.
ltb-IsOrder : IsOrder ltb ◌==◌
ltb-IsOrder = record {
  trans = λ x y z h h'. ground (arith, h, h');
  irrefl = λ x y h. ground (arith, h);
  respects = λ x y z h h'. ground (arith, h, h');
}

ltb-IsTotal : IsTotal ltb ◌==◌
ltb-IsTotal = record {
  order = ltb-IsOrder;
  total = λ x y h h'. ground (arith, h, h');
  same_sym = λ x y h. ground (arith, h);
  same_trans = λ x y z h h'. ground (arith, h, h');
}

-- `insert(5, 50)` into an empty list.
insert-Represents_example :
    (r : ℕ) × (s' : SkipList ℕ ℕ) × (insert ltb ◌==◌ 1 5 50 (new_skip_list 0 0 2) ≡ ok (r, s'))
    × Represents ltb ◌==◌ s' (put_new {K = ℕ} {V = ℕ} ltb ◌==◌ 5 50 (λ _. none))
    × (s'.max_level ≡ 2)
    × Grown {K = ℕ} {V = ℕ} ltb ◌==◌ none r (new_skip_list 0 0 2) s'
insert-Represents_example =
    insert-Represents {K = ℕ} {V = ℕ} ltb ◌==◌ 1 5 50 (new_skip_list 0 0 2) (λ _. none) 0
      ltb-IsTotal (omega arith) (new_skip_list-Represents ltb ◌==◌ 0 0 2) refl (omega arith)

-- Three keys, and the first one again.
abbrev four_calls : List (ℕ × ℕ × ℕ)
four_calls = (0, 5, 50) ∷ (3, 2, 20) ∷ (1, 8, 80) ∷ (2, 5, 55) ∷ []

find-insert_each_example :
    (s : SkipList ℕ ℕ) × (insert_each ltb ◌==◌ four_calls (new_skip_list 0 0 4) ≡ ok s)
    × ((key : ℕ)
        → (r : Option ℕ) × (find ltb ◌==◌ key s ≡ ok r)
          × Finds ltb ◌==◌ key s (put_each {K = ℕ} {V = ℕ} ltb ◌==◌ four_calls (λ _. none) key) r)
find-insert_each_example = find-insert_each ltb ◌==◌ 0 0 4 four_calls ltb-IsTotal (omega arith)

find-erase_inserted_example :
    (s : SkipList ℕ ℕ) × ((do
      s ← insert_each ltb ◌==◌ four_calls (new_skip_list 0 0 4)
      erase ltb ◌==◌ 2 s)
      ≡ ok s)
    × ((other : ℕ)
        → (r : Option ℕ) × (find ltb ◌==◌ other s ≡ ok r)
          × Finds ltb ◌==◌ other s
              (remove_key {K = ℕ} {V = ℕ} ltb ◌==◌ 2
                (put_each {K = ℕ} {V = ℕ} ltb ◌==◌ four_calls (λ _. none))
                other)
              r)
find-erase_inserted_example =
    find-erase_inserted ltb ◌==◌ 0 0 4 four_calls 2 20 ltb-IsTotal (omega arith) refl

-- The list with one key, with a level that is in use or not.
abbrev on_level : ℕ → SkipList ℕ ℕ
on_level l = record one_key { cur_level = l }

abbrev five_rows : ℕ → List ℕ
five_rows zero = 1 ∷ []
five_rows (suc _) = []

on_level-IsWhole : (l : ℕ) → l ≤ 2 → IsWhole ltb ◌==◌ (on_level l) five_rows
unfolding load
on_level-IsWhole l h = record {
  levels = h;
  linked = λ i low. linked i low;
  nested = λ i q later. absurd later;
  short = λ i. short i;
  ascending = λ i low. ascending i;
  above = λ i high low. above i (omega (arith, high));
}
  where
    linked : (i : ℕ) → i ≤ 2 → Row (succ_at {K = ℕ} {V = ℕ} one_key.heap i) 0 (five_rows i)
    linked zero low = (refl, refl)
    linked (suc zero) low = refl
    linked (suc (suc zero)) low = refl
    linked (suc (suc (suc i))) low = absurd (omega arith)

    short : (i : ℕ) → length (five_rows i) ≤ 2
    short zero = omega arith
    short (suc i) = omega arith

    ascending : (i : ℕ) → Sorted {K = ℕ} {V = ℕ} ltb ◌==◌ one_key.heap (five_rows i)
    ascending zero = (tt, tt)
    ascending (suc i) = tt

    above : (i : ℕ) → 0 < i → five_rows i ≡ []
    above zero h = absurd (omega arith)
    above (suc i) h = refl

-- The list with one key represents the function that has its value there.
abbrev only_five : ℕ → Option ℕ
only_five = put_new {K = ℕ} {V = ℕ} ltb ◌==◌ 5 50 (λ _. none)

five_other : (k : ℕ) → (5 == k) ≡ false → Absent ltb ◌==◌ k (on_level 1) five_rows
unfolding load
five_other k other q m (inr later) em = absurd later
five_other k other q m (inl e) em =
    let same_node : five ≡ m =
      ok_injective five five m (subst (λ a. load one_key.heap a ≡ ok m) e em) in
    subst (λ (r : Node ℕ ℕ). (r.k == k) ≡ false) same_node other

five-Held : (k : ℕ) → Held {K = ℕ} {V = ℕ} ltb ◌==◌ k (on_level 1) five_rows (only_five k)
unfolding load
five-Held k = elim (Bool-cases (5 == k)) [
  | inl same ↦ rw same (1, five, inl refl, refl, same, refl)
  | inr other ↦ rw other (five_other k other)
]

erase-Represents_example :
    (s' : SkipList ℕ ℕ) × (erase ltb ◌==◌ 5 (on_level 1) ≡ ok s')
    × Represents ltb ◌==◌ s' (remove_key {K = ℕ} {V = ℕ} ltb ◌==◌ 5 only_five)
    × (s'.max_level ≡ 2)
    × (s'.counts ≡ pos 1 -ℤ pos 1)
erase-Represents_example =
    erase-Represents ltb ◌==◌ 5 50 (on_level 1) only_five five_rows ltb-IsTotal
      (on_level-IsWhole 1 (omega arith)) five-Held refl (omega arith) refl
      (λ (_, _, on_top, _, _). on_top)

-- `_curLevel` is 0, as an `erase` before leaves it, and the node of 5 is on level 0.
erase_dangling_example :
    (s' : SkipList ℕ ℕ) × (u : ℕ) × (erase ltb ◌==◌ 5 (on_level 0) ≡ ok s')
    × (s'.cur_level ≡ 0)
    × ((u ≡ 0) ⊎ Among u (1 ∷ []))
    × (succ_at s'.heap 0 u ≡ ok (some 1))
    × (load s'.heap 1 ≡ fault)
unfolding load
erase_dangling_example =
    erase_dangling ltb ◌==◌ ltb-IsOrder 5 (on_level 0) five_rows (on_level-IsWhole 0 (omega arith))
      1 five (inl refl) refl refl (inl refl)

-- A list that may have no level but the lowest one reports an insertion and does not link the node.
no_level_run :
    ((do (r, _) ← insert {K = ℕ} {V = ℕ} ltb ◌==◌ 0 5 50 (new_skip_list 0 0 0); ok r) ≡ ok 0)
    × ((do (_, s) ← insert {K = ℕ} {V = ℕ} ltb ◌==◌ 0 5 50 (new_skip_list 0 0 0); find ltb ◌==◌ 5 s)
        ≡ ok none)
unfolding insert count_up search walk load get_random_level link store_next find find_pre
no_level_run = (refl, refl)

-- The text of a list with a node of level 1 and one of level 2.
abbrev one_digit : ℕ → List ℕ
one_digit n = (48 + n) ∷ []

display_run :
    (do
      (_, s) ← insert {K = ℕ} {V = ℕ} ltb ◌==◌ 0 5 1 (new_skip_list 0 0 2)
      (_, s) ← insert ltb ◌==◌ 1 3 2 s
      levels_from s.heap s.head s.cur_level)
    ≡ ok ([] ∷ ((3, 2) ∷ []) ∷ ((3, 2) ∷ (5, 1) ∷ []) ∷ [])
unfolding insert count_up search walk load get_random_level link store_next levels_from level_items
display_run = refl

-- `erase(3)` deletes the node of 5.
abbrev broken : SkipList ℕ ℕ
broken = record one_key { cur_level = 0; counts = pos 0; heap = some head_node ∷ none ∷ [] }

erase_other_run : erase ltb ◌==◌ 3 one_key ≡ ok broken
unfolding search walk load erase count_down take_out shrink
erase_other_run = refl

-- Two keys are inserted and erased: `_curLevel` is 0 after the first `erase`, so the second one unlinks
-- nothing, and the next search reads a deleted node.
erase_twice_run :
    (do
      (_, s) ← insert {K = ℕ} {V = ℕ} ltb ◌==◌ 0 1 10 (new_skip_list 0 0 8)
      (_, s) ← insert {K = ℕ} {V = ℕ} ltb ◌==◌ 0 2 20 s
      s ← erase ltb ◌==◌ 2 s
      s ← erase ltb ◌==◌ 1 s
      find ltb ◌==◌ 3 s)
    ≡ fault
unfolding insert count_up search walk load get_random_level link store_next erase count_down
    take_out unlink shrink find find_pre
erase_twice_run = refl
