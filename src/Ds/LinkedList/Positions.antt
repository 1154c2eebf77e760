-- ===== src/Ds/LinkedList/Positions.antt =====
-- ds/list.h against sequences: which item a position names, and what is done there.
use cpp_utils.Base.{
  ℕ, zero, suc, ◌-◌, ◌^◌, ◌≤◌, ◌<◌, ◌≡◌, refl, sym, ap, subst, ◌∙◌, arith, false, Option, none,
  some, List, [], ◌∷◌, ◌++◌, length, take, drop, get_elem?, ltb, if◌then◌else◌, Outcome, ok, fault,
  aborted, ◌>>=◌,
}
use cpp_utils.Base.Int.{ℤ, pos, negsuc, ◌-ℤ◌}
use cpp_utils.Ds.LinkedList.{
  LinkedList, to_int, to_uint32, minus_one, pos_pos, empty, p_to_pos, link_behind, unlink_behind,
  is_zero, insert, remove, item_of, get,
}

-- The index that a position names: from the front, below `m`, or from the end of `n` items.
abbrev pub place : ℕ → ℕ → ℤ → Option ℕ
place m n (pos k) = if ltb k m then some k else none
place m n (negsuc k) = if ltb k n then some (n - 1 - k) else none

to_int-small : (n : ℕ) → n < 2 ^ 31 → to_int n ≡ pos n
to_int-small n h = ground arith

-- An answer of `posPos`.
abbrev answer : Option ℕ → ℤ
answer none = minus_one
answer (some k) = pos k

pos_pos_insert : (n : ℕ) (p : ℤ) → pos_pos (pos n) (pos n) p ≡ answer (place (suc n) n p)
unfolding pos_pos
pos_pos_insert n (pos k) = ground arith
pos_pos_insert n (negsuc k) = ground arith

pos_pos_remove :
    (n : ℕ) (p : ℤ) → pos_pos (pos n) (pos (suc n)) p ≡ answer (place (suc n) (suc n) p)
unfolding pos_pos
pos_pos_remove n (pos k) = ground arith
pos_pos_remove n (negsuc k) = ground arith

pub place_in : (m n : ℕ) (p : ℤ) (k : ℕ) → n ≤ m → place m n p ≡ some k → k < m
place_in m n (pos j) k le h = ground (arith, h)
place_in m n (negsuc j) k le h = ground (arith, h)

none_in_empty : (p : ℤ) → place 0 0 p ≡ none
none_in_empty (pos k) = ground arith
none_in_empty (negsuc k) = ground arith

not_zero : (k : ℕ) → is_zero (pos (suc k)) ≡ false
not_zero k = ground arith

as_index : (k : ℕ) → k < 2 ^ 31 → to_uint32 (pos k) ≡ k
as_index k h = ground arith

sub_one : (n : ℕ) → suc n - 1 ≡ n
sub_one n = omega arith

item_before : (k : ℕ) → k < 2 ^ 31 → to_uint32 (pos (suc k) -ℤ pos 1) ≡ k
item_before k h = ground arith

module _ {ℓ} {A : Type ℓ} where
  link_behind_lem :
      (k : ℕ) (item : A) (xs : List A)
      → k < length xs
      → link_behind k item xs ≡ ok (take (suc k) xs ++ (item ∷ drop (suc k) xs))
  unfolding link_behind
  link_behind_lem k item [] h = absurd (omega arith)
  link_behind_lem zero item (x ∷ xs) h = refl
  link_behind_lem (suc k) item (x ∷ xs) h = rw (link_behind_lem k item xs (omega arith))

  unlink_behind_lem :
      (k : ℕ) (xs : List A) → k < length xs → unlink_behind k xs ≡ ok (take k xs ++ drop (suc k) xs)
  unfolding unlink_behind
  unlink_behind_lem k [] h = absurd (omega arith)
  unlink_behind_lem zero (x ∷ xs) h = refl
  unlink_behind_lem (suc k) (x ∷ xs) h = rw (unlink_behind_lem k xs (omega arith))

  p_to_pos_past : (k : ℕ) (xs : List A) → length xs < k → p_to_pos k xs ≡ fault
  unfolding p_to_pos
  p_to_pos_past zero xs h = absurd (omega arith)
  p_to_pos_past (suc k) [] h = refl
  p_to_pos_past (suc k) (x ∷ xs) h = p_to_pos_past k xs (omega arith)

  p_to_pos_at :
      (k : ℕ) (xs : List A)
      → k < length xs
      → (x : A) × (get_elem? xs k ≡ some x) × ((p_to_pos k xs >>= item_of) ≡ ok x)
  unfolding p_to_pos
  p_to_pos_at k [] h = absurd (omega arith)
  p_to_pos_at zero (x ∷ xs) h = (x, refl, refl)
  p_to_pos_at (suc k) (x ∷ xs) h = p_to_pos_at k xs (omega arith)

  -- `_len` is the number of items, and fits an `int`.
  pub record IsValid (ls : LinkedList A) : Type ℓ where
    pub len_is : ls.len ≡ length ls.head
    pub in_range : ls.len < 2 ^ 31

  abbrev pub inserted : A → LinkedList A → Option ℕ → Outcome (ℤ × LinkedList A)
  inserted item ls none = ok (minus_one, ls)
  inserted item ls (some k) =
      ok (pos 0, record { head = take k ls.head ++ (item ∷ drop k ls.head); len = suc ls.len })

  insert_at :
      (item : A) (ls : LinkedList A) (v : IsValid ls) (k : Option ℕ) (p : ℤ)
      → place (suc ls.len) ls.len p ≡ k
      → insert p item ls ≡ inserted item ls k
  unfolding insert
  insert_at item ls v none p h = rw (to_int-small ls.len v.in_range, pos_pos_insert ls.len p, h)
  insert_at item ls v (some zero) p h =
      rw (to_int-small ls.len v.in_range, pos_pos_insert ls.len p, h)
  insert_at item ls v (some (suc k)) p h =
      let inside : suc k < suc ls.len = place_in (suc ls.len) ls.len p (suc k) (omega arith) h in
      rw (to_int-small ls.len v.in_range, pos_pos_insert ls.len p, h, not_zero k)
        (rw (
          item_before k (omega (arith, v.in_range)),
          link_behind_lem k item ls.head (omega (arith, v.len_is)),
        ))

  -- `insert` at a position from 0 to n, or counted from the end from -n to -1, puts the item before
  -- the one that stands there and counts it; at every other position, -n-1 too, it returns -1 and
  -- changes nothing. The list is supposed to count its n items, and n to fit an `int`.
  pub insert_lem :
      (item : A) (ls : LinkedList A) (p : ℤ)
      → IsValid ls
      → insert p item ls ≡ inserted item ls (place (suc (length ls.head)) (length ls.head) p)
  insert_lem item ls p v =
      insert_at item ls v _ p refl ∙ ap (λ n. inserted item ls (place (suc n) n p)) v.len_is

  abbrev pub removed : LinkedList A → Option ℕ → Outcome (ℤ × LinkedList A)
  removed ls none = ok (minus_one, ls)
  removed ls (some k) =
      ok (pos 0, record { head = take k ls.head ++ drop (suc k) ls.head; len = ls.len - 1 })

  remove_at :
      (x : A) (xs : List A) (n : ℕ) (k : Option ℕ) (p : ℤ)
      → n ≡ length xs
      → suc n < 2 ^ 31
      → place (suc n) (suc n) p ≡ k
      → remove p (record { head = x ∷ xs; len = suc n })
        ≡ removed (record { head = x ∷ xs; len = suc n }) k
  unfolding remove
  remove_at x xs n none p e small h =
      rw
        (sub_one n, to_int-small n (omega arith), to_int-small (suc n) small, pos_pos_remove n p, h)
  remove_at x xs n (some k) p e small h =
      let inside : k < suc n = place_in (suc n) (suc n) p k (omega arith) h in
      rw
        (sub_one n, to_int-small n (omega arith), to_int-small (suc n) small, pos_pos_remove n p, h)
        (rw (as_index k (omega arith), unlink_behind_lem k (x ∷ xs) (omega arith)))

  remove_on :
      (xs : List A) (len : ℕ) (p : ℤ)
      → len ≡ length xs
      → len < 2 ^ 31
      → remove p (record { head = xs; len = len })
        ≡ removed (record { head = xs; len = len }) (place (length xs) (length xs) p)
  unfolding remove
  remove_on [] zero (pos k) e small = ground arith
  remove_on [] zero (negsuc k) e small = ground arith
  remove_on [] (suc n) p e small = absurd (omega arith)
  remove_on (x ∷ xs) zero p e small = absurd (omega arith)
  remove_on (x ∷ xs) (suc n) p e small =
      remove_at x xs n _ p (omega arith) small refl
      ∙ ap (λ m. removed (record { head = x ∷ xs; len = suc n }) (place m m p)) e

  -- `remove` at a position from 0 to n-1, or from -n to -1, takes out the item that it names. At every
  -- other position, and on an empty list, it returns -1 and changes nothing. The list is supposed to
  -- count its n items, and n to fit an `int`.
  pub remove_lem :
      (ls : LinkedList A) (p : ℤ)
      → IsValid ls
      → remove p ls ≡ removed ls (place (length ls.head) (length ls.head) p)
  remove_lem ls p v = remove_on ls.head ls.len p v.len_is v.in_range

  get_at :
      (x : A) (xs : List A) (n : ℕ) (k : Option ℕ) (p : ℤ)
      → n ≡ length xs
      → suc n < 2 ^ 31
      → place (suc n) (suc n) p ≡ k
      → get p (record { head = x ∷ xs; len = suc n })
        ≡ (p_to_pos (to_uint32 (answer k)) (x ∷ xs) >>= item_of)
  unfolding get
  get_at x xs n k p e small h =
      rw
        (sub_one n, to_int-small n (omega arith), to_int-small (suc n) small, pos_pos_remove n p, h)

  -- What `get` comes to, for an index or none.
  abbrev pub Got : LinkedList A → ℤ → Option ℕ → Type ℓ
  Got ls p none = get p ls ≡ (if empty ls then aborted else fault)
  Got ls p (some k) = (x : A) × (get_elem? ls.head k ≡ some x) × (get p ls ≡ ok x)

  get_in :
      (x : A) (xs : List A) (n : ℕ) (k : Option ℕ) (p : ℤ)
      → n ≡ length xs
      → suc n < 2 ^ 31
      → place (suc n) (suc n) p ≡ k
      → Got (record { head = x ∷ xs; len = suc n }) p k
  get_in x xs n none p e small h =
      get_at x xs n none p e small h
      ∙ ap (λ m. m >>= item_of) (p_to_pos_past (2 ^ 32 - 1) (x ∷ xs) (omega arith))
  get_in x xs n (some k) p e small h =
      let inside : k < suc n = place_in (suc n) (suc n) p k (omega arith) h in
      let (y, here, found) = p_to_pos_at k (x ∷ xs) (omega arith) in
      (
        y,
        here,
        get_at x xs n (some k) p e small h
            ∙ ap (λ j. p_to_pos j (x ∷ xs) >>= item_of) (as_index k (omega arith))
            ∙ found,
      )

  get_on :
      (xs : List A) (len : ℕ) (p : ℤ)
      → len ≡ length xs
      → len < 2 ^ 31
      → Got (record { head = xs; len = len }) p (place (length xs) (length xs) p)
  unfolding get
  get_on [] zero p e small =
      subst (Got (record { head = []; len = 0 }) p) (sym (none_in_empty p)) refl
  get_on [] (suc n) p e small = absurd (omega arith)
  get_on (x ∷ xs) zero p e small = absurd (omega arith)
  get_on (x ∷ xs) (suc n) p e small =
      subst (λ m. Got (record { head = x ∷ xs; len = suc n }) p (place m m p)) e
        (get_in x xs n _ p (omega arith) small refl)

  -- `get` at a position from 0 to n-1, or from -n to -1, returns the item that it names. At every other
  -- position of a list with items it follows the null pointer, and on an empty list the process exits.
  -- The list is supposed to count its n items, and n to fit an `int`.
  pub get_lem :
      (ls : LinkedList A) (p : ℤ)
      → IsValid ls
      → Got ls p (place (length ls.head) (length ls.head) p)
  get_lem ls p v = get_on ls.head ls.len p v.len_is v.in_range
