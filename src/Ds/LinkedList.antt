-- ===== src/Ds/LinkedList.antt =====
-- The class `List` of ds/list.h: a singly linked list with a length, and positions that may count
-- from the end.
pub mod Positions
pub mod Counted
use cpp_utils.Base.{
  ℕ, zero, suc, ◌+◌, ◌-◌, ◌%◌, ◌^◌, Bool, true, false, ◌||◌, List, [], ◌∷◌, if◌then◌else◌, Outcome,
  ok, fault, aborted, ◌>>=◌, ◌==◌,
}
use cpp_utils.Base.Int.{ℤ, pos, negsuc, ◌+ℤ◌, ◌-ℤ◌, ltb_ℤ}
use cpp_utils.Serialize.ZigZag.{signed}

-- A pointer to an `Item` is the list of the items from it on: `[]` is the null pointer.
pub record LinkedList {ℓ} (A : Type ℓ) : Type ℓ where
  pub head : List A
  pub len : ℕ

-- The conversions of `size_t` to `int`, and of `int` to `uint32`.
abbrev pub to_int : ℕ → ℤ
to_int n = signed 32 (n % 2 ^ 32)

abbrev pub to_uint32 : ℤ → ℕ
to_uint32 (pos n) = n % 2 ^ 32
to_uint32 (negsuc n) = (2 ^ 32 - 1 - n % 2 ^ 32) % 2 ^ 32

abbrev pub minus_one : ℤ
minus_one = negsuc 0

abbrev pub is_minus_one : ℤ → Bool
is_minus_one (pos n) = false
is_minus_one (negsuc n) = n == 0

abbrev pub is_zero : ℤ → Bool
is_zero (pos n) = n == 0
is_zero (negsuc n) = false

-- `posPos(len, real_len, pos)`
unfoldable pub pos_pos : ℤ → ℤ → ℤ → ℤ
pos_pos len real_len p =
    let neg = pos 0 -ℤ len -ℤ pos 1 in
    if ltb_ℤ p neg || ltb_ℤ len p then minus_one else (if ltb_ℤ p (pos 0) then p +ℤ real_len else p)

module _ {ℓ} {A : Type ℓ} where
  abbrev pub new_list : LinkedList A
  new_list = record { head = []; len = 0 }

  abbrev pub empty : LinkedList A → Bool
  empty ls = elim ls.head [ [] ↦ ls.len == 0 | x ∷ xs ↦ false ]

  -- `pToPos(pos)`: a step from the null pointer is undefined.
  unfoldable pub p_to_pos : ℕ → List A → Outcome (List A)
  p_to_pos zero p = ok p
  p_to_pos (suc n) [] = fault
  p_to_pos (suc n) (x ∷ next) = p_to_pos n next

  -- A new item behind the one that is `n` steps from the pointer.
  unfoldable pub link_behind : ℕ → A → List A → Outcome (List A)
  link_behind n item [] = fault
  link_behind zero item (x ∷ next) = ok (x ∷ item ∷ next)
  link_behind (suc n) item (x ∷ next) = link_behind n item next >>= λ next'. ok (x ∷ next')

  -- The item behind the one that is `n` steps from the local `itm` is taken out; `itm` stands before
  -- the list.
  unfoldable pub unlink_behind : ℕ → List A → Outcome (List A)
  unlink_behind n [] = fault
  unlink_behind zero (r ∷ next) = ok next
  unlink_behind (suc n) (x ∷ next) = unlink_behind n next >>= λ next'. ok (x ∷ next')

  -- `insert(pos, data)`
  unfoldable pub insert : ℤ → A → LinkedList A → Outcome (ℤ × LinkedList A)
  unfolding pos_pos link_behind
  insert p item ls =
      let pospos = pos_pos (to_int ls.len) (to_int ls.len) p in
      if is_minus_one pospos
      then ok (minus_one, ls)
      else if is_zero pospos
      then ok (pos 0, record { head = item ∷ ls.head; len = suc ls.len })
      else link_behind (to_uint32 (pospos -ℤ pos 1)) item ls.head >>= λ head.
          ok (pos 0, record { head = head; len = suc ls.len })

  -- `insertTail(data)`
  unfoldable pub insert_tail : A → LinkedList A → Outcome (ℤ × LinkedList A)
  unfolding insert
  insert_tail item ls = insert (to_int ls.len) item ls

  -- `remove(pos)`
  unfoldable pub remove : ℤ → LinkedList A → Outcome (ℤ × LinkedList A)
  unfolding pos_pos unlink_behind
  remove p ls =
      if empty ls
      then ok (minus_one, ls)
      else (let pospos = pos_pos (to_int (ls.len - 1)) (to_int ls.len) p in
          if is_minus_one pospos
          then ok (minus_one, ls)
          else unlink_behind (to_uint32 pospos) ls.head >>= λ head.
              ok (pos 0, record { head = head; len = ls.len - 1 }))

  abbrev item_of : List A → Outcome A
  item_of [] = fault
  item_of (x ∷ next) = ok x

  -- `get(pos)`: what `posPos` returns is not tested.
  unfoldable pub get : ℤ → LinkedList A → Outcome A
  unfolding pos_pos p_to_pos
  get p ls =
      if empty ls
      then aborted
      else p_to_pos (to_uint32 (pos_pos (to_int (ls.len - 1)) (to_int ls.len) p)) ls.head
        >>= item_of
