-- ===== src/Ds/SkipList.antt =====
-- The class `SkipList` of ds/kv_skiplist.h on an explicit heap: a pointer is the place of a node in
-- the heap, or nothing, and the place of a deleted node is empty.
pub mod Rows
pub mod Links
pub mod Linking
pub mod Whole
pub mod NewRows
pub mod NewNode
pub mod Absent
pub mod Display
pub mod Dropped
pub mod Unlinking
pub mod Removed
pub mod Found
pub mod Erase
pub mod Between
pub mod Inserted
pub mod Insert
pub mod Counts
pub mod Spec
pub mod Filled
pub mod Emptied
pub mod Store
pub mod Ascending
pub mod Search
pub mod Complete
mod Examples
use cpp_utils.Base.{
  ℕ, zero, suc, ◌+◌, ◌-◌, Bool, true, false, Option, none, some, List, [], ◌∷◌, ◌++◌, length,
  get_elem?, replicate, take, drop, ltb, ◌==◌, if◌then◌else◌, Outcome, ok, fault, out_of_fuel,
  ◌>>=◌,
}
use cpp_utils.Base.Int.{ℤ, pos, ◌+ℤ◌, ◌-ℤ◌}
use cpp_utils.Ds.LinkedList.{to_int, to_uint32}

pub record Node (K V : Type 0) : Type 0 where
  pub k : K
  pub v : V
  pub next : List (Option ℕ)
  pub level : ℕ

pub record SkipList (K V : Type 0) : Type 0 where
  pub max_level : ℕ
  pub cur_level : ℕ
  pub head : ℕ
  pub counts : ℤ
  pub heap : List (Option (Node K V))

-- `++_counts` and `--_counts` of an `int`. An overflow is undefined in C++; here the number comes around
-- then, as it does on machines.
unfoldable pub count_up : ℤ → ℤ
count_up n = to_int (to_uint32 (n +ℤ pos 1))

unfoldable pub count_down : ℤ → ℤ
count_down n = to_int (to_uint32 (n -ℤ pos 1))

-- The element at a place, replaced.
abbrev pub set_at {ℓ} : {A : Type ℓ} → ℕ → A → List A → List A
set_at i a xs = take i xs ++ (a ∷ drop (suc i) xs)

-- A read through a pointer to a node that is not there is undefined, and so is one outside an array.
abbrev pub slot {ℓ} : {A : Type ℓ} → Option A → Outcome A
slot none = fault
slot (some a) = ok a

-- `getRandomLevel()`, where `odds` is how many odd numbers `rand` gives before the first even one.
unfoldable pub get_random_level : ℕ → ℕ → ℕ
get_random_level max_level odds = if ltb (suc odds) max_level then suc odds else max_level

abbrev pub Heap : Type 0 → Type 0 → Type 0
Heap K V = List (Option (Node K V))

module _ {K V : Type 0} where
  unfoldable pub load : Heap K V → ℕ → Outcome (Node K V)
  load heap a = slot (get_elem? heap a) >>= slot

  abbrev pub next_at : Node K V → ℕ → Outcome (Option ℕ)
  next_at n i = slot (get_elem? n.next i)

  -- `a->next[i] = p`
  unfoldable pub store_next : Heap K V → ℕ → ℕ → Option ℕ → Outcome (Heap K V)
  unfolding load
  store_next heap a i p = do
    n ← load heap a
    old ← next_at n i
    ok (set_at a (some (record n { next = set_at i p n.next })) heap)

  -- `createNode(key, val, level)`: the node goes to the end of the heap.
  abbrev pub create_node : K → V → ℕ → Node K V
  create_node key val level = record {
    k = key;
    v = val;
    next = replicate (suc level) none;
    level = level;
  }

  -- `SkipList(maxLevel)`; `k` and `v` are the values of the uninitialised key and value of the head.
  abbrev pub new_skip_list : K → V → ℕ → SkipList K V
  new_skip_list k v max_level = record {
    max_level = max_level;
    cur_level = 0;
    head = 0;
    counts = pos 0;
    heap = some (create_node k v max_level) ∷ [];
  }

  -- The loop of `insert` that links the node `a`, on the levels from `i` on.
  unfoldable pub link : Heap K V → ℕ → ℕ → List ℕ → Outcome (Heap K V)
  unfolding load store_next
  link heap a i [] = ok heap
  link heap a i (u ∷ update) = do
    n ← load heap u
    p ← next_at n i
    heap' ← store_next heap a i p
    heap'' ← store_next heap' u i (some a)
    link heap'' a (suc i) update

  -- `update` with `_head` on the levels above `_curLevel`, cut down to those of the new node.
  abbrev pub update_to : ℕ → SkipList K V → List ℕ → List ℕ
  update_to level s update = take level (update ++ replicate (level - suc s.cur_level) s.head)

  -- The loop of `erase` over the levels below `_curLevel`, of which `count` are left from `i` on.
  unfoldable pub unlink : Heap K V → ℕ → ℕ → ℕ → List ℕ → Outcome (Heap K V)
  unfolding load store_next
  unlink heap current i zero update = ok heap
  unlink heap current i (suc count) [] = fault
  unlink heap current i (suc count) (u ∷ update) = do
    n ← load heap u
    p ← next_at n i
    elim p [
      | none ↦ ok heap
      | some q ↦ elim (q == current) [
        | false ↦ ok heap
        | true ↦ do
          m ← load heap current
          r ← next_at m i
          heap' ← store_next heap u i r
          unlink heap' current (suc i) count update
      ]
    ]

  -- `while (_curLevel > 0 && _head->next[_curLevel] == NULL)`
  unfoldable pub shrink : Node K V → ℕ → Outcome ℕ
  shrink head zero = ok zero
  shrink head (suc l) = do
    p ← next_at head (suc l)
    elim p [ none ↦ shrink head l | some q ↦ ok (suc l) ]

  -- `delete current`
  abbrev pub delete : Heap K V → Option ℕ → Heap K V
  delete heap none = heap
  delete heap (some q) = set_at q none heap

-- The orders of the keys: `<` and `==`.
module _ {K V : Type 0} (less same : K → K → Bool) where
  -- The inner loop of the search: along level `i`, as long as the next key is less.
  unfoldable pub walk : ℕ → Heap K V → ℕ → K → ℕ → Outcome ℕ
  unfolding load
  walk zero heap i key current = out_of_fuel
  walk (suc fuel) heap i key current = do
    n ← load heap current
    p ← next_at n i
    elim p [
      | none ↦ ok current
      | some q ↦ do
        m ← load heap q
        elim (less m.k key) [ true ↦ walk fuel heap i key q | false ↦ ok current ]
    ]

  -- The outer loop, from level `i` down: the last node, and `update[0]` to `update[i]`. A level has
  -- no more nodes than the heap.
  unfoldable pub search : Heap K V → ℕ → K → ℕ → Outcome (ℕ × List ℕ)
  unfolding walk
  search heap zero key current = do c ← walk (suc (length heap)) heap 0 key current; ok (c, c ∷ [])
  search heap (suc i) key current = do
    c ← walk (suc (length heap)) heap (suc i) key current
    (last, update) ← search heap i key c
    ok (last, update ++ (c ∷ []))

  -- `findPre(key)`
  unfoldable pub find_pre : K → SkipList K V → Outcome ℕ
  unfolding search
  find_pre key s = do (last, update) ← search s.heap s.cur_level key s.head; ok last

  abbrev has_key : K → Heap K V → Option ℕ → Outcome Bool
  has_key key heap none = ok false
  has_key key heap (some q) = load heap q >>= λ m. ok (same m.k key)

  -- `find(key)`
  unfoldable pub find : K → SkipList K V → Outcome (Option ℕ)
  unfolding find_pre load
  find key s = do
    last ← find_pre key s
    n ← load s.heap last
    pre ← next_at n 0
    here ← has_key key s.heap pre
    ok (if here then pre else none)

  -- `insert(key, val)`
  unfoldable pub insert : ℕ → K → V → SkipList K V → Outcome (ℕ × SkipList K V)
  unfolding search load get_random_level link
  insert odds key val s = do
    (last, update) ← search s.heap s.cur_level key s.head
    n ← load s.heap last
    current ← next_at n 0
    exists ← has_key key s.heap current
    let level = get_random_level s.max_level odds
    let a = length s.heap
    let linked =
        link (s.heap ++ (some (create_node key val level) ∷ [])) a 0 (update_to level s update)
    if exists
        then ok (1, s)
        else (linked >>= λ heap. ok (
          0,
          record s {
            cur_level = if ltb s.cur_level level then level else s.cur_level;
            counts = count_up s.counts;
            heap = heap;
          },
        ))

  -- What `erase` does to the links of the node behind the last one that the search has passed.
  unfoldable pub take_out : K → SkipList K V → Option ℕ → List ℕ → Outcome (Heap K V)
  unfolding unlink
  take_out key s none update = ok s.heap
  take_out key s (some q) update = do
    m ← load s.heap q
    elim (same m.k key) [ true ↦ unlink s.heap q 0 s.cur_level update | false ↦ ok s.heap ]

  -- `erase(key)`
  unfoldable pub erase : K → SkipList K V → Outcome (SkipList K V)
  unfolding search load take_out shrink
  erase key s = do
    (last, update) ← search s.heap s.cur_level key s.head
    n ← load s.heap last
    current ← next_at n 0
    heap ← take_out key s current update
    head ← load heap s.head
    cur_level ← shrink head s.cur_level
    ok (record s {
      cur_level = cur_level;
      counts = count_down s.counts;
      heap = delete heap current;
    })
