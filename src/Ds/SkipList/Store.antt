-- ===== src/Ds/SkipList/Store.antt =====
-- ds/kv_skiplist.h as a store of keys and values, from an empty list on.
use cpp_utils.Base.{ℕ, ◌≤◌, ◌≡◌, subst, Bool, Option, none, some, List, Among, ok, ◌>>=◌}
use cpp_utils.Ds.SkipList.{SkipList, new_skip_list, find, erase}
use cpp_utils.Ds.SkipList.Absent.{IsTotal}
use cpp_utils.Ds.SkipList.Spec.{Finds, insert_each, put_each, remove_key}
use cpp_utils.Ds.SkipList.Filled.{new_skip_list-Flat, insert_each-Flat, find-Shows}
use cpp_utils.Ds.SkipList.Emptied.{erase-Shows}

module _ {K V : Type 0} (less same : K → K → Bool) where
  -- Whatever keys and values are inserted one after the other into a new list that has a level to link
  -- on, and whatever random numbers come: all calls return, and then `find` of any key returns the null
  -- pointer if the key was not among them, and otherwise a node with the key and the value that came
  -- with it first. `<` and `==` of the keys are to be a total order.
  pub find-insert_each :
      (k : K) (v : V) (max_level : ℕ) (calls : List (ℕ × K × V))
      → IsTotal less same
      → 1 ≤ max_level
      → let f = put_each less same calls (λ _. none) in
        (s : SkipList K V) × (insert_each less same calls (new_skip_list k v max_level) ≡ ok s)
        × ((key : K)
            → (r : Option ℕ) × (find less same key s ≡ ok r) × Finds less same key s (f key) r)
  find-insert_each k v max_level calls laws some_level =
      let f = put_each less same calls (λ _. none) in
      let (s, e, (rows, whole, held, _)) =
        insert_each-Flat less same calls (new_skip_list k v max_level) (λ _. none) laws some_level
          (new_skip_list-Flat less same k v max_level) in
      (s, e, λ key. find-Shows less same key s f laws (rows, whole, held))

  -- Calls of `insert` on a new list, with any random numbers, then `erase` of one of the keys, then `find` of any key:
  -- all calls return, and `find` returns the null pointer for the erased key and for a key that was
  -- not among the inserted ones, and for each other key a node with the key and the value that came with
  -- it first. `<` and `==` of the keys are to be a total order, and the list to have a level to link on.
  pub find-erase_inserted :
      (k : K) (v : V) (max_level : ℕ) (calls : List (ℕ × K × V)) (key : K) (val : V)
      → IsTotal less same
      → 1 ≤ max_level
      → put_each less same calls (λ _. none) key ≡ some val
      → let f = remove_key less same key (put_each less same calls (λ _. none)) in
        (s : SkipList K V) × ((do
          s ← insert_each less same calls (new_skip_list k v max_level)
          erase less same key s)
          ≡ ok s)
        × ((other : K)
            → (r : Option ℕ) × (find less same other s ≡ ok r)
              × Finds less same other s (f other) r)
  find-erase_inserted k v max_level calls key val laws some_level has_value =
      let f = put_each less same calls (λ _. none) in
      let (s, e, (rows, whole, held, top)) =
        insert_each-Flat less same calls (new_skip_list k v max_level) (λ _. none) laws some_level
          (new_skip_list-Flat less same k v max_level) in
      let (s', e', (rows', whole', held', _), _, _) =
        erase-Shows less same key val s f rows laws whole held has_value
          (λ (x, _, on_top, _, _). subst (Among x) top on_top) in
      (
        s',
        rw (e, ◌>>=◌) e',
        λ other.
            find-Shows less same other s' (remove_key less same key f) laws (rows', whole', held'),
      )
