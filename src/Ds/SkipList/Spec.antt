-- ===== src/Ds/SkipList/Spec.antt =====
-- ds/kv_skiplist.h as a store: a list represents a function from keys to values, which `insert` changes
-- at a key that has no value, from which `erase` takes a value, and which `find` reads.
use cpp_utils.Base.{
  ℕ, ◌≡◌, Bool, true, Option, none, some, List, [], ◌∷◌, if◌then◌else◌, Among, Outcome, ok, ◌>>=◌,
}
use cpp_utils.Base.Int.{pos, ◌+ℤ◌}
use cpp_utils.Ds.SkipList.{Node, SkipList, load, insert}
use cpp_utils.Ds.SkipList.Whole.{IsWhole}
use cpp_utils.Ds.SkipList.Counts.{Counted}
use cpp_utils.Ds.SkipList.Absent.{Absent}

module _ {K V : Type 0} (less same : K → K → Bool) where
  -- What the function says of the key is what the lowest level holds.
  abbrev pub Held : K → SkipList K V → (ℕ → List ℕ) → Option V → Type 0
  Held key s rows none = Absent less same key s rows
  Held key s rows (some val) =
      (x : ℕ) × (m : Node K V) × Among x (rows 0)
      × (load s.heap x ≡ ok m)
      × (same m.k key ≡ true)
      × (m.v ≡ val)

  abbrev pub Shows : SkipList K V → (K → Option V) → Type 0
  Shows s f = (rows : ℕ → List ℕ) × IsWhole less same s rows × ((key : K) → Held key s rows (f key))

  -- The same, where `_counts` is the number of the nodes.
  abbrev pub Represents : SkipList K V → (K → Option V) → Type 0
  Represents s f =
      (rows : ℕ → List ℕ) × IsWhole less same s rows
      × ((key : K) → Held key s rows (f key))
      × Counted s rows

  -- The same of a list whose top level is empty, as `insert` leaves it.
  abbrev pub Flat : SkipList K V → (K → Option V) → Type 0
  Flat s f =
      (rows : ℕ → List ℕ) × IsWhole less same s rows
      × ((key : K) → Held key s rows (f key))
      × (rows s.cur_level ≡ [])

  -- The function with a value for a key that has none.
  abbrev pub put_at : Option V → Bool → V → Option V → Option V
  put_at none same_key val old = if same_key then some val else old
  put_at (some _) same_key val old = old

  abbrev pub put_new : K → V → (K → Option V) → K → Option V
  put_new key val f k = put_at (f key) (same key k) val (f k)

  -- A node that has the key and the value, or the null pointer.
  abbrev pub Finds : K → SkipList K V → Option V → Option ℕ → Type 0
  Finds key s none r = r ≡ none
  Finds key s (some val) r =
      (x : ℕ) × (m : Node K V) × (r ≡ some x)
      × (load s.heap x ≡ ok m)
      × (same m.k key ≡ true)
      × (m.v ≡ val)

  -- What `insert` returns, and by how much the list has grown.
  abbrev pub Grown : Option V → ℕ → SkipList K V → SkipList K V → Type 0
  Grown none r s s' = (r ≡ 0) × (s'.counts ≡ s.counts +ℤ pos 1)
  Grown (some _) r s s' = (r ≡ 1) × (s' ≡ s)

  -- The function without a value for a key.
  abbrev pub remove_key : K → (K → Option V) → K → Option V
  remove_key key f k = if same key k then none else f k

  -- Calls of `insert`, each with its random number, one after the other.
  abbrev pub insert_each : List (ℕ × K × V) → SkipList K V → Outcome (SkipList K V)
  insert_each [] s = ok s
  insert_each ((odds, key, val) ∷ calls) s =
      insert less same odds key val s >>= λ (_, s'). insert_each calls s'

  abbrev pub put_each : List (ℕ × K × V) → (K → Option V) → K → Option V
  put_each [] f = f
  put_each ((_, key, val) ∷ calls) f = put_each calls (put_new key val f)
