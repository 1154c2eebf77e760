-- ===== src/Ds/SkipList/Absent.antt =====
-- ds/kv_skiplist.h: a search for a key that no node of a whole list has.
use cpp_utils.Base.{
  ℕ, ◌≤◌, ◌≡◌, refl, ap, ◌∙◌, ◌⊎◌, inl, inr, arith, Bool, true, false, Option, none, some, List,
  Among, ok, ◌>>=◌,
}
use cpp_utils.Ds.SkipList.{Node, SkipList, Heap, load, next_at, find, find_pre}
use cpp_utils.Ds.SkipList.Search.{Stops}
use cpp_utils.Ds.SkipList.Complete.{IsOrder}
use cpp_utils.Ds.SkipList.Rows.{Row-successor}
use cpp_utils.Ds.SkipList.Links.{succ_at}
use cpp_utils.Ds.SkipList.Whole.{IsWhole, search-Placed, Passed-In, at_bottom}

-- The order of the keys: of two keys that are not the same one is less. `==` is an equality.
pub record IsTotal {K : Type 0} (less same : K → K → Bool) : Type 0 where
  pub order : IsOrder less same
  pub total : (x y : K) → less x y ≡ false → same x y ≡ false → less y x ≡ true
  pub same_sym : (x y : K) → same x y ≡ true → same y x ≡ true
  pub same_trans : (x y z : K) → same x y ≡ true → same y z ≡ true → same x z ≡ true

module _ {K V : Type 0} (less same : K → K → Bool) where
  -- No node of the list has the key.
  abbrev pub Absent : K → SkipList K V → (ℕ → List ℕ) → Type 0
  Absent key s rows =
      (q : ℕ) (m : Node K V) → Among q (rows 0) → load s.heap q ≡ ok m → same m.k key ≡ false

  -- What the search of a level finds behind the last node that it has passed, if the key is not there.
  abbrev pub Ends : Heap K V → ℕ → K → ℕ → Type 0
  Ends heap i key last =
      (n : Node K V) × (p : Option ℕ) × (load heap last ≡ ok n)
      × (next_at n i ≡ ok p)
      × ((p ≡ none)
          ⊎ ((q : ℕ) × (m : Node K V) × (p ≡ some q)
              × (load heap q ≡ ok m)
              × (less m.k key ≡ false)
              × (same m.k key ≡ false)))

  pub Stops-Ends :
      (i : ℕ) (key : K) (s : SkipList K V) (rows : ℕ → List ℕ) (last : ℕ)
      → IsWhole less same s rows
      → Absent key s rows
      → i ≤ s.max_level
      → (last ≡ s.head) ⊎ Among last (rows i)
      → Stops less same s.heap i key last
      → Ends s.heap i key last
  Stops-Ends i key s rows last whole absent low place (n, p, en, ep, inl end) =
      (n, p, en, ep, inl end)
  Stops-Ends i key s rows last whole absent low place
        (n, p, en, ep, inr (q, m, here, em, not_less)) =
      let e : succ_at s.heap i last ≡ ok (some q) =
        ap (λ r. r >>= λ o. next_at o i) en ∙ ep ∙ ap ok here in
      let among =
        Row-successor (succ_at s.heap i) s.head last q (rows i) (whole.linked i low) place e in
      let bottom = at_bottom less same s.heap s.head rows whole.nested whole.short i q among in
      (n, p, en, ep, inr (q, m, here, em, not_less, absent q m bottom em))

  -- `find` of a key that no node has returns the null pointer.
  pub find-Absent :
      (key : K) (s : SkipList K V) (rows : ℕ → List ℕ)
      → IsWhole less same s rows
      → Absent key s rows
      → find less same key s ≡ ok none
  unfolding find find_pre
  find-Absent key s rows whole absent =
      let (last, update, e, _, _, _, passed, stop) =
        search-Placed less same s.heap s.head rows whole.nested whole.short s.cur_level key s.head
          (λ j h. whole.linked j (omega (arith, h, whole.levels))) (inl refl) in
      let (n, p, en, ep, end) =
        Stops-Ends 0 key s rows last whole absent (omega arith)
          (Passed-In less same s.heap key s.head (rows 0) last passed) stop in
      elim end [
        | inl null ↦ rw (e, ◌>>=◌, en, ep, null)
        | inr (q, m, here, em, _, other) ↦ rw (e, ◌>>=◌, en, ep, here, em, other)
      ]
