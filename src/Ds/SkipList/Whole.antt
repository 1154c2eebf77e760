-- ===== src/Ds/SkipList/Whole.antt =====
-- ds/kv_skiplist.h: a list whose levels are whole, and a search of it level by level.
use cpp_utils.Base.{
  ℕ, zero, suc, ◌≤◌, ◌<◌, ◌≡◌, refl, sym, subst, ◌⊎◌, inl, inr, arith, Bool, some, List, [], ◌∷◌,
  ◌++◌, length, length-append, get_elem?, Among, All-Among, ok, ◌>>=◌,
}
use cpp_utils.Ds.SkipList.{SkipList, Heap, walk, search}
use cpp_utils.Ds.SkipList.Search.{Stops, walk_lem}
use cpp_utils.Ds.SkipList.Complete.{LinkedIn, Sorted, Passed, Entered-Passed, All-tt}
use cpp_utils.Ds.SkipList.Rows.{Row, Row-behind}
use cpp_utils.Ds.SkipList.Links.{succ_at, Chain-Row}
use cpp_utils.Ds.SkipList.Linking.{Along, Along-append}

module _ {K V : Type 0} (less same : K → K → Bool) where
  -- On level `i` the pointers lead from the head through `rows i`; each row is part of the one below,
  -- and the keys in a row get greater. The rows above `_curLevel` are empty.
  pub record IsWhole (s : SkipList K V) (rows : ℕ → List ℕ) : Type 0 where
    pub levels : s.cur_level ≤ s.max_level
    pub linked : (i : ℕ) → i ≤ s.max_level → Row (succ_at s.heap i) s.head (rows i)
    pub nested : (i q : ℕ) → Among q (rows (suc i)) → Among q (rows i)
    pub short : (i : ℕ) → length (rows i) ≤ length s.heap
    pub ascending : (i : ℕ) → i ≤ s.max_level → Sorted less same s.heap (rows i)
    pub above : (i : ℕ) → s.cur_level < i → i ≤ s.max_level → rows i ≡ []

  -- Where a search has come to.
  pub Passed-In :
      (heap : Heap K V) (key : K) (head : ℕ) (row : List ℕ) (a : ℕ)
      → Passed less same heap key head row a
      → (a ≡ head) ⊎ Among a row
  Passed-In heap key head row a (inl at_head) = inl at_head
  Passed-In heap key head row a (inr (among, _)) = inr among

first_stays :
    (update : List ℕ) (last c : ℕ)
    → get_elem? update 0 ≡ some last
    → get_elem? (update ++ (c ∷ [])) 0 ≡ some last
first_stays [] last c e = cc
first_stays (u ∷ update) last c e = e

module _ {K V : Type 0} (less same : K → K → Bool) (heap : Heap K V) (head : ℕ) (rows : ℕ → List ℕ)
    (nested : (i q : ℕ) → Among q (rows (suc i)) → Among q (rows i))
    (short : (i : ℕ) → length (rows i) ≤ length heap) where
  suffix_from :
      (i a : ℕ)
      → Row (succ_at heap i) head (rows i)
      → (a ≡ head) ⊎ Among a (rows i)
      → (qs : List ℕ) × Row (succ_at heap i) a qs
        × (length qs ≤ length heap)
        × ((q : ℕ) → Among q qs → Among q (rows i))
  suffix_from i a row (inl at_head) =
      (rows i, subst (λ q. Row (succ_at heap i) q (rows i)) (sym at_head) row, short i, λ q h. h)
  suffix_from i a row (inr among) =
      let (qs, row', shorter, inside) = Row-behind (succ_at heap i) head a (rows i) row among in
      (qs, row', omega (arith, shorter, short i), inside)

  down : (i a : ℕ) → (a ≡ head) ⊎ Among a (rows (suc i)) → (a ≡ head) ⊎ Among a (rows i)
  down i a (inl at_head) = inl at_head
  down i a (inr among) = inr (nested i a among)

  lower :
      (i : ℕ) (key : K) (a : ℕ)
      → Passed less same heap key head (rows (suc i)) a
      → Passed less same heap key head (rows i) a
  lower i key a (inl at_head) = inl at_head
  lower i key a (inr (among, known)) = inr (nested i a among, known)

  pub at_bottom : (i q : ℕ) → Among q (rows i) → Among q (rows 0)
  at_bottom zero q among = among
  at_bottom (suc i) q among = at_bottom i q (nested i q among)

  -- The list is whole from every node of a row.
  pub rows-LinkedIn :
      (i a : ℕ)
      → ((j : ℕ) → j ≤ i → Row (succ_at heap j) head (rows j))
      → (a ≡ head) ⊎ Among a (rows i)
      → LinkedIn less same heap (rows 0) i a
  rows-LinkedIn zero a row place =
      let (qs, row', small, inside) = suffix_from 0 a (row 0 (omega arith)) place in
      (qs, Chain-Row heap 0 a qs row', small, All-Among _ qs inside)
  rows-LinkedIn (suc i) a row place =
      let (qs, row', small, inside) = suffix_from (suc i) a (row (suc i) (omega arith)) place in
      let below : (j : ℕ) → j ≤ i → Row (succ_at heap j) head (rows j) =
        λ j h. row j (omega arith) in
      (
        qs,
        Chain-Row heap (suc i) a qs row',
        small,
        All-Among _ qs (λ q among. at_bottom (suc i) q (inside q among)),
        rows-LinkedIn i a below (down i a place),
        All-Among _ qs (λ q among. rows-LinkedIn i q below (inr (nested i q (inside q among)))),
      )

  -- The inner loop on level `i`.
  walk-Row :
      (i : ℕ) (key : K) (a : ℕ)
      → Row (succ_at heap i) head (rows i)
      → Passed less same heap key head (rows i) a
      → (c : ℕ) × (walk less same (suc (length heap)) heap i key a ≡ ok c)
        × Passed less same heap key head (rows i) c
        × Stops less same heap i key c
  walk-Row i key a row passed =
      let (qs, row', small, inside) =
        suffix_from i a row (Passed-In less same heap key head (rows i) a passed) in
      let (c, e, (_, passed'), stop) =
        walk_lem less same (suc (length heap)) heap i key a qs
          (λ q. Unit {0} × Passed less same heap key head (rows i) q) (Chain-Row heap i a qs row')
          (omega arith) (tt, passed)
          (Entered-Passed less same heap key head (rows i) (λ _. Unit {0}) qs
            (All-Among _ qs inside) (All-tt qs)) in
      (c, e, passed', stop)

  -- Where the search of a level ends.
  abbrev pub Reached : K → ℕ → ℕ → Type 0
  Reached key j u = Passed less same heap key head (rows j) u × Stops less same heap j key u

  -- The search: `update` names for each level the last node with a lesser key, or the head.
  pub search-Placed :
      (i : ℕ) (key : K) (a : ℕ)
      → ((j : ℕ) → j ≤ i → Row (succ_at heap j) head (rows j))
      → Passed less same heap key head (rows i) a
      → (last : ℕ) × (update : List ℕ) × (search less same heap i key a ≡ ok (last, update))
        × (length update ≡ suc i)
        × (get_elem? update 0 ≡ some last)
        × Along (Reached key) 0 update
        × Passed less same heap key head (rows 0) last
        × Stops less same heap 0 key last
  unfolding search
  search-Placed zero key a row passed =
      let (c, e, passed', stop) = walk-Row 0 key a (row 0 (omega arith)) passed in
      (c, c ∷ [], rw e, refl, refl, ((passed', stop), tt), passed', stop)
  search-Placed (suc i) key a row passed =
      let (c, e, passed', stop') = walk-Row (suc i) key a (row (suc i) (omega arith)) passed in
      let (last, update, e', filled, first, placed, passed'', stop) =
        search-Placed i key c (λ j h. row j (omega arith)) (lower i key c passed') in
      (
        last,
        update ++ (c ∷ []),
        rw (e, ◌>>=◌, e'),
        omega (arith, length-append update (c ∷ []), filled),
        first_stays update last c first,
        Along-append (Reached key) 0 (suc i) update (c ∷ []) (omega (arith, filled)) placed
            ((passed', stop'), tt),
        passed'',
        stop,
      )
