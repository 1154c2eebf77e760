-- ===== src/Ds/SkipList/Search.antt =====
-- ds/kv_skiplist.h: what a search comes to on a well-linked list, and the deletion of a key that is
-- not there.
use cpp_utils.Base.{
  ℕ, zero, suc, ◌≤◌, ◌<◌, ◌≡◌, refl, sym, ap, ◌∙◌, ◌⊎◌, inl, inr, Bool-cases, arith, Bool, true,
  false, Option, none, some, List, [], ◌∷◌, ◌++◌, length, length-append, get_elem?, All, Outcome,
  ok, fault, ◌>>=◌, >>=-eq-ok,
}
use cpp_utils.Ds.SkipList.{
  count_down, Node, SkipList, Heap, set_at, load, next_at, walk, search, find_pre, find, shrink,
  take_out, erase,
}

pub get_elem?-some :
    {A : Type 0} (xs : List A) (i : ℕ) (a : A) → get_elem? xs i ≡ some a → i < length xs
get_elem?-some [] i a h = cc
get_elem?-some (x ∷ xs) zero a h = omega arith
get_elem?-some (x ∷ xs) (suc i) a h = omega (arith, get_elem?-some xs i a h)

pub get_elem?-set_at :
    {A : Type 0} (xs : List A) (i : ℕ) (a : A)
    → i < length xs
    → get_elem? (set_at i a xs) i ≡ some a
get_elem?-set_at [] i a h = absurd (omega arith)
get_elem?-set_at (x ∷ xs) zero a h = refl
get_elem?-set_at (x ∷ xs) (suc i) a h = get_elem?-set_at xs i a (omega arith)

module _ {K V : Type 0} where
  -- From `a` the pointers of level `i` lead through `qs` to the null pointer.
  abbrev pub Chain : Heap K V → ℕ → ℕ → List ℕ → Type 0
  Chain heap i a [] = (n : Node K V) × (load heap a ≡ ok n) × (next_at n i ≡ ok none)
  Chain heap i a (q ∷ qs) =
      ((n : Node K V) × (load heap a ≡ ok n) × (next_at n i ≡ ok (some q))) × Chain heap i q qs

  -- The list from `a` on is whole on level `i` and on all levels below, from every node of them.
  abbrev pub Linked : Heap K V → ℕ → ℕ → Type 0
  Linked heap zero a = (qs : List ℕ) × Chain heap zero a qs × (length qs ≤ length heap)
  Linked heap (suc i) a =
      (qs : List ℕ) × Chain heap (suc i) a qs
      × (length qs ≤ length heap)
      × Linked heap i a
      × All (Linked heap i) qs

  pub Chain-load :
      (heap : Heap K V) (i a : ℕ) (qs : List ℕ)
      → Chain heap i a qs
      → (n : Node K V) × (load heap a ≡ ok n)
  Chain-load heap i a [] (n, e, _) = (n, e)
  Chain-load heap i a (q ∷ qs) ((n, e, _), _) = (n, e)

  -- A deleted node cannot be read.
  pub load_deleted :
      (heap : Heap K V) (q : ℕ) (m : Node K V)
      → load heap q ≡ ok m
      → load (set_at q none heap) q ≡ fault
  unfolding load
  load_deleted heap q m e = rw (get_elem?-set_at heap q none (allocated (get_elem? heap q) refl))
    where
      allocated : (r : Option (Option (Node K V))) → get_elem? heap q ≡ r → q < length heap
      allocated none h = ground (arith, h, e)
      allocated (some r) h = get_elem?-some heap q r h

module _ {K V : Type 0} (less same : K → K → Bool) where
  -- The node `c` is the last of level `i` before the nodes whose keys are not less.
  abbrev pub Stops : Heap K V → ℕ → K → ℕ → Type 0
  Stops heap i key c =
      (n : Node K V) × (p : Option ℕ) × (load heap c ≡ ok n)
      × (next_at n i ≡ ok p)
      × ((p ≡ none)
          ⊎ ((q : ℕ) × (m : Node K V) × (p ≡ some q)
              × (load heap q ≡ ok m)
              × (less m.k key ≡ false)))

  -- What is known of a node that the loop goes on to.
  abbrev pub Entered : Heap K V → K → (ℕ → Type 0) → ℕ → Type 0
  Entered heap key P q = (m : Node K V) → load heap q ≡ ok m → less m.k key ≡ true → P q

  -- The inner loop returns, at `a` or at one of the nodes behind it that have a lesser key.
  pub walk_lem :
      (fuel : ℕ) (heap : Heap K V) (i : ℕ) (key : K) (a : ℕ) (qs : List ℕ) (P : ℕ → Type 0)
      → Chain heap i a qs
      → length qs < fuel
      → P a
      → All (Entered heap key P) qs
      → (c : ℕ) × (walk less same fuel heap i key a ≡ ok c) × P c × Stops heap i key c
  unfolding walk
  walk_lem zero heap i key a qs P chain enough here there = absurd (omega arith)
  walk_lem (suc fuel) heap i key a [] P (n, e, e') enough here there =
      (a, rw (e, ◌>>=◌, e'), here, (n, none, e, e', inl refl))
  walk_lem (suc fuel) heap i key a (q ∷ qs) P ((n, e, e'), chain) enough here (at_q, there) =
      let (m, em) = Chain-load heap i q qs chain in
      elim (Bool-cases (less m.k key)) [
        | inl further ↦
            let (c, w, at_c, stop) =
              walk_lem fuel heap i key q qs P chain (omega arith) (at_q m em further) there in
            (c, rw (e, ◌>>=◌, e', em, further) w, at_c, stop)
        | inr stop ↦
            (a, rw (e, ◌>>=◌, e', em, stop), here, (n, some q, e, e', inr (q, m, refl, em, stop)))
      ]

  All-Entered :
      (heap : Heap K V) (key : K) (P : ℕ → Type 0) (qs : List ℕ)
      → All P qs
      → All (Entered heap key P) qs
  All-Entered heap key P [] all = tt
  All-Entered heap key P (q ∷ qs) (here, all) = (λ m e less. here, All-Entered heap key P qs all)

  -- On a well-linked list the search meets no dangling pointer and no index out of range and returns,
  -- the fuel of its loops being enough: it fills `update` for every level, and ends at a node of level
  -- 0 behind which there is nothing or a key that is not less.
  pub search_lem :
      (heap : Heap K V) (i : ℕ) (key : K) (a : ℕ)
      → Linked heap i a
      → (last : ℕ) × (update : List ℕ) × (search less same heap i key a ≡ ok (last, update))
        × (length update ≡ suc i)
        × Stops heap 0 key last
  unfolding search
  search_lem heap zero key a (qs, chain, short) =
      let (c, e, _, stop) =
        walk_lem (suc (length heap)) heap 0 key a qs (λ _. Unit {0}) chain (omega arith) tt
          (All-Entered heap key (λ _. Unit {0}) qs (all_tt qs)) in
      (c, c ∷ [], rw e, refl, stop)
    where
      all_tt : (xs : List ℕ) → All (λ _. Unit {0}) xs
      all_tt [] = tt
      all_tt (x ∷ xs) = (tt, all_tt xs)
  search_lem heap (suc i) key a (qs, chain, short, here, there) =
      let (c, e, linked, _) =
        walk_lem (suc (length heap)) heap (suc i) key a qs (Linked heap i) chain (omega arith) here
          (All-Entered heap key (Linked heap i) qs there) in
      let (last, update, e', filled, stop) = search_lem heap i key c linked in
      (
        last,
        update ++ (c ∷ []),
        rw (e, ◌>>=◌, e'),
        omega (arith, length-append update (c ∷ [])),
        stop,
      )

  -- `find` on a well-linked list returns: either the null pointer, or a node that has the key.
  pub find_lem :
      (key : K) (s : SkipList K V)
      → Linked s.heap s.cur_level s.head
      → (r : Option ℕ) × (find less same key s ≡ ok r)
        × ((r ≡ none)
            ⊎ ((q : ℕ) × (m : Node K V) × (r ≡ some q)
                × (load s.heap q ≡ ok m)
                × (same m.k key ≡ true)))
  unfolding find find_pre
  find_lem key s linked =
      let (last, update, e, _, (n, p, el, en, stop)) =
        search_lem s.heap s.cur_level key s.head linked in
      elim stop [
        | inl end ↦ (none, rw (e, ◌>>=◌, el, en, end), inl refl)
        | inr (q, m, here, em, _) ↦ elim (Bool-cases (same m.k key)) [
          | inl found ↦
              (some q, rw (e, ◌>>=◌, el, en, here, em, found), inr (q, m, refl, em, found))
          | inr other ↦ (none, rw (e, ◌>>=◌, el, en, here, em, other), inl refl)
        ]
      ]

  -- The code's error: `erase` of a key that is not there deletes the node with the next key, which the
  -- node before it still points to, and counts one node less.
  pub erase_absent :
      (key : K) (s s' : SkipList K V) (last q : ℕ) (update : List ℕ) (n m : Node K V)
      → search less same s.heap s.cur_level key s.head ≡ ok (last, update)
      → load s.heap last ≡ ok n
      → next_at n 0 ≡ ok (some q)
      → load s.heap q ≡ ok m
      → same m.k key ≡ false
      → erase less same key s ≡ ok s'
      → (s'.heap ≡ set_at q none s.heap)
        × (load s'.heap q ≡ fault)
        × (s'.counts ≡ count_down s.counts)
  unfolding erase take_out
  erase_absent key s s' last q update n m e el en em other done =
      let (h, _, eh) = >>=-eq-ok (load s.heap s.head) _ (sym reduced ∙ done) in
      let (l, _, shrunk) = >>=-eq-ok (shrink h s.cur_level) _ eh in
      let heap_is : s'.heap ≡ set_at q none s.heap = ground (arith, shrunk) in
      let counts_is : s'.counts ≡ count_down s.counts = ground (arith, shrunk) in
      (heap_is, ap (λ heap. load heap q) heap_is ∙ load_deleted s.heap q m em, counts_is)
    where
      after : Node K V → Outcome (SkipList K V)
      after h = shrink h s.cur_level >>= λ l.
          ok (record s { cur_level = l; counts = count_down s.counts; heap = set_at q none s.heap })

      reduced : erase less same key s ≡ (load s.heap s.head >>= after)
      reduced = rw (e, ◌>>=◌, el, en, em, other)
