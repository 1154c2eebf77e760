-- ===== src/Ds/SkipList/Complete.antt =====
-- ds/kv_skiplist.h: `find` finds every key of a sorted list.
use cpp_utils.Base.{
  ℕ, zero, suc, ◌≤◌, ◌≡◌, refl, sym, ap, subst, ◌∙◌, ◌⊎◌, inl, inr, Bool, true, false, some,
  some_injective, List, [], ◌∷◌, ◌++◌, length, All, Among, Among-All, arith, ok, ok_injective,
  ◌>>=◌,
}
use cpp_utils.Ds.SkipList.{Node, SkipList, Heap, load, next_at, search, find_pre, find, insert}
use cpp_utils.Ds.SkipList.Search.{Chain, Chain-load, Stops, Entered, walk_lem}

-- The laws of the order of the keys, as `<` and `==` of the key type.
pub record IsOrder {K : Type 0} (less same : K → K → Bool) : Type 0 where
  pub trans : (x y z : K) → less x y ≡ true → less y z ≡ true → less x z ≡ true
  pub irrefl : (x y : K) → same x y ≡ true → less x y ≡ false
  pub respects : (x y z : K) → less x y ≡ true → same y z ≡ true → less x z ≡ true

pub All-tt : (xs : List ℕ) → All (λ _. Unit {0}) xs
All-tt [] = tt
All-tt (x ∷ xs) = (tt, All-tt xs)

module _ {K V : Type 0} (less same : K → K → Bool) where
  -- The list from `a` on is whole on level `i` and below, and the upper levels lead to nodes of `base`.
  abbrev pub LinkedIn : Heap K V → List ℕ → ℕ → ℕ → Type 0
  LinkedIn heap base zero a =
      (qs : List ℕ) × Chain heap 0 a qs × (length qs ≤ length heap) × All (λ q. Among q base) qs
  LinkedIn heap base (suc i) a =
      (qs : List ℕ) × Chain heap (suc i) a qs
      × (length qs ≤ length heap)
      × All (λ q. Among q base) qs
      × LinkedIn heap base i a
      × All (LinkedIn heap base i) qs

  -- The keys of the nodes get greater.
  abbrev pub Before : Heap K V → ℕ → ℕ → Type 0
  Before heap q r =
      (m m' : Node K V) → load heap q ≡ ok m → load heap r ≡ ok m' → less m.k m'.k ≡ true

  abbrev pub Sorted : Heap K V → List ℕ → Type 0
  Sorted heap [] = Unit
  Sorted heap (q ∷ qs) = All (Before heap q) qs × Sorted heap qs

  -- A search comes to the head, or to a node with a lesser key.
  abbrev pub Passed : Heap K V → K → ℕ → List ℕ → ℕ → Type 0
  Passed heap key head base c =
      (c ≡ head) ⊎ (Among c base × ((m : Node K V) × (load heap c ≡ ok m) × (less m.k key ≡ true)))

  pub Entered-Passed :
      (heap : Heap K V) (key : K) (head : ℕ) (base : List ℕ) (P : ℕ → Type 0) (qs : List ℕ)
      → All (λ q. Among q base) qs
      → All P qs
      → All (Entered less same heap key (λ q. P q × Passed heap key head base q)) qs
  Entered-Passed heap key head base P [] inside all = tt
  Entered-Passed heap key head base P (q ∷ qs) (at_q, inside) (here, all) = (
    λ m e lesser. (here, inr (at_q, (m, e, lesser))),
    Entered-Passed heap key head base P qs inside all,
  )

  -- The search returns, at the head or at a node with a lesser key.
  search-Passed :
      (heap : Heap K V) (key : K) (head : ℕ) (base : List ℕ) (i a : ℕ)
      → LinkedIn heap base i a
      → Passed heap key head base a
      → (last : ℕ) × (update : List ℕ) × (search less same heap i key a ≡ ok (last, update))
        × Passed heap key head base last
        × Stops less same heap 0 key last
  unfolding search
  search-Passed heap key head base zero a (qs, chain, short, inside) passed =
      let (c, e, (_, passed'), stop) =
        walk_lem less same (suc (length heap)) heap 0 key a qs
          (λ q. Unit {0} × Passed heap key head base q) chain (omega arith) (tt, passed)
          (Entered-Passed heap key head base (λ _. Unit {0}) qs inside (All-tt qs)) in
      (c, c ∷ [], rw e, passed', stop)
  search-Passed heap key head base (suc i) a (qs, chain, short, inside, here, there) passed =
      let (c, e, (linked, passed'), _) =
        walk_lem less same (suc (length heap)) heap (suc i) key a qs
          (λ q. LinkedIn heap base i q × Passed heap key head base q) chain (omega arith)
          (here, passed)
          (Entered-Passed heap key head base (LinkedIn heap base i) qs inside there) in
      let (last, update, e', passed'', stop) =
        search-Passed heap key head base i c linked passed' in
      (last, update ++ (c ∷ []), rw (e, ◌>>=◌, e'), passed'', stop)

-- A node of the first level behind which the search stopped is followed by the node with the key.
module _ {K V : Type 0} (less same : K → K → Bool) (order : IsOrder less same) (heap : Heap K V)
    (key : K) (x : ℕ) (mx : Node K V) (at_x : load heap x ≡ ok mx)
    (has : same mx.k key ≡ true) where
  -- A node before the one with the key has a lesser key.
  lesser_key :
      (q : ℕ) (m : Node K V) → load heap q ≡ ok m → Before less same heap q x → less m.k key ≡ true
  lesser_key q m e before = order.respects m.k mx.k key (before m mx e at_x) has

  -- The node with the key has no lesser one.
  not_lesser : (m : Node K V) → load heap x ≡ ok m → less m.k key ≡ true → ⊥
  not_lesser m e lesser =
      let same_node : m ≡ mx = ok_injective m m mx (sym e ∙ at_x) in
      cc (lesser, ap (λ (n : Node K V). less n.k key) same_node, order.irrefl mx.k key has)

  -- It comes behind those with lesser keys.
  no_lesser_behind :
      (q : ℕ) (m : Node K V)
      → load heap q ≡ ok m
      → less m.k key ≡ true
      → Before less same heap x q
      → ⊥
  no_lesser_behind q m e lesser before =
      let up = order.trans mx.k m.k key (before mx m at_x e) lesser in
      cc (up, order.irrefl mx.k key has)

  clash :
      (m m' : Node K V) (q : ℕ)
      → load heap q ≡ ok m
      → load heap q ≡ ok m'
      → less m.k key ≡ false
      → less m'.k key ≡ true
      → ⊥
  clash m m' q e e' not_less is_less =
      let same_node : m ≡ m' = ok_injective m m m' (sym e ∙ e') in
      cc (not_less, is_less, ap (λ (n : Node K V). less n.k key) same_node)

  -- The search stopped since the next key is not less.
  Stops-next :
      (i c q : ℕ) (n : Node K V)
      → load heap c ≡ ok n
      → next_at n i ≡ ok (some q)
      → Stops less same heap i key c
      → (m : Node K V) × (load heap q ≡ ok m) × (less m.k key ≡ false)
  Stops-next i c q n en en' (n', p, el, ep, stop) =
      let same_node : n' ≡ n = ok_injective n n' n (sym el ∙ en) in
      let same_next : p ≡ some q =
        ok_injective p p (some q) (sym ep ∙ ap (λ (k : Node K V). next_at k i) same_node ∙ en') in
      elim stop [
        | inl end ↦ cc (same_next, end)
        | inr (q', m, here, em, not_less) ↦
            let e : q' ≡ q = some_injective q q' q (sym here ∙ same_next) in
            (m, ap (load heap) (sym e) ∙ em, not_less)
      ]

  pub next_is :
      (i a : ℕ) (base : List ℕ) (last : ℕ)
      → Chain heap i a base
      → Sorted less same heap base
      → Among x base
      → Passed less same heap key a base last
      → Stops less same heap i key last
      → (n : Node K V) × (load heap last ≡ ok n) × (next_at n i ≡ ok (some x))
  next_is i a [] last chain sorted among passed stop = absurd among
  next_is i a (q ∷ base) last ((n, en, en'), chain) (first, sorted) (inl e) (inl at_a) stop =
      (n, ap (load heap) at_a ∙ en, en' ∙ ap (λ r. ok (some r)) (sym e))
  next_is i a (q ∷ base) last ((n, en, en'), chain) (first, sorted) (inr among) (inl at_a) stop =
      let (mq, emq) = Chain-load heap i q base chain in
      let lesser = lesser_key q mq emq (Among-All _ x base among first) in
      let (m, em, not_less) = Stops-next i last q n (ap (load heap) at_a ∙ en) en' stop in
      absurd (clash m mq q em emq not_less lesser)
  next_is i a (q ∷ base) last (_, chain) (first, sorted) (inl e) (inr (inl at_q, (m, em, lesser)))
        stop =
      absurd (not_lesser m (ap (load heap) (e ∙ sym at_q) ∙ em) lesser)
  next_is i a (q ∷ base) last (_, chain) (first, sorted) (inr among) (inr (inl at_q, _)) stop =
      next_is i q base last chain sorted among (inl at_q) stop
  next_is i a (q ∷ base) last (_, chain) (first, sorted) (inl e) (inr (inr later, (m, em, lesser)))
        stop =
      absurd (
        no_lesser_behind last m em lesser
          (subst (λ y. Before less same heap y last) (sym e) (Among-All _ last base later first)))
  next_is i a (q ∷ base) last (_, chain) (first, sorted) (inr among) (inr (inr later, there)) stop =
      next_is i q base last chain sorted among (inr (later, there)) stop

-- `find` of a key that a node of the list has returns that node, and `insert` of that key returns 1 and
-- changes nothing, if the first level is whole and its keys get greater, the upper levels are whole
-- and lead to nodes of the first one, and `<` and `==` of the keys are an order.
pub find_complete :
    {K V : Type 0} (less same : K → K → Bool) (key : K) (s : SkipList K V) (base : List ℕ) (x : ℕ)
    (mx : Node K V)
    → IsOrder less same
    → LinkedIn less same s.heap base s.cur_level s.head
    → Chain s.heap 0 s.head base
    → Sorted less same s.heap base
    → Among x base
    → load s.heap x ≡ ok mx
    → same mx.k key ≡ true
    → (find less same key s ≡ ok (some x))
      × ((odds : ℕ) (val : V) → insert less same odds key val s ≡ ok (1, s))
unfolding find find_pre insert
find_complete less same key s base x mx order linked chain sorted among at_x has =
    let (last, update, e, passed, stop) =
      search-Passed less same s.heap key s.head base s.cur_level s.head linked (inl refl) in
    let (n, en, en') =
      next_is less same order s.heap key x mx at_x has 0 s.head base last chain sorted among passed
        stop in
    (rw (e, ◌>>=◌, en, en', at_x, has), λ odds val. rw (e, ◌>>=◌, en, en', at_x, has))
