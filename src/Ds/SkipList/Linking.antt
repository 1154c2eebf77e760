-- ===== src/Ds/SkipList/Linking.antt =====
-- ds/kv_skiplist.h: the loop of `insert` that links the new node on its levels.
use cpp_utils.Base.{
  ℕ, zero, suc, ◌+◌, ◌≤◌, ◌<◌, ◌≡◌, refl, sym, subst, ◌∙◌, ◌⊎◌, inl, inr, arith, Option, some,
  some_injective, List, [], ◌∷◌, ◌++◌, replicate, take, length, get_elem?, Among, ok, ◌>>=◌,
  >>=-eq-ok,
}
use cpp_utils.Ds.SkipList.{Node, Heap, load, next_at, link}
use cpp_utils.Ds.SkipList.Rows.{
  Row, insert_after, SameAt, Row-same, Row-insert_after, Row-behind, Row-next,
}
use cpp_utils.Ds.SkipList.Links.{succ_at, Kept, Kept-trans, store_next_lem, next_at-inside}

-- `P` holds of each node of `us`, for the levels from `i` on.
abbrev pub Along : (ℕ → ℕ → Type 0) → ℕ → List ℕ → Type 0
Along P i [] = Unit
Along P i (u ∷ us) = P i u × Along P (suc i) us

module _ (P : ℕ → ℕ → Type 0) where
  pub Along-append :
      (i k : ℕ) (us vs : List ℕ)
      → k ≡ i + length us
      → Along P i us
      → Along P k vs
      → Along P i (us ++ vs)
  Along-append i k [] vs at_k here there =
      let at_i : k ≡ i = omega arith in subst (λ j. Along P j vs) at_i there
  Along-append i k (u ∷ us) vs at_k (place, here) there =
      (place, Along-append (suc i) k us vs (omega arith) here there)

  pub Along-replicate :
      (i n u : ℕ) → ((j : ℕ) → i ≤ j → j < i + n → P j u) → Along P i (replicate n u)
  Along-replicate i zero u h = tt
  Along-replicate i (suc n) u h = (
    h i (omega arith) (omega arith),
    Along-replicate (suc i) n u (λ j low high. h j (omega arith) (omega arith)),
  )

  pub Along-take : (i n : ℕ) (us : List ℕ) → Along P i us → Along P i (take n us)
  Along-take i zero us along = tt
  Along-take i (suc n) [] along = tt
  Along-take i (suc n) (u ∷ us) (place, along) = (place, Along-take (suc i) n us along)

  pub Along-at : (i j u : ℕ) (us : List ℕ) → Along P i us → get_elem? us j ≡ some u → P (i + j) u
  Along-at i j u [] along e = cc
  Along-at i zero u (v ∷ us) (place, along) e =
      let at_i : i ≡ i + zero = omega arith in
      subst (λ k. P k u) at_i (subst (P i) (some_injective v v u e) place)
  Along-at i (suc j) u (v ∷ us) (place, along) e =
      let at_j : suc i + j ≡ i + suc j = omega arith in
      subst (λ k. P k u) at_j (Along-at (suc i) j u us along e)

  pub Along-map :
      (Q : ℕ → ℕ → Type 0) (i : ℕ) (us : List ℕ)
      → ((j u : ℕ) → j < i + length us → P j u → Q j u)
      → Along P i us
      → Along Q i us
  Along-map Q i [] h along = tt
  Along-map Q i (u ∷ us) h (place, along) = (
    h i u (omega arith) place,
    Along-map Q (suc i) us (λ j v high. h j v (omega (arith, high))) along,
  )

-- Each node is the head or in the row of its level.
abbrev pub Placed : ℕ → (ℕ → List ℕ) → ℕ → List ℕ → Type 0
Placed head rows = Along (λ j u. (u ≡ head) ⊎ Among u (rows j))

module _ {K V : Type 0} (head a : ℕ) (rows : ℕ → List ℕ) where
  -- On level `j` the node `a` has come behind `u`.
  abbrev pub Threaded : Heap K V → ℕ → ℕ → Type 0
  Threaded heap j u = Row (succ_at heap j) head (insert_after a head u (rows j))

  -- The node in front of the new one can be read.
  pub place-next :
      (heap : Heap K V) (i u : ℕ)
      → Row (succ_at heap i) head (rows i)
      → (u ≡ head) ⊎ Among u (rows i)
      → (p : Option ℕ) × (succ_at heap i u ≡ ok p)
  place-next heap i u row (inl at_head) =
      let (p, e) = Row-next (succ_at heap i) head (rows i) row in
      (p, subst (λ q. succ_at heap i q ≡ ok p) (sym at_head) e)
  place-next heap i u row (inr among) =
      let (rs, row', _, _) = Row-behind (succ_at heap i) head u (rows i) row among in
      Row-next (succ_at heap i) u rs row'

  -- One level.
  link_level :
      (heap : Heap K V) (i u : ℕ) (us : List ℕ) (m : Node K V)
      → load heap a ≡ ok m
      → i < length m.next
      → (a ≡ head → ⊥)
      → (Among a (rows i) → ⊥)
      → Row (succ_at heap i) head (rows i)
      → (u ≡ head) ⊎ Among u (rows i)
      → (heap' : Heap K V) × (link heap a i (u ∷ us) ≡ link heap' a (suc i) us)
        × (length heap' ≡ length heap)
        × Kept heap heap'
        × ((j q : ℕ) → (j ≡ i → ⊥) → SameAt (succ_at heap j) (succ_at heap' j) q)
        × Threaded heap' i u
  unfolding link
  link_level heap i u us m em inside not_head new row place =
      let (p, e) = place-next heap i u row place in
      let (n, en, ep) = >>=-eq-ok (load heap u) (λ r. next_at r i) e in
      let (h, es, size, kept, now, same) = store_next_lem heap a i m p em inside in
      let (n', en', (_, _, wide)) = kept u n en in
      let (h', es', size', kept', now', same') =
        store_next_lem h u i n' (some a) en' (omega (arith, wide, next_at-inside n i p ep)) in
      let other : a ≡ u → ⊥ = λ e'. elim place [
        | inl at_head ↦ not_head (e' ∙ at_head)
        | inr among ↦ new (subst (λ q. Among q (rows i)) (sym e') among)
      ] in
      (
        h',
        rw (en, ◌>>=◌, ep, es, es'),
        size' ∙ size,
        Kept-trans heap h h' kept kept',
        (λ j q off r er. same' j q (λ w. off w.0) r (same j q (λ w. off w.0) r er)),
        Row-insert_after (succ_at heap i) (succ_at h' i) head u a (rows i) p row place
            (λ q not_u not_a r er. same' i q (λ w. not_u w.1) r (same i q (λ w. not_a w.1) r er))
            (λ e'. not_head (sym e')) new e now' (same' i a (λ w. other w.1) p now),
      )

  -- The loop returns: on each of its levels the new node stands behind the one that `us` names, and the
  -- other levels are as they were.
  pub link_lem :
      (us : List ℕ) (i : ℕ) (heap : Heap K V) (m : Node K V)
      → load heap a ≡ ok m
      → i + length us ≤ length m.next
      → (a ≡ head → ⊥)
      → ((j : ℕ) → Among a (rows j) → ⊥)
      → ((j : ℕ) → i ≤ j → j < i + length us → Row (succ_at heap j) head (rows j))
      → Placed head rows i us
      → (heap' : Heap K V) × (link heap a i us ≡ ok heap')
        × (length heap' ≡ length heap)
        × Kept heap heap'
        × ((j q : ℕ) → (j < i) ⊎ (i + length us ≤ j) → SameAt (succ_at heap j) (succ_at heap' j) q)
        × ((j u : ℕ) → get_elem? us j ≡ some u → Threaded heap' (i + j) u)
  unfolding link
  link_lem [] i heap m em inside not_head new row placed =
      (heap, refl, refl, (λ q n e. (n, e, (refl, refl, refl))), (λ j q out r e. e), λ j u e. cc)
  link_lem (u ∷ us) i heap m em inside not_head new row (place, placed) =
      let (h, el, size, kept, same, here) =
        link_level heap i u us m em (omega arith) not_head (new i)
          (row i (omega arith) (omega arith)) place in
      let (m', em', (_, _, wide)) = kept a m em in
      let on : (j : ℕ) → suc i ≤ j → j < suc i + length us → Row (succ_at h j) head (rows j) =
        λ j low high.
          let off : j ≡ i → ⊥ = λ e. omega (arith, e, low) in
          Row-same (succ_at heap j) (succ_at h j) head (rows j) (same j head off)
            (λ q _. same j q off) (row j (omega arith) (omega arith)) in
      let (h', er, size', kept', same', there) =
        link_lem us (suc i) h m' em' (omega (arith, wide)) not_head new on placed in
      let first : Threaded h' i u =
        Row-same (succ_at h i) (succ_at h' i) head (insert_after a head u (rows i))
          (same' i head (inl (omega arith))) (λ q _. same' i q (inl (omega arith))) here in
      (
        h',
        el ∙ er,
        size' ∙ size,
        Kept-trans heap h h' kept kept',
        (λ j q out r e. same' j q (further j out) r (same j q (apart j out) r e)),
        λ j v e. later h' first there j v e,
      )
    where
      further :
          (j : ℕ) → (j < i) ⊎ (i + suc (length us) ≤ j) → (j < suc i) ⊎ (suc i + length us ≤ j)
      further j (inl below) = inl (omega arith)
      further j (inr above) = inr (omega arith)

      apart : (j : ℕ) → (j < i) ⊎ (i + suc (length us) ≤ j) → j ≡ i → ⊥
      apart j (inl below) e = omega (arith, e, below)
      apart j (inr above) e = omega (arith, e, above)

      later :
          (h' : Heap K V)
          → Threaded h' i u
          → ((j v : ℕ) → get_elem? us j ≡ some v → Threaded h' (suc i + j) v)
          → (j v : ℕ) → get_elem? (u ∷ us) j ≡ some v
          → Threaded h' (i + j) v
      later h' first there zero v e =
          let at_i : i ≡ i + zero = omega arith in
          subst (λ k. Threaded h' k v) at_i (subst (Threaded h' i) (some_injective u u v e) first)
      later h' first there (suc j) v e =
          let at_j : suc i + j ≡ i + suc j = omega arith in
          subst (λ k. Threaded h' k v) at_j (there j v e)
