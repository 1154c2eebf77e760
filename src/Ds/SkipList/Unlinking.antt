-- ===== src/Ds/SkipList/Unlinking.antt =====
-- ds/kv_skiplist.h: the loop of `erase` that takes a node out of its levels.
use cpp_utils.Base.{
  ℕ, zero, suc, ◌+◌, ◌-◌, ◌≤◌, ◌<◌, ◌≡◌, refl, sym, ap, subst, ◌∙◌, ◌⊎◌, inl, inr, arith, true,
  false, Bool-cases, Option, none, some, some_injective, List, [], ◌∷◌, length, Among, ◌==◌,
  ==_differ, ok, ok_injective, ◌>>=◌, >>=-eq-ok,
}
use cpp_utils.Ds.SkipList.{Heap, load, next_at, unlink}
use cpp_utils.Ds.SkipList.Rows.{Row, SameAt, Row-same, Row-successor}
use cpp_utils.Ds.SkipList.Links.{succ_at, Kept, Kept-trans, store_next_lem, next_at-inside}
use cpp_utils.Ds.SkipList.Linking.{Along, place-next}
use cpp_utils.Ds.SkipList.Dropped.{drop_node, drop_node_all, Row-drop_node}

beyond : (i count j : ℕ) → (j < i) ⊎ (i + suc count ≤ j) → (j < suc i) ⊎ (suc i + count ≤ j)
beyond i count j (inl below) = inl (omega arith)
beyond i count j (inr above) = inr (omega arith)

apart : (i count j : ℕ) → (j < i) ⊎ (i + suc count ≤ j) → j ≡ i → ⊥
apart i count j (inl below) e = omega (arith, e, below)
apart i count j (inr above) e = omega (arith, e, above)

split_at : (i j : ℕ) → i ≤ j → (i ≡ j) ⊎ (suc i ≤ j)
split_at i j h = omega arith

module _ {K V : Type 0} (old : Heap K V) (head x : ℕ) (rows : ℕ → List ℕ)
    (nested : (i q : ℕ) → Among q (rows (suc i)) → Among q (rows i)) where
  -- The node of a level behind which `x` stands, if it is on that level.
  abbrev pub InFront : ℕ → ℕ → Type 0
  InFront j u = ((u ≡ head) ⊎ Among u (rows j)) × (Among x (rows j) → succ_at old j u ≡ ok (some x))

  -- On level `j` the node has gone.
  abbrev pub Dropped : Heap K V → ℕ → Type 0
  Dropped heap j = Row (succ_at heap j) head (drop_node x (rows j))

  down_to : (i k : ℕ) → Among x (rows (i + k)) → Among x (rows i)
  down_to i zero among =
      let at_i : i + zero ≡ i = omega arith in subst (λ j. Among x (rows j)) at_i among
  down_to i (suc k) among =
      let at_k : i + suc k ≡ suc (i + k) = omega arith in
      down_to i k (nested (i + k) x (subst (λ j. Among x (rows j)) at_k among))

  -- A node that is not on a level is on none above it.
  not_above : (i j : ℕ) → i ≤ j → (Among x (rows i) → ⊥) → Among x (rows j) → ⊥
  not_above i j low out among =
      let at_j : j ≡ i + (j - i) = omega (arith, low) in
      out (down_to i (j - i) (subst (λ k. Among x (rows k)) at_j among))

  -- One level that has the node.
  unlink_level :
      (heap : Heap K V) (i count u : ℕ) (us : List ℕ)
      → Row (succ_at old i) head (rows i)
      → ((q : ℕ) → SameAt (succ_at old i) (succ_at heap i) q)
      → (u ≡ head) ⊎ Among u (rows i)
      → Among x (rows i)
      → succ_at old i u ≡ ok (some x)
      → (heap' : Heap K V) × (unlink heap x i (suc count) (u ∷ us)
          ≡ unlink heap' x (suc i) count us)
        × (length heap' ≡ length heap)
        × Kept heap heap'
        × ((j q : ℕ) → (j ≡ i → ⊥) → SameAt (succ_at heap j) (succ_at heap' j) q)
        × Dropped heap' i
  unfolding unlink
  unlink_level heap i count u us row before place among to_x =
      let (r, from_x) = place-next head x rows old i x row (inr among) in
      let (n, en, ep) = >>=-eq-ok (load heap u) (λ m. next_at m i) (before u (some x) to_x) in
      let (m, em, er) = >>=-eq-ok (load heap x) (λ o. next_at o i) (before x r from_x) in
      let (heap', es, size, kept, now, same) =
        store_next_lem heap u i n r en (next_at-inside n i (some x) ep) in
      let itself : (x == x) ≡ true = ground arith in
      (
        heap',
        rw (en, ◌>>=◌, ep, itself, em, er, es),
        size,
        kept,
        (λ j q off o eo. same j q (λ w. off w.0) o eo),
        Row-drop_node (succ_at old i) (succ_at heap' i) u x r to_x from_x now
            (λ q not_u o eo. same i q (λ w. not_u w.1) o (before q o eo)) head (rows i) row place,
      )

  leads_to : (p : Option ℕ) → (p ≡ some x) ⊎ (p ≡ some x → ⊥)
  leads_to none = inr (λ e. cc e)
  leads_to (some q) = elim (Bool-cases (q == x)) [
    | inl e ↦ inl (ap some (ground (arith, e)))
    | inr e ↦ inr (λ e'. ground (arith, e, some_injective q q x e'))
  ]

  -- The loop ends at a level that does not have the node.
  unlink_stops :
      (heap : Heap K V) (i count u : ℕ) (us : List ℕ) (p : Option ℕ)
      → succ_at heap i u ≡ ok p
      → (p ≡ some x → ⊥)
      → unlink heap x i (suc count) (u ∷ us) ≡ ok heap
  unfolding unlink
  unlink_stops heap i count u us none e stop =
      let (n, en, ep) = >>=-eq-ok (load heap u) (λ m. next_at m i) e in rw (en, ◌>>=◌, ep)
  unlink_stops heap i count u us (some q) e stop =
      let (n, en, ep) = >>=-eq-ok (load heap u) (λ m. next_at m i) e in
      let other : (q == x) ≡ false = ==_differ q x (λ e'. stop (ap some e')) in
      rw (en, ◌>>=◌, ep, other)

  untouched :
      (heap : Heap K V) (i j : ℕ)
      → i ≤ j
      → (Among x (rows i) → ⊥)
      → Row (succ_at old j) head (rows j)
      → ((q : ℕ) → SameAt (succ_at old j) (succ_at heap j) q)
      → Dropped heap j
  untouched heap i j low out row before =
      subst (Row (succ_at heap j) head) (sym (drop_node_all x (rows j) (not_above i j low out))) (
        Row-same (succ_at old j) (succ_at heap j) head (rows j) (before head) (λ q _. before q) row)

  -- The loop returns, and the node has gone from each of its levels: it is on none above the first one
  -- that does not have it.
  pub unlink_lem :
      (count i : ℕ) (us : List ℕ) (heap : Heap K V)
      → ((j : ℕ) → i ≤ j → j < i + count → Row (succ_at old j) head (rows j))
      → Along InFront i us
      → count ≤ length us
      → Kept old heap
      → ((j q : ℕ) → i ≤ j → SameAt (succ_at old j) (succ_at heap j) q)
      → (heap' : Heap K V) × (unlink heap x i count us ≡ ok heap')
        × (length heap' ≡ length heap)
        × Kept old heap'
        × ((j q : ℕ) → (j < i) ⊎ (i + count ≤ j) → SameAt (succ_at heap j) (succ_at heap' j) q)
        × ((j : ℕ) → i ≤ j → j < i + count → Dropped heap' j)
  unfolding unlink
  unlink_lem zero i us heap row along enough kept before =
      (heap, refl, refl, kept, (λ j q out r e. e), λ j low high. absurd (omega (arith, low, high)))
  unlink_lem (suc count) i [] heap row along enough kept before = absurd (omega (arith, enough))
  unlink_lem (suc count) i (u ∷ us) heap row ((place, to_x), along) enough kept before =
      let here = row i (omega arith) (omega arith) in
      let (p, ep) = place-next head x rows old i u here place in
      elim (leads_to p) [
        | inr stop ↦
            let out : Among x (rows i) → ⊥ =
              λ among. stop (ok_injective p p (some x) (sym ep ∙ to_x among)) in
            (
              heap,
              unlink_stops heap i count u us p (before i u (omega arith) p ep) stop,
              refl,
              kept,
              (λ j q away r e. e),
              λ j low high. untouched heap i j low out (row j low high) (λ q. before j q low),
            )
        | inl further ↦
            let to : succ_at old i u ≡ ok (some x) = ep ∙ ap ok further in
            let among = Row-successor (succ_at old i) head u x (rows i) here place to in
            let (h, el, size, kept1, same, gone) =
              unlink_level heap i count u us here (λ q. before i q (omega arith)) place among to in
            let (h', er, size', kept', same', rest) =
              unlink_lem count (suc i) us h (λ j low high. row j (omega arith) (omega arith)) along
                (omega (arith, enough)) (Kept-trans old heap h kept kept1)
                (λ j q low r e.
                  same j q (λ e'. omega (arith, e', low)) r (before j q (omega arith) r e)) in
            (
              h',
              el ∙ er,
              size' ∙ size,
              kept',
              (λ j q away r e.
                  same' j q (beyond i count j away) r (same j q (apart i count j away) r e)),
              λ j low high. elim (split_at i j low) [
                | inl at_i ↦ subst (Dropped h') at_i (
                    Row-same (succ_at h i) (succ_at h' i) head (drop_node x (rows i))
                      (same' i head (inl (omega arith))) (λ q _. same' i q (inl (omega arith)))
                      gone)
                | inr above ↦ rest j above (omega (arith, high))
              ],
            )
      ]
