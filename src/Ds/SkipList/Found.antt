-- ===== src/Ds/SkipList/Found.antt =====
-- ds/kv_skiplist.h: the search and the first loop of `erase` for a key that is there, on a whole list.
use cpp_utils.Base.{
  ℕ, suc, ◌≤◌, ◌<◌, ◌≡◌, refl, sym, ap, subst, ◌∙◌, ◌⊎◌, inl, inr, arith, Bool, true, some, List,
  length, Among, ok, ◌>>=◌,
}
use cpp_utils.Ds.SkipList.{Node, SkipList, Heap, load, next_at, search, unlink}
use cpp_utils.Ds.SkipList.Complete.{IsOrder, next_is}
use cpp_utils.Ds.SkipList.Rows.{Row, Row-behind, Row-successor, Row-acyclic, SameAt, Row-same}
use cpp_utils.Ds.SkipList.Links.{succ_at, Kept, Chain-Row}
use cpp_utils.Ds.SkipList.Linking.{Along, Along-map}
use cpp_utils.Ds.SkipList.Whole.{IsWhole, Passed-In, Reached, search-Placed}
use cpp_utils.Ds.SkipList.Dropped.{drop_node_all, drop_node, Among-drop_node}
use cpp_utils.Ds.SkipList.Unlinking.{InFront, Dropped, unlink_lem}

-- A whole list, and the node that has the key.
module _ {K V : Type 0} (less same : K → K → Bool) (order : IsOrder less same) (key : K)
    (s : SkipList K V) (rows : ℕ → List ℕ) (whole : IsWhole less same s rows) (x : ℕ)
    (mx : Node K V) (among : Among x (rows 0)) (at_x : load s.heap x ≡ ok mx)
    (has : same mx.k key ≡ true) where
  pub not_x : (i q : ℕ) → Among q (drop_node x (rows i)) → q ≡ x → ⊥
  not_x i q later = (Among-drop_node x q (rows i) later).1

  pub head_not_x : s.head ≡ x → ⊥
  head_not_x e =
      Row-acyclic (succ_at s.heap 0) s.head (rows 0) (whole.linked 0 (omega arith))
        (subst (λ p. Among p (rows 0)) (sym e) among)

  -- The search ends on each level in front of the node, if it is there.
  pub Reached-InFront :
      (j u : ℕ)
      → j ≤ s.max_level
      → Reached less same s.heap s.head rows whole.nested whole.short key j u
      → InFront s.heap s.head x rows whole.nested j u
  Reached-InFront j u low (passed, stop) = (
    Passed-In less same s.heap key s.head (rows j) u passed,
    λ there.
        let (n, en, en') =
          next_is less same order s.heap key x mx at_x has j s.head (rows j) u
            (Chain-Row s.heap j s.head (rows j) (whole.linked j low)) (whole.ascending j low) there
            passed stop in
        ap (λ r. r >>= λ m. next_at m j) en ∙ en',
  )

  pub Along-InFront :
      (update : List ℕ)
      → length update ≡ suc s.cur_level
      → Along (Reached less same s.heap s.head rows whole.nested whole.short key) 0 update
      → Along (InFront s.heap s.head x rows whole.nested) 0 update
  Along-InFront update filled reached =
      Along-map (Reached less same s.heap s.head rows whole.nested whole.short key)
        (InFront s.heap s.head x rows whole.nested) 0 update
        (λ j u high. Reached-InFront j u (omega (arith, high, filled, whole.levels))) reached

  -- The loop of `erase` takes the node out of the levels below `_curLevel`.
  pub unlinked_below :
      (update : List ℕ)
      → length update ≡ suc s.cur_level
      → Along (Reached less same s.heap s.head rows whole.nested whole.short key) 0 update
      → (heap : Heap K V) × (unlink s.heap x 0 s.cur_level update ≡ ok heap)
        × (length heap ≡ length s.heap)
        × Kept s.heap heap
        × ((j q : ℕ) → s.cur_level ≤ j → SameAt (succ_at s.heap j) (succ_at heap j) q)
        × ((i : ℕ) → i < s.cur_level → Dropped s.heap s.head x rows whole.nested heap i)
  unlinked_below update filled reached =
      let (heap, e, size, kept, others, gone) =
        unlink_lem s.heap s.head x rows whole.nested s.cur_level 0 update s.heap
          (λ j _ high. whole.linked j (omega (arith, high, whole.levels)))
          (Along-InFront update filled reached) (omega (arith, filled))
          (λ q n en. (n, en, (refl, refl, refl))) (λ j q _ r e. e) in
      (
        heap,
        e,
        size,
        kept,
        (λ j q high. others j q (inr (omega (arith, high)))),
        λ i low. gone i (omega arith) (omega (arith, low)),
      )

  -- The node in front is another one.
  pub in_front :
      (i u : ℕ)
      → Row (succ_at s.heap i) s.head (rows i)
      → Among x (rows i)
      → succ_at s.heap i u ≡ ok (some x)
      → u ≡ x
      → ⊥
  in_front i u row there to_x e =
      let (rs, row', _, _) = Row-behind (succ_at s.heap i) s.head x (rows i) row there in
      Row-acyclic (succ_at s.heap i) x rs row'
        (Row-successor (succ_at s.heap i) x u x rs row' (inl e) to_x)

  -- The search of `erase`.
  pub found :
      (last : ℕ) × (update : List ℕ) × (search less same s.heap s.cur_level key s.head
        ≡ ok (last, update))
      × (length update ≡ suc s.cur_level)
      × Along (Reached less same s.heap s.head rows whole.nested whole.short key) 0 update
      × (n : Node K V) × (load s.heap last ≡ ok n)
      × (next_at n 0 ≡ ok (some x))
  found =
      let (last, update, e, filled, _, reached, passed, stop) =
        search-Placed less same s.heap s.head rows whole.nested whole.short s.cur_level key s.head
          (λ j h. whole.linked j (omega (arith, h, whole.levels))) (inl refl) in
      let (n, en, ep) =
        next_is less same order s.heap key x mx at_x has 0 s.head (rows 0) last
          (Chain-Row s.heap 0 s.head (rows 0) (whole.linked 0 (omega arith)))
          (whole.ascending 0 (omega arith)) among passed stop in
      (last, update, e, filled, reached, n, en, ep)

  -- If the node is not on the top level, it takes it out of all levels.
  pub unlinked :
      (heap : Heap K V)
      → (Among x (rows s.cur_level) → ⊥)
      → ((j q : ℕ) → s.cur_level ≤ j → SameAt (succ_at s.heap j) (succ_at heap j) q)
      → ((i : ℕ) → i < s.cur_level → Dropped s.heap s.head x rows whole.nested heap i)
      → (i : ℕ) → i ≤ s.max_level
      → Dropped s.heap s.head x rows whole.nested heap i
  unlinked heap out others gone i low = elim (below_or_not i) [
    | inl below ↦ gone i below
    | inr high ↦
        subst (Row (succ_at heap i) s.head)
          (sym (drop_node_all x (rows i) (λ there. out_of there high)))
          (Row-same (succ_at s.heap i) (succ_at heap i) s.head (rows i) (others i s.head high)
            (λ q _. others i q high) (whole.linked i low))
  ]
    where
      below_or_not : (i : ℕ) → (i < s.cur_level) ⊎ (s.cur_level ≤ i)
      below_or_not i = omega arith

      top_or_above : (j : ℕ) → s.cur_level ≤ j → (j ≡ s.cur_level) ⊎ (s.cur_level < j)
      top_or_above j h = omega arith

      out_of : Among x (rows i) → s.cur_level ≤ i → ⊥
      out_of there high = elim (top_or_above i high) [
        | inl at_top ↦ out (subst (λ j. Among x (rows j)) at_top there)
        | inr above ↦ subst (Among x) (whole.above i above low) there
      ]
