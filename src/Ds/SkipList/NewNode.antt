-- ===== src/Ds/SkipList/NewNode.antt =====
-- ds/kv_skiplist.h: the loop of `insert` that links the new node, on a whole list.
use cpp_utils.Base.{
  ℕ, suc, ◌+◌, ◌≤◌, ◌≡◌, refl, sym, ap, subst, ◌∙◌, ◌⊎◌, inl, inr, arith, Bool, Option, none, some,
  List, [], ◌∷◌, ◌++◌, length, length-append, length-replicate, Among, ok, ◌>>=◌, >>=-eq-ok,
}
use cpp_utils.Ds.SkipList.{Node, SkipList, Heap, load, next_at, create_node, link}
use cpp_utils.Ds.SkipList.Rows.{Row, SameAt, Row-same, Row-behind, Row-next}
use cpp_utils.Ds.SkipList.NewRows.{new_rows, new_rows-cases}
use cpp_utils.Ds.SkipList.Links.{succ_at, Kept, load-inside, load-last, load-append}
use cpp_utils.Ds.SkipList.Linking.{Placed, Threaded, link_lem}
use cpp_utils.Ds.SkipList.Whole.{IsWhole, at_bottom}

module _ {K V : Type 0} where
  -- The head and the nodes of a row can be read.
  pub Row-readable :
      (heap : Heap K V) (i head q : ℕ) (row : List ℕ)
      → Row (succ_at heap i) head row
      → (q ≡ head) ⊎ Among q row
      → (n : Node K V) × (load heap q ≡ ok n)
  Row-readable heap i head q row rows (inl at_head) =
      let (p, e) = Row-next (succ_at heap i) head row rows in
      let (n, en, _) = >>=-eq-ok (load heap head) (λ r. next_at r i) e in
      (n, ap (load heap) at_head ∙ en)
  Row-readable heap i head q row rows (inr among) =
      let (rs, row', _, _) = Row-behind (succ_at heap i) head q row rows among in
      let (p, e) = Row-next (succ_at heap i) q rs row' in
      let (n, en, _) = >>=-eq-ok (load heap q) (λ r. next_at r i) e in (n, en)

module _ {K V : Type 0} (less same : K → K → Bool) (s : SkipList K V) (rows : ℕ → List ℕ)
    (whole : IsWhole less same s rows) where
  -- A node at the end of the heap is in no row.
  fresh : (i : ℕ) → Among (length s.heap) (rows i) → ⊥
  fresh i among =
      let bottom =
        at_bottom less same s.heap s.head rows whole.nested whole.short i (length s.heap) among in
      let (n, en) =
        Row-readable s.heap 0 s.head (length s.heap) (rows 0) (whole.linked 0 (omega arith))
          (inr bottom) in
      absurd (omega (arith, load-inside s.heap (length s.heap) n en))

  not_head : length s.heap ≡ s.head → ⊥
  not_head e =
      let (n, en) =
        Row-readable s.heap 0 s.head s.head (rows 0) (whole.linked 0 (omega arith)) (inl refl) in
      absurd (omega (arith, e, load-inside s.heap s.head n en))

  append-SameAt :
      (m : Node K V) (j q : ℕ) → SameAt (succ_at s.heap j) (succ_at (s.heap ++ (some m ∷ [])) j) q
  append-SameAt m j q r e =
      let (n, en, er) = >>=-eq-ok (load s.heap q) (λ o. next_at o j) e in
      ap (λ o. o >>= λ o'. next_at o' j) (load-append s.heap m q n en) ∙ er

  -- The loop of `insert` returns and gives each level its new row.
  pub link_new :
      (level : ℕ) (us : List ℕ) (key : K) (val : V)
      → level ≤ s.max_level
      → length us ≡ level
      → Placed s.head rows 0 us
      → (heap : Heap K V) × (link
            (s.heap ++ (some (create_node key val level) ∷ []))
            (length s.heap)
            0
            us
          ≡ ok heap)
        × (length heap ≡ suc (length s.heap))
        × Kept s.heap heap
        × ((n : Node K V) × (load heap (length s.heap) ≡ ok n) × (n.k ≡ key) × (n.v ≡ val))
        × ((i : ℕ)
            → i ≤ s.max_level
            → Row (succ_at heap i) s.head (new_rows (length s.heap) s.head us rows i))
  link_new level us key val low filled placed =
      let m = create_node key val level in
      let last = load-last s.heap m in
      let (heap, e, size, kept, same', threaded) =
        link_lem s.head (length s.heap) rows us 0 (s.heap ++ (some m ∷ [])) m last
          (omega (arith, filled, length-replicate {A = Option ℕ} (suc level) none)) not_head fresh
          (λ j _ high.
            Row-same (succ_at s.heap j) (succ_at (s.heap ++ (some m ∷ [])) j) s.head (rows j)
              (append-SameAt m j s.head) (λ q _. append-SameAt m j q)
              (whole.linked j (omega (arith, filled))))
          placed in
      let (n, en, (nk, nv, _)) = kept (length s.heap) m last in
      (
        heap,
        e,
        omega (arith, size, length-append s.heap (some m ∷ [])),
        (λ q o eo. kept q o (load-append s.heap m q o eo)),
        (n, en, nk, nv),
        λ i h. elim (new_rows-cases (length s.heap) s.head us rows i) [
          | inl (e', above) ↦ subst (Row (succ_at heap i) s.head) (sym e') (
              Row-same (succ_at s.heap i) (succ_at heap i) s.head (rows i)
                (λ r er. same' i s.head (inr (omega arith)) r (append-SameAt m i s.head r er))
                (λ q _ r er. same' i q (inr (omega arith)) r (append-SameAt m i q r er))
                (whole.linked i h))
          | inr (u, there, e') ↦
              let at_i : 0 + i ≡ i = omega arith in
              subst (Row (succ_at heap i) s.head) (sym e') (
                subst (λ j. Threaded s.head (length s.heap) rows heap j u) at_i
                  (threaded i u there))
        ],
      )
