-- ===== src/Ds/SkipList/Removed.antt =====
-- ds/kv_skiplist.h: the other loop of `erase`, and what the deletion of a node leaves.
use cpp_utils.Base.{
  ℕ, zero, suc, ◌≤◌, ◌<◌, ◌≡◌, refl, sym, ap, subst, ◌∙◌, ◌⊎◌, inl, inr, arith, Bool, Option, none,
  some, List, [], ◌∷◌, length, Among, All-Among, Among-All, ok, ok_injective, ◌>>=◌,
}
use cpp_utils.Ds.SkipList.{Node, Heap, set_at, slot, load, next_at, shrink}
use cpp_utils.Ds.SkipList.Complete.{Before, Sorted}
use cpp_utils.Ds.SkipList.Rows.{Row}
use cpp_utils.Ds.SkipList.Links.{succ_at, Alike, get_elem?-set_at_ne}
use cpp_utils.Ds.SkipList.Dropped.{drop_node, drop_node_lem, Among-drop_node}

top_or_below : {l : ℕ} (i : ℕ) → i ≤ suc l → (i ≡ suc l) ⊎ (i ≤ l)
top_or_below i h = omega (arith, h)

module _ {K V : Type 0} where
  -- `delete` leaves the other nodes.
  pub load-delete :
      (heap : Heap K V) (x q : ℕ)
      → x < length heap
      → (q ≡ x → ⊥)
      → load (set_at x none heap) q ≡ load heap q
  unfolding load
  load-delete heap x q there other =
      ap (λ r. slot r >>= slot) (get_elem?-set_at_ne heap x q none there other)

  -- The loop over `_curLevel` ends above the levels that are empty.
  pub shrink_lem :
      (heap : Heap K V) (head : ℕ) (n : Node K V) (rows : ℕ → List ℕ) (l : ℕ)
      → load heap head ≡ ok n
      → ((i : ℕ) → i ≤ l → Row (succ_at heap i) head (rows i))
      → (l' : ℕ) × (shrink n l ≡ ok l') × (l' ≤ l) × ((i : ℕ) → l' < i → i ≤ l → rows i ≡ [])
  unfolding shrink
  shrink_lem heap head n rows zero en row =
      (0, refl, omega arith, λ i high low. absurd (omega (arith, high, low)))
  shrink_lem heap head n rows (suc l) en row =
      by_row (rows (suc l)) refl
        (shrink_lem heap head n rows l en (λ i low. row i (omega (arith, low))))
    where
      pointer : (p : Option ℕ) → succ_at heap (suc l) head ≡ ok p → next_at n (suc l) ≡ ok p
      pointer p e = sym (ap (λ r. r >>= λ m. next_at m (suc l)) en) ∙ e

      by_row :
          (qs : List ℕ)
          → rows (suc l) ≡ qs
          → (l' : ℕ) × (shrink n l ≡ ok l') × (l' ≤ l) × ((i : ℕ) → l' < i → i ≤ l → rows i ≡ [])
          → (l' : ℕ) × (shrink n (suc l) ≡ ok l')
            × (l' ≤ suc l)
            × ((i : ℕ) → l' < i → i ≤ suc l → rows i ≡ [])
      by_row [] e (l', el, low', empty) =
          let at_row = subst (Row (succ_at heap (suc l)) head) e (row (suc l) (omega arith)) in
          (
            l',
            rw (pointer none at_row, ◌>>=◌) el,
            omega (arith, low'),
            λ i high low. elim (top_or_below i low) [
              | inl top ↦ ap rows top ∙ e
              | inr below ↦ empty i high below
            ],
          )
      by_row (q ∷ qs) e _ =
          let (at_row, _) = subst (Row (succ_at heap (suc l)) head) e (row (suc l) (omega arith)) in
          (
            suc l,
            rw (pointer (some q) at_row, ◌>>=◌) refl,
            omega arith,
            λ i high low. absurd (omega (arith, high, low)),
          )

  -- It does not leave a level that has a node.
  pub shrink_stays :
      (heap : Heap K V) (head x l : ℕ) (n : Node K V) (qs : List ℕ)
      → load heap head ≡ ok n
      → Row (succ_at heap l) head qs
      → Among x qs
      → shrink n l ≡ ok l
  unfolding shrink
  shrink_stays heap head x l n [] en row among = absurd among
  shrink_stays heap head x zero n (q ∷ qs) en row among = refl
  shrink_stays heap head x (suc l) n (q ∷ qs) en (e, row) among =
      rw (sym (ap (λ r. r >>= λ m. next_at m (suc l)) en) ∙ e, ◌>>=◌)

  -- All nodes but `x` keep their keys, values and numbers of pointers.
  abbrev pub KeptBut : ℕ → Heap K V → Heap K V → Type 0
  KeptBut x heap heap' =
      (q : ℕ) (n : Node K V)
      → (q ≡ x → ⊥)
      → load heap q ≡ ok n
      → (n' : Node K V) × (load heap' q ≡ ok n') × Alike n n'

module _ {K V : Type 0} (less same : K → K → Bool) where
  Before-KeptBut :
      (x : ℕ) (heap heap' : Heap K V) (q r : ℕ) (m n : Node K V)
      → KeptBut x heap heap'
      → (q ≡ x → ⊥)
      → (r ≡ x → ⊥)
      → load heap q ≡ ok m
      → load heap r ≡ ok n
      → Before less same heap q r
      → Before less same heap' q r
  Before-KeptBut x heap heap' q r m n kept not_q not_r em en before m' n' em' en' =
      let (m1, e1, (km, _, _)) = kept q m not_q em in
      let (n1, e2, (kn, _, _)) = kept r n not_r en in
      let first : m' ≡ m1 = ok_injective m' m' m1 (sym em' ∙ e1) in
      let second : n' ≡ n1 = ok_injective n' n' n1 (sym en' ∙ e2) in
      cc (
        ap (λ (o : Node K V). o.k) first,
        ap (λ (o : Node K V). o.k) second,
        km,
        kn,
        before m n em en,
      )

  pub Sorted-drop_node :
      (x : ℕ) (heap heap' : Heap K V) (qs : List ℕ)
      → KeptBut x heap heap'
      → ((q : ℕ) → Among q qs → (m : Node K V) × (load heap q ≡ ok m))
      → Sorted less same heap qs
      → Sorted less same heap' (drop_node x qs)
  Sorted-drop_node x heap heap' [] kept readable sorted = tt
  Sorted-drop_node x heap heap' (q ∷ qs) kept readable (first, sorted) =
      let rest = Sorted-drop_node x heap heap' qs kept (λ r among. readable r (inr among)) sorted in
      elim (drop_node_lem x q qs) [
        | inl (_, e) ↦ subst (Sorted less same heap') (sym e) rest
        | inr (not_q, e) ↦ subst (Sorted less same heap') (sym e) (
          All-Among _ (drop_node x qs) (λ r among.
              let (old, not_r) = Among-drop_node x r qs among in
              let (m, em) = readable q (inl refl) in
              let (n, en) = readable r (inr old) in
              Before-KeptBut x heap heap' q r m n kept not_q not_r em en
                (Among-All _ r qs old first)),
          rest,
        )
      ]
