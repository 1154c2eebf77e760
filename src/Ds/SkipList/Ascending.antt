-- ===== src/Ds/SkipList/Ascending.antt =====
-- ds/kv_skiplist.h: the keys of a level get greater still when a node has come between.
use cpp_utils.Base.{
  ℕ, ◌≡◌, refl, sym, ap, subst, ◌∙◌, ◌⊎◌, inl, inr, Bool-cases, arith, Bool, some, List, [], ◌∷◌,
  ◌==◌, Among, Among-All, All-Among, ok,
}
use cpp_utils.Ds.SkipList.{Node, Heap, load}
use cpp_utils.Ds.SkipList.Complete.{IsOrder, Before, Sorted}
use cpp_utils.Ds.SkipList.Rows.{Row, insert_after, Among-insert_after}
use cpp_utils.Ds.SkipList.Links.{succ_at, Kept, Kept-Alike}

module _ {K V : Type 0} (less same : K → K → Bool) where
  -- The order of two nodes is that of their keys.
  Before-Kept :
      (heap heap' : Heap K V) (q r : ℕ) (m n : Node K V)
      → Kept heap heap'
      → load heap q ≡ ok m
      → load heap r ≡ ok n
      → Before less same heap q r
      → Before less same heap' q r
  Before-Kept heap heap' q r m n kept em en before m' n' em' en' =
      let (km, _, _) = Kept-Alike heap heap' q m m' kept em em' in
      let (kn, _, _) = Kept-Alike heap heap' r n n' kept en en' in cc (km, kn, before m n em en)

  pub Sorted-Kept :
      (heap heap' : Heap K V) (qs : List ℕ)
      → Kept heap heap'
      → ((q : ℕ) → Among q qs → (m : Node K V) × (load heap q ≡ ok m))
      → Sorted less same heap qs
      → Sorted less same heap' qs
  Sorted-Kept heap heap' [] kept readable sorted = tt
  Sorted-Kept heap heap' (q ∷ qs) kept readable (first, sorted) = (
    All-Among _ qs (λ r among.
        let (m, em) = readable q (inl refl) in
        let (n, en) = readable r (inr among) in
        Before-Kept heap heap' q r m n kept em en (Among-All _ r qs among first)),
    Sorted-Kept heap heap' qs kept (λ r among. readable r (inr among)) sorted,
  )

  -- Of two nodes of a row one comes first.
  pub Sorted-cases :
      (heap : Heap K V) (qs : List ℕ) (q r : ℕ)
      → Sorted less same heap qs
      → Among q qs
      → Among r qs
      → (q ≡ r) ⊎ (Before less same heap q r ⊎ Before less same heap r q)
  Sorted-cases heap [] q r sorted at_q at_r = absurd at_q
  Sorted-cases heap (p ∷ qs) q r sorted (inl e) (inl e') = inl (e ∙ sym e')
  Sorted-cases heap (p ∷ qs) q r (first, _) (inl e) (inr at_r) =
      inr (inl (subst (λ y. Before less same heap y r) (sym e) (Among-All _ r qs at_r first)))
  Sorted-cases heap (p ∷ qs) q r (first, _) (inr at_q) (inl e) =
      inr (inr (subst (λ y. Before less same heap y q) (sym e) (Among-All _ q qs at_q first)))
  Sorted-cases heap (p ∷ qs) q r (_, sorted) (inr at_q) (inr at_r) =
      Sorted-cases heap qs q r sorted at_q at_r

  module _ (order : IsOrder less same) (heap heap' : Heap K V) (i u x : ℕ) where
    Before-trans :
        (p q r : ℕ) (m : Node K V)
        → load heap' q ≡ ok m
        → Before less same heap' p q
        → Before less same heap' q r
        → Before less same heap' p r
    Before-trans p q r m em first second l n el en =
        order.trans l.k m.k n.k (first l m el em) (second m n em en)

    pub Sorted-insert_after :
        (h : ℕ) (row : List ℕ)
        → Row (succ_at heap i) h row
        → (u ≡ h) ⊎ Among u row
        → Sorted less same heap' row
        → ((q : ℕ) → Among q row → (m : Node K V) × (load heap' q ≡ ok m))
        → (Among u row → Before less same heap' u x)
        → ((q : ℕ) → succ_at heap i u ≡ ok (some q) → Before less same heap' x q)
        → Sorted less same heap' (insert_after x h u row)
    Sorted-insert_after h [] row place sorted readable below above = (tt, tt)
    Sorted-insert_after h (q ∷ qs) (e, row) place (first, sorted) readable below above =
        elim (Bool-cases (h == u)) [
          | inl here ↦
              let at_h : u ≡ h = ground (arith, here) in
              let (m, em) = readable q (inl refl) in
              let next : Before less same heap' x q = above q (ap (succ_at heap i) at_h ∙ e) in
              rw here (
                (
                  next,
                  All-Among _ qs
                      (λ r among. Before-trans x q r m em next (Among-All _ r qs among first)),
                ),
                (first, sorted),
              )
          | inr later ↦
              let place' : (u ≡ q) ⊎ Among u qs = elim place [
                | inl e' ↦ absurd (ground (arith, later, e'))
                | inr among ↦ among
              ] in
              let before_new : Before less same heap' q x = elim place' [
                | inl at_q ↦ subst (λ y. Before less same heap' y x) at_q (below (inl at_q))
                | inr among ↦
                    let (m, em) = readable u (inr among) in
                    Before-trans q u x m em (Among-All _ u qs among first) (below (inr among))
              ] in
              rw later (
                All-Among _ (insert_after x q u qs) (λ r among.
                    elim (Among-insert_after x r q u qs among) [
                      | inl new ↦ subst (λ y. Before less same heap' q y) (sym new) before_new
                      | inr old ↦ Among-All _ r qs old first
                    ]),
                Sorted-insert_after q qs row place' sorted (λ r among. readable r (inr among))
                    (λ among. below (inr among)) above,
              )
        ]
