-- ===== src/Ds/SkipList/Dropped.antt =====
-- ds/kv_skiplist.h: the row of a level after a node has been unlinked.
use cpp_utils.Base.{
  ℕ, ◌≤◌, ◌≡◌, refl, sym, ap, subst, ◌∙◌, ◌⊎◌, inl, inr, Bool-cases, arith, Option, some,
  some_injective, List, [], ◌∷◌, length, ◌==◌, if◌then◌else◌, Among, Outcome, ok, ok_injective,
}
use cpp_utils.Ds.SkipList.Rows.{Row, Row-acyclic, Row-successor, SameAt, Row-same}

-- The row without the node.
abbrev pub drop_node : ℕ → List ℕ → List ℕ
drop_node x [] = []
drop_node x (q ∷ qs) = let rest = drop_node x qs in if q == x then rest else q ∷ rest

module _ (x : ℕ) where
  pub drop_node_lem :
      (q : ℕ) (qs : List ℕ)
      → ((q ≡ x) × (drop_node x (q ∷ qs) ≡ drop_node x qs))
        ⊎ ((q ≡ x → ⊥) × (drop_node x (q ∷ qs) ≡ q ∷ drop_node x qs))
  drop_node_lem q qs = elim (Bool-cases (q == x)) [
    | inl here ↦ inl (ground (arith, here), rw here)
    | inr other ↦ inr ((λ e. ground (arith, other, e)), rw other)
  ]

  pub drop_node_all : (qs : List ℕ) → (Among x qs → ⊥) → drop_node x qs ≡ qs
  drop_node_all [] out = refl
  drop_node_all (q ∷ qs) out = elim (drop_node_lem q qs) [
    | inl (e, _) ↦ absurd (out (inl (sym e)))
    | inr (_, e) ↦ e ∙ ap (◌∷◌ q) (drop_node_all qs (λ among. out (inr among)))
  ]

  pub Among-drop_node : (q : ℕ) (qs : List ℕ) → Among q (drop_node x qs) → Among q qs × (q ≡ x → ⊥)
  Among-drop_node q [] among = absurd among
  Among-drop_node q (r ∷ qs) among = elim (drop_node_lem r qs) [
    | inl (_, e) ↦
        let (old, other) = Among-drop_node q qs (subst (Among q) e among) in (inr old, other)
    | inr (differs, e) ↦ elim (subst (Among q) e among) [
      | inl here ↦ (inl here, λ at_x. differs (sym here ∙ at_x))
      | inr behind ↦ let (old, other) = Among-drop_node q qs behind in (inr old, other)
    ]
  ]

  pub Among-drop_node_other :
      (q : ℕ) (qs : List ℕ) → Among q qs → (q ≡ x → ⊥) → Among q (drop_node x qs)
  Among-drop_node_other q [] among other = absurd among
  Among-drop_node_other q (r ∷ qs) among other = elim (drop_node_lem r qs) [
    | inl (at_x, e) ↦ subst (Among q) (sym e) (elim among [
      | inl here ↦ absurd (other (here ∙ at_x))
      | inr behind ↦ Among-drop_node_other q qs behind other
    ])
    | inr (_, e) ↦ subst (Among q) (sym e) (elim among [
      | inl here ↦ inl here
      | inr behind ↦ inr (Among-drop_node_other q qs behind other)
    ])
  ]

  pub length-drop_node : (qs : List ℕ) → length (drop_node x qs) ≤ length qs
  length-drop_node [] = omega arith
  length-drop_node (q ∷ qs) = elim (drop_node_lem q qs) [
    | inl (_, e) ↦ omega (arith, ap length e, length-drop_node qs)
    | inr (_, e) ↦ omega (arith, ap length e, length-drop_node qs)
  ]

module _ (next next' : ℕ → Outcome (Option ℕ)) (u x : ℕ) (r : Option ℕ)
    (to_x : next u ≡ ok (some x)) (from_x : next x ≡ ok r) (now : next' u ≡ ok r)
    (same : (q : ℕ) → (q ≡ u → ⊥) → SameAt next next' q) where
  -- The nodes behind the one that is taken out.
  Row-behind_x : (h : ℕ) (qs : List ℕ) → h ≡ u → (Among u qs → ⊥) → Row next x qs → Row next' h qs
  Row-behind_x h [] at_u out row = ap next' at_u ∙ now ∙ sym from_x ∙ row
  Row-behind_x h (y ∷ ys) at_u out (e, row) = (
    ap next' at_u ∙ now ∙ sym from_x ∙ e,
    Row-same next next' y ys (same y (λ e'. out (inl (sym e'))))
        (λ q among. same q (λ e'. out (inr (subst (λ p. Among p ys) e' among)))) row,
  )

  -- The row, when `u` has got the pointer of the node behind it.
  pub Row-drop_node :
      (h : ℕ) (row : List ℕ)
      → Row next h row
      → (u ≡ h) ⊎ Among u row
      → Row next' h (drop_node x row)
  Row-drop_node h [] row (inr among) = absurd among
  Row-drop_node h [] row (inl at_h) = cc (ap next at_h, to_x, row)
  Row-drop_node h (q ∷ qs) (e, row) place = elim (Bool-cases (h == u)) [
    | inl here ↦
        let at_u : h ≡ u = ground (arith, here) in
        let at_x : q ≡ x =
          some_injective q q x
            (ok_injective (some q) (some q) (some x) (sym e ∙ ap next at_u ∙ to_x)) in
        let row_x = subst (λ p. Row next p qs) at_x row in
        let kept : drop_node x (q ∷ qs) ≡ qs = elim (drop_node_lem x q qs) [
          | inl (_, e') ↦ e' ∙ drop_node_all x qs (Row-acyclic next x qs row_x)
          | inr (differs, _) ↦ absurd (differs at_x)
        ] in
        subst (Row next' h) (sym kept) (
          Row-behind_x h qs at_u
            (λ among.
              Row-acyclic next h (q ∷ qs) (e, row) (inr (subst (λ p. Among p qs) (sym at_u) among)))
            row_x)
    | inr later ↦
        let not_u : h ≡ u → ⊥ = λ e'. ground (arith, later, e') in
        let place' : (u ≡ q) ⊎ Among u qs = elim place [
          | inl e' ↦ absurd (not_u (sym e'))
          | inr among ↦ among
        ] in
        elim (drop_node_lem x q qs) [
          | inl (at_x, _) ↦ absurd (
              Row-acyclic next q qs row
                (subst (λ p. Among p qs) (sym at_x) (Row-successor next q u x qs row place' to_x)))
          | inr (_, kept) ↦
              subst (Row next' h) (sym kept)
                (same h not_u (some q) e, Row-drop_node q qs row place')
        ]
  ]
