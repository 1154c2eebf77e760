-- ===== src/Ds/SkipList/Rows.antt =====
-- ds/kv_skiplist.h: a level of the list as the row of the nodes that its pointers lead through, and the
-- row after a node has been linked behind one of them.
use cpp_utils.Base.{
  ℕ, suc, ◌≤◌, ◌≡◌, refl, sym, ap, subst, ◌∙◌, ◌⊎◌, inl, inr, Bool-cases, arith, Option, none, some,
  some_injective, List, [], ◌∷◌, length, ◌==◌, if◌then◌else◌, Among, Outcome, ok, ok_injective,
}

-- `next q` is what the pointer of `q` holds, if it can be read.
abbrev pub Row : (ℕ → Outcome (Option ℕ)) → ℕ → List ℕ → Type 0
Row next a [] = next a ≡ ok none
Row next a (q ∷ qs) = (next a ≡ ok (some q)) × Row next q qs

-- The row behind `h` with `x` put behind `u`.
abbrev pub insert_after : ℕ → ℕ → ℕ → List ℕ → List ℕ
insert_after x h u [] = x ∷ []
insert_after x h u (q ∷ qs) = if h == u then x ∷ q ∷ qs else q ∷ insert_after x q u qs

pub length-insert_after :
    (x h u : ℕ) (row : List ℕ) → length (insert_after x h u row) ≡ suc (length row)
length-insert_after x h u [] = refl
length-insert_after x h u (q ∷ qs) = ground (arith, length-insert_after x q u qs)

module _ (x : ℕ) where
  pub Among-insert_after_new : (h u : ℕ) (row : List ℕ) → Among x (insert_after x h u row)
  Among-insert_after_new h u [] = inl refl
  Among-insert_after_new h u (q ∷ qs) = elim (Bool-cases (h == u)) [
    | inl here ↦ rw here (inl refl)
    | inr later ↦ rw later (inr (Among-insert_after_new q u qs))
  ]

  pub Among-insert_after_old :
      (y h u : ℕ) (row : List ℕ) → Among y row → Among y (insert_after x h u row)
  Among-insert_after_old y h u [] among = absurd among
  Among-insert_after_old y h u (q ∷ qs) among = elim (Bool-cases (h == u)) [
    | inl here ↦ rw here (inr among)
    | inr later ↦
        rw later
          (elim among [ inl e ↦ inl e | inr behind ↦ inr (Among-insert_after_old y q u qs behind) ])
  ]

  pub Among-insert_after :
      (y h u : ℕ) (row : List ℕ) → Among y (insert_after x h u row) → (y ≡ x) ⊎ Among y row
  Among-insert_after y h u [] (inl e) = inl e
  Among-insert_after y h u [] (inr among) = absurd among
  Among-insert_after y h u (q ∷ qs) among = elim (Bool-cases (h == u)) [
    | inl here ↦ rw here at among
    | inr later ↦ elim (rw later at among) [
      | inl e ↦ inr (inl e)
      | inr behind ↦ elim (Among-insert_after y q u qs behind) [
        | inl e ↦ inl e
        | inr old ↦ inr (inr old)
      ]
    ]
  ]

module _ (next : ℕ → Outcome (Option ℕ)) where
  Row-unique : (a : ℕ) (qs rs : List ℕ) → Row next a qs → Row next a rs → qs ≡ rs
  Row-unique a [] [] row row' = refl
  Row-unique a [] (r ∷ rs) row (e, row') = cc (row, e)
  Row-unique a (q ∷ qs) [] (e, row) row' = cc (row', e)
  Row-unique a (q ∷ qs) (r ∷ rs) (e, row) (e', row') =
      let same : q ≡ r =
        some_injective q q r (ok_injective (some q) (some q) (some r) (sym e ∙ e')) in
      cc (same, Row-unique q qs rs row (subst (λ p. Row next p rs) (sym same) row'))

  -- The row behind one of its nodes.
  pub Row-behind :
      (a x : ℕ) (qs : List ℕ)
      → Row next a qs
      → Among x qs
      → (rs : List ℕ) × Row next x rs
        × (suc (length rs) ≤ length qs)
        × ((q : ℕ) → Among q rs → Among q qs)
  Row-behind a x [] row among = absurd among
  Row-behind a x (q ∷ qs) (_, row) (inl e) =
      (qs, subst (λ p. Row next p qs) (sym e) row, omega arith, λ r later. inr later)
  Row-behind a x (q ∷ qs) (_, row) (inr among) =
      let (rs, row', shorter, inside) = Row-behind q x qs row among in
      (rs, row', omega arith, λ r later. inr (inside r later))

  -- No row comes back to where it starts.
  pub Row-acyclic : (a : ℕ) (qs : List ℕ) → Row next a qs → Among a qs → ⊥
  Row-acyclic a qs row among =
      let (rs, row', shorter, _) = Row-behind a a qs row among in
      absurd (omega (arith, ap length (Row-unique a qs rs row row')))

  pub Row-next : (a : ℕ) (qs : List ℕ) → Row next a qs → (p : Option ℕ) × (next a ≡ ok p)
  Row-next a [] row = (none, row)
  Row-next a (q ∷ qs) (e, row) = (some q, e)

  -- The node behind one of them is one of them.
  pub Row-successor :
      (a u q : ℕ) (qs : List ℕ)
      → Row next a qs
      → (u ≡ a) ⊎ Among u qs
      → next u ≡ ok (some q)
      → Among q qs
  Row-successor a u q [] row (inl at_a) e = cc (row, e, ap next at_a)
  Row-successor a u q [] row (inr among) e = absurd among
  Row-successor a u q (r ∷ qs) (e', row) (inl at_a) e =
      inl
        (some_injective q q r (ok_injective (some q) (some q) (some r) (sym e ∙ ap next at_a ∙ e')))
  Row-successor a u q (r ∷ qs) (e', row) (inr among) e = inr (Row-successor r u q qs row among e)

module _ (next next' : ℕ → Outcome (Option ℕ)) where
  -- What can be read stays so.
  abbrev pub SameAt : ℕ → Type 0
  SameAt q = (p : Option ℕ) → next q ≡ ok p → next' q ≡ ok p

  pub Row-same :
      (a : ℕ) (qs : List ℕ)
      → SameAt a
      → ((q : ℕ) → Among q qs → SameAt q)
      → Row next a qs
      → Row next' a qs
  Row-same a [] here there row = here none row
  Row-same a (q ∷ qs) here there (e, row) =
      (here (some q) e, Row-same q qs (there q (inl refl)) (λ r later. there r (inr later)) row)

  -- The row, when `x` has got the pointer of `u`, `u` points to `x`, and nothing else has changed.
  pub Row-insert_after :
      (h u x : ℕ) (row : List ℕ) (p : Option ℕ)
      → Row next h row
      → (u ≡ h) ⊎ Among u row
      → ((q : ℕ) → (q ≡ u → ⊥) → (q ≡ x → ⊥) → SameAt q)
      → (h ≡ x → ⊥)
      → (Among x row → ⊥)
      → next u ≡ ok p
      → next' u ≡ ok (some x)
      → next' x ≡ ok p
      → Row next' h (insert_after x h u row)
  Row-insert_after h u x [] p row (inr among) same not_head new was now then' = absurd among
  Row-insert_after h u x [] p row (inl at_h) same not_head new was now then' =
      (ap next' (sym at_h) ∙ now, then' ∙ sym was ∙ ap next at_h ∙ row)
  Row-insert_after h u x (q ∷ qs) p (e, row) place same not_head new was now then' =
      elim (Bool-cases (h == u)) [
        | inl here ↦
            let at_h : u ≡ h = ground (arith, here) in
            let on : next' x ≡ ok (some q) = then' ∙ sym was ∙ ap next at_h ∙ e in
            let kept : (r : ℕ) → Among r (q ∷ qs) → SameAt r = λ r later.
              same r
                (λ back.
                  Row-acyclic next h (q ∷ qs) (e, row)
                    (subst (λ y. Among y (q ∷ qs)) (back ∙ at_h) later))
                (λ back. new (subst (λ y. Among y (q ∷ qs)) back later)) in
            rw here (
              ap next' (sym at_h) ∙ now,
              (on, Row-same q qs (kept q (inl refl)) (λ r later. kept r (inr later)) row),
            )
        | inr later ↦
            let not_u : h ≡ u → ⊥ = λ e'. ground (arith, later, e') in
            let place' : (u ≡ q) ⊎ Among u qs = elim place [
              | inl e' ↦ absurd (not_u (sym e'))
              | inr among ↦ among
            ] in
            rw later (
              same h not_u not_head (some q) e,
              Row-insert_after q u x qs p row place' same (λ e'. new (inl (sym e')))
                  (λ behind. new (inr behind)) was now then',
            )
      ]
