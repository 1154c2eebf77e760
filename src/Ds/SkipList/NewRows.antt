-- ===== src/Ds/SkipList/NewRows.antt =====
-- ds/kv_skiplist.h: the rows of all levels after `insert` has linked a node.
use cpp_utils.Base.{
  ℕ, zero, suc, ◌≤◌, ◌≡◌, refl, sym, ap, subst, ◌⊎◌, inl, inr, arith, Option, none, some, List, [],
  ◌∷◌, length, get_elem?, Among,
}
use cpp_utils.Ds.SkipList.Rows.{
  insert_after, length-insert_after, Among-insert_after, Among-insert_after_old,
  Among-insert_after_new,
}

get_elem?-cases :
    {A : Type 0} (xs : List A) (i : ℕ)
    → ((get_elem? xs i ≡ none) × (length xs ≤ i)) ⊎ ((x : A) × (get_elem? xs i ≡ some x))
get_elem?-cases [] i = inl (refl, omega arith)
get_elem?-cases (x ∷ xs) zero = inr (x, refl)
get_elem?-cases (x ∷ xs) (suc i) = elim (get_elem?-cases xs i) [
  | inl (e, h) ↦ inl (e, omega arith)
  | inr found ↦ inr found
]

-- There is an element at each place before one where there is one.
get_elem?-before :
    {A : Type 0} (xs : List A) (i : ℕ) (x : A)
    → get_elem? xs (suc i) ≡ some x
    → (y : A) × (get_elem? xs i ≡ some y)
get_elem?-before [] i x e = cc
get_elem?-before (y ∷ xs) zero x e = (y, refl)
get_elem?-before (y ∷ xs) (suc i) x e = get_elem?-before xs i x e

-- The rows after the node `a` has come behind the nodes `us`.
abbrev pub new_row : ℕ → ℕ → Option ℕ → List ℕ → List ℕ
new_row a head none row = row
new_row a head (some u) row = insert_after a head u row

abbrev pub new_rows : ℕ → ℕ → List ℕ → (ℕ → List ℕ) → ℕ → List ℕ
new_rows a head us rows j = new_row a head (get_elem? us j) (rows j)

module _ (a head : ℕ) (us : List ℕ) (rows : ℕ → List ℕ) where
  pub new_rows-cases :
      (j : ℕ)
      → ((new_rows a head us rows j ≡ rows j) × (length us ≤ j))
        ⊎ ((u : ℕ) × (get_elem? us j ≡ some u)
            × (new_rows a head us rows j ≡ insert_after a head u (rows j)))
  new_rows-cases j = elim (get_elem?-cases us j) [
    | inl (e, h) ↦ inl (ap (λ o. new_row a head o (rows j)) e, h)
    | inr (u, e) ↦ inr (u, e, ap (λ o. new_row a head o (rows j)) e)
  ]

  pub Among-new_rows : (j q : ℕ) → Among q (rows j) → Among q (new_rows a head us rows j)
  Among-new_rows j q among = elim (new_rows-cases j) [
    | inl (e, _) ↦ subst (Among q) (sym e) among
    | inr (u, _, e) ↦ subst (Among q) (sym e) (Among-insert_after_old a q head u (rows j) among)
  ]

  pub new_rows_nested :
      ((i q : ℕ) → Among q (rows (suc i)) → Among q (rows i))
      → (i q : ℕ) → Among q (new_rows a head us rows (suc i))
      → Among q (new_rows a head us rows i)
  new_rows_nested nested i q among = elim (new_rows-cases (suc i)) [
    | inl (e, _) ↦ Among-new_rows i q (nested i q (subst (Among q) e among))
    | inr (u, there, e) ↦
        elim (Among-insert_after a q head u (rows (suc i)) (subst (Among q) e among)) [
          | inl new ↦
              let (v, e') = get_elem?-before us i u there in
              subst (Among q) (sym (ap (λ o. new_row a head o (rows i)) e')) (
                subst (λ r. Among r (insert_after a head v (rows i))) (sym new)
                  (Among-insert_after_new a head v (rows i)))
          | inr old ↦ Among-new_rows i q (nested i q old)
        ]
  ]

  pub length-new_rows : (j n : ℕ) → length (rows j) ≤ n → length (new_rows a head us rows j) ≤ suc n
  length-new_rows j n h = elim (new_rows-cases j) [
    | inl (e, _) ↦ omega (arith, ap length e)
    | inr (u, _, e) ↦ omega (arith, ap length e, length-insert_after a head u (rows j))
  ]
