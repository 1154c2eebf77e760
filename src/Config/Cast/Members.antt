-- ===== src/Config/Cast/Members.antt =====
-- What config/config.h makes of a text whose elements may be repeated: a `std::set` or a
-- `std::unordered_set` has each of them once.
use cpp_utils.Base.{
  ℕ, ◌≡◌, sym, ◌∙◌, ◌⊎◌, inl, inr, ◌↔◌, subst, Among-All, All-Among, Bool, Bool-cases, true, false,
  Option, some, List, [], ◌∷◌, All, Among,
}
use cpp_utils.Config.Yaml.{Yaml}
use cpp_utils.Config.Cast.{
  vector_to_string, unordered_set_to_string, set_insert, string_to_set, unordered_insert,
  string_to_unordered_set,
}
use cpp_utils.Config.Cast.Ascending.{add_all, Ascending}
use cpp_utils.Config.Cast.RoundTrip.{Sequences, Survives, written_is_read}

module _ {T : Type 0} where
  -- The elements are the same, however often and in whatever order they stand.
  abbrev pub SameElements : List T → List T → Type 0
  SameElements xs ys = (v : T) → Among v xs ↔ Among v ys

  -- A container that has the new element and the old ones
  abbrev Adds : (List T → T → List T) → Type 0
  Adds insert = (st : List T) (v w : T) → Among w (insert st v) ↔ ((w ≡ v) ⊎ Among w st)

  add_all-members :
      (insert : List T → T → List T)
      → Adds insert
      → (st xs : List T) (w : T) → Among w (add_all insert st xs) ↔ (Among w st ⊎ Among w xs)
  add_all-members insert adds st [] w =
      (λ h. inl h, λ h. elim h [ inl old ↦ old | inr never ↦ absurd never ])
  add_all-members insert adds st (x ∷ xs) w =
      let (to, from) = add_all-members insert adds (insert st x) xs w in
      let (out, into) = adds st x w in
      (
        (λ h. elim (to h) [
          | inl early ↦ elim (out early) [ inl same ↦ inr (inl same) | inr old ↦ inl old ]
          | inr late ↦ inr (inr late)
        ]),
        λ h. from (elim h [
          | inl old ↦ inl (into (inr old))
          | inr (inl same) ↦ inl (into (inl same))
          | inr (inr late) ↦ inr late
        ]),
      )

  add_all-keeps :
      (insert : List T → T → List T) (P : List T → Type 0)
      → ((st : List T) (v : T) → P st → P (insert st v))
      → (st xs : List T) → P st
      → P (add_all insert st xs)
  add_all-keeps insert P kept st [] p = p
  add_all-keeps insert P kept st (x ∷ xs) p =
      add_all-keeps insert P kept (insert st x) xs (kept st x p)

module _ {T : Type 0} (eq : T → T → Bool) where
  -- No element stands twice.
  abbrev pub Distinct : List T → Type 0
  Distinct [] = Unit
  Distinct (x ∷ xs) = All (λ y. eq x y ≡ false) xs × Distinct xs

-- The order of the elements is total, and `==` is equality.
pub record IsOrdered {T : Type 0} (less eq : T → T → Bool) : Type 0 where
  pub trans : (x y z : T) → less x y ≡ true → less y z ≡ true → less x z ≡ true
  pub total : (x y : T) → less x y ≡ false → less y x ≡ false → x ≡ y
  pub eq_same : (x y : T) → eq x y ≡ true → x ≡ y

module _ {T : Type 0} (less eq : T → T → Bool) (laws : IsOrdered less eq) where
  set_insert-members : Adds (set_insert less)
  unfolding set_insert
  set_insert-members [] v w = ((λ h. h), λ h. h)
  set_insert-members (x ∷ st) v w = elim (Bool-cases (less v x)) [
    | inl front ↦ rw front ((λ h. h), λ h. h)
    | inr not_front ↦ elim (Bool-cases (less x v)) [
      | inl behind ↦
          let (out, into) = set_insert-members st v w in
          rw (not_front, behind)
            (
              (λ h. elim h [
                | inl here ↦ inr (inl here)
                | inr later ↦ elim (out later) [ inl new ↦ inl new | inr old ↦ inr (inr old) ]
              ]),
              λ h. elim h [
                | inl new ↦ inr (into (inl new))
                | inr (inl here) ↦ inl here
                | inr (inr old) ↦ inr (into (inr old))
              ],
            )
      | inr not_behind ↦
          rw (not_front, not_behind)
            (
              (λ h. inr h),
              λ h. elim h [
                | inl new ↦ inl (new ∙ laws.total v x not_front not_behind)
                | inr old ↦ old
              ],
            )
    ]
  ]

  set_insert-Ascending :
      (st : List T) (v : T) → Ascending less st → Ascending less (set_insert less st v)
  unfolding set_insert
  set_insert-Ascending [] v ascending = (tt, tt)
  set_insert-Ascending (x ∷ st) v (first, ascending) = elim (Bool-cases (less v x)) [
    | inl front ↦ rw front (
      (
        front,
        All-Among (λ y. less v y ≡ true) st
            (λ y among. laws.trans v x y front (Among-All (λ z. less x z ≡ true) y st among first)),
      ),
      (first, ascending),
    )
    | inr not_front ↦ elim (Bool-cases (less x v)) [
      | inl behind ↦
          rw (not_front, behind)
            (
              All-Among (λ y. less x y ≡ true) (set_insert less st v)
                  (λ y among. elim ((set_insert-members st v y).0 among) [
                    | inl new ↦ subst (λ z. less x z ≡ true) (sym new) behind
                    | inr old ↦ Among-All (λ z. less x z ≡ true) y st old first
                  ]),
              set_insert-Ascending st v ascending,
            )
      | inr not_behind ↦ rw (not_front, not_behind) (first, ascending)
    ]
  ]

  unordered_insert-members : Adds (unordered_insert eq)
  unfolding unordered_insert
  unordered_insert-members [] v w = ((λ h. h), λ h. h)
  unordered_insert-members (x ∷ st) v w = elim (Bool-cases (eq x v)) [
    | inl there ↦ rw there (
      (λ h. inr h),
      λ h. elim h [ inl new ↦ inl (new ∙ sym (laws.eq_same x v there)) | inr old ↦ old ],
    )
    | inr other ↦
        let (out, into) = unordered_insert-members st v w in
        rw other (
          (λ h. elim h [
            | inl here ↦ inr (inl here)
            | inr later ↦ elim (out later) [ inl new ↦ inl new | inr old ↦ inr (inr old) ]
          ]),
          λ h. elim h [
            | inl new ↦ inr (into (inl new))
            | inr (inl here) ↦ inl here
            | inr (inr old) ↦ inr (into (inr old))
          ],
        )
  ]

  unordered_insert-Distinct :
      (st : List T) (v : T) → Distinct eq st → Distinct eq (unordered_insert eq st v)
  unfolding unordered_insert
  unordered_insert-Distinct [] v distinct = (tt, tt)
  unordered_insert-Distinct (x ∷ st) v (first, distinct) = elim (Bool-cases (eq x v)) [
    | inl there ↦ rw there (first, distinct)
    | inr other ↦ rw other (
      All-Among (λ y. eq x y ≡ false) (unordered_insert eq st v)
          (λ y among. elim ((unordered_insert-members st v y).0 among) [
            | inl new ↦ subst (λ z. eq x z ≡ false) (sym new) other
            | inr old ↦ Among-All (λ z. eq x z ≡ false) y st old first
          ]),
      unordered_insert-Distinct st v distinct,
    )
  ]

  from_nothing :
      (insert : List T → T → List T) (xs : List T)
      → Adds insert
      → SameElements (add_all insert [] xs) xs
  from_nothing insert xs adds w =
      let (to, from) = add_all-members insert adds [] xs w in
      ((λ h. elim (to h) [ inl never ↦ absurd never | inr there ↦ there ]), λ h. from (inr h))

  module _ (yaml : Yaml) (seqs : Sequences yaml) (to_str : T → Option (List ℕ))
      (from_str : List ℕ → Option T) where
    -- A text that a vector is written as, also one with repeated elements, and that an unordered set is
    -- written as that is gone through in this order, is read as a `std::set` whose elements stand in
    -- ascending order, and as a `std::unordered_set` in which no element stands twice. Both have the
    -- elements of the vector. An element is to be read back from its text, `<` is to be a total order,
    -- and what `==` says is equal is to be the same.
    pub string_to_set-vector_to_string :
        (xs : List T)
        → All (Survives yaml seqs to_str from_str) xs
        → (text : List ℕ) × (vector_to_string yaml to_str xs ≡ some text)
          × (unordered_set_to_string yaml to_str xs ≡ some text)
          × ((st : List T) × (string_to_set yaml less from_str text ≡ some st)
              × Ascending less st
              × SameElements st xs)
          × ((us : List T) × (string_to_unordered_set yaml eq from_str text ≡ some us)
              × Distinct eq us
              × SameElements us xs)
    unfolding vector_to_string unordered_set_to_string string_to_set string_to_unordered_set
    string_to_set-vector_to_string xs all =
        let (text, e, reads) = written_is_read yaml seqs to_str from_str xs all in
        (
          text,
          e,
          e,
          (
            add_all (set_insert less) [] xs,
            reads (List T) (set_insert less) [],
            add_all-keeps (set_insert less) (Ascending less) set_insert-Ascending [] xs tt,
            from_nothing (set_insert less) xs set_insert-members,
          ),
          (
            add_all (unordered_insert eq) [] xs,
            reads (List T) (unordered_insert eq) [],
            add_all-keeps (unordered_insert eq) (Distinct eq) unordered_insert-Distinct [] xs tt,
            from_nothing (unordered_insert eq) xs unordered_insert-members,
          ),
        )
