-- ===== src/Config/Cast/Ascending.antt =====
-- Elements that are put one after the other into a container that keeps them in order.
use cpp_utils.Base.{
  ◌≡◌, sym, ◌∙◌, Bool, true, List, [], ◌∷◌, ◌++◌, append_assoc, append-nil, All, All-append,
}

module _ {S T : Type 0} (add : S → T → S) where
  -- The loop over values that are there
  abbrev pub add_all : S → List T → S
  add_all st [] = st
  add_all st (x ∷ xs) = add_all (add st x) xs

module _ {T : Type 0} (less : T → T → Bool) where
  abbrev pub AllBelow : List T → T → Type 0
  AllBelow xs v = All (λ x. less x v ≡ true) xs

  -- The elements are in the order of `less`, and none stands twice.
  abbrev pub Ascending : List T → Type 0
  Ascending [] = Unit
  Ascending (x ∷ xs) = All (λ y. less x y ≡ true) xs × Ascending xs

  -- Each of the first elements is below each of the others.
  abbrev Below : List T → List T → Type 0
  Below front xs = All (AllBelow front) xs

  Below-snoc :
      (front xs : List T) (x : T)
      → Below front xs
      → All (λ y. less x y ≡ true) xs
      → Below (front ++ (x ∷ [])) xs
  Below-snoc front [] x below first = tt
  Below-snoc front (v ∷ xs) x (here, below) (lt, first) =
      (All-append _ front (x ∷ []) here (lt, tt), Below-snoc front xs x below first)

  Below-nil : (xs : List T) → Below [] xs
  Below-nil [] = tt
  Below-nil (x ∷ xs) = (tt, Below-nil xs)

  module _ (insert : List T → T → List T)
      (insert_last : (st : List T) (v : T) → AllBelow st v → insert st v ≡ st ++ (v ∷ [])) where
    Ascending-add_all :
        (front xs : List T) → Below front xs → Ascending xs → add_all insert front xs ≡ front ++ xs
    Ascending-add_all front [] below ascending = sym (append-nil front)
    Ascending-add_all front (x ∷ xs) (here, below) (first, ascending) =
        rw (insert_last front x here) (
          Ascending-add_all (front ++ (x ∷ [])) xs (Below-snoc front xs x below first) ascending
          ∙ append_assoc front (x ∷ []) xs)

    -- A container that puts an element above all that it has at the end comes to have the elements as
    -- they come.
    pub add_all-Ascending : (xs : List T) → Ascending xs → add_all insert [] xs ≡ xs
    add_all-Ascending xs ascending = Ascending-add_all [] xs (Below-nil xs) ascending
