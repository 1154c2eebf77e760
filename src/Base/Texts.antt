-- ===== src/Base/Texts.antt =====
-- Texts are lists of bytes. Their equality and their order, as Boolean tests.
use Prim.Native.Nat.{ℕ}
use mathlib.Core.Path.{◌≡◌, refl, sym}
use mathlib.Core.Logic.{inl, inr}
use mathlib.Core.Bool.{Bool, true, false, ◌&&◌}
use mathlib.Core.List.{List, [], ◌∷◌}
use native.Mathlib.Omega.{arith}
use cpp_utils.Base.Tests.{◌==◌, ==_iff, ltb, Bool-cases, if◌then◌else◌}

unfoldable pub eq_text : List ℕ → List ℕ → Bool
eq_text [] [] = true
eq_text [] (y ∷ ys) = false
eq_text (x ∷ xs) [] = false
eq_text (x ∷ xs) (y ∷ ys) = (x == y) && eq_text xs ys

-- The order of `std::string`.
unfoldable pub less_text : List ℕ → List ℕ → Bool
less_text xs [] = false
less_text [] (y ∷ ys) = true
less_text (x ∷ xs) (y ∷ ys) = let further = less_text xs ys in if x == y then further else ltb x y

pub eq_text_refl : (xs : List ℕ) → eq_text xs xs ≡ true
unfolding eq_text
eq_text_refl [] = refl
eq_text_refl (x ∷ xs) = rw ((==_iff x x).1 refl) (eq_text_refl xs)

pub eq_text→eq : (xs ys : List ℕ) → eq_text xs ys ≡ true → xs ≡ ys
unfolding eq_text
eq_text→eq [] [] h = refl
eq_text→eq [] (y ∷ ys) h = cc
eq_text→eq (x ∷ xs) [] h = cc
eq_text→eq (x ∷ xs) (y ∷ ys) h = elim (Bool-cases (x == y)) [
  | inl e ↦ cc ((==_iff x y).0 e, eq_text→eq xs ys (rw e at h))
  | inr e ↦ cc (rw e at h)
]

-- The order leaves out equal texts, and no others.
pub less_text→neq : (xs ys : List ℕ) → less_text xs ys ≡ true → eq_text xs ys ≡ false
unfolding less_text eq_text
less_text→neq [] [] h = cc
less_text→neq [] (y ∷ ys) h = refl
less_text→neq (x ∷ xs) [] h = cc
less_text→neq (x ∷ xs) (y ∷ ys) h = elim (Bool-cases (x == y)) [
  | inl e ↦ rw e (less_text→neq xs ys (rw e at h))
  | inr e ↦ rw e
]

pub less_text_total : (xs ys : List ℕ) → less_text xs ys ≡ false → less_text ys xs ≡ false → xs ≡ ys
unfolding less_text
less_text_total [] [] h h' = refl
less_text_total [] (y ∷ ys) h h' = cc
less_text_total (x ∷ xs) [] h h' = cc
less_text_total (x ∷ xs) (y ∷ ys) h h' = elim (Bool-cases (x == y)) [
  | inl e ↦
      let same : x ≡ y = (==_iff x y).0 e in
      cc (same, less_text_total xs ys (rw e at h) (rw ((==_iff y x).1 (sym same)) at h'))
  | inr e ↦ absurd (ground (arith, e, h, h'))
]
