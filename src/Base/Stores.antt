-- ===== src/Base/Stores.antt =====
-- Tables from numbers: addresses, or the numbers of threads.
use Prim.Native.Nat.{ℕ}
use mathlib.Core.Path.{◌≡◌, refl}
use mathlib.Core.Logic.{◌≢◌, ◌⊎◌, inl, inr}
use mathlib.Core.Option.{Option, some}
use cpp_utils.Base.Tests.{◌==◌, ==_iff, Bool-cases, if◌then◌else◌}

module _ {ℓ} {A : Type ℓ} where
  unfoldable pub put : ℕ → Option A → (ℕ → Option A) → ℕ → Option A
  put h o table i = if i == h then o else table i

  pub put_same : (h : ℕ) (o : Option A) (table : ℕ → Option A) → put h o table h ≡ o
  unfolding put
  put_same h o table = rw ((==_iff h h).1 refl)

  pub put_other :
      (h : ℕ) (o : Option A) (table : ℕ → Option A) (i : ℕ) → i ≢ h → put h o table i ≡ table i
  unfolding put
  put_other h o table i differ = elim (Bool-cases (i == h)) [
    | inl e ↦ absurd (differ ((==_iff i h).0 e))
    | inr e ↦ rw e
  ]

  -- What is in the table is new, or was there.
  pub put-cases :
      (h : ℕ) (o : Option A) (table : ℕ → Option A) (i : ℕ) (a : A)
      → put h o table i ≡ some a
      → ((i ≡ h) × (o ≡ some a)) ⊎ ((i ≢ h) × (table i ≡ some a))
  unfolding put
  put-cases h o table i a found = elim (Bool-cases (i == h)) [
    | inl e ↦ inl ((==_iff i h).0 e, rw e at found)
    | inr e ↦ inr (λ same. cc (e, (==_iff i h).1 same), rw e at found)
  ]
