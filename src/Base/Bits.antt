-- ===== src/Base/Bits.antt =====
-- The bit operations at variables, from the digit recursion that the native operations stand for.
use Prim.Native.Nat.{
  ℕ, zero, suc, ◌+◌, ◌-◌, ◌*◌, ◌/◌, ◌%◌, ◌^◌, ◌≤◌, ◌<◌, max, bit_and, bit_or, bit_xor, digits,
  differ, bit_or-bitwise, bit_xor-bitwise,
}
use mathlib.Core.Path.{◌≡◌, refl, ap}
use mathlib.Core.Bool.{Bool, true, ◌&&◌}
use native.Mathlib.Omega.{arith}
use mathlib.Core.Logic.{◌⊎◌, inl, inr}
use native.Mathlib.Nat.{pow-suc, one-le-pow}
use cpp_utils.Base.Tests.{◌==◌, ==_iff}

-- Any amount of fuel that covers the first number gives the same digits.
abbrev merged : (ℕ → ℕ → ℕ) → ℕ → ℕ → ℕ → ℕ
merged f = digits (λ y. y) f

merged_fuel : (f : ℕ → ℕ → ℕ) (k l x y : ℕ) → x ≤ k → x ≤ l → merged f k x y ≡ merged f l x y
merged_fuel f zero zero x y hk hl = refl
merged_fuel f zero (suc l) zero y hk hl = refl
merged_fuel f (suc k) zero zero y hk hl = refl
merged_fuel f (suc k) (suc l) zero y hk hl = refl
merged_fuel f zero l (suc x) y hk hl = absurd (omega arith)
merged_fuel f (suc k) zero (suc x) y hk hl = absurd (omega arith)
merged_fuel f (suc k) (suc l) (suc x) y hk hl =
    ap (λ (t : ℕ). t * 2 + f (suc x % 2) (y % 2))
      (merged_fuel f k l (suc x / 2) (y / 2) (omega arith) (omega arith))

pub bit_or-digit : (x y : ℕ) → bit_or x y ≡ bit_or (x / 2) (y / 2) * 2 + max (x % 2) (y % 2)
bit_or-digit zero y = omega (arith, bit_or-bitwise 0 y, bit_or-bitwise 0 (y / 2))
bit_or-digit (suc x) y = omega (
  arith,
  bit_or-bitwise (suc x) y,
  bit_or-bitwise (suc x / 2) (y / 2),
  merged_fuel max x (suc x / 2) (suc x / 2) (y / 2) (omega arith) (omega arith),
)

pub zero-bit_or : (y : ℕ) → bit_or 0 y ≡ y
zero-bit_or y = bit_or-bitwise 0 y

pub zero-bit_xor : (y : ℕ) → bit_xor 0 y ≡ y
zero-bit_xor y = bit_xor-bitwise 0 y

bit_xor-digit_suc :
    (x y : ℕ) → bit_xor (suc x) y ≡ bit_xor (suc x / 2) (y / 2) * 2 + differ (suc x % 2) (y % 2)
bit_xor-digit_suc x y = omega (
  arith,
  bit_xor-bitwise (suc x) y,
  bit_xor-bitwise (suc x / 2) (y / 2),
  merged_fuel differ x (suc x / 2) (suc x / 2) (y / 2) (omega arith) (omega arith),
)

-- `a | (b << i)` is a sum where `a` fits the `i` low bits.
pub bit_or_shifted : (i a b : ℕ) → a < 2 ^ i → bit_or a (b * 2 ^ i) ≡ a + b * 2 ^ i
bit_or_shifted zero a b h = ground (arith, zero-bit_or (b * 1))
bit_or_shifted (suc i) a b h = omega (
  arith,
  pow-suc 2 i,
  ap (λ (t : ℕ). b * t) (pow-suc 2 i),
  bit_or-digit a (b * 2 ^ suc i),
  bit_or_shifted i (a / 2) b (omega (arith, pow-suc 2 i)),
  ap (λ (t : ℕ). bit_or (a / 2) t) halved,
)
  where
    halved : (b * 2 ^ suc i) / 2 ≡ b * 2 ^ i
    halved = omega (arith, ap (λ (t : ℕ). b * t) (pow-suc 2 i))

pub bit_xor-digit : (x y : ℕ) → bit_xor x y ≡ bit_xor (x / 2) (y / 2) * 2 + differ (x % 2) (y % 2)
bit_xor-digit zero y = omega (arith, zero-bit_xor y, zero-bit_xor (y / 2))
bit_xor-digit (suc x) y = bit_xor-digit_suc x y

digit_cases : (d : ℕ) → d < 2 → (d ≡ 0) ⊎ (d ≡ 1)
digit_cases d h = omega arith

differ_one : (x : ℕ) → differ (x % 2) 1 ≡ 1 - x % 2
differ_one x = elim (digit_cases (x % 2) (omega arith)) [ inl e ↦ rw e | inr e ↦ rw e ]

differ_zero : (x : ℕ) → differ (x % 2) 0 ≡ x % 2
differ_zero x = elim (digit_cases (x % 2) (omega arith)) [ inl e ↦ rw e | inr e ↦ rw e ]

-- An exclusive or with `w` ones is the complement on `w` bits.
pub bit_xor_ones : (w a : ℕ) → a < 2 ^ w → bit_xor a (2 ^ w - 1) + a ≡ 2 ^ w - 1
bit_xor_ones zero a h = ground (arith, zero-bit_xor 0)
bit_xor_ones (suc w) a h = omega (
  arith,
  pow-suc 2 w,
  one-le-pow w 2 (omega arith),
  bit_xor-digit a (2 ^ suc w - 1),
  ap (λ (t : ℕ). bit_xor (a / 2) t) halved,
  ap (differ (a % 2)) odd,
  differ_one a,
  bit_xor_ones w (a / 2) (omega (arith, pow-suc 2 w)),
)
  where
    halved : (2 ^ suc w - 1) / 2 ≡ 2 ^ w - 1
    halved = omega (arith, pow-suc 2 w, one-le-pow w 2 (omega arith))

    odd : (2 ^ suc w - 1) % 2 ≡ 1
    odd = omega (arith, pow-suc 2 w, one-le-pow w 2 (omega arith))

pub bit_xor_zero : (w a : ℕ) → a < 2 ^ w → bit_xor a 0 ≡ a
bit_xor_zero zero a h = ground (arith, zero-bit_xor 0)
bit_xor_zero (suc w) a h =
    omega
      (arith, bit_xor-digit a 0, differ_zero a, bit_xor_zero w (a / 2) (omega (arith, pow-suc 2 w)))

-- Facts about one byte, checked at each of its values.
holds_below : ℕ → (ℕ → Bool) → Bool
holds_below zero p = true
holds_below (suc n) p = p n && holds_below n p

holds_below_at : (n : ℕ) (p : ℕ → Bool) (x : ℕ) → holds_below n p ≡ true → x < n → p x ≡ true
unfolding holds_below
holds_below_at zero p x h lt = absurd (omega arith)
holds_below_at (suc n) p x h lt = ground (arith, holds_below_at n p x)

top_bit_table : holds_below 256 (λ b. bit_or b 0x80 == b % 128 + 128) ≡ true
unfolding holds_below
top_bit_table = refl

-- `(uint8_t)v | 0x80`
pub with_top_bit : (v : ℕ) → bit_or (v % 256) 0x80 ≡ v % 128 + 128
with_top_bit v = omega (
  arith,
  (==_iff _ _).0 (
      holds_below_at 256 (λ b. bit_or b 0x80 == b % 128 + 128) (v % 256) top_bit_table
        (omega arith)),
)

low_bits_table : holds_below 256 (λ b. bit_and b 0x7f == b % 128) ≡ true
unfolding holds_below
low_bits_table = refl

-- `b & 0x7f`
pub low_seven_bits : (b : ℕ) → b < 256 → bit_and b 0x7f ≡ b % 128
low_seven_bits b h =
    (==_iff _ _).0 (holds_below_at 256 (λ b. bit_and b 0x7f == b % 128) b low_bits_table h)
