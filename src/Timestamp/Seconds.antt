-- ===== src/Timestamp/Seconds.antt =====
-- The arithmetic of time stamps.
use cpp_utils.Base.{
  ℕ, suc, ◌+◌, ◌*◌, ◌-◌, ◌^◌, ◌≡◌, ◌<◌, sym, ap, ◌∙◌, inl, inr, Bool-cases, leb→le, leb→gt, lt→ltb,
  arith, ltb, leb, ok, >>=-eq-ok, ok_injective,
}
use cpp_utils.Base.Int.{ℤ, pos, negsuc, pos_part, neg_part, sub_ℕ, ◌+ℤ◌, ◌-ℤ◌, ltb_ℤ}
use cpp_utils.Timestamp.{Timestamp, int64, in_micro_seconds, less, minus, plus_seconds}

-- A value that `int64` gives back is the one that it was given.
int64-ok : (z r : ℤ) → int64 z ≡ ok r → z ≡ r
unfolding int64
int64-ok (pos n) r e = elim (Bool-cases (ltb n (2 ^ 63))) [
  | inl fits ↦ ok_injective r (pos n) r (rw fits at e)
  | inr over ↦ cc (rw over at e)
]
int64-ok (negsuc n) r e = elim (Bool-cases (ltb n (2 ^ 63))) [
  | inl fits ↦ ok_injective r (negsuc n) r (rw fits at e)
  | inr over ↦ cc (rw over at e)
]

-- The parts of a difference.
sub_ℕ-parts : (a b : ℕ) → pos_part (sub_ℕ a b) + b ≡ a + neg_part (sub_ℕ a b)
sub_ℕ-parts a b = elim (Bool-cases (leb b a)) [
  | inl e ↦ rw e (omega (arith, leb→le b a e))
  | inr e ↦ rw e (omega (arith, leb→gt b a e))
]

-- Integers with the same difference of their parts are the same.
same_difference : (x y : ℤ) → pos_part x + neg_part y ≡ pos_part y + neg_part x → x ≡ y
same_difference (pos m) (pos n) e = ap pos (omega (arith, e))
same_difference (pos m) (negsuc n) e = absurd (omega (arith, e))
same_difference (negsuc m) (pos n) e = absurd (omega (arith, e))
same_difference (negsuc m) (negsuc n) e = ap negsuc (omega (arith, e))

-- The difference of a sum and its first operand is the second one.
add_sub : (a b : ℤ) → (a +ℤ b) -ℤ a ≡ b
add_sub a b = same_difference ((a +ℤ b) -ℤ a) b (
    omega (
      arith,
      sub_ℕ-parts (pos_part a + pos_part b) (neg_part a + neg_part b),
      sub_ℕ-parts (pos_part (a +ℤ b) + neg_part a) (neg_part (a +ℤ b) + pos_part a),
    ))

ltb-add : (a b : ℤ) → ltb_ℤ a (a +ℤ b) ≡ ltb (neg_part b) (pos_part b)
ltb-add a b = ground (arith, sub_ℕ-parts (pos_part a + pos_part b) (neg_part a + neg_part b))

-- A number of seconds that is an `int` has a number of microseconds that fits.
in_micro_seconds-fits :
    (seconds : ℤ)
    → pos_part seconds < 2 ^ 31
    → neg_part seconds < 2 ^ 31 + 1
    → int64 (in_micro_seconds seconds) ≡ ok (in_micro_seconds seconds)
unfolding int64
in_micro_seconds-fits (pos n) small small' =
    rw (lt→ltb (n * 1000000) (2 ^ 63) (omega (arith, small)))
in_micro_seconds-fits (negsuc n) small small' =
    rw (lt→ltb (suc n * 1000000 - 1) (2 ^ 63) (omega (arith, small')))

in_micro_seconds-positive :
    (seconds : ℤ)
    → ltb (neg_part (in_micro_seconds seconds)) (pos_part (in_micro_seconds seconds))
      ≡ ltb (neg_part seconds) (pos_part seconds)
in_micro_seconds-positive (pos n) = ground arith
in_micro_seconds-positive (negsuc n) = ground arith

-- A time that lies a number of seconds behind another one, this being an `int` and the sum in range,
-- differs from it by that number of microseconds, and is the later one just if the number is positive.
pub plus_seconds_lem :
    (t u : Timestamp) (seconds : ℤ)
    → pos_part seconds < 2 ^ 31
    → neg_part seconds < 2 ^ 31 + 1
    → plus_seconds t seconds ≡ ok u
    → (minus u t ≡ ok (in_micro_seconds seconds))
      × (less t u ≡ ltb (neg_part seconds) (pos_part seconds))
unfolding plus_seconds minus
plus_seconds_lem t u seconds small small' added =
    let d = in_micro_seconds seconds in
    let (r, fits, made) = >>=-eq-ok (int64 (t.micro_seconds +ℤ d)) _ added in
    let e : u.micro_seconds ≡ t.micro_seconds +ℤ d =
      ap (λ (x : Timestamp). x.micro_seconds)
        (ok_injective u u (record { micro_seconds = r }) (sym made))
      ∙ sym (int64-ok (t.micro_seconds +ℤ d) r fits) in
    (
      ap (λ z. int64 (z -ℤ t.micro_seconds)) e
          ∙ ap int64 (add_sub t.micro_seconds d)
          ∙ in_micro_seconds-fits seconds small small',
      ap (λ z. ltb_ℤ t.micro_seconds z) e
          ∙ ltb-add t.micro_seconds d
          ∙ in_micro_seconds-positive seconds,
    )
