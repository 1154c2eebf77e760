-- ===== src/Log/Format.antt =====
-- `formatInteger` of log/logStream.h and `formatHex` of log/logStream.cpp.
use mathlib.Core.List.{reverse-cons, reverse-append}
use cpp_utils.Base.{
  ℕ, zero, suc, ◌+◌, ◌-◌, ◌*◌, ◌/◌, ◌%◌, ◌≤◌, ◌<◌, ◌≡◌, refl, sym, ap, ◌∙◌, arith, Bool, true,
  false, inl, inr, Bool-cases, List, [], ◌∷◌, ◌++◌, length, reverse, length-reverse, All,
  All-reverse, ◌↔◌, ltb, ◌==◌, ==_iff, ==_false, if◌then◌else◌, Outcome, ok, fault, out_of_fuel,
  ◌>>=◌,
}
use cpp_utils.Base.Int.{ℤ, pos, negsuc, pos_part, neg_part}

-- The integer quotient and remainder of C++: both round towards zero.
abbrev negated : ℕ → ℤ
negated zero = pos 0
negated (suc n) = negsuc n

abbrev div_ten : ℤ → ℤ
div_ten (pos n) = pos (n / 10)
div_ten (negsuc n) = negated (suc n / 10)

abbrev mod_ten : ℤ → ℤ
mod_ten (pos n) = pos (n % 10)
mod_ten (negsuc n) = negated (suc n % 10)

-- `digits[i]`: an index below 0 is outside the array.
abbrev digit_at : ℤ → Outcome ℕ
digit_at (pos n) = ok (48 + n)
digit_at (negsuc n) = fault

abbrev is_zero : ℤ → Bool
is_zero (pos n) = n == 0
is_zero (negsuc n) = false

-- The `do` loop: the characters in the order in which they are pushed.
unfoldable pub push_digits : ℕ → ℤ → Outcome (List ℕ)
push_digits zero i = out_of_fuel
push_digits (suc fuel) i = do
  c ← digit_at (mod_ten i)
  let more = push_digits fuel (div_ten i)
  if is_zero (div_ten i) then ok (c ∷ []) else (more >>= λ cs. ok (c ∷ cs))

abbrev is_negative : ℤ → Bool
is_negative (pos n) = false
is_negative (negsuc n) = true

-- A round divides by ten, so the absolute value of `v` bounds the rounds.
unfoldable pub format_integer : ℤ → Outcome (List ℕ)
unfolding push_digits
format_integer v = do
  s ← push_digits (suc (pos_part v + neg_part v)) v
  ok (reverse (if is_negative v then s ++ (b'-' ∷ []) else s))

-- The characters `0` to `9` and `a` to `f` of the array `hex`.
abbrev hex_at : ℕ → ℕ
hex_at d = if ltb d 10 then 48 + d else 87 + d

unfoldable pub push_hex : ℕ → ℕ → Outcome (List ℕ)
push_hex zero tmp = out_of_fuel
push_hex (suc fuel) tmp =
    let more = push_hex fuel (tmp / 16) in
    if tmp == 0 then ok [] else (more >>= λ cs. ok (hex_at (tmp % 16) ∷ cs))

unfoldable pub format_hex : ℕ → Outcome (List ℕ)
unfolding push_hex
format_hex v = do ret ← push_hex (suc v) v; ok (reverse (ret ++ (b'x' ∷ b'0' ∷ [])))

-- The number that a text of decimal digits stands for.
abbrev pub decimal_from : ℕ → List ℕ → ℕ
decimal_from acc [] = acc
decimal_from acc (c ∷ cs) = decimal_from (acc * 10 + (c - 48)) cs

abbrev pub IsDigit : ℕ → Type 0
IsDigit c = (48 ≤ c) × (c ≤ 57)

-- The number of a text with the lowest digit first.
abbrev low_first : List ℕ → ℕ
low_first [] = 0
low_first (c ∷ cs) = c - 48 + 10 * low_first cs

decimal_from-append :
    (xs : List ℕ) (acc c : ℕ)
    → decimal_from acc (xs ++ (c ∷ [])) ≡ decimal_from acc xs * 10 + (c - 48)
decimal_from-append [] acc c = refl
decimal_from-append (x ∷ xs) acc c = decimal_from-append xs (acc * 10 + (x - 48)) c

decimal_from-reverse : (cs : List ℕ) → decimal_from 0 (reverse cs) ≡ low_first cs
decimal_from-reverse [] = refl
decimal_from-reverse (c ∷ cs) =
    rw (reverse-cons c cs, decimal_from-append (reverse cs) 0 c, decimal_from-reverse cs)
      (omega arith)

-- What the loop pushes for a number that is not negative.
push_digits-pos :
    (fuel n : ℕ)
    → n < fuel
    → (cs : List ℕ) × (push_digits fuel (pos n) ≡ ok cs)
      × (low_first cs ≡ n)
      × All IsDigit cs
      × (0 < length cs)
unfolding push_digits
push_digits-pos zero n h = absurd (omega arith)
push_digits-pos (suc fuel) n h = elim (Bool-cases (n / 10 == 0)) [
  | inl last ↦
      ((48 + n % 10) ∷ [], rw last, omega (arith, (==_iff _ _).0 last), omega arith, omega arith)
  | inr more ↦
      let (cs, e, value, all, some_digit) =
        push_digits-pos fuel (n / 10) (omega (arith, ==_false _ _ more)) in
      (
        (48 + n % 10) ∷ cs,
        rw (more, e),
        omega arith,
        ((omega arith, omega arith), all),
        omega arith,
      )
]

-- A negative number makes the loop read `digits` at a negative index, at its first digit from the
-- right that is not 0.
push_digits-negsuc : (fuel n : ℕ) → n < fuel → push_digits fuel (negsuc n) ≡ fault
unfolding push_digits
push_digits-negsuc zero n h = absurd (omega arith)
push_digits-negsuc (suc fuel) n h =
    round (push_digits-negsuc fuel) (suc n % 10) (suc n / 10) refl refl
  where
    round :
        ((k : ℕ) → k < fuel → push_digits fuel (negsuc k) ≡ fault)
        → (r q : ℕ) → suc n % 10 ≡ r
        → suc n / 10 ≡ q
        → push_digits (suc fuel) (negsuc n) ≡ fault
    round further (suc r) q er eq = rw er
    round further zero zero er eq = absurd (omega arith)
    round further zero (suc k) er eq = rw (er, eq, further k (omega arith))

-- `formatInteger` of a number that is not negative returns decimal digits that stand for it.
pub format_integer-decimal :
    (n : ℕ)
    → (s : List ℕ) × (format_integer (pos n) ≡ ok s)
      × (decimal_from 0 s ≡ n)
      × All IsDigit s
      × (0 < length s)
unfolding format_integer
format_integer-decimal n =
    let (cs, e, value, all, some_digit) = push_digits-pos (suc (n + 0)) n (omega arith) in
    (
      reverse cs,
      rw e,
      decimal_from-reverse cs ∙ value,
      All-reverse IsDigit cs all,
      omega (arith, length-reverse cs),
    )

-- The code's error: `formatInteger` of every negative number reads `digits` at a negative index,
-- which is outside the array.
pub format_integer-negative : (n : ℕ) → format_integer (negsuc n) ≡ fault
unfolding format_integer
format_integer-negative n = rw (push_digits-negsuc (suc (0 + suc n)) n (omega arith))

-- The number of a text of hexadecimal digits.
abbrev pub hex_value : ℕ → ℕ
hex_value c = if ltb c b'a' then c - 48 else c - 87

abbrev pub hex_from : ℕ → List ℕ → ℕ
hex_from acc [] = acc
hex_from acc (c ∷ cs) = hex_from (acc * 16 + hex_value c) cs

abbrev hex_low_first : List ℕ → ℕ
hex_low_first [] = 0
hex_low_first (c ∷ cs) = hex_value c + 16 * hex_low_first cs

hex_from-append :
    (xs : List ℕ) (acc c : ℕ) → hex_from acc (xs ++ (c ∷ [])) ≡ hex_from acc xs * 16 + hex_value c
hex_from-append [] acc c = refl
hex_from-append (x ∷ xs) acc c = hex_from-append xs (acc * 16 + hex_value x) c

hex_from-reverse : (cs : List ℕ) → hex_from 0 (reverse cs) ≡ hex_low_first cs
hex_from-reverse [] = refl
hex_from-reverse (c ∷ cs) =
    rw (reverse-cons c cs, hex_from-append (reverse cs) 0 c, hex_from-reverse cs) (omega arith)

hex_value-hex_at : (d : ℕ) → d < 16 → hex_value (hex_at d) ≡ d
hex_value-hex_at d h = ground arith

push_hex_lem :
    (fuel v : ℕ)
    → v < fuel
    → (cs : List ℕ) × (push_hex fuel v ≡ ok cs) × (hex_low_first cs ≡ v) × (v ≡ 0 → cs ≡ [])
unfolding push_hex
push_hex_lem zero v h = absurd (omega arith)
push_hex_lem (suc fuel) v h = elim (Bool-cases (v == 0)) [
  | inl none_left ↦ let z : v ≡ 0 = (==_iff _ _).0 none_left in ([], rw none_left, sym z, λ _. refl)
  | inr more ↦
      let (cs, e, value, _) = push_hex_lem fuel (v / 16) (omega (arith, ==_false _ _ more)) in
      (
        hex_at (v % 16) ∷ cs,
        rw (more, e),
        omega (arith, hex_value-hex_at (v % 16) (omega arith)),
        λ z. absurd (==_false _ _ more z),
      )
]

low_of_nil : (cs : List ℕ) → length cs ≡ 0 → hex_low_first cs ≡ 0
low_of_nil [] h = refl
low_of_nil (c ∷ cs) h = absurd (omega arith)

-- `formatHex` returns `0x` and hexadecimal digits that stand for its argument; there are digits just
-- where the argument is not 0, so that 0 (a null pointer) becomes `0x` alone.
pub format_hex_lem :
    (v : ℕ)
    → (s : List ℕ) × (format_hex v ≡ ok (b'0' ∷ b'x' ∷ s))
      × (hex_from 0 s ≡ v)
      × ((s ≡ []) ↔ (v ≡ 0))
unfolding format_hex
format_hex_lem v =
    let (cs, e, value, empty) = push_hex_lem (suc v) v (omega arith) in
    (
      reverse cs,
      rw e (ap ok (reverse-append cs (b'x' ∷ b'0' ∷ []))),
      hex_from-reverse cs ∙ value,
      (
        λ nil. sym value ∙ low_of_nil cs (omega (arith, ap length nil, length-reverse cs)),
        λ z. ap reverse (empty z),
      ),
    )
