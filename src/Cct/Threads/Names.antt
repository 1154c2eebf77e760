-- ===== src/Cct/Threads/Names.antt =====
-- Threads without a name of their own have different default names.
use cpp_utils.Base.{
  ℕ, zero, suc, ◌+◌, ◌*◌, ◌-◌, ◌/◌, ◌%◌, ◌<◌, ◌≡◌, ◌≢◌, sym, ap, ◌∙◌, inl, inr, Bool-cases, arith,
  List, [], ◌∷◌, drop, ◌==◌, ==_iff, ==_false, ◌^◌, lt→ltb,
}
use cpp_utils.Cct.Threads.{decimal, to_string, new_thread, set_default_name}

-- The number that decimal digits stand for, behind `acc`.
abbrev value_of : ℕ → List ℕ → ℕ
value_of acc [] = acc
value_of acc (c ∷ cs) = value_of (acc * 10 + (c - 48)) cs

decimal-value_of :
    (fuel n : ℕ) (digits : List ℕ)
    → n < fuel
    → value_of 0 (decimal fuel n digits) ≡ value_of n digits
unfolding decimal
decimal-value_of zero n digits h = absurd (omega arith)
decimal-value_of (suc fuel) n digits h = elim (Bool-cases (n / 10 == 0)) [
  | inl e ↦ let z = (==_iff (n / 10) 0).0 e in rw e (ap (λ k. value_of k digits) (omega (arith, z)))
  | inr e ↦
      let z = ==_false (n / 10) 0 e in
      rw e (
        decimal-value_of fuel (n / 10) ((48 + n % 10) ∷ digits) (omega (arith, z))
        ∙ ap (λ k. value_of k digits) (omega arith))
]

to_string-value_of : (n : ℕ) → n < 2 ^ 31 → value_of 0 (to_string n) ≡ n
to_string-value_of n h = rw (lt→ltb n (2 ^ 31) h) (decimal-value_of (suc n) n [] (omega arith))

-- Two threads that are made with `Thread()`, at two values of `threadNum` that are not negative, have
-- different names.
pub new_thread-distinct :
    (F : Type 0) (i j : ℕ)
    → i < 2 ^ 31
    → j < 2 ^ 31
    → i ≢ j
    → (new_thread {F = F} i).0.name ≢ (new_thread {F = F} j).0.name
unfolding new_thread set_default_name
new_thread-distinct F i j i_small j_small differ e = differ (
    sym (to_string-value_of i i_small)
    ∙ ap (λ s. value_of 0 (drop 7 s)) e
    ∙ to_string-value_of j j_small)
