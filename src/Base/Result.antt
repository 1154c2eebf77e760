-- ===== src/Base/Result.antt =====
-- How a call ends. `fault` is undefined behaviour (an access outside an object, a signed overflow),
-- `aborted` a failed `assert` or a call of `exit`, `thrown` an exception that leaves the call,
-- `out_of_fuel` a loop that used up its fuel.
use mathlib.Core.Path.{◌≡◌, refl, ap}

pub data Outcome {ℓ} (A : Type ℓ) : Type ℓ where
  ok : A → Outcome A
  fault : Outcome A
  aborted : Outcome A
  thrown : Outcome A
  out_of_fuel : Outcome A

infixl 5 ◌>>=◌ ◌>>◌
abbrev pub ◌>>=◌ {ℓ κ} :
    {A : Type ℓ} {B : Type κ} (call : Outcome A) (rest : A → Outcome B) → Outcome B
fault >>= rest = fault
aborted >>= rest = aborted
thrown >>= rest = thrown
out_of_fuel >>= rest = out_of_fuel
ok value >>= rest = rest value

abbrev pub ◌>>◌ {ℓ κ} : {A : Type ℓ} {B : Type κ} → Outcome A → Outcome B → Outcome B
first >> second = first >>= λ _. second

-- A chain that returned got a value from its first call.
pub >>=-eq-ok {ℓ κ} :
    {A : Type ℓ} {B : Type κ} (call : Outcome A) (rest : A → Outcome B) {result : B}
    → (call >>= rest) ≡ ok result
    → (value : A) × (call ≡ ok value) × (rest value ≡ ok result)
>>=-eq-ok fault rest returned = cc
>>=-eq-ok aborted rest returned = cc
>>=-eq-ok thrown rest returned = cc
>>=-eq-ok out_of_fuel rest returned = cc
>>=-eq-ok (ok value) rest returned = (value, refl, returned)

-- Chains with rests that agree.
pub >>=-same {ℓ κ} :
    {A : Type ℓ} {B : Type κ} (call : Outcome A) {rest rest' : A → Outcome B}
    → ((value : A) → rest value ≡ rest' value)
    → (call >>= rest) ≡ (call >>= rest')
>>=-same fault same = refl
>>=-same aborted same = refl
>>=-same thrown same = refl
>>=-same out_of_fuel same = refl
>>=-same (ok value) same = same value

-- `d` stands for what there is no value of.
abbrev value_or {ℓ} : {A : Type ℓ} → A → Outcome A → A
value_or d (ok x) = x
value_or d _ = d

pub ok_injective {ℓ} : {A : Type ℓ} (d a b : A) → ok a ≡ ok b → a ≡ b
ok_injective d a b e = ap (value_or d) e
