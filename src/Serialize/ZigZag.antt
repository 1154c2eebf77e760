-- ===== src/Serialize/ZigZag.antt =====
-- The zigzag codes of serialize/serialize.cpp: signed values as unsigned ones that are small where
-- the value is near zero.
use native.Mathlib.Nat.{mod_self, mod-eq_of_lt, sub-zero}
use cpp_utils.Base.{
  ℕ, suc, ◌+◌, ◌-◌, ◌*◌, ◌/◌, ◌%◌, ◌^◌, ◌≤◌, ◌<◌, ◌≡◌, ◌∙◌, ◌⊎◌, inl, inr, arith, bit_xor, ltb,
  ◌==◌, if◌then◌else◌, Outcome, ok, fault,
}
use cpp_utils.Base.Int.{ℤ, pos, negsuc, pos_part, neg_part}
use cpp_utils.Base.Bits.{bit_xor_ones, bit_xor_zero}

-- The integer of a `w`-bit pattern, in two's complement.
abbrev pub signed : ℕ → ℕ → ℤ
signed w n = if ltb n (2 ^ (w - 1)) then pos n else negsuc (2 ^ w - n - 1)

-- `(uint16_t)(-value) * 2 - 1`, computed as an `int`, or `2 * (uint16_t)value`.
unfoldable pub encode_zigzag16 : ℤ → ℕ
encode_zigzag16 (pos n) = 2 * n % 2 ^ 16
encode_zigzag16 (negsuc n) = (suc n % 2 ^ 16 * 2 + 2 ^ 16 - 1) % 2 ^ 16

-- `-value` overflows at the least value of the type: undefined behaviour.
unfoldable pub encode_zigzag32 : ℤ → Outcome ℕ
encode_zigzag32 (pos n) = ok (2 * n % 2 ^ 32)
encode_zigzag32 (negsuc n) =
    if suc n == 2 ^ 31 then fault else ok ((suc n % 2 ^ 32 * 2 + 2 ^ 32 - 1) % 2 ^ 32)

unfoldable pub encode_zigzag64 : ℤ → Outcome ℕ
encode_zigzag64 (pos n) = ok (2 * n % 2 ^ 64)
encode_zigzag64 (negsuc n) =
    if suc n == 2 ^ 63 then fault else ok ((suc n % 2 ^ 64 * 2 + 2 ^ 64 - 1) % 2 ^ 64)

-- `(value >> 1) ^ -(value & 1)`, on the 32 bits of an `int`, cut down to 16.
unfoldable pub decode_zigzag16 : ℕ → ℤ
decode_zigzag16 value = signed 16 (bit_xor (value / 2) ((2 ^ 32 - value % 2) % 2 ^ 32) % 2 ^ 16)

unfoldable pub decode_zigzag32 : ℕ → ℤ
decode_zigzag32 value = signed 32 (bit_xor (value / 2) ((2 ^ 32 - value % 2) % 2 ^ 32))

unfoldable pub decode_zigzag64 : ℕ → ℤ
decode_zigzag64 value = signed 64 (bit_xor (value / 2) ((2 ^ 64 - value % 2) % 2 ^ 64))

-- The code of a value without the machine: 0, -1, 1, -2, 2, ... are 0, 1, 2, 3, 4, ...
abbrev pub zigzag : ℤ → ℕ
zigzag (pos n) = 2 * n
zigzag (negsuc n) = 2 * n + 1

abbrev pub unzigzag : ℕ → ℤ
unzigzag c = if c % 2 == 0 then pos (c / 2) else negsuc (c / 2)

-- The values of an `n`-bit signed type.
abbrev pub IsSigned : ℕ → ℤ → Type 0
IsSigned w v = (pos_part v < 2 ^ (w - 1)) × (neg_part v ≤ 2 ^ (w - 1))

-- The encoders compute the zigzag code, at every value of the type for which `-value` is defined.
encode_zigzag16-eq : (v : ℤ) → IsSigned 16 v → encode_zigzag16 v ≡ zigzag v
unfolding encode_zigzag16
encode_zigzag16-eq (pos n) h = omega arith
encode_zigzag16-eq (negsuc n) h = omega arith

encode_zigzag32-eq :
    (v : ℤ) → IsSigned 32 v → neg_part v < 2 ^ 31 → encode_zigzag32 v ≡ ok (zigzag v)
unfolding encode_zigzag32
encode_zigzag32-eq (pos n) h k = ground arith
encode_zigzag32-eq (negsuc n) h k = ground arith

encode_zigzag64-eq :
    (v : ℤ) → IsSigned 64 v → neg_part v < 2 ^ 63 → encode_zigzag64 v ≡ ok (zigzag v)
unfolding encode_zigzag64
encode_zigzag64-eq (pos n) h k = ground arith
encode_zigzag64-eq (negsuc n) h k = ground arith

unzigzag-zigzag : (v : ℤ) → unzigzag (zigzag v) ≡ v
unzigzag-zigzag (pos n) = ground arith
unzigzag-zigzag (negsuc n) = ground arith

zigzag-unzigzag : (c : ℕ) → zigzag (unzigzag c) ≡ c
zigzag-unzigzag c = ground arith

-- `(c >> 1) ^ -(c & 1)` at the width at which it is computed.
masked_even : (w c : ℕ) → c < 2 ^ w → c % 2 ≡ 0 → bit_xor (c / 2) ((2 ^ w - c % 2) % 2 ^ w) ≡ c / 2
masked_even w c h e =
    let mask : (2 ^ w - c % 2) % 2 ^ w ≡ 0 = rw (e, sub-zero) (mod_self (2 ^ w)) in
    rw mask (bit_xor_zero w (c / 2) (omega arith))

masked_odd :
    (w c : ℕ)
    → c < 2 ^ w
    → c % 2 ≡ 1
    → bit_xor (c / 2) ((2 ^ w - c % 2) % 2 ^ w) + c / 2 ≡ 2 ^ w - 1
masked_odd w c h e =
    let mask : (2 ^ w - c % 2) % 2 ^ w ≡ 2 ^ w - 1 = rw e (mod-eq_of_lt (omega arith)) in
    rw mask (bit_xor_ones w (c / 2) (omega arith))

parity : (c : ℕ) → (c % 2 ≡ 0) ⊎ (c % 2 ≡ 1)
parity c = omega arith

-- The decoders undo the code, at every pattern of the type.
decode_zigzag16-eq : (c : ℕ) → c < 2 ^ 16 → decode_zigzag16 c ≡ unzigzag c
unfolding decode_zigzag16
decode_zigzag16-eq c h = elim (parity c) [
  | inl even ↦ rw (masked_even 32 c (omega arith) even) (ground arith)
  | inr odd ↦ ground (arith, masked_odd 32 c (omega arith) odd)
]

decode_zigzag32-eq : (c : ℕ) → c < 2 ^ 32 → decode_zigzag32 c ≡ unzigzag c
unfolding decode_zigzag32
decode_zigzag32-eq c h = elim (parity c) [
  | inl even ↦ rw (masked_even 32 c h even) (ground arith)
  | inr odd ↦ ground (arith, masked_odd 32 c h odd)
]

decode_zigzag64-eq : (c : ℕ) → c < 2 ^ 64 → decode_zigzag64 c ≡ unzigzag c
unfolding decode_zigzag64
decode_zigzag64-eq c h = elim (parity c) [
  | inl even ↦ rw (masked_even 64 c h even) (ground arith)
  | inr odd ↦ ground (arith, masked_odd 64 c h odd)
]

zigzag-lt16 : (v : ℤ) → IsSigned 16 v → zigzag v < 2 ^ 16
zigzag-lt16 (pos n) h = omega arith
zigzag-lt16 (negsuc n) h = omega arith

-- What the encoder of 16-bit values returns, and that the decoder undoes it.
pub zigzag16_code :
    (v : ℤ)
    → IsSigned 16 v
    → (encode_zigzag16 v ≡ zigzag v) × (zigzag v < 2 ^ 16) × (decode_zigzag16 (zigzag v) ≡ v)
zigzag16_code v h = (
  encode_zigzag16-eq v h,
  zigzag-lt16 v h,
  decode_zigzag16-eq (zigzag v) (zigzag-lt16 v h) ∙ unzigzag-zigzag v,
)

-- Every `int16_t` survives `encodeZigZag16` and `decodeZigZag16`, and so does every `uint16_t` the
-- other way round: the code is a bijection.
pub zigzag16_round_trip :
    (v : ℤ) (c : ℕ)
    → IsSigned 16 v
    → c < 2 ^ 16
    → (decode_zigzag16 (encode_zigzag16 v) ≡ v) × (encode_zigzag16 (decode_zigzag16 c) ≡ c)
zigzag16_round_trip v c hv hc = (
  rw (encode_zigzag16-eq v hv)
      (decode_zigzag16-eq (zigzag v) (zigzag-lt16 v hv) ∙ unzigzag-zigzag v),
  rw (decode_zigzag16-eq c hc)
      (encode_zigzag16-eq (unzigzag c) (unzigzag-IsSigned16 c hc) ∙ zigzag-unzigzag c),
)
  where
    unzigzag-IsSigned16 : (c : ℕ) → c < 2 ^ 16 → IsSigned 16 (unzigzag c)
    unzigzag-IsSigned16 c h = ground arith

-- The encoder of 32-bit values returns the zigzag code, on every value but the least, and the decoder undoes it.
pub zigzag32_code :
    (v : ℤ)
    → IsSigned 32 v
    → neg_part v < 2 ^ 31
    → (encode_zigzag32 v ≡ ok (zigzag v)) × (zigzag v < 2 ^ 32) × (decode_zigzag32 (zigzag v) ≡ v)
zigzag32_code v h k = (
  encode_zigzag32-eq v h k,
  small v h k,
  decode_zigzag32-eq (zigzag v) (small v h k) ∙ unzigzag-zigzag v,
)
  where
    small : (v : ℤ) → IsSigned 32 v → neg_part v < 2 ^ 31 → zigzag v < 2 ^ 32
    small (pos n) h k = omega arith
    small (negsuc n) h k = omega arith

pub zigzag64_code :
    (v : ℤ)
    → IsSigned 64 v
    → neg_part v < 2 ^ 63
    → (encode_zigzag64 v ≡ ok (zigzag v)) × (zigzag v < 2 ^ 64) × (decode_zigzag64 (zigzag v) ≡ v)
zigzag64_code v h k = (
  encode_zigzag64-eq v h k,
  small v h k,
  decode_zigzag64-eq (zigzag v) (small v h k) ∙ unzigzag-zigzag v,
)
  where
    small : (v : ℤ) → IsSigned 64 v → neg_part v < 2 ^ 63 → zigzag v < 2 ^ 64
    small (pos n) h k = omega arith
    small (negsuc n) h k = omega arith
