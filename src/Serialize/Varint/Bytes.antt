-- ===== src/Serialize/Varint/Bytes.antt =====
-- The bytes that the varint writers of serialize/serialize.cpp put out are the ones from which the
-- varint readers get the value back.
use native.Mathlib.Nat.{pow-suc, mod-eq_of_lt, pow-le-pow_right, div-add-mod, mul-le-mul, le_refl}
use native.Mathlib.Numerals.{towards_suc}
use cpp_utils.Base.{
  ℕ, zero, suc, ◌+◌, ◌*◌, ◌/◌, ◌%◌, ◌^◌, ◌≤◌, ◌<◌, ◌≡◌, refl, ap, ◌∙◌, arith, inl, inr, bit_and,
  bit_or, List, [], ◌∷◌, ◌++◌, length, ltb, lt→ltb, ltb_ge, ltb→lt, ltb→ge, Bool-cases, ok,
}
use cpp_utils.Base.Bits.{bit_or_shifted, with_top_bit, low_seven_bits}
use cpp_utils.Serialize.Streams.{Reads, read-Reads}
use cpp_utils.Serialize.Varint.{varint_bytes, read_varint}

seven_up : (i : ℕ) → 2 ^ (i + 7) ≡ 128 * 2 ^ i
seven_up i = simp towards_suc (omega arith)

-- The lowest group of a value and the others, at bit `i`.
split_at : (v i : ℕ) → v * 2 ^ i ≡ v % 128 * 2 ^ i + v / 128 * 2 ^ (i + 7)
split_at v i =
    omega (
      arith,
      ap (λ (t : ℕ). t * 2 ^ i) (div-add-mod v 128),
      ap (λ (t : ℕ). v / 128 * t) (seven_up i),
    )

pow-lt_inv : (a b : ℕ) → 2 ^ a < 2 ^ b → a < b
pow-lt_inv a b h = elim (Bool-cases (ltb a b)) [
  | inl t ↦ ltb→lt a b t
  | inr t ↦ absurd (omega (arith, pow-le-pow_right {n = 2} (omega arith) (ltb→ge a b t)))
]

-- `ret |= group << i`, cut to `n` bits.
merged :
    (n i ret g : ℕ)
    → ret < 2 ^ i
    → ret + g * 2 ^ i < 2 ^ n
    → bit_or ret (g * 2 ^ i) % 2 ^ n ≡ ret + g * 2 ^ i
merged n i ret g low fits = rw (bit_or_shifted i ret g low) (mod-eq_of_lt fits)

last_group :
    (fuel n i ret b : ℕ)
    → b < 128
    → i < n
    → ret < 2 ^ i
    → ret + b * 2 ^ i < 2 ^ n
    → Reads (read_varint (suc fuel) n i ret) (b ∷ []) (ret + b * 2 ^ i)
unfolding read_varint
last_group fuel n i ret b small inside low fits s r u =
    let (s', e, u') = read-Reads 1 (b ∷ []) refl s r u in
    (s', rw (lt→ltb i n inside, e, lt→ltb b 128 small, merged n i ret b low fits), u')

inner_group :
    (fuel n i ret g v : ℕ) (bytes : List ℕ)
    → g < 128
    → i < n
    → ret < 2 ^ i
    → ret + g * 2 ^ i < 2 ^ n
    → Reads (read_varint fuel n (i + 7) (ret + g * 2 ^ i)) bytes v
    → Reads (read_varint (suc fuel) n i ret) ((g + 128) ∷ bytes) v
unfolding read_varint
inner_group fuel n i ret g v bytes small inside low fits rest s r u =
    let (s', e, u') = read-Reads 1 ((g + 128) ∷ []) refl s (bytes ++ r) u in
    let (s'', e', u'') = rest s' r u' in
    let group : bit_and (g + 128) 0x7f ≡ g = low_seven_bits (g + 128) (omega arith) ∙ omega arith in
    (
      s'',
      rw
          (
            lt→ltb i n inside,
            e,
            ltb_ge (g + 128) 128 (omega arith),
            group,
            merged n i ret g low fits,
          )
          e',
      u'',
    )

-- A value that fits `k` groups is written in 1 to `k` bytes, within the array of the writer, and a
-- reader that has `ret` from the groups before adds the value at bit `i`.
abbrev pub Decodes : ℕ → ℕ → ℕ → ℕ → ℕ → ℕ → List ℕ → Type 0
Decodes k v fuel n i ret bytes =
    (varint_bytes k v ≡ ok bytes)
    × (0 < length bytes)
    × (length bytes ≤ k)
    × Reads (read_varint fuel n i ret) bytes (ret + v * 2 ^ i)

more_groups :
    (k v fuel n i ret : ℕ) (bytes : List ℕ)
    → 128 ≤ v
    → i < n
    → ret < 2 ^ i
    → ret + v * 2 ^ i < 2 ^ n
    → Decodes k (v / 128) fuel n (i + 7) (ret + v % 128 * 2 ^ i) bytes
    → Decodes (suc k) v (suc fuel) n i ret ((v % 128 + 128) ∷ bytes)
unfolding varint_bytes
more_groups k v fuel n i ret bytes big inside low fits (e, lo, hi, reads) =
    let total : ret + v % 128 * 2 ^ i + v / 128 * 2 ^ (i + 7) ≡ ret + v * 2 ^ i =
      omega (arith, split_at v i) in
    (
      rw (ltb_ge v 0x80 big, e, with_top_bit v),
      omega arith,
      omega arith,
      inner_group fuel n i ret (v % 128) (ret + v * 2 ^ i) bytes (omega arith) inside low
          (omega (arith, split_at v i)) (rw total at reads),
    )

one_group :
    (k v fuel n i ret : ℕ)
    → v < 128
    → i < n
    → ret < 2 ^ i
    → ret + v * 2 ^ i < 2 ^ n
    → Decodes (suc k) v (suc fuel) n i ret (v ∷ [])
unfolding varint_bytes
one_group k v fuel n i ret small inside low fits = (
  rw (lt→ltb v 0x80 small, mod-eq_of_lt {n = v} {m = 256} (omega arith)),
  omega arith,
  omega arith,
  last_group fuel n i ret v small inside low fits,
)

next_inside : (v n i ret : ℕ) → 128 ≤ v → ret + v * 2 ^ i < 2 ^ n → i + 7 < n
next_inside v n i ret big fits =
    pow-lt_inv (i + 7) n (omega (arith, seven_up i, mul-le-mul big (le_refl (2 ^ i))))

group_below : (v i : ℕ) → v % 128 * 2 ^ i + 2 ^ i ≤ 128 * 2 ^ i
group_below v i =
    let h : v % 128 + 1 ≤ 128 = omega arith in omega (arith, mul-le-mul h (le_refl (2 ^ i)))

pub varint-Decodes :
    (k v fuel n i ret : ℕ)
    → v < 128 ^ suc k
    → i < n
    → ret < 2 ^ i
    → ret + v * 2 ^ i < 2 ^ n
    → n ≤ 7 * fuel + i
    → (bytes : List ℕ) × Decodes (suc k) v fuel n i ret bytes
varint-Decodes k v zero n i ret wide inside low fits enough = absurd (omega arith)
varint-Decodes zero v (suc fuel) n i ret wide inside low fits enough =
    (v ∷ [], one_group zero v fuel n i ret (omega arith) inside low fits)
varint-Decodes (suc k) v (suc fuel) n i ret wide inside low fits enough =
    elim (Bool-cases (ltb v 128)) [
      | inl t ↦ (v ∷ [], one_group (suc k) v fuel n i ret (ltb→lt v 128 t) inside low fits)
      | inr t ↦
          let big : 128 ≤ v = ltb→ge v 128 t in
          let split = split_at v i in
          let up = seven_up i in
          let (bytes, d) =
            varint-Decodes k (v / 128) fuel n (i + 7) (ret + v % 128 * 2 ^ i)
              (omega (arith, pow-suc 128 (suc k))) (next_inside v n i ret big fits)
              (omega (arith, ap (λ (t : ℕ). v % 128 * t) up, group_below v i)) (omega arith)
              (omega arith) in
          ((v % 128 + 128) ∷ bytes, more_groups (suc k) v fuel n i ret bytes big inside low fits d)
    ]
