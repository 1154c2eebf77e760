-- ===== src/Serialize/Varint.antt =====
-- The variable-length integers of serialize/serialize.cpp: seven bits a byte, lowest group first, the
-- top bit set on every byte but the last.
pub mod Bytes
pub mod RoundTrip
use cpp_utils.Base.{
  ℕ, zero, suc, ◌+◌, ◌*◌, ◌/◌, ◌%◌, ◌^◌, bit_and, bit_or, List, [], ◌∷◌, ltb, if◌then◌else◌,
  Outcome, ok, fault, out_of_fuel, ◌>>=◌,
}
use cpp_utils.Base.Int.{ℤ}
use cpp_utils.Serialize.{Serialize, Malloc, write, read}
use cpp_utils.Serialize.ZigZag.{
  encode_zigzag16, encode_zigzag32, encode_zigzag64, decode_zigzag16, decode_zigzag32,
  decode_zigzag64,
}

-- The macro `XX(n)` of the writers. `room` is what is left of `char tmp[n]`: a byte more is a fault.
unfoldable pub varint_bytes : ℕ → ℕ → Outcome (List ℕ)
varint_bytes zero value = fault
varint_bytes (suc room) value =
    let rest = varint_bytes room (value / 2 ^ 7) in
    if ltb value 0x80
    then ok ((value % 256) ∷ [])
    else (rest >>= λ bytes. ok (bit_or (value % 256) 0x80 ∷ bytes))

module _ (malloc : Malloc) where
  -- `writeVarUint8`
  unfoldable pub write_var_uint8 : ℕ → Serialize → Outcome Serialize
  write_var_uint8 value s = write malloc s (value ∷ [])

  unfoldable pub write_var_uint16 : ℕ → Serialize → Outcome Serialize
  write_var_uint16 value s = varint_bytes 3 value >>= write malloc s

  unfoldable pub write_var_uint32 : ℕ → Serialize → Outcome Serialize
  write_var_uint32 value s = varint_bytes 5 value >>= write malloc s

  unfoldable pub write_var_uint64 : ℕ → Serialize → Outcome Serialize
  write_var_uint64 value s = varint_bytes 10 value >>= write malloc s

  unfoldable pub write_var_int16 : ℤ → Serialize → Outcome Serialize
  unfolding write_var_uint16
  write_var_int16 value s = write_var_uint16 (encode_zigzag16 value) s

  unfoldable pub write_var_int32 : ℤ → Serialize → Outcome Serialize
  unfolding write_var_uint32
  write_var_int32 value s = encode_zigzag32 value >>= λ code. write_var_uint32 code s

  unfoldable pub write_var_int64 : ℤ → Serialize → Outcome Serialize
  unfolding write_var_uint64
  write_var_int64 value s = encode_zigzag64 value >>= λ code. write_var_uint64 code s

-- The byte that `read(&b, 1)` leaves in `b`.
abbrev pub first_byte : List ℕ → ℕ
first_byte [] = 0
first_byte (b ∷ bytes) = b

-- The macro `XX(n)` of the readers: `for (int i = 0; i < n; i += 7)`.
unfoldable pub read_varint : ℕ → ℕ → ℕ → ℕ → Serialize → Outcome (ℕ × Serialize)
read_varint zero n i ret s = out_of_fuel
read_varint (suc fuel) n i ret s =
    if ltb i n
    then (do
      (bytes, s') ← read 1 s
      let b = first_byte bytes
      let more = read_varint fuel n (i + 7) (bit_or ret (bit_and b 0x7f * 2 ^ i) % 2 ^ n) s'
      if ltb b 0x80 then ok (bit_or ret (b * 2 ^ i) % 2 ^ n, s') else more)
    else ok (ret, s)

unfoldable pub read_var_uint8 : Serialize → Outcome (ℕ × Serialize)
read_var_uint8 s = do (bytes, s') ← read 1 s; ok (first_byte bytes, s')

unfoldable pub read_var_uint16 : Serialize → Outcome (ℕ × Serialize)
unfolding read_varint
read_var_uint16 = read_varint 4 16 0 0

unfoldable pub read_var_uint32 : Serialize → Outcome (ℕ × Serialize)
unfolding read_varint
read_var_uint32 = read_varint 6 32 0 0

unfoldable pub read_var_uint64 : Serialize → Outcome (ℕ × Serialize)
unfolding read_varint
read_var_uint64 = read_varint 11 64 0 0

unfoldable pub read_var_int16 : Serialize → Outcome (ℤ × Serialize)
unfolding read_var_uint16
read_var_int16 s = do (code, s') ← read_var_uint16 s; ok (decode_zigzag16 code, s')

unfoldable pub read_var_int32 : Serialize → Outcome (ℤ × Serialize)
unfolding read_var_uint32
read_var_int32 s = do (code, s') ← read_var_uint32 s; ok (decode_zigzag32 code, s')

unfoldable pub read_var_int64 : Serialize → Outcome (ℤ × Serialize)
unfolding read_var_uint64
read_var_int64 s = do (code, s') ← read_var_uint64 s; ok (decode_zigzag64 code, s')
