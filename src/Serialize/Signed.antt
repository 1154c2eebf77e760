-- ===== src/Serialize/Signed.antt =====
-- The signed values of fixed width of serialize/serialize.cpp: `writeSFixed32/64`, `writeVarInt8` and
-- their readers.
use cpp_utils.Base.{
  ℕ, ◌+◌, ◌-◌, ◌^◌, ◌<◌, ◌≡◌, Bool, true, List, [], ◌∷◌, ◌++◌, length, Outcome, ok, ◌>>=◌,
}
use cpp_utils.Base.Int.{ℤ, pos, negsuc, neg_part}
use cpp_utils.Serialize.{Serialize, Malloc, write, read}
use cpp_utils.Serialize.Writer.{Holds}
use cpp_utils.Serialize.Streams.{Unread}
use cpp_utils.Serialize.ZigZag.{
  signed, IsSigned, zigzag, encode_zigzag32, encode_zigzag64, decode_zigzag32, decode_zigzag64,
  zigzag32_code, zigzag64_code,
}
use cpp_utils.Serialize.Fixed.{write_fixed32, write_fixed64, read_fixed32, read_fixed64}
use cpp_utils.Serialize.Fixed.Order.{be_bytes, fixed32_round_trip, fixed64_round_trip}
use cpp_utils.Serialize.Varint.{first_byte}

module _ (malloc : Malloc) where
  unfoldable pub write_sfixed32 : Bool → ℤ → Serialize → Outcome Serialize
  write_sfixed32 little value s =
      encode_zigzag32 value >>= λ code. write_fixed32 malloc little code s

  unfoldable pub write_sfixed64 : Bool → ℤ → Serialize → Outcome Serialize
  write_sfixed64 little value s =
      encode_zigzag64 value >>= λ code. write_fixed64 malloc little code s

  -- The byte of an `int8_t`, in two's complement.
  abbrev pub byte_of : ℤ → ℕ
  byte_of (pos n) = n
  byte_of (negsuc n) = 255 - n

  unfoldable pub write_var_int8 : ℤ → Serialize → Outcome Serialize
  write_var_int8 value s = write malloc s (byte_of value ∷ [])

unfoldable pub read_sfixed32 : Bool → Serialize → Outcome (ℤ × Serialize)
read_sfixed32 little s = do (code, s') ← read_fixed32 little s; ok (decode_zigzag32 code, s')

unfoldable pub read_sfixed64 : Bool → Serialize → Outcome (ℤ × Serialize)
read_sfixed64 little s = do (code, s') ← read_fixed64 little s; ok (decode_zigzag64 code, s')

unfoldable pub read_var_int8 : Serialize → Outcome (ℤ × Serialize)
read_var_int8 s = do (bytes, s') ← read 1 s; ok (signed 8 (first_byte bytes), s')

-- On a little-endian machine each `int32_t` but the least is written by `writeSFixed32` as the four
-- bytes of its zigzag code, highest first, and `readSFixed32` reads those back as the value, wherever
-- they stand in a deserializer.
pub sfixed32_round_trip :
    (malloc : Malloc) (s d : Serialize) (w r : List ℕ) (v : ℤ)
    → IsSigned 32 v
    → neg_part v < 2 ^ 31
    → Holds s w
    → length w + 4 < s.base_size
    → Unread d (be_bytes 4 (zigzag v) ++ r)
    → ((s' : Serialize) × (write_sfixed32 malloc true v s ≡ ok s')
        × Holds s' (w ++ be_bytes 4 (zigzag v)))
      × ((d' : Serialize) × (read_sfixed32 true d ≡ ok (v, d')) × Unread d' r)
unfolding write_sfixed32 read_sfixed32
sfixed32_round_trip malloc s d w r v range not_least holds room unread =
    let (code, small, back) = zigzag32_code v range not_least in
    let ((s', ws, hs), (d', rd, ud)) =
      fixed32_round_trip malloc s d w r (zigzag v) small holds room unread in
    ((s', rw code ws, hs), (d', rw (rd, ◌>>=◌, back), ud))

-- The same of `writeSFixed64` and `readSFixed64`, with eight bytes.
pub sfixed64_round_trip :
    (malloc : Malloc) (s d : Serialize) (w r : List ℕ) (v : ℤ)
    → IsSigned 64 v
    → neg_part v < 2 ^ 63
    → Holds s w
    → length w + 8 < s.base_size
    → Unread d (be_bytes 8 (zigzag v) ++ r)
    → ((s' : Serialize) × (write_sfixed64 malloc true v s ≡ ok s')
        × Holds s' (w ++ be_bytes 8 (zigzag v)))
      × ((d' : Serialize) × (read_sfixed64 true d ≡ ok (v, d')) × Unread d' r)
unfolding write_sfixed64 read_sfixed64
sfixed64_round_trip malloc s d w r v range not_least holds room unread =
    let (code, small, back) = zigzag64_code v range not_least in
    let ((s', ws, hs), (d', rd, ud)) =
      fixed64_round_trip malloc s d w r (zigzag v) small holds room unread in
    ((s', rw code ws, hs), (d', rw (rd, ◌>>=◌, back), ud))
