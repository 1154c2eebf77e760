-- ===== src/Serialize/Varint/RoundTrip.antt =====
-- Whole round trips of the variable-length integers of serialize/serialize.cpp.
use native.Mathlib.Nat.{pow-suc, pow-le-pow_right}
use cpp_utils.Base.{
  ℕ, zero, suc, ◌+◌, ◌*◌, ◌^◌, ◌≤◌, ◌<◌, ◌≡◌, ap, ◌∙◌, arith, List, ◌++◌, length, ok, ◌>>=◌,
}
use cpp_utils.Base.Int.{ℤ, neg_part}
use cpp_utils.Serialize.{Serialize, Malloc, write}
use cpp_utils.Serialize.Writer.{Holds}
use cpp_utils.Serialize.Streams.{Unread, Reads, Appends, write-Appends}
use cpp_utils.Serialize.ZigZag.{IsSigned, zigzag, zigzag16_code, zigzag32_code, zigzag64_code}
use cpp_utils.Serialize.Varint.{
  varint_bytes, read_varint, write_var_uint16, write_var_uint32, write_var_uint64, write_var_int16,
  write_var_int32, write_var_int64, read_var_uint16, read_var_uint32, read_var_uint64,
  read_var_int16, read_var_int32, read_var_int64,
}
use cpp_utils.Serialize.Varint.Bytes.{varint-Decodes}

lt_two_pow : (v : ℕ) → v < 2 ^ v
lt_two_pow zero = omega arith
lt_two_pow (suc v) = omega (arith, lt_two_pow v, pow-suc 2 v)

-- The array of a writer is large enough: a value below `128 ^ (k + 1)` is written in 1 to `k + 1`
-- bytes, with no access outside `tmp`.
pub varint_bytes_fit :
    (k v : ℕ)
    → v < 128 ^ suc k
    → (bytes : List ℕ) × (varint_bytes (suc k) v ≡ ok bytes)
      × (0 < length bytes)
      × (length bytes ≤ suc k)
varint_bytes_fit k v h =
    let (bytes, d) =
      varint-Decodes k v (suc v) (7 * suc v) 0 0 h (omega arith) (omega arith)
        (omega (arith, lt_two_pow v, pow-le-pow_right {n = 2} (omega arith) longer))
        (omega arith) in
    (bytes, d.0, d.1, d.2)
  where
    longer : v ≤ 7 * suc v
    longer = omega arith

-- What the three widths share: `n` bits, room for `k + 1` bytes, `fuel` rounds of the reader.
uint_round_trip :
    (malloc : Malloc) (k n fuel : ℕ) (s d : Serialize) (w r bytes : List ℕ) (v : ℕ)
    → v < 2 ^ n
    → 2 ^ n ≤ 128 ^ suc k
    → 0 < n
    → n ≤ 7 * fuel
    → varint_bytes (suc k) v ≡ ok bytes
    → Holds s w
    → length w + suc k < s.base_size
    → Unread d (bytes ++ r)
    → (length bytes ≤ suc k)
      × ((s' : Serialize) × ((varint_bytes (suc k) v >>= λ b. write malloc s b) ≡ ok s')
          × Holds s' (w ++ bytes))
      × ((d' : Serialize) × (read_varint fuel n 0 0 d ≡ ok (v, d')) × Unread d' r)
uint_round_trip malloc k n fuel s d w r bytes v small wide pos enough e holds room unread =
    let (bytes', d) =
      varint-Decodes k v fuel n 0 0 (omega arith) pos (omega arith) (omega arith) (omega arith) in
    let same : bytes' ≡ bytes = cc (d.0) in
    let value : 0 + v * 2 ^ 0 ≡ v = omega arith in
    let short : length bytes ≤ suc k = rw same at d.2 in
    let (s', ws, hs, _) = write-Appends malloc bytes s w holds (omega arith) in
    let (t, rd, ud) = d.3 _ r (rw (← same) at unread) in
    (short, (s', rw (e, ◌>>=◌) ws, hs), (t, rw value at rd, ud))

-- The 32-bit writer and reader in chains.
pub write_var_uint32-Appends :
    (malloc : Malloc) (v : ℕ) (bytes : List ℕ)
    → varint_bytes 5 v ≡ ok bytes
    → Appends (write_var_uint32 malloc v) bytes
unfolding write_var_uint32
write_var_uint32-Appends malloc v bytes e s w holds room =
    let (s', ws, hs, b) = write-Appends malloc bytes s w holds room in (s', rw (e, ◌>>=◌) ws, hs, b)

pub read_var_uint32-Reads :
    (v : ℕ) (bytes : List ℕ)
    → v < 2 ^ 32
    → varint_bytes 5 v ≡ ok bytes
    → Reads read_var_uint32 bytes v
unfolding read_var_uint32
read_var_uint32-Reads v bytes small e s r unread =
    let (bytes', d) =
      varint-Decodes 4 v 6 32 0 0 (omega arith) (omega arith) (omega arith) (omega arith)
        (omega arith) in
    let same : bytes' ≡ bytes = cc (d.0) in
    let value : 0 + v * 2 ^ 0 ≡ v = omega arith in
    let (t, rd, ud) = d.3 s r (rw (← same) at unread) in (t, rw value at rd, ud)

-- A `uint16_t` takes at most 3 bytes. Its bytes, wherever `writeVarUint16` appends them and wherever
-- they stand in a deserializer, are read back by `readVarUint16` as the value.
pub var_uint16_round_trip :
    (malloc : Malloc) (s d : Serialize) (w r bytes : List ℕ) (v : ℕ)
    → v < 2 ^ 16
    → varint_bytes 3 v ≡ ok bytes
    → Holds s w
    → length w + 3 < s.base_size
    → Unread d (bytes ++ r)
    → (length bytes ≤ 3)
      × ((s' : Serialize) × (write_var_uint16 malloc v s ≡ ok s') × Holds s' (w ++ bytes))
      × ((d' : Serialize) × (read_var_uint16 d ≡ ok (v, d')) × Unread d' r)
unfolding write_var_uint16 read_var_uint16
var_uint16_round_trip malloc s d w r bytes v small e holds room unread =
    uint_round_trip malloc 2 16 4 s d w r bytes v small (omega arith) (omega arith) (omega arith) e
      holds room unread

-- An `int16_t` is written by `writeVarInt16` as the bytes of its zigzag code, and `readVarInt16` reads
-- it back.
pub var_int16_round_trip :
    (malloc : Malloc) (s d : Serialize) (w r bytes : List ℕ) (v : ℤ)
    → IsSigned 16 v
    → varint_bytes 3 (zigzag v) ≡ ok bytes
    → Holds s w
    → length w + 3 < s.base_size
    → Unread d (bytes ++ r)
    → ((s' : Serialize) × (write_var_int16 malloc v s ≡ ok s') × Holds s' (w ++ bytes))
      × ((d' : Serialize) × (read_var_int16 d ≡ ok (v, d')) × Unread d' r)
unfolding write_var_int16 read_var_int16
var_int16_round_trip malloc s d w r bytes v range e holds room unread =
    let (code, small, back) = zigzag16_code v range in
    let (_, (s', ws, hs), (d', rd, ud)) =
      uint_round_trip malloc 2 16 4 s d w r bytes (zigzag v) small (omega arith) (omega arith)
        (omega arith) e holds room unread in
    ((s', ap (λ c. write_var_uint16 malloc c s) code ∙ ws, hs), (d', rw (rd, ◌>>=◌, back), ud))

-- A `uint32_t` takes at most 5 bytes. Its bytes, wherever `writeVarUint32` appends them and wherever
-- they stand in a deserializer, are read back by `readVarUint32` as the value.
pub var_uint32_round_trip :
    (malloc : Malloc) (s d : Serialize) (w r bytes : List ℕ) (v : ℕ)
    → v < 2 ^ 32
    → varint_bytes 5 v ≡ ok bytes
    → Holds s w
    → length w + 5 < s.base_size
    → Unread d (bytes ++ r)
    → (length bytes ≤ 5)
      × ((s' : Serialize) × (write_var_uint32 malloc v s ≡ ok s') × Holds s' (w ++ bytes))
      × ((d' : Serialize) × (read_var_uint32 d ≡ ok (v, d')) × Unread d' r)
unfolding write_var_uint32 read_var_uint32
var_uint32_round_trip malloc s d w r bytes v small e holds room unread =
    uint_round_trip malloc 4 32 6 s d w r bytes v small (omega arith) (omega arith) (omega arith) e
      holds room unread

-- An `int32_t` other than the least one is written by `writeVarInt32` as the bytes of its zigzag
-- code, and `readVarInt32` reads it back.
pub var_int32_round_trip :
    (malloc : Malloc) (s d : Serialize) (w r bytes : List ℕ) (v : ℤ)
    → IsSigned 32 v
    → neg_part v < 2 ^ 31
    → varint_bytes 5 (zigzag v) ≡ ok bytes
    → Holds s w
    → length w + 5 < s.base_size
    → Unread d (bytes ++ r)
    → ((s' : Serialize) × (write_var_int32 malloc v s ≡ ok s') × Holds s' (w ++ bytes))
      × ((d' : Serialize) × (read_var_int32 d ≡ ok (v, d')) × Unread d' r)
unfolding write_var_int32 read_var_int32
var_int32_round_trip malloc s d w r bytes v range not_least e holds room unread =
    let (code, small, back) = zigzag32_code v range not_least in
    let (_, (s', ws, hs), (d', rd, ud)) =
      uint_round_trip malloc 4 32 6 s d w r bytes (zigzag v) small (omega arith) (omega arith)
        (omega arith) e holds room unread in
    ((s', rw (code, ◌>>=◌) ws, hs), (d', rw (rd, ◌>>=◌, back), ud))

-- A `uint64_t` takes at most 10 bytes. Its bytes, wherever `writeVarUint64` appends them and wherever
-- they stand in a deserializer, are read back by `readVarUint64` as the value.
pub var_uint64_round_trip :
    (malloc : Malloc) (s d : Serialize) (w r bytes : List ℕ) (v : ℕ)
    → v < 2 ^ 64
    → varint_bytes 10 v ≡ ok bytes
    → Holds s w
    → length w + 10 < s.base_size
    → Unread d (bytes ++ r)
    → (length bytes ≤ 10)
      × ((s' : Serialize) × (write_var_uint64 malloc v s ≡ ok s') × Holds s' (w ++ bytes))
      × ((d' : Serialize) × (read_var_uint64 d ≡ ok (v, d')) × Unread d' r)
unfolding write_var_uint64 read_var_uint64
var_uint64_round_trip malloc s d w r bytes v small e holds room unread =
    uint_round_trip malloc 9 64 11 s d w r bytes v small (omega arith) (omega arith) (omega arith) e
      holds room unread

-- An `int64_t` other than the least one is written by `writeVarInt64` as the bytes of its zigzag
-- code, if all that was written before is still in the first node and leaves more than 10 bytes of it,
-- and is then in that node behind what was written before. `readVarInt64` reads it back from a
-- deserializer whose unread bytes begin with these bytes.
pub var_int64_round_trip :
    (malloc : Malloc) (s d : Serialize) (w r bytes : List ℕ) (v : ℤ)
    → IsSigned 64 v
    → neg_part v < 2 ^ 63
    → varint_bytes 10 (zigzag v) ≡ ok bytes
    → Holds s w
    → length w + 10 < s.base_size
    → Unread d (bytes ++ r)
    → ((s' : Serialize) × (write_var_int64 malloc v s ≡ ok s') × Holds s' (w ++ bytes))
      × ((d' : Serialize) × (read_var_int64 d ≡ ok (v, d')) × Unread d' r)
unfolding write_var_int64 read_var_int64
var_int64_round_trip malloc s d w r bytes v range not_least e holds room unread =
    let (code, small, back) = zigzag64_code v range not_least in
    let (_, (s', ws, hs), (d', rd, ud)) =
      uint_round_trip malloc 9 64 11 s d w r bytes (zigzag v) small (omega arith) (omega arith)
        (omega arith) e holds room unread in
    ((s', rw (code, ◌>>=◌) ws, hs), (d', rw (rd, ◌>>=◌, back), ud))
