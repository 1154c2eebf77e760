-- ===== src/Serialize/Fixed.antt =====
-- The fixed-width values of serialize/serialize.cpp: `writeBit32/64`, `writeFixed32/64`, the floats,
-- and their readers. `little` is `g_isLittleEndian`, the byte order of the machine.
pub mod Order
use cpp_utils.Base.{
  ℕ, zero, suc, ◌+◌, ◌*◌, ◌/◌, ◌%◌, Bool, List, [], ◌∷◌, reverse, if◌then◌else◌, Outcome, ok, ◌>>=◌,
}
use cpp_utils.Serialize.{Serialize, Malloc, write, read}

-- The `n` bytes of a number, lowest first, and back.
abbrev pub le_bytes : ℕ → ℕ → List ℕ
le_bytes zero v = []
le_bytes (suc n) v = (v % 256) ∷ le_bytes n (v / 256)

abbrev pub from_le : List ℕ → ℕ
from_le [] = 0
from_le (b ∷ bs) = b + 256 * from_le bs

-- A value in the memory of the machine.
abbrev pub stored : Bool → ℕ → ℕ → List ℕ
stored little n v = if little then le_bytes n v else reverse (le_bytes n v)

abbrev pub loaded : Bool → List ℕ → ℕ
loaded little mem = if little then from_le mem else from_le (reverse mem)

-- `bswap_32` and `bswap_64`, for `n` of 4 and 8.
abbrev pub bswap : ℕ → ℕ → ℕ
bswap n v = from_le (reverse (le_bytes n v))

module _ (malloc : Malloc) (little : Bool) where
  -- `writeBit32(p)`: `p` is the memory that it points to.
  unfoldable pub write_bit32 : List ℕ → Serialize → Outcome Serialize
  write_bit32 p s =
      let v = loaded little p in write malloc s (stored little 4 (if little then bswap 4 v else v))

  unfoldable pub write_bit64 : List ℕ → Serialize → Outcome Serialize
  write_bit64 p s =
      let v = loaded little p in write malloc s (stored little 8 (if little then bswap 8 v else v))

  unfoldable pub write_fixed32 : ℕ → Serialize → Outcome Serialize
  write_fixed32 value s = write_bit32 (stored little 4 value) s

  unfoldable pub write_fixed64 : ℕ → Serialize → Outcome Serialize
  write_fixed64 value s = write_bit64 (stored little 8 value) s

  -- A `float` or `double` is its bit pattern.
  unfoldable pub write_float : ℕ → Serialize → Outcome Serialize
  write_float pattern s = write_bit32 (stored little 4 pattern) s

  unfoldable pub write_double : ℕ → Serialize → Outcome Serialize
  write_double pattern s = write_bit64 (stored little 8 pattern) s

module _ (little : Bool) where
  -- `readBit32(p)`: what it leaves in the memory. The test `if (isLittleEndian)` is of the function's
  -- address, not of its result: the swap is always made.
  unfoldable pub read_bit32 : Serialize → Outcome (List ℕ × Serialize)
  read_bit32 s = do (mem, s') ← read 4 s; ok (stored little 4 (bswap 4 (loaded little mem)), s')

  unfoldable pub read_bit64 : Serialize → Outcome (List ℕ × Serialize)
  read_bit64 s = do (mem, s') ← read 8 s; ok (stored little 8 (bswap 8 (loaded little mem)), s')

  unfoldable pub read_fixed32 : Serialize → Outcome (ℕ × Serialize)
  unfolding read_bit32
  read_fixed32 s = do (mem, s') ← read_bit32 s; ok (loaded little mem, s')

  unfoldable pub read_fixed64 : Serialize → Outcome (ℕ × Serialize)
  unfolding read_bit64
  read_fixed64 s = do (mem, s') ← read_bit64 s; ok (loaded little mem, s')

  unfoldable pub read_float : Serialize → Outcome (ℕ × Serialize)
  unfolding read_bit32
  read_float s = do (mem, s') ← read_bit32 s; ok (loaded little mem, s')

  unfoldable pub read_double : Serialize → Outcome (ℕ × Serialize)
  unfolding read_bit64
  read_double s = do (mem, s') ← read_bit64 s; ok (loaded little mem, s')
