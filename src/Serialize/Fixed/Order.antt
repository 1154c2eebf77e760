-- ===== src/Serialize/Fixed/Order.antt =====
-- Byte order of the fixed-width values of serialize/serialize.cpp.
use mathlib.Core.List.{reverse-reverse}
use native.Mathlib.Nat.{pow-suc}
use cpp_utils.Base.{
  ℕ, zero, suc, ◌+◌, ◌*◌, ◌/◌, ◌%◌, ◌^◌, ◌<◌, ◌≡◌, refl, sym, ap, ◌∙◌, arith, Bool, true, false,
  List, [], ◌∷◌, ◌++◌, length, reverse, length-reverse, if◌then◌else◌, All, All-reverse, ok,
}
use cpp_utils.Serialize.{Serialize, Malloc, write}
use cpp_utils.Serialize.Writer.{Holds}
use cpp_utils.Serialize.Streams.{write-Appends, Unread, Reads, read-Reads}
use cpp_utils.Serialize.Fixed.{
  le_bytes, from_le, stored, loaded, bswap, write_bit32, write_bit64, write_fixed32, write_fixed64,
  read_fixed32, read_fixed64,
}

abbrev pub IsByte : ℕ → Type 0
IsByte b = b < 256

length-le_bytes : (n v : ℕ) → length (le_bytes n v) ≡ n
length-le_bytes zero v = refl
length-le_bytes (suc n) v = omega (arith, length-le_bytes n (v / 256))

le_bytes-IsByte : (n v : ℕ) → All IsByte (le_bytes n v)
le_bytes-IsByte zero v = tt
le_bytes-IsByte (suc n) v = (omega arith, le_bytes-IsByte n (v / 256))

from_le-le_bytes : (n v : ℕ) → v < 256 ^ n → from_le (le_bytes n v) ≡ v
from_le-le_bytes zero v h = omega arith
from_le-le_bytes (suc n) v h =
    omega (arith, from_le-le_bytes n (v / 256) (omega (arith, pow-suc 256 n)))

le_bytes-from_le :
    (n : ℕ) (bs : List ℕ) → All IsByte bs → n ≡ length bs → le_bytes n (from_le bs) ≡ bs
le_bytes-from_le zero [] h e = refl
le_bytes-from_le zero (b ∷ bs) h e = absurd (omega arith)
le_bytes-from_le (suc n) [] h e = absurd (omega arith)
le_bytes-from_le (suc n) (b ∷ bs) (hb, hbs) e =
    let low : (b + 256 * from_le bs) % 256 ≡ b = omega arith in
    let high : (b + 256 * from_le bs) / 256 ≡ from_le bs = omega arith in
    rw (low, high, le_bytes-from_le n bs hbs (omega arith))

-- The order in which the bytes travel: highest first.
abbrev pub be_bytes : ℕ → ℕ → List ℕ
be_bytes n v = reverse (le_bytes n v)

pub length-be_bytes : (n v : ℕ) → length (be_bytes n v) ≡ n
length-be_bytes n v = length-reverse (le_bytes n v) ∙ length-le_bytes n v

le_bytes-bswap : (n v : ℕ) → le_bytes n (bswap n v) ≡ be_bytes n v
le_bytes-bswap n v =
    le_bytes-from_le n (reverse (le_bytes n v)) (All-reverse IsByte _ (le_bytes-IsByte n v))
      (sym (length-be_bytes n v))

-- Swapping twice gives the value back.
bswap-bswap : (n v : ℕ) → v < 256 ^ n → bswap n (bswap n v) ≡ v
bswap-bswap n v h = rw (le_bytes-bswap n v, reverse-reverse (le_bytes n v)) (from_le-le_bytes n v h)

loaded-stored : (little : Bool) (n v : ℕ) → v < 256 ^ n → loaded little (stored little n v) ≡ v
loaded-stored true n v h = from_le-le_bytes n v h
loaded-stored false n v h = rw (reverse-reverse (le_bytes n v)) (from_le-le_bytes n v h)

from_le-lt : (n : ℕ) (bs : List ℕ) → All IsByte bs → n ≡ length bs → from_le bs < 256 ^ n
from_le-lt n [] h e = let z : n ≡ 0 = e in rw z (omega arith)
from_le-lt zero (b ∷ bs) h e = absurd (omega arith)
from_le-lt (suc n) (b ∷ bs) (hb, hbs) e =
    omega (arith, pow-suc 256 n, from_le-lt n bs hbs (omega arith))

bswap-lt : (n v : ℕ) → bswap n v < 256 ^ n
bswap-lt n v =
    from_le-lt n (reverse (le_bytes n v)) (All-reverse IsByte _ (le_bytes-IsByte n v))
      (sym (length-be_bytes n v))

-- What a writer puts out, on a machine of either byte order.
stored-big_endian :
    (little : Bool) (n v : ℕ) → stored little n (if little then bswap n v else v) ≡ be_bytes n v
stored-big_endian true n v = le_bytes-bswap n v
stored-big_endian false n v = refl

-- `writeFixed32` appends the four bytes of its value with the highest first, on machines of either
-- byte order.
pub write_fixed32-big_endian :
    (malloc : Malloc) (little : Bool) (v : ℕ) (s : Serialize)
    → v < 2 ^ 32
    → write_fixed32 malloc little v s ≡ write malloc s (be_bytes 4 v)
unfolding write_fixed32 write_bit32
write_fixed32-big_endian malloc little v s h =
    rw (loaded-stored little 4 v h) (ap (write malloc s) (stored-big_endian little 4 v))

-- `writeFixed64` likewise, with eight bytes.
pub write_fixed64-big_endian :
    (malloc : Malloc) (little : Bool) (v : ℕ) (s : Serialize)
    → v < 2 ^ 64
    → write_fixed64 malloc little v s ≡ write malloc s (be_bytes 8 v)
unfolding write_fixed64 write_bit64
write_fixed64-big_endian malloc little v s h =
    rw (loaded-stored little 8 v h) (ap (write malloc s) (stored-big_endian little 8 v))

-- The value that a reader ends with, from the bytes highest first: it swaps on every machine.
swapped_value : Bool → ℕ → ℕ → ℕ
swapped_value little n v = if little then v else bswap n v

read_swapped :
    (little : Bool) (n v : ℕ)
    → v < 256 ^ n
    → loaded little (stored little n (bswap n (loaded little (be_bytes n v))))
      ≡ swapped_value little n v
unfolding swapped_value
read_swapped true n v h =
    loaded-stored true n (bswap n (bswap n v)) (bswap-lt n (bswap n v)) ∙ bswap-bswap n v h
read_swapped false n v h =
    rw (loaded-stored false n (bswap n (loaded false (be_bytes n v))) (bswap-lt n _))
      (ap (bswap n) (loaded-stored false n v h))

read_fixed32-be_bytes :
    (little : Bool) (v : ℕ)
    → v < 2 ^ 32
    → Reads (read_fixed32 little) (be_bytes 4 v) (swapped_value little 4 v)
unfolding read_fixed32
read_fixed32-be_bytes little v h s r u =
    let (s', e, u') = read-Reads 4 (be_bytes 4 v) (sym (length-be_bytes 4 v)) s r u in
    (s', rw (e, read_fixed32, read_swapped little 4 v h), u')

read_fixed64-be_bytes :
    (little : Bool) (v : ℕ)
    → v < 2 ^ 64
    → Reads (read_fixed64 little) (be_bytes 8 v) (swapped_value little 8 v)
unfolding read_fixed64
read_fixed64-be_bytes little v h s r u =
    let (s', e, u') = read-Reads 8 (be_bytes 8 v) (sym (length-be_bytes 8 v)) s r u in
    (s', rw (e, read_fixed64, read_swapped little 8 v h), u')

-- On a little-endian machine the four bytes that `writeFixed32` appends, wherever they stand in a
-- deserializer, are read back by `readFixed32` as the value, and what follows them stays unread.
pub fixed32_round_trip :
    (malloc : Malloc) (s d : Serialize) (w r : List ℕ) (v : ℕ)
    → v < 2 ^ 32
    → Holds s w
    → length w + 4 < s.base_size
    → Unread d (be_bytes 4 v ++ r)
    → ((s' : Serialize) × (write_fixed32 malloc true v s ≡ ok s') × Holds s' (w ++ be_bytes 4 v))
      × ((d' : Serialize) × (read_fixed32 true d ≡ ok (v, d')) × Unread d' r)
unfolding swapped_value
fixed32_round_trip malloc s d w r v small holds room unread =
    let (s', e, holds', _) =
      write-Appends malloc (be_bytes 4 v) s w holds (omega (arith, length-be_bytes 4 v)) in
    (
      (s', write_fixed32-big_endian malloc true v s small ∙ e, holds'),
      read_fixed32-be_bytes true v small d r unread,
    )

-- The same of `writeFixed64` and `readFixed64`, with eight bytes.
pub fixed64_round_trip :
    (malloc : Malloc) (s d : Serialize) (w r : List ℕ) (v : ℕ)
    → v < 2 ^ 64
    → Holds s w
    → length w + 8 < s.base_size
    → Unread d (be_bytes 8 v ++ r)
    → ((s' : Serialize) × (write_fixed64 malloc true v s ≡ ok s') × Holds s' (w ++ be_bytes 8 v))
      × ((d' : Serialize) × (read_fixed64 true d ≡ ok (v, d')) × Unread d' r)
unfolding swapped_value
fixed64_round_trip malloc s d w r v small holds room unread =
    let (s', e, holds', _) =
      write-Appends malloc (be_bytes 8 v) s w holds (omega (arith, length-be_bytes 8 v)) in
    (
      (s', write_fixed64-big_endian malloc true v s small ∙ e, holds'),
      read_fixed64-be_bytes true v small d r unread,
    )

-- The code's error: on a big-endian machine `readFixed32` returns the value with its bytes swapped.
pub read_fixed32_swaps :
    (d : Serialize) (r : List ℕ) (v : ℕ)
    → v < 2 ^ 32
    → Unread d (be_bytes 4 v ++ r)
    → (d' : Serialize) × (read_fixed32 false d ≡ ok (bswap 4 v, d')) × Unread d' r
unfolding swapped_value
read_fixed32_swaps d r v small unread = read_fixed32-be_bytes false v small d r unread
