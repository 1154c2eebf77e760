-- ===== src/Serialize/Writer.antt =====
-- What `write` and `toString` of serialize/serialize.cpp do to an object whose bytes are all in its
-- first node, and what a `write` does that leaves that node.
use cpp_utils.Base.{
  ℕ, ◌+◌, ◌-◌, ◌%◌, ◌^◌, ◌≤◌, ◌<◌, ◌≡◌, refl, sym, ap, none, some, arith, List, [], ◌∷◌, ◌++◌,
  length, drop, length-append, length-drop, take-append_length, drop-append_add, append_assoc,
  lt→ltb, ltb_ge, le→leb, ok,
}
use cpp_utils.Serialize.{
  Serialize, serializer, Malloc, memmove, with_base_size, write_within, write_across, write,
  to_string,
}

-- `s` is a serializer whose only node begins with the bytes `w`, and has room for more.
pub record Holds (s : Serialize) (w : List ℕ) : Type 0 where
  pub unused : List ℕ
  pub kind_is : s.kind ≡ serializer
  pub one_node : s.nodes ≡ (w ++ unused) ∷ []
  pub at_end : s.cur ≡ length w
  pub counted : s.size ≡ length w
  pub room : s.capacity ≡ length unused
  pub whole : s.base_size ≡ length w + length unused
  pub not_full : 0 < length unused
  pub in_range : s.base_size < 2 ^ 32

pub memmove_end :
    (w unused bytes : List ℕ) (at : ℕ)
    → at ≡ length w
    → length bytes ≤ length unused
    → memmove (w ++ unused) at bytes ≡ ok (w ++ (bytes ++ drop (length bytes) unused))
memmove_end w unused bytes at e h = rw (
  le→leb (at + length bytes) (length (w ++ unused)) (omega (arith, length-append w unused)),
  take-append_length at w unused e,
  drop-append_add (at + length bytes) (length bytes) w unused (omega arith),
)

write_within-Holds :
    (s : Serialize) (w bytes : List ℕ)
    → Holds s w
    → length w + length bytes < s.base_size
    → (s' : Serialize) × (write_within s bytes ≡ ok s')
      × Holds s' (w ++ bytes)
      × (s'.base_size ≡ s.base_size)
unfolding write_within
write_within-Holds s w bytes v h = (
  record s {
    nodes = (w ++ (bytes ++ drop (length bytes) v.unused)) ∷ [];
    cur = s.cur + length bytes;
    capacity = s.capacity - length bytes;
    size = (s.size + length bytes) % 2 ^ 32;
  },
  rw (v.one_node, memmove_end w v.unused bytes s.cur v.at_end (omega (arith, v.whole))),
  record {
    unused = drop (length bytes) v.unused;
    kind_is = v.kind_is;
    one_node = ap (λ n. n ∷ []) (sym (append_assoc w bytes _));
    at_end = omega (arith, v.at_end, length-append w bytes);
    counted = omega (arith, v.counted, v.at_end, v.whole, v.in_range, length-append w bytes);
    room = omega (arith, v.room, v.whole, length-drop (length bytes) v.unused);
    whole = omega (arith, v.whole, length-append w bytes, length-drop (length bytes) v.unused);
    not_full = omega (arith, v.whole, length-drop (length bytes) v.unused);
    in_range = v.in_range;
  },
  refl,
)

pub write-eq-within :
    (malloc : Malloc) (s : Serialize) (bytes : List ℕ)
    → s.kind ≡ serializer
    → length bytes < s.capacity
    → write malloc s bytes ≡ write_within s bytes
unfolding write
write-eq-within malloc s bytes k h = rw (k, lt→ltb (length bytes) s.capacity h)

pub write-eq-across :
    (malloc : Malloc) (s : Serialize) (bytes : List ℕ)
    → s.kind ≡ serializer
    → s.capacity ≤ length bytes
    → write malloc s bytes ≡ write_across malloc s bytes
unfolding write
write-eq-across malloc s bytes k h = rw (k, ltb_ge (length bytes) s.capacity h)

-- A write that leaves room in the first node appends its bytes to what the object holds.
pub write-Holds :
    (malloc : Malloc) (s : Serialize) (w bytes : List ℕ)
    → Holds s w
    → length w + length bytes < s.base_size
    → (s' : Serialize) × (write malloc s bytes ≡ ok s')
      × Holds s' (w ++ bytes)
      × (s'.base_size ≡ s.base_size)
write-Holds malloc s w bytes v h =
    rw (write-eq-within malloc s bytes v.kind_is (omega (arith, v.room, v.whole)))
      (write_within-Holds s w bytes v h)

-- `toString` returns exactly what was written.
pub to_string-Holds : (s : Serialize) (w : List ℕ) → Holds s w → to_string s ≡ ok w
unfolding to_string
to_string-Holds s w v = rw (
  v.one_node,
  ltb_ge s.base_size s.size (omega (arith, v.counted, v.whole)),
  take-append_length s.size w v.unused v.counted,
)

-- A new object holds nothing, if `malloc` gives the memory for its node.
pub with_base_size-Holds :
    (malloc : Malloc) (n : ℕ) (mem : List ℕ)
    → malloc 0 n ≡ some mem
    → length mem ≡ n
    → 0 < n
    → n < 2 ^ 32
    → (s : Serialize) × (with_base_size malloc serializer n ≡ ok s) × Holds s [] × (s.base_size ≡ n)
unfolding with_base_size
with_base_size-Holds malloc n mem e l pos small = (
  record {
    kind = serializer;
    base_size = n;
    nodes = mem ∷ [];
    cur = 0;
    capacity = n % 2 ^ 32;
    size = 0;
    buf = none;
    len = 0;
    readed = 0;
  },
  ground arith,
  record {
    unused = mem;
    kind_is = refl;
    one_node = refl;
    at_end = refl;
    counted = refl;
    room = omega arith;
    whole = omega arith;
    not_full = omega arith;
    in_range = small;
  },
  refl,
)
