-- ===== src/Serialize.antt =====
-- serialize/serialize.h and serialize/serialize.cpp: the class `Serialize`, its two constructors and
-- the calls that move raw bytes. A byte is a number below 256.
pub mod Writer
pub mod Spill
pub mod Lost
pub mod Streams
pub mod Fixed
pub mod ZigZag
pub mod Varint
pub mod Text
pub mod Signed
pub mod Person
pub mod File
mod Examples
use cpp_utils.Base.{
  ℕ, zero, suc, ◌+◌, ◌-◌, ◌%◌, ◌^◌, ◌≤◌, ◌<◌, ◌≡◌, refl, Bool, true, false, ◌&&◌, not, Option, none,
  some, List, [], ◌∷◌, ◌++◌, length, take, drop, ltb, leb, ◌==◌, if◌then◌else◌, Outcome, ok, fault,
  aborted, out_of_fuel, ◌>>=◌, ◌>>◌,
}

-- `Serialize::type`
pub data Kind : Type 0 where
  serializer deserializer : Kind

-- A `Node` is the memory behind its `str`, which is `base_size` long. `nodes` is the list from
-- `_head` to `_tail`, and `cur` the offset of `_cur` from the `str` of `_head`, the only node that
-- the code lets `_cur` point into.
pub record Serialize : Type 0 where
  pub kind : Kind
  pub base_size : ℕ
  pub nodes : List (List ℕ)
  pub cur : ℕ
  pub capacity : ℕ
  pub size : ℕ
  pub buf : Option (List ℕ)
  pub len : ℕ
  pub readed : ℕ

-- What `malloc` hands out: the bytes that the memory happens to hold, or nothing. The first
-- argument counts the calls.
abbrev pub Malloc : Type 0
Malloc = ℕ → ℕ → Option (List ℕ)

abbrev pub u32 : ℕ → ℕ
u32 n = n % 2 ^ 32

abbrev is_serializer : Kind → Bool
is_serializer serializer = true
is_serializer deserializer = false

-- `assert(b)`
abbrev pub assert : Bool → Outcome (Unit {0})
assert true = ok tt
assert false = aborted

-- `memmove` to offset `at` of a piece of memory; outside of it the behaviour is undefined.
abbrev pub memmove : List ℕ → ℕ → List ℕ → Outcome (List ℕ)
memmove mem at bytes =
    if leb (at + length bytes) (length mem)
    then ok (take at mem ++ (bytes ++ drop (at + length bytes) mem))
    else fault

-- `Node(base_size)`: without memory the process exits.
abbrev pub new_node : Malloc → ℕ → ℕ → Outcome (List ℕ)
new_node malloc calls base_size = elim (malloc calls base_size) [ none ↦ aborted | some m ↦ ok m ]

-- `Serialize(type, base_size)`
unfoldable pub with_base_size : Malloc → Kind → ℕ → Outcome Serialize
with_base_size malloc kind base_size = do
  head ← new_node malloc 0 base_size
  ok (record {
    kind = kind;
    base_size = base_size;
    nodes = head ∷ [];
    cur = 0;
    capacity = u32 base_size;
    size = 0;
    buf = none;
    len = 0;
    readed = 0;
  })

-- `Serialize(type, bytearray)`
unfoldable pub from_bytes : Malloc → Kind → List ℕ → Outcome Serialize
from_bytes malloc kind bytearray = do
  assert (not (is_serializer kind) && ltb 0 (length bytearray))
  mem ← new_node malloc 0 (length bytearray)
  buf ← memmove mem 0 bytearray
  ok (record {
    kind = kind;
    base_size = 4096;
    nodes = [];
    cur = 0;
    capacity = 0;
    size = 0;
    buf = some buf;
    len = length bytearray;
    readed = 0;
  })

-- `reset()`: the members are cleared only if there is a buffer.
unfoldable pub reset : Serialize → Outcome Serialize
reset s = do
  assert (not (is_serializer s.kind))
  elim s.buf [ none ↦ ok s | some _ ↦ ok (record s { buf = none; len = 0; readed = 0 }) ]

-- `reset(bytearray)`
unfoldable pub reset_to : Malloc → Serialize → List ℕ → Outcome Serialize
unfolding reset
reset_to malloc s bytearray = do
  s' ← reset s
  mem ← new_node malloc 0 (length bytearray)
  buf ← memmove mem 0 bytearray
  ok (record s' { buf = some buf; len = length bytearray })

-- The first copy of `write`, through `_cur` into the head node.
abbrev pub copy_to_cur : List (List ℕ) → ℕ → List ℕ → Outcome (List (List ℕ))
copy_to_cur [] cur bytes = fault
copy_to_cur (head ∷ rest) cur bytes = do head' ← memmove head cur bytes; ok (head' ∷ rest)

-- A new tail node that starts with `bytes`.
abbrev pub add_node : Malloc → ℕ → List (List ℕ) → List ℕ → Outcome (List (List ℕ))
add_node malloc base_size nodes bytes = do
  node ← new_node malloc (length nodes) base_size
  node' ← memmove node 0 bytes
  ok (nodes ++ (node' ∷ []))

-- `while (remain > _base_size)`: the nodes, and what is left to be written.
unfoldable pub fill_nodes :
    Malloc → ℕ → ℕ → List (List ℕ) → List ℕ → Outcome (List (List ℕ) × List ℕ)
fill_nodes malloc base_size zero nodes p = out_of_fuel
fill_nodes malloc base_size (suc fuel) nodes p = elim (ltb base_size (length p)) [
  | true ↦ do
    nodes' ← add_node malloc base_size nodes (take base_size p)
    fill_nodes malloc base_size fuel nodes' (drop base_size p)
  | false ↦ ok (nodes, p)
]

-- `write` where the bytes do not fit the current node: `_cur` moves by what the last node got.
unfoldable pub write_across : Malloc → Serialize → List ℕ → Outcome Serialize
unfolding fill_nodes
write_across malloc s bytes = do
  nodes ← copy_to_cur s.nodes s.cur (take s.capacity bytes)
  (nodes', p) ← fill_nodes malloc s.base_size (suc (length bytes)) nodes (drop s.capacity bytes)
  nodes'' ← add_node malloc s.base_size nodes' p
  ok (record s {
    nodes = nodes'';
    cur = s.cur + length p;
    capacity = u32 (s.base_size - length p);
    size = u32 (s.size + length bytes);
  })

-- `write` where they fit, with room to spare.
unfoldable pub write_within : Serialize → List ℕ → Outcome Serialize
write_within s bytes = do
  nodes ← copy_to_cur s.nodes s.cur bytes
  ok (record s {
    nodes = nodes;
    cur = s.cur + length bytes;
    capacity = s.capacity - length bytes;
    size = u32 (s.size + length bytes);
  })

-- `write(buf, len)`
unfoldable pub write : Malloc → Serialize → List ℕ → Outcome Serialize
unfolding write_within write_across
write malloc s bytes = do
  assert (is_serializer s.kind)
  if ltb (length bytes) s.capacity then write_within s bytes else write_across malloc s bytes

-- `read(buf, len)`: the bytes that it copies out, and the object.
unfoldable pub read : ℕ → Serialize → Outcome (List ℕ × Serialize)
read n s = do
  assert (not (is_serializer s.kind))
  assert (leb (n + s.readed) s.len)
  elim s.buf [
    | none ↦ if n == 0 then ok ([], s) else fault
    | some mem ↦ ok (take n (drop s.readed mem), record s { readed = u32 (s.readed + n) })
  ]

-- The loop of `toString`: `s` bytes from the nodes that are left.
unfoldable pub collect : ℕ → List (List ℕ) → ℕ → Outcome (List ℕ)
collect base_size [] s = fault
collect base_size (node ∷ rest) s =
    let more = collect base_size rest (s - base_size) in
    if ltb base_size s
    then (more >>= λ bytes. ok (take base_size node ++ bytes))
    else ok (take s node)

-- `toString()`
unfoldable pub to_string : Serialize → Outcome (List ℕ)
unfolding collect
to_string s = collect s.base_size s.nodes s.size
