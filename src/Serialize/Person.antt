-- ===== src/Serialize/Person.antt =====
-- serialize/example.hpp: an object written to a string and read back.
pub mod Stored
use cpp_utils.Base.{
  ℕ, ◌+◌, ◌^◌, ◌<◌, ◌≡◌, refl, ap, arith, List, [], ◌∷◌, ◌++◌, length, length-append, append_assoc,
  append-nil, Outcome, ok, ◌>>=◌,
}
use cpp_utils.Serialize.{serializer, deserializer, Malloc, with_base_size, from_bytes, to_string}
use cpp_utils.Serialize.Writer.{to_string-Holds, with_base_size-Holds}
use cpp_utils.Serialize.Spill.{Supplies}
use cpp_utils.Serialize.Streams.{write-Appends, read-Reads, from_bytes-Unread}
use cpp_utils.Serialize.Varint.{
  varint_bytes, write_var_uint8, write_var_uint32, read_var_uint8, read_var_uint32,
}
use cpp_utils.Serialize.Varint.RoundTrip.{
  varint_bytes_fit, write_var_uint32-Appends, read_var_uint32-Reads,
}
use cpp_utils.Serialize.Text.{write_string, read_string, write_string-Appends, read_string-Reads}

pub record Person : Type 0 where
  pub name : List ℕ
  pub sex : List ℕ
  pub age : ℕ
  pub property : ℕ

unfoldable pub serialize_to_string : Malloc → Person → Outcome (List ℕ)
serialize_to_string malloc p = do
  se ← with_base_size malloc serializer 4096
  se ← write_string malloc p.name se
  se ← write_string malloc p.sex se
  se ← write_var_uint8 malloc p.age se
  se ← write_var_uint32 malloc p.property se
  to_string se

unfoldable pub deserialize_to_person : Malloc → List ℕ → Outcome Person
deserialize_to_person malloc str = do
  de ← from_bytes malloc deserializer str
  (name, de) ← read_string de
  (sex, de) ← read_string de
  (age, de) ← read_var_uint8 de
  (property, de) ← read_var_uint32 de
  ok (record { name = name; sex = sex; age = age; property = property })

-- The string of a `Person`, its two lengths and its last field being `hn`, `hs` and `hp`.
abbrev image : Person → List ℕ → List ℕ → List ℕ → List ℕ
image p hn hs hp = (hn ++ p.name) ++ ((hs ++ p.sex) ++ ((p.age ∷ []) ++ hp))

length-image :
    (p : Person) (hn hs hp : List ℕ)
    → length (image p hn hs hp)
      ≡ length hn + length p.name + length hs + length p.sex + 1 + length hp
length-image p hn hs hp = omega (
  arith,
  length-append (hn ++ p.name) ((hs ++ p.sex) ++ ((p.age ∷ []) ++ hp)),
  length-append (hs ++ p.sex) ((p.age ∷ []) ++ hp),
  length-append hn p.name,
  length-append hs p.sex,
)

serialize_to_string-image :
    (malloc : Malloc) (p : Person) (hn hs hp : List ℕ)
    → Supplies malloc
    → varint_bytes 5 (length p.name) ≡ ok hn
    → varint_bytes 5 (length p.sex) ≡ ok hs
    → varint_bytes 5 p.property ≡ ok hp
    → length (image p hn hs hp) < 4096
    → serialize_to_string malloc p ≡ ok (image p hn hs hp)
unfolding serialize_to_string write_var_uint8
serialize_to_string-image malloc p hn hs hp supplies en es ep short =
    let l = length-image p hn hs hp in
    let (mem, m, ml) = supplies 0 4096 in
    let (s0, e0, h0, b0) = with_base_size-Holds malloc 4096 mem m ml (omega arith) (omega arith) in
    let (s1, e1, h1, b1) =
      write_string-Appends malloc p.name hn (omega arith) en s0 [] h0
        (omega (arith, length-append hn p.name)) in
    let w1 : List ℕ = hn ++ p.name in
    let (s2, e2, h2, b2) =
      write_string-Appends malloc p.sex hs (omega arith) es s1 w1 h1
        (omega (arith, length-append hn p.name, length-append hs p.sex)) in
    let w2 : List ℕ = w1 ++ (hs ++ p.sex) in
    let l2 : length w2 ≡ length hn + length p.name + length hs + length p.sex =
      omega
        (arith, length-append w1 (hs ++ p.sex), length-append hn p.name, length-append hs p.sex) in
    let (s3, e3, h3, b3) = write-Appends malloc (p.age ∷ []) s2 w2 h2 (omega arith) in
    let w3 : List ℕ = w2 ++ (p.age ∷ []) in
    let (s4, e4, h4, b4) =
      write_var_uint32-Appends malloc p.property hp ep s3 w3 h3
        (omega (arith, length-append w2 (p.age ∷ []))) in
    rw (e0, ◌>>=◌, e1, e2, e3, e4, to_string-Holds s4 (w3 ++ hp) h4) (ap ok (simp append_assoc))

deserialize_to_person-image :
    (malloc : Malloc) (p : Person) (hn hs hp : List ℕ)
    → Supplies malloc
    → varint_bytes 5 (length p.name) ≡ ok hn
    → varint_bytes 5 (length p.sex) ≡ ok hs
    → varint_bytes 5 p.property ≡ ok hp
    → length (image p hn hs hp) < 4096
    → p.property < 2 ^ 32
    → deserialize_to_person malloc (image p hn hs hp) ≡ ok p
unfolding deserialize_to_person read_var_uint8
deserialize_to_person-image malloc p hn hs hp supplies en es ep short small =
    let l = length-image p hn hs hp in
    let (mem, m, ml) = supplies 0 (length (image p hn hs hp)) in
    let (d0, e0, u0) =
      from_bytes-Unread malloc (image p hn hs hp) mem m ml (omega arith) (omega arith) in
    let (d1, e1, u1) = read_string-Reads p.name hn (omega arith) en d0 _ u0 in
    let (d2, e2, u2) = read_string-Reads p.sex hs (omega arith) es d1 _ u1 in
    let (d3, e3, u3) = read-Reads 1 (p.age ∷ []) refl d2 hp u2 in
    let (d4, e4, u4) = read_var_uint32-Reads p.property hp small ep d3 [] (rw append-nil u3) in
    rw (e0, ◌>>=◌, e1, e2, e3, e4)

-- Each object whose two strings leave 16 bytes of a 4096-byte node survives `serializeToString` and
-- `deserializeToPerson`, its two numbers being in the ranges of their types; `malloc` is supposed
-- never to fail.
pub person_round_trip :
    (malloc : Malloc) (p : Person)
    → Supplies malloc
    → length p.name + length p.sex + 16 < 4096
    → p.age < 256
    → p.property < 2 ^ 32
    → (serialize_to_string malloc p >>= deserialize_to_person malloc) ≡ ok p
person_round_trip malloc p supplies short byte small =
    let (hn, en, ln, un) = varint_bytes_fit 4 (length p.name) (omega arith) in
    let (hs, es, ls, us) = varint_bytes_fit 4 (length p.sex) (omega arith) in
    let (hp, ep, lp, up) = varint_bytes_fit 4 p.property (omega arith) in
    let fits : length (image p hn hs hp) < 4096 = omega (arith, length-image p hn hs hp) in
    rw (serialize_to_string-image malloc p hn hs hp supplies en es ep fits)
      (deserialize_to_person-image malloc p hn hs hp supplies en es ep fits small)
