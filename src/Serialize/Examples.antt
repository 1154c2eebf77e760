-- ===== src/Serialize/Examples.antt =====
-- Runs of serialize/ on concrete input, and the theorems there.
use cpp_utils.Base.{
  ℕ, ◌^◌, ◌<◌, ◌≡◌, ◌↔◌, refl, arith, true, Option, none, some, List, [], ◌∷◌, length, replicate,
  length-replicate, All, ◌==◌, ok, fault, ◌>>=◌,
}
use cpp_utils.Base.Int.{negsuc}
use cpp_utils.Serialize.{
  Serialize, serializer, deserializer, Malloc, write, to_string, write_within, write_across,
  fill_nodes, collect,
}
use cpp_utils.Serialize.Writer.{Holds}
use cpp_utils.Serialize.Spill.{Supplies, write-to_string_spilled}
use cpp_utils.Serialize.Lost.{write_after_spill_faults}
use cpp_utils.Serialize.Streams.{Unread}
use cpp_utils.Serialize.Varint.{varint_bytes, write_var_int64, read_var_int64}
use cpp_utils.Serialize.Varint.RoundTrip.{var_int64_round_trip}
use cpp_utils.Serialize.Person.{
  Person, serialize_to_string, deserialize_to_person, person_round_trip,
}
use cpp_utils.Serialize.File.{IsPrintable, to_file, from_file, from_file-to_file}
use cpp_utils.Serialize.{with_base_size}
use cpp_utils.Serialize.Text.{write_string}
use cpp_utils.Serialize.Varint.{write_var_uint8, write_var_uint32}
use cpp_utils.Serialize.Person.Stored.{
  serialize_to_file, deserialize_from_file, person_file_round_trip,
}

-- A `malloc` that gives memory full of zeros.
abbrev zeroed : Malloc
zeroed calls n = some (replicate n 0)

zeroed-Supplies : Supplies zeroed
zeroed-Supplies calls n = (replicate n 0, refl, length-replicate n 0)

-- A new serializer with nodes of 4, 32 bytes.
abbrev fresh : ℕ → Serialize
fresh n = record {
  kind = serializer;
  base_size = n;
  nodes = replicate n 0 ∷ [];
  cur = 0;
  capacity = n;
  size = 0;
  buf = none;
  len = 0;
  readed = 0;
}

fresh_four-Holds : Holds (fresh 4) []
fresh_four-Holds = record {
  unused = 0 ∷ 0 ∷ 0 ∷ 0 ∷ [];
  kind_is = refl;
  one_node = refl;
  at_end = refl;
  counted = refl;
  room = refl;
  whole = refl;
  not_full = omega arith;
  in_range = omega arith;
}

fresh_wide-Holds : Holds (fresh 32) []
fresh_wide-Holds = record {
  unused = replicate 32 0;
  kind_is = refl;
  one_node = refl;
  at_end = refl;
  counted = refl;
  room = refl;
  whole = refl;
  not_full = omega arith;
  in_range = omega arith;
}

-- A deserializer of the given bytes.
abbrev reader : List ℕ → Serialize
reader bytes = record {
  kind = deserializer;
  base_size = 4096;
  nodes = [];
  cur = 0;
  capacity = 0;
  size = 0;
  buf = some bytes;
  len = length bytes;
  readed = 0;
}

reader-Unread : (bytes : List ℕ) → length bytes < 2 ^ 32 → Unread (reader bytes) bytes
reader-Unread bytes h = record {
  consumed = [];
  kind_is = refl;
  buf_is = refl;
  len_is = omega arith;
  at = refl;
  in_range = h;
}

write-to_string_spilled_example :
    (s' : Serialize) × (write zeroed (fresh 4) (1 ∷ 2 ∷ 3 ∷ 4 ∷ 5 ∷ []) ≡ ok s')
    × (to_string s' ≡ ok (1 ∷ 2 ∷ 3 ∷ 4 ∷ 5 ∷ []))
write-to_string_spilled_example =
    write-to_string_spilled zeroed (fresh 4) [] (1 ∷ 2 ∷ 3 ∷ 4 ∷ 5 ∷ []) zeroed-Supplies
      fresh_four-Holds (omega arith) (omega arith)

-- The object that holds three bytes of its four.
abbrev three : Serialize
three = record (fresh 4) { nodes = (1 ∷ 2 ∷ 3 ∷ 0 ∷ []) ∷ []; cur = 3; capacity = 1; size = 3 }

three-Holds : Holds three (1 ∷ 2 ∷ 3 ∷ [])
three-Holds = record {
  unused = 0 ∷ [];
  kind_is = refl;
  one_node = refl;
  at_end = refl;
  counted = refl;
  room = refl;
  whole = refl;
  not_full = omega arith;
  in_range = omega arith;
}

write_after_spill_faults_example :
    (write zeroed three (4 ∷ 5 ∷ 6 ∷ []) >>= λ s'. write zeroed s' (7 ∷ [])) ≡ fault
write_after_spill_faults_example =
    write_after_spill_faults zeroed three (1 ∷ 2 ∷ 3 ∷ []) (4 ∷ 5 ∷ 6 ∷ []) (7 ∷ []) zeroed-Supplies
      three-Holds (omega arith) (omega arith) (omega arith) (omega arith) (omega arith)

-- The object after five bytes, one of which is in a second node.
abbrev spilled : Serialize
spilled = record (fresh 4) {
  nodes = (1 ∷ 2 ∷ 3 ∷ 4 ∷ []) ∷ (5 ∷ 0 ∷ 0 ∷ 0 ∷ []) ∷ [];
  cur = 1;
  capacity = 3;
  size = 5;
}

spilled_run : write zeroed (fresh 4) (1 ∷ 2 ∷ 3 ∷ 4 ∷ 5 ∷ []) ≡ ok spilled
unfolding write write_across fill_nodes
spilled_run = refl

-- The same object after one byte more, which lands in the first node.
abbrev after_byte : ℕ → Serialize
after_byte c = record spilled {
  nodes = (1 ∷ c ∷ 3 ∷ 4 ∷ []) ∷ (5 ∷ 0 ∷ 0 ∷ 0 ∷ []) ∷ [];
  cur = 2;
  capacity = 2;
  size = 6;
}

var_int64_round_trip_example :
    ((s' : Serialize) × (write_var_int64 zeroed (negsuc 149) (fresh 32) ≡ ok s')
      × Holds s' (171 ∷ 2 ∷ []))
    × ((d' : Serialize) × (read_var_int64 (reader (171 ∷ 2 ∷ 9 ∷ [])) ≡ ok (negsuc 149, d'))
        × Unread d' (9 ∷ []))
unfolding varint_bytes
var_int64_round_trip_example =
    var_int64_round_trip zeroed (fresh 32) (reader (171 ∷ 2 ∷ 9 ∷ [])) [] (9 ∷ []) (171 ∷ 2 ∷ [])
      (negsuc 149) (omega arith) (omega arith) refl fresh_wide-Holds (omega arith)
      (reader-Unread (171 ∷ 2 ∷ 9 ∷ []) (omega arith))

abbrev someone : Person
someone = record { name = b'A' ∷ b'b' ∷ []; sex = b'f' ∷ []; age = 27; property = 300 }

person_round_trip_example :
    (serialize_to_string zeroed someone >>= deserialize_to_person zeroed) ≡ ok someone
person_round_trip_example =
    person_round_trip zeroed someone zeroed-Supplies (omega arith) (omega arith) (omega arith)

-- A disk on which nothing is, and every file of which can be opened.
abbrev no_files : ℕ → Option (List ℕ)
no_files f = none

from_file-to_file_example :
    (from_file ◌==◌ (λ f. true) 3 (to_file ◌==◌ (λ f. true) 3 (b'a' ∷ b' ' ∷ b'b' ∷ []) no_files).1
      ≡ b'a' ∷ b' ' ∷ b'b' ∷ [])
    ↔ All IsPrintable (b'a' ∷ b' ' ∷ b'b' ∷ [])
from_file-to_file_example =
    from_file-to_file ◌==◌ (λ f. true) 3 (b'a' ∷ b' ' ∷ b'b' ∷ []) no_files refl refl

someone_run : serialize_to_string zeroed someone ≡ ok (2 ∷ 65 ∷ 98 ∷ 1 ∷ 102 ∷ 27 ∷ 172 ∷ 2 ∷ [])
unfolding serialize_to_string with_base_size write_string write_var_uint8 write_var_uint32
    varint_bytes write write_within to_string collect
someone_run = refl

person_file_round_trip_example :
    (serialize_to_file ◌==◌ (λ f. true) zeroed 3 someone no_files >>= λ (done, files').
    deserialize_from_file ◌==◌ (λ f. true) zeroed 3 files')
    ≡ ok someone
person_file_round_trip_example =
    person_file_round_trip ◌==◌ (λ f. true) zeroed 3 someone
      (2 ∷ 65 ∷ 98 ∷ 1 ∷ 102 ∷ 27 ∷ 172 ∷ 2 ∷ []) no_files refl refl someone_run
      (refl, (refl, (refl, (refl, (refl, (refl, (refl, (refl, tt)))))))) zeroed-Supplies
      (omega arith) (omega arith) (omega arith)
