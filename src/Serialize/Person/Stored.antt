-- ===== src/Serialize/Person/Stored.antt =====
-- The two functions of serialize/example.hpp that go through a file.
use cpp_utils.Base.{
  ℕ, ◌+◌, ◌^◌, ◌<◌, ◌≡◌, sym, ap, ◌∙◌, Bool, true, Option, List, length, All, Outcome, ok, ◌>>=◌,
}
use cpp_utils.Serialize.{Malloc}
use cpp_utils.Serialize.Spill.{Supplies}
use cpp_utils.Serialize.File.{IsPrintable, to_file, from_file, from_file-to_file}
use cpp_utils.Serialize.Person.{
  Person, serialize_to_string, deserialize_to_person, person_round_trip,
}

module _ {P : Type 0} (same : P → P → Bool) (opens : P → Bool) (malloc : Malloc) where
  unfoldable pub serialize_to_file :
      P → Person → (P → Option (List ℕ)) → Outcome (Bool × (P → Option (List ℕ)))
  serialize_to_file filepath p files =
      serialize_to_string malloc p >>= λ str. ok (to_file same opens filepath str files)

  unfoldable pub deserialize_from_file : P → (P → Option (List ℕ)) → Outcome Person
  deserialize_from_file filepath files =
      deserialize_to_person malloc (from_file same opens filepath files)

  -- An object whose strings leave 16 bytes of a node survives `serializeToFile` and
  -- `deserializeFromFile`, if the file can be opened and the object's string has no white space.
  pub person_file_round_trip :
      (filepath : P) (p : Person) (str : List ℕ) (files : P → Option (List ℕ))
      → same filepath filepath ≡ true
      → opens filepath ≡ true
      → serialize_to_string malloc p ≡ ok str
      → All IsPrintable str
      → Supplies malloc
      → length p.name + length p.sex + 16 < 4096
      → p.age < 256
      → p.property < 2 ^ 32
      → (serialize_to_file filepath p files >>= λ (done, files').
          deserialize_from_file filepath files')
        ≡ ok p
  unfolding serialize_to_file deserialize_from_file
  person_file_round_trip filepath p str files self can e printable supplies short byte small =
      rw e (
        ap (deserialize_to_person malloc)
          ((from_file-to_file same opens filepath str files self can).1 printable)
        ∙ ap (λ m. m >>= deserialize_to_person malloc) (sym e)
        ∙ person_round_trip malloc p supplies short byte small)
