-- ===== src/Config/Cast/Unordered.antt =====
-- The conversions of config/config.h from a `std::unordered_map` to a text and back.
use cpp_utils.Base.{
  ℕ, arith, Bool-cases, inl, inr, ◌≡◌, ◌∙◌, sym, subst, ap, Bool, true, false, Option, none, some,
  List, [], ◌∷◌, ◌++◌, refl, append_assoc, append-nil, All, if◌then◌else◌,
}
use cpp_utils.Config.Yaml.{Yaml}
use cpp_utils.Config.Cast.{
  ◌>>=◌, unordered_map_to_string, string_to_unordered_map, unordered_map_insert,
}
use cpp_utils.Config.Cast.Ascending.{AllBelow, Ascending, add_all-Ascending}
use cpp_utils.Config.Cast.Members.{SameElements}
use cpp_utils.Config.Cast.Maps.{Maps, shown, Reads, read_entries_lem}

module _ {K V : Type 0} (eq : K → K → Bool) where
  -- The keys are not equal.
  abbrev differ : K × V → K × V → Bool
  differ x y = if eq x.0 y.0 then false else true

  -- No key stands twice.
  abbrev pub DistinctKeys : List (K × V) → Type 0
  DistinctKeys = Ascending differ

  unordered_map_insert_last :
      (mp : List (K × V)) (e : K × V)
      → AllBelow differ mp e
      → unordered_map_insert eq mp e ≡ mp ++ (e ∷ [])
  unfolding unordered_map_insert
  unordered_map_insert_last [] e below = refl
  unordered_map_insert_last (x ∷ mp) e (first, below) = elim (Bool-cases (eq x.0 e.0)) [
    | inl there ↦ absurd (ground (arith, first, there))
    | inr other ↦ rw (other, unordered_map_insert_last mp e below)
  ]

  module _ (yaml : Yaml) (maps : Maps yaml) (key : K → yaml.Node) (value : V → yaml.Node)
      (key_from : List ℕ → Option K) (value_from : List ℕ → Option V) where
    -- A key is read back from its node, and a value from the text of its node.
    abbrev pub ReadBack : K × V → Type 0
    ReadBack (k, v) =
        (key_from (yaml.scalar (key k)) ≡ some k)
        × maps.IsItem (value v)
        × (value_from (yaml.text (value v)) ≡ some v)

    abbrev Read : List (List ℕ × List ℕ) → List (K × V) → Type 0
    Read = Reads yaml maps key (λ _. none) key_from value_from

    unordered_map_to_string_lem :
        (node : yaml.Node) (es : List (yaml.Node × yaml.Node)) (xs : List (K × V))
        → maps.IsMap node es
        → All ReadBack xs
        → (after : yaml.Node) × (new : List (yaml.Node × yaml.Node)) × (unordered_map_to_string yaml
              key value node xs
            ≡ yaml.text after)
          × maps.IsMap after (es ++ new)
          × Read (shown yaml new) xs
    unfolding unordered_map_to_string
    unordered_map_to_string_lem node es [] is_map all =
        (node, [], refl, subst (maps.IsMap node) (sym (append-nil es)) is_map, tt)
    unordered_map_to_string_lem node es ((k, v) ∷ xs) is_map ((ek, item, back), all) =
        let (after, new, e, is_map', reads) =
          unordered_map_to_string_lem (yaml.force_insert node (key k) (value v))
            (es ++ ((key k, value v) ∷ [])) xs (maps.inserted node (key k) (value v) es is_map item)
            all in
        (
          after,
          (key k, value v) ∷ new,
          e,
          subst (maps.IsMap after) (append_assoc es ((key k, value v) ∷ []) new) is_map',
          ((ek, back), reads),
        )

    -- An unordered map, in whatever order it is gone through, whose keys and values are read back from
    -- their nodes, and in which no key stands twice, is written as a text that is read as an unordered
    -- map with the same entries, in which no key stands twice.
    pub string_to_unordered_map-unordered_map_to_string :
        (xs : List (K × V))
        → All ReadBack xs
        → DistinctKeys xs
        → (us : List (K × V)) × (string_to_unordered_map yaml eq key_from value_from
              (unordered_map_to_string yaml key value yaml.new_node xs)
            ≡ some us)
          × DistinctKeys us
          × SameElements us xs
    unfolding string_to_unordered_map
    string_to_unordered_map-unordered_map_to_string xs all distinct =
        let (node, es, e, is_map, reads) =
          unordered_map_to_string_lem yaml.new_node [] xs maps.new_is_map all in
        let (again, loads, same) = maps.reloaded node es is_map in
        (
          xs,
          rw (e, loads, ◌>>=◌)
              (read_entries_lem yaml maps key (λ _. none) key_from value_from
                  (unordered_map_insert eq) [] (yaml.entries again) xs
                  (subst (λ ts. Read ts xs) (sym same) reads)
                ∙ ap some (
                    add_all-Ascending differ (unordered_map_insert eq) unordered_map_insert_last xs
                      distinct)),
          distinct,
          λ v. ((λ h. h), λ h. h),
        )
