-- ===== src/Config/Cast/Maps.antt =====
-- The conversions of config/config.h from a `std::map` to a text and back.
use cpp_utils.Base.{
  ℕ, ◌≡◌, refl, sym, ap, ◌∙◌, subst, Bool, true, false, Option, some, List, [], ◌∷◌, ◌++◌,
  append_assoc, append-nil, All,
}
use cpp_utils.Config.Yaml.{Yaml}
use cpp_utils.Config.Cast.{
  ◌>>=◌, insert_all, map_to_string, read_entries, map_insert, string_to_map,
}
use cpp_utils.Config.Cast.Ascending.{add_all, AllBelow, Ascending, add_all-Ascending}

-- The scalar of a key, and the text of a value.
abbrev pub shown : (yaml : Yaml) → List (yaml.Node × yaml.Node) → List (List ℕ × List ℕ)
shown yaml [] = []
shown yaml ((k, v) ∷ es) = (yaml.scalar k, yaml.text v) ∷ shown yaml es

-- What yaml-cpp promises of maps. `IsMap n es`: the node `n` is null and `es` is empty, or `n` is a map
-- with the entries `es`. `IsItem v`: a node can be put into a map and be read back.
pub record Maps (yaml : Yaml) : Type 1 where
  pub IsMap : yaml.Node → List (yaml.Node × yaml.Node) → Type 0
  pub IsItem : yaml.Node → Type 0
  pub new_is_map : IsMap yaml.new_node []
  pub inserted :
      (n k v : yaml.Node) (es : List (yaml.Node × yaml.Node))
      → IsMap n es
      → IsItem v
      → IsMap (yaml.force_insert n k v) (es ++ ((k, v) ∷ []))
  pub reloaded :
      (n : yaml.Node) (es : List (yaml.Node × yaml.Node))
      → IsMap n es
      → (again : yaml.Node) × (yaml.load (yaml.text n) ≡ some again)
        × (shown yaml (yaml.entries again) ≡ shown yaml es)

module _ (yaml : Yaml) (maps : Maps yaml) {K V : Type 0} (key : K → yaml.Node)
    (to_str : V → Option (List ℕ)) (key_from : List ℕ → Option K)
    (value_from : List ℕ → Option V) where
  -- A key is read back from its node, and a value from the node of its text.
  abbrev pub Survives : K × V → Type 0
  Survives (k, v) =
      (text : List ℕ) × (n : yaml.Node) × (key_from (yaml.scalar (key k)) ≡ some k)
      × (to_str v ≡ some text)
      × (yaml.load text ≡ some n)
      × maps.IsItem n
      × (value_from (yaml.text n) ≡ some v)

  abbrev pub Reads : List (List ℕ × List ℕ) → List (K × V) → Type 0
  Reads [] [] = Unit
  Reads [] (x ∷ xs) = ⊥
  Reads (t ∷ ts) [] = ⊥
  Reads ((s, t) ∷ ts) ((k, v) ∷ xs) =
      ((key_from s ≡ some k) × (value_from t ≡ some v)) × Reads ts xs

  insert_all_lem :
      (node : yaml.Node) (es : List (yaml.Node × yaml.Node)) (xs : List (K × V))
      → maps.IsMap node es
      → All Survives xs
      → (after : yaml.Node) × (new : List (yaml.Node × yaml.Node)) × (insert_all yaml key to_str
            node xs
          ≡ some after)
        × maps.IsMap after (es ++ new)
        × Reads (shown yaml new) xs
  unfolding insert_all
  insert_all_lem node es [] is_map all =
      (node, [], refl, subst (maps.IsMap node) (sym (append-nil es)) is_map, tt)
  insert_all_lem node es ((k, v) ∷ xs) is_map ((text, n, ek, e, loads, item, back), all) =
      let (after, new, e', is_map', reads) =
        insert_all_lem (yaml.force_insert node (key k) n) (es ++ ((key k, n) ∷ [])) xs
          (maps.inserted node (key k) n es is_map item) all in
      (
        after,
        (key k, n) ∷ new,
        rw (e, ◌>>=◌, loads, e'),
        subst (maps.IsMap after) (append_assoc es ((key k, n) ∷ []) new) is_map',
        ((ek, back), reads),
      )

  pub read_entries_lem :
      (add : List (K × V) → K × V → List (K × V)) (mp : List (K × V))
      (es : List (yaml.Node × yaml.Node)) (xs : List (K × V))
      → Reads (shown yaml es) xs
      → read_entries yaml key_from value_from add mp es ≡ some (add_all add mp xs)
  unfolding read_entries
  read_entries_lem add mp [] [] reads = refl
  read_entries_lem add mp [] (x ∷ xs) reads = absurd reads
  read_entries_lem add mp ((s, t) ∷ es) [] reads = absurd reads
  read_entries_lem add mp ((s, t) ∷ es) ((k, v) ∷ xs) ((ek, ev), reads) =
      rw (ek, ◌>>=◌, ev) (read_entries_lem add (add mp (k, v)) es xs reads)

  module _ (less : K → K → Bool) (asym : (x y : K) → less x y ≡ true → less y x ≡ false) where
    abbrev less_key : K × V → K × V → Bool
    less_key x y = less x.0 y.0

    map_insert_last :
        (mp : List (K × V)) (e : K × V)
        → AllBelow less_key mp e
        → map_insert less mp e ≡ mp ++ (e ∷ [])
    unfolding map_insert
    map_insert_last [] e above = refl
    map_insert_last (x ∷ mp) e (first, above) =
        rw (first, asym x.0 e.0 first, map_insert_last mp e above)

    -- A map whose keys and values are read back from their nodes is written as a text that is read as
    -- the same map.
    pub string_to_map-map_to_string :
        (xs : List (K × V))
        → All Survives xs
        → Ascending less_key xs
        → (text : List ℕ) × (map_to_string yaml key to_str xs ≡ some text)
          × (string_to_map yaml less key_from value_from text ≡ some xs)
    unfolding map_to_string string_to_map
    string_to_map-map_to_string xs all ascending =
        let (node, es, e, is_map, reads) = insert_all_lem yaml.new_node [] xs maps.new_is_map all in
        let (again, loads, same) = maps.reloaded node es is_map in
        (
          yaml.text node,
          rw (e, ◌>>=◌),
          rw (loads, ◌>>=◌)
              (read_entries_lem (map_insert less) [] (yaml.entries again) xs
                  (subst (λ ts. Reads ts xs) (sym same) reads)
                ∙ ap some
                    (add_all-Ascending less_key (map_insert less) map_insert_last xs ascending)),
        )
