-- ===== src/Config/Cast/RoundTrip.antt =====
-- The conversions of config/config.h from a container to a text and back.
use cpp_utils.Base.{
  ℕ, suc, ◌≡◌, refl, sym, ap, ◌∙◌, subst, Bool, true, false, Option, some, List, [], ◌∷◌, ◌++◌, map,
  append_assoc, append-nil, length, length-append, All, arith,
}
use cpp_utils.Config.Yaml.{Yaml}
use cpp_utils.Config.Cast.{
  ◌>>=◌, brackets, push_all, vector_to_string, list_to_string, set_to_string, read_items, push,
  string_to_vector, string_to_list, set_insert, string_to_set,
}
use cpp_utils.Config.Cast.Ascending.{add_all, AllBelow, Ascending, add_all-Ascending}

-- What yaml-cpp promises of sequences. `IsSeq n ms`: the node `n` is a sequence with the members
-- `ms`. `IsItem v`: a node can be put into a sequence and be read back.
pub record Sequences (yaml : Yaml) : Type 1 where
  pub IsSeq : yaml.Node → List yaml.Node → Type 0
  pub IsItem : yaml.Node → Type 0
  pub empty : yaml.Node
  pub load_brackets : yaml.load brackets ≡ some empty
  pub empty_is_seq : IsSeq empty []
  pub pushed :
      (n v : yaml.Node) (ms : List yaml.Node)
      → IsSeq n ms
      → IsItem v
      → IsSeq (yaml.push_back n v) (ms ++ (v ∷ []))
  pub sized : (n : yaml.Node) (ms : List yaml.Node) → IsSeq n ms → yaml.size n ≡ length ms
  pub placed :
      (n m : yaml.Node) (front back : List yaml.Node)
      → IsSeq n (front ++ (m ∷ back))
      → yaml.item n (length front) ≡ m
  pub reloaded :
      (n : yaml.Node) (ms : List yaml.Node)
      → IsSeq n ms
      → (again : yaml.Node) × (members : List yaml.Node) × (yaml.load (yaml.text n) ≡ some again)
        × IsSeq again members
        × (map yaml.text members ≡ map yaml.text ms)

module _ (yaml : Yaml) (seqs : Sequences yaml) {T : Type 0} (to_str : T → Option (List ℕ))
    (from_str : List ℕ → Option T) where
  -- An element's text is read as a node that the element can be read back from.
  abbrev pub Survives : T → Type 0
  Survives x =
      (text : List ℕ) × (v : yaml.Node) × (to_str x ≡ some text)
      × (yaml.load text ≡ some v)
      × seqs.IsItem v
      × (from_str (yaml.text v) ≡ some x)

  -- The texts are those of these elements.
  abbrev Reads : List (List ℕ) → List T → Type 0
  Reads [] [] = Unit
  Reads [] (x ∷ xs) = ⊥
  Reads (t ∷ ts) [] = ⊥
  Reads (t ∷ ts) (x ∷ xs) = (from_str t ≡ some x) × Reads ts xs

  push_all_lem :
      (node : yaml.Node) (ms : List yaml.Node) (xs : List T)
      → seqs.IsSeq node ms
      → All Survives xs
      → (after : yaml.Node) × (new : List yaml.Node) × (push_all yaml to_str node xs ≡ some after)
        × seqs.IsSeq after (ms ++ new)
        × Reads (map yaml.text new) xs
  unfolding push_all
  push_all_lem node ms [] is_seq all =
      (node, [], refl, subst (seqs.IsSeq node) (sym (append-nil ms)) is_seq, tt)
  push_all_lem node ms (x ∷ xs) is_seq ((text, v, e, loads, item, back), all) =
      let (after, new, e', is_seq', reads) =
        push_all_lem (yaml.push_back node v) (ms ++ (v ∷ [])) xs (seqs.pushed node v ms is_seq item)
          all in
      (
        after,
        v ∷ new,
        rw (e, ◌>>=◌, loads, e'),
        subst (seqs.IsSeq after) (append_assoc ms (v ∷ []) new) is_seq',
        (back, reads),
      )

  module _ {S : Type 0} (add : S → T → S) where
    read_items_lem :
        (n : yaml.Node) (front ms : List yaml.Node) (xs : List T) (st : S)
        → seqs.IsSeq n (front ++ ms)
        → Reads (map yaml.text ms) xs
        → read_items yaml from_str add st n (length ms) (length front) ≡ some (add_all add st xs)
    unfolding read_items
    read_items_lem n front [] [] st is_seq reads = refl
    read_items_lem n front [] (x ∷ xs) st is_seq reads = absurd reads
    read_items_lem n front (m ∷ ms) [] st is_seq reads = absurd reads
    read_items_lem n front (m ∷ ms) (x ∷ xs) st is_seq (e, reads) =
        rw (seqs.placed n m front ms is_seq, e, ◌>>=◌)
          (ap (read_items yaml from_str add (add st x) n (length ms)) behind
            ∙ read_items_lem n (front ++ (m ∷ [])) ms xs (add st x)
                (subst (seqs.IsSeq n) (sym (append_assoc front (m ∷ []) ms)) is_seq) reads)
      where
        behind : suc (length front) ≡ length (front ++ (m ∷ []))
        behind = omega (arith, length-append front (m ∷ []))

  -- What a container of these elements is written as is read with each of them, in their order.
  pub written_is_read :
      (xs : List T)
      → All Survives xs
      → (text : List ℕ) × (vector_to_string yaml to_str xs ≡ some text)
        × ((S : Type 0) (add : S → T → S) (st : S)
            → (yaml.load text >>= λ node. read_items yaml from_str add st node (yaml.size node) 0)
              ≡ some (add_all add st xs))
  unfolding vector_to_string
  written_is_read xs all =
      let (node, ms, e, is_seq, reads) = push_all_lem seqs.empty [] xs seqs.empty_is_seq all in
      let (again, members, loads, is_seq', same) = seqs.reloaded node ms is_seq in
      (
        yaml.text node,
        rw (seqs.load_brackets, ◌>>=◌, e),
        λ S add st.
            rw (loads, ◌>>=◌, seqs.sized again members is_seq')
              (read_items_lem add again [] members xs st is_seq'
                (subst (λ texts. Reads texts xs) (sym same) reads)),
      )

  push-add_all : (front xs : List T) → add_all push front xs ≡ front ++ xs
  push-add_all front [] = sym (append-nil front)
  push-add_all front (x ∷ xs) = push-add_all (front ++ (x ∷ [])) xs ∙ append_assoc front (x ∷ []) xs

  -- A vector, or a list, whose elements are read back from their texts is written as a text that is
  -- read as the same vector, or list.
  pub string_to_vector-vector_to_string :
      (xs : List T)
      → All Survives xs
      → (text : List ℕ) × (vector_to_string yaml to_str xs ≡ some text)
        × (string_to_vector yaml from_str text ≡ some xs)
        × (list_to_string yaml to_str xs ≡ some text)
        × (string_to_list yaml from_str text ≡ some xs)
  unfolding vector_to_string list_to_string string_to_vector string_to_list
  string_to_vector-vector_to_string xs all =
      let (text, e, reads) = written_is_read xs all in
      let same = reads (List T) push [] ∙ ap some (push-add_all [] xs) in (text, e, same, e, same)

  module _ (less : T → T → Bool) (asym : (x y : T) → less x y ≡ true → less y x ≡ false) where
    set_insert_last :
        (st : List T) (v : T) → AllBelow less st v → set_insert less st v ≡ st ++ (v ∷ [])
    unfolding set_insert
    set_insert_last [] v above = refl
    set_insert_last (x ∷ st) v (first, above) =
        rw (first, asym x v first, set_insert_last st v above)

    -- A set, gone through in its order, whose elements are read back from their texts is written as a
    -- text that is read as the same set.
    pub string_to_set-set_to_string :
        (xs : List T)
        → All Survives xs
        → Ascending less xs
        → (text : List ℕ) × (set_to_string yaml to_str xs ≡ some text)
          × (string_to_set yaml less from_str text ≡ some xs)
    unfolding set_to_string string_to_set vector_to_string
    string_to_set-set_to_string xs all ascending =
        let (text, e, reads) = written_is_read xs all in
        (
          text,
          e,
          reads (List T) (set_insert less) []
              ∙ ap some (add_all-Ascending less (set_insert less) set_insert_last xs ascending),
        )
