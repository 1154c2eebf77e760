-- ===== src/Config/Examples.antt =====
-- Runs of config/ on concrete input, and the theorems there.
use mathlib.Core.Bool.{Bool-discrete}
use mathlib.Core.Option.{map}
use cpp_utils.Base.{
  ℕ, ◌≡◌, ◌≢◌, refl, ◌↔◌, arith, Bool, true, false, Option, none, some, List, [], ◌∷◌, ◌++◌, Among,
  Outcome, ok, ◌==◌, ltb,
}
use cpp_utils.Base.{◌++◌}
use cpp_utils.Config.Var.{
  ConfigVar, new_var, set_on_change_call_back, from_string, from_each, Chain, from_each-Chain,
}
use cpp_utils.Config.Tree.{Listed, list_all_nodes, list_all_nodes_lem, At, dotted}
use cpp_utils.Config.Cast.{
  vector_to_string, list_to_string, string_to_vector, string_to_list, string_to_set,
}
use cpp_utils.Config.SampleMap.{pages, page_maps, cell}
use cpp_utils.Config.Cast.Maps.{string_to_map-map_to_string}
use cpp_utils.Config.Cast.{map_to_string, string_to_map}
use cpp_utils.Config.Cast.RoundTrip.{string_to_vector-vector_to_string}
use cpp_utils.Config.Cast.Members.{
  IsOrdered, Distinct, SameElements, string_to_set-vector_to_string,
}
use cpp_utils.Config.Cast.Ascending.{Ascending}
use cpp_utils.Config.Cast.Unordered.{DistinctKeys, string_to_unordered_map-unordered_map_to_string}
use cpp_utils.Config.Cast.{unordered_map_to_string, string_to_unordered_map}
use cpp_utils.Config.Cast.{unordered_set_to_string, string_to_unordered_set}
use cpp_utils.Config.Registry.{Registry, find, lookup, lookup_or_create, lookup_or_create_lem}
use cpp_utils.Config.Registry.Load.{load_from_yaml, load_from_yaml_lem, set_by}
use cpp_utils.Config.Sample.{
  items, item_sequences, leaf, FileNode, file, file_is_tree, root, section, word,
}

list_all_nodes_lem_example :
    (listed : Listed file) × (list_all_nodes file 3 [] root ≡ ok listed)
    × ((found : List ℕ × FileNode)
        → Among found listed
          ↔ ((keys : List (List ℕ)) × At file root keys found.1 × (found.0 ≡ dotted [] keys)))
list_all_nodes_lem_example = list_all_nodes_lem file file_is_tree 3 [] root (omega arith)

-- Their names are the empty one, `1`, `1.3` and `2`.
list_all_nodes_run :
    list_all_nodes file 3 [] root
    ≡ ok (([], root) ∷ (1 ∷ [], section) ∷ (1 ∷ b'.' ∷ 3 ∷ [], word 4) ∷ (2 ∷ [], word 6) ∷ [])
unfolding list_all_nodes
list_all_nodes_run = refl

-- Texts of one byte are read as numbers; a callback that throws on a number above 9.
abbrev read_number : List ℕ → Option ℕ
read_number (k ∷ []) = some k
read_number _ = none

abbrev watched : ConfigVar ℕ
watched = set_on_change_call_back (λ old new. ltb new 10) (new_var 5 (b'n' ∷ []) [])

-- A new value, of which the callback throws, a text that is no number, the same value, and another one.
from_each-Chain_example :
    let texts : List (List ℕ) = (77 ∷ []) ∷ [] ∷ (77 ∷ []) ∷ (8 ∷ []) ∷ [] in
    (calls : List (ℕ × ℕ)) × ((from_each ◌==◌ read_number texts watched).calls ≡ [] ++ calls)
    × Chain ◌==◌ 5 calls (from_each ◌==◌ read_number texts watched).val
from_each-Chain_example =
    from_each-Chain ◌==◌ read_number ((77 ∷ []) ∷ [] ∷ (77 ∷ []) ∷ (8 ∷ []) ∷ []) watched
      (λ old new. ltb new 10) refl

-- The callback throws, `fromString` returns false, and the value is the new one.
from_string_run :
    from_string ◌==◌ read_number (77 ∷ []) watched
    ≡ (false, record watched { val = 77; calls = (5, 77) ∷ [] })
unfolding from_string
from_string_run = refl

abbrev write_number : ℕ → Option (List ℕ)
write_number k = some (k ∷ [])

string_to_vector-vector_to_string_example :
    (text : List ℕ) × (vector_to_string items write_number (3 ∷ 3 ∷ []) ≡ some text)
    × (string_to_vector items read_number text ≡ some (3 ∷ 3 ∷ []))
    × (list_to_string items write_number (3 ∷ 3 ∷ []) ≡ some text)
    × (string_to_list items read_number text ≡ some (3 ∷ 3 ∷ []))
string_to_vector-vector_to_string_example =
    string_to_vector-vector_to_string items item_sequences write_number read_number (3 ∷ 3 ∷ [])
      ((3 ∷ [], leaf 3, refl, refl, refl, refl), (((3 ∷ [], leaf 3, refl, refl, refl, refl)), tt))

ltb_asym : (x y : ℕ) → ltb x y ≡ true → ltb y x ≡ false
ltb_asym x y h = ground (arith, h)

ltb-IsOrdered : IsOrdered ltb ◌==◌
ltb-IsOrdered = record {
  trans = λ x y z h h'. ground (arith, h, h');
  total = λ x y h h'. ground (arith, h, h');
  eq_same = λ x y h. ground (arith, h);
}

-- The element 8 stands twice.
string_to_set-vector_to_string_example :
    (text : List ℕ) × (vector_to_string items write_number (8 ∷ 3 ∷ 8 ∷ []) ≡ some text)
    × (unordered_set_to_string items write_number (8 ∷ 3 ∷ 8 ∷ []) ≡ some text)
    × ((st : List ℕ) × (string_to_set items ltb read_number text ≡ some st)
        × Ascending ltb st
        × SameElements st (8 ∷ 3 ∷ 8 ∷ []))
    × ((us : List ℕ) × (string_to_unordered_set items ◌==◌ read_number text ≡ some us)
        × Distinct ◌==◌ us
        × SameElements us (8 ∷ 3 ∷ 8 ∷ []))
string_to_set-vector_to_string_example =
    string_to_set-vector_to_string ltb ◌==◌ ltb-IsOrdered items item_sequences write_number
      read_number (8 ∷ 3 ∷ 8 ∷ [])
      (
        (8 ∷ [], leaf 8, refl, refl, refl, refl),
        ((3 ∷ [], leaf 3, refl, refl, refl, refl), ((8 ∷ [], leaf 8, refl, refl, refl, refl), tt)),
      )

-- Variables of numbers (`true`) and of texts (`false`).
abbrev Setting : Bool → Type 0
Setting true = ℕ
Setting false = List ℕ

abbrev table : Registry Setting
table =
    ([], (true, new_var 4 [] []))
    ∷ (1 ∷ b'.' ∷ 3 ∷ [], (true, new_var 5 (1 ∷ b'.' ∷ 3 ∷ []) []))
    ∷ (2 ∷ [], (false, new_var (b'x' ∷ []) (2 ∷ []) []))
    ∷ []

lookup_or_create_lem_example :
    ((c : ConfigVar (Setting true))
      → find Setting table (9 ∷ []) ≡ some (true, c)
      → lookup_or_create Setting Bool-discrete true table (9 ∷ []) 4 [] ≡ (some c, table))
    × ((s : Bool) (c : ConfigVar (Setting s))
        → find Setting table (9 ∷ []) ≡ some (s, c)
        → s ≢ true
        → lookup_or_create Setting Bool-discrete true table (9 ∷ []) 4 [] ≡ (none, table))
    × (find Setting table (9 ∷ []) ≡ none
        → (after : Registry Setting) × (lookup_or_create Setting Bool-discrete true table
              (9 ∷ [])
              4
              []
            ≡ (some (new_var 4 (9 ∷ []) []), after))
          × (lookup Setting Bool-discrete true after (9 ∷ []) ≡ some (new_var 4 (9 ∷ []) []))
          × ((other : List ℕ)
              → other ≢ 9 ∷ []
              → find Setting after other ≡ find Setting table other))
lookup_or_create_lem_example = lookup_or_create_lem Setting Bool-discrete true table (9 ∷ []) 4 []

abbrev eq_value : (t : Bool) → Setting t → Setting t → Bool
eq_value true x y = x == y
eq_value false x y = false

abbrev read_value : (t : Bool) → List ℕ → Option (Setting t)
read_value true text = read_number text
read_value false text = some text

abbrev load_sample : List ℕ → Outcome FileNode
load_sample name = ok root

load_from_yaml_lem_example :
    (listed : Listed file) × (after : Registry Setting) × (list_all_nodes file 3 [] root
      ≡ ok listed)
    × (load_from_yaml Setting eq_value read_value file load_sample 3 [] table ≡ ok after)
    × ((c : ℕ) (name : List ℕ)
        → find Setting after (c ∷ name)
          ≡ map
              (set_by Setting eq_value read_value file (c ∷ name) listed)
              (find Setting table (c ∷ name)))
    × (find Setting after [] ≡ find Setting table [])
load_from_yaml_lem_example =
    load_from_yaml_lem Setting eq_value read_value file file_is_tree load_sample 3 [] table root
      refl (omega arith)

string_to_map-map_to_string_example :
    (text : List ℕ) × (map_to_string pages cell write_number ((3, 5) ∷ (8, 5) ∷ []) ≡ some text)
    × (string_to_map pages ltb read_number read_number text ≡ some ((3, 5) ∷ (8, 5) ∷ []))
string_to_map-map_to_string_example =
    string_to_map-map_to_string pages page_maps cell write_number read_number read_number ltb
      ltb_asym ((3, 5) ∷ (8, 5) ∷ [])
      (
        (5 ∷ [], cell 5, refl, refl, refl, refl, refl),
        ((5 ∷ [], cell 5, refl, refl, refl, refl, refl), tt),
      )
      ((refl, tt), (tt, tt))

string_to_unordered_map-unordered_map_to_string_example :
    (us : List (ℕ × ℕ)) × (string_to_unordered_map pages ◌==◌ read_number read_number
        (unordered_map_to_string pages cell cell pages.new_node ((8, 5) ∷ (3, 5) ∷ []))
      ≡ some us)
    × DistinctKeys ◌==◌ us
    × SameElements us ((8, 5) ∷ (3, 5) ∷ [])
string_to_unordered_map-unordered_map_to_string_example =
    string_to_unordered_map-unordered_map_to_string {K = ℕ} {V = ℕ} ◌==◌ pages page_maps cell cell
      read_number read_number ((8, 5) ∷ (3, 5) ∷ []) ((refl, refl, refl), ((refl, refl, refl), tt))
      ((refl, tt), (tt, tt))
