-- ===== src/Config/Cast.antt =====
-- The conversions `LexicalCast` of config/config.h between containers and YAML texts. `none` stands for
-- an exception.
pub mod Ascending
pub mod RoundTrip
pub mod Maps
pub mod Members
pub mod Unordered
use cpp_utils.Base.{
  ℕ, zero, suc, Bool, true, false, Option, none, some, List, [], ◌∷◌, ◌++◌, if◌then◌else◌,
}
use cpp_utils.Config.Yaml.{Yaml}

infixl 5 ◌>>=◌
abbrev pub ◌>>=◌ : {A B : Type 0} → Option A → (A → Option B) → Option B
none >>= rest = none
some a >>= rest = rest a

-- The text `[]`
abbrev pub brackets : List ℕ
brackets = b'[' ∷ b']' ∷ []

module _ {T : Type 0} where
  -- `push_back`
  abbrev pub push : List T → T → List T
  push vec v = vec ++ (v ∷ [])

  -- `insert` of a `std::set<T>`, a list in the order of `less`
  unfoldable pub set_insert : (T → T → Bool) → List T → T → List T
  set_insert less [] v = v ∷ []
  set_insert less (x ∷ st) v =
      let further = x ∷ set_insert less st v in
      if less v x then v ∷ x ∷ st else if less x v then further else x ∷ st

  -- `insert` of a `std::unordered_set<T>`, whose own order is left open
  unfoldable pub unordered_insert : (T → T → Bool) → List T → T → List T
  unordered_insert eq [] v = v ∷ []
  unordered_insert eq (x ∷ st) v =
      let further = x ∷ unordered_insert eq st v in if eq x v then x ∷ st else further

module _ {K V : Type 0} where
  -- `insert` of a `std::map<K, V>`: an old entry stays.
  unfoldable pub map_insert : (K → K → Bool) → List (K × V) → K × V → List (K × V)
  map_insert less [] e = e ∷ []
  map_insert less (x ∷ mp) e =
      let further = x ∷ map_insert less mp e in
      if less e.0 x.0 then e ∷ x ∷ mp else if less x.0 e.0 then further else x ∷ mp

  -- `insert` of a `std::unordered_map<K, V>`
  unfoldable pub unordered_map_insert : (K → K → Bool) → List (K × V) → K × V → List (K × V)
  unordered_map_insert eq [] e = e ∷ []
  unordered_map_insert eq (x ∷ mp) e =
      let further = x ∷ unordered_map_insert eq mp e in if eq x.0 e.0 then x ∷ mp else further

module _ (yaml : Yaml) {T : Type 0} where
  -- `for (auto& v : vec) node.push_back(YAML::Load(LexicalCast<T, std::string>()(v)))`
  unfoldable pub push_all : (T → Option (List ℕ)) → yaml.Node → List T → Option yaml.Node
  push_all to_str node [] = some node
  push_all to_str node (v ∷ vec) = do
    text ← to_str v
    child ← yaml.load text
    push_all to_str (yaml.push_back node child) vec

  -- From `std::vector<T>`
  unfoldable pub vector_to_string : (T → Option (List ℕ)) → List T → Option (List ℕ)
  unfolding push_all
  vector_to_string to_str vec = do
    node ← yaml.load brackets
    node ← push_all to_str node vec
    some (yaml.text node)

  -- From `std::list<T>`
  unfoldable pub list_to_string : (T → Option (List ℕ)) → List T → Option (List ℕ)
  unfolding push_all
  list_to_string to_str vec = do
    node ← yaml.load brackets
    node ← push_all to_str node vec
    some (yaml.text node)

  -- From `std::set<T>`, in the order of the set
  unfoldable pub set_to_string : (T → Option (List ℕ)) → List T → Option (List ℕ)
  unfolding push_all
  set_to_string to_str vec = do
    node ← yaml.load brackets
    node ← push_all to_str node vec
    some (yaml.text node)

  -- From `std::unordered_set<T>`, in the order in which it is gone through
  unfoldable pub unordered_set_to_string : (T → Option (List ℕ)) → List T → Option (List ℕ)
  unfolding push_all
  unordered_set_to_string to_str vec = do
    node ← yaml.load brackets
    node ← push_all to_str node vec
    some (yaml.text node)

  -- The loop over the members of a node, `left` of them from `i` on; `add` puts a value into the
  -- container.
  unfoldable pub read_items :
      {S : Type 0} → (List ℕ → Option T) → (S → T → S) → S → yaml.Node → ℕ → ℕ → Option S
  read_items from_str add st node zero i = some st
  read_items from_str add st node (suc left) i = do
    v ← from_str (yaml.text (yaml.item node i))
    read_items from_str add (add st v) node left (suc i)

  -- To `std::vector<T>`
  unfoldable pub string_to_vector : (List ℕ → Option T) → List ℕ → Option (List T)
  unfolding read_items
  string_to_vector from_str str = do
    node ← yaml.load str
    read_items from_str push [] node (yaml.size node) 0

  -- To `std::list<T>`
  unfoldable pub string_to_list : (List ℕ → Option T) → List ℕ → Option (List T)
  unfolding read_items
  string_to_list from_str str = do
    node ← yaml.load str
    read_items from_str push [] node (yaml.size node) 0

  -- To `std::set<T>`
  unfoldable pub string_to_set : (T → T → Bool) → (List ℕ → Option T) → List ℕ → Option (List T)
  unfolding read_items set_insert
  string_to_set less from_str str = do
    node ← yaml.load str
    read_items from_str (set_insert less) [] node (yaml.size node) 0

  -- To `std::unordered_set<T>`
  unfoldable pub string_to_unordered_set :
      (T → T → Bool) → (List ℕ → Option T) → List ℕ → Option (List T)
  unfolding read_items unordered_insert
  string_to_unordered_set eq from_str str = do
    node ← yaml.load str
    read_items from_str (unordered_insert eq) [] node (yaml.size node) 0

module _ (yaml : Yaml) {K V : Type 0} where
  -- The loop over a map: `key` is how yaml-cpp makes a node of a key.
  unfoldable pub insert_all :
      (K → yaml.Node) → (V → Option (List ℕ)) → yaml.Node → List (K × V) → Option yaml.Node
  insert_all key to_str node [] = some node
  insert_all key to_str node ((k, v) ∷ mp) = do
    text ← to_str v
    child ← yaml.load text
    insert_all key to_str (yaml.force_insert node (key k) child) mp

  -- From `std::map<K, V>`
  unfoldable pub map_to_string :
      (K → yaml.Node) → (V → Option (List ℕ)) → List (K × V) → Option (List ℕ)
  unfolding insert_all
  map_to_string key to_str mp = do
    node ← insert_all key to_str yaml.new_node mp
    some (yaml.text node)

  -- From `std::unordered_map<K, V>`: the values become nodes by yaml-cpp itself, as the keys do.
  unfoldable pub unordered_map_to_string :
      (K → yaml.Node) → (V → yaml.Node) → yaml.Node → List (K × V) → List ℕ
  unordered_map_to_string key value node [] = yaml.text node
  unordered_map_to_string key value node ((k, v) ∷ mp) =
      unordered_map_to_string key value (yaml.force_insert node (key k) (value v)) mp

  -- The loop over the entries of a node.
  unfoldable pub read_entries :
      (List ℕ → Option K)
      → (List ℕ → Option V)
      → (List (K × V) → K × V → List (K × V))
      → List (K × V)
      → List (yaml.Node × yaml.Node)
      → Option (List (K × V))
  read_entries key_from value_from add mp [] = some mp
  read_entries key_from value_from add mp ((first, second) ∷ rest) = do
    k ← key_from (yaml.scalar first)
    v ← value_from (yaml.text second)
    read_entries key_from value_from add (add mp (k, v)) rest

  -- To `std::map<K, V>`
  unfoldable pub string_to_map :
      (K → K → Bool) → (List ℕ → Option K) → (List ℕ → Option V) → List ℕ → Option (List (K × V))
  unfolding read_entries map_insert
  string_to_map less key_from value_from str = do
    node ← yaml.load str
    read_entries key_from value_from (map_insert less) [] (yaml.entries node)

  -- To `std::unordered_map<K, V>`
  unfoldable pub string_to_unordered_map :
      (K → K → Bool) → (List ℕ → Option K) → (List ℕ → Option V) → List ℕ → Option (List (K × V))
  unfolding read_entries unordered_map_insert
  string_to_unordered_map eq key_from value_from str = do
    node ← yaml.load str
    read_entries key_from value_from (unordered_map_insert eq) [] (yaml.entries node)
