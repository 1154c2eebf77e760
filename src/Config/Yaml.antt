-- ===== src/Config/Yaml.antt =====
-- What config/config.h and config/config.cpp use of the library yaml-cpp.
use cpp_utils.Base.{ℕ, ◌<◌, ◌≡◌, Bool, true, false, List, Among, Option, Outcome, ok}

-- `IsNull`, `IsScalar`, `IsSequence`, `IsMap`, or none of them.
pub data Kind : Type 0 where
  null_kind scalar_kind sequence_kind map_kind undefined_kind : Kind

abbrev pub is_map : Kind → Bool
is_map map_kind = true
is_map _ = false

-- `YAML::Node`. `entries` is what the iterators of a map go through, `text` is `<<` to a stream,
-- `load` is `YAML::Load`, which may throw, `size` and `item` are the members of a sequence.
pub record Yaml : Type 1 where
  pub Node : Type 0
  pub kind : Node → Kind
  pub entries : Node → List (Node × Node)
  pub scalar : Node → List ℕ
  pub as_string : Node → Outcome (List ℕ)
  pub text : Node → List ℕ
  pub load : List ℕ → Option Node
  pub new_node : Node
  pub size : Node → ℕ
  pub item : Node → ℕ → Node
  pub push_back : Node → Node → Node
  pub force_insert : Node → Node → Node → Node

-- A file is a finite tree, and its keys are scalars, which `as<std::string>` returns as they are.
pub record IsTree (yaml : Yaml) : Type 0 where
  pub depth : yaml.Node → ℕ
  pub deeper : (n k v : yaml.Node) → Among (k, v) (yaml.entries n) → depth v < depth n
  pub text_keys :
      (n k v : yaml.Node) → Among (k, v) (yaml.entries n) → yaml.as_string k ≡ ok (yaml.scalar k)
