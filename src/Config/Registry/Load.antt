-- ===== src/Config/Registry/Load.antt =====
-- `loadFromYaml` of config/config.cpp: a file sets the variables that it names.
use mathlib.Core.Option.{map}
use cpp_utils.Base.{
  ℕ, ◌<◌, ◌≡◌, refl, sym, ap, ◌∙◌, inl, inr, Bool, Bool-cases, Option-cases, Option, none, some,
  List, [], ◌∷◌, if◌then◌else◌, eq_text, eq_text→eq, Outcome, ok, ◌>>=◌,
}
use cpp_utils.Config.Var.{from_string}
use cpp_utils.Config.Yaml.{Yaml, IsTree}
use cpp_utils.Config.Tree.{Listed, list_all_nodes, list_all_nodes_lem}
use cpp_utils.Config.Registry.{ConfigVarBase, Registry, find, update, find-update}

map_same : {A : Type 0} (f : A → A) → ((a : A) → f a ≡ a) → (o : Option A) → o ≡ map f o
map_same f same none = refl
map_same f same (some a) = ap some (sym (same a))

map_twice :
    {A B C : Type 0} (g : B → C) (f : A → B) (o : Option A) → map (λ a. g (f a)) o ≡ map g (map f o)
map_twice g f none = refl
map_twice g f (some a) = refl

-- For each type the `operator==` of its values and `FromStr`.
module _ {Ty : Type 0} (Val : Ty → Type 0) (eq : (t : Ty) → Val t → Val t → Bool)
    (from_str : (t : Ty) → List ℕ → Option (Val t)) where
  -- The virtual function `fromString(val)` of a variable, whose result is not looked at.
  unfoldable pub set_from : List ℕ → ConfigVarBase Val → ConfigVarBase Val
  unfolding from_string
  set_from text (t, c) = (t, (from_string (eq t) (from_str t) text c).1)

  -- The body of the loop, for a pair of a name and a node.
  unfoldable pub apply_node : (yaml : Yaml) → Registry Val → List ℕ × yaml.Node → Registry Val
  unfolding find update set_from
  apply_node yaml vars ([], node) = vars
  apply_node yaml vars (c ∷ name, node) = elim (find Val vars (c ∷ name)) [
    | none ↦ vars
    | some p ↦ update Val (set_from (yaml.text node)) vars (c ∷ name)
  ]

  unfoldable pub apply_nodes : (yaml : Yaml) → Registry Val → Listed yaml → Registry Val
  unfolding apply_node
  apply_nodes yaml vars [] = vars
  apply_nodes yaml vars (i ∷ all_nodes) = apply_nodes yaml (apply_node yaml vars i) all_nodes

  -- `loadFromYaml(filename)`; `load_file` is `YAML::LoadFile`.
  unfoldable pub load_from_yaml :
      (yaml : Yaml)
      → (List ℕ → Outcome yaml.Node)
      → ℕ
      → List ℕ
      → Registry Val
      → Outcome (Registry Val)
  unfolding list_all_nodes apply_nodes
  load_from_yaml yaml load_file fuel filename vars = do
    node ← load_file filename
    all_nodes ← list_all_nodes yaml fuel [] node
    ok (apply_nodes yaml vars all_nodes)

  -- What the pairs with this name do to a variable, one after the other.
  abbrev pub set_by : (yaml : Yaml) → List ℕ → Listed yaml → ConfigVarBase Val → ConfigVarBase Val
  set_by yaml name [] var = var
  set_by yaml name ((other, node) ∷ rest) var =
      set_by yaml name rest (if eq_text other name then set_from (yaml.text node) var else var)

  find-apply_node :
      (yaml : Yaml) (vars : Registry Val) (c : ℕ) (name : List ℕ) (i : List ℕ × yaml.Node)
      → find Val (apply_node yaml vars i) (c ∷ name)
        ≡ map
            (λ var. if eq_text i.0 (c ∷ name) then set_from (yaml.text i.1) var else var)
            (find Val vars (c ∷ name))
  unfolding apply_node eq_text
  find-apply_node yaml vars c name ([], node) = map_same _ (λ var. refl) (find Val vars (c ∷ name))
  find-apply_node yaml vars c name (d ∷ other, node) =
      elim (Option-cases (find Val vars (d ∷ other))) [
        | inl absent ↦ elim (Bool-cases (eq_text (d ∷ other) (c ∷ name))) [
          | inl e ↦ rw (absent, apply_node, sym (eq_text→eq (d ∷ other) (c ∷ name) e), absent)
          | inr e ↦ rw (absent, apply_node, e) (map_same _ (λ var. refl) (find Val vars (c ∷ name)))
        ]
        | inr (p, found) ↦ elim (Bool-cases (eq_text (d ∷ other) (c ∷ name))) [
          | inl e ↦ rw (
            found,
            apply_node,
            find-update Val (set_from (yaml.text node)) vars (d ∷ other) (c ∷ name),
            e,
          )
          | inr e ↦
              rw
                (
                  found,
                  apply_node,
                  find-update Val (set_from (yaml.text node)) vars (d ∷ other) (c ∷ name),
                  e,
                )
                (map_same _ (λ var. refl) (find Val vars (c ∷ name)))
        ]
      ]

  -- The variable without a name is left alone.
  find_unnamed-apply_node :
      (yaml : Yaml) (vars : Registry Val) (i : List ℕ × yaml.Node)
      → find Val (apply_node yaml vars i) [] ≡ find Val vars []
  unfolding apply_node eq_text
  find_unnamed-apply_node yaml vars ([], node) = refl
  find_unnamed-apply_node yaml vars (c ∷ name, node) =
      elim (Option-cases (find Val vars (c ∷ name))) [
        | inl absent ↦ rw (absent, apply_node)
        | inr (p, found) ↦
            rw (found, apply_node, find-update Val (set_from (yaml.text node)) vars (c ∷ name) [])
      ]

  find_unnamed-apply_nodes :
      (yaml : Yaml) (vars : Registry Val) (all_nodes : Listed yaml)
      → find Val (apply_nodes yaml vars all_nodes) [] ≡ find Val vars []
  unfolding apply_nodes
  find_unnamed-apply_nodes yaml vars [] = refl
  find_unnamed-apply_nodes yaml vars (i ∷ rest) =
      find_unnamed-apply_nodes yaml (apply_node yaml vars i) rest
      ∙ find_unnamed-apply_node yaml vars i

  find-apply_nodes :
      (yaml : Yaml) (vars : Registry Val) (c : ℕ) (name : List ℕ) (all_nodes : Listed yaml)
      → find Val (apply_nodes yaml vars all_nodes) (c ∷ name)
        ≡ map (set_by yaml (c ∷ name) all_nodes) (find Val vars (c ∷ name))
  unfolding apply_nodes
  find-apply_nodes yaml vars c name [] = map_same _ (λ var. refl) (find Val vars (c ∷ name))
  find-apply_nodes yaml vars c name (i ∷ rest) =
      find-apply_nodes yaml (apply_node yaml vars i) c name rest
      ∙ rw (find-apply_node yaml vars c name i) (sym (map_twice _ _ (find Val vars (c ∷ name))))

  -- A file that is read as a tree is loaded, a depth of recursion above that of the tree being enough.
  -- A variable with a name is then what `fromString` makes of it, called for each node at the end of a
  -- path whose dotted name is that of the variable, in the order in which `listAllNodes` goes through
  -- them. A variable whose name is empty stays as it is, though the root of the file has that name. No
  -- name comes into the table, and none gets out of it.
  pub load_from_yaml_lem :
      (yaml : Yaml) (tree : IsTree yaml) (load_file : List ℕ → Outcome yaml.Node) (fuel : ℕ)
      (filename : List ℕ) (vars : Registry Val) (root : yaml.Node)
      → load_file filename ≡ ok root
      → tree.depth root < fuel
      → (listed : Listed yaml) × (after : Registry Val) × (list_all_nodes yaml fuel [] root
          ≡ ok listed)
        × (load_from_yaml yaml load_file fuel filename vars ≡ ok after)
        × ((c : ℕ) (name : List ℕ)
            → find Val after (c ∷ name)
              ≡ map (set_by yaml (c ∷ name) listed) (find Val vars (c ∷ name)))
        × (find Val after [] ≡ find Val vars [])
  unfolding load_from_yaml
  load_from_yaml_lem yaml tree load_file fuel filename vars root loads enough =
      let (listed, e, _) = list_all_nodes_lem yaml tree fuel [] root enough in
      (
        listed,
        apply_nodes yaml vars listed,
        e,
        rw (loads, ◌>>=◌, e),
        (λ c name. find-apply_nodes yaml vars c name listed),
        find_unnamed-apply_nodes yaml vars listed,
      )
