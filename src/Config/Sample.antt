-- ===== src/Config/Sample.antt =====
-- Small YAML nodes, on which the theorems on config/ are run.
use mathlib.Core.List.{map-append}
use cpp_utils.Base.{
  ℕ, zero, suc, ◌≡◌, ◌<◌, refl, sym, ap, ◌∙◌, inl, inr, arith, Option, none, some, List, [], ◌∷◌,
  ◌++◌, map, length, All, All-append, Among, ok,
}
use cpp_utils.Config.Yaml.{Yaml, Kind, scalar_kind, sequence_kind, map_kind, IsTree}
use cpp_utils.Config.Cast.RoundTrip.{Sequences}

-- A number, or a sequence of numbers; a number is written as one byte.
pub data Item : Type 0 where
  leaf : ℕ → Item
  seq : List ℕ → Item

abbrev number : Item → ℕ
number (leaf k) = k
number (seq ks) = 0

abbrev nth : List ℕ → ℕ → ℕ
nth [] i = 0
nth (k ∷ ks) zero = k
nth (k ∷ ks) (suc i) = nth ks i

abbrev item_kind : Item → Kind
item_kind (leaf k) = scalar_kind
item_kind (seq ks) = sequence_kind

abbrev item_text : Item → List ℕ
item_text (leaf k) = k ∷ []
item_text (seq ks) = b'[' ∷ b']' ∷ ks

abbrev load_item : List ℕ → Option Item
load_item [] = none
load_item (k ∷ []) = some (leaf k)
load_item (a ∷ b ∷ ks) = some (seq ks)

abbrev item_size : Item → ℕ
item_size (leaf k) = 0
item_size (seq ks) = length ks

abbrev item_at : Item → ℕ → Item
item_at (leaf k) i = leaf k
item_at (seq ks) i = leaf (nth ks i)

abbrev push_item : Item → Item → Item
push_item (leaf k) v = leaf k
push_item (seq ks) v = seq (ks ++ (number v ∷ []))

abbrev pub items : Yaml
items = record {
  Node = Item;
  kind = item_kind;
  entries = λ _. [];
  scalar = item_text;
  as_string = λ n. ok (item_text n);
  text = item_text;
  load = load_item;
  new_node = leaf 0;
  size = item_size;
  item = item_at;
  push_back = push_item;
  force_insert = λ n _ _. n;
}

abbrev pub IsLeaf : Item → Type 0
IsLeaf v = leaf (number v) ≡ v

abbrev IsSeqOf : Item → List Item → Type 0
IsSeqOf n ms = (n ≡ seq (map number ms)) × All IsLeaf ms

pub nth-append :
    (front back : List Item) (m : Item)
    → nth (map number (front ++ (m ∷ back))) (length front) ≡ number m
nth-append [] back m = refl
nth-append (x ∷ front) back m = nth-append front back m

pub middle : (front back : List Item) (m : Item) → All IsLeaf (front ++ (m ∷ back)) → IsLeaf m
middle [] back m (here, _) = here
middle (x ∷ front) back m (_, there) = middle front back m there

pub length-map : (ms : List Item) → length (map number ms) ≡ length ms
length-map [] = refl
length-map (m ∷ ms) = ap suc (length-map ms)

abbrev pub item_sequences : Sequences items
item_sequences = record {
  IsSeq = IsSeqOf;
  IsItem = IsLeaf;
  empty = seq [];
  load_brackets = refl;
  empty_is_seq = (refl, tt);
  pushed = λ n v ms (e, leaves) is_leaf. (
    ap (λ m. push_item m v) e ∙ ap seq (sym (map-append number ms (v ∷ []))),
    All-append IsLeaf ms (v ∷ []) leaves (is_leaf, tt),
  );
  sized = λ n ms (e, leaves). ap item_size e ∙ length-map ms;
  placed = λ n m front back (e, leaves).
      ap (λ o. item_at o (length front)) e
      ∙ ap leaf (nth-append front back m)
      ∙ middle front back m leaves;
  reloaded = λ n ms (e, leaves).
      (n, ms, ap (λ o. load_item (item_text o)) e ∙ ap some (sym e), (e, leaves), refl);
}

-- The file `1: {3: 4}, 2: 6`.
pub data FileNode : Type 0 where
  root section : FileNode
  word : ℕ → FileNode

abbrev file_kind : FileNode → Kind
file_kind (word k) = scalar_kind
file_kind _ = map_kind

abbrev file_entries : FileNode → List (FileNode × FileNode)
file_entries root = (word 1, section) ∷ (word 2, word 6) ∷ []
file_entries section = (word 3, word 4) ∷ []
file_entries (word k) = []

abbrev file_text : FileNode → List ℕ
file_text (word k) = k ∷ []
file_text root = b'r' ∷ []
file_text section = b's' ∷ []

abbrev file_depth : FileNode → ℕ
file_depth root = 2
file_depth section = 1
file_depth (word k) = 0

abbrev pub file : Yaml
file = record {
  Node = FileNode;
  kind = file_kind;
  entries = file_entries;
  scalar = file_text;
  as_string = λ n. ok (file_text n);
  text = file_text;
  load = λ _. none;
  new_node = word 7;
  size = λ _. 0;
  item = λ n _. n;
  push_back = λ n _. n;
  force_insert = λ n _ _. n;
}

depth_of : {v w : FileNode} {bound : ℕ} → v ≡ w → file_depth w < bound → file_depth v < bound
depth_of e lt = omega (arith, ap file_depth e)

pub file_deeper : (n k v : FileNode) → Among (k, v) (file_entries n) → file_depth v < file_depth n
file_deeper root k v (inl e) = depth_of (ap (λ (p : FileNode × FileNode). p.1) e) (omega arith)
file_deeper root k v (inr (inl e)) =
    depth_of (ap (λ (p : FileNode × FileNode). p.1) e) (omega arith)
file_deeper root k v (inr (inr none_there)) = absurd none_there
file_deeper (word _) k v none_there = absurd none_there
file_deeper section k v (inr none_there) = absurd none_there
file_deeper section k v (inl e) = depth_of (ap (λ (p : FileNode × FileNode). p.1) e) (omega arith)

abbrev pub file_is_tree : IsTree file
file_is_tree = record { depth = file_depth; deeper = file_deeper; text_keys = λ n k v h. refl }
