-- ===== src/Config/SampleMap.antt =====
-- YAML nodes that are numbers or maps from numbers to numbers.
use mathlib.Core.List.{map-append}
use cpp_utils.Base.{
  ℕ, ◌≡◌, refl, sym, ap, ◌∙◌, Option, none, some, List, [], ◌∷◌, ◌++◌, map, All, All-append, ok,
}
use cpp_utils.Config.Yaml.{Yaml, Kind, scalar_kind, map_kind}
use cpp_utils.Config.Cast.Maps.{Maps, shown}

-- A number is written as one byte, and a map as the bytes of its entries behind two others.
pub data Page : Type 0 where
  cell : ℕ → Page
  book : List (ℕ × ℕ) → Page

abbrev number : Page → ℕ
number (cell k) = k
number (book es) = 0

abbrev cells : List (ℕ × ℕ) → List (Page × Page)
cells [] = []
cells ((k, v) ∷ es) = (cell k, cell v) ∷ cells es

abbrev numbers : Page × Page → ℕ × ℕ
numbers (k, v) = (number k, number v)

abbrev page_kind : Page → Kind
page_kind (cell k) = scalar_kind
page_kind (book es) = map_kind

abbrev page_entries : Page → List (Page × Page)
page_entries (cell k) = []
page_entries (book es) = cells es

abbrev flat : List (ℕ × ℕ) → List ℕ
flat [] = []
flat ((k, v) ∷ es) = k ∷ v ∷ flat es

abbrev page_text : Page → List ℕ
page_text (cell k) = k ∷ []
page_text (book es) = b'{' ∷ b'}' ∷ flat es

abbrev pairs : List ℕ → List (ℕ × ℕ)
pairs [] = []
pairs (k ∷ []) = []
pairs (k ∷ v ∷ ks) = (k, v) ∷ pairs ks

abbrev load_page : List ℕ → Option Page
load_page [] = none
load_page (k ∷ []) = some (cell k)
load_page (a ∷ b ∷ ks) = some (book (pairs ks))

abbrev insert_entry : Page → Page → Page → Page
insert_entry (cell n) k v = cell n
insert_entry (book es) k v = book (es ++ ((number k, number v) ∷ []))

abbrev pub pages : Yaml
pages = record {
  Node = Page;
  kind = page_kind;
  entries = page_entries;
  scalar = λ n. number n ∷ [];
  as_string = λ n. ok (number n ∷ []);
  text = page_text;
  load = load_page;
  new_node = book [];
  size = λ _. 0;
  item = λ n _. n;
  push_back = λ n _. n;
  force_insert = insert_entry;
}

abbrev pub IsCell : Page → Type 0
IsCell v = cell (number v) ≡ v

abbrev AllCells : List (Page × Page) → Type 0
AllCells es = All (λ (e : Page × Page). IsCell e.1) es

pairs-flat : (es : List (ℕ × ℕ)) → pairs (flat es) ≡ es
pairs-flat [] = refl
pairs-flat ((k, v) ∷ es) = ap (◌∷◌ (k, v)) (pairs-flat es)

pub shown-cells :
    (es : List (Page × Page))
    → AllCells es
    → shown pages (cells (pairs (flat (map numbers es)))) ≡ shown pages es
shown-cells es all = ap (λ ns. shown pages (cells ns)) (pairs-flat (map numbers es)) ∙ same es all
  where
    same :
        (es : List (Page × Page))
        → AllCells es
        → shown pages (cells (map numbers es)) ≡ shown pages es
    same [] all = refl
    same ((k, v) ∷ es) (is_cell, all) =
        λ i. ((number k ∷ [], ap page_text is_cell i) ∷ same es all i)

abbrev pub page_maps : Maps pages
page_maps = record {
  IsMap = λ n es. (n ≡ book (map numbers es)) × AllCells es;
  IsItem = IsCell;
  new_is_map = (refl, tt);
  inserted = λ n k v es (e, all) is_cell. (
    ap (λ m. insert_entry m k v) e ∙ ap book (sym (map-append numbers es ((k, v) ∷ []))),
    All-append (λ (x : Page × Page). IsCell x.1) es ((k, v) ∷ []) all (is_cell, tt),
  );
  reloaded = λ n es (e, all). (
    book (pairs (flat (map numbers es))),
    ap (λ m. load_page (page_text m)) e,
    shown-cells es all,
  );
}
