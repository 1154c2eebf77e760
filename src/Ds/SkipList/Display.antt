-- ===== src/Ds/SkipList/Display.antt =====
-- `display` and the destructor of ds/kv_skiplist.h, on a whole list.
use cpp_utils.Base.{
  ℕ, zero, suc, ◌≤◌, ◌<◌, ◌≡◌, refl, sym, ap, subst, ◌∙◌, inl, arith, Bool, Option, none, some,
  List, [], ◌∷◌, ◌++◌, length, Among, Outcome, ok, out_of_fuel, ok_injective, ◌>>=◌, >>=-eq-ok,
}
use cpp_utils.Ds.SkipList.{Node, SkipList, Heap, set_at, slot, load, next_at}
use cpp_utils.Ds.SkipList.Rows.{Row, Row-next, Row-acyclic}
use cpp_utils.Ds.SkipList.Links.{succ_at, load-place, get_elem?-set_at_ne}
use cpp_utils.Ds.SkipList.Search.{get_elem?-some}
use cpp_utils.Ds.SkipList.Whole.{IsWhole}
use cpp_utils.Ds.SkipList.NewNode.{Row-readable}

module _ {K V : Type 0} where
  -- `while (current)` on level `i`.
  unfoldable pub level_items : ℕ → Heap K V → ℕ → Option ℕ → Outcome (List (K × V))
  unfolding load
  level_items zero heap i p = out_of_fuel
  level_items (suc fuel) heap i none = ok []
  level_items (suc fuel) heap i (some current) = do
    n ← load heap current
    next ← next_at n i
    rest ← level_items fuel heap i next
    ok ((n.k, n.v) ∷ rest)

  -- The loop over the levels, from `i` down. A level has no more nodes than the heap.
  unfoldable pub levels_from : Heap K V → ℕ → ℕ → Outcome (List (List (K × V)))
  unfolding load level_items
  levels_from heap head zero = do
    n ← load heap head
    p ← next_at n 0
    items ← level_items (suc (length heap)) heap 0 p
    ok (items ∷ [])
  levels_from heap head (suc i) = do
    n ← load heap head
    p ← next_at n (suc i)
    items ← level_items (suc (length heap)) heap (suc i) p
    rest ← levels_from heap head i
    ok (items ∷ rest)

  -- `~SkipList()`
  unfoldable pub destroy : SkipList K V → Heap K V
  destroy s = set_at s.head none s.heap

-- The texts of keys and values, as `<<` writes them.
module _ {K V : Type 0} (key_text : K → List ℕ) (val_text : V → List ℕ) where
  abbrev pub entry_text : K × V → List ℕ
  entry_text (key, val) =
      (b'(' ∷ b'k' ∷ b'e' ∷ b'y' ∷ b':' ∷ b' ' ∷ key_text key)
      ++ ((b',' ∷ b' ' ∷ b'v' ∷ b'a' ∷ b'l' ∷ b':' ∷ b' ' ∷ val_text val) ++ (b')' ∷ []))

  -- The items behind the first one of a line.
  abbrev pub more_text : List (K × V) → List ℕ
  more_text [] = b'\n' ∷ []
  more_text (item ∷ items) = b'\t' ∷ entry_text item ++ more_text items

  abbrev pub line_text : List (K × V) → List ℕ
  line_text [] = b'\n' ∷ []
  line_text (item ∷ items) = entry_text item ++ more_text items

  abbrev pub lines_text : List (List (K × V)) → List ℕ
  lines_text [] = []
  lines_text (items ∷ rest) = line_text items ++ lines_text rest

  -- `display()`, with the title that it begins with.
  unfoldable pub display : List ℕ → SkipList K V → Outcome (List ℕ)
  unfolding levels_from
  display title s =
      levels_from s.heap s.head s.cur_level >>= λ lines. ok (title ++ lines_text lines)

module _ {K V : Type 0} where
  -- The keys and values of the nodes in a row.
  abbrev pub Lists : Heap K V → List ℕ → List (K × V) → Type 0
  Lists heap [] [] = Unit
  Lists heap [] (item ∷ items) = ⊥
  Lists heap (q ∷ qs) [] = ⊥
  Lists heap (q ∷ qs) ((key, val) ∷ items) =
      ((n : Node K V) × (load heap q ≡ ok n) × (n.k ≡ key) × (n.v ≡ val)) × Lists heap qs items

  level_items-Lists :
      (fuel : ℕ) (heap : Heap K V) (i a : ℕ) (qs : List ℕ) (p : Option ℕ)
      → Row (succ_at heap i) a qs
      → succ_at heap i a ≡ ok p
      → length qs < fuel
      → (items : List (K × V)) × (level_items fuel heap i p ≡ ok items) × Lists heap qs items
  unfolding level_items
  level_items-Lists zero heap i a qs p row e enough = absurd (omega arith)
  level_items-Lists (suc fuel) heap i a [] p row e enough =
      let end : p ≡ none = ok_injective p p none (sym e ∙ row) in
      ([], ap (level_items (suc fuel) heap i) end, tt)
  level_items-Lists (suc fuel) heap i a (q ∷ qs) p (e', row) e enough =
      let here : p ≡ some q = ok_injective p p (some q) (sym e ∙ e') in
      let (next, eq) = Row-next (succ_at heap i) q qs row in
      let (n, en, ep) = >>=-eq-ok (load heap q) (λ m. next_at m i) eq in
      let (items, ei, lists) = level_items-Lists fuel heap i q qs next row eq (omega arith) in
      (
        (n.k, n.v) ∷ items,
        ap (level_items (suc fuel) heap i) here ∙ rw (en, ◌>>=◌, ep, ei) refl,
        ((n, en, refl, refl), lists),
      )

  -- The lines of the levels from `i` down.
  abbrev pub Shown : Heap K V → (ℕ → List ℕ) → ℕ → List (List (K × V)) → Type 0
  Shown heap rows i [] = ⊥
  Shown heap rows zero (items ∷ []) = Lists heap (rows 0) items
  Shown heap rows zero (items ∷ line ∷ rest) = ⊥
  Shown heap rows (suc i) (items ∷ rest) = Lists heap (rows (suc i)) items × Shown heap rows i rest

module _ {K V : Type 0} (less same : K → K → Bool) (s : SkipList K V) (rows : ℕ → List ℕ)
    (whole : IsWhole less same s rows) where
  -- The line of one level.
  line_lem :
      (i : ℕ)
      → i ≤ s.max_level
      → (n : Node K V) × (p : Option ℕ) × (items : List (K × V)) × (load s.heap s.head ≡ ok n)
        × (next_at n i ≡ ok p)
        × (level_items (suc (length s.heap)) s.heap i p ≡ ok items)
        × Lists s.heap (rows i) items
  line_lem i h =
      let (p, e) = Row-next (succ_at s.heap i) s.head (rows i) (whole.linked i h) in
      let (n, en, ep) = >>=-eq-ok (load s.heap s.head) (λ m. next_at m i) e in
      let (items, ei, lists) =
        level_items-Lists (suc (length s.heap)) s.heap i s.head (rows i) p (whole.linked i h) e
          (omega (arith, whole.short i)) in
      (n, p, items, en, ep, ei, lists)

  levels_from-Shown :
      (i : ℕ)
      → i ≤ s.max_level
      → (lines : List (List (K × V))) × (levels_from s.heap s.head i ≡ ok lines)
        × Shown s.heap rows i lines
  unfolding levels_from
  levels_from-Shown zero h =
      let (n, p, items, en, ep, ei, lists) = line_lem 0 h in
      (items ∷ [], rw (en, ◌>>=◌, ep, ei) refl, lists)
  levels_from-Shown (suc i) h =
      let (n, p, items, en, ep, ei, lists) = line_lem (suc i) h in
      let (rest, er, shown) = levels_from-Shown i (omega (arith, h)) in
      (items ∷ rest, rw (en, ◌>>=◌, ep, ei, er) refl, (lists, shown))

  -- `display` of a whole list returns, the fuel of its loop being enough. Below the title it shows the
  -- levels from `_curLevel` down, each as a line with the keys and values of its nodes in their order.
  pub display_lem :
      (key_text : K → List ℕ) (val_text : V → List ℕ) (title : List ℕ)
      → (lines : List (List (K × V))) × (display key_text val_text title s
          ≡ ok (title ++ lines_text key_text val_text lines))
        × Shown s.heap rows s.cur_level lines
  unfolding display
  display_lem key_text val_text title =
      let (lines, e, shown) = levels_from-Shown s.cur_level whole.levels in (lines, rw e, shown)

  -- The code's error: the destructor frees the head only. Every other node of the list stays allocated.
  pub destroy_leaks : (q : ℕ) → Among q (rows 0) → load (destroy s) q ≡ load s.heap q
  unfolding destroy load
  destroy_leaks q among =
      let (n, en) =
        Row-readable s.heap 0 s.head s.head (rows 0) (whole.linked 0 (omega arith)) (inl refl) in
      ap (λ r. slot r >>= slot)
        (get_elem?-set_at_ne s.heap s.head q none
          (get_elem?-some s.heap s.head (some n) (load-place s.heap s.head n en))
          (λ e.
            Row-acyclic (succ_at s.heap 0) s.head (rows 0) (whole.linked 0 (omega arith))
              (subst (λ p. Among p (rows 0)) e among)))
