-- ===== src/Ds/SkipList/Inserted.antt =====
-- ds/kv_skiplist.h: a list into which a node has been linked.
use cpp_utils.Base.{
  ℕ, suc, ◌+◌, ◌≤◌, ◌<◌, ◌≡◌, sym, subst, ◌∙◌, inl, inr, arith, Bool, List, [], length, ltb,
  if◌then◌else◌, ok, Bool-cases, ltb→lt,
}
use cpp_utils.Ds.SkipList.{count_up, Node, SkipList, Heap, load}
use cpp_utils.Ds.SkipList.Search.{get_elem?-some}
use cpp_utils.Ds.SkipList.Complete.{Sorted}
use cpp_utils.Ds.SkipList.Rows.{Row, insert_after}
use cpp_utils.Ds.SkipList.Links.{succ_at, Kept}
use cpp_utils.Ds.SkipList.Absent.{IsTotal, Absent, Stops-Ends}
use cpp_utils.Ds.SkipList.Linking.{Along, Along-at}
use cpp_utils.Ds.SkipList.Whole.{IsWhole, Passed-In, Reached}
use cpp_utils.Ds.SkipList.Ascending.{Sorted-Kept}
use cpp_utils.Ds.SkipList.NewRows.{new_rows, new_rows-cases, new_rows_nested, length-new_rows}
use cpp_utils.Ds.SkipList.NewNode.{Row-readable}
use cpp_utils.Ds.SkipList.Between.{linked-Sorted}

raised :
    (cur level max : ℕ) → cur ≤ max → level ≤ max → (if ltb cur level then level else cur) ≤ max
raised cur level max h h' = ground arith

not_raised : (cur level i : ℕ) → (if ltb cur level then level else cur) < i → cur < i
not_raised cur level i h = ground arith

raised_above : (cur level i : ℕ) → (if ltb cur level then level else cur) < i → i < level → ⊥
raised_above cur level i h h' = ground arith

not_below : (cur level : ℕ) → (if ltb cur level then level else cur) < level → ⊥
not_below cur level h = ground arith

module _ {K V : Type 0} (less same : K → K → Bool) where
  top_empty :
      (s : SkipList K V) (rows : ℕ → List ℕ) (level : ℕ)
      → IsWhole less same s rows
      → rows s.cur_level ≡ []
      → level ≤ s.max_level
      → level ≤ (if ltb s.cur_level level then level else s.cur_level)
      → rows (if ltb s.cur_level level then level else s.cur_level) ≡ []
  top_empty s rows level whole top low _ = elim (Bool-cases (ltb s.cur_level level)) [
    | inl up ↦ rw up (whole.above level (ltb→lt s.cur_level level up) low)
    | inr stays ↦ rw stays top
  ]

  -- The list after `insert`.
  abbrev pub inserted : ℕ → SkipList K V → Heap K V → SkipList K V
  inserted level s heap = record s {
    cur_level = if ltb s.cur_level level then level else s.cur_level;
    counts = count_up s.counts;
    heap = heap;
  }

  -- What `insert` adds to a list.
  pub record Adds (key : K) (val : V) (s : SkipList K V) (rows : ℕ → List ℕ) (s' : SkipList K V)
      (rows' : ℕ → List ℕ) : Type 0 where
    pub max_level : s'.max_level ≡ s.max_level
    pub counts : s'.counts ≡ count_up s.counts
    pub kept : Kept s.heap s'.heap
    pub added : (n : Node K V) × (load s'.heap (length s.heap) ≡ ok n) × (n.k ≡ key) × (n.v ≡ val)
    pub top_row : rows s.cur_level ≡ [] → rows' s'.cur_level ≡ []
    pub first_row : (u : ℕ) × (rows' 0 ≡ insert_after (length s.heap) s.head u (rows 0))

  -- On each level the new node has come to its place.
  pub inserted-IsWhole :
      (key : K) (s : SkipList K V) (rows : ℕ → List ℕ) (level : ℕ) (us : List ℕ) (heap : Heap K V)
      (n : Node K V) (laws : IsTotal less same) (whole : IsWhole less same s rows)
      → Absent less same key s rows
      → level ≤ s.max_level
      → length us ≡ level
      → Along (Reached less same s.heap s.head rows whole.nested whole.short key) 0 us
      → length heap ≡ suc (length s.heap)
      → Kept s.heap heap
      → load heap (length s.heap) ≡ ok n
      → n.k ≡ key
      → ((i : ℕ)
          → i ≤ s.max_level
          → Row (succ_at heap i) s.head (new_rows (length s.heap) s.head us rows i))
      → IsWhole less same (inserted level s heap) (new_rows (length s.heap) s.head us rows)
  inserted-IsWhole key s rows level us heap n laws whole absent most us_filled along size kept en nk
        row =
      record {
        levels = raised s.cur_level level s.max_level whole.levels most;
        linked = row;
        nested = new_rows_nested (length s.heap) s.head us rows whole.nested;
        short = λ i. omega (
          arith,
          size,
          length-new_rows (length s.heap) s.head us rows i (length s.heap) (whole.short i),
        );
        ascending = λ i low. elim (new_rows-cases (length s.heap) s.head us rows i) [
          | inl (e', _) ↦ subst (Sorted less same heap) (sym e') (
              Sorted-Kept less same s.heap heap (rows i) kept
                (λ q among.
                  Row-readable s.heap i s.head q (rows i) (whole.linked i low) (inr among))
                (whole.ascending i low))
          | inr (u, there, e') ↦
              let at_i : 0 + i ≡ i = omega arith in
              let (passed', stop') =
                subst (λ j. Reached less same s.heap s.head rows whole.nested whole.short key j u)
                  at_i
                  (Along-at (Reached less same s.heap s.head rows whole.nested whole.short key) 0 i
                    u us along there) in
              subst (Sorted less same heap) (sym e') (
                linked-Sorted less same i key s rows u heap n laws whole low passed'
                  (Stops-Ends less same i key s rows u whole absent low
                    (Passed-In less same s.heap key s.head (rows i) u passed') stop')
                  kept en nk)
        ];
        above = λ i high low. elim (new_rows-cases (length s.heap) s.head us rows i) [
          | inl (e', _) ↦ e' ∙ whole.above i (not_raised s.cur_level level i high) low
          | inr (u, there, _) ↦ absurd (
              raised_above s.cur_level level i high
                (omega (arith, us_filled, get_elem?-some us i u there)))
        ];
      }

  pub inserted-top :
      (s : SkipList K V) (rows : ℕ → List ℕ) (level : ℕ) (us : List ℕ) (heap : Heap K V)
      → IsWhole less same s rows
      → level ≤ s.max_level
      → length us ≡ level
      → rows s.cur_level ≡ []
      → new_rows (length s.heap) s.head us rows (inserted level s heap).cur_level ≡ []
  inserted-top s rows level us heap whole most us_filled top =
      elim (new_rows-cases (length s.heap) s.head us rows (inserted level s heap).cur_level) [
        | inl (e', high) ↦
            e' ∙ top_empty s rows level whole top most (omega (arith, us_filled, high))
        | inr (u, there, _) ↦ absurd (
            not_below s.cur_level level (
              omega
                (arith, us_filled, get_elem?-some us (inserted level s heap).cur_level u there)))
      ]
