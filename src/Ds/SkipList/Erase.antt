-- ===== src/Ds/SkipList/Erase.antt =====
-- ds/kv_skiplist.h: `erase` of a key that is there, on a whole list.
use cpp_utils.Base.{
  ℕ, suc, ◌+◌, ◌≤◌, ◌<◌, ◌≡◌, refl, ap, subst, ◌∙◌, ◌⊎◌, inl, inr, arith, Bool, true, none, some,
  List, [], length, Among, ok, fault, ◌>>=◌,
}
use cpp_utils.Ds.SkipList.{
  count_down, Node, SkipList, Heap, set_at, load, next_at, search, unlink, take_out, shrink, erase,
}
use cpp_utils.Ds.SkipList.Search.{load_deleted}
use cpp_utils.Ds.SkipList.Complete.{IsOrder}
use cpp_utils.Ds.SkipList.Rows.{SameAt, Row-same}
use cpp_utils.Ds.SkipList.Links.{succ_at, Kept, length-set_at, load-inside, get_elem?-there}
use cpp_utils.Ds.SkipList.Linking.{Along-at}
use cpp_utils.Ds.SkipList.Whole.{IsWhole}
use cpp_utils.Ds.SkipList.NewNode.{Row-readable}
use cpp_utils.Ds.SkipList.Dropped.{
  drop_node, Among-drop_node, Among-drop_node_other, length-drop_node,
}
use cpp_utils.Ds.SkipList.Removed.{load-delete, shrink_lem, shrink_stays, KeptBut, Sorted-drop_node}
use cpp_utils.Ds.SkipList.Unlinking.{InFront, Dropped}
use cpp_utils.Ds.SkipList.Found.{
  not_x, head_not_x, Along-InFront, unlinked_below, in_front, found, unlinked,
}

-- A whole list, and the node that has the key.
module _ {K V : Type 0} (less same : K → K → Bool) (order : IsOrder less same) (key : K)
    (s : SkipList K V) (rows : ℕ → List ℕ) (whole : IsWhole less same s rows) (x : ℕ)
    (mx : Node K V) (among : Among x (rows 0)) (at_x : load s.heap x ≡ ok mx)
    (has : same mx.k key ≡ true) where
  -- The list after `erase`.
  abbrev erased : ℕ → Heap K V → SkipList K V
  erased l heap = record s {
    cur_level = l;
    counts = count_down s.counts;
    heap = set_at x none heap;
  }

  -- `erase` comes to its loops and the deletion.
  erase-loops :
      (last l : ℕ) (update : List ℕ) (n hn : Node K V) (heap : Heap K V)
      → search less same s.heap s.cur_level key s.head ≡ ok (last, update)
      → load s.heap last ≡ ok n
      → next_at n 0 ≡ ok (some x)
      → unlink s.heap x 0 s.cur_level update ≡ ok heap
      → load heap s.head ≡ ok hn
      → shrink hn s.cur_level ≡ ok l
      → erase less same key s ≡ ok (erased l heap)
  unfolding erase take_out
  erase-loops last l update n hn heap e en ep eu eh es =
      rw (e, ◌>>=◌, en, ep, at_x, has, eu, eh, es)

  -- Without the node the list is whole.
  erased-IsWhole :
      (heap : Heap K V) (l : ℕ)
      → length heap ≡ length s.heap
      → Kept s.heap heap
      → ((i : ℕ) → i ≤ s.max_level → Dropped s.heap s.head x rows whole.nested heap i)
      → l ≤ s.cur_level
      → ((i : ℕ) → l < i → i ≤ s.cur_level → drop_node x (rows i) ≡ [])
      → KeptBut x s.heap (set_at x none heap)
        × IsWhole less same (erased l heap) (λ i. drop_node x (rows i))
  erased-IsWhole heap l size kept gone low empty =
      let there : x < length heap = omega (arith, size, load-inside s.heap x mx at_x) in
      let kept' : KeptBut x s.heap (set_at x none heap) = λ q n other en.
        let (n', en', alike) = kept q n en in (n', load-delete heap x q there other ∙ en', alike) in
      let same_at : (i q : ℕ)
          → (q ≡ x → ⊥)
          → SameAt (succ_at heap i) (succ_at (set_at x none heap) i) q =
        λ i q other r e. ap (λ o. o >>= λ m. next_at m i) (load-delete heap x q there other) ∙ e in
      (
        kept',
        record {
          levels = omega (arith, low, whole.levels);
          linked = λ i h.
              Row-same (succ_at heap i) (succ_at (set_at x none heap) i) s.head
                (drop_node x (rows i))
                (same_at i s.head (head_not_x less same order key s rows whole x mx among at_x has))
                (λ q later.
                  same_at i q
                    (not_x less same order key s rows whole x mx among at_x has i q later))
                (gone i h);
          nested = λ i q later.
              let (old, other) = Among-drop_node x q (rows (suc i)) later in
              Among-drop_node_other x q (rows i) (whole.nested i q old) other;
          short = λ i. omega (
            arith,
            size,
            length-drop_node x (rows i),
            whole.short i,
            length-set_at heap x none there,
          );
          ascending = λ i h.
              Sorted-drop_node less same x s.heap (set_at x none heap) (rows i) kept'
                (λ q later. Row-readable s.heap i s.head q (rows i) (whole.linked i h) (inr later))
                (whole.ascending i h);
          above = λ i high h. elim (below_cur i) [
            | inl below ↦ empty i high below
            | inr above ↦ ap (drop_node x) (whole.above i above h)
          ];
        },
      )
    where
      below_cur : (i : ℕ) → (i ≤ s.cur_level) ⊎ (s.cur_level < i)
      below_cur i = omega arith

  -- `erase` returns. The list is whole without the node, which is deleted, and all else is as it was.
  pub erase-IsWhole :
      (Among x (rows s.cur_level) → ⊥)
      → (s' : SkipList K V) × (erase less same key s ≡ ok s')
        × IsWhole less same s' (λ i. drop_node x (rows i))
        × KeptBut x s.heap s'.heap
        × (load s'.heap x ≡ fault)
        × (s'.max_level ≡ s.max_level)
        × (s'.counts ≡ count_down s.counts)
  erase-IsWhole out =
      let (last, update, e, filled, reached, n, en, ep) =
        found less same order key s rows whole x mx among at_x has in
      let (heap, eu, size, kept, others, below) =
        unlinked_below less same order key s rows whole x mx among at_x has update filled reached in
      let gone =
        unlinked less same order key s rows whole x mx among at_x has heap out others below in
      let (hn0, eh0) =
        Row-readable s.heap 0 s.head s.head (rows 0) (whole.linked 0 (omega arith)) (inl refl) in
      let (hn, eh, _) = kept s.head hn0 eh0 in
      let (l, es, low, empty) =
        shrink_lem heap s.head hn (λ i. drop_node x (rows i)) s.cur_level eh
          (λ i h. gone i (omega (arith, h, whole.levels))) in
      let (kept', whole') = erased-IsWhole heap l size kept gone low empty in
      let (mx', at_x', _) = kept x mx at_x in
      (
        erased l heap,
        erase-loops last l update n hn heap e en ep eu eh es,
        whole',
        kept',
        load_deleted heap x mx' at_x',
        refl,
        refl,
      )

  -- The code's error: `erase` leaves the level `_curLevel` as it is. If the node is on it, as it may be
  -- when an earlier `erase` has lowered `_curLevel`, the call returns, and a pointer of that level still
  -- leads to the node, which is deleted.
  pub erase_dangling :
      Among x (rows s.cur_level)
      → (s' : SkipList K V) × (u : ℕ) × (erase less same key s ≡ ok s')
        × (s'.cur_level ≡ s.cur_level)
        × ((u ≡ s.head) ⊎ Among u (rows s.cur_level))
        × (succ_at s'.heap s.cur_level u ≡ ok (some x))
        × (load s'.heap x ≡ fault)
  erase_dangling on_top =
      let (last, update, e, filled, reached, n, en, ep) =
        found less same order key s rows whole x mx among at_x has in
      let (heap, eu, size, kept, others, _) =
        unlinked_below less same order key s rows whole x mx among at_x has update filled reached in
      let row = whole.linked s.cur_level whole.levels in
      let (u, at_u) = get_elem?-there update s.cur_level (omega (arith, filled)) in
      let at_cur : 0 + s.cur_level ≡ s.cur_level = omega arith in
      let (place, to_x) =
        subst (λ j. InFront s.heap s.head x rows whole.nested j u) at_cur
          (Along-at (InFront s.heap s.head x rows whole.nested) 0 s.cur_level u update
            (Along-InFront less same order key s rows whole x mx among at_x has update filled
              reached)
            at_u) in
      let (hn0, eh0) =
        Row-readable s.heap s.cur_level s.head s.head (rows s.cur_level) row (inl refl) in
      let (hn, eh, _) = kept s.head hn0 eh0 in
      let (mx', at_x', _) = kept x mx at_x in
      let row' =
        Row-same (succ_at s.heap s.cur_level) (succ_at heap s.cur_level) s.head (rows s.cur_level)
          (others s.cur_level s.head (omega arith)) (λ q _. others s.cur_level q (omega arith))
          row in
      let there : x < length heap = omega (arith, size, load-inside s.heap x mx at_x) in
      (
        erased s.cur_level heap,
        u,
        erase-loops last s.cur_level update n hn heap e en ep eu eh
            (shrink_stays heap s.head x s.cur_level hn (rows s.cur_level) eh row' on_top),
        refl,
        place,
        ap (λ r. r >>= λ m. next_at m s.cur_level)
              (load-delete heap x u there (λ e'.
                in_front less same order key s rows whole x mx among at_x has s.cur_level u row
                  on_top (to_x on_top) e'))
            ∙ others s.cur_level u (omega arith) (some x) (to_x on_top),
        load_deleted heap x mx' at_x',
      )
