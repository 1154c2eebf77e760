-- ===== src/Ds/SkipList/Insert.antt =====
-- ds/kv_skiplist.h: `insert` keeps a list whole.
use cpp_utils.Base.{
  ℕ, zero, suc, ◌-◌, ◌≤◌, ◌≡◌, refl, ap, ◌⊎◌, inl, inr, arith, Bool, some, List, [], ◌∷◌, ◌++◌,
  length, length-append, length-take_le, length-replicate, replicate, take, get_elem?, Among, ok,
  ◌>>=◌,
}
use cpp_utils.Ds.SkipList.{
  SkipList, Heap, create_node, get_random_level, link, update_to, search, insert,
}
use cpp_utils.Ds.SkipList.Absent.{IsTotal, Absent, Ends, Stops-Ends}
use cpp_utils.Ds.SkipList.Linking.{Along, Along-append, Along-replicate, Along-take, Along-map}
use cpp_utils.Ds.SkipList.Whole.{IsWhole, search-Placed, Passed-In, Reached}
use cpp_utils.Ds.SkipList.NewRows.{new_row, new_rows}
use cpp_utils.Ds.SkipList.NewNode.{link_new}
use cpp_utils.Ds.SkipList.Between.{above-Reached}
use cpp_utils.Ds.SkipList.Inserted.{inserted, Adds, inserted-IsWhole, inserted-top}

get_elem?-take_head :
    (n : ℕ) (xs ys : List ℕ) (x : ℕ)
    → 1 ≤ n
    → get_elem? xs 0 ≡ some x
    → get_elem? (take n (xs ++ ys)) 0 ≡ some x
get_elem?-take_head zero xs ys x h e = absurd (omega arith)
get_elem?-take_head (suc n) [] ys x h e = cc
get_elem?-take_head (suc n) (y ∷ xs) ys x h e = e

get_random_level_bounds :
    (max_level odds : ℕ)
    → 1 ≤ max_level
    → (1 ≤ get_random_level max_level odds) × (get_random_level max_level odds ≤ max_level)
unfolding get_random_level
get_random_level_bounds max_level odds h = ground arith

module _ {K V : Type 0} (less same : K → K → Bool) where
  -- `insert` of a key that is not there comes to its linking loop.
  insert-link :
      (odds : ℕ) (key : K) (val : V) (s : SkipList K V) (last : ℕ) (update : List ℕ)
      (heap : Heap K V)
      → search less same s.heap s.cur_level key s.head ≡ ok (last, update)
      → Ends less same s.heap 0 key last
      → link
          (s.heap ++ (some (create_node key val (get_random_level s.max_level odds)) ∷ []))
          (length s.heap)
          0
          (update_to (get_random_level s.max_level odds) s update)
        ≡ ok heap
      → insert less same odds key val s
        ≡ ok (0, inserted less same (get_random_level s.max_level odds) s heap)
  unfolding insert
  insert-link odds key val s last update heap e (n, p, en, ep, inl null) linked =
      rw (e, ◌>>=◌, en, ep, null, linked)
  insert-link odds key val s last update heap e (n, p, en, ep, inr (q, m, here, em, _, other))
        linked =
      rw (e, ◌>>=◌, en, ep, here, em, other, linked)

  -- `insert` of a key that no node has returns 0. The list is whole again, with one node more, which
  -- has the key and the value.
  pub insert-Absent :
      (odds : ℕ) (key : K) (val : V) (s : SkipList K V) (rows : ℕ → List ℕ)
      → IsTotal less same
      → IsWhole less same s rows
      → 1 ≤ s.max_level
      → Absent less same key s rows
      → (s' : SkipList K V) × (rows' : ℕ → List ℕ) × (insert less same odds key val s ≡ ok (0, s'))
        × IsWhole less same s' rows'
        × Adds less same key val s rows s' rows'
  insert-Absent odds key val s rows laws whole some_level absent =
      let level = get_random_level s.max_level odds in
      let (least, most) = get_random_level_bounds s.max_level odds some_level in
      let (last, update, e, filled, first, reached, passed, stop) =
        search-Placed less same s.heap s.head rows whole.nested whole.short s.cur_level key s.head
          (λ j h. whole.linked j (omega (arith, h, whole.levels))) (inl refl) in
      let P = Reached less same s.heap s.head rows whole.nested whole.short key in
      let end =
        Stops-Ends less same 0 key s rows last whole absent (omega arith)
          (Passed-In less same s.heap key s.head (rows 0) last passed) stop in
      let us = update_to level s update in
      let fill = replicate (level - suc s.cur_level) s.head in
      let along : Along P 0 us = Along-take P 0 level (update ++ fill) (
        Along-append P 0 (suc s.cur_level) update fill (omega (arith, filled)) reached (
          Along-replicate P (suc s.cur_level) (level - suc s.cur_level) s.head (λ j low high.
            above-Reached less same key s rows whole j (omega arith) (omega arith)))) in
      let us_filled : length us ≡ level = length-take_le level (update ++ fill) (
        omega (
          arith,
          length-append update fill,
          length-replicate (level - suc s.cur_level) s.head,
          filled,
        )) in
      let (heap, el, size, kept, (n, en, nk, nv), row) =
        link_new less same s rows whole level us key val most us_filled (
          Along-map P (λ j u. (u ≡ s.head) ⊎ Among u (rows j)) 0 us
            (λ j u _ (passed', _). Passed-In less same s.heap key s.head (rows j) u passed')
            along) in
      let rows' = new_rows (length s.heap) s.head us rows in
      (
        inserted less same level s heap,
        rows',
        insert-link odds key val s last update heap e end el,
        inserted-IsWhole less same key s rows level us heap n laws whole absent most us_filled along
            size kept en nk row,
        record {
          max_level = refl;
          counts = refl;
          kept = kept;
          added = (n, en, nk, nv);
          first_row = (
            last,
            ap (λ o. new_row (length s.heap) s.head o (rows 0))
                (get_elem?-take_head level update fill last least first),
          );
          top_row = inserted-top less same s rows level us heap whole most us_filled;
        },
      )
