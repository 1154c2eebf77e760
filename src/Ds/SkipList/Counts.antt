-- ===== src/Ds/SkipList/Counts.antt =====
-- ds/kv_skiplist.h: `_counts` and the number of the nodes.
use cpp_utils.Base.{
  ℕ, suc, ◌^◌, ◌<◌, ◌≡◌, sym, ap, ◌∙◌, inl, inr, arith, Bool, true, List, [], ◌∷◌, length, Among,
  Among-All, ok,
}
use cpp_utils.Base.Int.{pos, ◌+ℤ◌, ◌-ℤ◌}
use cpp_utils.Ds.SkipList.{Node, SkipList, Heap, load, count_up, count_down}
use cpp_utils.Ds.SkipList.Complete.{IsOrder, Sorted}
use cpp_utils.Ds.SkipList.Dropped.{drop_node, drop_node_lem, drop_node_all}

pub one_more : (n : ℕ) → pos n +ℤ pos 1 ≡ pos (suc n)
one_more n = ground arith

pub one_less : (n : ℕ) → pos (suc n) -ℤ pos 1 ≡ pos n
one_less n = ground arith

pub count_up_small : (n : ℕ) → suc n < 2 ^ 31 → count_up (pos n) ≡ pos (suc n)
unfolding count_up
count_up_small n h = ground (arith, h)

pub count_down_small : (n : ℕ) → n < 2 ^ 31 → count_down (pos (suc n)) ≡ pos n
unfolding count_down
count_down_small n h = ground (arith, h)

-- `_counts` is the number of the nodes on the lowest level.
abbrev pub Counted : {K V : Type 0} → SkipList K V → (ℕ → List ℕ) → Type 0
Counted s rows = s.counts ≡ pos (length (rows 0))

module _ {K V : Type 0} (less same : K → K → Bool) (order : IsOrder less same) where
  -- A node that has a key stands once in a row with ascending keys.
  pub length-drop_node_there :
      (heap : Heap K V) (key : K) (x : ℕ) (mx : Node K V) (qs : List ℕ)
      → load heap x ≡ ok mx
      → same mx.k key ≡ true
      → Sorted less same heap qs
      → Among x qs
      → suc (length (drop_node x qs)) ≡ length qs
  length-drop_node_there heap key x mx [] at_x has sorted there = absurd there
  length-drop_node_there heap key x mx (q ∷ qs) at_x has (first, sorted) there =
      elim (drop_node_lem x q qs) [
        | inl (here, e) ↦
            let out : Among x qs → ⊥ = λ again.
              let before = Among-All _ x qs again first in
              let lesser : less mx.k mx.k ≡ true = before mx mx (ap (load heap) here ∙ at_x) at_x in
              cc (order.respects mx.k mx.k key lesser has, order.irrefl mx.k key has) in
            ap (λ xs. suc (length xs)) (e ∙ drop_node_all x qs out)
        | inr (other, e) ↦ elim there [
          | inl here ↦ absurd (other (sym here))
          | inr later ↦
              ap (λ xs. suc (length xs)) e
              ∙ ap suc (length-drop_node_there heap key x mx qs at_x has sorted later)
        ]
      ]
