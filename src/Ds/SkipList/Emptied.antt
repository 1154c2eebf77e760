-- ===== src/Ds/SkipList/Emptied.antt =====
-- ds/kv_skiplist.h: the function that a list represents, after `erase`.
use cpp_utils.Base.{
  ℕ, ◌≡◌, sym, ap, subst, ◌∙◌, inl, inr, Bool-cases, arith, Bool, true, false, Option, none, some,
  List, Among, ok, ok_injective,
}
use cpp_utils.Base.Int.{pos, ◌-ℤ◌}
use cpp_utils.Ds.SkipList.{Node, SkipList, load, erase}
use cpp_utils.Ds.SkipList.Whole.{IsWhole}
use cpp_utils.Ds.SkipList.NewNode.{Row-readable}
use cpp_utils.Ds.SkipList.Absent.{IsTotal, Absent}
use cpp_utils.Ds.SkipList.Dropped.{drop_node, Among-drop_node, Among-drop_node_other}
use cpp_utils.Ds.SkipList.Erase.{erase-IsWhole}
use cpp_utils.Ds.SkipList.Removed.{KeptBut}
use cpp_utils.Ds.SkipList.Ascending.{Sorted-cases}
use cpp_utils.Ds.SkipList.{count_down}
use cpp_utils.Ds.SkipList.Counts.{Counted, count_down_small, one_less, length-drop_node_there}
use cpp_utils.Base.{ap, ◌∙◌, sym, ◌^◌, ◌<◌, suc, length}
use cpp_utils.Ds.SkipList.Spec.{Held, Represents, remove_key}

module _ {K V : Type 0} (less same : K → K → Bool) where
  -- What the list holds of a key, when the node `x`, which has the key `key`, is taken out.
  Held-removed :
      (key k : K) (s s' : SkipList K V) (rows : ℕ → List ℕ) (x : ℕ) (mx : Node K V) (o : Option V)
      → IsTotal less same
      → IsWhole less same s rows
      → load s.heap x ≡ ok mx
      → same mx.k key ≡ true
      → same key k ≡ false
      → KeptBut x s.heap s'.heap
      → Held less same k s rows o
      → Held less same k s' (λ i. drop_node x (rows i)) o
  Held-removed key k s s' rows x mx none laws whole at_x has other kept absent = λ q m among em.
      let (old, not_x) = Among-drop_node x q (rows 0) among in
      let (m0, e0) =
        Row-readable s.heap 0 s.head q (rows 0) (whole.linked 0 (omega arith)) (inr old) in
      let (m1, e1, (mk, _, _)) = kept q m0 not_x e0 in
      let same_node : m ≡ m1 = ok_injective m m m1 (sym em ∙ e1) in
      cc (ap (λ (r : Node K V). r.k) same_node, mk, absent q m0 old e0)
  Held-removed key k s s' rows x mx (some v) laws whole at_x has other kept
        (q, m, among, em, same_key, value) =
      let not_x : q ≡ x → ⊥ = λ e.
        let same_node : m ≡ mx = ok_injective m m mx (sym em ∙ ap (load s.heap) e ∙ at_x) in
        let back = laws.same_sym mx.k key has in
        let x_k : same mx.k k ≡ true = cc (ap (λ (r : Node K V). r.k) same_node, same_key) in
        cc (laws.same_trans key mx.k k back x_k, other) in
      let (m', em', (mk, mv, _)) = kept q m not_x em in
      (q, m', Among-drop_node_other x q (rows 0) among not_x, em', cc (mk, same_key), mv ∙ value)

  -- No other node has the key.
  Held-gone :
      (key k : K) (s s' : SkipList K V) (rows : ℕ → List ℕ) (x : ℕ) (mx : Node K V)
      → IsTotal less same
      → IsWhole less same s rows
      → Among x (rows 0)
      → load s.heap x ≡ ok mx
      → same mx.k key ≡ true
      → same key k ≡ true
      → KeptBut x s.heap s'.heap
      → Absent less same k s' (λ i. drop_node x (rows i))
  Held-gone key k s s' rows x mx laws whole there at_x has same_key kept q m among em =
      let (old, not_x) = Among-drop_node x q (rows 0) among in
      let (m0, e0) =
        Row-readable s.heap 0 s.head q (rows 0) (whole.linked 0 (omega arith)) (inr old) in
      let (m1, e1, (mk, _, _)) = kept q m0 not_x e0 in
      let same_node : m ≡ m1 = ok_injective m m m1 (sym em ∙ e1) in
      let key_is : m.k ≡ m0.k = ap (λ (r : Node K V). r.k) same_node ∙ mk in
      elim (Bool-cases (same m.k k)) [
        | inr other ↦ other
        | inl equal ↦
            let back = laws.same_sym key k same_key in
            let q_key : same m0.k key ≡ true =
              laws.same_trans m0.k k key (cc (key_is, equal)) back in
            elim (Sorted-cases less same s.heap (rows 0) q x (whole.ascending 0 (omega arith)) old
              there) [
                | inl e ↦ absurd (not_x e)
                | inr (inl before) ↦ cc (
                  laws.order.respects m0.k mx.k key (before m0 mx e0 at_x) has,
                  laws.order.irrefl m0.k key q_key,
                )
                | inr (inr behind) ↦ cc (
                  laws.order.respects mx.k m0.k key (behind mx m0 at_x e0) q_key,
                  laws.order.irrefl mx.k key has,
                )
              ]
      ]

  -- A node with the key is on the level `_curLevel`.
  abbrev pub OnTop : K → SkipList K V → (ℕ → List ℕ) → Type 0
  OnTop key s rows =
      (x : ℕ) × (m : Node K V) × Among x (rows s.cur_level)
      × (load s.heap x ≡ ok m)
      × (same m.k key ≡ true)

  -- `erase` of such a key takes its node out of all levels.
  pub erase-Shows :
      (key : K) (val : V) (s : SkipList K V) (f : K → Option V) (rows : ℕ → List ℕ)
      → IsTotal less same
      → IsWhole less same s rows
      → ((k : K) → Held less same k s rows (f k))
      → f key ≡ some val
      → (OnTop key s rows → ⊥)
      → (s' : SkipList K V) × (erase less same key s ≡ ok s')
        × ((rows' : ℕ → List ℕ) × IsWhole less same s' rows'
            × ((k : K) → Held less same k s' rows' (remove_key less same key f k))
            × (suc (length (rows' 0)) ≡ length (rows 0)))
        × (s'.max_level ≡ s.max_level)
        × (s'.counts ≡ count_down s.counts)
  erase-Shows key val s f rows laws whole held has_value not_on_top =
      let (x, mx, among, at_x, has, _) = subst (Held less same key s rows) has_value (held key) in
      let (s', e, whole', kept, _, levels, counts) =
        erase-IsWhole less same laws.order key s rows whole x mx among at_x has
          (λ on_top. not_on_top (x, mx, on_top, at_x, has)) in
      (
        s',
        e,
        (
          (λ i. drop_node x (rows i)),
          whole',
          (λ k. elim (Bool-cases (same key k)) [
            | inl gone ↦
                rw gone (Held-gone key k s s' rows x mx laws whole among at_x has gone kept)
            | inr other ↦
                rw other
                  (Held-removed key k s s' rows x mx (f k) laws whole at_x has other kept (held k))
          ]),
          length-drop_node_there less same laws.order s.heap key x mx (rows 0) at_x has
              (whole.ascending 0 (omega arith)) among,
        ),
        levels,
        counts,
      )

  -- `erase` of a key with a value returns a list that is counted one shorter and represents the function
  -- without a value for the key, if the node with the key is not on the level `_curLevel`. That a list
  -- represents a function is also to say that `_counts` is the number of its nodes; this is to fit an
  -- `int`, and `<` and `==` of the keys are to be a total order.
  pub erase-Represents :
      (key : K) (val : V) (s : SkipList K V) (f : K → Option V) (rows : ℕ → List ℕ)
      → IsTotal less same
      → IsWhole less same s rows
      → ((k : K) → Held less same k s rows (f k))
      → Counted s rows
      → length (rows 0) < 2 ^ 31
      → f key ≡ some val
      → (OnTop key s rows → ⊥)
      → (s' : SkipList K V) × (erase less same key s ≡ ok s')
        × Represents less same s' (remove_key less same key f)
        × (s'.max_level ≡ s.max_level)
        × (s'.counts ≡ s.counts -ℤ pos 1)
  erase-Represents key val s f rows laws whole held counted small has_value not_on_top =
      let (s', e, (rows', whole', held', fewer), levels, counts) =
        erase-Shows key val s f rows laws whole held has_value not_on_top in
      let nodes : s.counts ≡ pos (suc (length (rows' 0))) = counted ∙ ap pos (sym fewer) in
      let down : s'.counts ≡ pos (length (rows' 0)) =
        counts ∙ ap count_down nodes ∙ count_down_small (length (rows' 0)) (omega (arith, fewer)) in
      (
        s',
        e,
        (rows', whole', held', down),
        levels,
        down ∙ sym (ap (λ c. c -ℤ pos 1) nodes ∙ one_less (length (rows' 0))),
      )
