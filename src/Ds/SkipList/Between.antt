-- ===== src/Ds/SkipList/Between.antt =====
-- ds/kv_skiplist.h: a new node stands between the lesser and the greater keys of a level.
use cpp_utils.Base.{
  ℕ, ◌≤◌, ◌<◌, ◌≡◌, refl, sym, ap, subst, ◌∙◌, ◌⊎◌, inl, inr, Bool, false, none, some,
  some_injective, List, length, Among, ok, ok_injective, ◌>>=◌, >>=-eq-ok,
}
use cpp_utils.Ds.SkipList.{Node, SkipList, Heap, load, next_at}
use cpp_utils.Ds.SkipList.Complete.{Before, Sorted, Passed}
use cpp_utils.Ds.SkipList.Rows.{Row, insert_after, Row-acyclic}
use cpp_utils.Ds.SkipList.Links.{succ_at, Kept, Kept-Alike}
use cpp_utils.Ds.SkipList.Absent.{IsTotal, Ends}
use cpp_utils.Ds.SkipList.Whole.{IsWhole, Passed-In, Reached}
use cpp_utils.Ds.SkipList.Ascending.{Sorted-Kept, Sorted-insert_after}
use cpp_utils.Ds.SkipList.NewNode.{Row-readable}

module _ {K V : Type 0} (less same : K → K → Bool) where
  -- On an empty level the search would end at the head.
  pub above-Reached :
      (key : K) (s : SkipList K V) (rows : ℕ → List ℕ) (whole : IsWhole less same s rows) (j : ℕ)
      → s.cur_level < j
      → j ≤ s.max_level
      → Reached less same s.heap s.head rows whole.nested whole.short key j s.head
  above-Reached key s rows whole j high low =
      let row =
        subst (Row (succ_at s.heap j) s.head) (whole.above j high low) (whole.linked j low) in
      let (n, en, ep) = >>=-eq-ok (load s.heap s.head) (λ m. next_at m j) row in
      (inl refl, (n, none, en, ep, inl refl))

  -- The linked node comes behind those with lesser keys and before those with greater ones.
  pub linked-Sorted :
      (i : ℕ) (key : K) (s : SkipList K V) (rows : ℕ → List ℕ) (last : ℕ) (heap : Heap K V)
      (n : Node K V)
      → IsTotal less same
      → IsWhole less same s rows
      → i ≤ s.max_level
      → Passed less same s.heap key s.head (rows i) last
      → Ends less same s.heap i key last
      → Kept s.heap heap
      → load heap (length s.heap) ≡ ok n
      → n.k ≡ key
      → Sorted less same heap (insert_after (length s.heap) s.head last (rows i))
  linked-Sorted i key s rows last heap n laws whole low passed (o, p, eo, ep, end) kept en nk =
      Sorted-insert_after less same laws.order s.heap heap i last (length s.heap) s.head (rows i)
        row (Passed-In less same s.heap key s.head (rows i) last passed)
        (Sorted-Kept less same s.heap heap (rows i) kept
          (λ q among. Row-readable s.heap i s.head q (rows i) row (inr among))
          (whole.ascending i low))
        (λ q among.
          let (m, em) = Row-readable s.heap i s.head q (rows i) row (inr among) in
          let (m', em', _) = kept q m em in (m', em'))
        (λ among m m' em em'. below passed among m m' em em')
        (λ q e m m' em em'. above end q e m m' em em')
    where
      row : Row (succ_at s.heap i) s.head (rows i)
      row = whole.linked i low

      new_key : (m : Node K V) → load heap (length s.heap) ≡ ok m → m.k ≡ key
      new_key m em = ap (λ (r : Node K V). r.k) (ok_injective m m n (sym em ∙ en)) ∙ nk

      below :
          Passed less same s.heap key s.head (rows i) last
          → Among last (rows i)
          → Before less same heap last (length s.heap)
      below (inl at_head) among m m' em em' = absurd (
          Row-acyclic (succ_at s.heap i) s.head (rows i) row
            (subst (λ q. Among q (rows i)) at_head among))
      below (inr (_, (m0, e0, lesser))) among m m' em em' =
          let (same_key, _, _) = Kept-Alike s.heap heap last m0 m kept e0 em in
          cc (same_key, new_key m' em', lesser)

      above :
          (p ≡ none)
            ⊎ ((q : ℕ) × (m : Node K V) × (p ≡ some q)
                × (load s.heap q ≡ ok m)
                × (less m.k key ≡ false)
                × (same m.k key ≡ false))
          → (q : ℕ) → succ_at s.heap i last ≡ ok (some q)
          → Before less same heap (length s.heap) q
      above (inl null) q e m m' em em' =
          cc (
            ok_injective p p (some q) (sym ep ∙ sym (ap (λ r. r >>= λ o. next_at o i) eo) ∙ e),
            null,
          )
      above (inr (q', m0, here, e0, not_less, other)) q e m m' em em' =
          let at_q : q' ≡ q = some_injective q q' q (
            sym here
            ∙ ok_injective p p (some q) (sym ep ∙ sym (ap (λ r. r >>= λ o. next_at o i) eo) ∙ e)) in
          let (same_key, _, _) =
            Kept-Alike s.heap heap q m0 m' kept (ap (load s.heap) (sym at_q) ∙ e0) em' in
          cc (same_key, new_key m em, laws.total m0.k key not_less other)
