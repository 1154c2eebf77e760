-- ===== src/Ds/LinkedList/Counted.antt =====
-- ds/list.h: `_len` counts the items.
use cpp_utils.Base.{
  ℕ, suc, ◌-◌, ◌^◌, ◌<◌, ◌≡◌, refl, sym, subst, ◌∙◌, arith, Option, none, some, ◌∷◌, ◌++◌, length,
  length-append, length-take_le, length-drop, take, drop, ok,
}
use cpp_utils.Base.Int.{ℤ}
use cpp_utils.Ds.LinkedList.{LinkedList, insert, remove}
use cpp_utils.Ds.LinkedList.Positions.{
  place, place_in, IsValid, inserted, removed, insert_lem, remove_lem,
}

module _ {ℓ} {A : Type ℓ} where
  -- An insertion that returns keeps `_len` the number of items, as long as it fits an `int`.
  inserted-IsValid :
      (item : A) (ls : LinkedList A) (k : Option ℕ) (p : ℤ) (c : ℤ) (ls' : LinkedList A)
      → IsValid ls
      → suc ls.len < 2 ^ 31
      → place (suc (length ls.head)) (length ls.head) p ≡ k
      → inserted item ls k ≡ ok (c, ls')
      → IsValid ls'
  inserted-IsValid item ls none p c ls' v small h e =
      let same : ls ≡ ls' = cc in subst IsValid same v
  inserted-IsValid item ls (some k) p c ls' v small h e =
      let inside = place_in (suc (length ls.head)) (length ls.head) p k (omega arith) h in
      let head' = take k ls.head ++ (item ∷ drop k ls.head) in
      let same : record { head = head'; len = suc ls.len } ≡ ls' = cc in
      subst IsValid same (record {
        len_is = omega (
          arith,
          v.len_is,
          length-append (take k ls.head) (item ∷ drop k ls.head),
          length-take_le k ls.head (omega arith),
          length-drop k ls.head,
        );
        in_range = small;
      })

  removed-IsValid :
      (ls : LinkedList A) (k : Option ℕ) (p : ℤ) (c : ℤ) (ls' : LinkedList A)
      → IsValid ls
      → place (length ls.head) (length ls.head) p ≡ k
      → removed ls k ≡ ok (c, ls')
      → IsValid ls'
  removed-IsValid ls none p c ls' v h e = let same : ls ≡ ls' = cc in subst IsValid same v
  removed-IsValid ls (some k) p c ls' v h e =
      let inside = place_in (length ls.head) (length ls.head) p k (omega arith) h in
      let head' = take k ls.head ++ drop (suc k) ls.head in
      let same : record { head = head'; len = ls.len - 1 } ≡ ls' = cc in
      subst IsValid same (record {
        len_is = omega (
          arith,
          v.len_is,
          length-append (take k ls.head) (drop (suc k) ls.head),
          length-take_le k ls.head (omega arith),
          length-drop (suc k) ls.head,
        );
        in_range = omega (arith, v.in_range);
      })

  -- `insert` and `remove` keep `_len` the number of items, at every position, as long as it fits an
  -- `int`.
  pub insert_remove-IsValid :
      (item : A) (ls ls' ls'' : LinkedList A) (p q c d : ℤ)
      → IsValid ls
      → suc ls.len < 2 ^ 31
      → insert p item ls ≡ ok (c, ls')
      → remove q ls ≡ ok (d, ls'')
      → IsValid ls' × IsValid ls''
  insert_remove-IsValid item ls ls' ls'' p q c d v small e e' = (
    inserted-IsValid item ls _ p c ls' v small refl (sym (insert_lem item ls p v) ∙ e),
    removed-IsValid ls _ q d ls'' v refl (sym (remove_lem ls q v) ∙ e'),
  )
