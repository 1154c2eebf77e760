-- ===== src/Ds/SkipList/Filled.antt =====
-- ds/kv_skiplist.h: the function that a list represents, after `insert`.
use cpp_utils.Base.{
  ℕ, zero, suc, ◌≤◌, ◌<◌, ◌≡◌, refl, sym, ap, subst, ◌∙◌, inl, inr, Bool-cases, arith, Bool, true,
  false, Option, none, some, List, [], ◌∷◌, length, get_elem?, replicate, Among, ok, ok_injective,
  ◌>>=◌,
}
use cpp_utils.Ds.SkipList.{Node, SkipList, load, slot, new_skip_list, insert, find}
use cpp_utils.Ds.SkipList.Complete.{find_complete}
use cpp_utils.Ds.SkipList.Rows.{Among-insert_after, Among-insert_after_old, Among-insert_after_new}
use cpp_utils.Ds.SkipList.Links.{Kept-Alike, Chain-Row}
use cpp_utils.Ds.SkipList.Whole.{IsWhole, rows-LinkedIn}
use cpp_utils.Ds.SkipList.NewNode.{Row-readable}
use cpp_utils.Ds.SkipList.Absent.{IsTotal, find-Absent}
use cpp_utils.Ds.SkipList.Inserted.{Adds}
use cpp_utils.Ds.SkipList.Insert.{insert-Absent}
use cpp_utils.Ds.SkipList.{count_up}
use cpp_utils.Ds.SkipList.Rows.{length-insert_after}
use cpp_utils.Ds.SkipList.Counts.{Counted, count_up_small, one_more}
use cpp_utils.Base.{ap, ◌∙◌, sym, ◌^◌, suc, length}
use cpp_utils.Base.Int.{pos, ◌+ℤ◌}
use cpp_utils.Ds.SkipList.Spec.{
  Shows, Held, Represents, Flat, put_at, put_new, Finds, Grown, insert_each, put_each,
}

get_elem?-replicate : {A : Type 0} (n i : ℕ) (a : A) → i < n → get_elem? (replicate n a) i ≡ some a
get_elem?-replicate zero i a h = absurd (omega arith)
get_elem?-replicate (suc n) zero a h = refl
get_elem?-replicate (suc n) (suc i) a h = get_elem?-replicate n i a (omega arith)

module _ {K V : Type 0} (less same : K → K → Bool) where
  new_skip_list-IsWhole :
      (k : K) (v : V) (max_level : ℕ) → IsWhole less same (new_skip_list k v max_level) (λ _. [])
  unfolding load
  new_skip_list-IsWhole k v max_level = record {
    levels = omega arith;
    linked =
        λ i h. ap slot (get_elem?-replicate {A = Option ℕ} (suc max_level) i none (omega arith));
    nested = λ i q among. absurd among;
    short = λ i. omega arith;
    ascending = λ i h. tt;
    above = λ i high h. refl;
  }

  pub new_skip_list-Flat :
      (k : K) (v : V) (max_level : ℕ) → Flat less same (new_skip_list k v max_level) (λ _. none)
  new_skip_list-Flat k v max_level =
      (λ _. [], new_skip_list-IsWhole k v max_level, (λ key q m among e. absurd among), refl)

  pub new_skip_list-Represents :
      (k : K) (v : V) (max_level : ℕ)
      → Represents less same (new_skip_list k v max_level) (λ _. none)
  new_skip_list-Represents k v max_level =
      (λ _. [], new_skip_list-IsWhole k v max_level, (λ key q m among e. absurd among), refl)

  -- A node that has the key is what `find` returns, and keeps `insert` from changing the list.
  held_complete :
      (key : K) (s : SkipList K V) (rows : ℕ → List ℕ) (x : ℕ) (m : Node K V)
      → IsTotal less same
      → IsWhole less same s rows
      → Among x (rows 0)
      → load s.heap x ≡ ok m
      → same m.k key ≡ true
      → (find less same key s ≡ ok (some x))
        × ((odds : ℕ) (val : V) → insert less same odds key val s ≡ ok (1, s))
  held_complete key s rows x m laws whole =
      find_complete less same key s (rows 0) x m laws.order
        (rows-LinkedIn less same s.heap s.head rows whole.nested whole.short s.cur_level s.head
          (λ j h. whole.linked j (omega (arith, h, whole.levels))) (inl refl))
        (Chain-Row s.heap 0 s.head (rows 0) (whole.linked 0 (omega arith)))
        (whole.ascending 0 (omega arith))

  pub find-Held :
      (key : K) (s : SkipList K V) (rows : ℕ → List ℕ) (o : Option V)
      → IsTotal less same
      → IsWhole less same s rows
      → Held less same key s rows o
      → (r : Option ℕ) × (find less same key s ≡ ok r) × Finds less same key s o r
  find-Held key s rows none laws whole absent =
      (none, find-Absent less same key s rows whole absent, refl)
  find-Held key s rows (some val) laws whole (x, m, among, em, same_key, value) =
      let (e, _) = held_complete key s rows x m laws whole among em same_key in
      (some x, e, (x, m, refl, em, same_key, value))

  insert-Held :
      (odds : ℕ) (key : K) (val value : V) (s : SkipList K V) (rows : ℕ → List ℕ)
      → IsTotal less same
      → IsWhole less same s rows
      → Held less same key s rows (some value)
      → insert less same odds key val s ≡ ok (1, s)
  insert-Held odds key val value s rows laws whole (x, m, among, em, same_key, _) =
      (held_complete key s rows x m laws whole among em same_key).1 odds val

  -- What the list held of another key it holds still.
  Held-other :
      (key key' : K) (val : V) (s s' : SkipList K V) (rows rows' : ℕ → List ℕ) (o : Option V)
      → IsWhole less same s rows
      → Adds less same key val s rows s' rows'
      → same key key' ≡ false
      → Held less same key' s rows o
      → Held less same key' s' rows' o
  Held-other key key' val s s' rows rows' none whole adds other absent = λ q m among em.
      let (n, en, nk, _) = adds.added in
      let (u, first) = adds.first_row in
      elim (Among-insert_after (length s.heap) q s.head u (rows 0) (subst (Among q) first among)) [
        | inl new ↦
            let new_m : m ≡ n = ok_injective m m n (sym em ∙ ap (load s'.heap) new ∙ en) in
            cc (ap (λ (r : Node K V). r.k) new_m, nk, other)
        | inr old ↦
            let (m0, e0) =
              Row-readable s.heap 0 s.head q (rows 0) (whole.linked 0 (omega arith)) (inr old) in
            let (same_key, _, _) = Kept-Alike s.heap s'.heap q m0 m adds.kept e0 em in
            cc (same_key, absent q m0 old e0)
      ]
  Held-other key key' val s s' rows rows' (some v) whole adds other
        (x, m, among, em, same_key, value) =
      let (u, first) = adds.first_row in
      let (m', em', (mk, mv, _)) = adds.kept x m em in
      (
        x,
        m',
        subst (Among x) (sym first)
            (Among-insert_after_old (length s.heap) x s.head u (rows 0) among),
        em',
        cc (mk, same_key),
        mv ∙ value,
      )

  Held-new :
      (key key' : K) (val : V) (s s' : SkipList K V) (rows rows' : ℕ → List ℕ)
      → Adds less same key val s rows s' rows'
      → same key key' ≡ true
      → Held less same key' s' rows' (some val)
  Held-new key key' val s s' rows rows' adds same_key =
      let (n, en, nk, nv) = adds.added in
      let (u, first) = adds.first_row in
      (
        length s.heap,
        n,
        subst (Among (length s.heap)) (sym first)
            (Among-insert_after_new (length s.heap) s.head u (rows 0)),
        en,
        cc (nk, same_key),
        nv,
      )

  insert-by_value :
      (odds : ℕ) (key : K) (val : V) (s : SkipList K V) (f : K → Option V) (rows : ℕ → List ℕ)
      (o : Option V)
      → IsTotal less same
      → 1 ≤ s.max_level
      → IsWhole less same s rows
      → ((k : K) → Held less same k s rows (f k))
      → Held less same key s rows o
      → (r : ℕ) × (s' : SkipList K V) × (insert less same odds key val s ≡ ok (r, s'))
        × ((rows' : ℕ → List ℕ) × IsWhole less same s' rows'
            × ((k : K) → Held less same k s' rows' (put_at less same o (same key k) val (f k)))
            × (rows s.cur_level ≡ [] → rows' s'.cur_level ≡ [])
            × (Counted s rows
                → suc (length (rows 0)) < 2 ^ 31
                → Counted s' rows' × Grown less same o r s s'))
        × (s'.max_level ≡ s.max_level)
  insert-by_value odds key val s f rows none laws some_level whole held absent =
      let (s', rows', e, whole', adds) =
        insert-Absent less same odds key val s rows laws whole some_level absent in
      (
        0,
        s',
        e,
        (
          rows',
          whole',
          (λ k. elim (Bool-cases (same key k)) [
            | inl new ↦ rw new (Held-new key k val s s' rows rows' adds new)
            | inr other ↦
                rw other (Held-other key k val s s' rows rows' (f k) whole adds other (held k))
          ]),
          adds.top_row,
          λ counted small.
              let (u, first) = adds.first_row in
              let up = adds.counts ∙ ap count_up counted ∙ count_up_small (length (rows 0)) small in
              let longer : suc (length (rows 0)) ≡ length (rows' 0) =
                sym (ap length first ∙ length-insert_after (length s.heap) s.head u (rows 0)) in
              (
                up ∙ ap pos longer,
                (refl, up ∙ sym (ap (λ c. c +ℤ pos 1) counted ∙ one_more (length (rows 0)))),
              ),
        ),
        adds.max_level,
      )
  insert-by_value odds key val s f rows (some value) laws some_level whole held there = (
    1,
    s,
    insert-Held odds key val value s rows laws whole there,
    (rows, whole, held, (λ top. top), λ counted small. (counted, (refl, refl))),
    refl,
  )

  -- If the list represents a function from keys to values, and has a level to link on, `insert` returns:
  -- 1, and the list as it was, if the key has a value; else 0 and a list that is counted one longer and
  -- represents the function with the new value for the key. That a list represents a function is also to
  -- say that `_counts` is the number of its nodes; one more than this is to fit an `int`, and `<` and `==`
  -- of the keys are to be a total order.
  pub insert-Represents :
      (odds : ℕ) (key : K) (val : V) (s : SkipList K V) (f : K → Option V) (n : ℕ)
      → IsTotal less same
      → 1 ≤ s.max_level
      → Represents less same s f
      → s.counts ≡ pos n
      → suc n < 2 ^ 31
      → (r : ℕ) × (s' : SkipList K V) × (insert less same odds key val s ≡ ok (r, s'))
        × Represents less same s' (put_new less same key val f)
        × (s'.max_level ≡ s.max_level)
        × Grown less same (f key) r s s'
  insert-Represents odds key val s f n laws some_level (rows, whole, held, counted) count small =
      let (r, s', e, (rows', whole', held', _, counts), levels) =
        insert-by_value odds key val s f rows (f key) laws some_level whole held (held key) in
      let nodes : pos (length (rows 0)) ≡ pos n = sym counted ∙ count in
      let (counted', grown) = counts counted (ground (arith, nodes, small)) in
      (r, s', e, (rows', whole', held', counted'), levels, grown)

  -- `find` returns a node with the key and its value, or the null pointer if the key has none.
  pub find-Shows :
      (key : K) (s : SkipList K V) (f : K → Option V)
      → IsTotal less same
      → Shows less same s f
      → (r : Option ℕ) × (find less same key s ≡ ok r) × Finds less same key s (f key) r
  find-Shows key s f laws (rows, whole, held) = find-Held key s rows (f key) laws whole (held key)

  pub insert_each-Flat :
      (calls : List (ℕ × K × V)) (s : SkipList K V) (f : K → Option V)
      → IsTotal less same
      → 1 ≤ s.max_level
      → Flat less same s f
      → (s' : SkipList K V) × (insert_each less same calls s ≡ ok s')
        × Flat less same s' (put_each less same calls f)
  insert_each-Flat [] s f laws some_level flat = (s, refl, flat)
  insert_each-Flat ((odds, key, val) ∷ calls) s f laws some_level (rows, whole, held, top) =
      let (r, s1, e, (rows', whole', held', top', _), levels) =
        insert-by_value odds key val s f rows (f key) laws some_level whole held (held key) in
      let (s', e', flat) =
        insert_each-Flat calls s1 (put_new less same key val f) laws (omega (arith, levels))
          (rows', whole', held', top' top) in
      (s', rw (e, ◌>>=◌) e', flat)
