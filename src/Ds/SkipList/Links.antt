-- ===== src/Ds/SkipList/Links.antt =====
-- ds/kv_skiplist.h: what writing one pointer, and linking a node on its levels, do to the pointers and
-- the data of all nodes.
use cpp_utils.Base.{
  ℕ, zero, suc, ◌<◌, ◌≡◌, refl, sym, ap, subst, ◌∙◌, inl, inr, Bool-cases, arith, Option, none,
  some, List, [], ◌∷◌, ◌++◌, length, get_elem?, ◌==◌, Outcome, ok, ok_injective, ◌>>=◌, >>=-eq-ok,
}
use cpp_utils.Ds.SkipList.{Node, Heap, set_at, slot, load, next_at, store_next}
use cpp_utils.Ds.SkipList.Search.{Chain, get_elem?-some, get_elem?-set_at}
use cpp_utils.Ds.SkipList.Rows.{Row, SameAt}

pub length-set_at :
    {A : Type 0} (xs : List A) (i : ℕ) (a : A) → i < length xs → length (set_at i a xs) ≡ length xs
length-set_at [] i a h = absurd (omega arith)
length-set_at (x ∷ xs) zero a h = refl
length-set_at (x ∷ xs) (suc i) a h = ap suc (length-set_at xs i a (omega arith))

pub get_elem?-set_at_ne :
    {A : Type 0} (xs : List A) (i j : ℕ) (a : A)
    → i < length xs
    → (j ≡ i → ⊥)
    → get_elem? (set_at i a xs) j ≡ get_elem? xs j
get_elem?-set_at_ne [] i j a h other = absurd (omega arith)
get_elem?-set_at_ne (x ∷ xs) zero zero a h other = absurd (other refl)
get_elem?-set_at_ne (x ∷ xs) zero (suc j) a h other = refl
get_elem?-set_at_ne (x ∷ xs) (suc i) zero a h other = refl
get_elem?-set_at_ne (x ∷ xs) (suc i) (suc j) a h other =
    get_elem?-set_at_ne xs i j a (omega arith) (λ e. other (ap suc e))

-- An element that can be read is there.
slot-get_elem? :
    {A : Type 0} (xs : List A) (i : ℕ) (a : A)
    → slot (get_elem? xs i) ≡ ok a
    → get_elem? xs i ≡ some a
slot-get_elem? [] i a h = cc
slot-get_elem? (x ∷ xs) zero a h = ap some (ok_injective x x a h)
slot-get_elem? (x ∷ xs) (suc i) a h = slot-get_elem? xs i a h

pub get_elem?-there :
    {A : Type 0} (xs : List A) (i : ℕ) → i < length xs → (a : A) × (get_elem? xs i ≡ some a)
get_elem?-there [] i h = absurd (omega arith)
get_elem?-there (x ∷ xs) zero h = (x, refl)
get_elem?-there (x ∷ xs) (suc i) h = get_elem?-there xs i (omega arith)

get_elem?-append_length :
    {A : Type 0} (xs : List A) (a : A) → get_elem? (xs ++ (a ∷ [])) (length xs) ≡ some a
get_elem?-append_length [] a = refl
get_elem?-append_length (x ∷ xs) a = get_elem?-append_length xs a

get_elem?-append :
    {A : Type 0} (xs ys : List A) (i : ℕ) {a : A}
    → get_elem? xs i ≡ some a
    → get_elem? (xs ++ ys) i ≡ some a
get_elem?-append [] ys i e = cc
get_elem?-append (x ∷ xs) ys zero e = e
get_elem?-append (x ∷ xs) ys (suc i) e = get_elem?-append xs ys i e

module _ {K V : Type 0} where
  -- The pointer of level `i` of the node `q`.
  abbrev pub succ_at : Heap K V → ℕ → ℕ → Outcome (Option ℕ)
  succ_at heap i q = load heap q >>= λ n. next_at n i

  pub Chain-Row :
      (heap : Heap K V) (i a : ℕ) (qs : List ℕ) → Row (succ_at heap i) a qs → Chain heap i a qs
  Chain-Row heap i a [] row = >>=-eq-ok (load heap a) (λ n. next_at n i) row
  Chain-Row heap i a (q ∷ qs) (e, row) =
      (>>=-eq-ok (load heap a) (λ n. next_at n i) e, Chain-Row heap i q qs row)

  -- The nodes that can be read keep their places, keys and values, and the number of their pointers.
  abbrev pub Alike : Node K V → Node K V → Type 0
  Alike n n' = (n'.k ≡ n.k) × (n'.v ≡ n.v) × (length n'.next ≡ length n.next)

  abbrev pub Kept : Heap K V → Heap K V → Type 0
  Kept heap heap' =
      (q : ℕ) (n : Node K V)
      → load heap q ≡ ok n
      → (n' : Node K V) × (load heap' q ≡ ok n') × Alike n n'

  pub Kept-trans : (h h' h'' : Heap K V) → Kept h h' → Kept h' h'' → Kept h h''
  Kept-trans h h' h'' first second q n e =
      let (n', e', (k, v, l)) = first q n e in
      let (n'', e'', (k', v', l')) = second q n' e' in (n'', e'', (k' ∙ k, v' ∙ v, l' ∙ l))

  pub Kept-Alike :
      (heap heap' : Heap K V) (q : ℕ) (m m' : Node K V)
      → Kept heap heap'
      → load heap q ≡ ok m
      → load heap' q ≡ ok m'
      → Alike m m'
  Kept-Alike heap heap' q m m' kept em em' =
      let (m'', em'', alike) = kept q m em in
      subst (Alike m) (ok_injective m'' m'' m' (sym em'' ∙ em')) alike

  pub load-place :
      (heap : Heap K V) (q : ℕ) (n : Node K V)
      → load heap q ≡ ok n
      → get_elem? heap q ≡ some (some n)
  unfolding load
  load-place heap q n e =
      let (r, er, en) = >>=-eq-ok (slot (get_elem? heap q)) slot e in
      slot-get_elem? heap q r er ∙ ap some (held r en)
    where
      held : (r : Option (Node K V)) → slot r ≡ ok n → r ≡ some n
      held none h = cc
      held (some m) h = ap some (ok_injective m m n h)

  place-load :
      (heap : Heap K V) (q : ℕ) (n : Node K V)
      → get_elem? heap q ≡ some (some n)
      → load heap q ≡ ok n
  unfolding load
  place-load heap q n e = rw e refl

  load-set_at :
      (heap : Heap K V) (a : ℕ) (n n' : Node K V)
      → load heap a ≡ ok n
      → load (set_at a (some n') heap) a ≡ ok n'
  load-set_at heap a n n' e =
      place-load (set_at a (some n') heap) a n'
        (get_elem?-set_at heap a (some n') (get_elem?-some heap a (some n) (load-place heap a n e)))

  load-set_at_ne :
      (heap : Heap K V) (a q : ℕ) (n n' : Node K V)
      → load heap a ≡ ok n
      → (q ≡ a → ⊥)
      → load (set_at a (some n') heap) q ≡ load heap q
  unfolding load
  load-set_at_ne heap a q n n' e other =
      ap (λ r. slot r >>= slot)
        (get_elem?-set_at_ne heap a q (some n')
          (get_elem?-some heap a (some n) (load-place heap a n e)) other)

  -- What a write of the pointer `i` of `a` leaves as it is.
  abbrev pub SameBut : Heap K V → Heap K V → (ℕ → ℕ → Type 0) → Type 0
  SameBut heap heap' Written =
      (j q : ℕ) → (Written j q → ⊥) → SameAt (succ_at heap j) (succ_at heap' j) q

  pub store_next_lem :
      (heap : Heap K V) (a i : ℕ) (n : Node K V) (p : Option ℕ)
      → load heap a ≡ ok n
      → i < length n.next
      → (heap' : Heap K V) × (store_next heap a i p ≡ ok heap')
        × (length heap' ≡ length heap)
        × Kept heap heap'
        × (succ_at heap' i a ≡ ok p)
        × SameBut heap heap' (λ j q. (j ≡ i) × (q ≡ a))
  unfolding store_next
  store_next_lem heap a i n p e inside =
      let (old, eo) = get_elem?-there n.next i inside in
      let n' : Node K V = record n { next = set_at i p n.next } in
      let written = load-set_at heap a n n' e in
      (
        set_at a (some n') heap,
        rw (e, ◌>>=◌, eo),
        length-set_at heap a (some n') (get_elem?-some heap a (some n) (load-place heap a n e)),
        (λ q m em. elim (Bool-cases (q == a)) [
          | inl here ↦
              let at_a : q ≡ a = ground (arith, here) in
              let same_node : n ≡ m = ok_injective n n m (sym e ∙ ap (load heap) (sym at_a) ∙ em) in
              (
                n',
                ap (load (set_at a (some n') heap)) at_a ∙ written,
                (
                  ap (λ (r : Node K V). r.k) same_node,
                  ap (λ (r : Node K V). r.v) same_node,
                  length-set_at n.next i p inside ∙ ap (λ (r : Node K V). length r.next) same_node,
                ),
              )
          | inr there ↦ (
            m,
            load-set_at_ne heap a q n n' e (λ e'. ground (arith, there, e')) ∙ em,
            (refl, refl, refl),
          )
        ]),
        ap (λ r. r >>= λ m. next_at m i) written ∙ ap slot (get_elem?-set_at n.next i p inside),
        λ j q other r er. elim (Bool-cases (q == a)) [
          | inl here ↦
              let at_a : q ≡ a = ground (arith, here) in
              ap (succ_at (set_at a (some n') heap) j) at_a
              ∙ ap (λ r. r >>= λ m. next_at m j) written
              ∙ ap slot (get_elem?-set_at_ne n.next i j p inside (λ e'. other (e', at_a)))
              ∙ sym (ap (λ r. r >>= λ m. next_at m j) e)
              ∙ sym (ap (succ_at heap j) at_a)
              ∙ er
          | inr there ↦
              ap (λ r. r >>= λ m. next_at m j)
                (load-set_at_ne heap a q n n' e (λ e'. ground (arith, there, e')))
              ∙ er
        ],
      )

  pub next_at-inside :
      (n : Node K V) (i : ℕ) (p : Option ℕ) → next_at n i ≡ ok p → i < length n.next
  next_at-inside n i p e = get_elem?-some n.next i p (slot-get_elem? n.next i p e)

  pub load-inside : (heap : Heap K V) (q : ℕ) (n : Node K V) → load heap q ≡ ok n → q < length heap
  load-inside heap q n e = get_elem?-some heap q (some n) (load-place heap q n e)

  -- A new node goes to the end of the heap.
  pub load-last :
      (heap : Heap K V) (n : Node K V) → load (heap ++ (some n ∷ [])) (length heap) ≡ ok n
  load-last heap n =
      place-load (heap ++ (some n ∷ [])) (length heap) n (get_elem?-append_length heap (some n))

  pub load-append :
      (heap : Heap K V) (m : Node K V) (q : ℕ) (n : Node K V)
      → load heap q ≡ ok n
      → load (heap ++ (some m ∷ [])) q ≡ ok n
  load-append heap m q n e =
      place-load (heap ++ (some m ∷ [])) q n
        (get_elem?-append heap (some m ∷ []) q (load-place heap q n e))
