-- ===== src/Serialize/Spill.antt =====
-- A `write` of serialize/serialize.cpp that leaves the first node: what `toString` returns right
-- after it, and where the bytes of the next `write` go.
use cpp_utils.Base.{
  ℕ, zero, suc, ◌+◌, ◌-◌, ◌%◌, ◌^◌, ◌≤◌, ◌<◌, ◌≡◌, refl, sym, ap, ◌∙◌, inl, inr, some, arith,
  Bool-cases, true, subst, List, [], ◌∷◌, ◌++◌, length, take, drop, length-append, length-drop,
  length-take_le, take_all, take-append_length, drop_all, take-append-drop, append_assoc,
  append-nil, ltb, ltb_ge, ltb→lt, ltb→ge, ok,
}
use cpp_utils.Serialize.{
  Serialize, serializer, Malloc, new_node, add_node, copy_to_cur, fill_nodes, write_across, write,
  collect, to_string,
}
use cpp_utils.Serialize.Writer.{Holds, memmove_end, write-eq-across}

-- `malloc` never fails, and gives memory of the size that was asked for.
abbrev pub Supplies : Malloc → Type 0
Supplies malloc = (calls n : ℕ) → (mem : List ℕ) × (malloc calls n ≡ some mem) × (length mem ≡ n)

-- The nodes hold the bytes `w`: all but the last are full.
pub data Spread (base_size : ℕ) : List (List ℕ) → List ℕ → Type 0 where
  last : (q unused : List ℕ) → length q ≤ base_size → Spread base_size ((q ++ unused) ∷ []) q
  more :
      (node : List ℕ) {nodes : List (List ℕ)} {w : List ℕ}
      → length node ≡ base_size
      → Spread base_size nodes w
      → Spread base_size (node ∷ nodes) (node ++ w)

no_bytes : (w : List ℕ) → length w ≤ 0 → w ≡ []
no_bytes [] h = refl
no_bytes (x ∷ w) h = absurd (omega arith)

collect-Spread :
    (base_size s : ℕ) {nodes : List (List ℕ)} {w : List ℕ}
    → Spread base_size nodes w
    → s ≡ length w
    → collect base_size nodes s ≡ ok w
unfolding collect
collect-Spread base_size s (last q unused h) e =
    rw (ltb_ge base_size s (omega arith), take-append_length s q unused e)
collect-Spread base_size s (more node {nodes} {w} full rest) e =
    elim (Bool-cases (ltb base_size s)) [
      | inl t ↦ rw (
        t,
        collect-Spread base_size (s - base_size) rest (omega (arith, length-append node w)),
        take_all base_size node (omega arith),
      )
      | inr t ↦
          let none_left : w ≡ [] =
            no_bytes w (omega (arith, length-append node w, ltb→ge base_size s t)) in
          rw (t, none_left, append-nil)
            (ap ok (take_all s node (omega (arith, length-append node w))))
    ]

add_node-eq :
    (malloc : Malloc) (base_size : ℕ) (nodes : List (List ℕ)) (q : List ℕ)
    → Supplies malloc
    → length q ≤ base_size
    → (unused : List ℕ) × (add_node malloc base_size nodes q ≡ ok (nodes ++ ((q ++ unused) ∷ [])))
      × (length q + length unused ≡ base_size)
add_node-eq malloc base_size nodes q supplies h =
    let (mem, e, l) = supplies (length nodes) base_size in
    (
      drop (length q) mem,
      rw (e, new_node, memmove_end [] mem q 0 refl (omega arith)),
      omega (arith, length-drop (length q) mem),
    )

-- The loop and the node behind it leave the bytes `p` spread over new nodes.
record Filled (malloc : Malloc) (base_size fuel : ℕ) (nodes : List (List ℕ)) (p : List ℕ)
    : Type 0 where
  full : List (List ℕ)
  tail : List ℕ
  filled : fill_nodes malloc base_size fuel nodes p ≡ ok (nodes ++ full, tail)
  tail_fits : length tail ≤ base_size
  tail_size : length p ≤ base_size → tail ≡ p
  spread : (unused : List ℕ) → Spread base_size (full ++ ((tail ++ unused) ∷ [])) p

-- One round of the loop, given what the rounds behind it do.
fill_nodes_round :
    (malloc : Malloc) (base_size fuel : ℕ) (nodes : List (List ℕ)) (p : List ℕ)
    → Supplies malloc
    → ltb base_size (length p) ≡ true
    → ((node : List ℕ) → Filled malloc base_size fuel (nodes ++ (node ∷ [])) (drop base_size p))
    → Filled malloc base_size (suc fuel) nodes p
unfolding fill_nodes
fill_nodes_round malloc base_size fuel nodes p supplies t rest =
    let cut : length (take base_size p) ≡ base_size =
      length-take_le base_size p (omega (arith, ltb→lt base_size (length p) t)) in
    let (unused, e, l) =
      add_node-eq malloc base_size nodes (take base_size p) supplies (omega arith) in
    let node : List ℕ = take base_size p ++ unused in
    let r = rest node in
    let node-eq : node ≡ take base_size p =
      rw (no_bytes unused (omega arith)) (append-nil (take base_size p)) in
    record {
      full = node ∷ r.full;
      tail = r.tail;
      filled = rw (t, fill_nodes, e, r.filled, append_assoc);
      tail_fits = r.tail_fits;
      tail_size = λ short. absurd (omega (arith, ltb→lt base_size (length p) t));
      spread = λ u.
          subst (Spread base_size (node ∷ (r.full ++ ((r.tail ++ u) ∷ []))))
            (ap (λ n. n ++ drop base_size p) node-eq ∙ take-append-drop base_size p)
            (more node (rw node-eq cut) (r.spread u));
    }

fill_nodes-Filled :
    (malloc : Malloc) (base_size fuel : ℕ) (nodes : List (List ℕ)) (p : List ℕ)
    → Supplies malloc
    → 0 < base_size
    → length p < fuel
    → Filled malloc base_size fuel nodes p
unfolding fill_nodes
fill_nodes-Filled malloc base_size zero nodes p supplies pos h = absurd (omega arith)
fill_nodes-Filled malloc base_size (suc fuel) nodes p supplies pos h =
    elim (Bool-cases (ltb base_size (length p))) [
      | inr t ↦ record {
        full = [];
        tail = p;
        filled = rw (t, fill_nodes, append-nil);
        tail_fits = ltb→ge _ _ t;
        tail_size = λ _. refl;
        spread = λ unused. last p unused (ltb→ge _ _ t);
      }
      | inl t ↦ fill_nodes_round malloc base_size fuel nodes p supplies t λ node.
          fill_nodes-Filled malloc base_size fuel (nodes ++ (node ∷ [])) (drop base_size p) supplies
            pos (omega (arith, length-drop base_size p, ltb→lt base_size (length p) t))
    ]

-- What the object `s`, which holds `w`, is after a write of `bytes` that left the first node.
pub record Spilled (malloc : Malloc) (s : Serialize) (w bytes : List ℕ) : Type 0 where
  pub after : Serialize
  pub written : write malloc s bytes ≡ ok after
  pub kind_is : after.kind ≡ serializer
  pub same_base : after.base_size ≡ s.base_size
  pub first : List ℕ
  pub later : List (List ℕ)
  pub nodes_are : after.nodes ≡ first ∷ later
  pub first_full : length first ≡ s.base_size
  pub spread : Spread s.base_size after.nodes (w ++ bytes)
  pub counted : after.size ≡ length w + length bytes
  pub cur_of_head :
      length w + length bytes ≤ s.base_size + s.base_size
      → after.cur + s.base_size ≡ length w + (length w + length bytes)
  pub room :
      length w + length bytes ≤ s.base_size + s.base_size
      → after.capacity + length w + length bytes ≡ s.base_size + s.base_size

copy_to_cur-end :
    (s : Serialize) (w unused bytes : List ℕ)
    → s.nodes ≡ (w ++ unused) ∷ []
    → s.cur ≡ length w
    → length bytes ≡ length unused
    → copy_to_cur s.nodes s.cur bytes ≡ ok ((w ++ bytes) ∷ [])
copy_to_cur-end s w unused bytes n c l = rw (
  n,
  memmove_end w unused bytes s.cur c (omega arith),
  drop_all (length bytes) unused (omega arith),
  append-nil,
)

pub write_across-Spilled :
    (malloc : Malloc) (s : Serialize) (w bytes : List ℕ)
    → Supplies malloc
    → Holds s w
    → s.base_size ≤ length w + length bytes
    → length w + length bytes < 2 ^ 32
    → Spilled malloc s w bytes
unfolding write_across
write_across-Spilled malloc s w bytes supplies v spills small =
    let fits : length (take s.capacity bytes) ≡ length v.unused =
      length-take_le s.capacity bytes (omega (arith, v.room, v.whole)) ∙ v.room in
    let first : List ℕ = w ++ take s.capacity bytes in
    let rest : List ℕ = drop s.capacity bytes in
    let rest-length : length rest + s.base_size ≡ length w + length bytes =
      omega (arith, length-drop s.capacity bytes, v.room, v.whole) in
    let full : length first ≡ s.base_size =
      omega (arith, v.whole, length-append w (take s.capacity bytes)) in
    let r =
      fill_nodes-Filled malloc s.base_size (suc (length bytes)) (first ∷ []) rest supplies
        (omega (arith, v.whole, v.not_full)) (omega (arith, length-drop s.capacity bytes)) in
    let (unused, e, l) =
      add_node-eq malloc s.base_size ((first ∷ []) ++ r.full) r.tail supplies r.tail_fits in
    record {
      after = record s {
        nodes = first ∷ (r.full ++ ((r.tail ++ unused) ∷ []));
        cur = s.cur + length r.tail;
        capacity = (s.base_size - length r.tail) % 2 ^ 32;
        size = (s.size + length bytes) % 2 ^ 32;
      };
      written =
          write-eq-across malloc s bytes v.kind_is (omega (arith, v.room, v.whole))
          ∙ rw (
            write_across,
            copy_to_cur-end s w v.unused (take s.capacity bytes) v.one_node v.at_end fits,
            r.filled,
            e,
          );
      kind_is = v.kind_is;
      same_base = refl;
      first = first;
      later = r.full ++ ((r.tail ++ unused) ∷ []);
      nodes_are = refl;
      first_full = full;
      spread =
          subst (Spread s.base_size (first ∷ (r.full ++ ((r.tail ++ unused) ∷ []))))
            (append_assoc w (take s.capacity bytes) rest
              ∙ ap (◌++◌ w) (take-append-drop s.capacity bytes))
            (more first full (r.spread unused));
      counted = omega (arith, v.counted);
      cur_of_head =
          λ h. omega (arith, v.at_end, rest-length, ap length (r.tail_size (omega arith)));
      room = λ h.
          omega (arith, v.whole, v.in_range, rest-length, ap length (r.tail_size (omega arith)));
    }

-- A write that leaves the first node returns, and `toString` right after it gives back all bytes:
-- the ones that the object held, all in the first node, and the new ones, over as many nodes as they
-- need. `malloc` is supposed not to fail, and all bytes together are to be fewer than 2^32.
pub write-to_string_spilled :
    (malloc : Malloc) (s : Serialize) (w bytes : List ℕ)
    → Supplies malloc
    → Holds s w
    → s.base_size ≤ length w + length bytes
    → length w + length bytes < 2 ^ 32
    → (s' : Serialize) × (write malloc s bytes ≡ ok s') × (to_string s' ≡ ok (w ++ bytes))
unfolding to_string
write-to_string_spilled malloc s w bytes supplies v spills small =
    let r = write_across-Spilled malloc s w bytes supplies v spills small in
    (
      r.after,
      r.written,
      rw r.same_base (
          collect-Spread s.base_size r.after.size r.spread
            (r.counted ∙ sym (length-append w bytes))),
    )
