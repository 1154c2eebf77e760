-- ===== src/Serialize/Lost.antt =====
-- The write of serialize/serialize.cpp that comes after one which left the first node: `_cur` still
-- points behind the bytes of the first node, and not into the last one.
use cpp_utils.Base.{
  ℕ, ◌+◌, ◌-◌, ◌%◌, ◌^◌, ◌≤◌, ◌<◌, ◌≡◌, sym, ap, ◌∙◌, arith, List, ◌∷◌, ◌++◌, length, take, drop,
  length-append, drop-append_length, length-take_le, leb, leb_gt, leb→le, leb→gt, Bool-cases, inl,
  inr, true, length-drop, lt→ltb, ok, fault, ◌>>=◌, >>=-eq-ok,
}
use cpp_utils.Serialize.{Serialize, serializer, Malloc, write_within, write, collect, to_string}
use cpp_utils.Serialize.Writer.{Holds, write-eq-within}
use cpp_utils.Serialize.Spill.{Supplies, write_across-Spilled}

-- The write would pass the end of the first node: undefined behaviour.
write_within-overrun :
    (s : Serialize) (first : List ℕ) (later : List (List ℕ)) (bytes : List ℕ)
    → s.nodes ≡ first ∷ later
    → length first < s.cur + length bytes
    → write_within s bytes ≡ fault
unfolding write_within
write_within-overrun s first later bytes n h =
    rw (n, leb_gt (s.cur + length bytes) (length first) h)

-- The code's error: an object that holds `w` takes `bytes`, which spill into one new node, and then
-- takes `next`, which fit that node. If `next` is longer than what `_cur` has left of the first
-- node, the second write runs over the end of the first node.
pub write_after_spill_faults :
    (malloc : Malloc) (s : Serialize) (w bytes next : List ℕ)
    → Supplies malloc
    → Holds s w
    → s.base_size ≤ length w + length bytes
    → length w + length bytes < s.base_size + s.base_size
    → length w + length bytes < 2 ^ 32
    → length w + length bytes + length next < s.base_size + s.base_size
    → s.base_size + s.base_size < length w + (length w + length bytes) + length next
    → (write malloc s bytes >>= λ s'. write malloc s' next) ≡ fault
write_after_spill_faults malloc s w bytes next supplies v spills one small fits over =
    let r = write_across-Spilled malloc s w bytes supplies v spills small in
    rw r.written (
      write-eq-within malloc r.after next r.kind_is (omega (arith, r.room (omega arith)))
      ∙ write_within-overrun r.after r.first r.later next r.nodes_are
          (omega (arith, r.first_full, r.cur_of_head (omega arith))))

-- The part of `toString` that comes from the nodes behind the first.
collect-later :
    (base_size s : ℕ) (first : List ℕ) (later : List (List ℕ)) (out : List ℕ)
    → length first ≡ base_size
    → base_size < s
    → collect base_size (first ∷ later) s ≡ ok out
    → collect base_size later (s - base_size) ≡ ok (drop base_size out)
unfolding collect
collect-later base_size s first later out full long e =
    let (bytes, c, d) =
      >>=-eq-ok (collect base_size later (s - base_size)) _ (rw (lt→ltb base_size s long) at e) in
    let whole : out ≡ take base_size first ++ bytes = cc in
    rw
      (
        whole,
        drop-append_length base_size (take base_size first) bytes
            (sym (length-take_le base_size first (omega arith))),
      )
      c

abbrev memmoved : List ℕ → ℕ → List ℕ → List ℕ
memmoved mem at bytes = take at mem ++ (bytes ++ drop (at + length bytes) mem)

length-memmoved :
    (mem : List ℕ) (at : ℕ) (bytes : List ℕ)
    → at + length bytes ≤ length mem
    → length (memmoved mem at bytes) ≡ length mem
length-memmoved mem at bytes h = omega (
  arith,
  length-append (take at mem) (bytes ++ drop (at + length bytes) mem),
  length-append bytes (drop (at + length bytes) mem),
  length-take_le at mem (omega arith),
  length-drop (at + length bytes) mem,
)

write_within-eq :
    (s : Serialize) (first : List ℕ) (later : List (List ℕ)) (bytes : List ℕ)
    → s.nodes ≡ first ∷ later
    → leb (s.cur + length bytes) (length first) ≡ true
    → write_within s bytes
      ≡ ok (record s {
        nodes = memmoved first s.cur bytes ∷ later;
        cur = s.cur + length bytes;
        capacity = s.capacity - length bytes;
        size = (s.size + length bytes) % 2 ^ 32;
      })
unfolding write_within
write_within-eq s first later bytes n h = rw (n, h)

write_within-later :
    (s t : Serialize) (first : List ℕ) (later : List (List ℕ)) (bytes : List ℕ)
    → s.nodes ≡ first ∷ later
    → length first ≡ s.base_size
    → write_within s bytes ≡ ok t
    → (first' : List ℕ) × (t.nodes ≡ first' ∷ later)
      × (length first' ≡ s.base_size)
      × (t.size ≡ (s.size + length bytes) % 2 ^ 32)
      × (t.base_size ≡ s.base_size)
write_within-later s t first later bytes n full e =
    elim (Bool-cases (leb (s.cur + length bytes) (length first))) [
      | inr over ↦ cc (write_within-overrun s first later bytes n (leb→gt _ _ over))
      | inl fits ↦
          let p = write_within-eq s first later bytes n fits in
          let first' = memmoved first s.cur bytes in
          (
            first',
            ground (arith, p),
            omega
                (arith, full, leb→le _ _ fits, length-memmoved first s.cur bytes (leb→le _ _ fits)),
            ground (arith, p),
            ground (arith, p),
          )
    ]

-- The code's error, where nothing faults: once the first node is full and there are others, of two
-- writes of the same length that fit the last node neither is seen in what `toString` returns
-- behind the first node: those bytes are the same after both.
pub write_after_spill_lost :
    (malloc : Malloc) (s t t' : Serialize) (first : List ℕ) (later : List (List ℕ))
    (bytes bytes' out out' : List ℕ)
    → s.kind ≡ serializer
    → s.nodes ≡ first ∷ later
    → length first ≡ s.base_size
    → s.base_size < s.size
    → s.size + length bytes < 2 ^ 32
    → length bytes < s.capacity
    → length bytes' ≡ length bytes
    → write malloc s bytes ≡ ok t
    → write malloc s bytes' ≡ ok t'
    → to_string t ≡ ok out
    → to_string t' ≡ ok out'
    → drop s.base_size out ≡ drop s.base_size out'
unfolding to_string
write_after_spill_lost malloc s t t' first later bytes bytes' out out' k n full long small fits same
      e e' o o' =
    let (f, tn, tf, ts, tb) =
      write_within-later s t first later bytes n full
        (sym (write-eq-within malloc s bytes k fits) ∙ e) in
    let (f', tn', tf', ts', tb') =
      write_within-later s t' first later bytes' n full
        (sym (write-eq-within malloc s bytes' k (omega arith)) ∙ e') in
    let c =
      collect-later s.base_size t.size f later out tf (omega arith)
        ((λ i. collect (sym tb i) (sym tn i) t.size) ∙ o) in
    let c' =
      collect-later s.base_size t'.size f' later out' tf' (omega arith)
        ((λ i. collect (sym tb' i) (sym tn' i) t'.size) ∙ o') in
    let sizes : t'.size ≡ t.size = omega arith in
    cc (c, c', ap (λ n. collect s.base_size later (n - s.base_size)) sizes)
