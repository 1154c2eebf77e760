-- ===== src/Serialize/Streams.antt =====
-- Chains of writes to, and of reads from, an object of serialize/serialize.cpp. `Unread` is the
-- reading side's counterpart of `Holds`.
use cpp_utils.Base.{
  ℕ, ◌+◌, ◌%◌, ◌^◌, ◌≤◌, ◌<◌, ◌≡◌, refl, sym, ap, ◌∙◌, some, arith, List, [], ◌++◌, length, take,
  drop, length-append, take-append_length, drop-append_length, append_assoc, append-nil, drop_all,
  leb_gt, Outcome, ok, aborted, ◌>>=◌,
}
use cpp_utils.Serialize.{Serialize, deserializer, Malloc, write, read, from_bytes}
use cpp_utils.Serialize.Writer.{Holds, memmove_end, write-Holds}

-- `s` is a deserializer that has the bytes `r` still to be read.
pub record Unread (s : Serialize) (r : List ℕ) : Type 0 where
  pub consumed : List ℕ
  pub kind_is : s.kind ≡ deserializer
  pub buf_is : s.buf ≡ some (consumed ++ r)
  pub len_is : s.len ≡ length consumed + length r
  pub at : s.readed ≡ length consumed
  pub in_range : s.len < 2 ^ 32

-- On an object with room for them, `m` appends `bytes`.
abbrev pub Appends : (Serialize → Outcome Serialize) → List ℕ → Type 0
Appends m bytes =
    (s : Serialize) (w : List ℕ)
    → Holds s w
    → length w + length bytes < s.base_size
    → (s' : Serialize) × (m s ≡ ok s') × Holds s' (w ++ bytes) × (s'.base_size ≡ s.base_size)

pub write-Appends : (malloc : Malloc) (bytes : List ℕ) → Appends (λ s. write malloc s bytes) bytes
write-Appends malloc bytes s w v h = write-Holds malloc s w bytes v h

pub Appends-then :
    (m k : Serialize → Outcome Serialize) (x y : List ℕ)
    → Appends m x
    → Appends k y
    → Appends (λ s. m s >>= k) (x ++ y)
Appends-then m k x y p q s w v h =
    let (s', e, v', b) = p s w v (omega (arith, length-append x y)) in
    let (s'', e', v'', b') =
      q s' (w ++ x) v' (omega (arith, length-append x y, length-append w x)) in
    (s'', rw e e', rw append_assoc at v'', b' ∙ b)

-- On an object that has `bytes` next to be read, `m` reads them, and returns `a`.
abbrev pub Reads : {A : Type 0} → (Serialize → Outcome (A × Serialize)) → List ℕ → A → Type 0
Reads {A} m bytes a =
    (s : Serialize) (r : List ℕ)
    → Unread s (bytes ++ r)
    → (s' : Serialize) × (m s ≡ ok (a, s')) × Unread s' r

read-eq :
    (n : ℕ) (s : Serialize) {mem : List ℕ}
    → s.kind ≡ deserializer
    → s.buf ≡ some mem
    → n + s.readed ≤ s.len
    → read n s ≡ ok (take n (drop s.readed mem), record s { readed = (s.readed + n) % 2 ^ 32 })
unfolding read
read-eq n s k b h = ground arith

pub read-Reads : (n : ℕ) (bytes : List ℕ) → n ≡ length bytes → Reads (read n) bytes bytes
read-Reads n bytes e s r v = (
  record s { readed = (s.readed + n) % 2 ^ 32 },
  read-eq n s v.kind_is v.buf_is (omega (arith, v.len_is, v.at, length-append bytes r))
      ∙ rw (
        drop-append_length s.readed v.consumed (bytes ++ r) v.at,
        take-append_length n bytes r e,
      ),
  record {
    consumed = v.consumed ++ bytes;
    kind_is = v.kind_is;
    buf_is = v.buf_is ∙ ap some (sym (append_assoc v.consumed bytes r));
    len_is = omega (arith, v.len_is, length-append bytes r, length-append v.consumed bytes);
    at =
        omega (
          arith,
          v.at,
          v.len_is,
          v.in_range,
          length-append bytes r,
          length-append v.consumed bytes,
        );
    in_range = v.in_range;
  },
)

pub Reads-then :
    {A B : Type 0} (m : Serialize → Outcome (A × Serialize))
    (k : A → Serialize → Outcome (B × Serialize)) (x y : List ℕ) (a : A) (b : B)
    → Reads m x a
    → Reads (k a) y b
    → Reads (λ s. m s >>= λ (c, s'). k c s') (x ++ y) b
Reads-then m k x y a b p q s r v =
    let (s', e, v') = p s (y ++ r) (rw append_assoc at v) in
    let (s'', e', v'') = q s' r v' in (s'', rw e e', v'')

-- A read of more than is left fails its assertion, and reads nothing.
pub read_past_end :
    (s : Serialize) (r : List ℕ) (n : ℕ) → Unread s r → length r < n → read n s ≡ aborted
unfolding read
read_past_end s r n v h =
    rw (v.kind_is, leb_gt (n + s.readed) s.len (omega (arith, v.len_is, v.at)))

-- A new deserializer has its whole argument to be read.
pub from_bytes-Unread :
    (malloc : Malloc) (bytes mem : List ℕ)
    → malloc 0 (length bytes) ≡ some mem
    → length mem ≡ length bytes
    → 0 < length bytes
    → length bytes < 2 ^ 32
    → (s : Serialize) × (from_bytes malloc deserializer bytes ≡ ok s) × Unread s bytes
unfolding from_bytes
from_bytes-Unread malloc bytes mem e l pos small = (
  record {
    kind = deserializer;
    base_size = 4096;
    nodes = [];
    cur = 0;
    capacity = 0;
    size = 0;
    buf = some bytes;
    len = length bytes;
    readed = 0;
  },
  ground (arith, memmove_end [] mem bytes 0 refl, drop_all (length bytes) mem, append-nil bytes),
  record {
    consumed = [];
    kind_is = refl;
    buf_is = refl;
    len_is = omega arith;
    at = refl;
    in_range = small;
  },
)
