-- ===== src/Log/Stream/Records.antt =====
-- Whole runs of a `LogStream` of log/logStream.cpp with full buffering: records, and the destructor.
use cpp_utils.Base.{
  ℕ, suc, ◌+◌, ◌<◌, ◌≡◌, refl, sym, ap, ◌∙◌, arith, Bool, true, false, List, [], ◌∷◌, ◌++◌, length,
  length-append, take, take_all, All, append_assoc, append-nil, ok, ◌>>=◌,
}
use cpp_utils.Base.Int.{pos}
use cpp_utils.Log.Stream.{
  LogStream, k_buffer_size, new_stream, append_all, mark_end, flush_if_needed, close, write_records,
}
use cpp_utils.Log.Stream.Full.{IsValid, open_bytes, history, append-Appended}

-- The bytes of several pieces.
abbrev pub joined : List (List ℕ) → List ℕ
joined [] = []
joined (p ∷ ps) = p ++ joined ps

-- The bytes of all records.
abbrev pub all_bytes : List (Bool × List (List ℕ)) → List ℕ
all_bytes [] = []
all_bytes (r ∷ rs) = joined r.1 ++ all_bytes rs

pub append_all-history :
    (fuel : ℕ) (pieces : List (List ℕ)) (s : LogStream) (v : IsValid s)
    → open_bytes s v + length (joined pieces) < k_buffer_size
    → (s' : LogStream) × (append_all false (suc (suc fuel)) pieces s ≡ ok s')
      × IsValid s'
      × (history s' ≡ history s ++ joined pieces)
unfolding append_all
append_all-history fuel [] s v h = (s, refl, v, sym (append-nil (history s)))
append_all-history fuel (p ∷ ps) s v h =
    let (s', e, a) = append-Appended fuel s v p (omega (arith, length-append p (joined ps))) in
    let (s'', e', v'', b) =
      append_all-history fuel ps s' a.valid (omega (arith, a.grown, length-append p (joined ps))) in
    (
      s'',
      rw e e',
      v'',
      b ∙ ap (λ t. t ++ joined ps) a.all_there ∙ append_assoc (history s) p (joined ps),
    )

-- A new record starts with no open bytes.
pub flush_if_needed-fresh :
    (need : Bool) (s : LogStream) (v : IsValid s)
    → (s' : LogStream) × (flush_if_needed need (mark_end s) ≡ ok s')
      × (v' : IsValid s') × (open_bytes s' v' ≡ 0)
      × (history s' ≡ history s)
unfolding flush_if_needed
flush_if_needed-fresh false s v = (
  mark_end s,
  refl,
  record { done = length s.text; end_is = refl; end-le = omega arith; fits = v.fits },
  omega arith,
  refl,
)
flush_if_needed-fresh true s v = (
  record { text = []; end_at = pos 0; emitted = s.emitted ++ take (length s.text) s.text },
  refl,
  record { done = 0; end_is = refl; end-le = omega arith; fits = omega arith },
  omega arith,
  append-nil _ ∙ ap (◌++◌ s.emitted) (take_all (length s.text) s.text (omega arith)),
)

-- A record that fits the buffer.
abbrev pub Fits : Bool × List (List ℕ) → Type 0
Fits r = length (joined r.1) < k_buffer_size

write_records-history :
    (fuel : ℕ) (rs : List (Bool × List (List ℕ))) (s : LogStream) (v : IsValid s)
    → All Fits rs
    → (s' : LogStream) × (write_records false (suc (suc fuel)) rs s ≡ ok s')
      × IsValid s'
      × (history s' ≡ history s ++ all_bytes rs)
unfolding write_records
write_records-history fuel [] s v h = (s, refl, v, sym (append-nil (history s)))
write_records-history fuel (r ∷ rs) s v (hr, hrs) =
    let (s1, e1, v1, o1, b1) = flush_if_needed-fresh r.0 s v in
    let (s2, e2, v2, b2) = append_all-history fuel r.1 s1 v1 (omega arith) in
    let (s3, e3, v3, b3) = write_records-history fuel rs s2 v2 hrs in
    (
      s3,
      rw (e1, ◌>>=◌, e2) e3,
      v3,
      b3
          ∙ ap (λ t. t ++ all_bytes rs) (b2 ∙ ap (λ t. t ++ joined r.1) b1)
          ∙ append_assoc (history s) (joined r.1) (all_bytes rs),
    )

-- With full buffering, whenever `t_needFlush` was set, writing records that each fit the buffer to a
-- new stream and destroying it returns, and the output function has then been given the bytes of
-- all records, in order and nothing else.
pub write_records-close :
    (fuel : ℕ) (rs : List (Bool × List (List ℕ))) (out : List ℕ)
    → All Fits rs
    → (t : LogStream) × ((write_records false (suc (suc fuel)) rs (new_stream out) >>= close)
        ≡ ok t)
      × (t.emitted ≡ out ++ all_bytes rs)
unfolding close
write_records-close fuel rs out h =
    let fresh : IsValid (new_stream out) = record {
      done = 0;
      end_is = refl;
      end-le = omega arith;
      fits = omega arith;
    } in
    let (s, e, v, b) = write_records-history fuel rs (new_stream out) fresh h in
    (
      record (mark_end s) { emitted = s.emitted ++ take (length s.text) s.text },
      rw e,
      ap (◌++◌ s.emitted) (take_all (length s.text) s.text (omega arith))
          ∙ b
          ∙ ap (λ t. t ++ all_bytes rs) (append-nil out),
    )
