-- ===== src/Log/Logger/Output.antt =====
-- What the release of the logger outputs, after threads have logged in turns.
use cpp_utils.Base.{
  ℕ, suc, ◌≡◌, refl, sym, ap, subst, ◌∙◌, inl, inr, false, Bool-cases, Option-cases, some,
  some_injective, List, [], ◌∷◌, map, length, take_all, arith, ◌==◌, All, Among, Among-right,
  Outcome, ok, ok_injective, ◌>>=◌, >>=-eq-ok,
}
use cpp_utils.Log.Stream.{LogStream, new_stream, close, write_record, write_records}
use cpp_utils.Log.Stream.Records.{all_bytes, Fits, write_records-close}
use cpp_utils.Log.Logger.{
  trace, Logger, no_logger, stream_at, store, own_stream, stream, make_at, release,
}
use cpp_utils.Log.Logger.Threads.{IsValid, stream_of, own}
use cpp_utils.Log.Logger.Release.{output, release_lem}
use cpp_utils.Log.Logger.Interleaved.{Record, log_all, records_of, Logs, log_all_lem}

make_at-instance :
    (make : LogStream → Outcome LogStream) (p : ℕ) (l l' : Logger)
    → make_at make p l ≡ ok l'
    → l'.instance_level ≡ l.instance_level
unfolding make_at
make_at-instance make p l l' e = elim (Option-cases (stream_at l.streams p)) [
  | inl absent ↦ cc (rw (absent, make_at) at e)
  | inr (s, there) ↦
      let (s', _, made) = >>=-eq-ok (make s) _ (rw (there, make_at) at e) in
      ap (λ (x : Logger). x.instance_level)
        (sym (ok_injective l' (record l { streams = store l.streams p s' }) l' made))
]

stream-instance :
    (make : LogStream → Outcome LogStream) (thread : ℕ) (l l' : Logger)
    → stream make thread l ≡ ok l'
    → l'.instance_level ≡ l.instance_level
unfolding stream own_stream
stream-instance make thread l l' e = elim (Option-cases (l.t_stream thread)) [
  | inl new ↦ make_at-instance make l.next _ l' (rw (new, stream, own_stream) at e)
  | inr (p, has) ↦ make_at-instance make p l l' (rw (has, stream, own_stream) at e)
]

log_all-instance :
    (fuel : ℕ) (rs : List (ℕ × Record)) (l l' : Logger)
    → log_all fuel rs l ≡ ok l'
    → l'.instance_level ≡ l.instance_level
unfolding log_all
log_all-instance fuel [] l l' e =
    ap (λ (x : Logger). x.instance_level) (sym (ok_injective l l l' e))
log_all-instance fuel ((u, r) ∷ rest) l l' e =
    let (l1, e1, later) = >>=-eq-ok (stream (write_record false fuel r) u l) _ e in
    log_all-instance fuel rest l1 l' later ∙ stream-instance (write_record false fuel r) u l l1 e1

-- A stream that is there is among those that are destroyed.
stream_at-Among :
    (streams : List (ℕ × LogStream)) (p : ℕ) (s : LogStream)
    → stream_at streams p ≡ some s
    → Among (output s) (map (λ (q : ℕ × LogStream). output q.1) streams)
unfolding stream_at
stream_at-Among [] p s there = cc there
stream_at-Among ((q, x) ∷ streams) p s there = elim (Bool-cases (q == p)) [
  | inl e ↦ inl (ap output (sym (some_injective x x s (rw e at there))))
  | inr e ↦ inr (stream_at-Among streams p s (rw e at there))
]

stream_of-Among :
    (l : Logger) (thread : ℕ) (s : LogStream)
    → stream_of l thread ≡ some s
    → Among (output s) (map (λ (q : ℕ × LogStream). output q.1) l.streams)
stream_of-Among l thread s there = elim (Option-cases (l.t_stream thread)) [
  | inl new ↦ cc (rw (new, stream_of) at there)
  | inr (p, has) ↦ stream_at-Among l.streams p s (rw (has, stream_of) at there)
]

close-output : (s : LogStream) → close s ≡ ok (output s)
unfolding close
close-output s = rw (take_all (length s.text) s.text (omega arith))

records_of-Fits :
    (thread : ℕ) (rs : List (ℕ × Record))
    → All (λ (x : ℕ × Record). Fits x.1) rs
    → All Fits (records_of thread rs)
records_of-Fits thread [] all = tt
records_of-Fits thread ((u, r) ∷ rest) (here, all) = elim (Bool-cases (u == thread)) [
  | inl e ↦ rw e (here, records_of-Fits thread rest all)
  | inr e ↦ rw e (records_of-Fits thread rest all)
]

-- The logger when the first statement looks at its level.
abbrev pub first_logger : Logger
first_logger = record no_logger { instance_level = some trace }

first_logger-IsValid : IsValid first_logger
unfolding stream_at
first_logger-IsValid = record {
  attached = λ thread p has. cc has;
  apart = λ thread other p has has'. cc has;
  unused = λ p le. refl;
}

-- Threads log in any order, with full buffering, each record fitting a buffer, and then the logger is
-- released. All calls return, and for each thread that has logged one of the destroyed streams has
-- output the bytes of all its records, in their order, and nothing else.
pub log_all-release :
    (fuel : ℕ) (rs : List (ℕ × Record))
    → All (λ (x : ℕ × Record). Fits x.1) rs
    → (l : Logger) × (l' : Logger) × (log_all (suc (suc fuel)) rs first_logger ≡ ok l)
      × (release l ≡ ok l')
      × ((thread : ℕ)
          → Logs thread rs
          → (s : LogStream) × Among s l'.closed × (s.emitted ≡ all_bytes (records_of thread rs)))
log_all-release fuel rs fits =
    let (l, e, _, separate, keeps) =
      log_all_lem (suc (suc fuel)) rs first_logger first_logger-IsValid (λ thread. works thread) in
    let (l', released, closed, _, _) =
      release_lem l trace (log_all-instance (suc (suc fuel)) rs first_logger l e) in
    (
      l,
      l',
      e,
      released,
      λ thread logs.
          let (s, has) = keeps thread (inl logs) in
          (
            output s,
            subst (Among (output s)) (sym closed)
                (Among-right (output s) l.closed _ (stream_of-Among l thread s has)),
            emitted thread s (separate thread ∙ ap (λ o. ok (own o)) has),
          ),
    )
  where
    works :
        (thread : ℕ)
        → (s : LogStream) × (write_records false
              (suc (suc fuel))
              (records_of thread rs)
              (new_stream [])
            ≡ ok s)
    works thread =
        let (t, e, _) =
          write_records-close fuel (records_of thread rs) [] (records_of-Fits thread rs fits) in
        let (s, w, _) =
          >>=-eq-ok (write_records false (suc (suc fuel)) (records_of thread rs) (new_stream []))
            close e in
        (s, w)

    emitted :
        (thread : ℕ) (s : LogStream)
        → write_records false (suc (suc fuel)) (records_of thread rs) (new_stream []) ≡ ok s
        → (output s).emitted ≡ all_bytes (records_of thread rs)
    emitted thread s w =
        let (t, e, bytes) =
          write_records-close fuel (records_of thread rs) [] (records_of-Fits thread rs fits) in
        let closed : ok (output s) ≡ ok t = sym (close-output s) ∙ (rw (w, ◌>>=◌) at e) in
        ap (λ (x : LogStream). x.emitted) (ok_injective t (output s) t closed) ∙ bytes
