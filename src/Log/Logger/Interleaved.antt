-- ===== src/Log/Logger/Interleaved.antt =====
-- Threads that log in turns, with the buffers of log/logStream.cpp, up to the release of the logger.
use cpp_utils.Base.{
  ℕ, ◌≡◌, ◌≢◌, refl, sym, ap, subst, ◌∙◌, ◌⊎◌, inl, inr, Bool, true, false, Bool-cases, some, List,
  [], ◌∷◌, ◌==◌, ==_iff, ==_false, if◌then◌else◌, Outcome, ok, ◌>>=◌, >>=-eq-ok,
}
use cpp_utils.Log.Stream.{LogStream, write_record, write_records}
use cpp_utils.Log.Logger.{Logger, stream}
use cpp_utils.Log.Logger.Threads.{IsValid, stream_of, own, stream_lem}

-- What a thread puts into its stream for a record, and whether `t_needFlush` is set then.
abbrev pub Record : Type 0
Record = Bool × List (List ℕ)

-- Log statements, each by one thread, with full buffering.
unfoldable pub log_all : ℕ → List (ℕ × Record) → Logger → Outcome Logger
unfolding stream write_record
log_all fuel [] l = ok l
log_all fuel ((thread, r) ∷ rest) l =
    stream (write_record false fuel r) thread l >>= log_all fuel rest

-- The records of a thread.
abbrev pub records_of : ℕ → List (ℕ × Record) → List Record
records_of thread [] = []
records_of thread ((other, r) ∷ rest) =
    let later = records_of thread rest in if other == thread then r ∷ later else later

abbrev pub Logs : ℕ → List (ℕ × Record) → Type 0
Logs thread [] = ⊥
Logs thread ((other, r) ∷ rest) = (other ≡ thread) ⊎ Logs thread rest

-- Each thread's stream is what its own records make of the stream that it had.
abbrev Separate : ℕ → List (ℕ × Record) → Logger → Logger → Type 0
Separate fuel rs l l' =
    (thread : ℕ)
    → write_records false fuel (records_of thread rs) (own (stream_of l thread))
      ≡ ok (own (stream_of l' thread))

-- What a step of one thread leaves to do for each thread.
abbrev Works : ℕ → List (ℕ × Record) → Logger → ℕ → Type 0
Works fuel rs l thread =
    (s : LogStream) × (write_records false fuel (records_of thread rs) (own (stream_of l thread))
      ≡ ok s)

abbrev pub HasStream : Logger → ℕ → Type 0
HasStream l thread = (s : LogStream) × (stream_of l thread ≡ some s)

-- Each thread that logs, or had a stream, has one.
abbrev Keeps : List (ℕ × Record) → Logger → Logger → Type 0
Keeps rs l l' = (thread : ℕ) → Logs thread rs ⊎ HasStream l thread → HasStream l' thread

module _ (fuel u : ℕ) (r : Record) (rest : List (ℕ × Record)) (l l1 : Logger) (s : LogStream)
    (made : write_record false fuel r (own (stream_of l u)) ≡ ok s) (has : stream_of l1 u ≡ some s)
    (others : (other : ℕ) → other ≢ u → stream_of l1 other ≡ stream_of l other) where
  -- A thread is the one of the first statement, or its stream is as before.
  thread-cases :
      (thread : ℕ)
      → ((u ≡ thread) × ((u == thread) ≡ true))
        ⊎ (((u == thread) ≡ false) × (stream_of l1 thread ≡ stream_of l thread))
  thread-cases thread = elim (Bool-cases (u == thread)) [
    | inl e ↦ inl ((==_iff u thread).0 e, e)
    | inr e ↦ inr (e, others thread (λ same. ==_false u thread e (sym same)))
  ]

  Works-rest :
      (works_end : LogStream)
      → ((thread : ℕ) → Works fuel ((u, r) ∷ rest) l thread)
      → write_records false fuel (records_of u rest) s ≡ ok works_end
      → (thread : ℕ) → Works fuel rest l1 thread
  Works-rest works_end works later thread = elim (thread-cases thread) [
    | inl (same, _) ↦
        subst (Works fuel rest l1) same
          (works_end, ap (λ o. write_records false fuel (records_of u rest) (own o)) has ∙ later)
    | inr (differ, before) ↦
        let (s', w) = works thread in
        (
          s',
          ap (λ o. write_records false fuel (records_of thread rest) (own o)) before
              ∙ (rw differ at w),
        )
  ]

  Separate-step : (l' : Logger) → Separate fuel rest l1 l' → Separate fuel ((u, r) ∷ rest) l l'
  unfolding write_records
  Separate-step l' separate thread = elim (thread-cases thread) [
    | inl (same, e) ↦
        subst
          (λ t.
            write_records false fuel (records_of t ((u, r) ∷ rest)) (own (stream_of l t))
            ≡ ok (own (stream_of l' t)))
          same
          (rw ((==_iff u u).1 refl, made, ◌>>=◌)
            (ap (λ o. write_records false fuel (records_of u rest) (own o)) (sym has) ∙ separate u))
    | inr (differ, before) ↦ rw differ (
        ap (λ o. write_records false fuel (records_of thread rest) (own o)) (sym before)
        ∙ separate thread)
  ]

  Keeps-step : (l' : Logger) → Keeps rest l1 l' → Keeps ((u, r) ∷ rest) l l'
  Keeps-step l' keeps thread (inl (inl same)) =
      keeps thread (inr (subst (HasStream l1) same (s, has)))
  Keeps-step l' keeps thread (inl (inr logs)) = keeps thread (inl logs)
  Keeps-step l' keeps thread (inr (s', had)) = elim (thread-cases thread) [
    | inl (same, _) ↦ keeps thread (inr (subst (HasStream l1) same (s, has)))
    | inr (_, before) ↦ keeps thread (inr (s', before ∙ had))
  ]

pub log_all_lem :
    (fuel : ℕ) (rs : List (ℕ × Record)) (l : Logger)
    → IsValid l
    → ((thread : ℕ) → Works fuel rs l thread)
    → (l' : Logger) × (log_all fuel rs l ≡ ok l')
      × IsValid l'
      × Separate fuel rs l l'
      × Keeps rs l l'
unfolding log_all write_records
log_all_lem fuel [] l valid works = (l, refl, valid, λ thread. refl, nothing)
  where
    nothing : Keeps [] l l
    nothing thread (inl logs) = absurd logs
    nothing thread (inr had) = had
log_all_lem fuel ((u, r) ∷ rest) l valid works =
    let (final, e) = works u in
    let (s, made, later) =
      >>=-eq-ok (write_record false fuel r (own (stream_of l u)))
        (write_records false fuel (records_of u rest)) (rw ((==_iff u u).1 refl) at e) in
    let (l1, e1, valid1, has, others) = stream_lem (write_record false fuel r) u l s valid made in
    let (l', e', valid', separate, keeps) =
      log_all_lem fuel rest l1 valid1
        (Works-rest fuel u r rest l l1 s made has others final works later) in
    (
      l',
      rw (e1, ◌>>=◌) e',
      valid',
      Separate-step fuel u r rest l l1 s made has others l' separate,
      Keeps-step fuel u r rest l l1 s made has others l' keeps,
    )
