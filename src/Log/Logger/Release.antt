-- ===== src/Log/Logger/Release.antt =====
-- The streams of the logger when it is released, and logging behind that.
use cpp_utils.Base.{
  ℕ, ◌≡◌, refl, ◌∙◌, arith, none, some, List, [], ◌∷◌, ◌++◌, map, take_all, length, put_same,
  Outcome, ok, fault, ◌>>=◌,
}
use cpp_utils.Base.Int.{pos}
use cpp_utils.Log.Stream.{LogStream, new_stream}
use cpp_utils.Log.Logger.{
  Level, Logger, stream_at, store, own_stream, stream, make_at, close_all, release,
}
use cpp_utils.Log.Logger.Streams.{stream_at-store_same, stream_at-append_same}
use cpp_utils.Log.Logger.Threads.{stream_of, stream_of-some, with_stream, make_at_lem}

-- A stream behind its destructor: all that was put into it has been output.
abbrev pub output : LogStream → LogStream
output s = record s { end_at = pos (length s.text); emitted = s.emitted ++ s.text }

close_all-output :
    (streams : List (ℕ × LogStream))
    → close_all streams ≡ ok (map (λ (q : ℕ × LogStream). output q.1) streams)
unfolding close_all
close_all-output [] = refl
close_all-output ((p, s) ∷ streams) =
    rw (take_all (length s.text) s.text (omega arith), close_all-output streams)

-- A thread without a stream gets one at an address that is free.
first_stream :
    (make : LogStream → Outcome LogStream) (thread : ℕ) (s : LogStream) (l : Logger)
    → l.t_stream thread ≡ none
    → stream_at l.streams l.next ≡ none
    → make (new_stream []) ≡ ok s
    → (l1 : Logger) × (stream make thread l ≡ ok l1) × (stream_of l1 thread ≡ some s)
unfolding stream own_stream
first_stream make thread s l has free made =
    let l1 = with_stream thread l in
    let there = stream_at-append_same l.streams l.next (new_stream []) free in
    let l2 = record l1 { streams = store l1.streams l.next s } in
    (
      l2,
      rw (has, own_stream, stream) (make_at_lem make l.next l1 (new_stream []) s there made),
      stream_of-some l2 thread l.next (put_same thread _ l.t_stream)
          ∙ stream_at-store_same l1.streams l.next (new_stream []) s there,
    )

-- The logger behind `release`.
abbrev released : Logger → Logger
released l = record l {
  instance_level = none;
  streams = [];
  tms = 0;
  closed = l.closed ++ map (λ (q : ℕ × LogStream). output q.1) l.streams;
}

-- `release` of a logger with an instance destroys all streams, in the order in which they were made,
-- and outputs all that was put into them. Threads that had no stream can go on logging. A thread that
-- had one keeps its address: what it logs next is written to freed memory.
pub release_lem :
    (l : Logger) (level : Level)
    → l.instance_level ≡ some level
    → (l' : Logger) × (release l ≡ ok l')
      × (l'.closed ≡ l.closed ++ map (λ (q : ℕ × LogStream). output q.1) l.streams)
      × ((make : LogStream → Outcome LogStream) (thread : ℕ) (s : LogStream)
          → l.t_stream thread ≡ none
          → make (new_stream []) ≡ ok s
          → (l1 : Logger) × (stream make thread l' ≡ ok l1) × (stream_of l1 thread ≡ some s))
      × ((make : LogStream → Outcome LogStream) (thread p : ℕ)
          → l.t_stream thread ≡ some p
          → stream make thread l' ≡ fault)
unfolding release stream own_stream make_at stream_at
release_lem l level there = (
  released l,
  rw (there, release, close_all-output l.streams, ◌>>=◌),
  refl,
  λ make thread s has made. first_stream make thread s (released l) has refl made,
  λ make thread p has. rw (has, own_stream, stream),
)
