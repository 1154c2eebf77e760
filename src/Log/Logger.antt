-- ===== src/Log/Logger.antt =====
-- The class `Logger` of log/logger.h and log/logger.cpp: a stream for each thread that logs.
mod Streams
pub mod Threads
pub mod Release
pub mod Interleaved
pub mod Output
mod Examples
use cpp_utils.Base.{
  ℕ, suc, ◌+◌, Bool, true, false, Option, none, some, List, [], ◌∷◌, ◌++◌, leb, ◌==◌, if◌then◌else◌,
  put, Outcome, ok, fault, ◌>>=◌,
}
use cpp_utils.Log.Stream.{LogStream, new_stream, close}

-- `Logger::LEVEL`
pub data Level : Type 0 where
  none_level trace info debug warn error fatal : Level

abbrev pub rank : Level → ℕ
rank none_level = 0
rank trace = 1
rank info = 2
rank debug = 3
rank warn = 4
rank error = 5
rank fatal = 6

-- `levels[(int)level]` of log/logStream.cpp
abbrev pub level_name : Level → List ℕ
level_name none_level = b'N' ∷ b'O' ∷ b'N' ∷ b'E' ∷ []
level_name trace = b'T' ∷ b'R' ∷ b'A' ∷ b'C' ∷ b'E' ∷ []
level_name info = b'I' ∷ b'N' ∷ b'F' ∷ b'O' ∷ []
level_name debug = b'D' ∷ b'E' ∷ b'B' ∷ b'U' ∷ b'G' ∷ []
level_name warn = b'W' ∷ b'A' ∷ b'R' ∷ b'N' ∷ []
level_name error = b'E' ∷ b'R' ∷ b'R' ∷ b'O' ∷ b'R' ∷ []
level_name fatal = b'F' ∷ b'A' ∷ b'T' ∷ b'A' ∷ b'L' ∷ []

-- `instance` is the level of the object, if there is one. `streams` has the addresses of the streams
-- that it owns, `tms` counts the allocations of `struct tm`, and `t_stream` is `t_pLogStream` of each
-- thread. `closed` are the streams that were destroyed, as they were at the end.
pub record Logger : Type 0 where
  pub instance_level : Option Level
  pub buffer_level : ℕ
  pub streams : List (ℕ × LogStream)
  pub next : ℕ
  pub tms : ℕ
  pub t_stream : ℕ → Option ℕ
  pub closed : List LogStream

-- Before `main`.
abbrev pub no_logger : Logger
no_logger = record {
  instance_level = none;
  buffer_level = 0;
  streams = [];
  next = 0;
  tms = 0;
  t_stream = λ _. none;
  closed = [];
}

-- `getInstance()`: the level of the instance, which may be new.
unfoldable pub get_instance : Logger → Level × Logger
get_instance l = elim l.instance_level [
  | none ↦ (trace, record l { instance_level = some trace })
  | some level ↦ (level, l)
]

-- `setLevel(l)` and `init()` of the instance
abbrev pub set_level : Level → Logger → Logger
set_level level l = record l { instance_level = some level }

abbrev pub init : Logger → Logger
init l = set_level warn l

-- `SetBufferLevel(level)`
abbrev pub set_buffer_level : ℕ → Logger → Logger
set_buffer_level level l = record l { buffer_level = level }

-- The stream at an address.
unfoldable pub stream_at : List (ℕ × LogStream) → ℕ → Option LogStream
stream_at [] p = none
stream_at ((q, s) ∷ streams) p =
    let further = stream_at streams p in if q == p then some s else further

unfoldable pub store : List (ℕ × LogStream) → ℕ → LogStream → List (ℕ × LogStream)
store [] p s = []
store ((q, old) ∷ streams) p s =
    let further = (q, old) ∷ store streams p s in if q == p then (q, s) ∷ streams else further

-- `if (t_pLogStream == 0)` in `stream`: the address of the thread's stream.
unfoldable pub own_stream : ℕ → Logger → ℕ × Logger
unfolding put
own_stream thread l = elim (l.t_stream thread) [
  | some p ↦ (p, l)
  | none ↦ (
    l.next,
    record l {
      streams = l.streams ++ ((l.next, new_stream []) ∷ []);
      next = suc l.next;
      tms = suc l.tms;
      t_stream = put thread (some l.next) l.t_stream;
    },
  )
]

-- `t_pLogStream->makeLog(...)` with the address `p`: a stream that is not there any more is used after
-- it was freed.
unfoldable pub make_at : (LogStream → Outcome LogStream) → ℕ → Logger → Outcome Logger
unfolding stream_at store
make_at make p l = elim (stream_at l.streams p) [
  | none ↦ fault
  | some s ↦ make s >>= λ s. ok (record l { streams = store l.streams p s })
]

-- `stream(filename, line, level, func)`; `make` is `makeLog` with these arguments, and what is put
-- into the stream behind it.
unfoldable pub stream : (LogStream → Outcome LogStream) → ℕ → Logger → Outcome Logger
unfolding own_stream make_at
stream make thread l = let own = own_stream thread l in make_at make own.0 own.1

-- The macros `LOG_TRACE` to `LOG_ERROR`
unfoldable pub log : Level → (LogStream → Outcome LogStream) → ℕ → Logger → Outcome Logger
unfolding get_instance stream
log level make thread l =
    let instance = get_instance l in
    if leb (rank instance.0) (rank level) then stream make thread instance.1 else ok instance.1

-- The macro `LOG_FATAL`
unfoldable pub log_fatal : (LogStream → Outcome LogStream) → ℕ → Logger → Outcome Logger
unfolding get_instance stream
log_fatal make thread l = stream make thread (get_instance l).1

-- `streams.clear()`: the streams as their destructors leave them.
unfoldable pub close_all : List (ℕ × LogStream) → Outcome (List LogStream)
unfolding close
close_all [] = ok []
close_all ((p, s) ∷ streams) = do s ← close s; rest ← close_all streams; ok (s ∷ rest)

-- `release()`, also in the destructor of `LoggerWatcher`
unfoldable pub release : Logger → Outcome Logger
unfolding close_all
release l = elim l.instance_level [
  | none ↦ ok l
  | some level ↦ do
    closed ← close_all l.streams
    ok (record l { instance_level = none; streams = []; tms = 0; closed = l.closed ++ closed })
]
