-- ===== src/Log/Init.antt =====
-- log/flog.h, and the parts of log/asyncLogging.h and log/asyncLogging.cpp that it uses: the backend is
-- made and started before the front end, and ends behind it.
pub mod Ending
pub mod Kept
pub mod Ended
mod Examples
use cpp_utils.Base.{
  ℕ, ◌+◌, ◌*◌, ◌≡◌, refl, sym, ap, subst, ◌∙◌, inl, inr, arith, Bool, true, false, Option, none,
  some, List, [], ◌∷◌, ◌++◌, map, length, take, take_all, append_assoc, append-nil, All, All-append,
  if◌then◌else◌, Outcome, ok, fault, aborted, ◌>>=◌,
}
use cpp_utils.Base.Int.{ℤ, pos, negsuc}
use cpp_utils.Log.Stream.{LogStream, mark_end}
use cpp_utils.Log.Logger.{Level, Logger, close_all, release}
use cpp_utils.Log.Logger.Release.{release_lem}
use cpp_utils.Log.Async.{
  AsyncLogging, Routine, at_end, append, joined, started, new_routine, Step, front, Run, none_yet,
  then_one,
}
use cpp_utils.Log.Async.Writing.{logged, joined-append}
use cpp_utils.Log.Async.Appending.{extended, swapped, append_cases}
use cpp_utils.Log.Async.Kept.{IsValid, Short, run-IsValid, stopped-logged}

-- `AsyncLogging(basename, rollSize, flushInterval)`: the members that threads share. The other ones
-- do not change, and `_flushInterval` is not used.
abbrev pub new_logging : AsyncLogging
new_logging = record { running = false; current = []; next = some []; buffers = [] }

-- `AsyncLogging::start()`
unfoldable pub start : AsyncLogging → Outcome AsyncLogging
start a = if a.running then aborted else ok (record a { running = true })

-- `~AsyncLogging()`
unfoldable pub destroy_logging : AsyncLogging → Outcome (Unit {0})
destroy_logging a = if a.running then aborted else ok tt

-- `AsyncLoggingWatcher(progname)`: the size from which a file is full, and the backend in `g_asyncLog`.
unfoldable pub new_watcher : Outcome (ℤ × Option AsyncLogging)
unfolding start
new_watcher = do a ← start new_logging; ok (pos (1000 * 1000 * 100), some a)

-- `AsyncLogOutput(msg, len)`, the output function of all streams: `g_asyncLog` is null before there is a
-- watcher.
unfoldable pub async_log_output : List ℕ → Option AsyncLogging → Outcome (Option AsyncLogging)
unfolding append
async_log_output msg none = fault
async_log_output msg (some a) = append msg a >>= λ a'. ok (some a')

-- The output of `flush()` of a stream.
unfoldable pub flush_into : LogStream → Option AsyncLogging → Outcome (Option AsyncLogging)
unfolding async_log_output
flush_into s g = elim s.end_at [ pos n ↦ async_log_output (take n s.text) g | negsuc _ ↦ fault ]

-- The output of the destructors of streams, one after the other.
unfoldable pub close_into :
    List (ℕ × LogStream) → Option AsyncLogging → Outcome (Option AsyncLogging)
unfolding flush_into
close_into [] g = ok g
close_into ((p, s) ∷ streams) g = flush_into (mark_end s) g >>= close_into streams

-- `~LoggerWatcher()` with its output.
unfoldable pub destroy_front : Logger → Option AsyncLogging → Outcome (Logger × Option AsyncLogging)
unfolding close_into release
destroy_front l g = do
  l' ← release l
  g' ← elim l.instance_level [ none ↦ ok g | some _ ↦ close_into l.streams g ]
  ok (l', g')

-- What the streams of a logger still hold.
abbrev pub held : List (ℕ × LogStream) → List (List ℕ)
held streams = map (λ (q : ℕ × LogStream). q.1.text) streams

-- `append` of a short line is a step of the backend, which goes on running.
append-Step :
    (line : List ℕ) (a : AsyncLogging) (r : Routine)
    → IsValid (a, r)
    → Short line
    → a.running ≡ true
    → (a' : AsyncLogging) × (append line a ≡ ok a') × (a'.running ≡ true)
append-Step line a r v short on = elim (append_cases line a v.room v.next_empty short) [
  | inl (e, _) ↦ (extended line a, e, on)
  | inr (e, _) ↦ (swapped line a, e, on)
]

close_into-Run :
    {roll_size : ℤ} (streams : List (ℕ × LogStream)) (lines : List (List ℕ)) (a : AsyncLogging)
    (r : Routine)
    → All Short lines
    → Run roll_size lines (started, new_routine) (a, r)
    → a.running ≡ true
    → All Short (held streams)
    → (a' : AsyncLogging) × (close_into streams (some a) ≡ ok (some a'))
      × Run roll_size (lines ++ held streams) (started, new_routine) (a', r)
      × (a'.running ≡ true)
unfolding close_into flush_into async_log_output
close_into-Run {roll_size} [] lines a r short run on fits = (
  a,
  refl,
  subst (λ ls. Run roll_size ls (started, new_routine) (a, r)) (sym (append-nil lines)) run,
  on,
)
close_into-Run {roll_size} ((p, s) ∷ streams) lines a r short run on (fit, fits) =
    let (a1, e, on') = append-Step s.text a r (run-IsValid short run).0 fit on in
    let (a', e', run', end_on) =
      close_into-Run streams (lines ++ (s.text ∷ [])) a1 r
        (All-append Short lines (s.text ∷ []) short (fit, tt)) (then_one run (front on e)) on'
        fits in
    (
      a',
      rw (take_all (length s.text) s.text (omega arith), e, ◌>>=◌) e',
      subst (λ ls. Run roll_size ls (started, new_routine) (a', r))
          (append_assoc lines (s.text ∷ []) (held streams)) run',
      end_on,
    )

-- `~LoggerWatcher()` returns, if the backend runs, and what the streams of the logger hold goes to the
-- backend, stream by stream.
pub destroy_front-Run :
    {roll_size : ℤ} {lines : List (List ℕ)} {a : AsyncLogging} {r : Routine} (l : Logger)
    (level : Level)
    → All Short lines
    → Run roll_size lines (started, new_routine) (a, r)
    → a.running ≡ true
    → l.instance_level ≡ some level
    → All Short (held l.streams)
    → (l' : Logger) × (a' : AsyncLogging) × (destroy_front l (some a) ≡ ok (l', some a'))
      × Run roll_size (lines ++ held l.streams) (started, new_routine) (a', r)
      × (a'.running ≡ true)
unfolding destroy_front
destroy_front-Run {lines = lines} {a = a} {r = r} l level short run on there fits =
    let (l', released, _, _, _) = release_lem l level there in
    let (a', e, run', on') = close_into-Run l.streams lines a r short run on fits in
    (l', a', rw (released, there, e, ◌>>=◌), run', on')
