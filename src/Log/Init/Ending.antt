-- ===== src/Log/Init/Ending.antt =====
-- `~AsyncLogInit()` of log/flog.h, statement by statement, among the steps of the other threads.
use cpp_utils.Base.{ℕ, ◌≡◌, true, some, List, [], ◌∷◌, ◌++◌, ok}
use cpp_utils.Base.Int.{ℤ}
use cpp_utils.Log.Logger.{Logger}
use cpp_utils.Log.Async.{AsyncLogging, Routine, at_end, stopped, Step}
use cpp_utils.Log.Init.{destroy_front}

-- Where the destructor is: before its first statement, `_lw = nullptr`; before its second one,
-- `_watcher = nullptr`, which calls `stop()`; in `stop()`, where it joins the writing thread; or behind
-- that, where `~AsyncLogging()` is called.
pub data Phase : Type 0 where
  front_there front_gone joining writer_gone : Phase

-- The front end, the backend and the thread of the backend.
abbrev pub AsyncLogInit : Type 0
AsyncLogInit = Phase × Logger × AsyncLogging × Routine

-- A step of the destructor, or of another thread, which does not call `stop()`. The label has the line
-- that another thread appends.
pub data Ending (roll_size : ℤ) : List (List ℕ) → AsyncLogInit → AsyncLogInit → Type 0 where
  other :
      {line : List ℕ} {p : Phase} {l : Logger} {a b : AsyncLogging} {r q : Routine}
      → Step roll_size line (a, r) (b, q)
      → b.running ≡ a.running
      → Ending roll_size (line ∷ []) (p, l, a, r) (p, l, b, q)
  clears_front :
      {l l' : Logger} {a a' : AsyncLogging} {r : Routine}
      → destroy_front l (some a) ≡ ok (l', some a')
      → Ending roll_size [] (front_there, l, a, r) (front_gone, l', a', r)
  stops :
      {l : Logger} {a : AsyncLogging} {r : Routine}
      → a.running ≡ true
      → a.current ≡ []
      → Ending roll_size [] (front_gone, l, a, r) (joining, l, stopped a, r)
  joins :
      {l : Logger} {a : AsyncLogging} {r : Routine}
      → r.place ≡ at_end
      → Ending roll_size [] (joining, l, a, r) (writer_gone, l, a, r)

pub data EndRun (roll_size : ℤ) : List (List ℕ) → AsyncLogInit → AsyncLogInit → Type 0 where
  not_begun : {s : AsyncLogInit} → EndRun roll_size [] s s
  then_step :
      {lines more : List (List ℕ)} {s t u : AsyncLogInit}
      → EndRun roll_size lines s t
      → Ending roll_size more t u
      → EndRun roll_size (lines ++ more) s u
