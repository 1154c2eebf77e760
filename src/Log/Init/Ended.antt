-- ===== src/Log/Init/Ended.antt =====
-- `~AsyncLogInit()` of log/flog.h: what it does, and what the log files hold behind it.
use cpp_utils.Base.{ℕ, ◌≡◌, true, false, some, List, ◌++◌, ok}
use cpp_utils.Base.Int.{ℤ}
use cpp_utils.Log.Logger.{Logger}
use cpp_utils.Log.Async.{AsyncLogging, Routine, joined}
use cpp_utils.Log.Async.Writing.{logged}
use cpp_utils.Log.Init.{destroy_front, destroy_logging, held}
use cpp_utils.Log.Init.Ending.{Phase, front_there, front_gone, joining, writer_gone}

-- The lines that came before the destructor, and the logger that it finds.
module _ (roll_size : ℤ) (earlier : List (List ℕ)) (l0 : Logger) where
  -- What the destructor does in each phase.
  abbrev pub Promise : Phase → List (List ℕ) → Logger → AsyncLogging → Routine → Type 0
  Promise front_there lines l a r =
      (l' : Logger) × (a' : AsyncLogging) × (destroy_front l (some a) ≡ ok (l', some a'))
  Promise front_gone lines l a r = a.running ≡ true
  Promise joining lines l a r = a.running ≡ false
  Promise writer_gone lines l a r =
      (before : List (List ℕ)) × (later : List (List ℕ)) × (lines ≡ before ++ later)
      × (logged r ≡ joined earlier ++ (joined before ++ (joined (held l0.streams) ++ joined later)))
      × (destroy_logging a ≡ ok tt)
