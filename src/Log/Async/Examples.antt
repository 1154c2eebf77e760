-- ===== src/Log/Async/Examples.antt =====
-- Runs of log/asyncLogging.cpp on concrete lines, and the theorems there.
use cpp_utils.Base.{
  ℕ, ◌+◌, ◌*◌, ◌/◌, ◌≡◌, refl, arith, false, List, [], ◌∷◌, ◌++◌, length, ltb, if◌then◌else◌, All,
  ok, fault,
}
use cpp_utils.Base.Int.{ℤ, pos}
use cpp_utils.Log.Async.{
  AsyncLogging, Routine, Place, at_test, in_round, at_end, writing, append, buffer_append,
  must_wait, take_buffers, write_buffers, need_write, int_sum, stopped, started, new_routine, front,
  enter, leave, taking, write, stop, Run, none_yet, then_one,
}
use cpp_utils.Log.Calendar.Dates.{date_after}
use cpp_utils.Log.Format.{decimal_from, IsDigit}
use cpp_utils.Log.Async.Roll.{roll_file, date_name, log_suffix, roll_file_lem}
use cpp_utils.Log.Async.Writing.{logged}
use cpp_utils.Log.Async.Kept.{stopped-logged}

-- The members with nothing in any buffer, and the thread at a place with a file.
abbrev holding : List ℕ → AsyncLogging
holding current = record started { current = current }

abbrev with_file : Place → ℤ → List ℕ → Routine
with_file place written file = record new_routine { place = place; written = written; file = file }

-- A line is appended, and the thread takes it.
abbrev taken_run :
    Run
      (pos 100)
      ((1 ∷ 2 ∷ []) ∷ [] ∷ [] ∷ [])
      (started, new_routine)
      (started, with_file (writing ((1 ∷ 2 ∷ []) ∷ [])) (pos 0) [])
unfolding append buffer_append must_wait take_buffers
taken_run =
    then_one {lines = (1 ∷ 2 ∷ []) ∷ [] ∷ []} {line = []}
      (then_one {lines = (1 ∷ 2 ∷ []) ∷ []} {line = []}
        (then_one {lines = []} {line = 1 ∷ 2 ∷ []} none_yet
          (front {a = started} {a' = holding (1 ∷ 2 ∷ [])} {r = new_routine} refl refl))
        (enter {a = holding (1 ∷ 2 ∷ [])} {r = new_routine} refl refl))
      (taking {a = holding (1 ∷ 2 ∷ [])} {r = with_file in_round (pos 0) []} refl refl)

-- The thread writes the line, is stopped and ends.
abbrev ended_run :
    Run
      (pos 100)
      ((1 ∷ 2 ∷ []) ∷ [] ∷ [] ∷ [] ∷ [] ∷ [] ∷ [])
      (started, new_routine)
      (stopped started, with_file at_end (pos 2) (1 ∷ 2 ∷ []))
unfolding write_buffers need_write int_sum
ended_run =
    then_one {lines = (1 ∷ 2 ∷ []) ∷ [] ∷ [] ∷ [] ∷ [] ∷ []} {line = []}
      (then_one {lines = (1 ∷ 2 ∷ []) ∷ [] ∷ [] ∷ [] ∷ []} {line = []}
        (then_one {lines = (1 ∷ 2 ∷ []) ∷ [] ∷ [] ∷ []} {line = []} taken_run
          (write {a = started} {r' = with_file at_test (pos 2) (1 ∷ 2 ∷ [])} refl refl))
        (stop {a = started} {r = with_file at_test (pos 2) (1 ∷ 2 ∷ [])} refl refl))
      (leave {a = stopped started} {r = with_file at_test (pos 2) (1 ∷ 2 ∷ [])} refl refl)

stopped-logged_example :
    ((stopped started).running ≡ false)
    × (logged (with_file at_end (pos 2) (1 ∷ 2 ∷ [])) ≡ 1 ∷ 2 ∷ [])
stopped-logged_example =
    stopped-logged
      (omega arith, (omega arith, (omega arith, (omega arith, (omega arith, (omega arith, tt))))))
      ended_run refl

roll_file_lem_example :
    (digits : List ℕ) × All IsDigit digits
    × (decimal_from 0 digits ≡ 2045)
    × (roll_file (b'a' ∷ b'p' ∷ b'p' ∷ []) 1709208000000000 2045 ≡ (
        if ltb (3 + length digits) 83
        then ok (
            (b'a' ∷ b'p' ∷ b'p' ∷ [])
            ++ (b'.' ∷ date_name (date_after ((1709208000000000 / 1000000 + 3600 * 8) / 86400))
                ++ (b'.' ∷ digits ++ log_suffix)))
        else fault))
roll_file_lem_example = roll_file_lem (b'a' ∷ b'p' ∷ b'p' ∷ []) 1709208000000000 2045 (omega arith)
