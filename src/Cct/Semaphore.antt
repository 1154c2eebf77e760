-- ===== src/Cct/Semaphore.antt =====
-- The class `Semaphore` of cct/sem.h and cct/sem.cpp.
use cpp_utils.Base.{
  ℕ, zero, suc, ◌^◌, ◌-◌, Bool, true, false, Option, none, some, ltb, if◌then◌else◌,
}

-- `SEM_VALUE_MAX` of the system
abbrev pub sem_value_max : ℕ
sem_value_max = 2 ^ 31 - 1

-- `Semaphore(val)`: `sem_init` refuses a greater value, and the member is not initialised then.
unfoldable pub new_semaphore : ℕ → Option ℕ
new_semaphore val = if ltb sem_value_max val then none else some val

-- `wait()` when it returns: a signal ends the waiting without a decrement, which is logged only.
unfoldable pub wait : Bool → ℕ → Option ℕ
wait true count = some count
wait false zero = none
wait false (suc count) = some count

-- `wakeup()`: an overflow is logged only.
unfoldable pub wakeup : ℕ → ℕ
wakeup count = if ltb count sem_value_max then suc count else count
