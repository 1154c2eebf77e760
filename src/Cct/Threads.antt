-- ===== src/Cct/Threads.antt =====
-- The class `Thread` of cct/thread.h and cct/thread.cpp, and `gettid` of cct/currentThread.cpp.
pub mod Names
pub mod Starting
use cpp_utils.Base.{
  ℕ, zero, suc, ◌+◌, ◌-◌, ltb, ◌/◌, ◌%◌, ◌^◌, Bool, true, false, not, Option, none, some, List, [],
  ◌∷◌, ◌++◌, if◌then◌else◌, ◌==◌, Outcome, ok, aborted, ◌>>=◌,
}

-- The decimal digits, the lowest one last. A round divides by ten, so the number bounds the rounds.
unfoldable pub decimal : ℕ → ℕ → List ℕ → List ℕ
decimal zero n digits = digits
decimal (suc fuel) n digits =
    let here = (48 + n % 10) ∷ digits in
    let further = decimal fuel (n / 10) here in if n / 10 == 0 then here else further

-- `std::to_string` of the `int` with this pattern of 32 bits.
abbrev pub to_string : ℕ → List ℕ
to_string n =
    if ltb n (2 ^ 31)
    then decimal (suc n) n []
    else b'-' ∷ decimal (suc (2 ^ 32 - n)) (2 ^ 32 - n) []

-- `F` are the routines, the pool's among them.
pub record Thread {ℓ} (F : Type ℓ) : Type ℓ where
  pub started : Bool
  pub joined : Bool
  pub tid : ℕ
  pub name : List ℕ
  pub start_routine : Option F

-- The text `thread#`
abbrev pub thread_prefix : List ℕ
thread_prefix = b't' ∷ b'h' ∷ b'r' ∷ b'e' ∷ b'a' ∷ b'd' ∷ b'#' ∷ []

module _ {ℓ} {F : Type ℓ} where
  -- `setDefaultName()`, where `thread_num` is the pattern of `threadNum`: the thread, and the pattern
  -- after it.
  unfoldable pub set_default_name : ℕ → Thread F → Thread F × ℕ
  set_default_name thread_num t = elim t.name [
    | [] ↦ (record t { name = thread_prefix ++ to_string thread_num }, (thread_num + 1) % 2 ^ 32)
    | _ ∷ _ ↦ (t, (thread_num + 1) % 2 ^ 32)
  ]

  -- `Thread()`
  unfoldable pub new_thread : ℕ → Thread F × ℕ
  unfolding set_default_name
  new_thread thread_num =
      set_default_name thread_num
        (record { started = false; joined = false; tid = 0; name = []; start_routine = none })

  -- `Thread(start_routine, s)`
  unfoldable pub thread_with : F → List ℕ → ℕ → Thread F × ℕ
  unfolding set_default_name
  thread_with start_routine s thread_num = set_default_name thread_num (record {
    started = false;
    joined = false;
    tid = 0;
    name = s;
    start_routine = some start_routine;
  })

  -- `addThreadFunc(start_routine)`
  abbrev pub add_thread_func : F → Thread F → Thread F
  add_thread_func start_routine t = record t { start_routine = some start_routine }

  -- `start()`
  unfoldable pub start : Thread F → Outcome (Thread F)
  start t = if t.started then aborted else ok (record t { started = true })

  -- `beforeRoutine()`, which the new thread runs: `id` is what `gettid` gives it.
  abbrev pub before_routine : ℕ → Thread F → Thread F
  before_routine id t = record t { tid = id }

  -- `join()`, up to the call of `pthread_join`, which waits for the end of the routine.
  unfoldable pub join : Thread F → Outcome (Thread F)
  join t =
      if not t.started
      then aborted
      else if t.joined
      then aborted
      else ok (record t { joined = true })

-- `gettid()` with `tid_cache`, where `id` is what the system call gives: what it returns, and the cache
-- after it.
unfoldable pub gettid : ℕ → ℕ → ℕ × ℕ
gettid id cache = if cache == 0 then (id, id) else (cache, cache)
