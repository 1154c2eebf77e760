-- ===== src/Cct/Threads/Starting.antt =====
-- cct/thread.cpp: a thread that starts another one and joins it, step by step, with the semaphore between
-- them.
pub mod Kept
mod Examples
use cpp_utils.Base.{ℕ, suc, ◌≡◌, false, true, some}
use cpp_utils.Cct.Semaphore.{wait, wakeup}

-- Where the thread that calls `start()` is: before `pthread_create`, in `_sem.wait()`, behind `start()`,
-- and behind `join()`.
pub data Caller : Type 0 where
  before_start in_wait behind_start behind_join : Caller

-- Where the new thread is: not made, at the start of `startThread`, behind `wakeup()`, behind
-- `beforeRoutine()`, behind `startRoutine()`, and at its end, when `ThreadData` is deleted.
pub data Child : Type 0 where
  not_made at_entry awake prepared routine_done exited : Child

-- `count` is the value of `_sem`, `tid` is `_tid`, `runs` counts the calls of the routine, and `signals`
-- the waits that a signal has ended.
pub record Handshake : Type 0 where
  pub caller : Caller
  pub child : Child
  pub count : ℕ
  pub tid : ℕ
  pub runs : ℕ
  pub signals : ℕ

-- A `Thread` that is not started.
abbrev pub not_started : Handshake
not_started = record {
  caller = before_start;
  child = not_made;
  count = 0;
  tid = 0;
  runs = 0;
  signals = 0;
}

-- One step of one of the two threads; `id` is what `gettid` gives the new one.
pub data Step (id : ℕ) : Handshake → Handshake → Type 0 where
  creates :
      {s : Handshake}
      → s.caller ≡ before_start
      → Step id s (record s { caller = in_wait; child = at_entry })
  wakes :
      {s : Handshake}
      → s.child ≡ at_entry
      → Step id s (record s { child = awake; count = wakeup s.count })
  prepares : {s : Handshake} → s.child ≡ awake → Step id s (record s { child = prepared; tid = id })
  runs_routine :
      {s : Handshake}
      → s.child ≡ prepared
      → Step id s (record s { child = routine_done; runs = suc s.runs })
  ends : {s : Handshake} → s.child ≡ routine_done → Step id s (record s { child = exited })
  returns :
      {s : Handshake} {count : ℕ}
      → s.caller ≡ in_wait
      → wait false s.count ≡ some count
      → Step id s (record s { caller = behind_start; count = count })
  interrupted :
      {s : Handshake} {count : ℕ}
      → s.caller ≡ in_wait
      → wait true s.count ≡ some count
      → Step id s (record s { caller = behind_start; count = count; signals = suc s.signals })
  joins :
      {s : Handshake}
      → s.caller ≡ behind_start
      → s.child ≡ exited
      → Step id s (record s { caller = behind_join })

pub data Reachable (id : ℕ) : Handshake → Type 0 where
  begins : Reachable id not_started
  then_step : {s t : Handshake} → Reachable id s → Step id s t → Reachable id t
