-- ===== src/Cct/Fibers/Machine.antt =====
-- The invariant of the fibers of a thread: what their statuses say of their contexts.
pub mod Kept
pub mod Switch
pub mod Made
pub mod Steps
pub mod Reached
use cpp_utils.Base.{
  put, put_same, put_other, ℕ, suc, ◌≤◌, ◌≡◌, ◌≢◌, refl, sym, ap, ◌∙◌, subst, inl, inr, ◌⊎◌,
  Bool-cases, arith, Bool, true, false, Option, none, some, ◌==◌, ==_iff, Outcome, ok, aborted,
  ◌>>=◌, >>=-same,
}
use cpp_utils.Cct.Fibers.{
  Status, free, init, runnable, running, sleeping, except, Code, thread_code, fiber_code, Context,
  at_start, suspended, at_exit, Fiber, Fibers, at, set_status, swap_context, deref, resume, swap_in,
  swap_out, yield_sleeping, End, status_after, end_main_func, fiber_exit,
}

-- The context of a fiber that has this status, while `r` runs.
abbrev pub Saved : Status → Code → ℕ → Context → Type 0
Saved init r h c = c ≡ at_start
Saved runnable r h c = c ≡ suspended (fiber_code h)
Saved sleeping r h c = c ≡ suspended (fiber_code h)
Saved running r h c = r ≡ fiber_code h
Saved free r h c = c ≡ at_exit
Saved except r h c = c ≡ at_exit

-- `MainFunc` is over.
abbrev pub IsOver : Status → Type 0
IsOver free = Unit
IsOver except = Unit
IsOver _ = ⊥

-- The fiber that the code is of, where `m` is the main one.
abbrev pub current : ℕ → Code → ℕ
current m thread_code = m
current m (fiber_code h) = h

-- The context of the main fiber: the code of the thread waits there for the fiber that runs.
abbrev pub MainSaved : Code → Context → Type 0
MainSaved thread_code c = Unit
MainSaved (fiber_code h) c = c ≡ suspended thread_code

abbrev pub Executed : ℕ → Code → (ℕ → Option Fiber) → Type 0
Executed m thread_code heap = Unit
Executed m (fiber_code h) heap = (h ≢ m) × (f : Fiber) × (heap h ≡ some f) × (f.status ≡ running)

-- The thread has a main fiber, at `m`.
pub record Started (m : ℕ) (s : Fibers) : Type 0 where
  pub main_is : s.thread_fiber ≡ some m
  pub cur_is : s.cur_fiber ≡ some (current m s.runs)
  pub main_fiber : (f : Fiber) × (s.heap m ≡ some f) × MainSaved s.runs f.ctx
  pub executed : Executed m s.runs s.heap
  pub others : (h : ℕ) (f : Fiber) → h ≢ m → s.heap h ≡ some f → Saved f.status s.runs h f.ctx
  pub unused : (h : ℕ) → s.next ≤ h → s.heap h ≡ none

-- The thread has none yet, and so no fiber has run.
pub record Unstarted (s : Fibers) : Type 0 where
  pub no_main : s.thread_fiber ≡ none
  pub no_cur : s.cur_fiber ≡ none
  pub thread_runs : s.runs ≡ thread_code
  pub all_new : (h : ℕ) (f : Fiber) → s.heap h ≡ some f → (f.status ≡ init) × (f.ctx ≡ at_start)
  pub unused : (h : ℕ) → s.next ≤ h → s.heap h ≡ none

abbrev pub IsValid : Fibers → Type 0
IsValid s = Unstarted s ⊎ ((m : ℕ) × Started m s)

fiber_code_injective : {h i : ℕ} → fiber_code h ≡ fiber_code i → h ≡ i
fiber_code_injective {h = h} e = ap (current h) e

thread_not_fiber : {h : ℕ} → thread_code ≡ fiber_code h → ⊥
thread_not_fiber e = cc

-- Fibers that do not run keep what is said of them when the code that runs changes.
pub Saved-enter :
    (st : Status) (r : Code) (h : ℕ) (c : Context) → Saved st thread_code h c → Saved st r h c
Saved-enter init r h c saved = saved
Saved-enter runnable r h c saved = saved
Saved-enter sleeping r h c saved = saved
Saved-enter running r h c saved = absurd (thread_not_fiber saved)
Saved-enter free r h c saved = saved
Saved-enter except r h c saved = saved

pub Saved-leave :
    (st : Status) (g h : ℕ) (c : Context)
    → h ≢ g
    → Saved st (fiber_code g) h c
    → Saved st thread_code h c
Saved-leave init g h c differ saved = saved
Saved-leave runnable g h c differ saved = saved
Saved-leave sleeping g h c differ saved = saved
Saved-leave running g h c differ saved = absurd (differ (sym (fiber_code_injective saved)))
Saved-leave free g h c differ saved = saved
Saved-leave except g h c differ saved = saved

-- `swapIn` of the fiber `f` at `h`, while the code of the thread runs: the state behind it.
abbrev pub entered : ℕ → ℕ → Fiber → Fiber → Fibers → Fibers
entered m h main f s = record s {
  heap =
      put m (some (record main { ctx = suspended s.runs }))
        (put h (some (record f { status = running })) s.heap);
  cur_fiber = some h;
  runs = fiber_code h;
}

module _ (s : Fibers) (m h : ℕ) (main f : Fiber) (is_main : s.thread_fiber ≡ some m) (other : h ≢ m)
    (at_main : s.heap m ≡ some main) (at_h : s.heap h ≡ some f) where
  pub swap_in-context :
      swap_in h s ≡ resume h (record (entered m h main f s) { runs = s.runs }) f.ctx
  unfolding swap_in set_status swap_context
  swap_in-context = rw (
    at_h,
    ◌>>=◌,
    is_main,
    put_other h (some (record f { status = running })) s.heap m (λ e. other (sym e)),
    at_main,
    put_other m (some (record main { ctx = suspended s.runs }))
        (put h (some (record f { status = running })) s.heap) h other,
    put_same h (some (record f { status = running })) s.heap,
  )

-- `swapOut`, `yieldSleeping` and the end of `MainFunc`: the fiber `f` at `h` gives up with a status, and
-- its context is the place `here`.
abbrev pub left : ℕ → Fiber → Status → Context → Fibers → Fibers
left h f st here s = record s {
  heap =
      put h (some (record f { status = st; ctx = here }))
        (put h (some (record f { status = st })) s.heap);
  cur_fiber = s.thread_fiber;
  runs = thread_code;
}

module _ (s : Fibers) (m h : ℕ) (main f : Fiber) (is_main : s.thread_fiber ≡ some m) (other : h ≢ m)
    (at_main : s.heap m ≡ some main) (at_h : s.heap h ≡ some f)
    (waits : main.ctx ≡ suspended thread_code) where
  switch_back :
      (st : Status) (here : Context)
      → swap_context h here m (record s {
        heap = put h (some (record f { status = st })) s.heap;
        cur_fiber = s.thread_fiber;
      })
        ≡ ok (left h f st here s)
  unfolding swap_context
  switch_back st here = rw (
    put_same h (some (record f { status = st })) s.heap,
    ◌>>=◌,
    put_other h (some (record f { status = st; ctx = here }))
        (put h (some (record f { status = st })) s.heap) m (λ e. other (sym e)),
    put_other h (some (record f { status = st })) s.heap m (λ e. other (sym e)),
    at_main,
    waits,
  )

  pub swap_out-left : swap_out h s ≡ ok (left h f runnable (suspended s.runs) s)
  unfolding swap_out set_status
  swap_out-left = rw (at_h, ◌>>=◌, ap deref is_main) (switch_back runnable (suspended s.runs))

  pub yield_sleeping-left : yield_sleeping h s ≡ ok (left h f sleeping (suspended s.runs) s)
  unfolding yield_sleeping set_status
  yield_sleeping-left = rw (at_h, ◌>>=◌, ap deref is_main) (switch_back sleeping (suspended s.runs))

  fiber_exit-left :
      (st : Status)
      → fiber_exit h (record s { heap = put h (some (record f { status = st })) s.heap })
        ≡ ok (left h f st at_exit s)
  unfolding fiber_exit
  fiber_exit-left st = rw (◌>>=◌, ap deref is_main) (switch_back st at_exit)

  pub end_main_func-left :
      (end : End)
      → end_main_func end h s ≡ (status_after end f.cb >>= λ st. ok (left h f st at_exit s))
  unfolding end_main_func set_status
  end_main_func-left end =
      rw (at_h, ◌>>=◌) (>>=-same (status_after end f.cb) (λ st. fiber_exit-left st))
