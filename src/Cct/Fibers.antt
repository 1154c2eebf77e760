-- ===== src/Cct/Fibers.antt =====
-- The class `Fiber` of cct/fiber.h and cct/fiber.cpp: the fibers of one thread.
pub mod Machine
use cpp_utils.Base.{
  put, ℕ, suc, ◌+◌, ◌-◌, ◌%◌, ◌^◌, Bool, true, false, Option, none, some, if◌then◌else◌, ◌==◌,
  Outcome, ok, fault, aborted, ◌>>=◌,
}

-- `Fiber::Status`
pub data Status : Type 0 where
  free init runnable running sleeping except : Status

-- A piece of code that runs: that of the thread itself, or `MainFunc` for the fiber at an address.
pub data Code : Type 0 where
  thread_code : Code
  fiber_code : ℕ → Code

-- `ucontext_t`: what `makecontext` makes, the place where a piece of code called `swapcontext`, or the
-- place in `FiberExit` from which it never comes back.
pub data Context : Type 0 where
  at_start : Context
  suspended : Code → Context
  at_exit : Context

-- `id` is the pattern of the 32 bits of `_id`; `cb` is whether there is a callback.
pub record Fiber : Type 0 where
  pub id : ℕ
  pub status : Status
  pub stack_size : ℕ
  pub cb : Bool
  pub ctx : Context

-- The fibers by their addresses, the first address that was never used, `t_curFiber` and
-- `t_threadFiber`, `ids` and `totalFiberCounts`, and the code that runs.
pub record Fibers : Type 0 where
  pub heap : ℕ → Option Fiber
  pub next : ℕ
  pub cur_fiber : Option ℕ
  pub thread_fiber : Option ℕ
  pub ids : ℕ
  pub total : ℕ
  pub runs : Code

-- A thread that has no fiber yet.
abbrev pub no_fibers : ℕ → ℕ → Fibers
no_fibers ids total = record {
  heap = λ _. none;
  next = 0;
  cur_fiber = none;
  thread_fiber = none;
  ids = ids;
  total = total;
  runs = thread_code;
}

-- The object behind a pointer.
abbrev pub at : ℕ → Fibers → Outcome Fiber
at h s = elim (s.heap h) [ none ↦ fault | some f ↦ ok f ]

abbrev pub deref : Option ℕ → Outcome ℕ
deref none = fault
deref (some h) = ok h

-- What both constructors do with the counters and the address.
unfoldable pub allocate : Status → ℕ → Bool → Fibers → ℕ × Fibers
unfolding put
allocate status stack_size cb s = (
  s.next,
  record s {
    heap =
        put s.next
          (some (record {
            id = s.ids;
            status = status;
            stack_size = stack_size;
            cb = cb;
            ctx = at_start;
          }))
          s.heap;
    next = suc s.next;
    ids = (s.ids + 1) % 2 ^ 32;
    total = (s.total + 1) % 2 ^ 32;
  },
)

-- `Fiber()`, with the value of the variable `ucontext.stack_size`
unfoldable pub new_main_fiber : ℕ → Fibers → ℕ × Fibers
unfolding allocate
new_main_fiber config_size s = allocate free config_size false s

-- `Fiber(cb, stackSize)`
unfoldable pub new_fiber : ℕ → Bool → ℕ → Fibers → ℕ × Fibers
unfolding allocate
new_fiber config_size cb stack_size s =
    allocate init (if stack_size == 0 then config_size else stack_size) cb s

-- `assert(_status == FREE || _status == EXCEPT)`
abbrev pub assert_over : Status → Fibers → Outcome Fibers
assert_over free s = ok s
assert_over except s = ok s
assert_over _ s = aborted

-- The object is no more.
abbrev pub gone : ℕ → Fibers → Fibers
gone h s = record s { heap = put h none s.heap; total = (s.total + 2 ^ 32 - 1) % 2 ^ 32 }

-- `~Fiber()`
unfoldable pub destroy : ℕ → Fibers → Outcome Fibers
unfolding put
destroy h s = do f ← at h s; s ← assert_over f.status s; ok (gone h s)

-- `SetThis(f)`
abbrev pub set_this : Option ℕ → Fibers → Fibers
set_this f s = record s { cur_fiber = f }

-- `GetThis()`
unfoldable pub get_this : ℕ → Fibers → Option ℕ × Fibers
unfolding new_main_fiber
get_this config_size s = elim s.thread_fiber [
  | none ↦
      let made = new_main_fiber config_size s in
      (some made.0, set_this (some made.0) (record made.1 { thread_fiber = some made.0 }))
  | some m ↦ (s.cur_fiber, s)
]

-- `_status = status`
unfoldable pub set_status : ℕ → Status → Fibers → Outcome Fibers
unfolding put
set_status h status s = do
  f ← at h s
  ok (record s { heap = put h (some (record f { status = status })) s.heap })

-- The context of the fiber at `to` is taken up. Behind the place in `FiberExit` an assertion fails.
abbrev pub resume : ℕ → Fibers → Context → Outcome Fibers
resume to s at_start = ok (record s { runs = fiber_code to })
resume to s (suspended code) = ok (record s { runs = code })
resume to s at_exit = aborted

-- `swapcontext(&from->_ctx, &to->_ctx)`, where `here` is the place of the call.
unfoldable pub swap_context : ℕ → Context → ℕ → Fibers → Outcome Fibers
unfolding put
swap_context from here to s = do
  f ← at from s
  let s = record s { heap = put from (some (record f { ctx = here })) s.heap }
  t ← at to s
  resume to s t.ctx

-- `swapIn()`
unfoldable pub swap_in : ℕ → Fibers → Outcome Fibers
unfolding set_status swap_context
swap_in h s = do
  let s = set_this (some h) s
  s ← set_status h running s
  m ← deref s.thread_fiber
  swap_context m (suspended s.runs) h s

-- `swapOut()`
unfoldable pub swap_out : ℕ → Fibers → Outcome Fibers
unfolding set_status swap_context
swap_out h s = do
  let s = set_this s.thread_fiber s
  s ← set_status h runnable s
  m ← deref s.thread_fiber
  swap_context h (suspended s.runs) m s

-- `yieldSleeping()`
unfoldable pub yield_sleeping : ℕ → Fibers → Outcome Fibers
unfolding set_status swap_context
yield_sleeping h s = do
  let s = set_this s.thread_fiber s
  s ← set_status h sleeping s
  m ← deref s.thread_fiber
  swap_context h (suspended s.runs) m s

-- `FiberExit(sp)`
unfoldable pub fiber_exit : ℕ → Fibers → Outcome Fibers
unfolding swap_context
fiber_exit h s = do
  let s = set_this s.thread_fiber s
  m ← deref s.thread_fiber
  swap_context h at_exit m s

-- How a callback ends: it returns, it throws an `std::exception`, or it throws something else.
pub data End : Type 0 where
  returned threw threw_other : End

-- The status behind the call of the callback, if there is one.
unfoldable pub status_after : End → Bool → Outcome Status
status_after end false = ok free
status_after returned true = ok free
status_after threw true = ok except
status_after threw_other true = aborted

-- The end of `MainFunc`, where `cur` is `h`.
unfoldable pub end_main_func : End → ℕ → Fibers → Outcome Fibers
unfolding status_after set_status fiber_exit
end_main_func end h s = do
  f ← at h s
  status ← status_after end f.cb
  s ← set_status h status s
  fiber_exit h s
