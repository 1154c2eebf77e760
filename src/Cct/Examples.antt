-- ===== src/Cct/Examples.antt =====
-- Runs of cct/ on concrete input, and the theorems there.
use cpp_utils.Base.{ℕ, map, All, ◌++◌, ◌≡◌, ◌↔◌, refl, ◌⊎◌, true, some, Outcome, ok, aborted}
use cpp_utils.Base.Int.{pos}
use cpp_utils.Cct.Threads.{Thread}
use cpp_utils.Cct.Pool.{Routine, with_threads}
use cpp_utils.Cct.Pool.Made.{names_from, IsNew, with_threads_lem}
use cpp_utils.Cct.Fibers.{
  Status, init, runnable, running, sleeping, thread_code, fiber_code, at_start, Fiber, Fibers,
  no_fibers, new_fiber, get_this, swap_in, swap_out, yield_sleeping, set_status, swap_context,
  returned, end_main_func, fiber_exit, status_after,
}
use cpp_utils.Cct.Fibers.Machine.{IsOver}
use cpp_utils.Cct.Fibers.Machine.Switch.{Back, Ended}
use cpp_utils.Cct.Fibers.Machine.Steps.{creates, gets, swaps_in, Reachable, begins, then_step}
use cpp_utils.Cct.Fibers.Machine.Reached.{running_lem, swap_in-reached, give_up-reached}

abbrev state_of : Outcome Fibers → Fibers
state_of (ok s) = s
state_of _ = no_fibers 0 0

-- A thread with a fiber, at 0, and the main one, at 1; the code of the thread runs.
abbrev ready : Fibers
ready = (get_this 100 (new_fiber 100 true 0 (no_fibers 0 0)).1).1

-- The fiber runs.
abbrev inside : Fibers
inside = state_of (swap_in 0 ready)

ready_reached : Reachable 100 ready
ready_reached = then_step (then_step (begins 0 0) (creates true 0)) gets

inside_reached : Reachable 100 inside
unfolding swap_in set_status swap_context get_this new_fiber
inside_reached = then_step ready_reached (swaps_in 0 refl (λ e. cc e) refl)

abbrev fiber_in : Status → Fiber
fiber_in st = record { id = 0; status = st; stack_size = 100; cb = true; ctx = at_start }

running_lem_example :
    ((running ≡ running) ↔ (inside.runs ≡ fiber_code 0))
    × (running ≡ running → inside.cur_fiber ≡ some 0)
unfolding swap_in set_status swap_context get_this new_fiber
running_lem_example = running_lem 100 inside inside_reached 0 (fiber_in running) refl (λ e. cc e)

swap_in-reached_example :
    (IsOver init × (swap_in 0 ready ≡ aborted))
    ⊎ ((IsOver init → ⊥)
        × (s' : Fibers) × (swap_in 0 ready ≡ ok s')
        × (s'.runs ≡ fiber_code 0)
        × (s'.cur_fiber ≡ some 0))
unfolding get_this new_fiber
swap_in-reached_example =
    swap_in-reached 100 ready ready_reached 1 0 (fiber_in init) refl refl (λ e. cc e) refl

give_up-reached_example :
    ((s' : Fibers) × (swap_out 0 inside ≡ ok s') × Back 1 0 runnable s')
    × ((s' : Fibers) × (yield_sleeping 0 inside ≡ ok s') × Back 1 0 sleeping s')
    × Ended 1 0 inside true
unfolding swap_in set_status swap_context get_this new_fiber
give_up-reached_example =
    give_up-reached 100 inside inside_reached 1 0 (fiber_in running) refl refl refl

-- A fiber whose callback has returned is switched to again.
swap_in_over_run :
    (state_of (end_main_func returned 0 inside)).runs ≡ thread_code
    × (swap_in 0 (state_of (end_main_func returned 0 inside)) ≡ aborted)
unfolding swap_in set_status swap_context get_this new_fiber end_main_func fiber_exit status_after
swap_in_over_run = (refl, refl)

with_threads_lem_example :
    let p = (with_threads {A = ℕ} (pos 9) 5).0 in
    (p.num_threads ≡ 6)
    × (map (λ (t : Thread Routine). t.name) p.threads
        ≡ names_from p.num_threads 0 ++ names_from p.num_threads 0)
    × All IsNew p.threads
with_threads_lem_example = with_threads_lem ℕ (pos 9) 5
