-- ===== src/Cct/Fibers/Machine/Reached.antt =====
-- What holds of the fibers of a thread in each state that it comes to.
use cpp_utils.Base.{
  some_injective, ℕ, ◌≡◌, ◌≢◌, ◌↔◌, sym, ap, ◌∙◌, subst, inl, inr, ◌⊎◌, some, ok, aborted,
}
use cpp_utils.Cct.Fibers.{
  runnable, running, sleeping, thread_code, fiber_code, Fiber, Fibers, swap_in, swap_out,
  yield_sleeping,
}
use cpp_utils.Cct.Fibers.Machine.{Saved, IsOver, current, Executed, Started, IsValid}
use cpp_utils.Cct.Fibers.Machine.Switch.{swap_in_lem, give_up_lem, Back, Ended, end_main_func-Ended}
use cpp_utils.Cct.Fibers.Machine.Steps.{Reachable, Reachable-IsValid}

-- A state with a main fiber is valid by way of it.
thread_fiber-Started : (s : Fibers) (m : ℕ) → IsValid s → s.thread_fiber ≡ some m → Started m s
thread_fiber-Started s m (inl unstarted) is_main = cc (unstarted.no_main, is_main)
thread_fiber-Started s m (inr (m', started)) is_main =
    subst (λ x. Started x s) (some_injective m m' m (sym started.main_is ∙ is_main)) started

module _ (config_size : ℕ) (s : Fibers) (reachable : Reachable config_size s) where
  -- In a state that is reached, a fiber other than the main one has the status RUNNING just if its
  -- code is what runs, so at most one has it; and that fiber is the current one.
  pub running_lem :
      (h : ℕ) (f : Fiber)
      → s.heap h ≡ some f
      → s.thread_fiber ≢ some h
      → ((f.status ≡ running) ↔ (s.runs ≡ fiber_code h))
        × (f.status ≡ running → s.cur_fiber ≡ some h)
  running_lem h f at_h not_main = elim (Reachable-IsValid config_size s reachable) [
    | inl unstarted ↦
        let (is_init, _) = unstarted.all_new h f at_h in
        ((λ e. cc (is_init, e), λ e. cc (unstarted.thread_runs, e)), λ e. cc (is_init, e))
    | inr (m, started) ↦
        let differ : h ≢ m = λ e. not_main (started.main_is ∙ ap some (sym e)) in
        let runs = λ (e : f.status ≡ running).
          subst (λ st. Saved st s.runs h f.ctx) e (started.others h f differ at_h) in
        (
          (
            runs,
            λ e.
                let (_, g, at_h', status) = subst (λ r. Executed m r s.heap) e started.executed in
                subst (λ (x : Fiber). x.status ≡ running) (some_injective g g f (sym at_h' ∙ at_h))
                  status,
          ),
          λ e. started.cur_is ∙ ap (λ r. some (current m r)) (runs e),
        )
  ]

  -- In a state that is reached, where the code of the thread runs, and there is a main fiber, `swapIn`
  -- of another fiber makes the code of that fiber run, as the current one, if it is not over, and is
  -- the failure of an assertion if its status is FREE or EXCEPT.
  pub swap_in-reached :
      (m h : ℕ) (f : Fiber)
      → s.thread_fiber ≡ some m
      → s.runs ≡ thread_code
      → h ≢ m
      → s.heap h ≡ some f
      → (IsOver f.status × (swap_in h s ≡ aborted))
        ⊎ ((IsOver f.status → ⊥)
            × (s' : Fibers) × (swap_in h s ≡ ok s')
            × (s'.runs ≡ fiber_code h)
            × (s'.cur_fiber ≡ some h))
  swap_in-reached m h f is_main thread other at_h =
      let started = thread_fiber-Started s m (Reachable-IsValid config_size s reachable) is_main in
      elim (swap_in_lem s m h f started other at_h thread) [
        | inl aborts ↦ inl aborts
        | inr (not_over, s', e, _, runs, cur) ↦ inr (not_over, s', e, runs, cur)
      ]

  -- In a state that is reached, where the code of a fiber runs, each way in which it gives up works: the
  -- code of the thread runs then, the main fiber is the current one, and the status of the fiber is
  -- RUNNABLE after `swapOut`, SLEEPING after `yieldSleeping`, FREE after the return of its callback, or
  -- if it has none, and EXCEPT if the callback throws an `std::exception`. Anything else that the
  -- callback throws ends the process.
  pub give_up-reached :
      (m h : ℕ) (f : Fiber)
      → s.thread_fiber ≡ some m
      → s.runs ≡ fiber_code h
      → s.heap h ≡ some f
      → ((s' : Fibers) × (swap_out h s ≡ ok s') × Back m h runnable s')
        × ((s' : Fibers) × (yield_sleeping h s ≡ ok s') × Back m h sleeping s')
        × Ended m h s f.cb
  give_up-reached m h f is_main runs at_h =
      let started = thread_fiber-Started s m (Reachable-IsValid config_size s reachable) is_main in
      let (swapped, slept, _) = give_up_lem s m h started runs in
      (swapped, slept, end_main_func-Ended s m h started runs f at_h)
