-- ===== src/Cct/Fibers/Machine/Steps.antt =====
-- The steps of a thread with fibers, where the fibers are used as cct/fiber.h says: the code of the
-- thread switches to a fiber, and a fiber only back to it.
use cpp_utils.Base.{
  ok_injective, ℕ, ◌≡◌, ◌≢◌, refl, sym, ap, ◌∙◌, subst, inl, inr, Bool, some, Option-cases, Outcome,
  ok, ◌>>=◌, >>=-eq-ok,
}
use cpp_utils.Cct.Fibers.{
  Status, thread_code, fiber_code, Fiber, Fibers, set_status, swap_in, swap_out, yield_sleeping,
  End, end_main_func, new_fiber, get_this, destroy, no_fibers, status_after,
}
use cpp_utils.Cct.Fibers.Machine.{Started, IsValid}
use cpp_utils.Cct.Fibers.Machine.Switch.{swap_in_lem, give_up_lem, Back}
use cpp_utils.Cct.Fibers.Machine.Made.{new_fiber-IsValid, get_this-IsValid, destroy-IsValid}

-- `config_size` is the value of `ucontext.stack_size`.
pub data Step (config_size : ℕ) : Fibers → Fibers → Type 0 where
  creates :
      {s : Fibers} (cb : Bool) (stack_size : ℕ)
      → Step config_size s (new_fiber config_size cb stack_size s).1
  gets : {s : Fibers} → Step config_size s (get_this config_size s).1
  swaps_in :
      {s s' : Fibers} (h : ℕ)
      → s.runs ≡ thread_code
      → s.thread_fiber ≢ some h
      → swap_in h s ≡ ok s'
      → Step config_size s s'
  swaps_out :
      {s s' : Fibers} (h : ℕ) → s.runs ≡ fiber_code h → swap_out h s ≡ ok s' → Step config_size s s'
  sleeps :
      {s s' : Fibers} (h : ℕ)
      → s.runs ≡ fiber_code h
      → yield_sleeping h s ≡ ok s'
      → Step config_size s s'
  ends :
      {s s' : Fibers} (end : End) (h : ℕ)
      → s.runs ≡ fiber_code h
      → end_main_func end h s ≡ ok s'
      → Step config_size s s'
  destroys :
      {s s' : Fibers} (h : ℕ)
      → s.runs ≢ fiber_code h
      → s.thread_fiber ≢ some h
      → destroy h s ≡ ok s'
      → Step config_size s s'

pub data Reachable (config_size : ℕ) : Fibers → Type 0 where
  begins : (ids total : ℕ) → Reachable config_size (no_fibers ids total)
  then_step :
      {s s' : Fibers} → Reachable config_size s → Step config_size s s' → Reachable config_size s'

module _ (s s' : Fibers) (h : ℕ) where
  -- `swapIn` keeps the invariant.
  swap_in-IsValid :
      s.runs ≡ thread_code → s.thread_fiber ≢ some h → swap_in h s ≡ ok s' → IsValid s → IsValid s'
  unfolding swap_in set_status
  swap_in-IsValid thread not_main e (inl unstarted) = elim (Option-cases (s.heap h)) [
    | inl absent ↦ cc (rw (absent, ◌>>=◌) at e)
    | inr (f, at_h) ↦ cc (rw (at_h, ◌>>=◌, unstarted.no_main) at e)
  ]
  swap_in-IsValid thread not_main e (inr (m, started)) = elim (Option-cases (s.heap h)) [
    | inl absent ↦ cc (rw (absent, ◌>>=◌) at e)
    | inr (f, at_h) ↦
        elim (swap_in_lem s m h f started
          (λ is_main. not_main (started.main_is ∙ ap some (sym is_main))) at_h thread) [
            | inl (_, aborts) ↦ cc (aborts, e)
            | inr (_, after, enters, started', _, _) ↦
                inr (m, subst (Started m) (ok_injective after after s' (sym enters ∙ e)) started')
          ]
  ]

  -- A fiber that runs belongs to a thread that has a main one.
  fiber_runs : s.runs ≡ fiber_code h → IsValid s → (m : ℕ) × Started m s
  fiber_runs runs (inl unstarted) = cc (runs, unstarted.thread_runs)
  fiber_runs runs (inr valid) = valid

  given_up :
      {st : Status} {call : Outcome Fibers} (m : ℕ)
      → ((after : Fibers) × (call ≡ ok after) × Back m h st after)
      → call ≡ ok s'
      → IsValid s'
  given_up m (after, gives, (started, _, _, _)) e =
      inr (m, subst (Started m) (ok_injective after after s' (sym gives ∙ e)) started)

-- Where `MainFunc` comes to its end, the callback has returned or thrown an `std::exception`.
end_main_func-returns :
    (s s' : Fibers) (h : ℕ) (end : End)
    → end_main_func end h s ≡ ok s'
    → (f : Fiber) × (st : Status) × (s.heap h ≡ some f) × (status_after end f.cb ≡ ok st)
unfolding end_main_func
end_main_func-returns s s' h end e = elim (Option-cases (s.heap h)) [
  | inl absent ↦ cc (rw (absent, ◌>>=◌) at e)
  | inr (f, at_h) ↦
      let (st, status, _) = >>=-eq-ok (status_after end f.cb) _ (rw (at_h, ◌>>=◌) at e) in
      (f, st, at_h, status)
]

-- Every step keeps the invariant.
Step-IsValid : (config_size : ℕ) {s s' : Fibers} → Step config_size s s' → IsValid s → IsValid s'
Step-IsValid config_size {s = s} (creates cb stack_size) valid =
    new_fiber-IsValid config_size cb stack_size s valid
Step-IsValid config_size {s = s} gets valid = get_this-IsValid config_size s valid
Step-IsValid config_size {s = s} {s' = s'} (swaps_in h thread not_main e) valid =
    swap_in-IsValid s s' h thread not_main e valid
Step-IsValid config_size {s = s} {s' = s'} (swaps_out h runs e) valid =
    let (m, started) = fiber_runs s s' h runs valid in
    let (outs, _, _) = give_up_lem s m h started runs in given_up s s' h m outs e
Step-IsValid config_size {s = s} {s' = s'} (sleeps h runs e) valid =
    let (m, started) = fiber_runs s s' h runs valid in
    let (_, sleeps_now, _) = give_up_lem s m h started runs in given_up s s' h m sleeps_now e
Step-IsValid config_size {s = s} {s' = s'} (ends end h runs e) valid =
    let (m, started) = fiber_runs s s' h runs valid in
    let (_, _, over) = give_up_lem s m h started runs in
    let (f, st, at_h, status) = end_main_func-returns s s' h end e in
    given_up s s' h m (over end f st at_h status) e
Step-IsValid config_size {s = s} {s' = s'} (destroys h not_run not_main e) valid =
    destroy-IsValid s s' h not_run not_main e valid

-- In each state that the steps lead to from a thread without fibers, the invariant holds.
pub Reachable-IsValid : (config_size : ℕ) (s : Fibers) → Reachable config_size s → IsValid s
Reachable-IsValid config_size s (begins ids total) = inl (record {
  no_main = refl;
  no_cur = refl;
  thread_runs = refl;
  all_new = λ h f found. cc found;
  unused = λ h le. refl;
})
Reachable-IsValid config_size s (then_step {s = s0} reachable step) =
    Step-IsValid config_size step (Reachable-IsValid config_size s0 reachable)
