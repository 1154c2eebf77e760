-- ===== src/Cct/Fibers/Machine/Switch.antt =====
-- What a switch between the code of the thread and a fiber does, by the status of the fiber.
use cpp_utils.Base.{
  put_same, ℕ, ◌≡◌, ◌≢◌, refl, ap, ◌∙◌, subst, inl, inr, ◌⊎◌, Bool, true, false, some, Outcome, ok,
  aborted, ◌>>=◌,
}
use cpp_utils.Cct.Fibers.{
  Status, free, init, runnable, running, sleeping, except, thread_code, fiber_code, Context,
  suspended, at_exit, Fiber, Fibers, swap_in, swap_out, yield_sleeping, End, returned, threw,
  threw_other, end_main_func, status_after, resume,
}
use cpp_utils.Cct.Fibers.Machine.{
  Saved, IsOver, MainSaved, Executed, Started, entered, swap_in-context, left, swap_out-left,
  yield_sleeping-left, end_main_func-left,
}
use cpp_utils.Cct.Fibers.Machine.Kept.{entered-Started, left-Started}

no_thread : {h : ℕ} → thread_code ≡ fiber_code h → ⊥
no_thread e = cc

-- What is taken up by `swapIn`, by the status of the fiber.
resume-cases :
    (s : Fibers) (h : ℕ) (st : Status) (c : Context)
    → Saved st thread_code h c
    → (IsOver st × (resume h s c ≡ aborted))
      ⊎ ((IsOver st → ⊥) × (resume h s c ≡ ok (record s { runs = fiber_code h })))
resume-cases s h init c saved = inr (λ over. over, ap (resume h s) saved)
resume-cases s h runnable c saved = inr (λ over. over, ap (resume h s) saved)
resume-cases s h sleeping c saved = inr (λ over. over, ap (resume h s) saved)
resume-cases s h running c saved = absurd (no_thread saved)
resume-cases s h free c saved = inl (tt, ap (resume h s) saved)
resume-cases s h except c saved = inl (tt, ap (resume h s) saved)

module _ (s : Fibers) (m h : ℕ) (f : Fiber) (started : Started m s) (other : h ≢ m)
    (at_h : s.heap h ≡ some f) where
  -- The code of the thread switches to a fiber. If `MainFunc` of the fiber is over, an assertion fails.
  -- Otherwise the code of that fiber runs, and it is the current one.
  pub swap_in_lem :
      s.runs ≡ thread_code
      → (IsOver f.status × (swap_in h s ≡ aborted))
        ⊎ ((IsOver f.status → ⊥)
            × (s' : Fibers) × (swap_in h s ≡ ok s')
            × Started m s'
            × (s'.runs ≡ fiber_code h)
            × (s'.cur_fiber ≡ some h))
  swap_in_lem thread =
      let (main, at_main, _) = started.main_fiber in
      let after = entered m h main f s in
      let e = swap_in-context s m h main f started.main_is other at_main at_h in
      elim (resume-cases (record after { runs = s.runs }) h f.status f.ctx
        (subst (λ r. Saved f.status r h f.ctx) thread (started.others h f other at_h))) [
          | inl (over, aborts) ↦ inl (over, e ∙ aborts)
          | inr (not_over, enters) ↦ inr (
            not_over,
            after,
            e ∙ enters,
            entered-Started s m h main f started other at_main at_h thread,
            refl,
            refl,
          )
        ]

-- A status behind a callback goes with a context that is over.
abbrev SavedOf : ℕ → Outcome Status → Type 0
SavedOf h (ok st) = Saved st thread_code h at_exit
SavedOf h _ = Unit

status_after-SavedOf : (h : ℕ) (end : End) (cb : Bool) → SavedOf h (status_after end cb)
unfolding status_after
status_after-SavedOf h end false = refl
status_after-SavedOf h returned true = refl
status_after-SavedOf h threw true = refl
status_after-SavedOf h threw_other true = tt

status_after-Saved :
    (h : ℕ) (end : End) (cb : Bool) (st : Status)
    → status_after end cb ≡ ok st
    → Saved st thread_code h at_exit
status_after-Saved h end cb st e = subst (SavedOf h) e (status_after-SavedOf h end cb)

-- The code of the thread runs again, and the fiber at `h` has this status.
abbrev pub Back : ℕ → ℕ → Status → Fibers → Type 0
Back m h st s =
    Started m s
    × (s.runs ≡ thread_code)
    × (s.cur_fiber ≡ some m)
    × ((f : Fiber) × (s.heap h ≡ some f) × (f.status ≡ st))

-- What the end of `MainFunc` comes to: without a callback the status is FREE. With one it is FREE if
-- the callback returns, and EXCEPT if it throws an `std::exception`; what else it throws ends the
-- process.
abbrev pub Ended : ℕ → ℕ → Fibers → Bool → Type 0
Ended m h s false = (end : End) → (s' : Fibers) × (end_main_func end h s ≡ ok s') × Back m h free s'
Ended m h s true =
    ((s' : Fibers) × (end_main_func returned h s ≡ ok s') × Back m h free s')
    × ((s' : Fibers) × (end_main_func threw h s ≡ ok s') × Back m h except s')
    × (end_main_func threw_other h s ≡ aborted)

module _ (s : Fibers) (m h : ℕ) (started : Started m s) (runs : s.runs ≡ fiber_code h) where
  -- The fiber that runs, and the main one.
  both :
      (h ≢ m)
      × (f : Fiber) × (main : Fiber) × (s.heap h ≡ some f)
      × (s.heap m ≡ some main)
      × (main.ctx ≡ suspended thread_code)
  both =
      let (other, f, at_h, _) = subst (λ r. Executed m r s.heap) runs started.executed in
      let (main, at_main, saved) = started.main_fiber in
      (other, f, main, at_h, at_main, subst (λ r. MainSaved r main.ctx) runs saved)

  left-Back :
      (f main : Fiber) (st : Status) (here : Context)
      → h ≢ m
      → s.heap h ≡ some f
      → s.heap m ≡ some main
      → Saved st thread_code h here
      → Back m h st (left h f st here s)
  left-Back f main st here other at_h at_main saved = (
    left-Started s m h main f started other at_main at_h st here runs saved,
    refl,
    started.main_is,
    (record f { status = st; ctx = here }, put_same h _ _, refl),
  )

  -- The fiber that runs switches back to the code of the thread, by `swapOut` or `yieldSleeping`: the
  -- code of the thread runs, the main fiber is the current one, and the status says which it was. When
  -- its callback ends, the status is FREE or EXCEPT, unless it throws what is no `std::exception`, which
  -- ends the process.
  pub give_up_lem :
      ((s' : Fibers) × (swap_out h s ≡ ok s') × Back m h runnable s')
      × ((s' : Fibers) × (yield_sleeping h s ≡ ok s') × Back m h sleeping s')
      × ((end : End) (f : Fiber) (st : Status)
          → s.heap h ≡ some f
          → status_after end f.cb ≡ ok st
          → (s' : Fibers) × (end_main_func end h s ≡ ok s') × Back m h st s')
  give_up_lem =
      let (other, f, main, at_h, at_main, waits) = both in
      (
        (
          left h f runnable (suspended s.runs) s,
          swap_out-left s m h main f started.main_is other at_main at_h waits,
          left-Back f main runnable (suspended s.runs) other at_h at_main (ap suspended runs),
        ),
        (
          left h f sleeping (suspended s.runs) s,
          yield_sleeping-left s m h main f started.main_is other at_main at_h waits,
          left-Back f main sleeping (suspended s.runs) other at_h at_main (ap suspended runs),
        ),
        λ end g st at_h' e. (
          left h g st at_exit s,
          end_main_func-left s m h main g started.main_is other at_main at_h' waits end
              ∙ rw (e, ◌>>=◌),
          left-Back g main st at_exit other at_h' at_main (status_after-Saved h end g.cb st e),
        ),
      )

  pub end_main_func-Ended : (f : Fiber) → s.heap h ≡ some f → Ended m h s f.cb
  unfolding status_after
  end_main_func-Ended f at_h = ended f.cb refl
    where
      ended : (cb : Bool) → f.cb ≡ cb → Ended m h s cb
      ended false e = let (_, _, ends) = give_up_lem in λ end. ends end f free at_h (rw e refl)
      ended true e =
          let (other, _, main, _, at_main, waits) = both in
          let (_, _, ends) = give_up_lem in
          (
            ends returned f free at_h (rw e refl),
            ends threw f except at_h (rw e refl),
            end_main_func-left s m h main f started.main_is other at_main at_h waits threw_other
                ∙ rw (e, ◌>>=◌),
          )
