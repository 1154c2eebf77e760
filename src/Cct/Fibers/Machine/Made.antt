-- ===== src/Cct/Fibers/Machine/Made.antt =====
-- Fibers are made and destroyed, and a thread gets its main fiber.
use cpp_utils.Base.{
  put_same, put_other, put-cases, put, some_injective, ok_injective, ℕ, suc, ◌≤◌, ◌≡◌, ◌≢◌, refl,
  sym, ap, ◌∙◌, subst, inl, inr, arith, Bool, Option, none, some, Option-cases, ok, ◌>>=◌,
  >>=-eq-ok,
}
use cpp_utils.Cct.Fibers.{
  Status, free, init, runnable, running, sleeping, except, Code, thread_code, fiber_code, at_start,
  Fiber, Fibers, new_fiber, get_this, destroy, gone, assert_over, new_main_fiber,
}
use cpp_utils.Cct.Fibers.Machine.{Saved, IsOver, current, MainSaved, Executed, Started, IsValid}
use cpp_utils.Cct.Fibers.Machine.Kept.{put_unused}

-- A new object is at an address that was not used, and what is at the others stays.
module _ (s : Fibers) (unused : (h : ℕ) → s.next ≤ h → s.heap h ≡ none) (o : Option Fiber) where
  made_elsewhere : (h : ℕ) (f : Fiber) → s.heap h ≡ some f → put s.next o s.heap h ≡ some f
  made_elsewhere h f at_h =
      put_other s.next o s.heap h (λ e. cc (unused s.next (omega arith), at_h, ap s.heap e)) ∙ at_h

  made_unused : (h : ℕ) → suc s.next ≤ h → put s.next o s.heap h ≡ none
  made_unused h le = put_other s.next o s.heap h (λ e. omega (arith, e)) ∙ unused h (omega arith)

put-Executed :
    (s : Fibers) (m : ℕ) (unused : (h : ℕ) → s.next ≤ h → s.heap h ≡ none) (o : Option Fiber)
    (r : Code)
    → Executed m r s.heap
    → Executed m r (put s.next o s.heap)
put-Executed s m unused o thread_code executed = tt
put-Executed s m unused o (fiber_code h) (other, f, at_h, runs) =
    (other, f, made_elsewhere s unused o h f at_h, runs)

-- `Fiber(cb, stackSize)` makes a fiber that nothing has run of.
pub new_fiber-IsValid :
    (config_size : ℕ) (cb : Bool) (stack_size : ℕ) (s : Fibers)
    → IsValid s
    → IsValid (new_fiber config_size cb stack_size s).1
unfolding new_fiber
new_fiber-IsValid config_size cb stack_size s (inl unstarted) = inl (record {
  no_main = unstarted.no_main;
  no_cur = unstarted.no_cur;
  thread_runs = unstarted.thread_runs;
  all_new = λ h f found. elim (put-cases s.next _ s.heap h f found) [
    | inl (_, same) ↦
        subst (λ (x : Fiber). (x.status ≡ init) × (x.ctx ≡ at_start)) (some_injective f _ f same)
          (refl, refl)
    | inr (_, found') ↦ unstarted.all_new h f found'
  ];
  unused = made_unused s unstarted.unused _;
})
new_fiber-IsValid config_size cb stack_size s (inr (m, started)) =
    let (main, at_main, saved) = started.main_fiber in
    inr (
      m,
      record {
        main_is = started.main_is;
        cur_is = started.cur_is;
        main_fiber = (main, made_elsewhere s started.unused _ m main at_main, saved);
        executed = put-Executed s m started.unused _ s.runs started.executed;
        others = λ h f not_main found. elim (put-cases s.next _ s.heap h f found) [
          | inl (_, same) ↦
              subst (λ (x : Fiber). Saved x.status s.runs h x.ctx) (some_injective f _ f same) refl
          | inr (_, found') ↦ started.others h f not_main found'
        ];
        unused = made_unused s started.unused _;
      },
    )

thread_Executed : (m : ℕ) (r : Code) (heap : ℕ → Option Fiber) → r ≡ thread_code → Executed m r heap
thread_Executed m r heap e = subst (λ (c : Code). Executed m c heap) (sym e) tt

-- `GetThis()` gives a thread its main fiber.
pub get_this-IsValid :
    (config_size : ℕ) (s : Fibers) → IsValid s → IsValid (get_this config_size s).1
unfolding get_this new_main_fiber
get_this-IsValid config_size s (inl unstarted) =
    rw (unstarted.no_main, get_this)
      (inr (
        s.next,
        record {
          main_is = refl;
          cur_is = ap (λ r. some (current s.next r)) (sym unstarted.thread_runs);
          main_fiber = (
            _,
            put_same s.next _ s.heap,
            subst (λ r. MainSaved r at_start) (sym unstarted.thread_runs) tt,
          );
          executed =
              thread_Executed s.next s.runs (new_main_fiber config_size s).1.heap
                unstarted.thread_runs;
          others = λ h f not_main found. elim (put-cases s.next _ s.heap h f found) [
            | inl (e, _) ↦ absurd (not_main e)
            | inr (_, found') ↦
                let (is_init, start) = unstarted.all_new h f found' in
                subst (λ st. Saved st s.runs h f.ctx) (sym is_init) start
          ];
          unused = made_unused s unstarted.unused _;
        },
      ))
get_this-IsValid config_size s (inr (m, started)) =
    rw (started.main_is, get_this) (inr (m, started))

assert_over-IsOver : (st : Status) (s s' : Fibers) → assert_over st s ≡ ok s' → IsOver st × (s ≡ s')
assert_over-IsOver free s s' e = (tt, ok_injective s s s' e)
assert_over-IsOver except s s' e = (tt, cc e)
assert_over-IsOver init s s' e = cc e
assert_over-IsOver runnable s s' e = cc e
assert_over-IsOver running s s' e = cc e
assert_over-IsOver sleeping s s' e = cc e

-- A fiber that is destroyed is there, and over.
destroyed :
    (s s' : Fibers) (h : ℕ)
    → destroy h s ≡ ok s'
    → (f : Fiber) × (s.heap h ≡ some f) × IsOver f.status × (gone h s ≡ s')
unfolding destroy
destroyed s s' h e = elim (Option-cases (s.heap h)) [
  | inl absent ↦ cc (rw (absent, ◌>>=◌) at e)
  | inr (f, at_h) ↦
      let (s1, asserted, ends) = >>=-eq-ok (assert_over f.status s) _ (rw (at_h, ◌>>=◌) at e) in
      let (over, same) = assert_over-IsOver f.status s s1 asserted in
      (f, at_h, over, cc (same, ends))
]

-- What is left behind the end of a fiber.
gone-Started :
    (s : Fibers) (m h : ℕ) (f : Fiber)
    → Started m s
    → h ≢ m
    → s.runs ≢ fiber_code h
    → s.heap h ≡ some f
    → Started m (gone h s)
gone-Started s m h f started other not_run at_h =
    let (main, at_main, saved) = started.main_fiber in
    record {
      main_is = started.main_is;
      cur_is = started.cur_is;
      main_fiber = (main, put_other h none s.heap m (λ e. other (sym e)) ∙ at_main, saved);
      executed = executed_elsewhere s.runs started.executed not_run;
      others = λ i g not_main found. elim (put-cases h none s.heap i g found) [
        | inl (_, absent) ↦ cc absent
        | inr (_, found') ↦ started.others i g not_main found'
      ];
      unused = λ i le. put_unused h i none s.heap f at_h (started.unused i le);
    }
  where
    executed_elsewhere :
        (r : Code) → Executed m r s.heap → r ≢ fiber_code h → Executed m r (put h none s.heap)
    executed_elsewhere thread_code executed differ = tt
    executed_elsewhere (fiber_code g) (not_main, f', at_g, runs) differ =
        (not_main, f', put_other h none s.heap g (λ e. differ (ap fiber_code e)) ∙ at_g, runs)

-- Destroying a fiber that is not the main one and does not run keeps the invariant.
pub destroy-IsValid :
    (s s' : Fibers) (h : ℕ)
    → s.runs ≢ fiber_code h
    → s.thread_fiber ≢ some h
    → destroy h s ≡ ok s'
    → IsValid s
    → IsValid s'
destroy-IsValid s s' h not_run not_main e (inl unstarted) =
    let (f, at_h, over, _) = destroyed s s' h e in
    absurd (subst IsOver (unstarted.all_new h f at_h).0 over)
destroy-IsValid s s' h not_run not_main e (inr (m, started)) =
    let (f, at_h, over, same) = destroyed s s' h e in
    subst IsValid same (
      inr (
        m,
        gone-Started s m h f started (λ is_main. not_main (started.main_is ∙ ap some (sym is_main)))
            not_run at_h,
      ))
