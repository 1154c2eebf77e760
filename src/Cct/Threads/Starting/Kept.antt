-- ===== src/Cct/Threads/Starting/Kept.antt =====
-- cct/thread.cpp: what holds of a thread that is started and joined, in each state that it comes to.
use cpp_utils.Base.{
  ℕ, zero, suc, ◌≤◌, ◌<◌, ◌≡◌, refl, sym, ap, subst, arith, false, some, some_injective,
}
use cpp_utils.Cct.Semaphore.{wait, wakeup}
use cpp_utils.Cct.Threads.Starting.{
  Caller, before_start, in_wait, behind_start, behind_join, Child, not_made, at_entry, awake,
  prepared, routine_done, exited, Handshake, not_started, Step, creates, wakes, prepares,
  runs_routine, ends, returns, interrupted, joins, Reachable, begins, then_step,
}

-- How far each thread has come.
abbrev pub child_rank : Child → ℕ
child_rank not_made = 0
child_rank at_entry = 1
child_rank awake = 2
child_rank prepared = 3
child_rank routine_done = 4
child_rank exited = 5

abbrev pub caller_rank : Caller → ℕ
caller_rank before_start = 0
caller_rank in_wait = 1
caller_rank behind_start = 2
caller_rank behind_join = 3

-- What holds in each state that is reached.
pub record IsValid (id : ℕ) (s : Handshake) : Type 0 where
  pub unmade : caller_rank s.caller ≡ 0 → child_rank s.child ≡ 0
  pub made : 1 ≤ caller_rank s.caller → 1 ≤ child_rank s.child
  pub unsignalled : caller_rank s.caller ≤ 1 → s.signals ≡ 0
  pub one_signal : s.signals ≤ 1
  pub asleep : child_rank s.child ≤ 1 → s.count ≡ 0
  pub left : caller_rank s.caller ≤ 1 → 2 ≤ child_rank s.child → s.count ≡ 1
  pub kept : 2 ≤ caller_rank s.caller → 2 ≤ child_rank s.child → s.count ≡ s.signals
  pub too_early : 2 ≤ caller_rank s.caller → child_rank s.child ≤ 1 → s.signals ≡ 1
  pub unnamed : child_rank s.child ≤ 2 → s.tid ≡ 0
  pub named : 3 ≤ child_rank s.child → s.tid ≡ id
  pub not_run : child_rank s.child ≤ 3 → s.runs ≡ 0
  pub run : 4 ≤ child_rank s.child → s.runs ≡ 1
  pub joined : caller_rank s.caller ≡ 3 → child_rank s.child ≡ 5

wait-count : (count n : ℕ) → wait false count ≡ some n → count ≡ suc n
unfolding wait
wait-count zero n e = cc
wait-count (suc count) n e = ap suc (some_injective count count n e)

-- The new thread goes on, once it has woken the other one.
goes_on-IsValid :
    (id : ℕ) (s : Handshake) (child : Child) (runs : ℕ)
    → IsValid id s
    → 2 ≤ child_rank s.child
    → child_rank s.child < child_rank child
    → (child_rank child ≤ 3 → runs ≡ 0)
    → (4 ≤ child_rank child → runs ≡ 1)
    → IsValid id (record s { child = child; tid = id; runs = runs })
goes_on-IsValid id s child runs v r up few one = record {
  unmade = λ h. ground (arith, h, r, v.unmade);
  made = λ h. omega (arith, r, up);
  unsignalled = v.unsignalled;
  one_signal = v.one_signal;
  asleep = λ h. absurd (omega (arith, h, r, up));
  left = λ h h'. v.left h r;
  kept = λ h h'. v.kept h r;
  too_early = λ h h'. absurd (omega (arith, h', r, up));
  unnamed = λ h. absurd (omega (arith, h, r, up));
  named = λ h. refl;
  not_run = few;
  run = one;
  joined = λ h. absurd (at_end (v.joined h) child up);
}
  where
    at_end : {n : ℕ} → n ≡ 5 → (child : Child) → n < child_rank child → ⊥
    at_end e not_made up = omega (arith, e, up)
    at_end e at_entry up = omega (arith, e, up)
    at_end e awake up = omega (arith, e, up)
    at_end e prepared up = omega (arith, e, up)
    at_end e routine_done up = omega (arith, e, up)
    at_end e exited up = omega (arith, e, up)

Step-IsValid : (id : ℕ) {s t : Handshake} → Step id s t → IsValid id s → IsValid id t
unfolding wakeup wait
Step-IsValid id {s} (creates p) v =
    let c = ap caller_rank p in
    record {
      unmade = λ h. ground (arith, h);
      made = λ h. ground arith;
      unsignalled = λ h. ground (arith, c, v.unsignalled);
      one_signal = v.one_signal;
      asleep = λ h. ground (arith, c, v.unmade, v.asleep);
      left = λ h h'. ground (arith, h');
      kept = λ h. ground (arith, h);
      too_early = λ h. ground (arith, h);
      unnamed = λ h. ground (arith, c, v.unmade, v.unnamed);
      named = λ h. ground (arith, h);
      not_run = λ h. ground (arith, c, v.unmade, v.not_run);
      run = λ h. ground (arith, h);
      joined = λ h. ground (arith, h);
    }
Step-IsValid id {s} (wakes p) v =
    let r = ap child_rank p in
    record {
      unmade = λ h. ground (arith, h, r, v.unmade);
      made = λ h. ground arith;
      unsignalled = v.unsignalled;
      one_signal = v.one_signal;
      asleep = λ h. ground (arith, h);
      left = λ h h'. ground (arith, r, v.asleep);
      kept = λ h h'. ground (arith, r, h, v.asleep, v.too_early);
      too_early = λ h h'. ground (arith, h');
      unnamed = λ h. ground (arith, r, v.unnamed);
      named = λ h. ground (arith, h);
      not_run = λ h. ground (arith, r, v.not_run);
      run = λ h. ground (arith, h);
      joined = λ h. ground (arith, h, r, v.joined);
    }
Step-IsValid id {s} (prepares p) v =
    let r = ap child_rank p in
    goes_on-IsValid id s prepared s.runs v (omega (arith, r)) (omega (arith, r))
      (λ _. v.not_run (omega (arith, r))) (λ h. absurd (omega (arith, h)))
Step-IsValid id {s} (runs_routine p) v =
    let r = ap child_rank p in
    subst (λ tid. IsValid id (record s { child = routine_done; tid = tid; runs = suc s.runs }))
      (sym (v.named (omega (arith, r))))
      (goes_on-IsValid id s routine_done (suc s.runs) v (omega (arith, r)) (omega (arith, r))
        (λ h. absurd (omega (arith, h))) (λ _. ap suc (v.not_run (omega (arith, r)))))
Step-IsValid id {s} (ends p) v =
    let r = ap child_rank p in
    subst (λ tid. IsValid id (record s { child = exited; tid = tid }))
      (sym (v.named (omega (arith, r))))
      (goes_on-IsValid id s exited s.runs v (omega (arith, r)) (omega (arith, r))
        (λ h. absurd (omega (arith, h))) (λ _. v.run (omega (arith, r))))
Step-IsValid id {s} (returns {count} p e) v =
    let c = ap caller_rank p in
    let n = wait-count s.count count e in
    record {
      unmade = λ h. ground (arith, h);
      made = λ h. ground (arith, c, v.made);
      unsignalled = λ h. ground (arith, h);
      one_signal = v.one_signal;
      asleep = λ h. ground (arith, h, n, v.asleep);
      left = λ h. ground (arith, h);
      kept = λ h h'. ground (arith, h', n, c, v.left, v.unsignalled);
      too_early = λ h h'. ground (arith, h', n, v.asleep);
      unnamed = v.unnamed;
      named = v.named;
      not_run = v.not_run;
      run = v.run;
      joined = λ h. ground (arith, h);
    }
Step-IsValid id {s} (interrupted {count} p e) v =
    let c = ap caller_rank p in
    let n : s.count ≡ count = some_injective s.count s.count count e in
    record {
      unmade = λ h. ground (arith, h);
      made = λ h. ground (arith, c, v.made);
      unsignalled = λ h. ground (arith, h);
      one_signal = ground (arith, c, v.unsignalled);
      asleep = λ h. ground (arith, h, n, v.asleep);
      left = λ h. ground (arith, h);
      kept = λ h h'. ground (arith, h', n, c, v.left, v.unsignalled);
      too_early = λ h h'. ground (arith, c, v.unsignalled);
      unnamed = v.unnamed;
      named = v.named;
      not_run = v.not_run;
      run = v.run;
      joined = λ h. ground (arith, h);
    }
Step-IsValid id {s} (joins p p') v =
    let c = ap caller_rank p in
    let r = ap child_rank p' in
    record {
      unmade = λ h. ground (arith, h);
      made = λ h. ground (arith, r);
      unsignalled = λ h. ground (arith, h);
      one_signal = v.one_signal;
      asleep = v.asleep;
      left = λ h. ground (arith, h);
      kept = λ h h'. ground (arith, h', c, v.kept);
      too_early = λ h h'. ground (arith, h', r);
      unnamed = v.unnamed;
      named = v.named;
      not_run = v.not_run;
      run = v.run;
      joined = λ h. r;
    }

Reachable-IsValid : (id : ℕ) {s : Handshake} → Reachable id s → IsValid id s
Reachable-IsValid id begins = record {
  unmade = λ h. refl;
  made = λ h. absurd (omega (arith, h));
  unsignalled = λ h. refl;
  one_signal = omega arith;
  asleep = λ h. refl;
  left = λ h h'. absurd (omega (arith, h'));
  kept = λ h. absurd (omega (arith, h));
  too_early = λ h. absurd (omega (arith, h));
  unnamed = λ h. refl;
  named = λ h. absurd (omega (arith, h));
  not_run = λ h. refl;
  run = λ h. absurd (omega (arith, h));
  joined = λ h. absurd (omega (arith, h));
}
Reachable-IsValid id (then_step reachable step) =
    Step-IsValid id step (Reachable-IsValid id reachable)

-- In whatever order the two threads go on: behind a `start()` whose wait no signal has ended, the new
-- thread has begun; the routine runs with `_tid` set; and behind `join()` the routine has run once, and
-- `_tid` is the number of the thread. But `start()` may return before `_tid` is set, and if a signal
-- comes, before the new thread has done anything.
pub handshake_lem :
    (id : ℕ) (s : Handshake)
    → Reachable id s
    → (2 ≤ caller_rank s.caller → s.signals ≡ 0 → 2 ≤ child_rank s.child)
      × (3 ≤ child_rank s.child → s.tid ≡ id)
      × (s.caller ≡ behind_join → (s.tid ≡ id) × (s.runs ≡ 1))
      × ((t : Handshake) × Reachable id t
          × (t.caller ≡ behind_start)
          × (t.signals ≡ 0)
          × (t.tid ≡ 0))
      × ((t : Handshake) × Reachable id t × (t.caller ≡ behind_start) × (t.child ≡ at_entry))
unfolding wakeup wait
handshake_lem id s reachable =
    let v = Reachable-IsValid id reachable in
    let made = then_step {s = not_started} begins (creates refl) in
    (
      (λ h e. ground (arith, h, e, v.too_early)),
      v.named,
      (λ p.
          let r = v.joined (ap caller_rank p) in
          (v.named (omega (arith, r)), v.run (omega (arith, r)))),
      (
        _,
        then_step (then_step made (wakes refl)) (returns {count = 0} refl refl),
        refl,
        refl,
        refl,
      ),
      (_, then_step made (interrupted {count = 0} refl refl), refl, refl),
    )
