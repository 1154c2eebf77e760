-- ===== src/Cct/Fibers/Machine/Kept.antt =====
-- The switches between the code of the thread and a fiber keep the invariant.
use cpp_utils.Base.{
  put_same, put_other, put-cases, put, some_injective, ℕ, ◌≡◌, ◌≢◌, refl, sym, ap, ◌∙◌, subst, inl,
  inr, Option, none, some,
}
use cpp_utils.Cct.Fibers.{
  Status, running, thread_code, fiber_code, Context, suspended, Fiber, Fibers,
}
use cpp_utils.Cct.Fibers.Machine.{Saved, Started, Saved-enter, Saved-leave, entered, left}

-- A change at an address in use leaves the others unused.
pub put_unused :
    (h i : ℕ) (o : Option Fiber) (heap : ℕ → Option Fiber) (f : Fiber)
    → heap h ≡ some f
    → heap i ≡ none
    → put h o heap i ≡ none
put_unused h i o heap f at_h at_i = put_other h o heap i (λ e. cc (at_h, at_i, e)) ∙ at_i

module _ (s : Fibers) (m h : ℕ) (main f : Fiber) (started : Started m s) (other : h ≢ m)
    (at_main : s.heap m ≡ some main) (at_h : s.heap h ≡ some f) where
  main_at : (o : Option Fiber) → put h o s.heap m ≡ some main
  main_at o = put_other h o s.heap m (λ e. other (sym e)) ∙ at_main

  pub entered-Started : s.runs ≡ thread_code → Started m (entered m h main f s)
  entered-Started thread = record {
    main_is = started.main_is;
    cur_is = refl;
    main_fiber = (record main { ctx = suspended s.runs }, put_same m _ _, ap suspended thread);
    executed =
        (other, record f { status = running }, put_other m _ _ h other ∙ put_same h _ s.heap, refl);
    others = λ i g not_main found. elim (put-cases m _ _ i g found) [
      | inl (e, _) ↦ absurd (not_main e)
      | inr (_, found') ↦ elim (put-cases h _ s.heap i g found') [
        | inl (e, same) ↦
            subst (λ (x : Fiber). Saved x.status (fiber_code h) i x.ctx) (some_injective f _ g same)
              (ap fiber_code (sym e))
        | inr (_, found'') ↦
            Saved-enter g.status (fiber_code h) i g.ctx
              (subst (λ r. Saved g.status r i g.ctx) thread (started.others i g not_main found''))
      ]
    ];
    unused = λ i le.
        put_unused m i _ _ main (main_at _) (put_unused h i _ s.heap f at_h (started.unused i le));
  }

  pub left-Started :
      (st : Status) (here : Context)
      → s.runs ≡ fiber_code h
      → Saved st thread_code h here
      → Started m (left h f st here s)
  left-Started st here runs saved = record {
    main_is = started.main_is;
    cur_is = started.main_is;
    main_fiber = (main, put_other h _ _ m (λ e. other (sym e)) ∙ main_at _, tt);
    executed = tt;
    others = λ i g not_main found. elim (put-cases h _ _ i g found) [
      | inl (e, same) ↦
          subst (λ (x : Fiber). Saved x.status thread_code i x.ctx) (some_injective f _ g same)
            (subst (λ j. Saved st thread_code j here) (sym e) saved)
      | inr (not_h, found') ↦ elim (put-cases h _ s.heap i g found') [
        | inl (e, _) ↦ absurd (not_h e)
        | inr (_, found'') ↦
            Saved-leave g.status h i g.ctx not_h
              (subst (λ r. Saved g.status r i g.ctx) runs (started.others i g not_main found''))
      ]
    ];
    unused = λ i le.
        put_unused h i _ _ (record f { status = st }) (put_same h _ s.heap)
          (put_unused h i _ s.heap f at_h (started.unused i le));
  }
