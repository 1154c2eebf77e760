-- ===== src/Mq/Fifo.antt =====
-- itc/mq.h: first in, first out, and no thread sleeps while there is a message.
use cpp_utils.Base.{
  ℕ, ◌≡◌, ◌≢◌, refl, sym, ap, ◌∙◌, none, some, List, [], ◌∷◌, ◌++◌, append_assoc, append-nil, arith,
}
use cpp_utils.Mq.{
  Mq, push, call_pull, test_queue, spurious_wakeup, pop_all, clear, Step, pushed, called, slept,
  pulled, woken, cleared, Run, at_start, later,
}

module _ {ℓ} {A : Type ℓ} where
  pop_all_lem : (xs : List A) → pop_all xs ≡ []
  unfolding pop_all
  pop_all_lem [] = refl
  pop_all_lem (x ∷ xs) = pop_all_lem xs

  -- What `test_queue` comes to.
  test_queue_slept :
      (others : ℕ) (s : Mq A)
      → (test_queue others s).0 ≡ none
      → (s.q ≡ []) × ((test_queue others s).1.q ≡ s.q)
  unfolding test_queue
  test_queue_slept others s e = go s.q refl
    where
      go : (xs : List A) → s.q ≡ xs → (s.q ≡ []) × ((test_queue others s).1.q ≡ s.q)
      go [] h = (h, ground (arith, h))
      go (x ∷ xs) h = ground (arith, h, e)

  test_queue_pulled :
      (others : ℕ) (item : A) (s : Mq A)
      → (test_queue others s).0 ≡ some item
      → (s.q ≡ item ∷ (test_queue others s).1.q) × ((test_queue others s).1.asleep ≡ s.asleep)
  unfolding test_queue
  test_queue_pulled others item s e = go s.q refl
    where
      go :
          (xs : List A)
          → s.q ≡ xs
          → (s.q ≡ item ∷ (test_queue others s).1.q) × ((test_queue others s).1.asleep ≡ s.asleep)
      go [] h = ground (arith, h, e)
      go (x ∷ xs) h = ground (arith, h, e)

  step-queue : {i o d : List A} {s t : Mq A} → Step i o d s t → s.q ++ i ≡ o ++ (d ++ t.q)
  unfolding push call_pull spurious_wakeup clear
  step-queue (pushed item) = refl
  step-queue called = append-nil _
  step-queue (slept others {s} awake e) = append-nil _ ∙ sym (test_queue_slept others s e).1
  step-queue (pulled others item {s} awake e) = append-nil _ ∙ (test_queue_pulled others item s e).0
  step-queue (woken others asleep) = append-nil _
  step-queue (cleared {s}) = ap (◌++◌ s.q) (sym (pop_all_lem s.q))

  cons_nil : {x : A} {xs : List A} → x ∷ xs ≡ [] → ⊥
  cons_nil h = cc

  -- No thread sleeps while there is something to pull.
  abbrev NoneAsleep : Mq A → Type ℓ
  NoneAsleep s = s.q ≢ [] → s.asleep ≡ 0

  step-NoneAsleep : {i o d : List A} {s t : Mq A} → Step i o d s t → NoneAsleep s → NoneAsleep t
  unfolding push call_pull spurious_wakeup clear
  step-NoneAsleep (pushed item) h full = refl
  step-NoneAsleep called h full = h full
  step-NoneAsleep (slept others {s} awake e) h full =
      let (empty, same) = test_queue_slept others s e in absurd (full (same ∙ empty))
  step-NoneAsleep (pulled others item {s} awake e) h full =
      let (q, same) = test_queue_pulled others item s e in same ∙ h (λ nil. cons_nil (sym q ∙ nil))
  step-NoneAsleep (woken others {s} asleep) h full = omega (arith, asleep, h full)
  step-NoneAsleep (cleared {s}) h full = absurd (full (pop_all_lem s.q))

  -- In whatever order threads push, pull, sleep, wake up and clear: what has left the queue and what
  -- is in it are together all that was pushed, in order; and while there is a message no thread
  -- waits at the condition variable.
  pub run-fifo :
      {sent gone : List A} {s : Mq A}
      → Run sent gone s
      → (gone ++ s.q ≡ sent) × (s.q ≢ [] → s.asleep ≡ 0)
  run-fifo at_start = (refl, λ full. refl)
  run-fifo (later {sent} {gone} {i} {o} {d} {s} {t} run step) =
      let (order, rest) = run-fifo run in
      (
        append_assoc gone (o ++ d) t.q
            ∙ ap (◌++◌ gone) (append_assoc o d t.q ∙ sym (step-queue step))
            ∙ sym (append_assoc gone s.q i)
            ∙ ap (λ l. l ++ i) order,
        step-NoneAsleep step rest,
      )
