-- ===== src/Mq.antt =====
-- The class `MQ` of itc/mq.h: a queue between threads. A thread that pulls from an empty queue waits
-- at the condition variable until a push wakes it, or for no reason.
pub mod Fifo
mod Examples
use cpp_utils.Base.{ℕ, suc, ◌+◌, ◌≡◌, Option, none, some, List, [], ◌∷◌, ◌++◌}

-- `asleep` threads wait at `_cond`; `awake` ones are in `pull` too, and will test the queue when they
-- have the lock.
pub record Mq {ℓ} (A : Type ℓ) : Type ℓ where
  pub q : List A
  pub asleep : ℕ
  pub awake : ℕ

module _ {ℓ} {A : Type ℓ} where
  abbrev pub new_mq : Mq A
  new_mq = record { q = []; asleep = 0; awake = 0 }

  -- `push(data)`: `wakeupAll` wakes every thread that waits.
  unfoldable pub push : A → Mq A → Mq A
  push item s = record { q = s.q ++ (item ∷ []); asleep = 0; awake = s.awake + s.asleep }

  -- A thread calls `pull`.
  unfoldable pub call_pull : Mq A → Mq A
  call_pull s = record s { awake = suc s.awake }

  -- A thread in `pull` that has got the lock, `others` more being awake: it sleeps if the queue is
  -- empty, and returns the front otherwise.
  unfoldable pub test_queue : ℕ → Mq A → Option A × Mq A
  test_queue others s = elim s.q [
    | [] ↦ (none, record s { asleep = suc s.asleep; awake = others })
    | item ∷ rest ↦ (some item, record s { q = rest; awake = others })
  ]

  -- A wakeup without a push, by which one of `suc others` sleeping threads comes back.
  unfoldable pub spurious_wakeup : ℕ → Mq A → Mq A
  spurious_wakeup others s = record s { asleep = others; awake = suc s.awake }

  -- The loop of `clear()`
  unfoldable pub pop_all : List A → List A
  pop_all [] = []
  pop_all (item ∷ rest) = pop_all rest

  unfoldable pub clear : Mq A → Mq A
  unfolding pop_all
  clear s = record s { q = pop_all s.q }

  -- What a thread does while it has the lock. The labels are what comes into the queue, what pullers
  -- get from it, and what `clear` drops.
  pub data Step : List A → List A → List A → Mq A → Mq A → Type ℓ where
    pushed : (item : A) {s : Mq A} → Step (item ∷ []) [] [] s (push item s)
    called : {s : Mq A} → Step [] [] [] s (call_pull s)
    slept :
        (others : ℕ) {s : Mq A}
        → s.awake ≡ suc others
        → (test_queue others s).0 ≡ none
        → Step [] [] [] s (test_queue others s).1
    pulled :
        (others : ℕ) (item : A) {s : Mq A}
        → s.awake ≡ suc others
        → (test_queue others s).0 ≡ some item
        → Step [] (item ∷ []) [] s (test_queue others s).1
    woken :
        (others : ℕ) {s : Mq A} → s.asleep ≡ suc others → Step [] [] [] s (spurious_wakeup others s)
    cleared : {s : Mq A} → Step [] [] s.q s (clear s)

  -- Steps from the empty queue: all that was pushed, and all that has left the queue, in order.
  pub data Run : List A → List A → Mq A → Type ℓ where
    at_start : Run [] [] new_mq
    later :
        {sent gone i o d : List A} {s t : Mq A}
        → Run sent gone s
        → Step i o d s t
        → Run (sent ++ i) (gone ++ (o ++ d)) t
