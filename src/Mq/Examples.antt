-- ===== src/Mq/Examples.antt =====
-- A run of itc/mq.h.
use cpp_utils.Base.{ℕ, ◌≡◌, ◌≢◌, refl, [], ◌∷◌, ◌++◌}
use cpp_utils.Mq.{Mq, push, call_pull, test_queue, pushed, called, pulled, Run, at_start, later}
use cpp_utils.Mq.Fifo.{run-fifo}

abbrev one_left : Mq ℕ
one_left = record { q = 8 ∷ []; asleep = 0; awake = 0 }

-- Two messages come, and a thread pulls one.
abbrev short_run : Run (7 ∷ 8 ∷ []) (7 ∷ []) one_left
unfolding push call_pull test_queue
short_run =
    later {sent = 7 ∷ 8 ∷ []} {gone = []} {i = []} {o = 7 ∷ []} {d = []}
      (later {sent = 7 ∷ 8 ∷ []} {gone = []} {i = []} {o = []} {d = []}
        (later {sent = 7 ∷ []} {gone = []} {i = 8 ∷ []} {o = []} {d = []}
          (later {sent = []} {gone = []} {i = 7 ∷ []} {o = []} {d = []} at_start (pushed 7))
          (pushed 8))
        called)
      (pulled 0 7 {s = record { q = 7 ∷ 8 ∷ []; asleep = 0; awake = 1 }} refl refl)

run-fifo_example : ((7 ∷ []) ++ one_left.q ≡ 7 ∷ 8 ∷ []) × (one_left.q ≢ [] → one_left.asleep ≡ 0)
run-fifo_example = run-fifo short_run
