-- ===== src/Cct/Threads/Starting/Examples.antt =====
-- A thread that is started and joined.
use cpp_utils.Base.{ℕ, ◌≤◌, ◌≡◌, refl}
use cpp_utils.Cct.Semaphore.{wait, wakeup}
use cpp_utils.Cct.Threads.Starting.{
  behind_start, behind_join, at_entry, exited, Handshake, not_started, creates, wakes, prepares,
  runs_routine, ends, returns, joins, Reachable, begins, then_step,
}
use cpp_utils.Cct.Threads.Starting.Kept.{handshake_lem}

abbrev joined_state : Handshake
joined_state = record {
  caller = behind_join;
  child = exited;
  count = 0;
  tid = 7;
  runs = 1;
  signals = 0;
}

joined_reached : Reachable 7 joined_state
unfolding wait wakeup
joined_reached =
    then_step
      (then_step
        (then_step
          (then_step
            (then_step (then_step (then_step {s = not_started} begins (creates refl)) (wakes refl))
              (prepares refl))
            (returns {count = 0} refl refl))
          (runs_routine refl))
        (ends refl))
      (joins refl refl)

handshake_lem_example :
    (2 ≤ 3 → ◌≡◌ {A = ℕ} 0 0 → 2 ≤ 5)
    × (3 ≤ 5 → ◌≡◌ {A = ℕ} 7 7)
    × (joined_state.caller ≡ behind_join → (◌≡◌ {A = ℕ} 7 7) × (◌≡◌ {A = ℕ} 1 1))
    × ((t : Handshake) × Reachable 7 t × (t.caller ≡ behind_start) × (t.signals ≡ 0) × (t.tid ≡ 0))
    × ((t : Handshake) × Reachable 7 t × (t.caller ≡ behind_start) × (t.child ≡ at_entry))
handshake_lem_example = handshake_lem 7 joined_state joined_reached
