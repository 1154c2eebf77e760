-- ===== src/Cct/Condition.antt =====
-- The class `Condition` of cct/condition.h: the threads that wait, and the time up to which
-- `waitForSecs` waits.
use cpp_utils.Base.{
  ℕ, suc, ◌+◌, ◌*◌, ◌/◌, ◌%◌, ◌<◌, ◌-◌, ◌≡◌, ap, ◌∙◌, le→leb, arith, zero, ◌≤◌, Bool, not, ◌==◌,
  if◌then◌else◌,
}
use cpp_utils.Base.Int.{ℤ, pos, negsuc, ◌+ℤ◌}

abbrev pub k_nano_seconds_per_second : ℕ
k_nano_seconds_per_second = 1000000000

-- Division of C++ rounds towards zero.
abbrev negated : ℕ → ℤ
negated zero = pos 0
negated (suc n) = negsuc n

abbrev quotient : ℤ → ℤ
quotient (pos n) = pos (n / k_nano_seconds_per_second)
quotient (negsuc n) = negated (suc n / k_nano_seconds_per_second)

abbrev remainder : ℤ → ℤ
remainder (pos n) = pos (n % k_nano_seconds_per_second)
remainder (negsuc n) = negated (suc n % k_nano_seconds_per_second)

-- `secs * kNanoSecondsPerSecond`, which fits 64 bits
abbrev pub nano_seconds : ℤ → ℤ
nano_seconds (pos n) = pos (n * k_nano_seconds_per_second)
nano_seconds (negsuc n) = negsuc (suc n * k_nano_seconds_per_second - 1)

-- `tv_sec` and `tv_nsec` of `abstime` in `waitForSecs(secs)`, from those that the clock gives.
unfoldable pub deadline : ℕ → ℕ → ℤ → ℤ × ℤ
deadline tv_sec tv_nsec secs =
    let sum = pos tv_nsec +ℤ nano_seconds secs in (pos tv_sec +ℤ quotient sum, remainder sum)

pos_add : (a b : ℕ) → pos a +ℤ pos b ≡ pos (a + b)
pos_add a b = rw (le→leb 0 (a + b) (omega arith)) (ap pos (omega arith))

-- For a number of seconds that is not negative, the time is that number of seconds after now.
pub deadline_lem :
    (tv_sec tv_nsec secs : ℕ)
    → tv_nsec < k_nano_seconds_per_second
    → deadline tv_sec tv_nsec (pos secs) ≡ (pos (tv_sec + secs), pos tv_nsec)
unfolding deadline
deadline_lem tv_sec tv_nsec secs h =
    let k = k_nano_seconds_per_second in
    let sum = pos_add tv_nsec (secs * k) in
    let whole : (tv_nsec + secs * k) / k ≡ secs = omega (arith, h) in
    let part : (tv_nsec + secs * k) % k ≡ tv_nsec = omega (arith, h) in
    let seconds =
      ap (λ z. pos tv_sec +ℤ quotient z) sum
      ∙ ap (λ n. pos tv_sec +ℤ pos n) whole
      ∙ pos_add tv_sec secs in
    let rest = ap remainder sum ∙ ap pos part in λ i. (seconds i, rest i)

-- The threads that wait at the condition, and those that have come back from it.
pub record Waiters : Type 0 where
  pub asleep : ℕ
  pub awake : ℕ

-- `wait()` of one more thread, up to the point where it sleeps.
unfoldable pub wait : Waiters → Waiters
wait w = record w { asleep = suc w.asleep }

-- `wakeup()`: one thread, if there is one, comes back.
unfoldable pub wakeup : Waiters → Waiters
wakeup w = record { asleep = w.asleep - 1; awake = if w.asleep == 0 then w.awake else suc w.awake }

-- `wakeupAll()`
unfoldable pub wakeup_all : Waiters → Waiters
wakeup_all w = record { asleep = 0; awake = w.awake + w.asleep }

-- What `waitForSecs` makes of the error number that the call of pthreads returns, as a `bool`.
abbrev pub timed_out : ℕ → Bool
timed_out error = not (error == 0)

-- `wakeup` calls as often as threads wait wake as many as `wakeupAll`; a further one is lost.
pub wakeup_times : ℕ → Waiters → Waiters
wakeup_times zero w = w
wakeup_times (suc n) w = wakeup_times n (wakeup w)

wakeup_times_lem :
    (n : ℕ) (w : Waiters)
    → w.asleep ≤ n
    → ((wakeup_times n w).asleep ≡ (wakeup_all w).asleep)
      × ((wakeup_times n w).awake ≡ (wakeup_all w).awake)
unfolding wakeup_times wakeup wakeup_all
wakeup_times_lem zero w h = (omega (arith, h), omega (arith, h))
wakeup_times_lem (suc n) w h =
    let (asleep, awake) = wakeup_times_lem n (wakeup w) (omega (arith, h)) in
    (asleep, awake ∙ moved w.asleep)
  where
    moved : (k : ℕ) → (if k == 0 then w.awake else suc w.awake) + (k - 1) ≡ w.awake + k
    moved k = ground arith
