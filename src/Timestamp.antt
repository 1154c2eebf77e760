-- ===== src/Timestamp.antt =====
-- The class `Timestamp` of timestamp.h and timestamp.cpp.
pub mod Seconds
use cpp_utils.Base.{
  ℕ, suc, ◌+◌, ◌*◌, ◌-◌, ◌^◌, ◌≡◌, ◌↔◌, ◌<◌, refl, arith, Bool, true, false, ltb, ◌==◌, ◌&&◌,
  if◌then◌else◌, Outcome, ok, fault, ◌>>=◌,
}
use cpp_utils.Base.Int.{ℤ, pos, negsuc, pos_part, neg_part, ◌+ℤ◌, ◌-ℤ◌, ltb_ℤ}

-- A result of `long long`: an overflow is undefined.
unfoldable pub int64 : ℤ → Outcome ℤ
int64 (pos n) = if ltb n (2 ^ 63) then ok (pos n) else fault
int64 (negsuc n) = if ltb n (2 ^ 63) then ok (negsuc n) else fault

-- `_microSeconds`
pub record Timestamp : Type 0 where
  pub micro_seconds : ℤ

-- `kMicroSecondsPerSecond`
abbrev pub k_micro_seconds_per_second : ℕ
k_micro_seconds_per_second = 1000 * 1000

-- The product of an `int` with it, which always fits.
abbrev pub in_micro_seconds : ℤ → ℤ
in_micro_seconds (pos n) = pos (n * k_micro_seconds_per_second)
in_micro_seconds (negsuc n) = negsuc (suc n * k_micro_seconds_per_second - 1)

-- `valid()`
abbrev pub valid : Timestamp → Bool
valid t = ltb_ℤ (pos 0) t.micro_seconds

-- `operator<` and `operator==`
abbrev pub less : Timestamp → Timestamp → Bool
less lhs rhs = ltb_ℤ lhs.micro_seconds rhs.micro_seconds

abbrev pub equal : Timestamp → Timestamp → Bool
equal lhs rhs =
    (pos_part lhs.micro_seconds == pos_part rhs.micro_seconds)
    && (neg_part lhs.micro_seconds == neg_part rhs.micro_seconds)

-- `operator-`
unfoldable pub minus : Timestamp → Timestamp → Outcome ℤ
unfolding int64
minus high low = int64 (high.micro_seconds -ℤ low.micro_seconds)

-- `operator+` of two
unfoldable pub plus : Timestamp → Timestamp → Outcome Timestamp
unfolding int64
plus high low =
    int64 (high.micro_seconds +ℤ low.micro_seconds) >>= λ t. ok (record { micro_seconds = t })

-- `operator+` with a number of seconds
unfoldable pub plus_seconds : Timestamp → ℤ → Outcome Timestamp
unfolding int64
plus_seconds high seconds = int64 (high.micro_seconds +ℤ in_micro_seconds seconds) >>= λ t.
    ok (record { micro_seconds = t })

-- `now()`, where `gettimeofday` gives `secs` and `usecs`.
unfoldable pub now : ℕ → ℕ → Outcome Timestamp
unfolding int64
now secs usecs = do
  whole ← int64 (pos (secs * k_micro_seconds_per_second))
  t ← int64 (whole +ℤ pos usecs)
  ok (record { micro_seconds = t })
