-- ===== src/Log/Calendar/Dates.antt =====
-- A calendar that is counted day by day from 1 January 1970, and a day of it in the parts that
-- log/logStream.cpp's `FastSecondToDate` computes.
use native.Mathlib.Nat.{le_refl}
use cpp_utils.Base.{
  ℕ, zero, suc, ◌+◌, ◌-◌, ◌*◌, ◌/◌, ◌%◌, ◌≤◌, ◌<◌, ◌≡◌, arith, Bool, not, ◌&&◌, ◌||◌, ltb, lt→ltb,
  ltb_ge, ◌==◌, if◌then◌else◌,
}
use cpp_utils.Log.Calendar.{Tm}
use cpp_utils.Log.Calendar.Layers.{month_length}

pub record Civil : Type 0 where
  pub year : ℕ
  pub month : ℕ
  pub day : ℕ

abbrev pub is_leap : ℕ → Bool
is_leap y = (y % 4 == 0) && (not (y % 100 == 0) || (y % 400 == 0))

abbrev pub days_in_month : ℕ → ℕ → ℕ
days_in_month y m =
    if m == 2
    then (if is_leap y then 29 else 28)
    else if (m == 4 || m == 6) || (m == 9 || m == 11)
    then 30
    else 31

unfoldable pub next_day : Civil → Civil
next_day t =
    if ltb t.day (days_in_month t.year t.month)
    then record t { day = suc t.day }
    else if ltb t.month 12
    then record t { month = suc t.month; day = 1 }
    else record { year = suc t.year; month = 1; day = 1 }

-- The date `n` days after the epoch.
unfoldable pub date_after : ℕ → Civil
date_after zero = record { year = 1970; month = 1; day = 1 }
date_after (suc n) = next_day (date_after n)

-- The date that the fields of a `struct tm` stand for.
abbrev pub civil : Tm → Civil
civil t = record { year = t.tm_year + 1900; month = t.tm_mon + 1; day = t.tm_mday }

-- The same from its parts.
abbrev pub assembled : (b d m day : ℕ) → Civil
assembled b d m day = record {
  year = b * 100 + d + m / 10 - 6700 + 1900;
  month = m + 2 - m / 10 * 12 + 1;
  day = day;
}

-- The leap day of the year that begins in March of year `d` of century `b`.
abbrev pub leap_day : ℕ → ℕ → ℕ
leap_day b d = if d == 99 then b % 4 / 3 else d % 4 / 3

pub february :
    (b d : ℕ)
    → d ≤ 99
    → 67 ≤ b
    → days_in_month (b * 100 + d + 1 - 6700 + 1900) 2 ≡ 28 + leap_day b d
february b d h k = ground arith

pub other_month : (y m : ℕ) → m < 11 → days_in_month y (m + 2 - m / 10 * 12 + 1) ≡ month_length m
unfolding month_length
other_month y m h = ground arith

-- The next day within a month, behind the end of a month but February, and behind February.
pub next_day_within :
    (b d m day : ℕ)
    → day < days_in_month (b * 100 + d + m / 10 - 6700 + 1900) (m + 2 - m / 10 * 12 + 1)
    → next_day (assembled b d m day) ≡ assembled b d m (suc day)
unfolding next_day
next_day_within b d m day h = rw (lt→ltb day _ h)

pub next_day_month :
    (b d m : ℕ)
    → 67 ≤ b
    → m < 11
    → next_day (assembled b d m (month_length m)) ≡ assembled b d (suc m) 1
unfolding next_day
next_day_month b d m hb hm =
    rw
      (other_month (b * 100 + d + m / 10 - 6700 + 1900) m hm, ltb_ge (month_length m) _ (le_refl _))
      (ground arith)

pub next_day_february :
    (b d : ℕ)
    → 67 ≤ b
    → d ≤ 99
    → next_day (assembled b d 11 (28 + leap_day b d)) ≡ assembled b (suc d) 0 1
unfolding next_day
next_day_february b d hb hd =
    rw (february b d hd hb, ltb_ge (28 + leap_day b d) _ (le_refl _)) (ground arith)

pub leap_day-le : (b d : ℕ) → leap_day b d ≤ 1
leap_day-le b d = ground arith
