-- ===== src/Log/Calendar.antt =====
-- `FastSecondToDate` of log/logStream.cpp: the calendar fields of a Unix time. The time and
-- the time zone are not negative. Each quotient of a negative number in the source is of the form `(-x) / 4`, which C++
-- rounds towards zero: it is `-(x / 4)`, and is subtracted here.
pub mod Layers
pub mod Dates
pub mod Days
use cpp_utils.Base.{ℕ, zero, suc, ◌+◌, ◌-◌, ◌*◌, ◌/◌, ◌%◌}

-- The fields of `struct tm` that the function sets.
pub record Tm : Type 0 where
  pub tm_sec : ℕ
  pub tm_min : ℕ
  pub tm_hour : ℕ
  pub tm_mday : ℕ
  pub tm_mon : ℕ
  pub tm_year : ℕ

-- `b`, `c`, `d`, `e` and `m` of the source.
abbrev pub centuries : ℕ → ℕ
centuries a = (a * 4 + 3) / 146097

abbrev pub day_of_century : ℕ → ℕ
day_of_century a = a - centuries a * 146097 / 4

abbrev pub years : ℕ → ℕ
years c = (c * 4 + 3) / 1461

abbrev pub day_of_year : ℕ → ℕ
day_of_year c = c - years c * 1461 / 4

abbrev pub months : ℕ → ℕ
months e = (5 * e + 2) / 153

-- The date of `a`, the days since 1 March of the year -4800.
abbrev pub date_fields : (sec min hour a : ℕ) → Tm
date_fields sec min hour a =
    let b = centuries a in
    let c = day_of_century a in
    let d = years c in
    let e = day_of_year c in
    let m = months e in
    record {
      tm_sec = sec;
      tm_min = min;
      tm_hour = hour;
      tm_mday = e + 1 - (153 * m + 2) / 5;
      tm_mon = m + 2 - m / 10 * 12;
      tm_year = b * 100 + d + m / 10 - 6700;
    }

-- `FastSecondToDate`, for times whose minutes fit an `int`: then every other `int` of it is in range
-- as well, if `time_zone` is a number of hours.
unfoldable pub fast_second_to_date : ℕ → ℕ → Tm
fast_second_to_date unix_sec time_zone =
    let i = unix_sec / 60 in
    let hours = i / 60 + time_zone in
    date_fields (unix_sec % 60) (i % 60) (hours % 24) (hours / 24 + 2472632)
