-- ===== src/Log/Calendar/Layers.antt =====
-- How the numbers that `FastSecondToDate` of log/logStream.cpp computes move from one day to the
-- next: the century, the year in it, and the month of a year that begins in March.
use cpp_utils.Base.{ℕ, suc, ◌+◌, ◌-◌, ◌*◌, ◌/◌, ◌%◌, ◌≤◌, ◌<◌, ◌≡◌, ◌⊎◌, arith}
use cpp_utils.Log.Calendar.{centuries, day_of_century, years, day_of_year, months}

-- The length of a century: every fourth one has a leap day at its end.
pub century_step :
    (a : ℕ)
    → ((centuries (suc a) ≡ centuries a) × (day_of_century (suc a) ≡ suc (day_of_century a)))
      ⊎ ((centuries (suc a) ≡ suc (centuries a))
          × (day_of_century (suc a) ≡ 0)
          × (day_of_century a ≡ 36523 + centuries a % 4 / 3))
century_step a = omega arith

pub century_bound : (a : ℕ) → day_of_century a ≤ 36523 + centuries a % 4 / 3
century_bound a = omega arith

pub year_step :
    (c : ℕ)
    → ((years (suc c) ≡ years c) × (day_of_year (suc c) ≡ suc (day_of_year c)))
      ⊎ ((years (suc c) ≡ suc (years c))
          × (day_of_year (suc c) ≡ 0)
          × (day_of_year c ≡ 364 + years c % 4 / 3))
year_step c = omega arith

-- The last day of a century lies in its last year.
pub century_end : (c : ℕ) → (c ≡ 36523) ⊎ (c ≡ 36524) → (years c ≡ 99) × (day_of_year c + 36159 ≡ c)
century_end c h = omega arith

-- The months from March on: 0 to 11.
unfoldable pub month_length : ℕ → ℕ
month_length m = (153 * (m + 1) + 2) / 5 - (153 * m + 2) / 5

pub month_step :
    (e : ℕ)
    → e < 366
    → ((months (suc e) ≡ months e) × (suc (e - (153 * months e + 2) / 5) < month_length (months e)))
      ⊎ ((months (suc e) ≡ suc (months e))
          × ((153 * months (suc e) + 2) / 5 ≡ suc e)
          × (suc (e - (153 * months e + 2) / 5) ≡ month_length (months e)))
unfolding month_length
month_step e h = omega arith

pub years_bound : (c : ℕ) → c ≤ 36524 → (years c ≤ 99) × (day_of_year c ≤ 364 + years c % 4 / 3)
years_bound c h = omega arith

pub last_year : (c : ℕ) → years c ≡ 99 → day_of_year c + 36159 ≡ c
last_year c h = omega arith

pub months_end : (x : ℕ) → x ≤ 1 → months (364 + x) ≡ 11
months_end x h = omega arith

pub months_bound : (e : ℕ) → e ≤ 365 → months e ≤ 11
months_bound e h = omega arith

pub february_starts : (e : ℕ) → months e ≡ 11 → 337 ≤ e
february_starts e h = omega arith

pub month_starts-le : (e : ℕ) → (153 * months e + 2) / 5 ≤ e
month_starts-le e = omega arith
