-- ===== src/Log/Calendar/Days.antt =====
-- The calendar dates of log/logStream.cpp's `FastSecondToDate` against a calendar that is counted
-- day by day from 1 January 1970.
use cpp_utils.Base.{
  ℕ, zero, suc, ◌+◌, ◌-◌, ◌*◌, ◌/◌, ◌%◌, ◌≤◌, ◌^◌, ◌<◌, ◌≡◌, refl, sym, ap, subst, ◌∙◌, ◌⊎◌, inl,
  inr, arith,
}
use cpp_utils.Log.Calendar.{
  centuries, day_of_century, years, day_of_year, months, date_fields, fast_second_to_date,
}
use cpp_utils.Log.Calendar.Layers.{
  century_step, century_bound, year_step, century_end, month_length, month_step, years_bound,
  last_year, months_end, months_bound, february_starts, month_starts-le,
}
use cpp_utils.Log.Calendar.Dates.{
  Civil, next_day, date_after, civil, assembled, leap_day, february, other_month, next_day_within,
  next_day_month, next_day_february, leap_day-le, days_in_month,
}

-- The date that the source computes from the day `a`.
abbrev computed : ℕ → Civil
computed a = civil (date_fields 0 0 0 a)

-- The day of the month that `e` falls on.
abbrev month_day : ℕ → ℕ
month_day e = e + 1 - (153 * months e + 2) / 5

-- A day of the year that is not the last one lies before the end of its month, or ends it.
day_fits :
    (b d e : ℕ)
    → 67 ≤ b
    → d ≤ 99
    → suc e ≤ 364 + leap_day b d
    → month_day e < month_length (months e)
    → month_day e
      < days_in_month
          (b * 100 + d + months e / 10 - 6700 + 1900)
          (months e + 2 - months e / 10 * 12 + 1)
day_fits b d e hb hd he inside =
    elim (split (months e) (months_bound e (omega (arith, leap_day-le b d)))) [
      | inl early ↦
          rw (other_month (b * 100 + d + months e / 10 - 6700 + 1900) (months e) early) inside
      | inr last ↦
          let day : e + 1 - (153 * 11 + 2) / 5 < 28 + leap_day b d =
            omega (arith, february_starts e last) in
          rw (last, february b d hd hb) day
    ]
  where
    split : (m : ℕ) → m ≤ 11 → (m < 11) ⊎ (m ≡ 11)
    split m h = omega arith

-- One day further within a year of March.
next_day_in_year :
    (b d e : ℕ)
    → 67 ≤ b
    → d ≤ 99
    → suc e ≤ 364 + leap_day b d
    → next_day (assembled b d (months e) (month_day e))
      ≡ assembled b d (months (suc e)) (month_day (suc e))
next_day_in_year b d e hb hd he = elim (month_step e (omega (arith, leap_day-le b d))) [
  | inl (same, inside) ↦
      let later : suc (month_day e) ≡ month_day (suc e) = omega (arith, same, month_starts-le e) in
      next_day_within b d (months e) (month_day e)
        (day_fits b d e hb hd he (omega (arith, inside, month_starts-le e)))
      ∙ (λ i. assembled b d (sym same i) (later i))
  | inr (next, start, full) ↦
      let day : month_day e ≡ month_length (months e) = omega (arith, full, month_starts-le e) in
      let early : months e < 11 =
        omega (arith, next, months_bound (suc e) (omega (arith, leap_day-le b d))) in
      let first : 1 ≡ month_day (suc e) = omega (arith, start) in
      (λ i. next_day (assembled b d (months e) (day i)))
      ∙ next_day_month b d (months e) hb early
      ∙ (λ i. assembled b d (sym next i) (first i))
]

-- The last day of a year of March.
next_day_year_end :
    (b d e : ℕ)
    → 67 ≤ b
    → d ≤ 99
    → e ≡ 364 + leap_day b d
    → next_day (assembled b d (months e) (month_day e)) ≡ assembled b (suc d) 0 1
next_day_year_end b d e hb hd he =
    let m : months e ≡ 11 = (ap months he) ∙ months_end (leap_day b d) (leap_day-le b d) in
    let day : e + 1 - (153 * 11 + 2) / 5 ≡ 28 + leap_day b d = omega arith in
    rw (m, day) (next_day_february b d hb hd)

-- The date of day `c` of century `b`.
abbrev date_at : ℕ → ℕ → Civil
date_at b c = assembled b (years c) (months (day_of_year c)) (month_day (day_of_year c))

-- The parts of a day lie in their ranges.
parts_fit :
    (b c : ℕ)
    → c ≤ 36523 + b % 4 / 3
    → (years c ≤ 99) × (day_of_year c ≤ 364 + leap_day b (years c))
parts_fit b c h = (
  (years_bound c (omega arith)).0,
  year_fits (years c) (day_of_year c) (years_bound c (omega arith)).1 (last_year c),
)
  where
    year_fits : (d e : ℕ) → e ≤ 364 + d % 4 / 3 → (d ≡ 99 → e + 36159 ≡ c) → e ≤ 364 + leap_day b d
    year_fits d e bound last = ground arith

next_day_same_year :
    (b c : ℕ)
    → 67 ≤ b
    → suc c ≤ 36523 + b % 4 / 3
    → years (suc c) ≡ years c
    → day_of_year (suc c) ≡ suc (day_of_year c)
    → next_day (date_at b c) ≡ date_at b (suc c)
next_day_same_year b c hb hc same later =
    let fit = parts_fit b (suc c) hc in
    let fit' : suc (day_of_year c) ≤ 364 + leap_day b (years c) =
      subst (λ e. e ≤ 364 + leap_day b (years c)) later
        (subst (λ d. day_of_year (suc c) ≤ 364 + leap_day b d) same fit.1) in
    next_day_in_year b (years c) (day_of_year c) hb (parts_fit b c (omega arith)).0 fit'
    ∙ (λ i. assembled b (sym same i) (months (sym later i)) (month_day (sym later i)))

next_day_next_year :
    (b c : ℕ)
    → 67 ≤ b
    → suc c ≤ 36523 + b % 4 / 3
    → years (suc c) ≡ suc (years c)
    → day_of_year (suc c) ≡ 0
    → day_of_year c ≡ 364 + years c % 4 / 3
    → next_day (date_at b c) ≡ date_at b (suc c)
next_day_next_year b c hb hc next start end =
    let fit : suc (years c) ≤ 99 = rw next at (parts_fit b (suc c) hc).0 in
    next_day_year_end b (years c) (day_of_year c) hb (omega arith)
      (end ∙ ap (λ (t : ℕ). 364 + t) (no_century (years c) fit))
    ∙ (λ i. assembled b (sym next i) (months (sym start i)) (month_day (sym start i)))
  where
    no_century : (d : ℕ) → suc d ≤ 99 → d % 4 / 3 ≡ leap_day b d
    no_century d h = ground arith

next_day_next_century :
    (b c : ℕ) → 67 ≤ b → c ≡ 36523 + b % 4 / 3 → next_day (date_at b c) ≡ date_at (suc b) 0
next_day_next_century b c hb hc =
    let (d, e) = century_end c (omega arith) in
    let last : day_of_year c ≡ 364 + leap_day b 99 = omega arith in
    next_day_year_end b (years c) (day_of_year c) hb (omega arith)
      (last ∙ ap (λ (t : ℕ). 364 + leap_day b t) (sym d))
    ∙ (λ i. record { year = turn d i; month = 3; day = 1 })
  where
    turn :
        years c ≡ 99
        → b * 100 + suc (years c) + 0 / 10 - 6700 + 1900
          ≡ suc b * 100 + years 0 + months 0 / 10 - 6700 + 1900
    turn d = omega arith

-- The computed date of the next day is the next date.
computed-suc : (a : ℕ) → 67 ≤ centuries a → next_day (computed a) ≡ computed (suc a)
computed-suc a h = elim (century_step a) [
  | inl (same, further) ↦
      let inside : suc (day_of_century a) ≤ 36523 + centuries a % 4 / 3 =
        omega (arith, century_bound (suc a), ap (λ (t : ℕ). t % 4 / 3) same) in
      same_century inside (year_step (day_of_century a))
      ∙ (λ i. date_at (sym same i) (sym further i))
  | inr (next, start, end) ↦
      next_day_next_century (centuries a) (day_of_century a) h end
      ∙ (λ i. date_at (sym next i) (sym start i))
]
  where
    same_century :
        suc (day_of_century a) ≤ 36523 + centuries a % 4 / 3
        → ((years (suc (day_of_century a)) ≡ years (day_of_century a))
            × (day_of_year (suc (day_of_century a)) ≡ suc (day_of_year (day_of_century a))))
          ⊎ ((years (suc (day_of_century a)) ≡ suc (years (day_of_century a)))
              × (day_of_year (suc (day_of_century a)) ≡ 0)
              × (day_of_year (day_of_century a) ≡ 364 + years (day_of_century a) % 4 / 3))
        → next_day (date_at (centuries a) (day_of_century a))
          ≡ date_at (centuries a) (suc (day_of_century a))
    same_century inside (inl (same, later)) =
        next_day_same_year (centuries a) (day_of_century a) h inside same later
    same_century inside (inr (next, start, end)) =
        next_day_next_year (centuries a) (day_of_century a) h inside next start end

computed-date_after : (n : ℕ) → computed (n + 2472632) ≡ date_after n
unfolding date_after
computed-date_after zero = refl
computed-date_after (suc n) =
    (λ i. computed (shifted i))
    ∙ sym (computed-suc (n + 2472632) (omega arith))
    ∙ ap next_day (computed-date_after n)
  where
    shifted : suc n + 2472632 ≡ suc (n + 2472632)
    shifted = omega arith

-- The date fields are those of the calendar that goes on day by day from 1 January 1970, at the
-- local day `(unix_sec / 3600 + time_zone) / 24`, for every time whose minutes fit an `int`, and the
-- other fields are the time of that day.
pub fast_second_to_date_lem :
    (unix_sec time_zone : ℕ)
    → unix_sec / 60 < 2 ^ 31
    → let t = fast_second_to_date unix_sec time_zone in
      let local = unix_sec + 3600 * time_zone in
      (civil t ≡ date_after (local / 86400))
      × (t.tm_sec + 60 * t.tm_min + 3600 * t.tm_hour ≡ local % 86400)
      × (t.tm_sec < 60)
      × (t.tm_min < 60)
      × (t.tm_hour < 24)
unfolding fast_second_to_date
fast_second_to_date_lem unix_sec time_zone in_int = (
  computed-date_after ((unix_sec / 60 / 60 + time_zone) / 24) ∙ ap date_after local_day,
  omega arith,
  omega arith,
  omega arith,
  omega arith,
)
  where
    local_day : (unix_sec / 60 / 60 + time_zone) / 24 ≡ (unix_sec + 3600 * time_zone) / 86400
    local_day = omega arith
