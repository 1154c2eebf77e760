-- ===== src/Log/Async/Roll.antt =====
-- `rollFile` of log/asyncLogging.cpp: the name of a log file. The script that it runs then, to pack the
-- older files, is another program.
use cpp_utils.Base.{
  ℕ, ◌+◌, ◌*◌, ◌/◌, ◌%◌, ◌^◌, ◌<◌, ◌≡◌, ap, ◌∙◌, arith, Bool, List, [], ◌∷◌, ◌++◌, length,
  length-append, ltb, if◌then◌else◌, All, Outcome, ok, fault, ◌>>=◌,
}
use cpp_utils.Base.Int.{pos}
use cpp_utils.Log.Calendar.{Tm, fast_second_to_date}
use cpp_utils.Log.Calendar.Dates.{Civil, date_after}
use cpp_utils.Log.Calendar.Days.{fast_second_to_date_lem}
use cpp_utils.Log.Format.{format_integer, decimal_from, IsDigit, format_integer-decimal}

-- `%m` and `%d` of `strftime`, and `%Y` of a year of four digits.
abbrev pub two_digits : ℕ → List ℕ
two_digits n = (48 + n / 10 % 10) ∷ (48 + n % 10) ∷ []

abbrev pub four_digits : ℕ → List ℕ
four_digits n = (48 + n / 1000 % 10) ∷ (48 + n / 100 % 10) ∷ two_digits n

-- `strftime(tmp, sizeof(tmp), "%Y-%m-%d", &t)`
abbrev pub year_month_day : Tm → List ℕ
year_month_day t =
    four_digits (t.tm_year + 1900)
    ++ (b'-' ∷ two_digits (t.tm_mon + 1) ++ (b'-' ∷ two_digits t.tm_mday))

-- The text `.log0`
abbrev pub log_suffix : List ℕ
log_suffix = b'.' ∷ b'l' ∷ b'o' ∷ b'g' ∷ b'0' ∷ []

-- The size of `newfile`
abbrev pub newfile_size : ℕ
newfile_size = 100

-- `rollFile()` at a time in microseconds, in the process `pid`. The name is copied to `newfile`, and read
-- there by `execv` up to a null character: a name that leaves no room for one is written or read outside
-- the array.
unfoldable pub roll_file : List ℕ → ℕ → ℕ → Outcome (List ℕ)
roll_file basename micro_seconds pid = do
  let date = year_month_day (fast_second_to_date (micro_seconds / 1000000) 8)
  digits ← format_integer (pos pid)
  let ret = basename ++ (b'.' ∷ date ++ (b'.' ∷ digits ++ log_suffix))
  if ltb (length ret) newfile_size then ok ret else fault

-- A date as `year-month-day`, the year of four digits.
abbrev pub date_name : Civil → List ℕ
date_name d = four_digits d.year ++ (b'-' ∷ two_digits d.month ++ (b'-' ∷ two_digits d.day))

module _ (basename digits : List ℕ) where
  -- What is made of the parts.
  abbrev file_name : Civil → List ℕ
  file_name d = basename ++ (b'.' ∷ date_name d ++ (b'.' ∷ digits ++ log_suffix))

  abbrev named : Civil → Outcome (List ℕ)
  named d = if ltb (length (file_name d)) newfile_size then ok (file_name d) else fault

  length-file_name : (d : Civil) → length (file_name d) ≡ length basename + length digits + 17
  length-file_name d = omega (
    arith,
    length-append basename (b'.' ∷ date_name d ++ (b'.' ∷ digits ++ log_suffix)),
    length-append digits log_suffix,
  )

  sized :
      (d : Civil)
      → named d ≡ (if ltb (length basename + length digits) 83 then ok (file_name d) else fault)
  sized d =
      ap (λ (b : Bool). if b then ok (file_name d) else fault)
        (bound (length (file_name d)) (length basename + length digits) (length-file_name d))
    where
      bound : (n m : ℕ) → n ≡ m + 17 → ltb n newfile_size ≡ ltb m 83
      bound n m e = ground arith

-- At a time whose minutes fit an `int`, `rollFile` gives the name of the program, the date of the day
-- eight hours ahead of UTC, the decimal digits of the number of the process, and `.log0`, with points
-- between them, if the first and the third part have together at most 82 bytes. It is the same name at
-- all times of a day. For longer ones it writes or reads outside an array.
pub roll_file_lem :
    (basename : List ℕ) (micro_seconds pid : ℕ)
    → micro_seconds / 1000000 / 60 < 2 ^ 31
    → (digits : List ℕ) × All IsDigit digits
      × (decimal_from 0 digits ≡ pid)
      × (roll_file basename micro_seconds pid ≡ (
          if ltb (length basename + length digits) 83
          then ok (
              basename
              ++ (b'.' ∷ date_name (date_after ((micro_seconds / 1000000 + 3600 * 8) / 86400))
                  ++ (b'.' ∷ digits ++ log_suffix)))
          else fault))
unfolding roll_file
roll_file_lem basename micro_seconds pid in_int =
    let (digits, e, value, all, _) = format_integer-decimal pid in
    let (same_day, _, _, _, _) = fast_second_to_date_lem (micro_seconds / 1000000) 8 in_int in
    (
      digits,
      all,
      value,
      rw (e, ◌>>=◌)
          (ap (named basename digits) same_day
            ∙ sized basename digits (date_after ((micro_seconds / 1000000 + 3600 * 8) / 86400))),
    )
