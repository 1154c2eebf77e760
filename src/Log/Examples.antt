-- ===== src/Log/Examples.antt =====
-- Runs of log/ on concrete input, and the theorems there.
use cpp_utils.Base.{
  ℕ, ◌+◌, ◌*◌, ◌/◌, ◌%◌, ◌<◌, ◌≡◌, ◌≢◌, refl, arith, Bool, true, false, List, [], ◌∷◌, replicate,
  length-replicate, ok, out_of_fuel, ◌>>=◌,
}
use cpp_utils.Base.Int.{pos}
use cpp_utils.Log.Calendar.{fast_second_to_date}
use cpp_utils.Log.Calendar.Dates.{civil, date_after}
use cpp_utils.Log.Calendar.Days.{fast_second_to_date_lem}
use cpp_utils.Log.Format.{format_integer}
use cpp_utils.Log.Stream.{LogStream, new_stream, append, write_records, close}
use cpp_utils.Log.Stream.Full.{IsValid, Appended, append-Appended, append_overlong}
use cpp_utils.Log.Stream.Records.{all_bytes, write_records-close}

fast_second_to_date_lem_example :
    let t = fast_second_to_date 1709208000 8 in
    let local = 1709208000 + 3600 * 8 in
    (civil t ≡ date_after (local / 86400))
    × (t.tm_sec + 60 * t.tm_min + 3600 * t.tm_hour ≡ local % 86400)
    × (t.tm_sec < 60)
    × (t.tm_min < 60)
    × (t.tm_hour < 24)
fast_second_to_date_lem_example = fast_second_to_date_lem 1709208000 8 (omega arith)

format_integer_run : format_integer (pos 2045) ≡ ok (b'2' ∷ b'0' ∷ b'4' ∷ b'5' ∷ [])
unfolding format_integer
format_integer_run = refl

-- A stream with a complete record `ab` and the start `c` of the next in its buffer.
abbrev begun : LogStream
begun = record { text = b'a' ∷ b'b' ∷ b'c' ∷ []; end_at = pos 2; emitted = [] }

abbrev begun-IsValid : IsValid begun
begun-IsValid = record { done = 2; end_is = refl; end-le = omega arith; fits = omega arith }

append-Appended_example :
    (s' : LogStream) × (append false 2 (replicate 99998 b'd') begun ≡ ok s')
    × Appended begun begun-IsValid (replicate 99998 b'd') s'
append-Appended_example =
    append-Appended 0 begun begun-IsValid (replicate 99998 b'd')
      (omega (arith, length-replicate {A = ℕ} 99998 b'd'))

append_overlong_example : append false 7 (replicate 99999 b'd') begun ≡ out_of_fuel
append_overlong_example =
    append_overlong 7 begun begun-IsValid (replicate 99999 b'd')
      (omega (arith, length-replicate {A = ℕ} 99999 b'd'))
      (omega (arith, length-replicate {A = ℕ} 99999 b'd'))

five_not_one : ◌≢◌ {A = ℕ} 5 1
five_not_one = omega arith

-- Two records, a forced flush before the second.
abbrev two_records : List (Bool × List (List ℕ))
two_records =
    (false, (b'a' ∷ b'b' ∷ []) ∷ (b'\n' ∷ []) ∷ []) ∷ (true, (b'c' ∷ b'\n' ∷ []) ∷ []) ∷ []

write_records-close_example :
    (t : LogStream) × ((write_records false 2 two_records (new_stream []) >>= close) ≡ ok t)
    × (t.emitted ≡ all_bytes two_records)
write_records-close_example = write_records-close 0 two_records [] (omega arith, (omega arith, tt))
