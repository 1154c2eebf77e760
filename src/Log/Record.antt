-- ===== src/Log/Record.antt =====
-- What stands in a record of log/logStream.cpp: the operators `<<` of log/logStream.h, the time that is
-- cached for a second, and `makeLog`.
pub mod Prefix
mod Examples
use cpp_utils.Base.{
  ℕ, zero, suc, ◌+◌, ◌-◌, ◌/◌, ◌%◌, Bool, true, false, ◌&&◌, not, Option, none, some, List, [], ◌∷◌,
  ◌++◌, length, take, ltb, ◌==◌, if◌then◌else◌, Outcome, ok, fault, ◌>>=◌,
}
use cpp_utils.Base.Int.{ℤ, pos}
use cpp_utils.Log.Calendar.{Tm, fast_second_to_date}
use cpp_utils.Log.Format.{format_integer, format_hex}
use cpp_utils.Log.Stream.{LogStream, append, mark_end, flush_if_needed}

-- An operand of `<<`, by its type: all integer types are one, and a pointer to text may be null. The
-- operator for `double` is declared and has no body.
pub data Value : Type 0 where
  of_bool : Bool → Value
  of_integer : ℤ → Value
  of_pointer : ℕ → Value
  of_char : ℕ → Value
  of_text : Option (List ℕ) → Value

-- The text that an operator gives to `append`.
unfoldable pub render : Value → Outcome (List ℕ)
render (of_bool true) = ok (b'T' ∷ [])
render (of_bool false) = ok (b'F' ∷ [])
render (of_integer v) = format_integer v
render (of_pointer pv) = format_hex pv
render (of_char v) = ok (v ∷ [])
render (of_text (some str)) = ok str
render (of_text none) = ok (b'(' ∷ b'n' ∷ b'u' ∷ b'l' ∷ b'l' ∷ b')' ∷ [])

-- Operators in a row.
unfoldable pub put_all : Bool → ℕ → List Value → LogStream → Outcome LogStream
unfolding render
put_all line_buffered fuel [] s = ok s
put_all line_buffered fuel (v ∷ vs) s = do
  text ← render v
  s ← append line_buffered fuel text s
  put_all line_buffered fuel vs s

-- `t_formatTime` up to its null character, `t_lastSecs` and `t_needFlush`
pub record TimeCache : Type 0 where
  pub text : List ℕ
  pub last_secs : ℕ
  pub need_flush : Bool

-- `%06lld` of a number below a million
abbrev pub six_digits : ℕ → List ℕ
six_digits us =
    (48 + us / 100000 % 10)
    ∷ (48 + us / 10000 % 10)
    ∷ (48 + us / 1000 % 10)
    ∷ (48 + us / 100 % 10)
    ∷ (48 + us / 10 % 10)
    ∷ (48 + us % 10)
    ∷ []

-- The operands of `makeLog` behind the time, `level` being the name of the level.
abbrev pub prefix_values : ℕ → List ℕ → List ℕ → ℕ → List Value
prefix_values tid level filename line =
    of_char b' '
    ∷ of_integer (pos tid)
    ∷ of_char b' '
    ∷ of_text (some level)
    ∷ of_char b' '
    ∷ of_text (some filename)
    ∷ of_char b':'
    ∷ of_integer (pos line)
    ∷ of_text (some (b' ' ∷ b'-' ∷ b' ' ∷ []))
    ∷ []

-- `strftime` of the C library with the format of `formatTime`.
module _ (strftime : Tm → List ℕ) where
  abbrev pub date_text : ℕ → List ℕ
  date_text secs = strftime (fast_second_to_date secs 8)

  -- `formatTime()` at a time in microseconds; the text that it returns is the one of the cache. A
  -- text that ends before place 20 stays as it is, since what is printed there is behind its end.
  unfoldable pub format_time : Bool → ℕ → TimeCache → TimeCache
  format_time full_buffer micro_secs c =
      let secs = micro_secs / 1000000 in
      let us = micro_secs % 1000000 in
      if secs == c.last_secs
      then record c {
        text = if ltb (length c.text) 20 then c.text else take 20 c.text ++ six_digits us;
      }
      else record {
        text = take 63 (date_text secs ++ (b'.' ∷ six_digits us));
        last_secs = secs;
        need_flush = if not (c.last_secs == 0) && full_buffer then true else c.need_flush;
      }

  -- `makeLog(filename, line, level)`
  unfoldable pub make_log :
      Bool
      → ℕ
      → ℕ
      → ℕ
      → List ℕ
      → List ℕ
      → ℕ
      → TimeCache
      → LogStream
      → Outcome (TimeCache × LogStream)
  unfolding format_time put_all
  make_log line_buffered fuel micro_secs tid level filename line c s = do
    s ← flush_if_needed c.need_flush (mark_end s)
    let c' = format_time (not line_buffered) micro_secs (record c { need_flush = false })
    s ←
        put_all line_buffered fuel (of_text (some c'.text) ∷ prefix_values tid level filename line)
          s
    ok (c', s)

  -- `makeLog(filename, line, level, func)`: `_cur -= 3` takes back the last operand.
  unfoldable pub make_log_func :
      Bool
      → ℕ
      → ℕ
      → ℕ
      → List ℕ
      → List ℕ
      → ℕ
      → List ℕ
      → TimeCache
      → LogStream
      → Outcome (TimeCache × LogStream)
  unfolding make_log put_all
  make_log_func line_buffered fuel micro_secs tid level filename line func c s = do
    (c, s) ← make_log line_buffered fuel micro_secs tid level filename line c s
    let back = record s { text = take (length s.text - 3) s.text }
    let more = of_char b' ' ∷ of_text (some func) ∷ of_text (some (b' ' ∷ b'-' ∷ b' ' ∷ [])) ∷ []
    let rest = put_all line_buffered fuel more back
    if ltb (length s.text) 3 then fault else (rest >>= λ s'. ok (c, s'))
