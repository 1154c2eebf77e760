-- ===== src/Log/Stream.antt =====
-- The class `LogStream` of log/logStream.h and log/logStream.cpp: the buffer of a thread, from which
-- complete records are handed to the output function.
pub mod Full
pub mod Line
pub mod Records
use cpp_utils.Base.{
  ℕ, zero, suc, ◌+◌, ◌-◌, Bool, true, false, Option, none, some, List, [], ◌∷◌, ◌++◌, length, take,
  drop, get_elem?, ltb, ◌==◌, if◌then◌else◌, Outcome, ok, fault, out_of_fuel, ◌>>=◌,
}
use cpp_utils.Base.Int.{ℤ, pos, negsuc, ◌-ℤ◌}

-- `kBufferSize`
abbrev pub k_buffer_size : ℕ
k_buffer_size = 100000

-- `text` is what stands from `_buf` to `_cur`, and `end_at` is `_end - _buf`, the end of the last
-- complete record. `emitted` is all that the output function was given.
pub record LogStream : Type 0 where
  pub text : List ℕ
  pub end_at : ℤ
  pub emitted : List ℕ

-- `LogStream()`
abbrev pub new_stream : List ℕ → LogStream
new_stream emitted = record { text = []; end_at = pos 0; emitted = emitted }

-- `avail()`
abbrev pub avail : LogStream → ℕ
avail s = k_buffer_size - length s.text

-- `flush()`: a negative length is converted to `size_t`, and the output reads past the buffer.
unfoldable pub flush : LogStream → Outcome LogStream
flush s = elim s.end_at [
  | pos n ↦ ok (record s { emitted = s.emitted ++ take n s.text })
  | negsuc _ ↦ fault
]

-- `while (tmp-- > _buf)` from `tmp = _buf + n`: the place behind the last line feed before it. There
-- is none at 0, where the source's pointer ends up before the buffer.
unfoldable pub behind_newline : ℕ → List ℕ → ℕ
behind_newline zero text = 0
behind_newline (suc n) text = elim (get_elem? text n) [
  | none ↦ behind_newline n text
  | some c ↦ if c == b'\n' then suc n else behind_newline n text
]

-- `flushLine(ppos)`, where `_buf + place` is `ppos + 1`: nothing is done if `ppos` is `_buf`.
unfoldable pub flush_line : ℕ → LogStream → LogStream
flush_line place s = if place == 1 then s else record s {
  text = drop place s.text;
  end_at = s.end_at -ℤ pos place;
  emitted = s.emitted ++ take place s.text;
}

-- The branch of `append` for bytes that fit.
unfoldable pub append_fitting : Bool → List ℕ → LogStream → LogStream
unfolding behind_newline flush_line
append_fitting line_buffered bytes s =
    let s' = record s { text = s.text ++ bytes } in
    if line_buffered then flush_line (behind_newline (length s'.text) s'.text) s' else s'

-- What the other branch does before it calls `append` again: the complete records go out, and the
-- rest is moved to the front.
unfoldable pub make_room : LogStream → Outcome LogStream
unfolding flush
make_room s = do
  s' ← flush s
  elim s'.end_at [
    | pos n ↦ ok (record s' { text = drop n s'.text; end_at = pos 0 })
    | negsuc _ ↦ fault
  ]

-- `append(p, len)`, where `bytes` are the `len` bytes behind `p`: `len` is an `int`, so they are fewer
-- than 2^31. `fuel` counts the calls that it makes of itself.
unfoldable pub append : Bool → ℕ → List ℕ → LogStream → Outcome LogStream
unfolding append_fitting make_room
append line_buffered zero bytes s = out_of_fuel
append line_buffered (suc fuel) bytes s = elim (ltb (length bytes) (avail s)) [
  | true ↦ ok (append_fitting line_buffered bytes s)
  | false ↦ make_room s >>= append line_buffered fuel bytes
]

-- Several `<<` in a row.
unfoldable pub append_all : Bool → ℕ → List (List ℕ) → LogStream → Outcome LogStream
append_all line_buffered fuel [] s = ok s
append_all line_buffered fuel (piece ∷ pieces) s =
    append line_buffered fuel piece s >>= append_all line_buffered fuel pieces

-- The first statement of `makeLog`.
abbrev pub mark_end : LogStream → LogStream
mark_end s = record s { end_at = pos (length s.text) }

-- `if (t_needFlush == 1)`
unfoldable pub flush_if_needed : Bool → LogStream → Outcome LogStream
unfolding flush
flush_if_needed false s = ok s
flush_if_needed true s = flush s >>= λ s'. ok (record s' { text = []; end_at = pos 0 })

-- `~LogStream()`
unfoldable pub close : LogStream → Outcome LogStream
unfolding flush
close s = flush (mark_end s)

-- A record: the start of `makeLog`, with `t_needFlush` as it is then, and everything that is put
-- into the stream up to the next record.
unfoldable pub write_record : Bool → ℕ → Bool × List (List ℕ) → LogStream → Outcome LogStream
unfolding flush_if_needed append_all
write_record line_buffered fuel (need_flush, pieces) s = do
  s' ← flush_if_needed need_flush (mark_end s)
  append_all line_buffered fuel pieces s'

unfoldable pub write_records :
    Bool → ℕ → List (Bool × List (List ℕ)) → LogStream → Outcome LogStream
unfolding write_record
write_records line_buffered fuel [] s = ok s
write_records line_buffered fuel (r ∷ rs) s =
    write_record line_buffered fuel r s >>= write_records line_buffered fuel rs
