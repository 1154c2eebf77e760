-- ===== src/Log/Logger/Examples.antt =====
-- Runs of the logger on concrete input, and the theorems there.
use cpp_utils.Base.{
  Among, List, arith, true, false, ℕ, ◌≡◌, refl, none, some, [], ◌∷◌, ◌++◌, ◌==◌, if◌then◌else◌,
  Outcome, ok, fault,
}
use cpp_utils.Base.Int.{pos}
use cpp_utils.Log.Stream.{LogStream, new_stream}
use cpp_utils.Log.Logger.{
  Logger, trace, info, warn, set_level, stream, release, log, log_fatal, get_instance,
}
use cpp_utils.Log.Logger.Threads.{stream_of}
use cpp_utils.Log.Stream.Records.{all_bytes}
use cpp_utils.Log.Logger.Interleaved.{Record, log_all, records_of, Logs}
use cpp_utils.Log.Logger.Output.{first_logger, log_all-release}
use cpp_utils.Log.Logger.Release.{output, release_lem}

-- A record of one byte.
abbrev put_byte : LogStream → Outcome LogStream
put_byte s = ok (record s { text = s.text ++ (b'x' ∷ []) })

abbrev with_byte : LogStream
with_byte = record { text = b'x' ∷ []; end_at = pos 0; emitted = [] }

-- Thread 3 has logged.
abbrev one_thread : Logger
one_thread = record {
  instance_level = some trace;
  buffer_level = 0;
  streams = (0, with_byte) ∷ [];
  next = 1;
  tms = 1;
  t_stream = λ thread. if thread == 3 then some 0 else none;
  closed = [];
}

-- Threads 3 and 5 log in turns.
abbrev in_turns : List (ℕ × Record)
in_turns =
    (3, (false, (b'a' ∷ []) ∷ []))
    ∷ (5, (false, (b'b' ∷ []) ∷ []))
    ∷ (3, (true, (b'c' ∷ b'd' ∷ []) ∷ []))
    ∷ []

log_all-release_example :
    (l : Logger) × (l' : Logger) × (log_all 2 in_turns first_logger ≡ ok l)
    × (release l ≡ ok l')
    × ((thread : ℕ)
        → Logs thread in_turns
        → (s : LogStream) × Among s l'.closed
          × (s.emitted ≡ all_bytes (records_of thread in_turns)))
log_all-release_example = log_all-release 0 in_turns (omega arith, (omega arith, (omega arith, tt)))

release_lem_example :
    (l' : Logger) × (release one_thread ≡ ok l')
    × (l'.closed ≡ output with_byte ∷ [])
    × ((make : LogStream → Outcome LogStream) (thread : ℕ) (s : LogStream)
        → one_thread.t_stream thread ≡ none
        → make (new_stream []) ≡ ok s
        → (l1 : Logger) × (stream make thread l' ≡ ok l1) × (stream_of l1 thread ≡ some s))
    × ((make : LogStream → Outcome LogStream) (thread p : ℕ)
        → one_thread.t_stream thread ≡ some p
        → stream make thread l' ≡ fault)
release_lem_example = release_lem one_thread trace refl

-- A logger at WARN leaves out a record at INFO, and one at FATAL is written, and that is all.
levels_run :
    (log info put_byte 3 (set_level warn one_thread) ≡ ok (set_level warn one_thread))
    × (log_fatal put_byte 3 (set_level warn one_thread)
        ≡ stream put_byte 3 (set_level warn one_thread))
unfolding log log_fatal get_instance
levels_run = (refl, refl)
