-- ===== src/Log/Init/Examples.antt =====
-- log/flog.h on concrete input.
use cpp_utils.Base.{◌≡◌, refl, some, none, [], ◌∷◌, ok, fault}
use cpp_utils.Base.Int.{pos}
use cpp_utils.Log.Stream.{LogStream}
use cpp_utils.Log.Logger.{trace, Logger, no_logger}
use cpp_utils.Log.Async.{AsyncLogging, Routine, started, new_routine}
use cpp_utils.Log.Init.{new_watcher, start, async_log_output}

-- A stream with a record in its buffer, and the logger that has it.
abbrev unflushed : LogStream
unflushed = record { text = b'a' ∷ b'b' ∷ []; end_at = pos 0; emitted = [] }

abbrev one_stream : Logger
one_stream = record no_logger { instance_level = some trace; streams = (0, unflushed) ∷ [] }

-- The backend with a line.
abbrev one_line : AsyncLogging
one_line = record started { current = b'z' ∷ [] }

-- The front end and the backend behind the first statement of the destructor.
abbrev front_ended : Logger
front_ended = record one_stream {
  instance_level = none;
  streams = [];
  closed = record { text = b'a' ∷ b'b' ∷ []; end_at = pos 2; emitted = b'a' ∷ b'b' ∷ [] } ∷ [];
}

abbrev two_lines : AsyncLogging
two_lines = record started { current = b'z' ∷ b'a' ∷ b'b' ∷ [] }

-- The writing thread has written all of it.
abbrev all_written : Routine
all_written = record new_routine { written = pos 3; file = b'z' ∷ b'a' ∷ b'b' ∷ [] }

-- The backend after its constructor and `start()`, and a log statement before there is one.
watcher_run :
    (new_watcher ≡ ok (pos 100000000, some started)) × (async_log_output (b'z' ∷ []) none ≡ fault)
unfolding new_watcher start async_log_output
watcher_run = (refl, refl)
