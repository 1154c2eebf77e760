-- ===== src/Log/Async.antt =====
-- The class `AsyncLogging` of log/asyncLogging.h and log/asyncLogging.cpp: threads append lines under
-- a lock, and one thread takes what there is and writes it to the log files.
pub mod Writing
pub mod Appending
pub mod Kept
pub mod Roll
mod Examples
use cpp_utils.Base.{
  ℕ, ◌+◌, ◌-◌, ◌%◌, ◌^◌, ◌≡◌, Bool, true, false, ◌&&◌, Option, none, some, List, [], ◌∷◌, ◌++◌,
  length, ltb, leb, ◌==◌, if◌then◌else◌, Outcome, ok, fault, ◌>>=◌,
}
use cpp_utils.Base.Int.{ℤ, pos, negsuc, ◌+ℤ◌, ltb_ℤ}
use cpp_utils.Serialize.ZigZag.{signed}

-- `BUFSIZE` of `AsyncLogging::Buffer`
abbrev pub buffer_size : ℕ
buffer_size = 4000000

-- `LogBuffer::append`: a buffer is what stands before its `_cur`.
unfoldable pub buffer_append : List ℕ → List ℕ → Outcome (List ℕ)
buffer_append buf logline =
    if leb (length buf + length logline) buffer_size then ok (buf ++ logline) else fault

-- The members that threads share under `_lock`. `_currentBuffer` is never null outside of the
-- critical sections; `_nextBuffer` may be.
pub record AsyncLogging : Type 0 where
  pub running : Bool
  pub current : List ℕ
  pub next : Option (List ℕ)
  pub buffers : List (List ℕ)

-- Where the thread of `mainRoutine` is: at its test of `_running`, behind that test, in possession
-- of buffers that it has to write, or at its end.
pub data Place : Type 0 where
  at_test in_round at_end : Place
  writing : List (List ℕ) → Place

-- The variables of `mainRoutine`; `closed` are the files before `file`, the oldest first.
pub record Routine : Type 0 where
  pub place : Place
  pub buffer1 : List ℕ
  pub buffer2 : Option (List ℕ)
  pub written : ℤ
  pub closed : List (List ℕ)
  pub file : List ℕ

-- The constructor and `start()`
abbrev pub started : AsyncLogging
started = record { running = true; current = []; next = some []; buffers = [] }

abbrev pub new_routine : Routine
new_routine = record {
  place = at_test;
  buffer1 = [];
  buffer2 = some [];
  written = pos 0;
  closed = [];
  file = [];
}

-- The buffer that takes the place of a full one.
abbrev fresh_buffer : Option (List ℕ) → List ℕ
fresh_buffer none = []
fresh_buffer (some buf) = buf

-- `append(logline, len)`
unfoldable pub append : List ℕ → AsyncLogging → Outcome AsyncLogging
unfolding buffer_append
append logline a =
    if ltb (length logline) (buffer_size - length a.current)
    then (do current ← buffer_append a.current logline; ok (record a { current = current }))
    else (do
      current ← buffer_append (fresh_buffer a.next) logline
      ok (record a { current = current; next = none; buffers = a.buffers ++ (a.current ∷ []) }))

abbrev is_empty {ℓ} : {A : Type ℓ} → List A → Bool
is_empty [] = true
is_empty (x ∷ xs) = false

-- The condition under which the thread waits.
unfoldable pub must_wait : AsyncLogging → Bool
must_wait a = a.running && (is_empty a.buffers && is_empty a.current)

-- `if (!_nextBuffer) _nextBuffer.swap(buffer2)`: the two pointers after it.
abbrev refilled : Option (List ℕ) → Option (List ℕ) → Option (List ℕ) × Option (List ℕ)
refilled none buffer2 = (buffer2, none)
refilled (some buf) buffer2 = (some buf, buffer2)

-- The critical section behind the waiting, and the two resets that follow it.
unfoldable pub take_buffers : AsyncLogging → Routine → AsyncLogging × Routine
take_buffers a r =
    let (next, buffer2) = refilled a.next r.buffer2 in
    (
      record a { current = r.buffer1; next = next; buffers = [] },
      record r {
        place = writing (a.buffers ++ (a.current ∷ []));
        buffer1 = [];
        buffer2 = some (fresh_buffer buffer2);
      },
    )

abbrev pub joined : List (List ℕ) → List ℕ
joined [] = []
joined (b ∷ bs) = b ++ joined bs

-- `needWrite`, an `int` to which sizes are added.
unfoldable pub need_write : List (List ℕ) → ℤ
need_write buffers = signed 32 (length (joined buffers) % 2 ^ 32)

abbrev pub in_int : ℤ → Bool
in_int n = ltb_ℤ n (pos (2 ^ 31)) && ltb_ℤ (negsuc (2 ^ 31)) n

-- A sum of type `int`, which must not overflow.
unfoldable pub int_sum : ℤ → ℤ → Outcome ℤ
int_sum m n = if in_int (m +ℤ n) then ok (m +ℤ n) else fault

-- The rest of a round, with the buffers that it took. `rollFile` is supposed to return: `Log/Async/Roll.antt`
-- is about its fault.
unfoldable pub write_buffers : ℤ → List (List ℕ) → Routine → Outcome Routine
unfolding int_sum need_write
write_buffers roll_size buffers r = do
  total ← int_sum r.written (need_write buffers)
  if ltb_ℤ roll_size total
      then ok (record r {
        place = at_test;
        written = need_write buffers;
        closed = r.closed ++ (r.file ∷ []);
        file = joined buffers;
      })
      else ok (record r { place = at_test; written = total; file = r.file ++ joined buffers })

-- `stop()` where it has seen an empty `_currentBuffer`. It releases the lock between that and its write
-- of `_running`; as no line comes then any more, the two are one step here.
abbrev pub stopped : AsyncLogging → AsyncLogging
stopped a = record a { running = false }

-- One step of a thread. The label is the line that it appends. Lines are appended only before
-- `stop`, as its comment demands.
pub data Step (roll_size : ℤ)
    : List ℕ → AsyncLogging × Routine → AsyncLogging × Routine → Type 0 where
  front :
      {line : List ℕ} {a a' : AsyncLogging} {r : Routine}
      → a.running ≡ true
      → append line a ≡ ok a'
      → Step roll_size line (a, r) (a', r)
  enter :
      {a : AsyncLogging} {r : Routine}
      → r.place ≡ at_test
      → a.running ≡ true
      → Step roll_size [] (a, r) (a, record r { place = in_round })
  leave :
      {a : AsyncLogging} {r : Routine}
      → r.place ≡ at_test
      → a.running ≡ false
      → Step roll_size [] (a, r) (a, record r { place = at_end })
  taking :
      {a : AsyncLogging} {r : Routine}
      → r.place ≡ in_round
      → must_wait a ≡ false
      → Step roll_size [] (a, r) (take_buffers a r)
  write :
      {a : AsyncLogging} {r r' : Routine} {taken : List (List ℕ)}
      → r.place ≡ writing taken
      → write_buffers roll_size taken r ≡ ok r'
      → Step roll_size [] (a, r) (a, r')
  stop :
      {a : AsyncLogging} {r : Routine}
      → a.running ≡ true
      → a.current ≡ []
      → Step roll_size [] (a, r) (stopped a, r)

-- Several steps, with the lines that they append.
pub data Run (roll_size : ℤ)
    : List (List ℕ) → AsyncLogging × Routine → AsyncLogging × Routine → Type 0 where
  none_yet : {s : AsyncLogging × Routine} → Run roll_size [] s s
  then_one :
      {lines : List (List ℕ)} {line : List ℕ} {s t u : AsyncLogging × Routine}
      → Run roll_size lines s t
      → Step roll_size line t u
      → Run roll_size (lines ++ (line ∷ [])) s u
