-- ===== src/Log/Async/Appending.antt =====
-- `append` of log/asyncLogging.cpp: the two ways in which it returns.
use cpp_utils.Base.{
  ℕ, ◌+◌, ◌-◌, ◌<◌, ◌≡◌, sym, ap, arith, inl, inr, ◌⊎◌, Bool-cases, none, List, [], ◌∷◌, ◌++◌,
  length, append_assoc, ltb, ltb→lt, ltb→ge, le→leb, ok,
}
use cpp_utils.Log.Async.{
  AsyncLogging, Place, at_test, in_round, at_end, writing, buffer_size, buffer_append, fresh_buffer,
  append, joined,
}
use cpp_utils.Log.Async.Writing.{joined_last}

-- The lines that the writing thread has not taken.
abbrev pub pending : AsyncLogging → List ℕ
pending a = joined a.buffers ++ a.current

-- The lines that it has taken and not written.
abbrev pub in_hand : Place → List ℕ
in_hand at_test = []
in_hand in_round = []
in_hand at_end = []
in_hand (writing taken) = joined taken

-- The two ways in which `append` returns.
abbrev pub extended : List ℕ → AsyncLogging → AsyncLogging
extended line a = record a { current = a.current ++ line }

abbrev pub swapped : List ℕ → AsyncLogging → AsyncLogging
swapped line a = record a { current = line; next = none; buffers = a.buffers ++ (a.current ∷ []) }

pub append_cases :
    (line : List ℕ) (a : AsyncLogging)
    → length a.current < buffer_size
    → fresh_buffer a.next ≡ []
    → length line < buffer_size
    → ((append line a ≡ ok (extended line a)) × (length a.current + length line < buffer_size))
      ⊎ ((append line a ≡ ok (swapped line a)) × (0 < length line))
unfolding append buffer_append
append_cases line a room next small =
    elim (Bool-cases (ltb (length line) (buffer_size - length a.current))) [
      | inl fits ↦
          let h : length a.current + length line < buffer_size = omega (arith, ltb→lt _ _ fits) in
          inl (rw (fits, le→leb (length a.current + length line) buffer_size (omega arith)), h)
      | inr full ↦
          let h : 0 < length line = omega (arith, ltb→ge _ _ full) in
          inr (rw (full, next, le→leb (0 + length line) buffer_size (omega arith)), h)
    ]

-- If the current buffer is not full and the next one is empty or missing, a line shorter than a buffer
-- is appended, behind all lines that wait to be written.
pub append-pending :
    (line : List ℕ) (a : AsyncLogging)
    → length a.current < buffer_size
    → fresh_buffer a.next ≡ []
    → length line < buffer_size
    → (a' : AsyncLogging) × (append line a ≡ ok a') × (pending a' ≡ pending a ++ line)
append-pending line a room next small = elim (append_cases line a room next small) [
  | inl (e, _) ↦ (extended line a, e, sym (append_assoc (joined a.buffers) a.current line))
  | inr (e, _) ↦ (swapped line a, e, ap (λ t. t ++ line) (joined_last a.buffers a.current))
]
