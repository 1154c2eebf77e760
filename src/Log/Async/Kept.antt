-- ===== src/Log/Async/Kept.antt =====
-- log/asyncLogging.cpp: whatever the order of the steps of the threads, every line gets to the files.
use cpp_utils.Base.{
  ℕ, ◌<◌, ◌≡◌, refl, sym, ap, subst, ◌∙◌, arith, Bool, true, false, inl, inr, Option, none, some,
  List, [], ◌∷◌, ◌++◌, length, length-append, append_assoc, append-nil, All, ok,
}
use cpp_utils.Base.Int.{ℤ}
use cpp_utils.Log.Async.{
  AsyncLogging, Routine, Place, at_test, in_round, at_end, writing, buffer_size, fresh_buffer,
  append, refilled, take_buffers, joined, write_buffers, started, new_routine, Step, front, enter,
  leave, taking, write, stop, Run, none_yet, then_one,
}
use cpp_utils.Log.Async.Writing.{joined_last, logged, returned_once, write_buffers-Written}
use cpp_utils.Log.Async.Appending.{pending, in_hand, extended, swapped, append_cases}

abbrev pub everything : AsyncLogging × Routine → List ℕ
everything s = logged s.1 ++ (in_hand s.1.place ++ pending s.0)

-- What every step preserves.
pub record IsValid (s : AsyncLogging × Routine) : Type 0 where
  pub room : length s.0.current < buffer_size
  pub none_behind : s.0.current ≡ [] → s.0.buffers ≡ []
  pub next_empty : fresh_buffer s.0.next ≡ []
  pub first_empty : s.1.buffer1 ≡ []
  pub second_empty : fresh_buffer s.1.buffer2 ≡ []
  pub stopped_empty : s.0.running ≡ false → s.0.current ≡ []
  pub ended : s.1.place ≡ at_end → s.0.running ≡ false

front-IsValid :
    (line : List ℕ) (a a' : AsyncLogging) (r : Routine)
    → length line < buffer_size
    → IsValid (a, r)
    → a.running ≡ true
    → append line a ≡ ok a'
    → IsValid (a', r) × (everything (a', r) ≡ everything (a, r) ++ line)
front-IsValid line a a' r small v on e = elim (append_cases line a v.room v.next_empty small) [
  | inl (e', fits) ↦
      subst (λ b. IsValid (b, r) × (everything (b, r) ≡ everything (a, r) ++ line))
        (returned_once (append line a) a' (extended line a) e e')
        (
          record {
            room = omega (arith, length-append a.current line);
            none_behind = λ nil. v.none_behind (front_nil a.current line nil);
            next_empty = v.next_empty;
            first_empty = v.first_empty;
            second_empty = v.second_empty;
            stopped_empty = λ off. cc;
            ended = λ p. absurd (true_false (sym on ∙ v.ended p));
          },
          behind (sym (append_assoc (joined a.buffers) a.current line)),
        )
  | inr (e', some_byte) ↦
      subst (λ b. IsValid (b, r) × (everything (b, r) ≡ everything (a, r) ++ line))
        (returned_once (append line a) a' (swapped line a) e e')
        (
          record {
            room = small;
            none_behind = λ nil. absurd (omega (arith, ap length nil));
            next_empty = refl;
            first_empty = v.first_empty;
            second_empty = v.second_empty;
            stopped_empty = λ off. absurd (true_false (sym on ∙ off));
            ended = λ p. absurd (true_false (sym on ∙ v.ended p));
          },
          behind (ap (λ t. t ++ line) (joined_last a.buffers a.current)),
        )
]
  where
    true_false : ◌≡◌ {A = Bool} true false → ⊥
    true_false h = cc

    front_nil : (xs ys : List ℕ) → xs ++ ys ≡ [] → xs ≡ []
    front_nil [] ys h = refl
    front_nil (x ∷ xs) ys h = absurd (omega (arith, ap length h))

    behind :
        {p : List ℕ}
        → p ≡ pending a ++ line
        → logged r ++ (in_hand r.place ++ p) ≡ everything (a, r) ++ line
    behind h =
        ap (λ t. logged r ++ (in_hand r.place ++ t)) h
        ∙ ap (◌++◌ (logged r)) (sym (append_assoc (in_hand r.place) (pending a) line))
        ∙ sym (append_assoc (logged r) (in_hand r.place ++ pending a) line)

-- A round takes all that waits.
taking-IsValid :
    (a : AsyncLogging) (r : Routine)
    → IsValid (a, r)
    → r.place ≡ in_round
    → IsValid (take_buffers a r) × (everything (take_buffers a r) ≡ everything (a, r))
unfolding take_buffers
taking-IsValid a r v p = (
  record {
    room = omega (arith, ap length v.first_empty);
    none_behind = λ nil. refl;
    next_empty = refill a.next r.buffer2 v.next_empty v.second_empty;
    first_empty = refl;
    second_empty = rest a.next r.buffer2 v.second_empty;
    stopped_empty = λ off. v.first_empty;
    ended = λ q. absurd (not_end q);
  },
  ap (λ t. logged r ++ (joined (a.buffers ++ (a.current ∷ [])) ++ t)) v.first_empty
      ∙ ap (◌++◌ (logged r)) (append-nil _ ∙ joined_last a.buffers a.current)
      ∙ ap (λ q. logged r ++ (in_hand q ++ pending a)) (sym p),
)
  where
    not_end : {taken : List (List ℕ)} → writing taken ≡ at_end → ⊥
    not_end q = cc

    refill :
        (m n : Option (List ℕ))
        → fresh_buffer m ≡ []
        → fresh_buffer n ≡ []
        → fresh_buffer (refilled m n).0 ≡ []
    refill none n hm hn = hn
    refill (some b) n hm hn = hm

    rest : (m n : Option (List ℕ)) → fresh_buffer n ≡ [] → fresh_buffer (refilled m n).1 ≡ []
    rest none n hn = refl
    rest (some b) n hn = hn

write-IsValid :
    (roll_size : ℤ) (a : AsyncLogging) (r r' : Routine) (taken : List (List ℕ))
    → IsValid (a, r)
    → r.place ≡ writing taken
    → write_buffers roll_size taken r ≡ ok r'
    → IsValid (a, r') × (everything (a, r') ≡ everything (a, r))
write-IsValid roll_size a r r' taken v p e =
    let w = write_buffers-Written roll_size taken r r' e in
    (
      record {
        room = v.room;
        none_behind = v.none_behind;
        next_empty = v.next_empty;
        first_empty = w.same_first ∙ v.first_empty;
        second_empty = ap fresh_buffer w.same_second ∙ v.second_empty;
        stopped_empty = v.stopped_empty;
        ended = λ q. absurd (not_end (sym w.place_is ∙ q));
      },
      (λ i. w.logged_more i ++ (in_hand (w.place_is i) ++ pending a))
          ∙ append_assoc (logged r) (joined taken) (pending a)
          ∙ ap (λ q. logged r ++ (in_hand q ++ pending a)) (sym p),
    )
  where
    not_end : at_test ≡ at_end → ⊥
    not_end q = cc

-- The thread goes on with nothing in its hands.
place-IsValid :
    (a : AsyncLogging) (r : Routine) (place : Place)
    → IsValid (a, r)
    → in_hand r.place ≡ []
    → in_hand place ≡ []
    → (place ≡ at_end → a.running ≡ false)
    → IsValid (a, record r { place = place })
      × (everything (a, record r { place = place }) ≡ everything (a, r) ++ [])
place-IsValid a r place v before after ended = (
  record {
    room = v.room;
    none_behind = v.none_behind;
    next_empty = v.next_empty;
    first_empty = v.first_empty;
    second_empty = v.second_empty;
    stopped_empty = v.stopped_empty;
    ended = ended;
  },
  ap (λ t. logged r ++ (t ++ pending a)) (after ∙ sym before) ∙ sym (append-nil _),
)

in_round_not_end : in_round ≡ at_end → ⊥
in_round_not_end q = cc

step-IsValid :
    {roll_size : ℤ} {line : List ℕ} {s t : AsyncLogging × Routine}
    → length line < buffer_size
    → IsValid s
    → Step roll_size line s t
    → IsValid t × (everything t ≡ everything s ++ line)
step-IsValid small v (front {line} {a} {a'} {r} on e) = front-IsValid line a a' r small v on e
step-IsValid small v (enter {a} {r} p on) =
    place-IsValid a r in_round v (ap in_hand p) refl (λ q. absurd (in_round_not_end q))
step-IsValid small v (leave {a} {r} p off) =
    place-IsValid a r at_end v (ap in_hand p) refl (λ _. off)
step-IsValid small v (taking {a} {r} p busy) =
    let (v', e) = taking-IsValid a r v p in (v', e ∙ sym (append-nil _))
step-IsValid {roll_size} small v (write {a} {r} {r'} {taken} p e) =
    let (v', e') = write-IsValid roll_size a r r' taken v p e in (v', e' ∙ sym (append-nil _))
step-IsValid small v (stop {a} {r} on nil) = (
  record {
    room = v.room;
    none_behind = v.none_behind;
    next_empty = v.next_empty;
    first_empty = v.first_empty;
    second_empty = v.second_empty;
    stopped_empty = λ _. nil;
    ended = λ _. refl;
  },
  sym (append-nil _),
)

-- Lines that fit a buffer.
abbrev pub Short : List ℕ → Type 0
Short line = length line < buffer_size

pub run-IsValid :
    {roll_size : ℤ} {lines : List (List ℕ)} {s : AsyncLogging × Routine}
    → All Short lines
    → Run roll_size lines (started, new_routine) s
    → IsValid s × (everything s ≡ joined lines)
run-IsValid short none_yet = (
  record {
    room = omega arith;
    none_behind = λ _. refl;
    next_empty = refl;
    first_empty = refl;
    second_empty = refl;
    stopped_empty = λ _. refl;
    ended = λ q. cc;
  },
  refl,
)
run-IsValid short (then_one {lines} {line} {t} {u} run step) =
    let (before, last) = All_last Short lines line short in
    let (v, e) = run-IsValid before run in
    let (v', e') = step-IsValid last v step in
    (v', e' ∙ ap (λ t. t ++ line) e ∙ sym (joined_last lines line))
  where
    All_last :
        (P : List ℕ → Type 0) (xs : List (List ℕ)) (x : List ℕ)
        → All P (xs ++ (x ∷ []))
        → All P xs × P x
    All_last P [] x (h, _) = (tt, h)
    All_last P (y ∷ xs) x (h, hs) = let (others, last) = All_last P xs x hs in ((h, others), last)

-- Nothing is lost on the way: in every order of the steps of the threads that append, of the one that
-- writes and of the one that stops it, the log files, what the writing thread has taken and what waits
-- for it are together all lines that were appended, in order, if each is shorter than a buffer.
pub run-everything :
    {roll_size : ℤ} {lines : List (List ℕ)} {a : AsyncLogging} {r : Routine}
    → All Short lines
    → Run roll_size lines (started, new_routine) (a, r)
    → logged r ++ (in_hand r.place ++ pending a) ≡ joined lines
run-everything short run = (run-IsValid short run).1

-- Once the writing thread has ended, which it does only after `stop`, the log files hold all lines
-- that were ever appended, in order and nothing else, if each is shorter than a buffer.
pub stopped-logged :
    {roll_size : ℤ} {lines : List (List ℕ)} {a : AsyncLogging} {r : Routine}
    → All Short lines
    → Run roll_size lines (started, new_routine) (a, r)
    → r.place ≡ at_end
    → (a.running ≡ false) × (logged r ≡ joined lines)
stopped-logged {a = a} {r = r} short run p =
    let (v, e) = run-IsValid short run in
    let off = v.ended p in
    let nil = v.stopped_empty off in
    let nothing : in_hand r.place ++ pending a ≡ [] =
      (λ i. in_hand (p i) ++ (joined (v.none_behind nil i) ++ nil i)) in
    (off, sym (append-nil (logged r)) ∙ ap (◌++◌ (logged r)) (sym nothing) ∙ e)
