-- ===== src/Log/Init/Kept.antt =====
-- What holds in each phase of `~AsyncLogInit()` of log/flog.h.
use cpp_utils.Base.{
  ℕ, ◌≡◌, refl, sym, ap, subst, ◌∙◌, true, false, arith, Option, some, List, [], ◌∷◌, ◌++◌,
  append_assoc, append-nil, All, All-append, Outcome, ok,
}
use cpp_utils.Base.Int.{ℤ}
use cpp_utils.Log.Logger.{Level, Logger}
use cpp_utils.Log.Async.{
  AsyncLogging, Routine, at_end, joined, started, new_routine, Step, front, enter, leave, taking,
  write, stop, Run, then_one,
}
use cpp_utils.Log.Async.Writing.{joined_last}
use cpp_utils.Log.Async.Kept.{Short}
use cpp_utils.Log.Init.{destroy_front, held, destroy_front-Run}
use cpp_utils.Log.Init.Ending.{
  Phase, front_there, front_gone, joining, writer_gone, AsyncLogInit, Ending, other, clears_front,
  stops, joins, EndRun, not_begun, then_step,
}

-- The writing thread does nothing behind its end.
Step-at_end :
    {roll_size : ℤ} {line : List ℕ} {s t : AsyncLogging × Routine}
    → Step roll_size line s t
    → s.1.place ≡ at_end
    → t.1.place ≡ at_end
Step-at_end (front on e) ended = ended
Step-at_end (enter p on) ended = cc (p, ended)
Step-at_end (leave p off) ended = refl
Step-at_end (taking p busy) ended = cc (p, ended)
Step-at_end (write p e) ended = cc (p, ended)
Step-at_end (stop on nil) ended = ended

All-split : (P : List ℕ → Type 0) (xs ys : List (List ℕ)) → All P (xs ++ ys) → All P xs × All P ys
All-split P [] ys all = (tt, all)
All-split P (x ∷ xs) ys (here, all) =
    let (first, last) = All-split P xs ys all in ((here, first), last)

destroyed_once :
    {m : Outcome (Logger × Option AsyncLogging)} {l l' : Logger} {a a' : AsyncLogging}
    → m ≡ ok (l, some a)
    → m ≡ ok (l', some a')
    → a ≡ a'
destroyed_once e e' = cc (e, e')

-- The lines that came before the destructor, and the logger that it finds.
module _ (roll_size : ℤ) (earlier : List (List ℕ)) (l0 : Logger) where
  -- What is known of the backend in each phase.
  abbrev pub On : Phase → AsyncLogging → Routine → Type 0
  On front_there a r = a.running ≡ true
  On front_gone a r = a.running ≡ true
  On joining a r = a.running ≡ false
  On writer_gone a r = (a.running ≡ false) × (r.place ≡ at_end)

  On-other :
      (p : Phase) {line : List ℕ} {a b : AsyncLogging} {r q : Routine}
      → Step roll_size line (a, r) (b, q)
      → b.running ≡ a.running
      → On p a r
      → On p b q
  On-other front_there step same on = same ∙ on
  On-other front_gone step same on = same ∙ on
  On-other joining step same off = same ∙ off
  On-other writer_gone step same (off, ended) = (same ∙ off, Step-at_end step ended)

  -- Behind the first statement, the lines of the backend have what the streams held among them; `after`
  -- are the later lines and empty ones.
  abbrev pub Behind : List (List ℕ) → AsyncLogging → Routine → Type 0
  Behind lines a r =
      (before : List (List ℕ)) × (later : List (List ℕ)) × (after : List (List ℕ)) × (lines
        ≡ before ++ later)
      × (joined after ≡ joined later)
      × (All Short before × All Short after)
      × Run roll_size ((earlier ++ before) ++ (held l0.streams ++ after)) (started, new_routine)
          (a, r)

  abbrev pub Lines : Phase → List (List ℕ) → Logger → AsyncLogging → Routine → Type 0
  Lines front_there lines l a r =
      (l ≡ l0) × Run roll_size (earlier ++ lines) (started, new_routine) (a, r)
  Lines front_gone lines l a r = Behind lines a r
  Lines joining lines l a r = Behind lines a r
  Lines writer_gone lines l a r = Behind lines a r

  -- One step more of the backend.
  longer :
      (before after : List (List ℕ)) {line : List ℕ} {b c : AsyncLogging × Routine}
      → Run roll_size ((earlier ++ before) ++ (held l0.streams ++ after)) (started, new_routine) b
      → Step roll_size line b c
      → Run roll_size
          ((earlier ++ before) ++ (held l0.streams ++ (after ++ (line ∷ []))))
          (started, new_routine)
          c
  longer before after {line} {c = c} run step =
      subst (λ ls. Run roll_size ls (started, new_routine) c)
        (append_assoc (earlier ++ before) (held l0.streams ++ after) (line ∷ [])
          ∙ ap (◌++◌ (earlier ++ before)) (append_assoc (held l0.streams) after (line ∷ [])))
        (then_one run step)

  Behind-other :
      {line : List ℕ} {lines : List (List ℕ)} {a b : AsyncLogging} {r q : Routine}
      → Step roll_size line (a, r) (b, q)
      → Short line
      → Behind lines a r
      → Behind (lines ++ (line ∷ [])) b q
  Behind-other {line} {lines} step fit (before, later, after, e, same, (short, short'), run) = (
    before,
    later ++ (line ∷ []),
    after ++ (line ∷ []),
    ap (λ ls. ls ++ (line ∷ [])) e ∙ append_assoc before later (line ∷ []),
    joined_last after line ∙ ap (λ text. text ++ line) same ∙ sym (joined_last later line),
    (short, All-append Short after (line ∷ []) short' (fit, tt)),
    longer before after run step,
  )

  Lines-other :
      (p : Phase) (lines : List (List ℕ)) (l : Logger) {line : List ℕ} {a b : AsyncLogging}
      {r q : Routine}
      → Step roll_size line (a, r) (b, q)
      → Short line
      → Lines p lines l a r
      → Lines p (lines ++ (line ∷ [])) l b q
  Lines-other front_there lines l {line} {b = b} {q = q} step fit (e, run) = (
    e,
    subst (λ ls. Run roll_size ls (started, new_routine) (b, q))
        (append_assoc earlier lines (line ∷ [])) (then_one run step),
  )
  Lines-other front_gone lines l step fit behind = Behind-other step fit behind
  Lines-other joining lines l step fit behind = Behind-other step fit behind
  Lines-other writer_gone lines l step fit behind = Behind-other step fit behind

  abbrev pub IsKept : List (List ℕ) → AsyncLogInit → Type 0
  IsKept lines (p, l, a, r) = On p a r × Lines p lines l a r

  module _ (level : Level) (there : l0.instance_level ≡ some level)
      (fits : All Short (held l0.streams)) (early : All Short earlier) where
    -- The first statement returns.
    pub front_destroyed :
        (lines : List (List ℕ)) (l : Logger) (a : AsyncLogging) (r : Routine)
        → All Short lines
        → IsKept lines (front_there, l, a, r)
        → (l' : Logger) × (a' : AsyncLogging) × (destroy_front l (some a) ≡ ok (l', some a'))
          × Run roll_size ((earlier ++ lines) ++ held l0.streams) (started, new_routine) (a', r)
          × (a'.running ≡ true)
    front_destroyed lines l a r short (on, (e, run)) =
        let (l', a', e', run', on') =
          destroy_front-Run l0 level (All-append Short earlier lines early short) run on there
            fits in
        (l', a', ap (λ x. destroy_front x (some a)) e ∙ e', run', on')

    Ending-IsKept :
        (lines : List (List ℕ)) {more : List (List ℕ)} {s t : AsyncLogInit}
        → All Short lines
        → Ending roll_size more s t
        → All Short more
        → IsKept lines s
        → IsKept (lines ++ more) t
    Ending-IsKept lines short (other {p = p} {l = l} step same) (fit, _) (on, known) =
        (On-other p step same on, Lines-other p lines l step fit known)
    Ending-IsKept lines short (clears_front {l} {a = a} {a' = a'} {r = r} e) _ kept =
        let (_, a1, e1, run, on') = front_destroyed lines l a r short kept in
        let same : a1 ≡ a' = destroyed_once e1 e in
        (
          subst (λ (b : AsyncLogging). b.running ≡ true) same on',
          (
            lines,
            [],
            [],
            refl,
            refl,
            (short, tt),
            subst
                (λ b.
                  Run roll_size ((earlier ++ lines) ++ (held l0.streams ++ []))
                    (started, new_routine) (b, r))
                same
                (subst
                  (λ ls. Run roll_size ((earlier ++ lines) ++ ls) (started, new_routine) (a1, r))
                  (sym (append-nil (held l0.streams))) run),
          ),
        )
    Ending-IsKept lines short (stops {a = a} {r = r} on nil) _
          (_, (before, later, after, e, same, (short_before, short_after), run)) =
        (
          refl,
          (
            before,
            later,
            after ++ ([] ∷ []),
            append-nil lines ∙ e,
            joined_last after [] ∙ append-nil (joined after) ∙ same,
            (short_before, All-append Short after ([] ∷ []) short_after (omega arith, tt)),
            longer before after run (stop on nil),
          ),
        )
    Ending-IsKept lines short (joins ended) _ (off, (before, later, after, e, same, shorts, run)) =
        ((off, ended), (before, later, after, append-nil lines ∙ e, same, shorts, run))

    pub EndRun-IsKept :
        {lines : List (List ℕ)} {s t : AsyncLogInit}
        → EndRun roll_size lines s t
        → All Short lines
        → IsKept [] s
        → IsKept lines t
    EndRun-IsKept not_begun short kept = kept
    EndRun-IsKept (then_step {lines} {more} run step) short kept =
        let (first, last) = All-split Short lines more short in
        Ending-IsKept lines first step last (EndRun-IsKept run first kept)
