-- ===== src/Cct/Pool/Made.antt =====
-- The threads of a `ThreadPool`, when it is made and when it is started.
use Prim.Native.Nat.{min}
use mathlib.Core.List.{map-append}
use cpp_utils.Base.{
  arith, ℕ, ℕ, zero, suc, ◌≡◌, ◌≢◌, refl, sym, ap, subst, ◌∙◌, true, false, some, List, [], ◌∷◌,
  ◌++◌, append_assoc, append-nil, map, All, All-append, ok, aborted, ◌>>=◌,
}
use cpp_utils.Base.Int.{ℤ, pos, negsuc, pos_part}
use cpp_utils.Cct.Threads.{Thread, thread_with, set_default_name, start}
use cpp_utils.Cct.Pool.{
  Routine, thread_routine, ThreadPool, pool_name, make_threads, clamped, init, set_num_threads,
  with_threads, start_all, start_pool,
}

-- `n` threads as they are made, with the numbers from `i` on.
abbrev made_from : ℕ → ℕ → List (Thread Routine)
made_from zero i = []
made_from (suc n) i =
    record {
      started = false;
      joined = false;
      tid = 0;
      name = pool_name i;
      start_routine = some thread_routine;
    }
    ∷ made_from n (suc i)

make_threads_lem :
    (left i : ℕ) (threads : List (Thread Routine)) (thread_num : ℕ)
    → (make_threads left i threads thread_num).0 ≡ threads ++ made_from left i
unfolding make_threads thread_with set_default_name
make_threads_lem zero i threads thread_num = sym (append-nil threads)
make_threads_lem (suc left) i threads thread_num =
    let made = thread_with thread_routine (pool_name i) thread_num in
    make_threads_lem left (suc i) (threads ++ (made.0 ∷ [])) made.1
    ∙ append_assoc threads (made.0 ∷ []) (made_from left (suc i))

-- The names of `n` threads, with the numbers from `i` on.
abbrev pub names_from : ℕ → ℕ → List (List ℕ)
names_from zero i = []
names_from (suc n) i = pool_name i ∷ names_from n (suc i)

made_from-names : (n i : ℕ) → map (λ (t : Thread Routine). t.name) (made_from n i) ≡ names_from n i
made_from-names zero i = refl
made_from-names (suc n) i = ap (◌∷◌ (pool_name i)) (made_from-names n (suc i))

abbrev pub IsNew : Thread Routine → Type 0
IsNew t = (t.started ≡ false) × (t.joined ≡ false) × (t.start_routine ≡ some thread_routine)

made_from-IsNew : (n i : ℕ) → All IsNew (made_from n i)
made_from-IsNew zero i = tt
made_from-IsNew (suc n) i = ((refl, refl, refl), made_from-IsNew n (suc i))

clamped-min : (num : ℤ) → clamped num ≡ min (pos_part num) 6
clamped-min (pos n) = ground arith
clamped-min (negsuc n) = omega arith

-- A pool that is made with a number says that it has that number of threads, 6 for a greater one, and 0
-- for a negative one. It has twice as many threads, none of them started, and each name stands twice.
pub with_threads_lem :
    (A : Type 0) (num : ℤ) (thread_num : ℕ)
    → let p = (with_threads {A = A} num thread_num).0 in
      (p.num_threads ≡ min (pos_part num) 6)
      × (map (λ (t : Thread Routine). t.name) p.threads
          ≡ names_from p.num_threads 0 ++ names_from p.num_threads 0)
      × All IsNew p.threads
unfolding with_threads set_num_threads init
with_threads_lem A num thread_num = (
  clamped-min num,
  ap (map (λ (t : Thread Routine). t.name)) made
      ∙ map-append _ (made_from n 0) (made_from n 0)
      ∙ rw (made_from-names n 0),
  subst (All IsNew) (sym made) (
      All-append IsNew (made_from n 0) (made_from n 0) (made_from-IsNew n 0) (made_from-IsNew n 0)),
)
  where
    n : ℕ
    n = clamped num

    made : (with_threads {A = A} num thread_num).0.threads ≡ made_from n 0 ++ made_from n 0
    made =
        make_threads_lem n 0 (make_threads n 0 [] thread_num).0 (make_threads n 0 [] thread_num).1
        ∙ ap (λ threads. threads ++ made_from n 0) (make_threads_lem n 0 [] thread_num)

-- A thread behind its `start()`.
abbrev pub with_start : Thread Routine → Thread Routine
with_start t = record t { started = true }

start_all_new :
    (threads : List (Thread Routine))
    → All IsNew threads
    → start_all threads ≡ ok (map with_start threads)
unfolding start_all start
start_all_new [] all = refl
start_all_new (t ∷ threads) ((not_started, _, _), all) =
    rw (not_started, ◌>>=◌, start_all_new threads all)

started_again :
    (A : Type 0) (p : ThreadPool A) (threads : List (Thread Routine))
    → threads ≢ []
    → start_pool (record p { threads = map with_start threads }) ≡ aborted
unfolding start_pool start_all start
started_again A p [] some_there = absurd (some_there refl)
started_again A p (t ∷ threads) some_there = refl

-- `start` of a pool whose threads were never started starts each of them, and changes nothing else. A
-- second `start` of a pool with threads is a failed assertion.
pub start_pool_lem :
    (A : Type 0) (p : ThreadPool A)
    → All IsNew p.threads
    → (start_pool p ≡ ok (record p { threads = map with_start p.threads }))
      × (p.threads ≢ [] → start_pool (record p { threads = map with_start p.threads }) ≡ aborted)
unfolding start_pool
start_pool_lem A p all = (rw (start_all_new p.threads all, ◌>>=◌), started_again A p p.threads)
