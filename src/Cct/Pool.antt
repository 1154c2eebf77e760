-- ===== src/Cct/Pool.antt =====
-- The class `ThreadPool` of cct/threadPool.h and cct/threadPool.cpp.
pub mod Made
use mathlib.Core.List.{map-append}
use cpp_utils.Base.{
  ℕ, zero, suc, ◌+◌, ◌*◌, ◌≡◌, ◌≢◌, refl, sym, ap, subst, ◌∙◌, Bool, true, false, Option, none,
  some, List, [], ◌∷◌, ◌++◌, append_assoc, append-nil, length, length-append, take, map, All,
  All-append, if◌then◌else◌, ltb, arith, Outcome, ok, aborted, ◌>>=◌,
}
use cpp_utils.Base.Int.{ℤ, pos, negsuc}
use cpp_utils.Cct.Threads.{Thread, thread_with, set_default_name, to_string, start, join}
use cpp_utils.Mq.{Mq, new_mq, push, test_queue}

-- What the threads of a pool run: `std::bind(&ThreadPool::thread_routine, this)`.
pub data Routine : Type 0 where
  thread_routine : Routine

-- `A` are the tasks.
pub record ThreadPool (A : Type 0) : Type 0 where
  pub num_threads : ℕ
  pub threads : List (Thread Routine)
  pub task_queue : Mq A

abbrev pub k_max_num_threads : ℕ
k_max_num_threads = 6

-- `ThreadPool` and the number, of which `buf` has room for three characters.
abbrev pub pool_name : ℕ → List ℕ
pool_name i =
    b'T' ∷ b'h' ∷ b'r' ∷ b'e' ∷ b'a' ∷ b'd' ∷ b'P' ∷ b'o' ∷ b'o' ∷ b'l' ∷ take 3 (to_string i)

-- The loop of `init()`, `left` rounds of it from `i` on; the last argument is `Thread::threadNum`.
unfoldable pub make_threads : ℕ → ℕ → List (Thread Routine) → ℕ → List (Thread Routine) × ℕ
unfolding thread_with
make_threads zero i threads thread_num = (threads, thread_num)
make_threads (suc left) i threads thread_num =
    let made = thread_with thread_routine (pool_name i) thread_num in
    make_threads left (suc i) (threads ++ (made.0 ∷ [])) made.1

-- The number that `setNumThreads(num)` sets.
abbrev pub clamped : ℤ → ℕ
clamped (pos n) = if ltb k_max_num_threads n then k_max_num_threads else n
clamped (negsuc n) = 0

-- The loop of `start()`
unfoldable pub start_all : List (Thread Routine) → Outcome (List (Thread Routine))
unfolding start
start_all [] = ok []
start_all (t ∷ threads) = do t ← start t; threads ← start_all threads; ok (t ∷ threads)

module _ {A : Type 0} where
  -- `ThreadPool()`
  abbrev pub new_pool : ThreadPool A
  new_pool = record { num_threads = 0; threads = []; task_queue = new_mq }

  -- `init()`
  unfoldable pub init : ThreadPool A → ℕ → ThreadPool A × ℕ
  unfolding make_threads
  init p thread_num =
      let made = make_threads p.num_threads 0 p.threads thread_num in
      (record p { threads = made.0 }, made.1)

  -- `setNumThreads(num)`
  unfoldable pub set_num_threads : ℤ → ThreadPool A → ℕ → ThreadPool A × ℕ
  unfolding init
  set_num_threads num p thread_num = init (record p { num_threads = clamped num }) thread_num

  -- `ThreadPool(numThreads)`
  unfoldable pub with_threads : ℤ → ℕ → ThreadPool A × ℕ
  unfolding set_num_threads
  with_threads num thread_num =
      let set = set_num_threads num new_pool thread_num in init set.0 set.1

  -- `addTask(t)`
  abbrev pub add_task : A → ThreadPool A → ThreadPool A
  add_task t p = record p { task_queue = push t p.task_queue }

  -- `pull` in `thread_routine`, by a thread that has the lock while `others` more are awake: the task
  -- that it gets and runs, if it does not sleep.
  unfoldable pub take_task : ℕ → ThreadPool A → Option A × ThreadPool A
  unfolding test_queue
  take_task others p =
      let pulled = test_queue others p.task_queue in (pulled.0, record p { task_queue = pulled.1 })

  -- `start()`
  unfoldable pub start_pool : ThreadPool A → Outcome (ThreadPool A)
  unfolding start_all
  start_pool p = do threads ← start_all p.threads; ok (record p { threads = threads })

  -- `join()`, up to the first `pthread_join`: it does not come back, since `thread_routine` has no end.
  unfoldable pub join_pool : ThreadPool A → Outcome (ThreadPool A)
  unfolding join
  join_pool p = elim p.threads [
    | [] ↦ ok p
    | t ∷ threads ↦ join t >>= λ t. ok (record p { threads = t ∷ threads })
  ]
