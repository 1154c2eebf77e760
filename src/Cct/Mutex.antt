-- ===== src/Cct/Mutex.antt =====
-- cct/mutex.h: a mutex, as one of several threads sees it, and the guard that holds it for a scope.
use cpp_utils.Base.{
  ℕ, zero, suc, ◌≤◌, ◌<◌, ◌≡◌, arith, Bool, true, false, if◌then◌else◌, Outcome, ok, fault, ◌>>=◌,
}

-- `held` says whether this thread has the mutex.
pub record MutexLock : Type 0 where
  pub held : Bool

-- `lock()`, when it returns. The mutex has the default type: what a second lock by the thread that has
-- it does is undefined.
unfoldable pub lock : MutexLock → Outcome MutexLock
lock m = if m.held then fault else ok (record { held = true })

-- `unlock()`, which only the thread that has the mutex may call.
unfoldable pub unlock : MutexLock → Outcome MutexLock
unlock m = if m.held then ok (record { held = false }) else fault

pub record MutexGuard : Type 0 where
  pub mutex : MutexLock
  pub locked : Bool

-- `MutexGuard(mutex)`
unfoldable pub new_guard : MutexLock → Outcome MutexGuard
unfolding lock
new_guard m = do m' ← lock m; ok (record { mutex = m'; locked = true })

-- `MutexGuard::unlock()`
unfoldable pub unlock_guard : MutexGuard → Outcome MutexGuard
unfolding unlock
unlock_guard g = do m ← unlock g.mutex; ok (record { mutex = m; locked = false })

-- `~MutexGuard()`
unfoldable pub destroy_guard : MutexGuard → Outcome MutexLock
unfolding unlock_guard
destroy_guard g = if g.locked then (unlock_guard g >>= λ g'. ok g'.mutex) else ok g.mutex

-- A scope with a guard, in which `unlock()` is called a number of times.
unfoldable pub unlock_times : ℕ → MutexGuard → Outcome MutexGuard
unfolding unlock_guard
unlock_times zero g = ok g
unlock_times (suc n) g = unlock_guard g >>= unlock_times n

unfoldable pub guarded : ℕ → MutexLock → Outcome MutexLock
unfolding new_guard unlock_times destroy_guard
guarded n m = do g ← new_guard m; g' ← unlock_times n g; destroy_guard g'

-- A scope with a guard of a mutex that the thread does not have gives the mutex back, whether `unlock()`
-- has been called in it or not; a second call of it unlocks a mutex that the thread does not have. Within
-- the scope a second guard of the mutex is an error, and behind `unlock()` it is not.
pub guarded_lem :
    (n : ℕ) (m : MutexLock)
    → m.held ≡ false
    → (n ≤ 1 → guarded n m ≡ ok m)
      × (1 < n → guarded n m ≡ fault)
      × ((g : MutexGuard)
          → new_guard m ≡ ok g
          → (new_guard g.mutex ≡ fault)
            × ((g' : MutexGuard) → unlock_guard g ≡ ok g' → new_guard g'.mutex ≡ ok g))
unfolding guarded new_guard unlock_times unlock_guard destroy_guard lock unlock
guarded_lem zero m free =
    ((λ _. ground arith), (λ h. absurd (omega arith)), λ g e. (ground arith, λ g' e'. ground arith))
guarded_lem (suc zero) m free =
    ((λ _. ground arith), (λ h. absurd (omega arith)), λ g e. (ground arith, λ g' e'. ground arith))
guarded_lem (suc (suc n)) m free =
    ((λ h. absurd (omega arith)), (λ _. ground arith), λ g e. (ground arith, λ g' e'. ground arith))
