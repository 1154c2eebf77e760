-- ===== src/Hook.antt =====
-- hook.h and hook.cpp: `sleep` and `usleep` of the program, which stand before those of libc.
use cpp_utils.Base.{ℕ, Bool, true, false, not, ◌==◌, if◌then◌else◌}

-- `t_hooked` of each thread.
abbrev pub Hooked : Type 0
Hooked = ℕ → Bool

abbrev pub is_hooked : ℕ → Hooked → Bool
is_hooked thread hooked = hooked thread

abbrev pub set_hook_enable : ℕ → Hooked → Hooked
set_hook_enable thread hooked other = if other == thread then true else hooked other

abbrev pub set_hook_disable : ℕ → Hooked → Hooked
set_hook_disable thread hooked other = if other == thread then false else hooked other

-- `sleep(seconds)`: what it returns, and how long it has slept, as `sleep_f` of libc says.
unfoldable pub sleep : (ℕ → ℕ × ℕ) → ℕ → Hooked → ℕ → ℕ × ℕ
sleep sleep_f thread hooked seconds =
    if not (is_hooked thread hooked) then sleep_f seconds else (0, 0)

-- `usleep(usec)`
unfoldable pub usleep : (ℕ → ℕ × ℕ) → ℕ → Hooked → ℕ → ℕ × ℕ
usleep usleep_f thread hooked usec = if not (is_hooked thread hooked) then usleep_f usec else (0, 0)
