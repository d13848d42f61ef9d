-- ===== src/Transition.antt =====
-- include/mcmini/model/transition.hpp and include/mcmini/model/transitions: what a thread does
-- next, and how it changes the state.
pub mod Consistent
mod Tests
pub mod Status
pub mod Thread
pub mod Commuting
pub mod Mutex
pub mod Semaphore
pub mod Condition
use deep_debug.Prelude.{ℕ, ltb, Bool, true, false, if◌then◌else◌, Result, ok, err, ◌>>=◌}
use deep_debug.Objects.Thread.{is_active}
use deep_debug.State.{State}
use deep_debug.State.Diff
use deep_debug.State.Diff.{DiffState, diff_of}
use Status.{exists, disabled, is_exists}
use Thread.{
  modify_thread_create, modify_thread_start, modify_thread_exit, modify_thread_join,
  modify_process_exit, modify_process_abort,
}
use Mutex.{modify_mutex_init, modify_mutex_lock, modify_mutex_unlock}
use Semaphore.{modify_sem_init, modify_sem_post, modify_sem_wait, modify_sem_destroy}
use Condition.{
  modify_cond_init, modify_cond_enqueue, modify_cond_wait, modify_cond_signal,
  modify_cond_broadcast, modify_cond_destroy,
}

-- A constructor for each subclass of `transition`; the first number is the executor.
pub data Transition : Type 0 where
  thread_create : (executor target : ℕ) → Transition
  thread_start : (executor : ℕ) → Transition
  thread_exit : (executor : ℕ) → Transition
  thread_join : (executor target : ℕ) → Transition
  process_exit : (executor exit_code : ℕ) → Transition  -- the `int` as its 32-bit pattern
  process_abort : (executor : ℕ) → Transition
  mutex_init : (executor mutex_id : ℕ) → Transition
  mutex_lock : (executor mutex_id : ℕ) → Transition
  mutex_unlock : (executor mutex_id : ℕ) → Transition
  sem_init : (executor sem_id count : ℕ) → Transition
  sem_post : (executor sem_id : ℕ) → Transition
  sem_wait : (executor sem_id : ℕ) → Transition
  sem_destroy : (executor sem_id : ℕ) → Transition
  cond_init : (executor cond_id : ℕ) → Transition
  cond_enqueue : (executor cond_id mutex_id : ℕ) → Transition
  cond_wait : (executor cond_id mutex_id : ℕ) → Transition
  cond_signal : (executor cond_id : ℕ) → Transition
  cond_broadcast : (executor cond_id : ℕ) → Transition
  cond_destroy : (executor cond_id : ℕ) → Transition

abbrev pub get_executor : Transition → ℕ
get_executor (thread_create p t) = p
get_executor (thread_start p) = p
get_executor (thread_exit p) = p
get_executor (thread_join p t) = p
get_executor (process_exit p c) = p
get_executor (process_abort p) = p
get_executor (mutex_init p m) = p
get_executor (mutex_lock p m) = p
get_executor (mutex_unlock p m) = p
get_executor (sem_init p s c) = p
get_executor (sem_post p s) = p
get_executor (sem_wait p s) = p
get_executor (sem_destroy p s) = p
get_executor (cond_init p c) = p
get_executor (cond_enqueue p c m) = p
get_executor (cond_wait p c m) = p
get_executor (cond_signal p c) = p
get_executor (cond_broadcast p c) = p
get_executor (cond_destroy p c) = p

-- `program_exit_code() > 0` of an `int` kept as its pattern; -1 by default.
abbrev pub program_exit_code : Transition → ℕ
program_exit_code (process_exit p c) = c
program_exit_code _ = 4294967295

abbrev pub aborts_program_execution : Transition → Bool
aborts_program_execution (process_abort p) = true
aborts_program_execution _ = false

-- The virtual `modify`.
unfoldable pub modify : Transition → DiffState → Result (DiffState × Status.Status)
modify (thread_create p t) d = modify_thread_create p t d
modify (thread_start p) d = modify_thread_start p d
modify (thread_exit p) d = modify_thread_exit p d
modify (thread_join p t) d = modify_thread_join p t d
modify (process_exit p c) d = modify_process_exit p d
modify (process_abort p) d = modify_process_abort p d
modify (mutex_init p m) d = modify_mutex_init p m d
modify (mutex_lock p m) d = modify_mutex_lock p m d
modify (mutex_unlock p m) d = modify_mutex_unlock p m d
modify (sem_init p s c) d = modify_sem_init p s c d
modify (sem_post p s) d = modify_sem_post p s d
modify (sem_wait p s) d = modify_sem_wait p s d
modify (sem_destroy p s) d = modify_sem_destroy p s d
modify (cond_init p c) d = modify_cond_init p c d
modify (cond_enqueue p c m) d = modify_cond_enqueue p c m d
modify (cond_wait p c m) d = modify_cond_wait p c m d
modify (cond_signal p c) d = modify_cond_signal p c d
modify (cond_broadcast p c) d = modify_cond_broadcast p c d
modify (cond_destroy p c) d = modify_cond_destroy p c d

-- The pair that `apply_to` returns holds a copy of the diff.
unfoldable pub keep_if_exists : State → DiffState × Status.Status → DiffState × Status.Status
keep_if_exists s (d, status) =
    if is_exists status then (Diff.copy d, exists) else (diff_of s, disabled)

unfoldable pub apply_to : Transition → State → Result (DiffState × Status.Status)
unfolding keep_if_exists
apply_to t s = do
  runner ← s.get_state_of_runner (get_executor t)
  if is_active runner
      then (do r ← modify t (diff_of s); ok (keep_if_exists s r))
      else ok (diff_of s, disabled)

unfoldable pub is_enabled_in : Transition → State → Result Bool
unfolding apply_to
is_enabled_in t s = do r ← apply_to t s; ok (is_exists r.1)
