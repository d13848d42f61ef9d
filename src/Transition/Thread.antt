-- ===== src/Transition/Thread.antt =====
-- include/mcmini/model/transitions/thread and include/mcmini/model/transitions/process.
use deep_debug.Prelude.{ℕ, ◌==◌, not, ◌||◌, if◌then◌else◌, Result, ok, ◌>>=◌}
use deep_debug.Objects.Thread.{ThreadState, is_running, has_exited, is_embryo}
use deep_debug.Objects.Mutex.{rid_main_thread}
use deep_debug.State.Diff.{DiffState, add_state_for_runner, get_state_of_runner}
use deep_debug.Transition.Status.{Status, exists, disabled}

unfoldable pub modify_thread_create : ℕ → ℕ → DiffState → Result (DiffState × Status)
modify_thread_create executor target d = do
  d' ← add_state_for_runner target ThreadState.running d
  ok (d', exists)

unfoldable pub modify_thread_start : ℕ → DiffState → Result (DiffState × Status)
modify_thread_start executor d = do
  t ← get_state_of_runner d executor
  ok (d, if is_embryo t then disabled else exists)

unfoldable pub modify_thread_exit : ℕ → DiffState → Result (DiffState × Status)
modify_thread_exit executor d = do
  t ← get_state_of_runner d executor
  if not (is_running t) || (executor == rid_main_thread)
      then ok (d, disabled)
      else (do d' ← add_state_for_runner executor ThreadState.exited d; ok (d', exists))

unfoldable pub modify_thread_join : ℕ → ℕ → DiffState → Result (DiffState × Status)
modify_thread_join executor target d = do
  t ← get_state_of_runner d target
  ok (d, if has_exited t then exists else disabled)

unfoldable pub modify_process_exit : ℕ → DiffState → Result (DiffState × Status)
modify_process_exit executor d = do
  d' ← add_state_for_runner executor ThreadState.exited d
  ok (d', exists)

-- The comment in abort.hpp says that aborting is never enabled; the body returns `exists`.
unfoldable pub modify_process_abort : ℕ → DiffState → Result (DiffState × Status)
modify_process_abort executor d = ok (d, exists)
