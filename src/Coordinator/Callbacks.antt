-- ===== src/Coordinator/Callbacks.antt =====
-- src/mcmini/model/transitions/mutex.cpp, semaphore.cpp, thread.cpp and process.cpp: the
-- transition for what a runner has written into its mailbox. The contents of the mailbox, the
-- addresses and numbers, are arguments; so is the comparison of the memory of the process at an
-- address with a static initializer.
use deep_debug.Prelude.{
  ℕ, ◌==◌, Bool, Option, none, if◌then◌else◌, Result, ok, err, ◌>>=◌, not_initialized,
  unmodeled_thread,
}
use deep_debug.Objects.{ObjectState}
use deep_debug.Objects.Thread.{ThreadState}
use deep_debug.Objects.Mutex.{MutexState, new_mutex, rid_invalid}
use deep_debug.Objects.Semaphore.{SemaphoreState, semaphore_in}
use deep_debug.State.{invalid_rid}
use deep_debug.Transition.{
  Transition, thread_create, thread_start, thread_exit, thread_join, process_exit, process_abort,
  mutex_init, mutex_lock, mutex_unlock, sem_init, sem_post, sem_wait,
}
use deep_debug.Coordinator.{
  Coordinator, get_model_of_object, get_model_of_runner, contains_object, contains_runner,
  observe_object, observe_runner,
}

-- `if (!m.contains(handle)) m.observe_object(handle, o)`
unfoldable pub ensure_object : ℕ → ObjectState → Coordinator → Result Coordinator
ensure_object handle o c =
    if contains_object handle c then ok c else (do r ← observe_object handle o c; ok r.0)

unfoldable pub mutex_init_callback : ℕ → ℕ → Coordinator → Result (Coordinator × Transition)
mutex_init_callback p handle c = do
  d ←
      ensure_object handle
        (ObjectState.mutex (new_mutex MutexState.uninitialized handle rid_invalid)) c
  ok (d, mutex_init p (get_model_of_object handle d))

unfoldable pub mutex_lock_callback :
    (ℕ → Bool) → ℕ → ℕ → Coordinator → Result (Coordinator × Transition)
mutex_lock_callback remote_mutex_is_static_initializer p handle c =
    if contains_object handle c
    then ok (c, mutex_lock p (get_model_of_object handle c))
    else if remote_mutex_is_static_initializer handle
    then (do
      d ←
          ensure_object handle
            (ObjectState.mutex (new_mutex MutexState.unlocked handle rid_invalid)) c
      ok (d, mutex_lock p (get_model_of_object handle d)))
    else err not_initialized

unfoldable pub mutex_unlock_callback : ℕ → ℕ → Coordinator → Result (Coordinator × Transition)
mutex_unlock_callback p handle c =
    if contains_object handle c
    then ok (c, mutex_unlock p (get_model_of_object handle c))
    else err not_initialized

unfoldable pub sem_init_callback : ℕ → ℕ → ℕ → Coordinator → Result (Coordinator × Transition)
sem_init_callback p handle count c = do
  d ← ensure_object handle (ObjectState.semaphore (semaphore_in SemaphoreState.uninitialized)) c
  ok (d, sem_init p (get_model_of_object handle d) count)

unfoldable pub sem_post_callback : ℕ → ℕ → Coordinator → Result (Coordinator × Transition)
sem_post_callback p handle c =
    if contains_object handle c
    then ok (c, sem_post p (get_model_of_object handle c))
    else err not_initialized

unfoldable pub sem_wait_callback : ℕ → ℕ → Coordinator → Result (Coordinator × Transition)
sem_wait_callback p handle c =
    if contains_object handle c
    then ok (c, sem_wait p (get_model_of_object handle c))
    else err not_initialized

-- A null pointer, which the coordinator refuses.
unfoldable pub sem_destroy_callback : ℕ → ℕ → Coordinator → Result (Coordinator × Option Transition)
sem_destroy_callback p handle c =
    if contains_object handle c then ok (c, none) else err not_initialized

unfoldable pub thread_create_callback : ℕ → ℕ → Coordinator → Result (Coordinator × Transition)
unfolding observe_runner
thread_create_callback p new_thread c = do
  d ←
      if contains_runner new_thread c
      then ok c
      else (do r ← observe_runner new_thread ThreadState.embryo thread_start c; ok r.0)
  ok (d, thread_create p (get_model_of_runner new_thread d))

unfoldable pub thread_exit_callback : ℕ → Coordinator → Result (Coordinator × Transition)
thread_exit_callback p c = ok (c, thread_exit p)

-- The mailbox holds the id of the runner.
unfoldable pub thread_join_callback : ℕ → ℕ → Coordinator → Result (Coordinator × Transition)
thread_join_callback p target_id c =
    if target_id == invalid_rid then err unmodeled_thread else ok (c, thread_join p target_id)

unfoldable pub process_exit_callback : ℕ → ℕ → Coordinator → Result (Coordinator × Transition)
process_exit_callback p exit_code c = ok (c, process_exit p exit_code)

unfoldable pub process_abort_callback : ℕ → Coordinator → Result (Coordinator × Transition)
process_abort_callback p c = ok (c, process_abort p)
