-- ===== src/Transition/Condition.antt =====
-- include/mcmini/model/transitions/condition_variables.
pub mod Wakes
use deep_debug.Prelude.{
  ℕ, ltb, ◌==◌, Bool, true, false, not, ◌&&◌, ◌||◌, List, [], ◌∷◌, length, is_empty, keep_if,
  if◌then◌else◌, Result, ok, err, ◌>>=◌,
}
use deep_debug.Policy.{Policy, CondStatus, is_waiting, is_prewaiting, new_policy}
use deep_debug.Policy.SingleGroup
use deep_debug.Policy.Arbitrary.{
  add_to_wake_groups, add_waiter_with_state, get_thread_cv_state, update_thread_cv_state,
  return_wait_queue,
}
use deep_debug.Objects.{ObjectState, as_condition_variable}
use deep_debug.Objects.Mutex.{Mutex, MutexState, is_locked_by, is_unlocked, new_mutex, rid_invalid}
use deep_debug.Objects.ConditionVariable.{
  ConditionVariable, CondState, new_condition_variable, is_uninitialized, is_destroyed, has_waiters,
  waiter_can_exit,
}
use deep_debug.State.Diff.{DiffState, add_state_for_obj, get_state_of_object}
use deep_debug.Transition.Status.{Status, exists, disabled, undefined}
use deep_debug.Transition.Mutex.{get_mutex}

-- `get_state_of_object<condition_variable>(id)`
unfoldable pub get_condition_variable : DiffState → ℕ → Result ConditionVariable
unfolding as_condition_variable
get_condition_variable d id = get_state_of_object d id >>= as_condition_variable

-- The loop over the queue that keeps the threads in `CV_WAITING`.
unfoldable pub waiting_threads : Policy → List ℕ
waiting_threads p = keep_if (λ tid. is_waiting (get_thread_cv_state tid p)) (return_wait_queue p)

-- The state of a condition variable with the given number of waiting threads.
abbrev pub state_for : ℕ → CondState
state_for waiting_count =
    if ltb 0 waiting_count then CondState.cv_waiting else CondState.cv_signaled

unfoldable pub modify_cond_init : ℕ → ℕ → DiffState → Result (DiffState × Status)
modify_cond_init executor cond_id d = do
  d' ←
      add_state_for_obj cond_id
        (ObjectState.condition_variable
          (new_condition_variable CondState.cv_initialized rid_invalid 0 0 new_policy))
        d
  ok (d', exists)

-- The policy after `executor` has been queued.
unfoldable pub enqueue : ℕ → Policy → Policy
enqueue executor p =
    let q =
      if is_prewaiting (get_thread_cv_state executor p)
      then update_thread_cv_state executor CondStatus.waiting p
      else p in
    add_waiter_with_state executor CondStatus.waiting q

unfoldable pub modify_cond_enqueue : ℕ → ℕ → ℕ → DiffState → Result (DiffState × Status)
modify_cond_enqueue executor cond_id mutex_id d = do
  cv ← get_condition_variable d cond_id
  m ← get_mutex d mutex_id
  if is_unlocked m || not (is_locked_by m executor) then ok (d, disabled) else (do
    let policy = enqueue executor cv.policy
    d' ←
        add_state_for_obj cond_id
          (ObjectState.condition_variable (
            new_condition_variable CondState.cv_waiting executor m.location
              (length (return_wait_queue policy)) policy))
          d
    d'' ←
        add_state_for_obj mutex_id
          (ObjectState.mutex (new_mutex MutexState.unlocked m.location rid_invalid)) d'
    ok (d'', exists))

unfoldable pub modify_cond_wait : ℕ → ℕ → ℕ → DiffState → Result (DiffState × Status)
modify_cond_wait executor cond_id mutex_id d = do
  cv ← get_condition_variable d cond_id
  m ← get_mutex d mutex_id
  if is_uninitialized cv || is_destroyed cv
      then ok (d, undefined)
      else if is_locked_by m executor
      then ok (d, disabled)
      else if not
          (waiter_can_exit executor cv && (m.location == cv.associated_mutex) && is_unlocked m)
      then ok (d, disabled)
      else (do
        d' ←
            add_state_for_obj mutex_id
              (ObjectState.mutex (new_mutex MutexState.locked m.location executor)) d
        policy ← SingleGroup.wake_thread executor cv.policy
        let waiting_count = length (return_wait_queue policy)
        d'' ←
            add_state_for_obj cond_id
              (ObjectState.condition_variable (
                new_condition_variable (state_for waiting_count) executor m.location waiting_count
                  policy))
              d'
        ok (d'', exists))

-- The policy after a signal: the waiting threads form a wake group.
unfoldable pub signal : Policy → Policy
signal p =
    let threads = waiting_threads p in
    if not (is_empty threads) then add_to_wake_groups threads p else p

unfoldable pub modify_cond_signal : ℕ → ℕ → DiffState → Result (DiffState × Status)
modify_cond_signal executor cond_id d = do
  cv ← get_condition_variable d cond_id
  if is_uninitialized cv || is_destroyed cv
      then ok (d, undefined)
      else if not (has_waiters cv)
      then ok (d, exists)
      else (do
        let policy = signal cv.policy
        let waiting_count = length (return_wait_queue policy)
        d' ←
            add_state_for_obj cond_id
              (ObjectState.condition_variable (
                new_condition_variable (state_for waiting_count) rid_invalid cv.associated_mutex
                  waiting_count policy))
              d
        ok (d', exists))

unfoldable pub modify_cond_broadcast : ℕ → ℕ → DiffState → Result (DiffState × Status)
modify_cond_broadcast executor cond_id d = do
  cv ← get_condition_variable d cond_id
  if is_uninitialized cv || is_destroyed cv
      then ok (d, undefined)
      else if not (has_waiters cv)
      then ok (d, exists)
      else (do
        let policy = SingleGroup.receive_broadcast_message (signal cv.policy)
        let waiting_count = length (return_wait_queue policy)
        d' ←
            add_state_for_obj cond_id
              (ObjectState.condition_variable (
                new_condition_variable (state_for waiting_count) executor cv.associated_mutex
                  waiting_count policy))
              d
        ok (d', exists))

unfoldable pub modify_cond_destroy : ℕ → ℕ → DiffState → Result (DiffState × Status)
modify_cond_destroy executor cond_id d = do
  cv ← get_condition_variable d cond_id
  if is_uninitialized cv || is_destroyed cv
      then ok (d, undefined)
      else if has_waiters cv
      then ok (d, undefined)
      else (do
        d' ←
            add_state_for_obj cond_id
              (ObjectState.condition_variable
                (new_condition_variable CondState.cv_destroyed executor 0 0 new_policy))
              d
        ok (d', exists))
