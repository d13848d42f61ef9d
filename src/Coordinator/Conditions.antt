-- ===== src/Coordinator/Conditions.antt =====
-- src/mcmini/model/transitions/condition_variables.cpp: the callbacks of condition variables. The
-- call of the constructor in `ensure_cond_initialized` hands the new policy over in the place of a
-- runner; what the comment of that function says is modelled: the object of `cond_init_callback`.
use deep_debug.Prelude.{ℕ, Bool, [], if◌then◌else◌, Result, ok, err, ◌>>=◌, not_initialized}
use deep_debug.Objects.{ObjectState}
use deep_debug.Objects.Mutex.{rid_invalid}
use deep_debug.Objects.ConditionVariable.{CondState, restored_condition_variable}
use deep_debug.Transition.{
  Transition, cond_init, cond_enqueue, cond_wait, cond_signal, cond_broadcast, cond_destroy,
}
use deep_debug.Coordinator.{Coordinator, get_model_of_object, contains_object}
use deep_debug.Coordinator.Callbacks.{ensure_object}

-- `condition_variable(cv_initialized)`
unfoldable pub initialized_condition_variable : ObjectState
unfolding restored_condition_variable
initialized_condition_variable =
    ObjectState.condition_variable
      (restored_condition_variable CondState.cv_initialized rid_invalid 0 0 [])

unfoldable pub ensure_cond_initialized : (ℕ → Bool) → ℕ → Coordinator → Result Coordinator
unfolding initialized_condition_variable
ensure_cond_initialized remote_cond_is_static_initializer remote_cond c =
    if contains_object remote_cond c
    then ok c
    else if remote_cond_is_static_initializer remote_cond
    then ensure_object remote_cond initialized_condition_variable c
    else err not_initialized

unfoldable pub cond_init_callback : ℕ → ℕ → Coordinator → Result (Coordinator × Transition)
unfolding initialized_condition_variable
cond_init_callback p remote_cond c = do
  d ← ensure_object remote_cond initialized_condition_variable c
  ok (d, cond_init p (get_model_of_object remote_cond d))

unfoldable pub cond_waiting_thread_enqueue_callback :
    (ℕ → Bool) → ℕ → ℕ → ℕ → Coordinator → Result (Coordinator × Transition)
cond_waiting_thread_enqueue_callback is_static p remote_cond remote_mut c = do
  d ← ensure_cond_initialized is_static remote_cond c
  if contains_object remote_mut d
      then ok
          (d, cond_enqueue p (get_model_of_object remote_cond d) (get_model_of_object remote_mut d))
      else err not_initialized

unfoldable pub cond_wait_callback : ℕ → ℕ → ℕ → Coordinator → Result (Coordinator × Transition)
cond_wait_callback p remote_cond remote_mut c =
    if contains_object remote_cond c
    then if contains_object remote_mut c
      then ok
          (c, cond_wait p (get_model_of_object remote_cond c) (get_model_of_object remote_mut c))
      else err not_initialized
    else err not_initialized

unfoldable pub cond_signal_callback :
    (ℕ → Bool) → ℕ → ℕ → Coordinator → Result (Coordinator × Transition)
cond_signal_callback is_static p remote_cond c = do
  d ← ensure_cond_initialized is_static remote_cond c
  ok (d, cond_signal p (get_model_of_object remote_cond d))

unfoldable pub cond_broadcast_callback :
    (ℕ → Bool) → ℕ → ℕ → Coordinator → Result (Coordinator × Transition)
cond_broadcast_callback is_static p remote_cond c = do
  d ← ensure_cond_initialized is_static remote_cond c
  ok (d, cond_broadcast p (get_model_of_object remote_cond d))

unfoldable pub cond_destroy_callback : ℕ → ℕ → Coordinator → Result (Coordinator × Transition)
cond_destroy_callback p remote_cond c =
    if contains_object remote_cond c
    then ok (c, cond_destroy p (get_model_of_object remote_cond c))
    else err not_initialized
