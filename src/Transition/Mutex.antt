-- ===== src/Transition/Mutex.antt =====
-- include/mcmini/model/transitions/mutex.
pub mod Exclusion
use deep_debug.Prelude.{ℕ, not, if◌then◌else◌, Result, ok, err, ◌>>=◌}
use deep_debug.Objects.{ObjectState, as_mutex}
use deep_debug.Objects.Mutex.{Mutex, MutexState, is_locked, is_locked_by, new_mutex, rid_invalid}
use deep_debug.State.Diff.{DiffState, add_state_for_obj, get_state_of_object}
use deep_debug.Transition.Status.{Status, exists, disabled}

-- `get_state_of_object<mutex>(id)`
unfoldable pub get_mutex : DiffState → ℕ → Result Mutex
unfolding as_mutex
get_mutex d id = get_state_of_object d id >>= as_mutex

unfoldable pub modify_mutex_init : ℕ → ℕ → DiffState → Result (DiffState × Status)
modify_mutex_init executor mutex_id d = do
  ms ← get_mutex d mutex_id
  d' ←
      add_state_for_obj mutex_id
        (ObjectState.mutex (new_mutex MutexState.unlocked ms.location rid_invalid)) d
  ok (d', exists)

unfoldable pub modify_mutex_lock : ℕ → ℕ → DiffState → Result (DiffState × Status)
modify_mutex_lock executor mutex_id d = do
  ms ← get_mutex d mutex_id
  if is_locked ms then ok (d, disabled) else (do
    d' ←
        add_state_for_obj mutex_id
          (ObjectState.mutex (new_mutex MutexState.locked ms.location executor)) d
    ok (d', exists))

unfoldable pub modify_mutex_unlock : ℕ → ℕ → DiffState → Result (DiffState × Status)
modify_mutex_unlock executor mutex_id d = do
  ms ← get_mutex d mutex_id
  if not (is_locked_by ms executor) then ok (d, disabled) else (do
    d' ←
        add_state_for_obj mutex_id
          (ObjectState.mutex (new_mutex MutexState.unlocked ms.location rid_invalid)) d
    ok (d', exists))
