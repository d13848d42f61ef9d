-- ===== src/Transition/Semaphore.antt =====
-- include/mcmini/model/transitions/semaphore.
pub mod Count
use deep_debug.Prelude.{ℕ, if◌then◌else◌, Result, ok, err, ◌>>=◌}
use deep_debug.Objects.{ObjectState, as_semaphore}
use deep_debug.Objects.Semaphore.{
  Semaphore, SemaphoreState, new_semaphore, semaphore_in, count, will_block, increment, decrement,
}
use deep_debug.State.Diff.{DiffState, add_state_for_obj, get_state_of_object}
use deep_debug.Transition.Status.{Status, exists, disabled}

-- `get_state_of_object<semaphore>(id)`
unfoldable pub get_semaphore : DiffState → ℕ → Result Semaphore
unfolding as_semaphore
get_semaphore d id = get_state_of_object d id >>= as_semaphore

unfoldable pub modify_sem_init : ℕ → ℕ → ℕ → DiffState → Result (DiffState × Status)
modify_sem_init executor sem_id n d = do
  d' ← add_state_for_obj sem_id (ObjectState.semaphore (new_semaphore n)) d
  ok (d', exists)

unfoldable pub modify_sem_post : ℕ → ℕ → DiffState → Result (DiffState × Status)
modify_sem_post executor sem_id d = do
  sem ← get_semaphore d sem_id
  d' ← add_state_for_obj sem_id (ObjectState.semaphore (new_semaphore (increment (count sem)))) d
  ok (d', exists)

unfoldable pub modify_sem_wait : ℕ → ℕ → DiffState → Result (DiffState × Status)
modify_sem_wait executor sem_id d = do
  sem ← get_semaphore d sem_id
  if will_block sem then ok (d, disabled) else (do
    d' ← add_state_for_obj sem_id (ObjectState.semaphore (new_semaphore (decrement (count sem)))) d
    ok (d', exists))

unfoldable pub modify_sem_destroy : ℕ → ℕ → DiffState → Result (DiffState × Status)
modify_sem_destroy executor sem_id d = do
  d' ← add_state_for_obj sem_id (ObjectState.semaphore (semaphore_in SemaphoreState.destroyed)) d
  ok (d', exists)
