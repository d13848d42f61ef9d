-- ===== src/Objects/ConditionVariable.antt =====
-- include/mcmini/model/objects/condition_variables.hpp. The policy is a value: the program copies
-- it before it changes it, so no two states share one that changes.
use deep_debug.Prelude.{
  ℕ, ltb, Bool, true, false, not, ◌||◌, List, [], ◌∷◌, is_empty, if◌then◌else◌,
}
use deep_debug.Policy.{Policy, CondStatus, is_waiting, is_prewaiting, is_signaled, new_policy}
use deep_debug.Policy.Default
use deep_debug.Policy.Arbitrary
use deep_debug.Policy.Arbitrary.{add_waiter_with_state, add_to_wake_groups}

pub data CondState : Type 0 where
  cv_uninitialized cv_initialized cv_waiting cv_signaled cv_transitional cv_destroyed : CondState

pub record ConditionVariable : Type 0 where
  pub current_state : CondState
  pub spurious_wakeups : ℕ  -- numRemainingSpuriousWakeups
  pub running_thread : ℕ
  pub associated_mutex : ℕ
  pub waiting_count : ℕ
  pub policy : Policy

abbrev pub is_cv_uninitialized : CondState → Bool
is_cv_uninitialized CondState.cv_uninitialized = true
is_cv_uninitialized _ = false

abbrev pub is_cv_destroyed : CondState → Bool
is_cv_destroyed CondState.cv_destroyed = true
is_cv_destroyed _ = false

-- The two loops of the constructor over the recorded threads.
unfoldable pub add_recorded_waiters : List (ℕ × CondStatus) → Policy → Policy
add_recorded_waiters [] p = p
add_recorded_waiters ((tid, state) ∷ rest) p =
    add_recorded_waiters rest
      (if is_prewaiting state || is_waiting state then add_waiter_with_state tid state p else p)

unfoldable pub signaled_threads : List (ℕ × CondStatus) → List ℕ
signaled_threads [] = []
signaled_threads ((tid, state) ∷ rest) =
    if is_signaled state then tid ∷ signaled_threads rest else signaled_threads rest

unfoldable pub restore_policy : List (ℕ × CondStatus) → Policy → Policy
restore_policy thread_states p =
    let q = add_recorded_waiters thread_states p in
    let signaled = signaled_threads thread_states in
    if not (is_empty signaled) then add_to_wake_groups signaled q else q

-- `condition_variable(s, tid, mutex, count, thread_states)` with a fresh policy.
unfoldable pub restored_condition_variable :
    CondState → ℕ → ℕ → ℕ → List (ℕ × CondStatus) → ConditionVariable
restored_condition_variable s tid mutex count thread_states = record {
  current_state = s;
  spurious_wakeups = 0;
  running_thread = tid;
  associated_mutex = mutex;
  waiting_count = count;
  policy = restore_policy thread_states new_policy;
}

-- `condition_variable(s, tid, mutex, count)`, and `set_policy(p)` after it.
abbrev pub new_condition_variable : CondState → ℕ → ℕ → ℕ → Policy → ConditionVariable
new_condition_variable s tid mutex count p = record {
  current_state = s;
  spurious_wakeups = 0;
  running_thread = tid;
  associated_mutex = mutex;
  waiting_count = count;
  policy = p;
}

abbrev pub is_uninitialized : ConditionVariable → Bool
is_uninitialized c = is_cv_uninitialized c.current_state

abbrev pub is_destroyed : ConditionVariable → Bool
is_destroyed c = is_cv_destroyed c.current_state

abbrev pub has_waiters : ConditionVariable → Bool
has_waiters c = Arbitrary.has_waiters c.policy

abbrev pub waiter_can_exit : ℕ → ConditionVariable → Bool
waiter_can_exit tid c = ltb 0 c.spurious_wakeups || Default.thread_can_exit tid c.policy
