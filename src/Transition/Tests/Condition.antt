-- ===== src/Transition/Tests/Condition.antt =====
-- Condition variables: the theorems applied to two threads that sleep and are woken.
use deep_debug.Prelude.{
  ◌≡◌, refl, true, false, [], ◌∷◌, ok, err, zero, suc, Result, ◌+◌, ◌≤◌, is_ok, subst,
}
use deep_debug.Policy.{Policy, CondStatus, new_policy}
use deep_debug.Policy.Default.{thread_can_exit}
use deep_debug.Policy.SingleGroup
use deep_debug.Policy.Arbitrary
use deep_debug.Policy.Wakeups.{pending_wakeups, wake_all, is_ok-wake_thread, length-wake_all-le}
use deep_debug.Objects.{ObjectState, as_condition_variable}
use deep_debug.Objects.ConditionVariable
use deep_debug.Objects.ConditionVariable.{
  ConditionVariable, CondState, new_condition_variable, waiter_can_exit,
}
use deep_debug.State.Diff.{DiffState, diff_of, get_state_of_object, add_state_for_obj}
use deep_debug.Sequence
use deep_debug.Sequence.{current, StateSequence}
use deep_debug.Transition.{cond_enqueue, apply_to, modify}
use deep_debug.Transition.Status.{Status, exists}
use deep_debug.Transition.Mutex.{get_mutex}
use deep_debug.Transition.Condition.{
  get_condition_variable, modify_cond_enqueue, modify_cond_wait, modify_cond_broadcast,
}
use deep_debug.Transition.Condition.Wakes.{broadcast_frees, wait_uses_wakeup}
use deep_debug.Transition.Consistent.Rules.{IsConsistent, AllConsistent}
use deep_debug.Transition.Consistent.Modify.{apply_to-AllConsistent}
use deep_debug.Fixtures.{both_started_program, running_object, locked_state}

-- Both threads sleep, and a signal has been sent.
abbrev sleeping_policy : Policy
sleeping_policy = record {
  broadcast_eligible_threads = [];
  wake_groups = (0 ∷ 1 ∷ []) ∷ [];
  wait_queue = 0 ∷ 1 ∷ [];
  threads_with_states = (0, CondStatus.waiting) ∷ (1, CondStatus.waiting) ∷ [];
}

abbrev sleeping_cv : ConditionVariable
sleeping_cv = new_condition_variable CondState.cv_waiting 1 4096 2 sleeping_policy

-- The second thread has been woken.
abbrev woken_policy : Policy
woken_policy = record {
  broadcast_eligible_threads = [];
  wake_groups = [];
  wait_queue = 0 ∷ [];
  threads_with_states = (0, CondStatus.waiting) ∷ (1, CondStatus.waiting) ∷ [];
}

is_ok-wake_thread_example :
    is_ok (SingleGroup.wake_thread 1 sleeping_policy) ≡ thread_can_exit 1 sleeping_policy
is_ok-wake_thread_example = is_ok-wake_thread 1 sleeping_policy

wake_one : wake_all (1 ∷ []) sleeping_policy ≡ ok woken_policy
unfolding wake_all SingleGroup.wake_thread
wake_one = refl

length-wake_all-le_example : 1 + pending_wakeups woken_policy ≤ pending_wakeups sleeping_policy
length-wake_all-le_example = length-wake_all-le (1 ∷ []) sleeping_policy woken_policy wake_one

-- The condition variable is object 3.
abbrev sleeping_diff : DiffState
sleeping_diff = record (diff_of (current both_started_program.state_seq)) {
  new_object_states =
      (3, record { history = ObjectState.condition_variable sleeping_cv ∷ [] }) ∷ [];
}

cv_sleeps : get_condition_variable sleeping_diff 3 ≡ ok sleeping_cv
unfolding get_condition_variable get_state_of_object as_condition_variable
cv_sleeps = refl

abbrev diff_after : Result (DiffState × Status) → DiffState
diff_after (ok r) = r.0
diff_after (err e) = sleeping_diff

abbrev broadcast_diff : DiffState
unfolding modify_cond_broadcast
broadcast_diff = diff_after (modify_cond_broadcast 0 3 sleeping_diff)

broadcast : modify_cond_broadcast 0 3 sleeping_diff ≡ ok (broadcast_diff, exists)
unfolding broadcast_diff modify_cond_broadcast get_condition_variable get_state_of_object
    add_state_for_obj Arbitrary.has_waiters
broadcast = refl

broadcast_frees_example :
    (cv : ConditionVariable) × (get_condition_variable broadcast_diff 3 ≡ ok cv)
    × (waiter_can_exit 0 cv ≡ true)
    × (ConditionVariable.has_waiters cv ≡ false)
    × (cv.associated_mutex ≡ 4096)
broadcast_frees_example =
    broadcast_frees 0 3 0 sleeping_diff broadcast_diff sleeping_cv cv_sleeps refl broadcast

abbrev wait_diff : DiffState
unfolding modify_cond_wait
wait_diff = diff_after (modify_cond_wait 1 3 2 sleeping_diff)

wait : modify_cond_wait 1 3 2 sleeping_diff ≡ ok (wait_diff, exists)
unfolding wait_diff modify_cond_wait get_condition_variable get_mutex get_state_of_object
    add_state_for_obj Sequence.get_state_of_object thread_can_exit SingleGroup.wake_thread
wait = refl

wait_uses_wakeup_example :
    (cv : ConditionVariable) × (get_condition_variable wait_diff 3 ≡ ok cv)
    × (thread_can_exit 1 sleeping_policy ≡ true)
    × (waiter_can_exit 1 cv ≡ false)
    × (pending_wakeups cv.policy + 1 ≤ pending_wakeups sleeping_policy)
wait_uses_wakeup_example = wait_uses_wakeup 1 3 2 sleeping_diff wait_diff sleeping_cv cv_sleeps wait

-- The first thread holds the mutex, and nobody sleeps on the condition variable yet.
abbrev fresh_cv : ConditionVariable
fresh_cv = new_condition_variable CondState.cv_initialized 65535 0 0 new_policy

abbrev cv_sequence : StateSequence
cv_sequence = record both_started_program.state_seq {
  visible_objects =
      running_object
      ∷ running_object
      ∷ record { history = locked_state ∷ [] }
      ∷ record { history = ObjectState.condition_variable fresh_cv ∷ [] }
      ∷ [];
  representative = record {
    visible_object_indices = (0, 0) ∷ (1, 0) ∷ (2, 0) ∷ (3, 0) ∷ [];
    max_visible_runner_id = 2;
  };
}

fresh_cv-IsConsistent : (cv : ConditionVariable) → ok fresh_cv ≡ ok cv → IsConsistent cv
fresh_cv-IsConsistent cv h =
    let same : fresh_cv ≡ cv = cc in subst IsConsistent same ((λ t e. cc), refl)

cv_sequence-AllConsistent : AllConsistent (diff_of (current cv_sequence))
unfolding get_condition_variable get_state_of_object Sequence.get_state_of_object
    as_condition_variable
cv_sequence-AllConsistent zero cv h = cc
cv_sequence-AllConsistent (suc zero) cv h = cc
cv_sequence-AllConsistent (suc (suc zero)) cv h = cc
cv_sequence-AllConsistent (suc (suc (suc zero))) cv h = fresh_cv-IsConsistent cv h
cv_sequence-AllConsistent (suc (suc (suc (suc id)))) cv h = cc

abbrev enqueued_diff : DiffState
unfolding apply_to
enqueued_diff = diff_after (apply_to (cond_enqueue 0 3 2) (current cv_sequence))

enqueue_applies : apply_to (cond_enqueue 0 3 2) (current cv_sequence) ≡ ok (enqueued_diff, exists)
unfolding enqueued_diff apply_to modify modify_cond_enqueue get_condition_variable get_mutex
    get_state_of_object add_state_for_obj Sequence.get_state_of_object Sequence.get_state_of_runner
enqueue_applies = refl

apply_to-AllConsistent_example : AllConsistent enqueued_diff
apply_to-AllConsistent_example =
    apply_to-AllConsistent (cond_enqueue 0 3 2) (current cv_sequence) enqueued_diff exists
      cv_sequence-AllConsistent enqueue_applies
