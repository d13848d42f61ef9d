-- ===== src/Transition/Tests.antt =====
-- Transitions on the small program: the theorems applied to them.
mod Condition
use deep_debug.Prelude.{
  ℕ, ◌≡◌, refl, true, false, [], ◌∷◌, ok, err, some, none, arith, zero, suc, ◌==◌, contains, Bool,
  List, Option, Result, ◌+◌, ◌≤◌, ◌<◌,
}
use deep_debug.Policy.{Policy, CondStatus, new_policy}
use deep_debug.Policy.Default.{thread_can_exit}
use deep_debug.Policy.SingleGroup
use deep_debug.Policy.Arbitrary
use deep_debug.Policy.Wakeups.{pending_wakeups}
use deep_debug.Objects.{ObjectState, as_condition_variable}
use deep_debug.Objects.Mutex.{rid_invalid}
use deep_debug.Objects.Semaphore.{new_semaphore}
use deep_debug.Objects.ConditionVariable
use deep_debug.Objects.ConditionVariable.{
  ConditionVariable, CondState, new_condition_variable, waiter_can_exit,
}
use deep_debug.State.{State}
use deep_debug.State.Diff
use deep_debug.State.Diff.{DiffState, diff_of}
use deep_debug.State.Diff.Reads.{get_state_of_object-add_state_for_obj}
use deep_debug.Sequence
use deep_debug.Sequence.{current}
use deep_debug.Transition.{Transition, cond_enqueue, apply_to, modify}
use deep_debug.Transition.Status.{Status, exists, disabled, was_taken}
use deep_debug.Transition.Mutex.{get_mutex, modify_mutex_lock, modify_mutex_unlock}
use deep_debug.Transition.Mutex.Exclusion.{lock_excludes, unlock_releases}
use deep_debug.Transition.Semaphore.{get_semaphore, modify_sem_post, modify_sem_wait}
use deep_debug.Transition.Semaphore.Count.{sem_wait-sem_post, sem_wait-takes_one}
use deep_debug.Transition.Condition.{
  get_condition_variable, modify_cond_enqueue, modify_cond_wait, modify_cond_broadcast,
}
use deep_debug.Transition.Condition.Wakes.{broadcast_frees, wait_uses_wakeup}
use deep_debug.Transition.Consistent.Rules.{IsConsistent, AllConsistent}
use deep_debug.Transition.Consistent.Modify.{apply_to-AllConsistent}
use deep_debug.Fixtures.{both_started_program, locked_program, locked_state, unlocked_state}

-- The diff of a state with one more object state, under the id of the object.
abbrev with_state : ℕ → ObjectState → State → DiffState
with_state id o s = record (diff_of s) {
  new_object_states = (id, record { history = o ∷ [] }) ∷ [];
}

abbrev unlocked_diff : DiffState
unlocked_diff = diff_of (current both_started_program.state_seq)

abbrev locked_diff : DiffState
locked_diff = with_state 2 locked_state (current both_started_program.state_seq)

first_locks : modify_mutex_lock 0 2 unlocked_diff ≡ ok (locked_diff, exists)
unfolding modify_mutex_lock get_mutex Diff.get_state_of_object Diff.add_state_for_obj
    Sequence.get_state_of_object
first_locks = refl

lock_excludes_example :
    (modify_mutex_lock 1 2 locked_diff ≡ ok (locked_diff, disabled))
    × (was_taken (modify_mutex_unlock 1 2 locked_diff) ≡ (0 == 1))
lock_excludes_example = lock_excludes 0 1 2 unlocked_diff locked_diff first_locks

abbrev released_diff : DiffState
released_diff = record locked_diff {
  new_object_states = (2, record { history = locked_state ∷ unlocked_state ∷ [] }) ∷ [];
}

first_unlocks : modify_mutex_unlock 0 2 locked_diff ≡ ok (released_diff, exists)
unfolding modify_mutex_unlock get_mutex Diff.get_state_of_object Diff.add_state_for_obj
    Sequence.get_state_of_object
first_unlocks = refl

unlock_releases_example :
    (modify_mutex_lock 0 2 locked_diff ≡ ok (locked_diff, disabled))
    × (was_taken (modify_mutex_lock 1 2 released_diff) ≡ true)
    × (modify_mutex_unlock 1 2 released_diff ≡ ok (released_diff, disabled))
unlock_releases_example = unlock_releases 0 1 2 locked_diff released_diff first_unlocks

-- A semaphore, object 3, whose count is 0 or 1.
abbrev empty_diff : DiffState
empty_diff =
    with_state 3 (ObjectState.semaphore (new_semaphore 0)) (current locked_program.state_seq)

abbrev posted_diff : DiffState
posted_diff = record empty_diff {
  new_object_states =
      (
        3,
        record {
          history =
              ObjectState.semaphore (new_semaphore 0)
              ∷ ObjectState.semaphore (new_semaphore 1)
              ∷ [];
        },
      )
      ∷ [];
}

abbrev taken_diff : DiffState
taken_diff = record empty_diff {
  new_object_states =
      (
        3,
        record {
          history =
              ObjectState.semaphore (new_semaphore 0)
              ∷ ObjectState.semaphore (new_semaphore 1)
              ∷ ObjectState.semaphore (new_semaphore 0)
              ∷ [];
        },
      )
      ∷ [];
}

count_is_zero : get_semaphore empty_diff 3 ≡ ok (new_semaphore 0)
unfolding get_semaphore Diff.get_state_of_object
count_is_zero = refl

post : modify_sem_post 0 3 empty_diff ≡ ok (posted_diff, exists)
unfolding modify_sem_post get_semaphore Diff.get_state_of_object Diff.add_state_for_obj
post = refl

sem_wait-sem_post_example :
    (d : DiffState) × (modify_sem_wait 1 3 posted_diff ≡ ok (d, exists))
    × (get_semaphore d 3 ≡ ok (new_semaphore 0))
sem_wait-sem_post_example =
    sem_wait-sem_post 0 1 3 (new_semaphore 0) empty_diff posted_diff count_is_zero (omega arith)
      post

count_is_one : get_semaphore posted_diff 3 ≡ ok (new_semaphore 1)
unfolding get_semaphore Diff.get_state_of_object
count_is_one = refl

wait : modify_sem_wait 1 3 posted_diff ≡ ok (taken_diff, exists)
unfolding modify_sem_wait get_semaphore Diff.get_state_of_object Diff.add_state_for_obj
wait = refl

sem_wait-takes_one_example :
    (n : ℕ) × (1 ≡ n + 1) × (1 < 2147483648) × (get_semaphore taken_diff 3 ≡ ok (new_semaphore n))
sem_wait-takes_one_example =
    sem_wait-takes_one 1 3 (new_semaphore 1) posted_diff taken_diff count_is_one wait
