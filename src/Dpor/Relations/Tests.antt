-- ===== src/Dpor/Relations/Tests.antt =====
-- Two threads, one that locks a mutex and one that signals a condition variable.
use deep_debug.Prelude.{◌≡◌, refl, false, [], ◌∷◌, Result, ok, err}
use deep_debug.Policy.{Policy, CondStatus}
use deep_debug.Policy.Arbitrary
use deep_debug.Objects.{ObjectState}
use deep_debug.Objects.ConditionVariable.{CondState, new_condition_variable}
use deep_debug.State.Diff
use deep_debug.State.VisibleObject.{get_last_state_index}
use deep_debug.Sequence
use deep_debug.Sequence.{
  StateSequence, current, new_element, indices_from, push_new_states, finish_follow, follow,
}
use deep_debug.Sequence.Commuting.Follow.{IsSnapshot}
use deep_debug.Sequence.Commuting.Orders.{SameState}
use deep_debug.Transition.{mutex_lock, cond_signal, apply_to, modify}
use deep_debug.Transition.Status.{Status, exists}
use deep_debug.Transition.Mutex.{get_mutex, modify_mutex_lock}
use deep_debug.Transition.Condition.{
  get_condition_variable, modify_cond_signal, signal, waiting_threads,
}
use deep_debug.Dpor.Relations.{are_dependent, cond_signal_depends}
use deep_debug.Dpor.Relations.Symmetry.{tables}
use deep_debug.Dpor.Relations.Independent.{NamesKinds, are_dependent-commutes}
use deep_debug.Fixtures.{both_started_program, running_object, unlocked_state}

-- The second thread sleeps on the condition variable, object 3.
abbrev one_sleeps : Policy
one_sleeps = record {
  broadcast_eligible_threads = [];
  wake_groups = [];
  wait_queue = 1 ∷ [];
  threads_with_states = (1, CondStatus.waiting) ∷ [];
}

abbrev asleep : StateSequence
asleep = record both_started_program.state_seq {
  visible_objects =
      running_object
      ∷ running_object
      ∷ record { history = unlocked_state ∷ [] }
      ∷ record {
        history =
            ObjectState.condition_variable
              (new_condition_variable CondState.cv_waiting 1 4096 1 one_sleeps)
            ∷ [];
      }
      ∷ [];
  representative = record {
    visible_object_indices = (0, 0) ∷ (1, 0) ∷ (2, 0) ∷ (3, 0) ∷ [];
    max_visible_runner_id = 2;
  };
}

asleep-IsSnapshot : IsSnapshot asleep
unfolding new_element indices_from get_last_state_index
asleep-IsSnapshot = refl

abbrev state_after : Result (StateSequence × Status) → StateSequence
state_after (ok r) = r.0
state_after (err e) = asleep

abbrev locked : StateSequence
unfolding follow
locked = state_after (follow (mutex_lock 0 2) asleep)

abbrev signaled : StateSequence
unfolding follow
signaled = state_after (follow (cond_signal 1 3) asleep)

lock_follows : follow (mutex_lock 0 2) asleep ≡ ok (locked, exists)
unfolding locked follow finish_follow push_new_states apply_to modify modify_mutex_lock get_mutex
    Diff.get_state_of_object Diff.add_state_for_obj Sequence.get_state_of_object
    Sequence.get_state_of_runner
lock_follows = refl

signal_follows : follow (cond_signal 1 3) asleep ≡ ok (signaled, exists)
unfolding signaled follow finish_follow push_new_states apply_to modify modify_cond_signal
    get_condition_variable signal waiting_threads Diff.get_state_of_object Diff.add_state_for_obj
    Sequence.get_state_of_object Sequence.get_state_of_runner Arbitrary.has_waiters
signal_follows = refl

independent : are_dependent tables (mutex_lock 0 2) (cond_signal 1 3) ≡ false
unfolding tables are_dependent cond_signal_depends
independent = refl

names_mutex : NamesKinds (current asleep) (mutex_lock 0 2)
unfolding Sequence.get_state_of_object
names_mutex = (_, refl)

names_condition : NamesKinds (current asleep) (cond_signal 1 3)
unfolding Sequence.get_state_of_object
names_condition = (_, refl)

are_dependent-commutes_example :
    (s12 : StateSequence) × (s21 : StateSequence) × (follow (cond_signal 1 3) locked
      ≡ ok (s12, exists))
    × (follow (mutex_lock 0 2) signaled ≡ ok (s21, exists))
    × SameState s12 s21
are_dependent-commutes_example =
    are_dependent-commutes (mutex_lock 0 2) (cond_signal 1 3) asleep locked signaled exists exists
      refl refl names_mutex names_condition asleep-IsSnapshot independent lock_follows
      signal_follows
