-- ===== src/Dpor/Search/Tests/Stuck.antt =====
-- A process of two threads that get stuck, searched.
use deep_debug.Prelude.{◌≡◌, refl, [], ◌∷◌, none, some, ok, true, false}
use deep_debug.Dpor.Context.Expand.{expand_trace}
use deep_debug.Transition.Mutex.{modify_mutex_lock, modify_mutex_unlock, get_mutex}
use deep_debug.Dpor.Context.{happens_before_thread, threads_race_after}
use deep_debug.Dpor.ClockVector.{maximum, value_for}
use deep_debug.Coordinator.{get_model_of_object}
use deep_debug.Coordinator.Callbacks.{
  mutex_lock_callback, process_exit_callback, thread_exit_callback, mutex_unlock_callback,
}
use deep_debug.Sequence.{follow, indices_from, consume_into_subsequence}
use deep_debug.Sequence
use deep_debug.State.Diff
use deep_debug.State.VisibleObject.{get_last_state_index}
use deep_debug.Transition.{apply_to, modify, is_enabled_in}
use deep_debug.Transition.Thread.{modify_thread_start, modify_thread_exit, modify_process_exit}
use deep_debug.Coordinator.TransitionType
use deep_debug.Coordinator.Registry.{get_callback_for, first_pointer, default_registry}
use deep_debug.Coordinator.Session.{
  ProcessSource, assign_new_process_handle, execute_runner, follow_mailbox, return_to_depth, replay,
}
use deep_debug.Program.{
  restore_model_at_depth, model_execution_of, runner_to_index_from_top, get_enabled_runners,
  is_in_deadlock,
}
use deep_debug.Dpor.Relations.Symmetry.{tables}
use deep_debug.Dpor.Search.Termination.{start_of}
use deep_debug.Dpor.Relations.{
  are_independent, are_coenabled, are_dependent, mutex_lock_coenabled_with, mutex_lock_depends,
}
use deep_debug.Dpor.Search.Reaches.{at_once}
use deep_debug.Dpor.StackItem.{get_first_enabled_runner, backtrack_set_pop_first}
use deep_debug.Dpor.Search.{
  Search, explore, explore_step, continue_dpor_by_expanding_trace_with, unfinished, stopped,
  explored, search_round, Callbacks, Outcome, verify_using, report_deadlock, pop_exhausted,
  abnormal_exit, follow_backtrack, backtrack,
}
use deep_debug.Dpor.Search.Reports.{verify_using-reports}
use deep_debug.Dpor.Search.Events.{events_of}
use deep_debug.Prelude.{Mem}
use deep_debug.Dpor.Search.{deadlock, returned, search_rounds}
use deep_debug.Coordinator.Session.{current_program_model}
use deep_debug.Dpor.Search.Tests.{
  Steps, address, two_lockers, found_session, configured, first_search,
}

-- Both threads lock the mutex and then lock it again.
abbrev stubborn_lockers : ProcessSource Steps
stubborn_lockers = record two_lockers {
  execute_runner = λ r s. ok (s, record { type = TransitionType.mutex_lock; cnts = address });
}

abbrev only_deadlocks : Callbacks
only_deadlocks = record {
  deadlock = true;
  trace_completed = false;
  abnormal_termination = false;
  nonzero_exit_code = false;
  undefined_behavior = false;
}

abbrev stuck_search : Search Steps
unfolding explore tables
stuck_search = elim (explore stubborn_lockers (configured tables) only_deadlocks 10 first_search) [
  | unfinished ↦ first_search
  | stopped outcome ↦ first_search
  | explored t ↦ t
]

abbrev stubborn_outcome : Outcome
unfolding verify_using tables
stubborn_outcome =
    elim (verify_using stubborn_lockers (configured tables) only_deadlocks 20 found_session) [
      | none ↦ returned []
      | some o ↦ o
    ]

runs :
    (get_enabled_runners (current_program_model found_session) ≡ ok (0 ∷ 1 ∷ []))
    × (verify_using stubborn_lockers (configured tables) only_deadlocks 20 found_session
        ≡ some stubborn_outcome)
    × (explore stubborn_lockers (configured tables) only_deadlocks 10 first_search
        ≡ explored stuck_search)
    × (is_in_deadlock (current_program_model stuck_search.session) ≡ ok true)
unfolding stubborn_outcome verify_using search_rounds search_round stuck_search explore explore_step
    continue_dpor_by_expanding_trace_with execute_runner get_first_enabled_runner follow_mailbox
    get_callback_for default_registry mutex_lock_callback get_model_of_object first_pointer
    model_execution_of follow apply_to Sequence.get_state_of_runner modify modify_thread_start
    Diff.get_state_of_runner expand_trace get_enabled_runners is_enabled_in indices_from
    get_last_state_index modify_mutex_lock get_mutex Diff.add_state_for_obj are_dependent
    are_coenabled happens_before_thread value_for abnormal_exit mutex_unlock_callback
    modify_mutex_unlock threads_race_after process_exit_callback modify_process_exit
    Diff.add_state_for_runner maximum mutex_lock_coenabled_with mutex_lock_depends
    thread_exit_callback modify_thread_exit report_deadlock is_in_deadlock pop_exhausted backtrack
    return_to_depth assign_new_process_handle restore_model_at_depth runner_to_index_from_top
    consume_into_subsequence replay follow_backtrack backtrack_set_pop_first are_independent
runs = (refl, refl, refl, refl)

verify_using-reports_example :
    Mem
      (deadlock (current_program_model stuck_search.session).trace stuck_search.stats)
      (events_of stubborn_outcome)
unfolding start_of
verify_using-reports_example =
    let (enabled, searched, explored_all, stuck) = runs in
    verify_using-reports stubborn_lockers (configured tables) only_deadlocks 20 found_session
      (0 ∷ 1 ∷ []) stubborn_outcome first_search stuck_search enabled searched at_once explored_all
      refl stuck
