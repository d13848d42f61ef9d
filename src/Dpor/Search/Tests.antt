-- ===== src/Dpor/Search/Tests.antt =====
-- A process of two threads that lock and unlock a mutex, searched.
mod Stuck
use deep_debug.Prelude.{
  ℕ, zero, suc, ◌+◌, ◌==◌, ◌≡◌, ◌≢◌, refl, List, [], ◌∷◌, Option, none, some, if◌then◌else◌, Result,
  ok, err, arith, true, false, length,
}
use deep_debug.Dpor.Context.Expand.{expand_trace}
use deep_debug.Transition.Mutex.{modify_mutex_lock, modify_mutex_unlock, get_mutex}
use deep_debug.Dpor.Context.{happens_before_thread, threads_race_after}
use deep_debug.Dpor.ClockVector.{maximum, value_for}
use deep_debug.Fixtures.{found_program, started_program, both_started_program}
use deep_debug.Coordinator.{Coordinator, get_model_of_object}
use deep_debug.Coordinator.Callbacks.{
  mutex_lock_callback, process_exit_callback, thread_exit_callback, mutex_unlock_callback,
}
use deep_debug.Sequence.{follow, indices_from, consume_into_subsequence}
use deep_debug.Sequence
use deep_debug.State.Diff
use deep_debug.State.VisibleObject.{get_last_state_index}
use deep_debug.Transition.{apply_to, modify, is_enabled_in}
use deep_debug.Transition.Thread.{modify_thread_start, modify_thread_exit, modify_process_exit}
use deep_debug.Coordinator.TransitionType
use deep_debug.Coordinator.Registry.{
  Mailbox, Memory, get_callback_for, first_pointer, default_registry, register_all,
  default_callbacks,
}
use deep_debug.Coordinator.Session.{
  ProcessSource, Session, start_session, assign_new_process_handle, execute_runner, follow_mailbox,
  return_to_depth, replay,
}
use deep_debug.Coordinator.Synchronized.{
  IsSynchronized, start_session-IsSynchronized, execute_runner-IsSynchronized,
  return_to_depth-IsSynchronized,
}
use deep_debug.Coordinator.Schedule.{
  run, go_back, obey_all, Implements, obey_all-Implements, start_session-Implements,
}
use deep_debug.Program.{
  restore_model_at_depth, model_execution_of, runner_to_index_from_top, get_enabled_runners,
  is_in_deadlock,
}
use deep_debug.Dpor.Relations.Symmetry.{tables}
use deep_debug.Dpor.Search.Termination.{verify_using-ne-none, start_of}
use deep_debug.Dpor.Relations.{
  Relations, default_relations, are_independent, are_coenabled, are_dependent,
  mutex_lock_coenabled_with, mutex_lock_depends,
}
use deep_debug.Checkpoint.{Message, do_model_checking, do_model_checking_from_dmtcp_ckpt_file}
use deep_debug.Checkpoint.Ends.{checks_end}
use deep_debug.Dpor.Search.Cut.{Cut, pop_exhausted-Cut}
use deep_debug.Dpor.Search.{pop_exhausted}
use deep_debug.Dpor.Search.Aligned.{IsAligned, Reaches-IsAligned}
use deep_debug.Dpor.Search.Reaches.{at_once, after_round}
use deep_debug.Dpor.StackItem.{
  StackItem, get_first_enabled_runner, new_stack_item, fresh_clocks, backtrack_set_pop_first,
}
use deep_debug.Dpor.Search.{
  Search, explore, explore_step, continue_dpor_by_expanding_trace_with, unfinished, stopped,
  explored, search_round, Configuration, Callbacks, Outcome, verify_using, report_deadlock,
  pop_exhausted, abnormal_exit, follow_backtrack, backtrack,
}

-- How many steps each of the two threads has made.
abbrev Steps : Type 0
Steps = ℕ × ℕ

abbrev address : List ℕ
address = 0 ∷ 16 ∷ 0 ∷ 0 ∷ 0 ∷ 0 ∷ 0 ∷ 0 ∷ []

-- What a thread writes into its mailbox after its n-th step.
-- The first one ends the process once it is done.
abbrev mailbox_after : ℕ → ℕ → Mailbox
mailbox_after r zero = record { type = TransitionType.mutex_lock; cnts = address }
mailbox_after r (suc zero) = record { type = TransitionType.mutex_unlock; cnts = address }
mailbox_after zero (suc (suc n)) = record {
  type = TransitionType.process_exit;
  cnts = 0 ∷ 0 ∷ 0 ∷ 0 ∷ [];
}
mailbox_after (suc r) (suc (suc n)) = record { type = TransitionType.thread_exit; cnts = [] }

abbrev two_lockers : ProcessSource Steps
two_lockers = record {
  force_new_process = ok (0, 0);
  execute_runner = λ r s.
      if r == 0
      then ok ((s.0 + 1, s.1), mailbox_after 0 s.0)
      else ok ((s.0, s.1 + 1), mailbox_after 1 s.1);
  memory = λ s. record {
    remote_mutex_is_static_initializer = λ a. false;
    remote_cond_is_static_initializer = λ a. false;
  };
}

abbrev found_session : Session Steps
found_session = record {
  coordinator = record {
    current_program_model = found_program;
    system_address_mapping = (4096, 2) ∷ [];
  };
  current_process_handle = some (0, 0);
}

abbrev configured : Relations → Configuration
configured r = record { relations = r; maximum_total_execution_depth = 10 }

abbrev all_callbacks : Callbacks
all_callbacks = record {
  deadlock = true;
  trace_completed = true;
  abnormal_termination = true;
  nonzero_exit_code = true;
  undefined_behavior = true;
}

abbrev started_session : Session Steps
started_session = record {
  coordinator = record found_session.coordinator { current_program_model = started_program };
  current_process_handle = some (1, 0);
}

started : start_session two_lockers found_session.coordinator ≡ ok found_session
unfolding start_session assign_new_process_handle
started = refl

found_session-IsSynchronized : IsSynchronized two_lockers found_session
found_session-IsSynchronized =
    start_session-IsSynchronized two_lockers found_session.coordinator found_session refl
      (λ r t h. ground arith) started

ran : execute_runner two_lockers 0 found_session ≡ ok started_session
unfolding execute_runner follow_mailbox default_registry register_all default_callbacks
    model_execution_of get_callback_for mutex_lock_callback get_model_of_object first_pointer follow
    apply_to Sequence.get_state_of_runner modify modify_thread_start Diff.get_state_of_runner
    indices_from get_last_state_index
ran = refl

obeyed : obey_all two_lockers (run 0 ∷ run 1 ∷ go_back 1 ∷ []) found_session ≡ ok started_session
unfolding execute_runner follow_mailbox default_registry register_all default_callbacks
    model_execution_of get_callback_for mutex_lock_callback get_model_of_object first_pointer follow
    apply_to Sequence.get_state_of_runner modify modify_thread_start Diff.get_state_of_runner
    indices_from get_last_state_index return_to_depth restore_model_at_depth replay
    assign_new_process_handle runner_to_index_from_top consume_into_subsequence
obeyed = refl

obey_all-Implements_example : Implements two_lockers (0 ∷ []) started_session
obey_all-Implements_example =
    obey_all-Implements two_lockers (run 0 ∷ run 1 ∷ go_back 1 ∷ []) [] found_session
      started_session
      (start_session-Implements two_lockers found_session.coordinator found_session refl
        (λ r t h. ground arith) started)
      obeyed

-- Runner 1 is scheduled at the first item, nothing at the second.
abbrev half_searched : List StackItem
half_searched =
    record (new_stack_item [] fresh_clocks none (0 ∷ 1 ∷ [])) { backtrack_set = 1 ∷ [] }
    ∷ new_stack_item [] fresh_clocks none (1 ∷ [])
    ∷ []

pop_exhausted-Cut_example : Cut half_searched
unfolding pop_exhausted
pop_exhausted-Cut_example = pop_exhausted-Cut half_searched refl

verify_using-ne-none_example :
    verify_using two_lockers (configured tables) all_callbacks 8000000000000000 found_session ≢ none
verify_using-ne-none_example =
    verify_using-ne-none two_lockers (configured tables) all_callbacks 8000000000000000
      found_session (λ r t h. ground arith) (omega arith)

abbrev first_search : Search Steps
first_search = record {
  session = found_session;
  stack = new_stack_item [] fresh_clocks none (0 ∷ 1 ∷ []) ∷ [];
  stats = record { trace_id = 1; total_transitions = 0 };
  events = [];
}

abbrev second_search : Search Steps
unfolding search_round tables
second_search = elim (search_round two_lockers (configured tables) all_callbacks first_search) [
  | unfinished ↦ first_search
  | stopped outcome ↦ first_search
  | explored t ↦ t
]

went_round :
    search_round two_lockers (configured tables) all_callbacks first_search ≡ explored second_search
unfolding second_search explore explore_step continue_dpor_by_expanding_trace_with execute_runner
    get_first_enabled_runner follow_mailbox get_callback_for default_registry mutex_lock_callback
    get_model_of_object first_pointer model_execution_of follow apply_to
    Sequence.get_state_of_runner modify modify_thread_start Diff.get_state_of_runner expand_trace
    get_enabled_runners is_enabled_in indices_from get_last_state_index modify_mutex_lock get_mutex
    Diff.add_state_for_obj are_dependent are_coenabled happens_before_thread value_for abnormal_exit
    mutex_unlock_callback modify_mutex_unlock threads_race_after process_exit_callback
    modify_process_exit Diff.add_state_for_runner maximum mutex_lock_coenabled_with
    mutex_lock_depends thread_exit_callback modify_thread_exit report_deadlock is_in_deadlock
    pop_exhausted backtrack return_to_depth assign_new_process_handle restore_model_at_depth
    runner_to_index_from_top consume_into_subsequence replay follow_backtrack
    backtrack_set_pop_first are_independent
went_round = refl

Reaches-IsAligned_example : IsAligned two_lockers second_search
unfolding start_of second_search
Reaches-IsAligned_example =
    Reaches-IsAligned two_lockers (configured tables) all_callbacks found_session (0 ∷ 1 ∷ [])
      second_search found_session-IsSynchronized refl (after_round at_once went_round)

checks_end_example :
    (do_model_checking two_lockers (configured tables) 8000000000000000 ≢ ok none)
    × ((mailboxes : ℕ → Mailbox) (messages : List Message)
        → do_model_checking_from_dmtcp_ckpt_file two_lockers
            (configured tables)
            8000000000000000
            mailboxes
            messages
          ≢ ok none)
checks_end_example = checks_end two_lockers (configured tables) 8000000000000000 (omega arith)
