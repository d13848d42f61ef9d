-- ===== src/Coordinator/Tests.antt =====
-- Mutexes and threads that the coordinator meets: the theorems applied to them.
use deep_debug.Prelude.{
  ℕ, ◌==◌, ◌≡◌, refl, ◌||◌, Bool, [], ◌∷◌, ok, err, Result, is_ok, arith, already_bound, ◌>>=◌,
}
use deep_debug.Objects.{ObjectState}
use deep_debug.Objects.Mutex.{MutexState, new_mutex, rid_invalid}
use deep_debug.State.Injective.{inserted, insert}
use deep_debug.Sequence
use deep_debug.Sequence.{
  add_object, point_to_next_state_for, record_new_runner, get_objid_for_runner, slice_objects,
  contains_object_with_id, contains_runner_with_id, is_runner, get_runner_id_for_obj, follow,
}
use deep_debug.Transition.{Transition, mutex_lock, apply_to, modify}
use deep_debug.Program.{
  restore_model_at_depth, discover_runner, model_execution_of, runner_to_index_from_top,
}
use deep_debug.State.Diff
use deep_debug.State.VisibleObject.{get_last_state_index}
use deep_debug.Transition.Thread.{modify_thread_start}
use deep_debug.Coordinator.{
  Coordinator, get_model_of_object, get_model_of_runner, contains_object, observe_object,
  observe_runner, bind_runner,
}
use deep_debug.Coordinator.Callbacks.{mutex_lock_callback, thread_create_callback, ensure_object}
use deep_debug.Coordinator.Binding.{IsBound, Binds, observe_object-Binds}
use deep_debug.Coordinator.Naming.{Locks, mutex_lock_callback-Locks, is_ok-mutex_lock_callback}
use deep_debug.Fixtures.{found_program, started_program}

-- The mutex of the small program is bound, and memory at 8192 looks statically initialized.
abbrev before_lock : Coordinator
before_lock = record {
  current_program_model = found_program;
  system_address_mapping = (4096, 2) ∷ [];
}

before_lock-IsBound : IsBound before_lock
before_lock-IsBound = record {
  known = λ handle id e. ground arith;
  distinct = λ handle other id e f. ground arith;
}

abbrev static_at : ℕ → Bool
static_at handle = handle == 8192

abbrev after_lock : Coordinator
after_lock = record {
  current_program_model = record found_program {
    state_seq =
        (add_object (ObjectState.mutex (new_mutex MutexState.unlocked 8192 rid_invalid))
          found_program.state_seq).0;
  };
  system_address_mapping = (4096, 2) ∷ (8192, 3) ∷ [];
}

observed :
    observe_object 8192
      (ObjectState.mutex (new_mutex MutexState.unlocked 8192 rid_invalid))
      before_lock
    ≡ ok (after_lock, 3)
unfolding observe_object add_object get_model_of_object
observed = refl

observe_object-Binds_example : Binds 8192 3 before_lock after_lock
observe_object-Binds_example =
    observe_object-Binds 8192 3 (ObjectState.mutex (new_mutex MutexState.unlocked 8192 rid_invalid))
      before_lock after_lock before_lock-IsBound (omega arith) observed

found_static : mutex_lock_callback static_at 1 8192 before_lock ≡ ok (after_lock, mutex_lock 1 3)
unfolding mutex_lock_callback ensure_object observe_object add_object get_model_of_object
found_static = refl

mutex_lock_callback-Locks_example : Locks 1 8192 (mutex_lock 1 3) after_lock
mutex_lock_callback-Locks_example =
    mutex_lock_callback-Locks static_at 1 8192 (mutex_lock 1 3) before_lock after_lock
      before_lock-IsBound (omega arith) found_static

is_ok-mutex_lock_callback_example :
    is_ok (mutex_lock_callback static_at 1 12288 before_lock)
    ≡ (contains_object 12288 before_lock || static_at 12288)
is_ok-mutex_lock_callback_example = is_ok-mutex_lock_callback static_at 1 12288 before_lock

-- The second thread starts, and is then found to create a thread. Back at depth 0 it is chosen
-- first, and is found to create the same thread: the coordinator refuses to bind it again.
abbrev create_again : Result (Coordinator × Transition)
create_again = do
  first ←
      thread_create_callback 1 8192
        (record { current_program_model = started_program; system_address_mapping = [] })
  created ← model_execution_of 1 first.1 first.0.current_program_model
  back ← restore_model_at_depth 0 created
  thread_create_callback 1 8192 (record first.0 { current_program_model = back })

cannot_create_again : create_again ≡ err already_bound
unfolding thread_create_callback observe_runner bind_runner discover_runner Sequence.add_runner
    inserted insert add_object point_to_next_state_for record_new_runner get_objid_for_runner
    slice_objects contains_object_with_id contains_runner_with_id is_runner get_runner_id_for_obj
    get_model_of_object get_model_of_runner restore_model_at_depth model_execution_of
    Sequence.indices_from get_last_state_index follow apply_to Sequence.get_state_of_runner modify
    modify_thread_start Diff.get_state_of_runner Diff.get_state_of_object Diff.add_state_for_obj
    runner_to_index_from_top Sequence.consume_into_subsequence
cannot_create_again = refl
