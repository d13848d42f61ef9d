-- ===== src/Fixtures.antt =====
-- A small program for the tests: two threads that share a mutex, as the model has it after each of
-- their first steps.
use deep_debug.Prelude.{ℕ, List, [], ◌∷◌}
use deep_debug.Objects.{ObjectState}
use deep_debug.Objects.Thread.{ThreadState}
use deep_debug.Objects.Mutex.{MutexState, new_mutex, rid_invalid}
use deep_debug.State.VisibleObject.{VisibleObject}
use deep_debug.Sequence.{Element}
use deep_debug.Transition.{Transition, thread_start, mutex_lock, mutex_unlock}
use deep_debug.Program.{Program, PendingTransitions}

abbrev pub running_object : VisibleObject
running_object = record { history = ObjectState.thread ThreadState.running ∷ [] }

abbrev pub unlocked_state : ObjectState
unlocked_state = ObjectState.mutex (new_mutex MutexState.unlocked 4096 rid_invalid)

abbrev pub locked_state : ObjectState
locked_state = ObjectState.mutex (new_mutex MutexState.locked 4096 0)

-- The element that shows state `i` of the mutex, object 2.
abbrev pub element_at : ℕ → Element
element_at i = record {
  visible_object_indices = (0, 0) ∷ (1, 0) ∷ (2, i) ∷ [];
  max_visible_runner_id = 2;
}

abbrev pub program_at :
    List ObjectState → List Element → Element → List Transition → PendingTransitions → Program
program_at mutex_history earlier last trace next_steps = record {
  state_seq = record {
    runner_to_obj_map = record { forward = (0, 0) ∷ (1, 1) ∷ []; backward = (0, 0) ∷ (1, 1) ∷ [] };
    visible_objects = running_object ∷ running_object ∷ record { history = mutex_history } ∷ [];
    earlier = earlier;
    representative = last;
  };
  trace = trace;
  next_steps = next_steps;
}

-- Both threads are known and about to start.
abbrev pub found_program : Program
found_program =
    program_at (unlocked_state ∷ []) [] (element_at 0) []
      ((0, thread_start 0) ∷ (1, thread_start 1) ∷ [])

-- The first thread has started and will lock the mutex.
abbrev pub started_program : Program
started_program =
    program_at (unlocked_state ∷ []) (element_at 0 ∷ []) (element_at 0) (thread_start 0 ∷ [])
      ((0, mutex_lock 0 2) ∷ (1, thread_start 1) ∷ [])

-- The second one has started too.
abbrev pub both_started_program : Program
both_started_program =
    program_at (unlocked_state ∷ []) (element_at 0 ∷ element_at 0 ∷ []) (element_at 0)
      (thread_start 0 ∷ thread_start 1 ∷ []) ((0, mutex_lock 0 2) ∷ (1, mutex_lock 1 2) ∷ [])

-- The first thread holds the mutex.
abbrev pub locked_program : Program
locked_program =
    program_at (unlocked_state ∷ locked_state ∷ [])
      (element_at 0 ∷ element_at 0 ∷ element_at 0 ∷ []) (element_at 1)
      (thread_start 0 ∷ thread_start 1 ∷ mutex_lock 0 2 ∷ [])
      ((0, mutex_unlock 0 2) ∷ (1, mutex_lock 1 2) ∷ [])

-- The first thread locks the mutex again, and neither can go on.
abbrev pub deadlocked_program : Program
deadlocked_program = record locked_program {
  next_steps = (0, mutex_lock 0 2) ∷ (1, mutex_lock 1 2) ∷ [];
}
