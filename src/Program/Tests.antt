-- ===== src/Program/Tests.antt =====
-- The model of the small program: the theorems applied to it.
use deep_debug.Prelude.{ℕ, subst, ◌≡◌, ◌≢◌, refl, true, false, [], ◌∷◌, ok, arith, contains, List}
use deep_debug.Transition.{thread_start, mutex_lock, mutex_unlock, is_enabled_in, apply_to, modify}
use deep_debug.Sequence
use deep_debug.Sequence.{
  follow, current, contains_object_with_id, add_object, point_to_next_state_for, record_new_runner,
}
use deep_debug.State.Diff
use deep_debug.State.VisibleObject.{get_last_state_index}
use deep_debug.Transition.Thread.{modify_thread_start}
use deep_debug.Transition.Mutex.{get_mutex, modify_mutex_lock}
use deep_debug.Program.{
  Program, model_execution_of, restore_model_at_depth, is_in_deadlock, get_enabled_runners,
}
use deep_debug.Program.Rollback.{IsWellFormed, Runs, start, later, model_execution_of-IsWellFormed}
use deep_debug.Program.Restore.{
  IsRestored, restore_model_at_depth-Runs, restore_model_at_depth-zero,
}
use deep_debug.Program.Enabled.{HasEnabled, contains-get_enabled_runners}
use deep_debug.Program.Deadlock.{ExitedSays, is_in_deadlock-ExitedSays, is_in_deadlock-none_enabled}
use deep_debug.Program.{discover_object, discover_runner}
use deep_debug.Program.Reached.{
  Reached, main, object, runner, executed, IsSettled, Reached-IsSettled, main_program,
  starting_from_main_lem,
}
use deep_debug.Objects.Thread.{ThreadState}
use deep_debug.State.Injective.{inserted, insert}
use deep_debug.Fixtures.{
  running_object, unlocked_state, found_program, started_program, both_started_program,
  locked_program, deadlocked_program,
}

found_program-IsWellFormed : IsWellFormed found_program
unfolding contains_object_with_id
found_program-IsWellFormed = record {
  keyed = λ r t h. ground arith;
  fresh = ((refl, refl, omega arith, (refl, refl, omega arith, (refl, refl, omega arith, tt))));
  depth = refl;
}

first_step : model_execution_of 0 (mutex_lock 0 2) found_program ≡ ok started_program
unfolding model_execution_of Sequence.indices_from get_last_state_index follow apply_to
    Sequence.get_state_of_runner modify modify_thread_start modify_mutex_lock
    Diff.get_state_of_runner get_mutex Diff.get_state_of_object Diff.add_state_for_obj
first_step = refl

second_step : model_execution_of 1 (mutex_lock 1 2) started_program ≡ ok both_started_program
unfolding model_execution_of Sequence.indices_from get_last_state_index follow apply_to
    Sequence.get_state_of_runner modify modify_thread_start modify_mutex_lock
    Diff.get_state_of_runner get_mutex Diff.get_state_of_object Diff.add_state_for_obj
second_step = refl

third_step : model_execution_of 0 (mutex_unlock 0 2) both_started_program ≡ ok locked_program
unfolding model_execution_of Sequence.indices_from get_last_state_index follow apply_to
    Sequence.get_state_of_runner modify modify_thread_start modify_mutex_lock
    Diff.get_state_of_runner get_mutex Diff.get_state_of_object Diff.add_state_for_obj
third_step = refl

model_execution_of-IsWellFormed_example : IsWellFormed started_program
model_execution_of-IsWellFormed_example =
    model_execution_of-IsWellFormed 0 (mutex_lock 0 2) found_program started_program
      found_program-IsWellFormed first_step

started_program-IsWellFormed : IsWellFormed started_program
started_program-IsWellFormed =
    model_execution_of-IsWellFormed 0 (mutex_lock 0 2) found_program started_program
      found_program-IsWellFormed first_step

locked_program-Runs : Runs started_program locked_program
locked_program-Runs =
    later {q = both_started_program} 0 (mutex_unlock 0 2)
      (later {q = started_program} 1 (mutex_lock 1 2) start second_step) third_step

restore_model_at_depth-Runs_example : (r : Program) × IsRestored started_program locked_program r
restore_model_at_depth-Runs_example =
    restore_model_at_depth-Runs started_program locked_program started_program-IsWellFormed
      locked_program-Runs (omega arith) (omega arith)

restore_model_at_depth-zero_example :
    restore_model_at_depth 0 started_program
    ≡ ok (record {
      state_seq = found_program.state_seq;
      trace = [];
      next_steps = started_program.next_steps;
    })
restore_model_at_depth-zero_example =
    restore_model_at_depth-zero found_program started_program found_program-IsWellFormed
      (later {q = found_program} 0 (mutex_lock 0 2) start first_step) refl

none_enabled : get_enabled_runners deadlocked_program ≡ ok []
unfolding get_enabled_runners is_in_deadlock is_enabled_in apply_to Sequence.get_state_of_runner
    modify modify_thread_start modify_mutex_lock Diff.get_state_of_runner get_mutex
    Diff.get_state_of_object Diff.add_state_for_obj
none_enabled = refl

in_deadlock : is_in_deadlock deadlocked_program ≡ ok true
unfolding get_enabled_runners is_in_deadlock is_enabled_in apply_to Sequence.get_state_of_runner
    modify modify_thread_start modify_mutex_lock Diff.get_state_of_runner get_mutex
    Diff.get_state_of_object Diff.add_state_for_obj
in_deadlock = refl

is_in_deadlock-ExitedSays_example :
    ExitedSays deadlocked_program.state_seq deadlocked_program.next_steps false
is_in_deadlock-ExitedSays_example =
    is_in_deadlock-ExitedSays deadlocked_program true none_enabled in_deadlock

is_in_deadlock-none_enabled_example :
    (◌≡◌ {A = List ℕ} [] []) × (deadlocked_program.next_steps ≢ [])
is_in_deadlock-none_enabled_example =
    is_in_deadlock-none_enabled deadlocked_program [] none_enabled in_deadlock

some_enabled : get_enabled_runners started_program ≡ ok (0 ∷ 1 ∷ [])
unfolding get_enabled_runners is_in_deadlock is_enabled_in apply_to Sequence.get_state_of_runner
    modify modify_thread_start modify_mutex_lock Diff.get_state_of_runner get_mutex
    Diff.get_state_of_object Diff.add_state_for_obj
some_enabled = refl

contains-get_enabled_runners_example :
    (contains 1 (0 ∷ 1 ∷ []) ≡ true
      → HasEnabled started_program.state_seq started_program.next_steps 1)
    × (HasEnabled started_program.state_seq started_program.next_steps 1
        → contains 1 (0 ∷ 1 ∷ []) ≡ true)
contains-get_enabled_runners_example =
    contains-get_enabled_runners started_program (0 ∷ 1 ∷ []) 1 some_enabled

-- The second thread of the small program is found.
abbrev two_runners : Program
two_runners = record found_program {
  state_seq = record {
    runner_to_obj_map = record { forward = (0, 0) ∷ (1, 1) ∷ []; backward = (0, 0) ∷ (1, 1) ∷ [] };
    visible_objects = running_object ∷ running_object ∷ [];
    earlier = [];
    representative = record {
      visible_object_indices = (0, 0) ∷ (1, 0) ∷ [];
      max_visible_runner_id = 2;
    };
  };
}

finds_runner : discover_runner ThreadState.running thread_start main_program ≡ ok (two_runners, 1)
unfolding discover_runner Sequence.add_runner inserted insert add_object point_to_next_state_for
    record_new_runner
finds_runner = refl

finds_mutex : (discover_object unlocked_state two_runners).0 ≡ found_program
unfolding discover_object add_object point_to_next_state_for
finds_mutex = refl

found_program-Reached : Reached found_program
found_program-Reached = subst Reached finds_mutex (
    object unlocked_state (
      runner ThreadState.running thread_start 1 (λ i. refl) (main starting_from_main_lem)
        finds_runner))

Reached-IsSettled_example : IsSettled started_program
Reached-IsSettled_example =
    Reached-IsSettled started_program (executed 0 (mutex_lock 0 2) found_program-Reached first_step)
