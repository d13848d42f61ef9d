-- ===== src/Dpor/Tests.antt =====
-- The search on the small program: the theorems applied to it.
use deep_debug.Prelude.{
  ◌≡◌, refl, true, false, [], ◌∷◌, ok, err, some, none, arith, ◌==◌, Result, length, ◌||◌, not, ◌+◌,
}
use deep_debug.Transition.{thread_join, mutex_lock, is_enabled_in, modify}
use deep_debug.Dpor.StackItem.{StackItem, new_stack_item, fresh_clocks}
use deep_debug.Program.{get_enabled_runners}
use deep_debug.Sequence
use deep_debug.State.Diff
use deep_debug.Transition.Thread.{modify_thread_start}
use deep_debug.Transition.Mutex.{get_mutex, modify_mutex_lock, modify_mutex_unlock}
use deep_debug.Dpor.ClockVector.{value_for, maximum}
use deep_debug.Dpor.Context.Invariant.{AllSound}
use deep_debug.Dpor.Context.Growth.{
  expand_trace-AllSound, FirstGainsNothing, expand_trace-FirstGainsNothing,
}
use deep_debug.Dpor.Context.Races.{IsReversed, update_at_index-IsReversed}
use deep_debug.Dpor.Relations.{are_dependent, are_coenabled, mutex_lock_depends}
use deep_debug.Dpor.Relations.Symmetry.{
  tables, declared_independent, are_dependent_lem, are_dependent-asymmetric,
}
use deep_debug.Dpor.Context.{
  Context, dynamically_update_backtrack_sets_at_index, has_reversible_race, happens_before_thread,
  threads_race_after,
}
use deep_debug.Dpor.Context.Expand.{expand_trace}
use deep_debug.Fixtures.{started_program, both_started_program, locked_program}

abbrev first_item : StackItem
first_item = new_stack_item [] fresh_clocks none (0 ∷ 1 ∷ [])

abbrev first_context : Context
first_context = record { coordinator = started_program; stack = first_item ∷ [] }

abbrev context_of : Result Context → Context
context_of (ok c) = c
context_of (err e) = first_context

abbrev second_context : Context
unfolding expand_trace tables
second_context = context_of (expand_trace tables first_context)

abbrev third_context : Context
unfolding expand_trace tables second_context
third_context =
    context_of (expand_trace tables (record second_context { coordinator = both_started_program }))

abbrev fourth_context : Context
unfolding expand_trace tables third_context
fourth_context =
    context_of (expand_trace tables (record third_context { coordinator = locked_program }))

-- The coordinator has run the next transition.
abbrev at_both_started : Context
at_both_started = record second_context { coordinator = both_started_program }

abbrev at_locked : Context
at_locked = record third_context { coordinator = locked_program }

first_context-AllSound : AllSound first_context.stack
first_context-AllSound = ((λ r h. cc), tt)

second_context-AllSound : AllSound at_both_started.stack
unfolding second_context expand_trace tables get_enabled_runners is_enabled_in
    Sequence.get_state_of_runner modify modify_mutex_lock modify_mutex_unlock get_mutex
    Diff.get_state_of_object Diff.add_state_for_obj modify_thread_start Diff.get_state_of_runner
    are_dependent are_coenabled happens_before_thread value_for threads_race_after maximum
second_context-AllSound =
    (expand_trace-AllSound tables first_context second_context first_context-AllSound refl).0

third_context-AllSound : AllSound at_locked.stack
unfolding second_context third_context expand_trace tables get_enabled_runners is_enabled_in
    Sequence.get_state_of_runner modify modify_mutex_lock modify_mutex_unlock get_mutex
    Diff.get_state_of_object Diff.add_state_for_obj modify_thread_start Diff.get_state_of_runner
    are_dependent are_coenabled happens_before_thread value_for threads_race_after maximum
third_context-AllSound =
    (expand_trace-AllSound tables at_both_started third_context second_context-AllSound refl).0

fourth_expansion : expand_trace tables at_locked ≡ ok fourth_context
unfolding second_context third_context fourth_context expand_trace tables get_enabled_runners
    is_enabled_in Sequence.get_state_of_runner modify modify_mutex_lock modify_mutex_unlock
    get_mutex Diff.get_state_of_object Diff.add_state_for_obj modify_thread_start
    Diff.get_state_of_runner are_dependent are_coenabled happens_before_thread value_for
    threads_race_after maximum mutex_lock_depends
fourth_expansion = refl

expand_trace-AllSound_example :
    AllSound fourth_context.stack
    × (length at_locked.stack ≡ length at_locked.coordinator.trace)
    × (length fourth_context.stack ≡ length fourth_context.coordinator.trace + 1)
expand_trace-AllSound_example =
    expand_trace-AllSound tables at_locked fourth_context third_context-AllSound fourth_expansion

expand_trace-FirstGainsNothing_example : FirstGainsNothing at_locked.stack fourth_context.stack
expand_trace-FirstGainsNothing_example =
    expand_trace-FirstGainsNothing tables at_locked fourth_context fourth_expansion

-- The item from which the first thread locked the mutex.
abbrev lock_item : StackItem
lock_item = record first_item {
  out_transition = some (mutex_lock 0 2);
  done_set = 0 ∷ [];
  sleep_set = 0 ∷ [];
}

-- The lock of the second thread races with that of the first one, which is reversed.
lock_is_reversed :
    dynamically_update_backtrack_sets_at_index tables fourth_context
      (mutex_lock 0 2)
      (mutex_lock 1 2)
      lock_item
      2
      1
    ≡ ok (record lock_item { backtrack_set = 1 ∷ [] }, true)
unfolding dynamically_update_backtrack_sets_at_index second_context third_context fourth_context
    expand_trace tables get_enabled_runners is_enabled_in Sequence.get_state_of_runner modify
    modify_mutex_lock modify_mutex_unlock get_mutex Diff.get_state_of_object Diff.add_state_for_obj
    modify_thread_start Diff.get_state_of_runner are_dependent are_coenabled happens_before_thread
    value_for threads_race_after maximum mutex_lock_depends
lock_is_reversed = refl

update_at_index-IsReversed_example :
    (has_reversible_race tables fourth_context (mutex_lock 0 2) (mutex_lock 1 2) 2 1 ≡ ok true)
    × IsReversed fourth_context lock_item 2 1 true (record lock_item { backtrack_set = 1 ∷ [] })
update_at_index-IsReversed_example =
    update_at_index-IsReversed tables fourth_context (mutex_lock 0 2) (mutex_lock 1 2) lock_item
      (record lock_item { backtrack_set = 1 ∷ [] }) 2 1 true lock_is_reversed

are_dependent_lem_example :
    are_dependent tables (mutex_lock 0 2) (mutex_lock 1 3)
    ≡ ((0 == 1) || not (declared_independent (mutex_lock 0 2) (mutex_lock 1 3)))
are_dependent_lem_example = are_dependent_lem (mutex_lock 0 2) (mutex_lock 1 3)

are_dependent-asymmetric_example :
    (are_dependent tables (thread_join 0 2) (mutex_lock 1 3) ≡ false)
    × (are_dependent tables (mutex_lock 1 3) (thread_join 0 2) ≡ true)
are_dependent-asymmetric_example =
    are_dependent-asymmetric 0 1 2 3 (λ h. omega arith) (λ h. omega arith)
