-- ===== src/Dpor/Context/Expand.antt =====
-- classic_dpor.cpp: `grow_stack_after_running` and `dynamically_update_backtrack_sets`.
use deep_debug.Prelude.{
  ℕ, zero, suc, ◌-◌, ◌==◌, Bool, true, false, List, [], ◌∷◌, ◌++◌, some, length, get_elem?, set,
  assign, if◌then◌else◌, Result, ok, err, or_fail, ◌>>=◌, out_of_range, out_of_bounds,
  assertion_failed,
}
use deep_debug.Transition.{Transition, get_executor}
use deep_debug.Program.{get_enabled_runners, get_num_runners}
use deep_debug.Dpor.ClockVector.{ClockVector, RunnerItem, set_clock_vector}
use deep_debug.Dpor.StackItem.{
  StackItem, new_stack_item, insert_into_sleep_set, mark_searched, set_out_transition,
}
use deep_debug.Dpor.Relations.{Relations, are_independent}
use deep_debug.Dpor.Context.{
  Context, item_at, stack_back, trace_back, next_of, accumulate_max_clock_vector_against,
  dynamically_update_backtrack_sets_at_index,
}

-- `clocks[p].set_clock_vector(cv)`; outside the array the code's behaviour is undefined.
unfoldable pub set_clock_of : ℕ → ClockVector → List RunnerItem → Result (List RunnerItem)
set_clock_of p cv clocks = do
  clock ← or_fail (get_elem? clocks p) out_of_bounds
  ok (set clocks p (set_clock_vector cv clock))

-- The runners of the sleep set of `s_n` whose next step is independent of `t_n` sleep on.
unfoldable pub keep_sleeping :
    Relations → Transition → Context → List ℕ → StackItem → Result StackItem
keep_sleeping config t_n context [] s = ok s
keep_sleeping config t_n context (rid ∷ sleeping) s = do
  rid_next ← next_of rid context
  keep_sleeping config t_n context sleeping
      (if are_independent config rid_next t_n then insert_into_sleep_set rid s else s)

-- What becomes of `s_n` once `t_n` has run from it.
unfoldable pub close_item : Transition → StackItem → StackItem
unfolding mark_searched
close_item t_n s_n =
    mark_searched (get_executor t_n)
      (insert_into_sleep_set (get_executor t_n) (set_out_transition (some t_n) s_n))

unfoldable pub grow_stack_after_running : Relations → Context → Result Context
unfolding accumulate_max_clock_vector_against set_clock_of keep_sleeping close_item
grow_stack_after_running config context = do
  let depth = length context.coordinator.trace
  _ ← (if depth == length context.stack then ok depth else err assertion_failed)
  t_n ← trace_back context
  let cv = assign (get_executor t_n) depth (accumulate_max_clock_vector_against config t_n context)
  s_n ← stack_back context
  clocks ← set_clock_of (get_executor t_n) cv s_n.per_runner_clocks
  enabled ← get_enabled_runners context.coordinator
  s_n_plus_1 ←
      keep_sleeping config t_n context s_n.sleep_set (new_stack_item cv clocks (some t_n) enabled)
  ok (record context {
    stack = set context.stack (length context.stack - 1) (close_item t_n s_n) ++ s_n_plus_1 ∷ [];
  })

-- `dynamically_update_backtrack_sets_at_index(context, S_i, next_sp, context.stack.at(i), i, p)`
unfoldable pub update_item_at :
    Relations → Transition → Transition → ℕ → ℕ → Context → Result (Context × Bool)
unfolding dynamically_update_backtrack_sets_at_index
update_item_at config s_i next_sp i p context = do
  pre_si ← item_at i context
  r ← dynamically_update_backtrack_sets_at_index config context s_i next_sp pre_si i p
  ok (record context { stack = set context.stack i r.0 }, r.1)

-- The first loop: `count` runners from `rid` on, but for the one that ran last.
unfoldable pub update_other_runners : Relations → Transition → ℕ → ℕ → ℕ → Context → Result Context
unfolding update_item_at
update_other_runners config s_n t_stack_top zero rid context = ok context
update_other_runners config s_n t_stack_top (suc count) rid context =
    elim (rid == get_executor s_n) [
      | true ↦ update_other_runners config s_n t_stack_top count (suc rid) context
      | false ↦ do
        next_sp ← next_of rid context
        r ← update_item_at config s_n next_sp t_stack_top rid context
        update_other_runners config s_n t_stack_top count (suc rid) r.0
    ]

-- The second loop: the `count` transitions below index `count`, from the latest.
unfoldable pub update_last_runner : Relations → Transition → ℕ → ℕ → Context → Result Context
unfolding update_item_at
update_last_runner config next_s_p p zero context = ok context
update_last_runner config next_s_p p (suc i) context = do
  s_i ← or_fail (get_elem? context.coordinator.trace i) out_of_range
  r ← update_item_at config s_i next_s_p i p context
  let rest = update_last_runner config next_s_p p i r.0
  if r.1 then ok r.0 else rest

unfoldable pub dynamically_update_backtrack_sets : Relations → Context → Result Context
unfolding update_other_runners update_last_runner
dynamically_update_backtrack_sets config context = do
  s_n ← trace_back context
  let t_stack_top = length context.stack - 2
  updated ←
      update_other_runners config s_n t_stack_top (get_num_runners context.coordinator) 0 context
  next_s_p ← next_of (get_executor s_n) updated
  update_last_runner config next_s_p (get_executor s_n) t_stack_top updated

-- `continue_dpor_by_expanding_trace_with`, once the coordinator has run the runner.
unfoldable pub expand_trace : Relations → Context → Result Context
unfolding grow_stack_after_running dynamically_update_backtrack_sets
expand_trace config context = do
  grown ← grow_stack_after_running config context
  dynamically_update_backtrack_sets config grown
