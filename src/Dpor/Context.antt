-- ===== src/Dpor/Context.antt =====
-- classic_dpor.cpp: `dpor_context`, the happens-before tests, and what the search does with the
-- stack after a transition has run. The coordinator appears as its model of the program.
pub mod Expand
pub mod Invariant
pub mod Expansion
pub mod Items
pub mod Growth
pub mod Races
pub mod Sound
pub mod Marked
pub mod Latest
use deep_debug.Prelude.{
  ℕ, zero, suc, ◌+◌, ◌-◌, ◌==◌, leb, Bool, true, false, not, ◌&&◌, ◌||◌, List, [], ◌∷◌, ◌++◌,
  Option, none, some, length, get_elem?, get_last?, set, any, is_empty, contains, insert, erase,
  assign, if◌then◌else◌, Result, ok, err, or_fail, ◌>>=◌, out_of_range, out_of_bounds, null_pointer,
}
use deep_debug.Transition.{Transition, get_executor}
use deep_debug.Program.{Program, get_enabled_runners, get_num_runners, get_transition_for_runner}
use deep_debug.Dpor.ClockVector.{ClockVector, RunnerItem, value_for, maximum, set_clock_vector}
use deep_debug.Dpor.StackItem.{
  StackItem, new_stack_item, sleep_set_contains, backtrack_set_contains, smallest,
  insert_into_backtrack_set_unless_completed, insert_into_sleep_set, mark_searched,
  set_out_transition,
}
use deep_debug.Dpor.Relations.{Relations, are_dependent, are_coenabled, are_independent}

pub record Context : Type 0 where
  pub coordinator : Program
  pub stack : List StackItem

-- `stack.at(i)`
abbrev pub item_at : ℕ → Context → Result StackItem
item_at i context = or_fail (get_elem? context.stack i) out_of_range

-- The transition that `get_transition(i)` points to, for the callers that read it.
unfoldable pub get_transition : ℕ → Context → Result Transition
get_transition i context = do s ← item_at i context; or_fail s.out_transition null_pointer

-- `stack.back()`, `get_trace().back()` and `*get_transition_for_runner(p)`.
abbrev pub stack_back : Context → Result StackItem
stack_back context = or_fail (get_last? context.stack) null_pointer

abbrev pub trace_back : Context → Result Transition
trace_back context = or_fail (get_last? context.coordinator.trace) null_pointer

abbrev pub next_of : ℕ → Context → Result Transition
next_of p context =
    or_fail (get_transition_for_runner p context.coordinator.next_steps) null_pointer

-- The loop of `accumulate_max_clock_vector_against`.
unfoldable pub accumulate : Relations → Transition → List StackItem → ClockVector → ClockVector
accumulate config t [] result = result
accumulate config t (s_i ∷ stack) result = elim s_i.out_transition [
  | some out ↦
      accumulate config t stack
        (if are_dependent config out t then maximum result s_i.cv else result)
  | none ↦ accumulate config t stack result
]

unfoldable pub accumulate_max_clock_vector_against : Relations → Transition → Context → ClockVector
unfolding accumulate
accumulate_max_clock_vector_against config t context = accumulate config t context.stack []

unfoldable pub happens_before : Context → ℕ → ℕ → Result Bool
unfolding get_transition
happens_before context i j = do
  t ← get_transition i context
  s ← item_at j context
  ok (leb i (value_for (get_executor t) s.cv))

-- Outside the array of clocks the code's behaviour is undefined.
unfoldable pub happens_before_thread : Context → ℕ → ℕ → Result Bool
unfolding get_transition
happens_before_thread context i p = do
  t ← get_transition i context
  top ← stack_back context
  clock ← or_fail (get_elem? top.per_runner_clocks p) out_of_bounds
  ok (leb i (value_for (get_executor t) clock.cv))

-- The loop of `threads_race_after`: `count` transitions from the one at `j`.
unfoldable pub races_from : ℕ → ℕ → Context → ℕ → ℕ → Result Bool
races_from zero j context q p = ok false
races_from (suc count) j context q p = do
  t ← get_transition j context
  let rest = races_from count (suc j) context q p
  if q == get_executor t
      then (do before ← happens_before_thread context j p; if before then ok true else rest)
      else rest

unfoldable pub threads_race_after : Context → ℕ → ℕ → ℕ → Result Bool
unfolding races_from
threads_race_after context i q p = races_from (length context.stack - 1 - suc i) (suc i) context q p

-- The set `e` of `dynamically_update_backtrack_sets_at_index`, from the runners that are enabled.
unfoldable pub candidates : Context → StackItem → ℕ → ℕ → List ℕ → Result (List ℕ)
candidates context pre_si i p [] = ok []
candidates context pre_si i p (q ∷ runners) = do
  in_e ← (if q == p then ok true else threads_race_after context i q p)
  rest ← candidates context pre_si i p runners
  ok (if in_e && not (sleep_set_contains q pre_si) then insert q rest else rest)

-- The runners of a list that do not sleep are scheduled.
unfoldable pub schedule_all : List ℕ → StackItem → StackItem
unfolding insert_into_backtrack_set_unless_completed
schedule_all [] s = s
schedule_all (q ∷ runners) s =
    let next =
      if not (sleep_set_contains q s) then insert_into_backtrack_set_unless_completed q s else s in
    schedule_all runners next

-- What is scheduled for the set `e`.
unfoldable pub schedule : List ℕ → StackItem → StackItem
unfolding schedule_all smallest insert_into_backtrack_set_unless_completed
schedule [] pre_si = schedule_all pre_si.enabled_runners pre_si
schedule (q ∷ e) pre_si =
    if any (λ r. backtrack_set_contains r pre_si) (q ∷ e)
    then pre_si
    else insert_into_backtrack_set_unless_completed (smallest q (q ∷ e)) pre_si

unfoldable pub has_reversible_race :
    Relations → Context → Transition → Transition → ℕ → ℕ → Result Bool
has_reversible_race config context s_i next_sp i p =
    if are_dependent config next_sp s_i && are_coenabled config next_sp s_i
    then (do before ← happens_before_thread context i p; ok (not before))
    else ok false

-- The item as the function leaves it, and whether there is a race to reverse.
unfoldable pub dynamically_update_backtrack_sets_at_index :
    Relations → Context → Transition → Transition → StackItem → ℕ → ℕ → Result (StackItem × Bool)
unfolding has_reversible_race candidates schedule
dynamically_update_backtrack_sets_at_index config context s_i next_sp pre_si i p = do
  race ← has_reversible_race config context s_i next_sp i p
  if race
      then (do
        e ← candidates context pre_si i p pre_si.enabled_runners
        ok (schedule e pre_si, true))
      else ok (pre_si, false)
