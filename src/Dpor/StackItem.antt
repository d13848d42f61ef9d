-- ===== src/Dpor/StackItem.antt =====
-- classic_dpor/stack_item.hpp: what the search keeps of each state of the current trace.
pub mod Sets
pub mod Marks
use deep_debug.Prelude.{
  ℕ, suc, min, Bool, not, List, [], ◌∷◌, Option, none, some, contains, insert, erase, is_empty,
  replicate, if◌then◌else◌, Result, ok, err, backtrack_empty,
}
use deep_debug.Transition.{Transition}
use deep_debug.Dpor.ClockVector.{ClockVector, RunnerItem, new_runner_item}

pub record StackItem : Type 0 where
  pub cv : ClockVector
  pub per_runner_clocks : List RunnerItem
  pub out_transition : Option Transition
  pub backtrack_set : List ℕ
  pub done_set : List ℕ
  pub sleep_set : List ℕ
  pub enabled_runners : List ℕ

abbrev pub max_total_threads_in_program : ℕ
max_total_threads_in_program = 20

-- The array that a new item starts with.
abbrev pub fresh_clocks : List RunnerItem
fresh_clocks = replicate max_total_threads_in_program new_runner_item

abbrev pub new_stack_item : ClockVector → List RunnerItem → Option Transition → List ℕ → StackItem
new_stack_item cv clocks out enabled = record {
  cv = cv;
  per_runner_clocks = clocks;
  out_transition = out;
  backtrack_set = [];
  done_set = [];
  sleep_set = [];
  enabled_runners = enabled;
}

abbrev pub backtrack_set_empty : StackItem → Bool
backtrack_set_empty s = is_empty s.backtrack_set

abbrev pub backtrack_set_contains : ℕ → StackItem → Bool
backtrack_set_contains rid s = contains rid s.backtrack_set

abbrev pub sleep_set_contains : ℕ → StackItem → Bool
sleep_set_contains rid s = contains rid s.sleep_set

abbrev pub done_set_contains : ℕ → StackItem → Bool
done_set_contains rid s = contains rid s.done_set

abbrev pub has_enabled_runners : StackItem → Bool
has_enabled_runners s = not (is_empty s.enabled_runners)

unfoldable pub insert_into_backtrack_set_unless_completed : ℕ → StackItem → StackItem
insert_into_backtrack_set_unless_completed rid s =
    if not (done_set_contains rid s)
    then record s { backtrack_set = insert rid s.backtrack_set }
    else s

abbrev pub insert_into_sleep_set : ℕ → StackItem → StackItem
insert_into_sleep_set rid s = record s { sleep_set = insert rid s.sleep_set }

unfoldable pub mark_searched : ℕ → StackItem → StackItem
mark_searched rid s = record s {
  done_set = insert rid s.done_set;
  backtrack_set = erase rid s.backtrack_set;
}

abbrev pub set_out_transition : Option Transition → StackItem → StackItem
set_out_transition out s = record s { out_transition = out }

-- The smallest of `start` and the elements of a set.
unfoldable pub smallest : ℕ → List ℕ → ℕ
smallest start [] = start
smallest start (x ∷ xs) = smallest (min x start) xs

-- The smallest runner of the backtrack set, and the item that it has been moved in.
unfoldable pub pop_smallest : List ℕ → StackItem → Result (ℕ × StackItem)
unfolding smallest mark_searched
pop_smallest [] s = err backtrack_empty
pop_smallest (first ∷ rest) s =
    let rid = smallest first (first ∷ rest) in ok (rid, mark_searched rid s)

unfoldable pub backtrack_set_pop_first : StackItem → Result (ℕ × StackItem)
unfolding pop_smallest
backtrack_set_pop_first s = pop_smallest s.backtrack_set s

-- RUNNER_ID_MAX if no runner is enabled.
unfoldable pub get_first_enabled_runner : StackItem → ℕ
unfolding smallest
get_first_enabled_runner s = smallest 65535 s.enabled_runners
