-- ===== src/Program.antt =====
-- include/mcmini/model/program.hpp, pending_transitions.hpp, transitions/transition_sequence.hpp
-- and src/mcmini/model/program.cpp: the model of the program under test.
pub mod Pending
pub mod Rollback
pub mod Restore
pub mod Enabled
pub mod Deadlock
pub mod Start
pub mod Reached
mod Tests
use deep_debug.Prelude.{
  ℕ, zero, suc, ◌+◌, ◌%◌, ◌==◌, leb, ltb, Bool, true, false, not, ◌&&◌, List, [], ◌∷◌, ◌++◌, Option,
  none, some, length, get_elem?, get_last?, take, lookup, assign, is_empty, if◌then◌else◌, Result,
  ok, err, or_fail, ◌>>=◌, out_of_range, executor_mismatch, next_unknown, was_disabled,
  was_undefined,
}
use deep_debug.Objects.{ObjectState}
use deep_debug.Objects.Thread.{ThreadState, has_exited}
use deep_debug.Sequence
use deep_debug.Sequence.{
  StateSequence, current, add_object, add_runner, follow, consume_into_subsequence,
}
use deep_debug.Transition.{Transition, get_executor, is_enabled_in}
use deep_debug.Transition.Status.{Status, exists, disabled, undefined}

-- `pending_transitions`
abbrev pub PendingTransitions : Type 0
PendingTransitions = List (ℕ × Transition)

abbrev pub get_transition_for_runner : ℕ → PendingTransitions → Option Transition
get_transition_for_runner p steps = lookup p steps

-- The new map, and the transition that was there.
abbrev pub replace_unowned :
    Transition → PendingTransitions → PendingTransitions × Option Transition
replace_unowned t steps = (assign (get_executor t) t steps, lookup (get_executor t) steps)

abbrev pub set_transition : Transition → PendingTransitions → PendingTransitions
set_transition t steps = (replace_unowned t steps).0

-- `transition_sequence::consume_into_subsequence`
unfoldable pub consume_trace : ℕ → List Transition → List Transition
consume_trace depth trace = if leb depth (length trace) then take depth trace else trace

pub record Program : Type 0 where
  pub state_seq : StateSequence
  pub trace : List Transition
  pub next_steps : PendingTransitions

unfoldable pub enabled_among : StateSequence → PendingTransitions → Result (List ℕ)
enabled_among s [] = ok []
enabled_among s ((p, t) ∷ steps) = do
  enabled ← is_enabled_in t (current s)
  rest ← enabled_among s steps
  ok (if enabled then p ∷ rest else rest)

unfoldable pub get_enabled_runners : Program → Result (List ℕ)
unfolding enabled_among
get_enabled_runners p = enabled_among p.state_seq p.next_steps

abbrev pub get_num_runners : Program → ℕ
get_num_runners p = length p.next_steps

-- What `model_execution_of` does with the status of the transition that it follows.
unfoldable pub check_status : Status → Result (Unit {0})
check_status exists = ok tt
check_status disabled = err was_disabled
check_status undefined = err was_undefined

unfoldable pub model_execution_of : ℕ → Transition → Program → Result Program
unfolding check_status
model_execution_of p npo program =
    if not (p == get_executor npo) then err executor_mismatch else (do
      next_s_p ← or_fail (get_transition_for_runner p program.next_steps) next_unknown
      followed ← follow next_s_p program.state_seq
      _ ← check_status followed.1
      ran ← or_fail (replace_unowned npo program.next_steps).1 next_unknown
      ok (record {
        state_seq = followed.0;
        trace = program.trace ++ ran ∷ [];
        next_steps = (replace_unowned npo program.next_steps).0;
      }))

-- The first loop of `restore_model_at_depth`, from index `i` down while `i` is above `limit`. An
-- index 0 is above no limit.
unfoldable pub indices_from_top : ℕ → ℕ → List Transition → List (ℕ × ℕ) → List (ℕ × ℕ)
indices_from_top zero limit trace m = m
indices_from_top (suc i) limit trace m = elim (ltb limit (suc i)) [
  | true ↦ elim (get_elem? trace (suc i)) [
    | some t ↦ indices_from_top i limit trace (assign (get_executor t) (suc i) m)
    | none ↦ m
  ]
  | false ↦ m
]

-- The second loop: the transitions at the recorded indices are pending again.
unfoldable pub restore_next_steps :
    List (ℕ × ℕ) → List Transition → PendingTransitions → Result PendingTransitions
restore_next_steps [] trace steps = ok steps
restore_next_steps ((p, i) ∷ rest) trace steps = do
  t ← or_fail (get_elem? trace i) out_of_range
  restore_next_steps rest trace (set_transition t steps)

-- `n - 1` and `trace.count() - 1` on `uint32_t`.
abbrev pub decrement_u32 : ℕ → ℕ
decrement_u32 n = (n + 4294967295) % 4294967296

unfoldable pub runner_to_index_from_top : ℕ → List Transition → List (ℕ × ℕ)
unfolding indices_from_top
runner_to_index_from_top n trace =
    if is_empty trace
    then []
    else indices_from_top (decrement_u32 (length trace)) (decrement_u32 n) trace []

unfoldable pub restore_model_at_depth : ℕ → Program → Result Program
unfolding restore_next_steps consume_trace
restore_model_at_depth n p = do
  steps ← restore_next_steps (runner_to_index_from_top n p.trace) p.trace p.next_steps
  s ← consume_into_subsequence (suc n) p.state_seq
  ok (record { state_seq = s; trace = consume_trace n p.trace; next_steps = steps })

unfoldable pub discover_object : ObjectState → Program → Program × ℕ
discover_object o p = let (s, id) = add_object o p.state_seq in (record p { state_seq = s }, id)

-- `discover_runner(s, f)`: `f` gives the first step of the new runner.
unfoldable pub discover_runner : ThreadState → (ℕ → Transition) → Program → Result (Program × ℕ)
discover_runner t f p = do
  r ← add_runner t p.state_seq
  ok (record p { state_seq = r.0; next_steps = set_transition (f r.1) p.next_steps }, r.1)

unfoldable pub any_enabled : StateSequence → PendingTransitions → Result Bool
any_enabled s [] = ok false
any_enabled s ((p, t) ∷ steps) = do
  enabled ← is_enabled_in t (current s)
  let rest = any_enabled s steps
  if enabled then ok true else rest

unfoldable pub all_exited : StateSequence → PendingTransitions → Result Bool
all_exited s [] = ok true
all_exited s ((p, t) ∷ steps) = do
  runner ← (current s).get_state_of_runner p
  rest ← all_exited s steps
  ok (has_exited runner && rest)

unfoldable pub is_in_deadlock : Program → Result Bool
unfolding any_enabled all_exited
is_in_deadlock p = if is_empty p.next_steps then ok false else (do
  enabled ← any_enabled p.state_seq p.next_steps
  if enabled then ok false else (do exited ← all_exited p.state_seq p.next_steps; ok (not exited)))
