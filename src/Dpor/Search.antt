-- ===== src/Dpor/Search.antt =====
-- classic_dpor.cpp and stats.hpp: the loop `verify_using`. A callback that is set appears as an
-- event in the order of the calls; a callback gets the trace and the statistics to see.
pub mod Events
pub mod Measure
pub mod Cut
pub mod Rounds
pub mod Exploring
pub mod Backtracking
pub mod Termination
pub mod Reaches
pub mod Aligned
pub mod Additions
pub mod Reports
mod Tests
use deep_debug.Prelude.{
  ℕ, zero, suc, ◌+◌, ◌-◌, ◌%◌, ◌==◌, leb, ltb, Bool, true, false, not, ◌&&◌, List, [], ◌∷◌, ◌++◌,
  Option, none, some, length, set, is_empty, get_last?, if◌then◌else◌, Result, ok, err, Error,
  or_fail, ◌>>=◌, null_pointer, not_initialized, termination_error, nonzero_exit_code_error,
  depth_exceeded,
}
use deep_debug.Transition.{Transition, process_abort, process_exit}
use deep_debug.Program.{Program, get_enabled_runners, is_in_deadlock}
use deep_debug.Coordinator.Session.{
  ProcessSource, Session, current_program_model, get_pending_transition_for, execute_runner,
  return_to_depth,
}
use deep_debug.Dpor.StackItem.{
  StackItem, new_stack_item, fresh_clocks, has_enabled_runners, backtrack_set_empty,
  backtrack_set_pop_first, get_first_enabled_runner,
}
use deep_debug.Dpor.Relations.{Relations}
use deep_debug.Dpor.Context.{Context}
use deep_debug.Dpor.Context.Expand.{expand_trace}

-- `classic_dpor::configuration`
pub record Configuration : Type 0 where
  pub relations : Relations
  pub maximum_total_execution_depth : ℕ

-- Which callbacks are set.
pub record Callbacks : Type 0 where
  pub deadlock : Bool
  pub trace_completed : Bool
  pub abnormal_termination : Bool
  pub nonzero_exit_code : Bool
  pub undefined_behavior : Bool

pub record Stats : Type 0 where
  pub trace_id : ℕ
  pub total_transitions : ℕ

pub data Event : Type 0 where
  trace_completed : (trace : List Transition) (stats : Stats) → Event
  deadlock : (trace : List Transition) (stats : Stats) → Event
  undefined_behavior : (stats : Stats) → Event
  abnormal_termination : (stats : Stats) (signo culprit : ℕ) → Event
  nonzero_exit_code : (stats : Stats) (exit_code culprit : ℕ) → Event

-- The local variables of `verify_using`, with the coordinator and the events so far.
pub record Search (Live : Type 0) : Type 0 where
  pub session : Session Live
  pub stack : List StackItem
  pub stats : Stats
  pub events : List Event

-- `verify_using` returns, or an exception leaves it.
pub data Outcome : Type 0 where
  returned : (events : List Event) → Outcome
  thrown : (cause : Error) (events : List Event) → Outcome

abbrev pub context_of : {Live : Type 0} → Search Live → Context
context_of s = record { coordinator = current_program_model s.session; stack = s.stack }

abbrev pub call : Bool → Event → List Event → List Event
call is_set event events = if is_set then events ++ event ∷ [] else events

-- The `catch` clauses: which exceptions a `try` block of the loop catches.
unfoldable pub catch_all : {Live : Type 0} → Callbacks → Error → Search Live → Outcome
catch_all k not_initialized s =
    returned (call k.undefined_behavior (undefined_behavior s.stats) s.events)
catch_all k (termination_error signo culprit) s =
    returned (call k.abnormal_termination (abnormal_termination s.stats signo culprit) s.events)
catch_all k (nonzero_exit_code_error exit_code culprit) s =
    returned (call k.nonzero_exit_code (nonzero_exit_code s.stats exit_code culprit) s.events)
catch_all k e s = thrown e s.events

unfoldable pub catch_process_errors : {Live : Type 0} → Callbacks → Error → Search Live → Outcome
catch_process_errors k (termination_error signo culprit) s =
    returned (call k.abnormal_termination (abnormal_termination s.stats signo culprit) s.events)
catch_process_errors k (nonzero_exit_code_error exit_code culprit) s =
    returned (call k.nonzero_exit_code (nonzero_exit_code s.stats exit_code culprit) s.events)
catch_process_errors k e s = thrown e s.events

unfoldable pub catch_undefined_behavior :
    {Live : Type 0} → Callbacks → Error → Search Live → Outcome
catch_undefined_behavior k not_initialized s =
    returned (call k.undefined_behavior (undefined_behavior s.stats) s.events)
catch_undefined_behavior k e s = thrown e s.events

-- `aborts_program_execution` and `program_exit_code`; the latter is -1 but for an exit.
abbrev pub aborts_program_execution : Transition → Bool
aborts_program_execution (process_abort p) = true
aborts_program_execution _ = false

abbrev pub program_exit_code : Transition → ℕ
program_exit_code (process_exit p exit_code) = exit_code
program_exit_code _ = 4294967295

-- `program_exit_code() > 0` on the 32-bit pattern of an `int`.
abbrev pub is_positive_int : ℕ → Bool
is_positive_int n = ltb 0 n && ltb n 2147483648

abbrev pub sigabrt : ℕ
sigabrt = 6

-- The exception for a runner whose next operation ends the program, if it does.
unfoldable pub abnormal_exit : ℕ → Transition → Option Error
abnormal_exit rid t =
    if aborts_program_execution t
    then some (termination_error sigabrt rid)
    else if is_positive_int (program_exit_code t)
    then some (nonzero_exit_code_error (program_exit_code t) rid)
    else none

-- `dpor_stack.pop_back()` while the last item has nothing scheduled: an item goes when all after
-- it have gone and its own set is empty.
unfoldable pub pop_exhausted : List StackItem → List StackItem
pop_exhausted [] = []
pop_exhausted (s ∷ stack) =
    let rest = pop_exhausted stack in
    if is_empty rest && backtrack_set_empty s then [] else s ∷ rest

-- How exploring a trace ends; `unfinished` when the rounds did not suffice.
pub data Explored (Live : Type 0) : Type 0 where
  unfinished : Explored Live
  stopped : (outcome : Outcome) → Explored Live
  explored : (s : Search Live) → Explored Live

module _ {Live : Type 0} (source : ProcessSource Live) (config : Configuration)
    (k : Callbacks) where
  unfoldable pub continue_dpor_by_expanding_trace_with : ℕ → Search Live → Result (Search Live)
  continue_dpor_by_expanding_trace_with p s = do
    session ← execute_runner source p s.session
    after ← expand_trace config.relations (context_of (record s { session = session }))
    ok (record s { session = session; stack = after.stack })

  -- The `try` block of the exploration, up to the test of the next operation.
  unfoldable pub explore_step : ℕ → Search Live → Result (Search Live)
  explore_step rid s = do
    after ← continue_dpor_by_expanding_trace_with rid s
    ok (record after {
      stats = record after.stats {
        total_transitions = (after.stats.total_transitions + 1) % 4294967296;
      };
    })

  -- `while (dpor_stack.back().has_enabled_runners())`, for `rounds` rounds at most.
  unfoldable pub explore : ℕ → Search Live → Explored Live
  explore zero s = unfinished
  explore (suc rounds) s = elim (get_last? s.stack) [
    | none ↦ stopped (thrown null_pointer s.events)
    | some top ↦ elim (has_enabled_runners top) [
      | false ↦ explored s
      | true ↦ elim (leb config.maximum_total_execution_depth (length s.stack)) [
        | true ↦ stopped (thrown depth_exceeded s.events)
        | false ↦ elim (explore_step (get_first_enabled_runner top) s) [
          | err e ↦ stopped (catch_all k e s)
          | ok after ↦
              elim (get_pending_transition_for (get_first_enabled_runner top)
                (current_program_model after.session)) [
                  | none ↦ stopped (thrown null_pointer after.events)
                  | some rtransition ↦
                      elim (abnormal_exit (get_first_enabled_runner top) rtransition) [
                        | some e ↦ stopped (catch_all k e after)
                        | none ↦ explore rounds after
                      ]
                ]
        ]
      ]
    ]
  ]

  -- The call of `trace_completed`.
  abbrev pub report_completed : Search Live → Search Live
  report_completed s = record s {
    events =
        call k.trace_completed (trace_completed (current_program_model s.session).trace s.stats)
          s.events;
  }

  -- The call of `deadlock`.
  unfoldable pub report_deadlock : Search Live → Result (Search Live)
  report_deadlock s =
      if k.deadlock
      then (do
        found ← is_in_deadlock (current_program_model s.session)
        ok (record s {
          events = call found (deadlock (current_program_model s.session).trace s.stats) s.events;
        }))
      else ok s

  -- The first step of the next exploration, from the last item of the stack.
  unfoldable pub follow_backtrack : Search Live → Result (Search Live)
  follow_backtrack s = do
    top ← or_fail (get_last? s.stack) null_pointer
    popped ← backtrack_set_pop_first top
    continue_dpor_by_expanding_trace_with popped.0
        (record s { stack = set s.stack (length s.stack - 1) popped.1 })

  -- The backtrack phase once the stack has been cut, and is not empty.
  unfoldable pub backtrack : Search Live → Explored Live
  backtrack s = elim (return_to_depth source (length s.stack - 1) s.session) [
    | err e ↦ stopped (catch_process_errors k e s)
    | ok session ↦
        elim (follow_backtrack (record s {
          session = session;
          stats = record s.stats { trace_id = (s.stats.trace_id + 1) % 4294967296 };
        })) [
          | err e ↦ stopped (
              catch_undefined_behavior k e (record s {
                session = session;
                stats = record s.stats { trace_id = (s.stats.trace_id + 1) % 4294967296 };
              }))
          | ok after ↦ explored after
        ]
  ]

  -- One round of the outer loop; `none` once the stack is empty.
  unfoldable pub search_round : Search Live → Explored Live
  search_round s = elim (explore (suc (config.maximum_total_execution_depth - length s.stack)) s) [
    | unfinished ↦ unfinished
    | stopped outcome ↦ stopped outcome
    | explored reached ↦ elim (report_deadlock (report_completed reached)) [
      | err e ↦ stopped (thrown e (report_completed reached).events)
      | ok reported ↦
          let cut = record reported { stack = pop_exhausted reported.stack } in
          elim (is_empty cut.stack) [ true ↦ stopped (returned cut.events) | false ↦ backtrack cut ]
    ]
  ]

  -- `while (!dpor_stack.empty())`, for `fuel` rounds at most; `none` when they did not suffice.
  unfoldable pub search_rounds : ℕ → Search Live → Option Outcome
  search_rounds zero s = none
  search_rounds (suc fuel) s = elim (search_round s) [
    | unfinished ↦ none
    | stopped outcome ↦ some outcome
    | explored after ↦ search_rounds fuel after
  ]

  unfoldable pub verify_using : ℕ → Session Live → Option Outcome
  verify_using fuel session = elim (get_enabled_runners (current_program_model session)) [
    | err e ↦ some (thrown e [])
    | ok enabled ↦ search_rounds fuel (record {
      session = session;
      stack = new_stack_item [] fresh_clocks none enabled ∷ [];
      stats = record { trace_id = 1; total_transitions = 0 };
      events = [];
    })
  ]
