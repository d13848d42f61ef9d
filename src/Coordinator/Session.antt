-- ===== src/Coordinator/Session.antt =====
-- src/mcmini/coordinator/coordinator.cpp and include/mcmini/coordinator/coordinator.hpp: the model
-- and the live process, driven together. The process is a parameter.
use deep_debug.Prelude.{
  ℕ, ◌==◌, List, [], ◌∷◌, Option, none, some, length, if◌then◌else◌, Result, ok, err, or_fail,
  ◌>>=◌, null_pointer, execution_error, assertion_failed,
}
use deep_debug.Transition.{Transition, get_executor}
use deep_debug.Program.{
  Program, model_execution_of, restore_model_at_depth, get_transition_for_runner,
}
use deep_debug.Coordinator.{Coordinator}
use deep_debug.Coordinator.Registry.{Mailbox, Memory, Registry, get_callback_for, default_registry}

-- What a `process_source` and its processes do; `Live` is the state of a live process.
pub record ProcessSource (Live : Type 0) : Type 0 where
  pub force_new_process : Result Live
  pub execute_runner : ℕ → Live → Result (Live × Mailbox)
  pub memory : Live → Memory

-- A coordinator with its process; a null handle is `none`.
pub record Session (Live : Type 0) : Type 0 where
  pub coordinator : Coordinator
  pub current_process_handle : Option Live

abbrev pub current_program_model : {Live : Type 0} → Session Live → Program
current_program_model s = s.coordinator.current_program_model

abbrev pub get_pending_transition_for : ℕ → Program → Option Transition
get_pending_transition_for p program = get_transition_for_runner p program.next_steps

-- The loop of `return_to_depth` over the trace.
unfoldable pub replay : {Live : Type 0} → ProcessSource Live → List Transition → Live → Result Live
replay source [] live = ok live
replay source (t ∷ trace) live = do
  r ← source.execute_runner (get_executor t) live
  replay source trace r.0

-- What the callback makes of the mailbox, and the execution in the model.
unfoldable pub follow_mailbox : Registry → ℕ → Mailbox → Coordinator → Result Coordinator
follow_mailbox registry runner_id mb c = do
  callback ← or_fail (get_callback_for mb.type registry) execution_error
  r ← callback runner_id mb c
  pending_operation ← or_fail r.1 execution_error
  p ← model_execution_of runner_id pending_operation r.0.current_program_model
  ok (record r.0 { current_program_model = p })

module _ {Live : Type 0} (source : ProcessSource Live) where
  unfoldable pub assign_new_process_handle : Session Live → Result (Session Live)
  assign_new_process_handle s = do
    live ← source.force_new_process
    ok (record s { current_process_handle = some live })

  unfoldable pub start_session : Coordinator → Result (Session Live)
  start_session c =
      assign_new_process_handle (record { coordinator = c; current_process_handle = none })

  unfoldable pub execute_runner : ℕ → Session Live → Result (Session Live)
  execute_runner runner_id s = do
    live ← or_fail s.current_process_handle execution_error
    logged ← or_fail (get_pending_transition_for runner_id (current_program_model s)) null_pointer
    ran ← source.execute_runner runner_id live
    c ← follow_mailbox (default_registry (source.memory ran.0)) runner_id ran.1 s.coordinator
    ok (record { coordinator = c; current_process_handle = some ran.0 })

  unfoldable pub return_to_depth : ℕ → Session Live → Result (Session Live)
  return_to_depth n s = do
    fresh ← assign_new_process_handle s
    p ← restore_model_at_depth n (current_program_model fresh)
    _ ← (if length p.trace == n then ok n else err assertion_failed)
    live ← or_fail fresh.current_process_handle null_pointer
    replayed ← replay source p.trace live
    ok (record {
      coordinator = record s.coordinator { current_program_model = p };
      current_process_handle = some replayed;
    })
