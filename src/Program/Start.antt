-- ===== src/Program/Start.antt =====
-- src/mcmini/model/program.cpp: the program as it is when `main` begins.
use deep_debug.Prelude.{[], Result, ok, ◌>>=◌}
use deep_debug.Objects.Thread.{ThreadState}
use deep_debug.State.{State}
use deep_debug.State.Detached
use deep_debug.State.Detached.{no_objects}
use deep_debug.Sequence.Creation.{from_state}
use deep_debug.Transition.{thread_start}
use deep_debug.Program.{Program, PendingTransitions, set_transition}

-- `program(const state &, pending_transitions &&)`
unfoldable pub starting_from : State → PendingTransitions → Result Program
unfolding from_state
starting_from s first_steps = do
  state_seq ← from_state s
  ok (record { state_seq = state_seq; trace = []; next_steps = first_steps })

-- `starting_from_main`
unfoldable pub starting_from_main : Result Program
unfolding Detached.add_runner starting_from
starting_from_main = do
  added ← Detached.add_runner ThreadState.running no_objects
  starting_from (Detached.to_state added.0) (set_transition (thread_start added.1) [])
