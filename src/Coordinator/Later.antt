-- ===== src/Coordinator/Later.antt =====
-- What a coordinator does after it has met an object: callbacks of the default registry, executions
-- in the model, and returns to an earlier depth.
use deep_debug.Prelude.{ℕ, ◌==◌, ◌≡◌, refl, true, not, ap, ◌∙◌, Option, some, ok}
use deep_debug.State.{invalid_objid}
use deep_debug.Transition.{Transition}
use deep_debug.Program.{Program, model_execution_of, restore_model_at_depth}
use deep_debug.Coordinator.{Coordinator, get_model_of_object, contains_object}
use deep_debug.Coordinator.Registry.{
  Mailbox, Memory, TransitionDiscoveryCallback, get_callback_for, default_registry,
}
use deep_debug.Coordinator.Kept.Callbacks.{callback-Keeps}

pub data Later (c : Coordinator) : Coordinator → Type 0 where
  now : Later c c
  discovers :
      {d e : Coordinator} (m : Memory) (rttid p : ℕ) (callback : TransitionDiscoveryCallback)
      (mb : Mailbox) (t : Option Transition)
      → Later c d
      → get_callback_for rttid (default_registry m) ≡ some callback
      → callback p mb d ≡ ok (e, t)
      → Later c e
  executes :
      {d : Coordinator} (p : ℕ) (npo : Transition) (q : Program)
      → Later c d
      → model_execution_of p npo d.current_program_model ≡ ok q
      → Later c (record d { current_program_model = q })
  goes_back :
      {d : Coordinator} (n : ℕ) (q : Program)
      → Later c d
      → restore_model_at_depth n d.current_program_model ≡ ok q
      → Later c (record d { current_program_model = q })

-- An address that stands for an object keeps standing for it.
pub Later-named :
    {c d : Coordinator} (handle : ℕ)
    → contains_object handle c ≡ true
    → Later c d
    → get_model_of_object handle d ≡ get_model_of_object handle c
unfolding get_model_of_object
Later-named handle known now = refl
Later-named {c} {d = e} handle known
      (discovers {d} m rttid p callback mb t later registered called) =
    let before = Later-named handle known later in
    let still : contains_object handle d ≡ true =
      ap (λ id. not (id == invalid_objid)) before ∙ known in
    (callback-Keeps m rttid callback registered p mb d e t called).named handle still ∙ before
Later-named handle known (executes p npo q later h) = Later-named handle known later
Later-named handle known (goes_back n q later h) = Later-named handle known later
