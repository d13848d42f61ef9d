-- ===== src/Coordinator.antt =====
-- include/mcmini/coordinator/model_to_system_map.hpp and src/mcmini/coordinator/coordinator.cpp:
-- the objects of the model that stand for addresses of the process.
pub mod Callbacks
pub mod Conditions
pub mod TransitionType
pub mod Registry
pub mod Session
pub mod Kept
pub mod Synchronized
pub mod Schedule
pub mod Binding
pub mod Later
pub mod Naming
mod Tests
use deep_debug.Prelude.{
  ℕ, ◌==◌, Bool, not, List, none, some, lookup, assign, has_key, if◌then◌else◌, Result, ok, err,
  ◌>>=◌, already_bound,
}
use deep_debug.Objects.{ObjectState}
use deep_debug.Objects.Thread.{ThreadState}
use deep_debug.State.{invalid_objid, invalid_rid}
use deep_debug.Sequence
use deep_debug.Sequence.{get_runner_id_for_obj, get_objid_for_runner, add_object}
use deep_debug.Transition.{Transition}
use deep_debug.Program.{Program, discover_runner, set_transition}

-- The part of a coordinator that a `model_to_system_map` reads and changes.
pub record Coordinator : Type 0 where
  pub current_program_model : Program
  pub system_address_mapping : List (ℕ × ℕ)

-- `insert` of an unordered map, which leaves what is there.
abbrev pub insert_address : ℕ → ℕ → List (ℕ × ℕ) → List (ℕ × ℕ)
insert_address handle id m = if has_key handle m then m else assign handle id m

unfoldable pub get_model_of_object : ℕ → Coordinator → ℕ
get_model_of_object handle c = elim (lookup handle c.system_address_mapping) [
  | some id ↦ id
  | none ↦ invalid_objid
]

unfoldable pub get_model_of_runner : ℕ → Coordinator → ℕ
unfolding get_model_of_object
get_model_of_runner handle c =
    let s = c.current_program_model.state_seq in
    let objid = get_model_of_object handle c in
    if objid == invalid_objid then invalid_rid else get_runner_id_for_obj s s.representative objid

-- `contains`
abbrev pub contains_object : ℕ → Coordinator → Bool
contains_object handle c = not (get_model_of_object handle c == invalid_objid)

abbrev pub contains_runner : ℕ → Coordinator → Bool
contains_runner handle c = not (get_model_of_runner handle c == invalid_rid)

unfoldable pub observe_object : ℕ → ObjectState → Coordinator → Result (Coordinator × ℕ)
observe_object handle o c =
    if contains_object handle c
    then err already_bound
    else let p = c.current_program_model in
      let (s, new_objid) = add_object o p.state_seq in
      ok (
        record {
          current_program_model = record p { state_seq = s };
          system_address_mapping = insert_address handle new_objid c.system_address_mapping;
        },
        new_objid,
      )

-- Binds the address of a runner that has just been added.
unfoldable pub bind_runner : ℕ → ℕ → Program → Coordinator → Coordinator
bind_runner handle new_runner_id p c =
    let new_objid = get_objid_for_runner p.state_seq p.state_seq.representative new_runner_id in
    record {
      current_program_model = p;
      system_address_mapping = insert_address handle new_objid c.system_address_mapping;
    }

-- `observe_runner(handle, state, f)`
unfoldable pub observe_runner :
    ℕ → ThreadState → (ℕ → Transition) → Coordinator → Result (Coordinator × ℕ)
unfolding bind_runner
observe_runner handle t f c = if contains_object handle c then err already_bound else (do
  r ← discover_runner t f c.current_program_model
  ok (bind_runner handle r.1 r.0 c, r.1))

-- `observe_runner(handle, state)`, which does not look whether the address is bound.
unfoldable pub observe_runner_without_step :
    ℕ → ThreadState → Coordinator → Result (Coordinator × ℕ)
unfolding bind_runner
observe_runner_without_step handle t c = do
  r ← Sequence.add_runner t c.current_program_model.state_seq
  ok (bind_runner handle r.1 (record c.current_program_model { state_seq = r.0 }) c, r.1)

unfoldable pub observe_runner_transition : Transition → Coordinator → Coordinator
observe_runner_transition t c =
    let p = c.current_program_model in
    record c { current_program_model = record p { next_steps = set_transition t p.next_steps } }
