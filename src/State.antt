-- ===== src/State.antt =====
-- include/mcmini/model/state.hpp: what a state of the program answers.
pub mod Injective
pub mod VisibleObject
pub mod Detached
pub mod Diff
mod Tests
use deep_debug.Prelude.{ℕ, Bool, Result}
use deep_debug.Objects.{ObjectState}
use deep_debug.Objects.Thread.{ThreadState}

-- `invalid_objid` and `invalid_rid`, the largest `uint32_t` and `uint16_t`.
abbrev pub invalid_objid : ℕ
invalid_objid = 4294967295

abbrev pub invalid_rid : ℕ
invalid_rid = 65535

-- The abstract class `state`, as the answers of one of its objects.
pub record State : Type 0 where
  pub count : ℕ
  pub runner_count : ℕ
  pub is_runner : ℕ → Bool
  pub contains_object_with_id : ℕ → Bool
  pub contains_runner_with_id : ℕ → Bool
  pub get_objid_for_runner : ℕ → ℕ
  pub get_runner_id_for_obj : ℕ → ℕ
  pub get_state_of_object : ℕ → Result ObjectState
  pub get_state_of_runner : ℕ → Result ThreadState
