-- ===== src/State/Detached.antt =====
-- include/mcmini/model/state/detached_state.hpp and src/mcmini/model/detached_state.cpp: a state
-- that belongs to no sequence.
use deep_debug.Prelude.{
  ℕ, ◌-◌, ◌%◌, ◌==◌, Bool, ltb, List, [], ◌∷◌, ◌++◌, none, some, length, get_elem?, set,
  if◌then◌else◌, Result, ok, err, or_fail, ◌>>=◌, out_of_bounds, out_of_range, invalid_object,
}
use deep_debug.Objects.{ObjectState, as_thread}
use deep_debug.Objects.Thread.{ThreadState}
use deep_debug.State.{State, invalid_objid, invalid_rid}
use deep_debug.State.Injective
use deep_debug.State.Injective.{Injective, no_mapping, inserted}
use deep_debug.State.VisibleObject.{VisibleObject, no_states, get_current_state, push_state}

pub record DetachedState : Type 0 where
  pub visible_objects : List VisibleObject
  pub runner_to_obj_map : Injective

abbrev pub no_objects : DetachedState
no_objects = record { visible_objects = []; runner_to_obj_map = no_mapping }

unfoldable pub contains_object_with_id : DetachedState → ℕ → Bool
contains_object_with_id d id = ltb id (length d.visible_objects)

unfoldable pub get_objid_for_runner : DetachedState → ℕ → ℕ
get_objid_for_runner d p = elim (Injective.at p d.runner_to_obj_map) [
  | some id ↦ id
  | none ↦ invalid_objid
]

unfoldable pub get_runner_id_for_obj : DetachedState → ℕ → ℕ
get_runner_id_for_obj d id = elim (Injective.range_at id d.runner_to_obj_map) [
  | some p ↦ p
  | none ↦ invalid_rid
]

unfoldable pub get_state_of_object : DetachedState → ℕ → Result ObjectState
get_state_of_object d id = or_fail (get_elem? d.visible_objects id) out_of_range >>= λ o.
    or_fail (get_current_state o) out_of_bounds

unfoldable pub get_state_of_runner : DetachedState → ℕ → Result ThreadState
unfolding get_state_of_object get_objid_for_runner as_thread
get_state_of_runner d p = get_state_of_object d (get_objid_for_runner d p) >>= as_thread

unfoldable pub add_object : ObjectState → DetachedState → DetachedState × ℕ
add_object s d =
    let objects = d.visible_objects ++ push_state no_states s ∷ [] in
    (record d { visible_objects = objects }, length objects - 1)

unfoldable pub add_runner : ThreadState → DetachedState → Result (DetachedState × ℕ)
unfolding add_object inserted
add_runner t d =
    let (e, runner_objid) = add_object (ObjectState.thread t) d in
    let next_runner_id = Injective.size e.runner_to_obj_map % 65536 in
    inserted next_runner_id runner_objid e.runner_to_obj_map >>= λ m.
    ok (record e { runner_to_obj_map = m }, next_runner_id)

unfoldable pub add_state_for_obj : ℕ → ObjectState → DetachedState → Result DetachedState
add_state_for_obj id s d =
    if id == invalid_objid
    then err invalid_object
    else or_fail (get_elem? d.visible_objects id) out_of_range >>= λ o.
        ok (record d { visible_objects = set d.visible_objects id (push_state o s) })

unfoldable pub add_state_for_runner : ℕ → ThreadState → DetachedState → Result DetachedState
unfolding add_state_for_obj get_objid_for_runner
add_state_for_runner p t d = add_state_for_obj (get_objid_for_runner d p) (ObjectState.thread t) d

-- A detached state as a state.
abbrev pub to_state : DetachedState → State
to_state d = record {
  count = length d.visible_objects;
  runner_count = Injective.size d.runner_to_obj_map;
  is_runner = λ id. Injective.count_range id d.runner_to_obj_map;
  contains_object_with_id = contains_object_with_id d;
  contains_runner_with_id = λ p. Injective.count_domain p d.runner_to_obj_map;
  get_objid_for_runner = get_objid_for_runner d;
  get_runner_id_for_obj = get_runner_id_for_obj d;
  get_state_of_object = get_state_of_object d;
  get_state_of_runner = get_state_of_runner d;
}
