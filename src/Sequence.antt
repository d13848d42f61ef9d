-- ===== src/Sequence.antt =====
-- include/mcmini/model/state/state_sequence.hpp and src/mcmini/model/state_sequence.cpp: the
-- states that the program went through, as views of the histories of its objects.
pub mod Rollback
pub mod Follow
pub mod Commuting
pub mod Discovery
pub mod Creation
use deep_debug.Prelude.{
  ℕ, zero, suc, ◌+◌, ◌-◌, ◌%◌, ◌==◌, leb, ltb, Bool, true, false, ◌&&◌, List, [], ◌∷◌, ◌++◌, Option,
  none, some, length, get_elem?, set, take, lookup, assign, has_key, if◌then◌else◌, Result, ok, err,
  or_fail, ◌>>=◌, out_of_range, out_of_bounds, invalid_object, unknown_runner,
}
use deep_debug.Objects.{ObjectState, as_thread}
use deep_debug.Objects.Thread.{ThreadState}
use deep_debug.State.{State, invalid_objid, invalid_rid}
use deep_debug.State.Injective
use deep_debug.State.Injective.{Injective, no_mapping, inserted}
use deep_debug.State.VisibleObject.{
  VisibleObject, no_states, get_current_state, get_last_state_index, push_state, slice, state_at,
}
use deep_debug.State.Diff.{DiffState}
use deep_debug.Transition.{Transition, apply_to}
use deep_debug.Transition.Status.{Status, is_exists}

-- `state_sequence::element`. Its owner is an argument of the functions that follow it.
pub record Element : Type 0 where
  pub visible_object_indices : List (ℕ × ℕ)
  pub max_visible_runner_id : ℕ

-- The sequence is never empty: `states_in_sequence` is `earlier` and, last, `representative`.
pub record StateSequence : Type 0 where
  pub runner_to_obj_map : Injective
  pub visible_objects : List VisibleObject
  pub earlier : List Element
  pub representative : Element

-- The indices that `element(owner)` records for the objects from `i` on.
unfoldable pub indices_from : ℕ → List VisibleObject → List (ℕ × ℕ)
indices_from i [] = []
indices_from i (o ∷ objects) = (i, get_last_state_index o) ∷ indices_from (suc i) objects

-- `element(owner)`; the number of runners becomes a `uint16_t`.
unfoldable pub new_element : Injective → List VisibleObject → Element
new_element runners objects = record {
  visible_object_indices = indices_from 0 objects;
  max_visible_runner_id = Injective.size runners % 65536;
}

unfoldable pub record_new_runner : Element → Element
record_new_runner e = record e { max_visible_runner_id = (e.max_visible_runner_id + 1) % 65536 }

unfoldable pub point_to_next_state_for : ℕ → Element → Element
point_to_next_state_for id e = record e {
  visible_object_indices = elim (lookup id e.visible_object_indices) [
    | some i ↦ assign id (suc i) e.visible_object_indices
    | none ↦ assign id 0 e.visible_object_indices
  ];
}

-- The methods of an element of the sequence `s`.
unfoldable pub contains_object_with_id : Element → ℕ → Bool
contains_object_with_id e id = ltb id (length e.visible_object_indices)

unfoldable pub contains_runner_with_id : StateSequence → Element → ℕ → Bool
contains_runner_with_id s e p =
    ltb p e.max_visible_runner_id && Injective.count_domain p s.runner_to_obj_map

unfoldable pub is_runner : StateSequence → Element → ℕ → Bool
unfolding contains_object_with_id
is_runner s e id = contains_object_with_id e id && Injective.count_range id s.runner_to_obj_map

unfoldable pub get_objid_for_runner : StateSequence → Element → ℕ → ℕ
unfolding contains_runner_with_id
get_objid_for_runner s e p = elim (Injective.at p s.runner_to_obj_map) [
  | some id ↦ if contains_runner_with_id s e p then id else invalid_objid
  | none ↦ invalid_objid
]

unfoldable pub get_runner_id_for_obj : StateSequence → Element → ℕ → ℕ
unfolding is_runner
get_runner_id_for_obj s e id = elim (Injective.range_at id s.runner_to_obj_map) [
  | some p ↦ if is_runner s e id then p else invalid_rid
  | none ↦ invalid_rid
]

unfoldable pub get_state_of_object : StateSequence → Element → ℕ → Result ObjectState
get_state_of_object s e id = do
  o ← or_fail (get_elem? s.visible_objects id) out_of_range
  i ← or_fail (lookup id e.visible_object_indices) out_of_range
  or_fail (state_at o i) out_of_range

unfoldable pub get_state_of_runner : StateSequence → Element → ℕ → Result ThreadState
unfolding get_state_of_object get_objid_for_runner as_thread
get_state_of_runner s e p = get_state_of_object s e (get_objid_for_runner s e p) >>= as_thread

-- An element as a state.
abbrev pub to_state : StateSequence → Element → State
to_state s e = record {
  count = length e.visible_object_indices;
  runner_count = e.max_visible_runner_id;
  is_runner = is_runner s e;
  contains_object_with_id = contains_object_with_id e;
  contains_runner_with_id = contains_runner_with_id s e;
  get_objid_for_runner = get_objid_for_runner s e;
  get_runner_id_for_obj = get_runner_id_for_obj s e;
  get_state_of_object = get_state_of_object s e;
  get_state_of_runner = get_state_of_runner s e;
}

-- The sequence is the state that its last element represents.
abbrev pub current : StateSequence → State
current s = to_state s s.representative

abbrev pub get_num_states_in_sequence : StateSequence → ℕ
get_num_states_in_sequence s = length s.earlier + 1

unfoldable pub push_state_snapshot : StateSequence → StateSequence
unfolding new_element
push_state_snapshot s = record s {
  earlier = s.earlier ++ s.representative ∷ [];
  representative = new_element s.runner_to_obj_map s.visible_objects;
}

unfoldable pub add_object : ObjectState → StateSequence → StateSequence × ℕ
unfolding point_to_next_state_for
add_object o s =
    let id = length s.visible_objects in
    (
      record s {
        visible_objects = s.visible_objects ++ push_state no_states o ∷ [];
        representative = point_to_next_state_for id s.representative;
      },
      id,
    )

unfoldable pub add_runner : ThreadState → StateSequence → Result (StateSequence × ℕ)
unfolding add_object record_new_runner inserted
add_runner t s =
    let (s', runner_objid) = add_object (ObjectState.thread t) s in
    let next_runner_id = Injective.size s'.runner_to_obj_map % 65536 in
    inserted next_runner_id runner_objid s'.runner_to_obj_map >>= λ runners. ok (
      record s' {
        runner_to_obj_map = runners;
        representative = record_new_runner s'.representative;
      },
      next_runner_id,
    )

unfoldable pub add_state_for_obj : ℕ → ObjectState → StateSequence → Result StateSequence
unfolding point_to_next_state_for
add_state_for_obj id o s =
    if id == invalid_objid
    then err invalid_object
    else or_fail (get_elem? s.visible_objects id) out_of_range >>= λ v. ok (record s {
      visible_objects = set s.visible_objects id (push_state v o);
      representative = point_to_next_state_for id s.representative;
    })

unfoldable pub add_state_for_runner : ℕ → ThreadState → StateSequence → Result StateSequence
unfolding add_state_for_obj get_objid_for_runner
add_state_for_runner p t s =
    let objid = get_objid_for_runner s s.representative p in
    if objid == invalid_objid
    then err unknown_runner
    else add_state_for_obj objid (ObjectState.thread t) s

-- The loop of `consume_into_subsequence` over the objects from `i` on.
unfoldable pub slice_objects : Element → ℕ → List VisibleObject → Result (List VisibleObject)
unfolding contains_object_with_id
slice_objects e i [] = ok []
slice_objects e i (o ∷ objects) = do
  index ←
      if contains_object_with_id e i
      then or_fail (lookup i e.visible_object_indices) out_of_range
      else ok 0
  rest ← slice_objects e (suc i) objects
  ok (slice index o ∷ rest)

-- With no state left the sequence has no representative.
unfoldable pub consume_into_subsequence : ℕ → StateSequence → Result StateSequence
unfolding slice_objects
consume_into_subsequence zero s = err out_of_bounds
consume_into_subsequence (suc k) s =
    if leb (get_num_states_in_sequence s) (suc k) then ok s else (do
      e ← or_fail (get_elem? s.earlier k) out_of_range
      objects ← slice_objects e 0 s.visible_objects
      ok (record s { visible_objects = objects; earlier = take k s.earlier; representative = e }))

-- The loop of `follow`: the current state of each changed object is moved over.
unfoldable pub push_new_states :
    List (ℕ × VisibleObject) → List VisibleObject → Result (List VisibleObject)
push_new_states [] objects = ok objects
push_new_states ((id, changed) ∷ rest) objects = do
  v ← or_fail (get_elem? objects id) out_of_bounds
  o ← or_fail (get_current_state changed) out_of_bounds
  push_new_states rest (set objects id (push_state v o))

unfoldable pub finish_follow : DiffState × Status → StateSequence → Result (StateSequence × Status)
unfolding push_new_states push_state_snapshot
finish_follow (d, status) s =
    if is_exists status
    then (do
      objects ← push_new_states d.new_object_states s.visible_objects
      ok (push_state_snapshot (record s { visible_objects = objects }), status))
    else ok (s, status)

unfoldable pub follow : Transition → StateSequence → Result (StateSequence × Status)
unfolding finish_follow
follow t s = do r ← apply_to t (current s); finish_follow r s
