-- ===== src/State/Diff.antt =====
-- include/mcmini/model/state/diff_state.hpp and src/mcmini/model/diff_state.cpp: a state as the
-- changes of another one.
pub mod Reads
use deep_debug.Prelude.{
  ℕ, ◌+◌, ◌-◌, ◌%◌, ◌==◌, Bool, true, false, not, ◌||◌, List, [], ◌∷◌, Option, none, some, length,
  lookup, assign, has_key, is_empty, if◌then◌else◌, Result, ok, err, or_fail, ◌>>=◌, out_of_bounds,
  invalid_object,
}
use deep_debug.Objects.{ObjectState, as_thread}
use deep_debug.Objects.Thread.{ThreadState}
use deep_debug.State.{State, invalid_objid}
use deep_debug.State.Injective
use deep_debug.State.Injective.{Injective, no_mapping, inserted}
use deep_debug.State.VisibleObject.{VisibleObject, no_states, get_current_state, push_state}

pub record DiffState : Type 0 where
  pub base : State
  pub new_runners : Injective
  pub new_object_states : List (ℕ × VisibleObject)

-- `diff_state(s)`, and the copy constructor, which leaves `new_runners` out.
abbrev pub diff_of : State → DiffState
diff_of s = record { base = s; new_runners = no_mapping; new_object_states = [] }

abbrev pub copy : DiffState → DiffState
copy d = record { base = d.base; new_runners = no_mapping; new_object_states = d.new_object_states }

unfoldable pub differs_from_base : DiffState → Bool
differs_from_base d = not (is_empty d.new_object_states) || not (is_empty d.new_runners.forward)

-- How many of the new states are of objects that the base has too.
unfoldable pub overridden : State → List (ℕ × VisibleObject) → ℕ
overridden s [] = 0
overridden s ((id, o) ∷ rest) = (if s.contains_object_with_id id then 1 else 0) + overridden s rest

unfoldable pub count : DiffState → ℕ
unfolding overridden
count d = length d.new_object_states + d.base.count - overridden d.base d.new_object_states

unfoldable pub runner_count : DiffState → ℕ
runner_count d = d.base.runner_count + Injective.size d.new_runners

unfoldable pub get_objid_for_runner : DiffState → ℕ → ℕ
get_objid_for_runner d p = elim (Injective.at p d.new_runners) [
  | some id ↦ id
  | none ↦ d.base.get_objid_for_runner p
]

unfoldable pub get_runner_id_for_obj : DiffState → ℕ → ℕ
get_runner_id_for_obj d id = elim (Injective.range_at id d.new_runners) [
  | some p ↦ p
  | none ↦ d.base.get_runner_id_for_obj id
]

unfoldable pub is_runner : DiffState → ℕ → Bool
is_runner d id = Injective.count_range id d.new_runners || d.base.is_runner id

unfoldable pub contains_object_with_id : DiffState → ℕ → Bool
contains_object_with_id d id = has_key id d.new_object_states || d.base.contains_object_with_id id

unfoldable pub contains_runner_with_id : DiffState → ℕ → Bool
contains_runner_with_id d p =
    Injective.count_domain p d.new_runners || d.base.contains_runner_with_id p

unfoldable pub get_state_of_object : DiffState → ℕ → Result ObjectState
get_state_of_object d id = elim (lookup id d.new_object_states) [
  | some o ↦ or_fail (get_current_state o) out_of_bounds
  | none ↦ d.base.get_state_of_object id
]

unfoldable pub get_state_of_runner : DiffState → ℕ → Result ThreadState
unfolding get_state_of_object as_thread
get_state_of_runner d p = elim (Injective.at p d.new_runners) [
  | some id ↦ get_state_of_object d id >>= as_thread
  | none ↦ d.base.get_state_of_runner p
]

-- The new diff and the id given.
unfoldable pub add_object : ObjectState → DiffState → DiffState × ℕ
add_object s d =
    let next_id = d.base.count + length d.new_object_states in
    (
      record d { new_object_states = assign next_id (push_state no_states s) d.new_object_states },
      next_id,
    )

unfoldable pub add_runner : ThreadState → DiffState → Result (DiffState × ℕ)
unfolding add_object runner_count inserted
add_runner t d =
    let (e, objid) = add_object (ObjectState.thread t) d in
    let next_runner_id = runner_count e % 65536 in
    inserted next_runner_id objid e.new_runners >>= λ runners.
    ok (record e { new_runners = runners }, next_runner_id)

-- `new_object_states[id]`, with an empty object where there is none.
abbrev pub object_or_new : ℕ → DiffState → VisibleObject
object_or_new id d = elim (lookup id d.new_object_states) [ some o ↦ o | none ↦ no_states ]

unfoldable pub add_state_for_obj : ℕ → ObjectState → DiffState → Result DiffState
add_state_for_obj id s d =
    if id == invalid_objid
    then err invalid_object
    else ok (record d {
      new_object_states = assign id (push_state (object_or_new id d) s) d.new_object_states;
    })

unfoldable pub add_state_for_runner : ℕ → ThreadState → DiffState → Result DiffState
unfolding add_state_for_obj get_objid_for_runner
add_state_for_runner p t d = add_state_for_obj (get_objid_for_runner d p) (ObjectState.thread t) d

-- A diff as a state.
abbrev pub to_state : DiffState → State
to_state d = record {
  count = count d;
  runner_count = runner_count d;
  is_runner = is_runner d;
  contains_object_with_id = contains_object_with_id d;
  contains_runner_with_id = contains_runner_with_id d;
  get_objid_for_runner = get_objid_for_runner d;
  get_runner_id_for_obj = get_runner_id_for_obj d;
  get_state_of_object = get_state_of_object d;
  get_state_of_runner = get_state_of_runner d;
}
