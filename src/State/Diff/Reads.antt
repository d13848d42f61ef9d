-- ===== src/State/Diff/Reads.antt =====
-- What a diff answers after a state has been added to it.
use deep_debug.Prelude.{
  ℕ, ◌==◌, ◌≡◌, refl, Bool, true, false, Option, none, some, lookup, assign, lookup-assign,
  get_last?-append, if◌then◌else◌, Result, ok, err, or_fail, out_of_bounds, invalid_object, sym, ap,
  ◌∙◌, subst,
}
use deep_debug.Objects.{ObjectState}
use deep_debug.State.{invalid_objid}
use deep_debug.State.VisibleObject.{VisibleObject, get_current_state, push_state}
use deep_debug.State.Diff.{DiffState, add_state_for_obj, get_state_of_object, object_or_new}

abbrev stored : ℕ → ObjectState → DiffState → DiffState
stored id s d = record d {
  new_object_states = assign id (push_state (object_or_new id d) s) d.new_object_states;
}

-- An id that is not the invalid one takes the state.
pub add_state_for_obj-eq-ok :
    (id : ℕ) (s : ObjectState) (d d' : DiffState)
    → add_state_for_obj id s d ≡ ok d'
    → ((id == invalid_objid) ≡ false) × (stored id s d ≡ d')
unfolding add_state_for_obj
add_state_for_obj-eq-ok id s d d' h = decided (id == invalid_objid) h
  where
    decided :
        (b : Bool)
        → (if b then err invalid_object else ok (stored id s d)) ≡ ok d'
        → (b ≡ false) × (stored id s d ≡ d')
    decided true h = cc
    decided false h = (refl, cc)

abbrev read : Result ObjectState → Option VisibleObject → Result ObjectState
read from_base none = from_base
read from_base (some o) = or_fail (get_current_state o) out_of_bounds

read-if :
    (b : Bool) (from_base : Result ObjectState) (s : ObjectState) (o : VisibleObject)
    (found : Option VisibleObject)
    → read from_base (if b then some (push_state o s) else found)
      ≡ (if b then ok s else read from_base found)
read-if true from_base s o found = ap (λ x. or_fail x out_of_bounds) (get_last?-append o.history s)
read-if false from_base s o found = refl

get_state_of_object-read :
    (d : DiffState) (j : ℕ)
    → get_state_of_object d j ≡ read (d.base.get_state_of_object j) (lookup j d.new_object_states)
unfolding get_state_of_object
get_state_of_object-read d j =
    elim (lookup j d.new_object_states)
      as (λ x.
        (elim x [
          | some o ↦ or_fail (get_current_state o) out_of_bounds
          | none ↦ d.base.get_state_of_object j
        ])
        ≡ read (d.base.get_state_of_object j) x) [ some o ↦ refl | none ↦ refl ]

-- If a state has been added to an object of a diff, the object has that state, and every other
-- object has the state that it had.
pub get_state_of_object-add_state_for_obj :
    (id j : ℕ) (s : ObjectState) (d d' : DiffState)
    → add_state_for_obj id s d ≡ ok d'
    → get_state_of_object d' j ≡ (if id == j then ok s else get_state_of_object d j)
get_state_of_object-add_state_for_obj id j s d d' h =
    let (valid, same) = add_state_for_obj-eq-ok id s d d' h in
    let base = d.base.get_state_of_object j in
    subst (λ x. get_state_of_object x j ≡ (if id == j then ok s else get_state_of_object d j)) same
      (get_state_of_object-read (stored id s d) j
        ∙ ap (read base)
            (lookup-assign id j (push_state (object_or_new id d) s) d.new_object_states)
        ∙ read-if (id == j) base s (object_or_new id d) (lookup j d.new_object_states)
        ∙ ap (λ x. if id == j then ok s else x) (sym (get_state_of_object-read d j)))

pub add_state_for_obj-is_ok :
    (id : ℕ) (s : ObjectState) (d : DiffState)
    → (id == invalid_objid) ≡ false
    → (d' : DiffState) × (add_state_for_obj id s d ≡ ok d')
unfolding add_state_for_obj
add_state_for_obj-is_ok id s d valid = (stored id s d, rw valid refl)
