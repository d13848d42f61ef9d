-- ===== src/Sequence/Discovery.antt =====
-- Adding an object or a runner keeps the last element of the sequence exact.
use deep_debug.Prelude.{
  ℕ, suc, ◌+◌, ◌%◌, ◌≤◌, ◌≡◌, refl, sym, ap, true, List, [], ◌∷◌, ◌++◌, none, length, length-append,
  lookup, lookup-assign, assign, length-assign_new, ok, >>=-eq-ok, arith,
}
use deep_debug.Objects.{ObjectState}
use deep_debug.Objects.Thread.{ThreadState}
use deep_debug.State.Injective
use deep_debug.State.Injective.{Injective, inserted}
use deep_debug.State.VisibleObject.{VisibleObject, no_states, push_state}
use deep_debug.Sequence.{
  Element, StateSequence, contains_object_with_id, point_to_next_state_for, record_new_runner,
  add_object, add_runner, indices_from, new_element, push_new_states, push_state_snapshot,
  finish_follow, follow, current,
}
use deep_debug.State.Diff.{DiffState}
use deep_debug.Transition.{Transition, apply_to}
use deep_debug.Transition.Status.{Status, exists, disabled, undefined, is_exists}
use deep_debug.Sequence.Rollback.{PointsTo, IsCurrent}

-- The element has no index for what comes after the `n` objects.
abbrev pub ShowsOnly : Element → ℕ → Type 0
ShowsOnly e n = (i : ℕ) → n ≤ i → lookup i e.visible_object_indices ≡ none

-- The last element shows the last state of every object, and nothing else.
pub record IsExact (s : StateSequence) : Type 0 where
  pub fresh : IsCurrent s
  pub only : ShowsOnly s.representative (length s.visible_objects)

-- An object with one state joins those that the element points to.
grow-PointsTo :
    (e e' : Element) (n i : ℕ) (os : List VisibleObject) (o : ObjectState)
    → lookup n e.visible_object_indices ≡ none
    → e'.visible_object_indices ≡ assign n 0 e.visible_object_indices
    → i + length os ≡ n
    → i ≤ length e.visible_object_indices
    → PointsTo e i os
    → PointsTo e' i (os ++ push_state no_states o ∷ [])
unfolding contains_object_with_id
grow-PointsTo e e' n i [] o h x l b p = (
  ground (arith, ap length x, length-assign_new n 0 e.visible_object_indices (rw h refl)),
  rw x (ground (arith, lookup-assign n i 0 e.visible_object_indices)),
  omega arith,
  tt,
)
grow-PointsTo e e' n i (v ∷ os) o h x l b (c, f, pos, p) = (
  ground (arith, ap length x, length-assign_new n 0 e.visible_object_indices (rw h refl)),
  rw x (ground (arith, lookup-assign n i 0 e.visible_object_indices)),
  pos,
  grow-PointsTo e e' n (suc i) os o h x (omega arith) (ground arith) p,
)

grow-ShowsOnly :
    (e e' : Element) (n : ℕ)
    → e'.visible_object_indices ≡ assign n 0 e.visible_object_indices
    → ShowsOnly e n
    → ShowsOnly e' (n + 1)
grow-ShowsOnly e e' n x h i b =
    rw x (ground (arith, lookup-assign n i 0 e.visible_object_indices, h i (omega arith)))

-- A sequence with one more object, whose last element differs by the index of its only state.
with_object-IsExact :
    (o : ObjectState) (s s' : StateSequence)
    → s'.visible_objects ≡ s.visible_objects ++ push_state no_states o ∷ []
    → s'.representative.visible_object_indices
      ≡ (point_to_next_state_for (length s.visible_objects) s.representative).visible_object_indices
    → IsExact s
    → IsExact s'
unfolding point_to_next_state_for
with_object-IsExact o s s' objects x w =
    let n = length s.visible_objects in
    let free = w.only n (omega arith) in
    let y : s'.representative.visible_object_indices
        ≡ assign n 0 s.representative.visible_object_indices =
      rw (point_to_next_state_for, free) at x in
    record {
      fresh = rw objects (
          grow-PointsTo s.representative s'.representative n 0 s.visible_objects o free y
            (omega arith) (omega arith) w.fresh);
      only =
          rw (objects, length-append s.visible_objects (push_state no_states o ∷ []))
            (grow-ShowsOnly s.representative s'.representative n y w.only);
    }

pub add_object-IsExact :
    (o : ObjectState) (s : StateSequence) → IsExact s → IsExact (add_object o s).0
unfolding add_object
add_object-IsExact o s w = with_object-IsExact o s (add_object o s).0 refl refl w

pub add_runner-IsExact :
    (t : ThreadState) (s s' : StateSequence) (id : ℕ)
    → IsExact s
    → add_runner t s ≡ ok (s', id)
    → IsExact s' × (id ≡ Injective.size s.runner_to_obj_map % 65536) × (s'.earlier ≡ s.earlier)
unfolding add_runner add_object record_new_runner
add_runner-IsExact t s s' id w h =
    let n = length s.visible_objects in
    let (runners, i, made) =
      >>=-eq-ok (inserted (Injective.size s.runner_to_obj_map % 65536) n s.runner_to_obj_map) _ h in
    let shape : record s {
      runner_to_obj_map = runners;
      visible_objects = s.visible_objects ++ push_state no_states (ObjectState.thread t) ∷ [];
      representative = record_new_runner (point_to_next_state_for n s.representative);
    }
        ≡ s' =
      cc in
    let numbered : Injective.size s.runner_to_obj_map % 65536 ≡ id = cc in
    (
      with_object-IsExact (ObjectState.thread t) s s'
          (sym (ap (λ (x : StateSequence). x.visible_objects) shape))
          (sym (ap (λ (x : StateSequence). x.representative.visible_object_indices) shape)) w,
      sym numbered,
      sym (ap (λ (x : StateSequence). x.earlier) shape),
    )

-- The indices of a snapshot.
lookup-indices_from_above :
    (k i : ℕ) (os : List VisibleObject) → k + length os ≤ i → lookup i (indices_from k os) ≡ none
unfolding indices_from
lookup-indices_from_above k i [] b = refl
lookup-indices_from_above k i (o ∷ os) b = ground (arith, lookup-indices_from_above (suc k) i os)

pub new_element-ShowsOnly :
    (runners : Injective) (os : List VisibleObject) → ShowsOnly (new_element runners os) (length os)
unfolding new_element
new_element-ShowsOnly runners os i b = lookup-indices_from_above 0 i os (omega arith)

finish_follow-ShowsOnly :
    (d : DiffState) (st : Status) (s s' : StateSequence) (status : Status)
    → finish_follow (d, st) s ≡ ok (s', status)
    → is_exists status ≡ true
    → ShowsOnly s'.representative (length s'.visible_objects)
unfolding finish_follow
finish_follow-ShowsOnly d exists s s' status h e =
    let (objects, pushed, made) =
      >>=-eq-ok (push_new_states d.new_object_states s.visible_objects) _ h in
    let shape : s' ≡ push_state_snapshot (record s { visible_objects = objects }) = cc in
    rw shape (new_element-ShowsOnly s.runner_to_obj_map objects)
finish_follow-ShowsOnly d disabled s s' status h e = ground arith
finish_follow-ShowsOnly d undefined s s' status h e = ground arith

pub follow-ShowsOnly :
    (t : Transition) (s s' : StateSequence) (status : Status)
    → follow t s ≡ ok (s', status)
    → is_exists status ≡ true
    → ShowsOnly s'.representative (length s'.visible_objects)
unfolding follow
follow-ShowsOnly t s s' status h e =
    let (r, applied, finished) = >>=-eq-ok (apply_to t (current s)) (λ r. finish_follow r s) h in
    finish_follow-ShowsOnly r.0 r.1 s s' status finished e
