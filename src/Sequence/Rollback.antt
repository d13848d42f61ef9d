-- ===== src/Sequence/Rollback.antt =====
-- Following transitions and then cutting the sequence back gives the sequence as it was.
use deep_debug.Prelude.{
  ℕ, zero, suc, ◌+◌, ◌-◌, ◌<◌, ◌≡◌, refl, sym, ap, ◌∙◌, leb, true, false, ◌⊎◌, inl, inr, List, [],
  ◌∷◌, ◌++◌, append_assoc, append-nil, some, length, get_elem?, set, take, take-append, lookup,
  length-append, ok, get_elem?-append_middle, >>=-eq-ok, or_fail, or_fail-eq-ok, out_of_bounds,
  get_last?, subst, arith,
}
use deep_debug.Objects.{ObjectState}
use deep_debug.State.VisibleObject.{VisibleObject, push_state, slice, get_last_state_index}
use deep_debug.Sequence.{
  Element, StateSequence, indices_from, contains_object_with_id, slice_objects, push_new_states,
  consume_into_subsequence,
}

-- Each object has at least one state, and the element `e` points to its last one.
abbrev pub PointsTo : Element → ℕ → List VisibleObject → Type 0
PointsTo e i [] = Unit
PointsTo e i (o ∷ objects) =
    (contains_object_with_id e i ≡ true)
    × (lookup i e.visible_object_indices ≡ some (length o.history - 1))
    × (0 < length o.history)
    × PointsTo e (suc i) objects

-- The representative element shows the last state of every object.
abbrev pub IsCurrent : StateSequence → Type 0
IsCurrent s = PointsTo s.representative 0 s.visible_objects

abbrev pub HasStates : List VisibleObject → Type 0
HasStates [] = Unit
HasStates (o ∷ objects) = (0 < length o.history) × HasStates objects

-- The objects of the second list are those of the first, with more states after.
abbrev pub IsLonger : List VisibleObject → List VisibleObject → Type 0
IsLonger [] [] = Unit
IsLonger [] (o ∷ os) = ⊥
IsLonger (o ∷ os) [] = ⊥
IsLonger (o ∷ os) (o' ∷ os') = ((more : _) × (o'.history ≡ o.history ++ more)) × IsLonger os os'

pub PointsTo-HasStates :
    (e : Element) (i : ℕ) (objects : List VisibleObject) → PointsTo e i objects → HasStates objects
PointsTo-HasStates e i [] h = tt
PointsTo-HasStates e i (o ∷ objects) (c, p, l, h) = (l, PointsTo-HasStates e (suc i) objects h)

pub IsLonger-refl : (os : List VisibleObject) → IsLonger os os
IsLonger-refl [] = tt
IsLonger-refl (o ∷ os) = (([], sym (append-nil o.history)), IsLonger-refl os)

pub IsLonger-trans :
    (os ps qs : List VisibleObject) → IsLonger os ps → IsLonger ps qs → IsLonger os qs
IsLonger-trans [] [] [] h k = tt
IsLonger-trans [] [] (q ∷ qs) h k = k
IsLonger-trans [] (p ∷ ps) qs h k = absurd h
IsLonger-trans (o ∷ os) [] qs h k = absurd h
IsLonger-trans (o ∷ os) (p ∷ ps) [] h k = k
IsLonger-trans (o ∷ os) (p ∷ ps) (q ∷ qs) ((m, e), h) ((n, f), k) =
    ((m ++ n, f ∙ ap (λ l. l ++ n) e ∙ append_assoc o.history m n), IsLonger-trans os ps qs h k)

IsLonger-set :
    (os : List VisibleObject) (id : ℕ) (o v : VisibleObject)
    → get_elem? os id ≡ some o
    → (more : _) × (v.history ≡ o.history ++ more)
    → IsLonger os (set os id v)
IsLonger-set [] id o v e m = cc
IsLonger-set (x ∷ os) zero o v e (m, p) = ((m, ground arith), IsLonger-refl os)
IsLonger-set (x ∷ os) (suc id) o v e m =
    (([], sym (append-nil x.history)), IsLonger-set os id o v e m)

pub push_new_states-IsLonger :
    (news : List (ℕ × VisibleObject)) (os ps : List VisibleObject)
    → push_new_states news os ≡ ok ps
    → IsLonger os ps
unfolding push_new_states
push_new_states-IsLonger [] os ps h =
    let e : os ≡ ps = cc in subst (IsLonger os) e (IsLonger-refl os)
push_new_states-IsLonger ((id, changed) ∷ rest) os ps h =
    let (v, found, h₁) = >>=-eq-ok (or_fail (get_elem? os id) out_of_bounds) _ h in
    let (o, last, h₂) = >>=-eq-ok (or_fail (get_last? changed.history) out_of_bounds) _ h₁ in
    IsLonger-trans os _ ps
      (IsLonger-set os id v (push_state v o) (or_fail-eq-ok _ out_of_bounds found) (o ∷ [], refl))
      (push_new_states-IsLonger rest (set os id (push_state v o)) ps h₂)

slice-longer :
    (o o' : VisibleObject) (more : List ObjectState)
    → 0 < length o.history
    → o'.history ≡ o.history ++ more
    → slice (length o.history - 1) o' ≡ o
slice-longer o o' more pos e =
    let size : suc (length o.history - 1) ≡ length o.history = omega arith in
    let cut : take (suc (length o.history - 1)) o'.history ≡ o.history =
      rw (size, e) (take-append o.history more) in
    λ i. record { history = cut i }

-- Cutting the histories of longer objects at the states that `e` points to.
slice_objects-IsLonger :
    (e : Element) (i : ℕ) (os os' : List VisibleObject)
    → PointsTo e i os
    → IsLonger os os'
    → slice_objects e i os' ≡ ok os
unfolding slice_objects
slice_objects-IsLonger e i [] [] p l = refl
slice_objects-IsLonger e i [] (o ∷ os') p l = absurd l
slice_objects-IsLonger e i (o ∷ os) [] p l = absurd l
slice_objects-IsLonger e i (o ∷ os) (o' ∷ os') (c, f, pos, p) ((m, x), l) =
    let rest = slice_objects-IsLonger e (suc i) os os' p l in
    rw (c, f, rest, slice-longer o o' m pos x)

length-indices_from :
    (i : ℕ) (objects : List VisibleObject) → length (indices_from i objects) ≡ length objects
unfolding indices_from
length-indices_from i [] = refl
length-indices_from i (o ∷ objects) = ap suc (length-indices_from (suc i) objects)

lookup-indices_from_middle :
    (k i : ℕ) (before after : List VisibleObject) (o : VisibleObject)
    → i ≡ k + length before
    → lookup i (indices_from k (before ++ o ∷ after)) ≡ some (get_last_state_index o)
unfolding indices_from
lookup-indices_from_middle k i [] after o e = ground arith
lookup-indices_from_middle k i (b ∷ before) after o e =
    ground (arith, lookup-indices_from_middle (suc k) i before after o)

-- After a snapshot the representative element shows the last states again.
pub new_element-PointsTo :
    (e : Element) (i : ℕ) (before objects : List VisibleObject)
    → e.visible_object_indices ≡ indices_from 0 (before ++ objects)
    → i ≡ length before
    → HasStates objects
    → PointsTo e i objects
unfolding contains_object_with_id get_last_state_index
new_element-PointsTo e i before [] x y h = tt
new_element-PointsTo e i before (o ∷ objects) x y (pos, h) = (
  ground (
    arith,
    ap length x,
    length-indices_from 0 (before ++ o ∷ objects),
    length-append before (o ∷ objects),
  ),
  rw x (ground (arith, lookup-indices_from_middle 0 i before objects o)),
  pos,
  new_element-PointsTo e (suc i) (before ++ o ∷ []) objects
      (x ∙ ap (indices_from 0) (sym (append_assoc before (o ∷ []) objects)))
      (omega (arith, length-append before (o ∷ []))) h,
)

-- What follows `s` in one or more steps.
pub record Grown (s s' : StateSequence) : Type 0 where
  pub runners : s'.runner_to_obj_map ≡ s.runner_to_obj_map
  pub objects : IsLonger s.visible_objects s'.visible_objects
  pub more : List Element
  pub states : s'.earlier ≡ s.earlier ++ s.representative ∷ more

abbrev pub Extends : StateSequence → StateSequence → Type 0
Extends s s' = (s' ≡ s) ⊎ Grown s s'

-- Cutting what follows a current sequence back to its length gives it.
pub consume_into_subsequence-Extends :
    (s s' : StateSequence)
    → IsCurrent s
    → Extends s s'
    → consume_into_subsequence (suc (length s.earlier)) s' ≡ ok s
unfolding consume_into_subsequence
consume_into_subsequence-Extends s s' fresh (inl e) = rw e (ground arith)
consume_into_subsequence-Extends s s' fresh (inr g) =
    let longer : leb (length s'.earlier + 1) (suc (length s.earlier)) ≡ false =
      ground (arith, ap length g.states, length-append s.earlier (s.representative ∷ g.more)) in
    let shown : get_elem? s'.earlier (length s.earlier) ≡ some s.representative =
      rw g.states (get_elem?-append_middle s.earlier g.more s.representative) in
    let kept : take (length s.earlier) s'.earlier ≡ s.earlier =
      rw g.states (take-append s.earlier (s.representative ∷ g.more)) in
    let objects = slice_objects-IsLonger s.representative 0 _ _ fresh g.objects in
    rw (longer, shown, objects, kept, g.runners)
