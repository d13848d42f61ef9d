-- ===== src/Sequence/Follow.antt =====
-- What `follow` does to the sequence.
use deep_debug.Prelude.{
  ◌+◌, ◌≡◌, refl, ap, inl, inr, true, List, [], ◌∷◌, ◌++◌, length, length-append, ok, >>=-eq-ok,
  arith, append_assoc, ◌∙◌, subst,
}
use deep_debug.State.Diff.{DiffState}
use deep_debug.State.VisibleObject.{VisibleObject}
use deep_debug.Sequence.{
  StateSequence, current, new_element, push_state_snapshot, push_new_states, finish_follow, follow,
}
use deep_debug.Sequence.Rollback.{
  IsCurrent, HasStates, IsLonger, IsLonger-trans, PointsTo-HasStates, push_new_states-IsLonger,
  new_element-PointsTo, Grown, Extends,
}
use deep_debug.Transition.{Transition, apply_to}
use deep_debug.Transition.Status.{Status, exists, disabled, undefined, is_exists}

HasStates-IsLonger : (os ps : List VisibleObject) → IsLonger os ps → HasStates os → HasStates ps
HasStates-IsLonger [] [] l h = tt
HasStates-IsLonger [] (p ∷ ps) l h = absurd l
HasStates-IsLonger (o ∷ os) [] l h = absurd l
HasStates-IsLonger (o ∷ os) (p ∷ ps) ((more, e), l) (pos, h) =
    (omega (arith, ap length e, length-append o.history more), HasStates-IsLonger os ps l h)

finish_follow-Grown :
    (d : DiffState) (st : Status) (s s' : StateSequence) (status : Status)
    → IsCurrent s
    → finish_follow (d, st) s ≡ ok (s', status)
    → is_exists status ≡ true
    → Grown s s' × IsCurrent s' × (length s'.earlier ≡ length s.earlier + 1)
unfolding finish_follow new_element
finish_follow-Grown d exists s s' status fresh h e =
    let (objects, pushed, made) =
      >>=-eq-ok (push_new_states d.new_object_states s.visible_objects) _ h in
    let longer = push_new_states-IsLonger d.new_object_states s.visible_objects objects pushed in
    let states = HasStates-IsLonger _ objects longer (PointsTo-HasStates _ 0 _ fresh) in
    let shape : s' ≡ push_state_snapshot (record s { visible_objects = objects }) = cc in
    rw shape (
      record { runners = refl; objects = longer; more = []; states = refl },
      new_element-PointsTo (new_element s.runner_to_obj_map objects) 0 [] objects refl refl states,
      omega (arith, length-append s.earlier (s.representative ∷ [])),
    )
finish_follow-Grown d disabled s s' status fresh h e = ground arith
finish_follow-Grown d undefined s s' status fresh h e = ground arith

-- A followed transition that exists makes the sequence grow by one state, and leaves it current.
pub follow-Grown :
    (t : Transition) (s s' : StateSequence) (status : Status)
    → IsCurrent s
    → follow t s ≡ ok (s', status)
    → is_exists status ≡ true
    → Grown s s' × IsCurrent s' × (length s'.earlier ≡ length s.earlier + 1)
unfolding follow
follow-Grown t s s' status fresh h e =
    let (r, applied, finished) = >>=-eq-ok (apply_to t (current s)) (λ r. finish_follow r s) h in
    finish_follow-Grown r.0 r.1 s s' status fresh finished e

pub Extends-Grown : (s s' s'' : StateSequence) → Extends s s' → Grown s' s'' → Extends s s''
Extends-Grown s s' s'' (inl e) g = inr (subst (λ x. Grown x s'') e g)
Extends-Grown s s' s'' (inr f) g = inr (record {
  runners = g.runners ∙ f.runners;
  objects =
      IsLonger-trans s.visible_objects s'.visible_objects s''.visible_objects f.objects g.objects;
  more = f.more ++ s'.representative ∷ g.more;
  states =
      g.states
      ∙ ap (λ l. l ++ s'.representative ∷ g.more) f.states
      ∙ append_assoc s.earlier (s.representative ∷ f.more) (s'.representative ∷ g.more);
})
