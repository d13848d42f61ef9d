-- ===== src/Sequence/Commuting/Orders.antt =====
-- Following two transitions in either order.
use deep_debug.Prelude.{
  Bool-cases, ℕ, ◌≡◌, Bool, true, false, ◌&&◌, ◌⊎◌, inl, inr, List, none, lookup, ok, ap, ◌∙◌,
  arith,
}
use deep_debug.State.VisibleObject.{VisibleObject}
use deep_debug.State.Diff.{DiffState}
use deep_debug.Sequence.{StateSequence, current, get_objid_for_runner, push_new_states, follow}
use deep_debug.Sequence.Commuting.{push_new_states_comm}
use deep_debug.Transition.{Transition, get_executor, apply_to}
use deep_debug.Transition.Status.{Status}
use deep_debug.Transition.Commuting.Modify.{is_on_objects, touches}
use deep_debug.Transition.Commuting.Apart.{AreApart, Redoes, apply_to-Redoes}
use deep_debug.Transition.Commuting.{NewInside}
use deep_debug.Sequence.Commuting.Follow.{
  IsSnapshot, Shows, news_of, news_of-out, news_of-same, follow-eq-ok, follow-is_ok,
  Shows-ShowsSame,
}

untouched : (a b : Bool) → (a && b) ≡ false → b ≡ true → a ≡ false
untouched a b h1 h2 = ground arith

-- The executor's own object is not one that the other transition names.
abbrev pub StaysClear : Transition → StateSequence → Transition → Type 0
StaysClear t s u = touches t (get_objid_for_runner s s.representative (get_executor u)) ≡ false

-- The second of two transitions that are apart, after the first.
then_follows :
    (t u : Transition) (s s1 : StateSequence) (d1 d2 : DiffState) (status1 status2 : Status)
    (objects : List VisibleObject)
    → AreApart t u
    → StaysClear t s u
    → IsSnapshot s
    → NewInside (touches t) d1
    → Redoes u (current s) (apply_to u) d2 status2
    → Shows s s1.visible_objects s1
    → push_new_states (news_of status1 d1) s.visible_objects ≡ ok s1.visible_objects
    → push_new_states (news_of status2 d2) s1.visible_objects ≡ ok objects
    → (s' : StateSequence) × (follow u s1 ≡ ok (s', status2)) × Shows s objects s'
then_follows t u s s1 d1 d2 status1 status2 objects apart clear snapshot inside (inside2, again)
      shows pushed pushed2 =
    let (e, applied, same_new) = again (current s1) (
      Shows-ShowsSame u (news_of status1 d1) s s1 snapshot shows pushed
        (λ j touched.
          news_of-out d1 status1 j
            (inside j (untouched (touches t j) (touches u j) (apart j) touched)))
        (news_of-out d1 status1 _ (inside _ clear))) in
    let (s', followed, (objects_are, runners, snapshot')) =
      follow-is_ok u s1 e status2 objects shows.2 applied (
        ap (λ x. push_new_states x s1.visible_objects) (news_of-same status2 e d2 same_new)
        ∙ pushed2) in
    (s', followed, (objects_are, runners ∙ shows.1, snapshot'))

AreApart-sym : (t u : Transition) → AreApart t u → AreApart u t
AreApart-sym t u apart j = swapped (touches t j) (touches u j) (apart j)
  where
    swapped : (a b : Bool) → (a && b) ≡ false → (b && a) ≡ false
    swapped a b h = ground arith

-- No object has new states in both lists.
news_apart :
    (t u : Transition) (d1 d2 : DiffState) (status1 status2 : Status)
    → AreApart t u
    → NewInside (touches t) d1
    → NewInside (touches u) d2
    → (j : ℕ) → (lookup j (news_of status1 d1) ≡ none) ⊎ (lookup j (news_of status2 d2) ≡ none)
news_apart t u d1 d2 status1 status2 apart inside1 inside2 j = elim (Bool-cases (touches t j)) [
  | inl hit ↦ inr (
      news_of-out d2 status2 j
        (inside2 j (untouched (touches u j) (touches t j) (AreApart-sym t u apart j) hit)))
  | inr miss ↦ inl (news_of-out d1 status1 j (inside1 j miss))
]

-- The same objects with the same histories, the same runners, and the same last state.
abbrev pub SameState : StateSequence → StateSequence → Type 0
SameState s s' =
    (s.visible_objects ≡ s'.visible_objects)
    × (s.runner_to_obj_map ≡ s'.runner_to_obj_map)
    × (s.representative ≡ s'.representative)

Shows-SameState :
    (s s12 s21 : StateSequence) (objects : List VisibleObject)
    → Shows s objects s12
    → Shows s objects s21
    → SameState s12 s21
Shows-SameState s s12 s21 objects (o1, m1, r1) (o2, m2, r2) = (cc, cc, cc)

-- Two transitions that are apart can be followed in either order, with the same statuses and to the
-- same state.
pub follow-commutes :
    (t u : Transition) (s s1 s2 : StateSequence) (status1 status2 : Status)
    → is_on_objects t ≡ true
    → is_on_objects u ≡ true
    → AreApart t u
    → StaysClear t s u
    → StaysClear u s t
    → IsSnapshot s
    → follow t s ≡ ok (s1, status1)
    → follow u s ≡ ok (s2, status2)
    → (s12 : StateSequence) × (s21 : StateSequence) × (follow u s1 ≡ ok (s12, status2))
      × (follow t s2 ≡ ok (s21, status1))
      × SameState s12 s21
follow-commutes t u s s1 s2 status1 status2 on_t on_u apart clear1 clear2 snapshot h1 h2 =
    let (d1, applied1, pushed1, shows1) = follow-eq-ok t s s1 status1 snapshot h1 in
    let (d2, applied2, pushed2, shows2) = follow-eq-ok u s s2 status2 snapshot h2 in
    let r1 : Redoes t (current s) (apply_to t) d1 status1 =
      apply_to-Redoes t (current s) d1 status1 on_t applied1 in
    let r2 : Redoes u (current s) (apply_to u) d2 status2 =
      apply_to-Redoes u (current s) d2 status2 on_u applied2 in
    let (rs, second, first) =
      push_new_states_comm (news_of status1 d1) (news_of status2 d2) s.visible_objects
        s1.visible_objects s2.visible_objects (news_apart t u d1 d2 status1 status2 apart r1.0 r2.0)
        pushed1 pushed2 in
    let (s12, follows12, shows12) =
      then_follows t u s s1 d1 d2 status1 status2 rs apart clear1 snapshot r1.0 r2 shows1 pushed1
        second in
    let (s21, follows21, shows21) =
      then_follows u t s s2 d2 d1 status2 status1 rs (AreApart-sym t u apart) clear2 snapshot r2.0
        r1 shows2 pushed2 first in
    (s12, s21, follows12, follows21, Shows-SameState s s12 s21 rs shows12 shows21)
