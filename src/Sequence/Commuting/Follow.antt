-- ===== src/Sequence/Commuting/Follow.antt =====
-- Following a transition from a sequence whose last element is a snapshot of its objects.
use deep_debug.Prelude.{
  ltb, ◌%◌, ℕ, zero, suc, ◌+◌, ◌≡◌, refl, true, ◌&&◌, List, [], ◌∷◌, Option, none, some, get_elem?,
  lookup, if◌then◌else◌, Result, ok, err, or_fail, out_of_range, ◌>>=◌, >>=-eq-ok, ap, ◌∙◌, sym,
  subst, arith,
}
use deep_debug.Objects.{ObjectState, as_thread}
use deep_debug.State.{invalid_objid}
use deep_debug.State.Injective
use deep_debug.State.Injective.{Injective}
use deep_debug.State.VisibleObject.{VisibleObject, get_last_state_index, state_at}
use deep_debug.State.Diff.{DiffState}
use deep_debug.Sequence.{
  StateSequence, current, indices_from, new_element, get_objid_for_runner, get_state_of_object,
  get_state_of_runner, contains_runner_with_id, push_state_snapshot, push_new_states, finish_follow,
  follow,
}
use deep_debug.Sequence.Commuting.{News, push_new_states-other}
use deep_debug.Transition.{Transition, get_executor, apply_to}
use deep_debug.Transition.Status.{Status, exists, disabled, undefined}
use deep_debug.Transition.Commuting.Modify.{touches}
use deep_debug.Transition.Commuting.Apart.{ShowsSame}

-- The last element is a snapshot of the objects.
abbrev pub IsSnapshot : StateSequence → Type 0
IsSnapshot s = s.representative ≡ new_element s.runner_to_obj_map s.visible_objects

abbrev last_index : Option VisibleObject → Option ℕ
last_index (some o) = some (get_last_state_index o)
last_index none = none

lookup-indices_from :
    (k j : ℕ) (os : List VisibleObject)
    → lookup (k + j) (indices_from k os) ≡ last_index (get_elem? os j)
unfolding indices_from
lookup-indices_from k j [] = refl
lookup-indices_from k zero (o ∷ os) = ground arith
lookup-indices_from k (suc j) (o ∷ os) = ground (arith, lookup-indices_from (suc k) j os)

-- What a snapshot shows of an object.
abbrev shown : Option VisibleObject → Result ObjectState
shown (some o) = or_fail (state_at o (get_last_state_index o)) out_of_range
shown none = err out_of_range

get_state_of_object-shown :
    (s : StateSequence) (j : ℕ)
    → IsSnapshot s
    → get_state_of_object s s.representative j ≡ shown (get_elem? s.visible_objects j)
unfolding get_state_of_object new_element
get_state_of_object-shown s j snapshot = rw snapshot (
    found (get_elem? s.visible_objects j) (lookup j (indices_from 0 s.visible_objects)) (
      ap (λ k. lookup k (indices_from 0 s.visible_objects)) none_before
      ∙ lookup-indices_from 0 j s.visible_objects))
  where
    none_before : j ≡ 0 + j
    none_before = omega arith

    found :
        (x : Option VisibleObject) (y : Option ℕ)
        → y ≡ last_index x
        → (or_fail x out_of_range >>= λ o.
            or_fail y out_of_range >>= λ i. or_fail (state_at o i) out_of_range)
          ≡ shown x
    found (some o) y h = rw h refl
    found none y h = refl

-- The new states that are moved over.
abbrev pub news_of : Status → DiffState → News
news_of exists d = d.new_object_states
news_of disabled d = []
news_of undefined d = []

-- The sequence `s'` has these objects, with the runners of `s`, and has shown them last.
abbrev pub Shows : StateSequence → List VisibleObject → StateSequence → Type 0
Shows s objects s' =
    (s'.visible_objects ≡ objects) × (s'.runner_to_obj_map ≡ s.runner_to_obj_map) × IsSnapshot s'

finish_follow-eq-ok :
    (d : DiffState) (st status : Status) (s s' : StateSequence)
    → IsSnapshot s
    → finish_follow (d, st) s ≡ ok (s', status)
    → (st ≡ status)
      × ((objects : List VisibleObject) × (push_new_states (news_of st d) s.visible_objects
            ≡ ok objects)
          × Shows s objects s')
unfolding finish_follow push_new_states push_state_snapshot
finish_follow-eq-ok d exists status s s' snapshot h =
    let (objects, pushed, h1) =
      >>=-eq-ok (push_new_states d.new_object_states s.visible_objects) _ h in
    let same : push_state_snapshot (record s { visible_objects = objects }) ≡ s' = cc in
    (cc, (objects, pushed, subst (Shows s objects) same (refl, refl, refl)))
finish_follow-eq-ok d disabled status s s' snapshot h =
    let same : s ≡ s' = cc in
    (cc, (s.visible_objects, refl, subst (Shows s s.visible_objects) same (refl, refl, snapshot)))
finish_follow-eq-ok d undefined status s s' snapshot h =
    let same : s ≡ s' = cc in
    (cc, (s.visible_objects, refl, subst (Shows s s.visible_objects) same (refl, refl, snapshot)))

finish_follow-is_ok :
    (d : DiffState) (st : Status) (s : StateSequence) (objects : List VisibleObject)
    → IsSnapshot s
    → push_new_states (news_of st d) s.visible_objects ≡ ok objects
    → (s' : StateSequence) × (finish_follow (d, st) s ≡ ok (s', st)) × Shows s objects s'
unfolding finish_follow push_new_states push_state_snapshot
finish_follow-is_ok d exists s objects snapshot pushed = (
  push_state_snapshot (record s { visible_objects = objects }),
  rw pushed refl,
  (refl, refl, refl),
)
finish_follow-is_ok d disabled s objects snapshot pushed =
    let same : s.visible_objects ≡ objects = cc in (s, refl, (same, refl, snapshot))
finish_follow-is_ok d undefined s objects snapshot pushed =
    let same : s.visible_objects ≡ objects = cc in (s, refl, (same, refl, snapshot))

pub follow-eq-ok :
    (t : Transition) (s s1 : StateSequence) (status : Status)
    → IsSnapshot s
    → follow t s ≡ ok (s1, status)
    → (d : DiffState) × (apply_to t (current s) ≡ ok (d, status))
      × (push_new_states (news_of status d) s.visible_objects ≡ ok s1.visible_objects)
      × Shows s s1.visible_objects s1
unfolding follow
follow-eq-ok t s s1 status snapshot h =
    let ((d, st), applied, finished) =
      >>=-eq-ok (apply_to t (current s)) (λ r. finish_follow r s) h in
    let (same, (objects, pushed, (objects_are, runners, snapshot1))) =
      finish_follow-eq-ok d st status s s1 snapshot finished in
    (
      d,
      applied ∙ ap (λ x. ok (d, x)) same,
      ap (λ x. push_new_states (news_of x d) s.visible_objects) (sym same)
          ∙ pushed
          ∙ ap ok (sym objects_are),
      (refl, runners, snapshot1),
    )

pub follow-is_ok :
    (t : Transition) (s : StateSequence) (d : DiffState) (status : Status)
    (objects : List VisibleObject)
    → IsSnapshot s
    → apply_to t (current s) ≡ ok (d, status)
    → push_new_states (news_of status d) s.visible_objects ≡ ok objects
    → (s' : StateSequence) × (follow t s ≡ ok (s', status)) × Shows s objects s'
unfolding follow
follow-is_ok t s d status objects snapshot applied pushed =
    let (s', finished, shows) = finish_follow-is_ok d status s objects snapshot pushed in
    (s', ap (λ r. r >>= λ x. finish_follow x s) applied ∙ finished, shows)

pub news_of-out :
    (d : DiffState) (status : Status) (j : ℕ)
    → lookup j d.new_object_states ≡ none
    → lookup j (news_of status d) ≡ none
news_of-out d exists j out = out
news_of-out d disabled j out = refl
news_of-out d undefined j out = refl

pub news_of-same :
    (status : Status) (e d : DiffState)
    → e.new_object_states ≡ d.new_object_states
    → news_of status e ≡ news_of status d
news_of-same exists e d same = same
news_of-same disabled e d same = refl
news_of-same undefined e d same = refl

-- What a snapshot takes for the object of a runner.
abbrev runner_object : Injective → ℕ → ℕ
runner_object m p = elim (Injective.at p m) [
  | some id ↦
      if ltb p (Injective.size m % 65536) && Injective.count_domain p m then id else invalid_objid
  | none ↦ invalid_objid
]

get_objid_for_runner-snapshot :
    (s : StateSequence) (p : ℕ)
    → IsSnapshot s
    → get_objid_for_runner s s.representative p ≡ runner_object s.runner_to_obj_map p
unfolding get_objid_for_runner contains_runner_with_id new_element
get_objid_for_runner-snapshot s p snapshot = rw snapshot refl

-- The objects of a transition and its runner's own are shown as before when none of them has a new
-- state.
pub Shows-ShowsSame :
    (u : Transition) (news : News) (s s1 : StateSequence)
    → IsSnapshot s
    → Shows s s1.visible_objects s1
    → push_new_states news s.visible_objects ≡ ok s1.visible_objects
    → ((j : ℕ) → touches u j ≡ true → lookup j news ≡ none)
    → lookup (get_objid_for_runner s s.representative (get_executor u)) news ≡ none
    → ShowsSame u (current s) (current s1)
unfolding get_state_of_runner
Shows-ShowsSame u news s s1 snapshot (same_objects, runners, snapshot1) pushed out runner_out =
    let same : (j : ℕ)
        → lookup j news ≡ none
        → get_state_of_object s1 s1.representative j ≡ get_state_of_object s s.representative j =
      λ j nothing.
        get_state_of_object-shown s1 j snapshot1
        ∙ ap shown
            (push_new_states-other news s.visible_objects s1.visible_objects j pushed nothing)
        ∙ sym (get_state_of_object-shown s j snapshot) in
    let same_id : get_objid_for_runner s1 s1.representative (get_executor u)
        ≡ get_objid_for_runner s s.representative (get_executor u) =
      get_objid_for_runner-snapshot s1 (get_executor u) snapshot1
      ∙ ap (λ m. runner_object m (get_executor u)) runners
      ∙ sym (get_objid_for_runner-snapshot s (get_executor u) snapshot) in
    (
      λ j touched. same j (out j touched),
      ap (λ id. get_state_of_object s1 s1.representative id >>= as_thread) same_id
          ∙ ap (λ x. x >>= as_thread)
              (same (get_objid_for_runner s s.representative (get_executor u)) runner_out),
    )
