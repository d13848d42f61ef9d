-- ===== src/Transition/Commuting.antt =====
-- When an operation on a state depends on some of the objects only.
pub mod Modify
pub mod Apart
use deep_debug.Prelude.{
  ℕ, ◌==◌, ◌≡◌, refl, Bool, true, false, List, Option, none, some, lookup, assign, lookup-assign,
  if◌then◌else◌, Result, ok, ◌>>=◌, >>=-eq-ok, ap, ◌∙◌, sym, arith,
}
use deep_debug.Objects.{ObjectState}
use deep_debug.State.VisibleObject.{VisibleObject, no_states, push_state}
use deep_debug.State.Diff.{DiffState, object_or_new, add_state_for_obj, get_state_of_object}
use deep_debug.State.Diff.Reads.{
  add_state_for_obj-eq-ok, add_state_for_obj-is_ok, get_state_of_object-add_state_for_obj,
}
use deep_debug.Transition.Status.{Status}

-- Two diffs show the same states of the objects that are touched.
abbrev pub Agrees : (ℕ → Bool) → DiffState → DiffState → Type 0
Agrees touched d e = (j : ℕ) → touched j ≡ true → get_state_of_object e j ≡ get_state_of_object d j

-- No object has a new state but those that are touched.
abbrev pub NewInside : (ℕ → Bool) → DiffState → Type 0
NewInside touched d = (j : ℕ) → touched j ≡ false → lookup j d.new_object_states ≡ none

-- On every diff that agrees with `d`, the operation returns the status, and from the new states of
-- `d` it makes those of `d'`.
abbrev pub Repeats :
    (ℕ → Bool) → DiffState → DiffState → (DiffState → Result (DiffState × Status)) → Status → Type 0
Repeats touched d d' f status =
    (e : DiffState)
    → Agrees touched d e
    → (e' : DiffState) × (f e ≡ ok (e', status))
      × (e.new_object_states ≡ d.new_object_states → e'.new_object_states ≡ d'.new_object_states)

abbrev pub Effect :
    (ℕ → Bool) → DiffState → DiffState → (DiffState → Result (DiffState × Status)) → Status → Type 0
Effect touched d d' f status =
    (NewInside touched d → NewInside touched d') × Repeats touched d d' f status

-- An operation that returns does so because of the touched objects, and changes only these.
abbrev pub Local : (ℕ → Bool) → DiffState → (DiffState → Result (DiffState × Status)) → Type 0
Local touched d f =
    (d' : DiffState) (status : Status) → f d ≡ ok (d', status) → Effect touched d d' f status

pub same-Local :
    (touched : ℕ → Bool) (d : DiffState) (st : Status) → Local touched d (λ e. ok (e, st))
same-Local touched d st d' status h =
    let same : st ≡ status = cc in
    let kept : d.new_object_states ≡ d'.new_object_states = cc in
    (
      λ new j out. ap (lookup j) (sym kept) ∙ new j out,
      λ e ag. (e, ap (λ x. ok (e, x)) same, λ n. n ∙ kept),
    )

pub if-Local :
    (touched : ℕ → Bool) (b : Bool) (d : DiffState) (f g : DiffState → Result (DiffState × Status))
    → Local touched d f
    → Local touched d g
    → Local touched d (λ e. if b then f e else g e)
if-Local touched true d f g first second = first
if-Local touched false d f g first second = second

-- Something is read first that depends on the touched objects only.
pub read-Local :
    {A : Type 0} (touched : ℕ → Bool) (d : DiffState) (r : DiffState → Result A)
    (k : A → DiffState → Result (DiffState × Status))
    → ((e : DiffState) → Agrees touched d e → r e ≡ r d)
    → ((a : A) → Local touched d (k a))
    → Local touched d (λ e. r e >>= λ a. k a e)
read-Local touched d r k local next d' status h =
    let (a, found, h1) = >>=-eq-ok (r d) (λ a. k a d) h in
    let (new, repeats) = next a d' status h1 in
    (
      new,
      λ e ag.
          let (e', ran, made) = repeats e ag in
          (e', ap (λ x. x >>= λ a. k a e) (local e ag ∙ found) ∙ ran, made),
    )

-- Diffs that agree still do after the same object has got the same state.
add_state_for_obj-Agrees :
    (touched : ℕ → Bool) (d e d1 e1 : DiffState) (id : ℕ) (s : ObjectState)
    → add_state_for_obj id s d ≡ ok d1
    → add_state_for_obj id s e ≡ ok e1
    → Agrees touched d e
    → Agrees touched d1 e1
add_state_for_obj-Agrees touched d e d1 e1 id s added added' ag j is_in =
    get_state_of_object-add_state_for_obj id j s e e1 added'
    ∙ ap (λ x. if id == j then ok s else x) (ag j is_in)
    ∙ sym (get_state_of_object-add_state_for_obj id j s d d1 added)

new_states :
    (d d1 : DiffState) (id : ℕ) (s : ObjectState)
    → add_state_for_obj id s d ≡ ok d1
    → d1.new_object_states ≡ assign id (push_state (object_or_new id d) s) d.new_object_states
new_states d d1 id s added =
    sym (ap (λ x. x.new_object_states) (add_state_for_obj-eq-ok id s d d1 added).1)

new_states-same :
    (d e d1 e1 : DiffState) (id : ℕ) (s : ObjectState)
    → add_state_for_obj id s d ≡ ok d1
    → add_state_for_obj id s e ≡ ok e1
    → e.new_object_states ≡ d.new_object_states
    → e1.new_object_states ≡ d1.new_object_states
new_states-same d e d1 e1 id s added added' same =
    let with_new = λ (l : List (ℕ × VisibleObject)).
      assign id (push_state (object_or_new id (record d { new_object_states = l })) s) l in
    new_states e e1 id s added' ∙ ap with_new same ∙ sym (new_states d d1 id s added)

assign-none :
    (id j : ℕ) (v : VisibleObject) (l : List (ℕ × VisibleObject))
    → (id == j) ≡ false
    → lookup j l ≡ none
    → lookup j (assign id v l) ≡ none
assign-none id j v l other nothing = ground (arith, lookup-assign id j v l)

in_differs-out :
    (touched : ℕ → Bool) (id j : ℕ) → touched id ≡ true → touched j ≡ false → (id == j) ≡ false
in_differs-out touched id j is_in out = ground arith

-- A state of a touched object is added first.
pub added-Local :
    (touched : ℕ → Bool) (d : DiffState) (id : ℕ) (s : ObjectState)
    (k : DiffState → Result (DiffState × Status))
    → touched id ≡ true
    → ((d1 : DiffState) → Local touched d1 k)
    → Local touched d (λ e. add_state_for_obj id s e >>= k)
added-Local touched d id s k is_in next d' status h =
    let (d1, added, h1) = >>=-eq-ok (add_state_for_obj id s d) k h in
    let (new, repeats) = next d1 d' status h1 in
    let valid = (add_state_for_obj-eq-ok id s d d1 added).0 in
    (
      λ before. new (λ j out.
          ap (lookup j) (new_states d d1 id s added)
          ∙ assign-none id j (push_state (object_or_new id d) s) d.new_object_states
              (in_differs-out touched id j is_in out) (before j out)),
      λ e ag.
          let (e1, added') = add_state_for_obj-is_ok id s e valid in
          let (e', ran, made) =
            repeats e1 (add_state_for_obj-Agrees touched d e d1 e1 id s added added' ag) in
          (
            e',
            ap (λ x. x >>= k) added' ∙ ran,
            λ n. made (new_states-same d e d1 e1 id s added added' n),
          ),
    )
