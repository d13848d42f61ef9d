-- ===== src/Sequence/Commuting.antt =====
-- Moving new states of different objects into a sequence, in either order.
pub mod Follow
pub mod Orders
use deep_debug.Prelude.{
  ℕ, zero, suc, ◌==◌, ◌≡◌, ◌≢◌, refl, Bool, true, false, ◌&&◌, ◌⊎◌, inl, inr, List, [], ◌∷◌, Option,
  none, some, get_elem?, set, lookup, Result, ok, or_fail, or_fail-eq-ok, out_of_bounds, ◌>>=◌,
  >>=-eq-ok, ap, ◌∙◌, sym, subst, arith,
}
use deep_debug.Objects.{ObjectState}
use deep_debug.State.VisibleObject.{VisibleObject, push_state, get_current_state}
use deep_debug.Sequence.{push_new_states}

get_elem?-set_other :
    (os : List VisibleObject) (i j : ℕ) (v : VisibleObject)
    → i ≢ j
    → get_elem? (set os i v) j ≡ get_elem? os j
get_elem?-set_other [] i j v other = refl
get_elem?-set_other (o ∷ os) zero zero v other = absurd (other refl)
get_elem?-set_other (o ∷ os) zero (suc j) v other = refl
get_elem?-set_other (o ∷ os) (suc i) zero v other = refl
get_elem?-set_other (o ∷ os) (suc i) (suc j) v other =
    get_elem?-set_other os i j v (λ e. other (ap suc e))

set_comm :
    (os : List VisibleObject) (i j : ℕ) (v w : VisibleObject)
    → i ≢ j
    → set (set os i v) j w ≡ set (set os j w) i v
set_comm [] i j v w other = refl
set_comm (o ∷ os) zero zero v w other = absurd (other refl)
set_comm (o ∷ os) zero (suc j) v w other = refl
set_comm (o ∷ os) (suc i) zero v w other = refl
set_comm (o ∷ os) (suc i) (suc j) v w other =
    ap (λ x. o ∷ x) (set_comm os i j v w (λ e. other (ap suc e)))

abbrev News : Type 0
News = List (ℕ × VisibleObject)

-- What one step of the loop finds.
step-eq-ok :
    (id : ℕ) (changed : VisibleObject) (rest : News) (os ps : List VisibleObject)
    → push_new_states ((id, changed) ∷ rest) os ≡ ok ps
    → (v : VisibleObject) × (o : ObjectState) × (get_elem? os id ≡ some v)
      × (get_current_state changed ≡ some o)
      × (push_new_states rest (set os id (push_state v o)) ≡ ok ps)
unfolding push_new_states
step-eq-ok id changed rest os ps h =
    let (v, found, h1) = >>=-eq-ok (or_fail (get_elem? os id) out_of_bounds) _ h in
    let (o, last, h2) = >>=-eq-ok (or_fail (get_current_state changed) out_of_bounds) _ h1 in
    (v, o, or_fail-eq-ok _ out_of_bounds found, or_fail-eq-ok _ out_of_bounds last, h2)

step :
    (id : ℕ) (changed : VisibleObject) (rest : News) (os : List VisibleObject) (v : VisibleObject)
    (o : ObjectState)
    → get_elem? os id ≡ some v
    → get_current_state changed ≡ some o
    → push_new_states ((id, changed) ∷ rest) os ≡ push_new_states rest (set os id (push_state v o))
unfolding push_new_states
step id changed rest os v o found last = rw (found, last) refl

head_differs :
    (id j : ℕ) (changed : VisibleObject) (rest : News)
    → lookup j ((id, changed) ∷ rest) ≡ none
    → (id ≢ j) × (lookup j rest ≡ none)
head_differs id j changed rest h = ground arith

-- Objects without a new state stay.
pub push_new_states-other :
    (news : News) (os ps : List VisibleObject) (j : ℕ)
    → push_new_states news os ≡ ok ps
    → lookup j news ≡ none
    → get_elem? ps j ≡ get_elem? os j
unfolding push_new_states
push_new_states-other [] os ps j h out =
    let same : os ≡ ps = cc in ap (λ x. get_elem? x j) (sym same)
push_new_states-other ((id, changed) ∷ rest) os ps j h out =
    let (v, o, found, last, h1) = step-eq-ok id changed rest os ps h in
    let (other, out') = head_differs id j changed rest out in
    push_new_states-other rest (set os id (push_state v o)) ps j h1 out'
    ∙ get_elem?-set_other os id j (push_state v o) other

push_new_states-set :
    (news : News) (os ps : List VisibleObject) (j : ℕ) (w : VisibleObject)
    → push_new_states news os ≡ ok ps
    → lookup j news ≡ none
    → push_new_states news (set os j w) ≡ ok (set ps j w)
unfolding push_new_states
push_new_states-set [] os ps j w h out = let same : os ≡ ps = cc in ap (λ x. ok (set x j w)) same
push_new_states-set ((id, changed) ∷ rest) os ps j w h out =
    let (v, o, found, last, h1) = step-eq-ok id changed rest os ps h in
    let (other, out') = head_differs id j changed rest out in
    step id changed rest (set os j w) v o
      (get_elem?-set_other os j id w (λ e. other (sym e)) ∙ found) last
    ∙ ap (push_new_states rest) (set_comm os j id w (push_state v o) (λ e. other (sym e)))
    ∙ push_new_states-set rest (set os id (push_state v o)) ps j w h1 out'

-- New states of different objects can be pushed in either order.
pub push_new_states_comm :
    (news more : News) (os ps qs : List VisibleObject)
    → ((j : ℕ) → (lookup j news ≡ none) ⊎ (lookup j more ≡ none))
    → push_new_states news os ≡ ok ps
    → push_new_states more os ≡ ok qs
    → (rs : List VisibleObject) × (push_new_states more ps ≡ ok rs)
      × (push_new_states news qs ≡ ok rs)
unfolding push_new_states
push_new_states_comm [] more os ps qs apart h1 h2 =
    let same : os ≡ ps = cc in (qs, ap (push_new_states more) (sym same) ∙ h2, refl)
push_new_states_comm ((id, changed) ∷ rest) more os ps qs apart h1 h2 =
    let (v, o, found, last, h1') = step-eq-ok id changed rest os ps h1 in
    let out : lookup id more ≡ none = elim (apart id) [
      | inl h ↦ absurd ((head_differs id id changed rest h).0 refl)
      | inr h ↦ h
    ] in
    let w = push_state v o in
    let (rs, second, first) =
      push_new_states_comm rest more (set os id w) ps (set qs id w)
        (λ j. elim (apart j) [ inl h ↦ inl (head_differs id j changed rest h).1 | inr h ↦ inr h ])
        h1' (push_new_states-set more os qs id w h2 out) in
    (
      rs,
      second,
      step id changed rest qs v o (push_new_states-other more os qs id h2 out ∙ found) last ∙ first,
    )
