-- ===== src/Transition/Commuting/Apart.antt =====
-- Applying a transition to states that show the same of it.
use deep_debug.Prelude.{
  ℕ, ◌≡◌, refl, Bool, true, false, ◌&&◌, if◌then◌else◌, Result, ok, ◌>>=◌, >>=-eq-ok, ap, ◌∙◌,
  subst,
}
use deep_debug.Objects.Thread.{ThreadState, is_active}
use deep_debug.State.{State}
use deep_debug.State.Diff.{DiffState, diff_of, copy, get_state_of_object}
use deep_debug.Transition.{Transition, get_executor, modify, apply_to, keep_if_exists}
use deep_debug.Transition.Status.{Status, exists, disabled, undefined}
use deep_debug.Transition.Commuting.{NewInside, Effect}
use deep_debug.Transition.Commuting.Modify.{is_on_objects, touches, modify-Local}

-- No object is named by both.
abbrev pub AreApart : Transition → Transition → Type 0
AreApart t u = (j : ℕ) → (touches t j && touches u j) ≡ false

-- Two states show the same of a transition: its objects and its runner.
abbrev pub ShowsSame : Transition → State → State → Type 0
ShowsSame t s s' =
    ((j : ℕ) → touches t j ≡ true → s'.get_state_of_object j ≡ s.get_state_of_object j)
    × (s'.get_state_of_runner (get_executor t) ≡ s.get_state_of_runner (get_executor t))

-- Wherever the states show the same of a transition, `f` returns the same status and new states, and
-- all of these are of objects that the transition names.
abbrev pub Redoes :
    Transition → State → (State → Result (DiffState × Status)) → DiffState → Status → Type 0
Redoes t s f d status =
    NewInside (touches t) d
    × ((s' : State)
        → ShowsSame t s s'
        → (e : DiffState) × (f s' ≡ ok (e, status)) × (e.new_object_states ≡ d.new_object_states))

nothing-Redoes :
    (t : Transition) (s : State) (f : State → Result (DiffState × Status)) (status : Status)
    → ((s' : State) → ShowsSame t s s' → f s' ≡ ok (diff_of s', status))
    → Redoes t s f (diff_of s) status
nothing-Redoes t s f status returns =
    (λ j out. refl, λ s' shows. (diff_of s', returns s' shows, refl))

-- What is done for an active runner.
abbrev run : Transition → State → Result (DiffState × Status)
run t s = modify t (diff_of s) >>= λ r. ok (keep_if_exists s r)

keep-Redoes :
    (t : Transition) (s : State) (d : DiffState) (st : Status)
    → Effect (touches t) (diff_of s) d (modify t) st
    → Redoes t s (run t) (keep_if_exists s (d, st)).0 (keep_if_exists s (d, st)).1
unfolding keep_if_exists get_state_of_object
keep-Redoes t s d exists (new, repeats) = (
  new (λ j out. refl),
  λ s' (objects, runner).
      let (e, ran, made) = repeats (diff_of s') objects in
      (copy e, ap (λ x. x >>= λ r. ok (keep_if_exists s' r)) ran, made refl),
)
keep-Redoes t s d disabled (new, repeats) =
    nothing-Redoes t s (run t) disabled (λ s' (objects, runner).
      ap (λ x. x >>= λ r. ok (keep_if_exists s' r)) (repeats (diff_of s') objects).1)
keep-Redoes t s d undefined (new, repeats) =
    nothing-Redoes t s (run t) disabled (λ s' (objects, runner).
      ap (λ x. x >>= λ r. ok (keep_if_exists s' r)) (repeats (diff_of s') objects).1)

-- What `apply_to` comes to when the runner is known.
abbrev run_if : Bool → Transition → State → Result (DiffState × Status)
run_if active t s = if active then run t s else ok (diff_of s, disabled)

apply_to-found :
    (t : Transition) (s : State) (runner : ThreadState)
    → s.get_state_of_runner (get_executor t) ≡ ok runner
    → apply_to t s ≡ run_if (is_active runner) t s
unfolding apply_to
apply_to-found t s runner found = rw found refl

run_if-Redoes :
    (active : Bool) (t : Transition) (s : State) (d : DiffState) (status : Status)
    → is_on_objects t ≡ true
    → run_if active t s ≡ ok (d, status)
    → Redoes t s (run_if active t) d status
run_if-Redoes false t s d status on_objects h =
    let same : ◌≡◌ {A = DiffState × Status} (diff_of s, disabled) (d, status) = cc in
    subst (λ r. Redoes t s (run_if false t) r.0 r.1) same
      (nothing-Redoes t s (run_if false t) disabled (λ s' shows. refl))
run_if-Redoes true t s d status on_objects h =
    let ((e, st), ran, h1) = >>=-eq-ok (modify t (diff_of s)) _ h in
    let same : keep_if_exists s (e, st) ≡ (d, status) = cc in
    subst (λ r. Redoes t s (run t) r.0 r.1) same
      (keep-Redoes t s e st (modify-Local t (diff_of s) on_objects e st ran))

-- What applying a transition on objects does depends on its objects and on its runner.
pub apply_to-Redoes :
    (t : Transition) (s : State) (d : DiffState) (status : Status)
    → is_on_objects t ≡ true
    → apply_to t s ≡ ok (d, status)
    → Redoes t s (apply_to t) d status
unfolding apply_to
apply_to-Redoes t s d status on_objects h =
    let (runner, found, h1) = >>=-eq-ok (s.get_state_of_runner (get_executor t)) _ h in
    let (new, again) = run_if-Redoes (is_active runner) t s d status on_objects h1 in
    (
      new,
      λ s' shows.
          let (e, ran, same_new) = again s' shows in
          (e, apply_to-found t s' runner (shows.1 ∙ found) ∙ ran, same_new),
    )
