-- ===== src/Program/Deadlock.antt =====
-- When the program is in a deadlock.
use deep_debug.Prelude.{
  ℕ, zero, suc, ◌≡◌, ◌≢◌, refl, Bool, true, false, not, ◌&&◌, List, [], ◌∷◌, some, get_elem?,
  is_empty, if◌then◌else◌, if-eq, inl, inr, Result, ok, ◌>>=◌, >>=-eq-ok, >>=-known, arith, ap, ◌∙◌,
  subst, sym,
}
use deep_debug.Objects.Thread.{ThreadState, has_exited}
use deep_debug.Sequence.{StateSequence, current}
use deep_debug.Transition.{Transition, is_enabled_in}
use deep_debug.Program.{
  Program, PendingTransitions, enabled_among, get_enabled_runners, any_enabled, all_exited,
  is_in_deadlock,
}

-- A runner with a pending transition that has not exited.
abbrev pub HasLeft : StateSequence → PendingTransitions → Type 0
HasLeft s steps =
    (i : ℕ) × (r : ℕ) × (t : Transition) × (st : ThreadState) × (get_elem? steps i ≡ some (r, t))
    × ((current s).get_state_of_runner r ≡ ok st)
    × (has_exited st ≡ false)

-- Every runner with a pending transition has exited.
abbrev pub AllExited : StateSequence → PendingTransitions → Type 0
AllExited s steps =
    (i r : ℕ) (t : Transition)
    → get_elem? steps i ≡ some (r, t)
    → (st : ThreadState) × ((current s).get_state_of_runner r ≡ ok st) × (has_exited st ≡ true)

-- What `all_exited` says.
abbrev pub ExitedSays : StateSequence → PendingTransitions → Bool → Type 0
ExitedSays s steps true = AllExited s steps
ExitedSays s steps false = HasLeft s steps

AllExited-cons :
    (s : StateSequence) (p : ℕ) (u : Transition) (steps : PendingTransitions) (st : ThreadState)
    → (current s).get_state_of_runner p ≡ ok st
    → has_exited st ≡ true
    → AllExited s steps
    → AllExited s ((p, u) ∷ steps)
AllExited-cons s p u steps st found left all zero r t at_i =
    let same : p ≡ r = cc in (st, ap (current s).get_state_of_runner (sym same) ∙ found, left)
AllExited-cons s p u steps st found left all (suc i) r t at_i = all i r t at_i

cons-ExitedSays :
    (s : StateSequence) (p : ℕ) (u : Transition) (steps : PendingTransitions) (st : ThreadState)
    (b gone : Bool)
    → (current s).get_state_of_runner p ≡ ok st
    → has_exited st ≡ gone
    → ExitedSays s steps b
    → ExitedSays s ((p, u) ∷ steps) (gone && b)
cons-ExitedSays s p u steps st true true found left all =
    AllExited-cons s p u steps st found left all
cons-ExitedSays s p u steps st false true found left (i, r, t, st', at_i, its, left') =
    (suc i, r, t, st', at_i, its, left')
cons-ExitedSays s p u steps st b false found left rest = (0, p, u, st, refl, found, left)

all_exited-ExitedSays :
    (s : StateSequence) (steps : PendingTransitions) (b : Bool)
    → all_exited s steps ≡ ok b
    → ExitedSays s steps b
unfolding all_exited
all_exited-ExitedSays s [] b h =
    let same : true ≡ b = cc in subst (ExitedSays s []) same (λ i r t at_i. cc)
all_exited-ExitedSays s ((p, u) ∷ steps) b h =
    let (st, found, h1) = >>=-eq-ok ((current s).get_state_of_runner p) _ h in
    let (rest, others, h2) = >>=-eq-ok (all_exited s steps) _ h1 in
    let same : (has_exited st && rest) ≡ b = cc in
    subst (ExitedSays s ((p, u) ∷ steps)) same (
      cons-ExitedSays s p u steps st rest (has_exited st) found refl
        (all_exited-ExitedSays s steps rest others))

picked :
    (enabled : Bool) (p : ℕ) (rest rs : List ℕ) (b : Bool) (later : Result Bool)
    → (if enabled then ok true else later) ≡ ok b
    → (if enabled then p ∷ rest else rest) ≡ rs
    → (later ≡ ok b → b ≡ not (is_empty rest))
    → b ≡ not (is_empty rs)
picked true p rest rs b later h e next =
    let found : b ≡ true = cc in found ∙ ap (λ x. not (is_empty x)) e
picked false p rest rs b later h e next = next h ∙ ap (λ x. not (is_empty x)) e

any_enabled-enabled_among :
    (s : StateSequence) (steps : PendingTransitions) (b : Bool) (rs : List ℕ)
    → any_enabled s steps ≡ ok b
    → enabled_among s steps ≡ ok rs
    → b ≡ not (is_empty rs)
unfolding any_enabled enabled_among
any_enabled-enabled_among s [] b rs h k = let none_left : [] ≡ rs = cc in rw (sym none_left) cc
any_enabled-enabled_among s ((p, u) ∷ steps) b rs h k =
    let (enabled, found, k1) = >>=-eq-ok (is_enabled_in u (current s)) _ k in
    let (rest, others, k2) = >>=-eq-ok (enabled_among s steps) _ k1 in
    let same : (if enabled then p ∷ rest else rest) ≡ rs = cc in
    let h1 = >>=-known (is_enabled_in u (current s)) _ found h in
    picked enabled p rest rs b (any_enabled s steps) h1 same
      (λ later. any_enabled-enabled_among s steps b rest later others)

-- What the answer to a program with these runners is.
abbrev answer : StateSequence → PendingTransitions → Result Bool
answer s steps = if is_empty steps then ok false else (do
  enabled ← any_enabled s steps
  if enabled then ok false else (do exited ← all_exited s steps; ok (not exited)))

answers :
    (s : StateSequence) (steps : PendingTransitions) (deadlock : Bool)
    → enabled_among s steps ≡ ok []
    → answer s steps ≡ ok deadlock
    → ExitedSays s steps (not deadlock)
answers s [] deadlock none_enabled h =
    let same : false ≡ deadlock = cc in subst (λ b. ExitedSays s [] (not b)) same (λ i r t at_i. cc)
answers s (step ∷ steps) deadlock none_enabled h =
    let (enabled, found, h1) = >>=-eq-ok (any_enabled s (step ∷ steps)) _ h in
    let off = any_enabled-enabled_among s (step ∷ steps) enabled [] found none_enabled in
    elim (if-eq enabled _ _ h1) [
      | inl (on, h2) ↦ absurd (not_both enabled on off)
      | inr (none_on, h2) ↦
          let (exited, gone, h3) = >>=-eq-ok (all_exited s (step ∷ steps)) _ h2 in
          let same : exited ≡ not deadlock = ground arith in
          subst (ExitedSays s (step ∷ steps)) same
            (all_exited-ExitedSays s (step ∷ steps) exited gone)
    ]
  where
    not_both : (b : Bool) → b ≡ true → b ≢ false
    not_both b h k = cc

deadlocked :
    (s : StateSequence) (steps : PendingTransitions) (rs : List ℕ)
    → enabled_among s steps ≡ ok rs
    → answer s steps ≡ ok true
    → (rs ≡ []) × (steps ≢ [])
deadlocked s [] rs listed h = cc
deadlocked s (step ∷ steps) rs listed h =
    let (enabled, found, h1) = >>=-eq-ok (any_enabled s (step ∷ steps)) _ h in
    let says = any_enabled-enabled_among s (step ∷ steps) enabled rs found listed in
    elim (if-eq enabled _ _ h1) [
      | inl (on, h2) ↦ cc
      | inr (none_on, h2) ↦ (empty_of rs (ground arith), λ e. cc)
    ]
  where
    empty_of : (xs : List ℕ) → is_empty xs ≡ true → xs ≡ []
    empty_of [] h = refl
    empty_of (x ∷ xs) h = cc

-- When no runner is enabled, `is_in_deadlock` answers true only if some runner with a pending
-- transition has not exited, and false only if all of them have.
pub is_in_deadlock-ExitedSays :
    (p : Program) (deadlock : Bool)
    → get_enabled_runners p ≡ ok []
    → is_in_deadlock p ≡ ok deadlock
    → ExitedSays p.state_seq p.next_steps (not deadlock)
unfolding is_in_deadlock get_enabled_runners
is_in_deadlock-ExitedSays p deadlock none_enabled h =
    answers p.state_seq p.next_steps deadlock none_enabled h

-- When `is_in_deadlock` answers true, `get_enabled_runners` lists no runner, and the program has a
-- runner.
pub is_in_deadlock-none_enabled :
    (p : Program) (rs : List ℕ)
    → get_enabled_runners p ≡ ok rs
    → is_in_deadlock p ≡ ok true
    → (rs ≡ []) × (p.next_steps ≢ [])
unfolding is_in_deadlock get_enabled_runners
is_in_deadlock-none_enabled p rs listed h = deadlocked p.state_seq p.next_steps rs listed h
