-- ===== src/Dpor/Context/Invariant.antt =====
-- What updating the stack keeps: its size, what is sound in it, and its first item.
use deep_debug.Prelude.{
  ℕ, zero, suc, ◌≡◌, Bool, true, false, not, ◌&&◌, List, [], ◌∷◌, ◌++◌, some, if◌then◌else◌,
  get_elem?, set, ok, ◌>>=◌, >>=-eq-ok, or_fail, out_of_bounds, arith, subst,
}
use deep_debug.Transition.{Transition}
use deep_debug.Dpor.StackItem.{StackItem}
use deep_debug.Dpor.Relations.{Relations, are_dependent, are_coenabled}
use deep_debug.Dpor.Context.{
  Context, stack_back, get_transition, schedule, candidates, has_reversible_race,
  happens_before_thread, dynamically_update_backtrack_sets_at_index,
}
use deep_debug.Dpor.Context.Sound.{IsSound, schedule-IsSound}
use deep_debug.Dpor.Context.Races.{IsReversed, update_at_index-IsReversed, candidates-IsCandidates}

abbrev pub AllSound : List StackItem → Type 0
AllSound [] = Unit {0}
AllSound (s ∷ stack) = IsSound s × AllSound stack

pub get_elem?-AllSound :
    (stack : List StackItem) (i : ℕ) {s : StackItem}
    → AllSound stack
    → get_elem? stack i ≡ some s
    → IsSound s
get_elem?-AllSound [] i sound h = cc
get_elem?-AllSound (t ∷ stack) zero {s} (here, rest) h =
    let same : t ≡ s = cc in subst IsSound same here
get_elem?-AllSound (t ∷ stack) (suc i) (here, rest) h = get_elem?-AllSound stack i rest h

pub set-AllSound :
    (stack : List StackItem) (i : ℕ) (s : StackItem)
    → AllSound stack
    → IsSound s
    → AllSound (set stack i s)
set-AllSound [] i s sound new = tt
set-AllSound (t ∷ stack) zero s (here, rest) new = (new, rest)
set-AllSound (t ∷ stack) (suc i) s (here, rest) new = (here, set-AllSound stack i s rest new)

pub append-AllSound :
    (stack : List StackItem) (s : StackItem)
    → AllSound stack
    → IsSound s
    → AllSound (stack ++ s ∷ [])
append-AllSound [] s sound new = (new, tt)
append-AllSound (t ∷ stack) s (here, rest) new = (here, append-AllSound stack s rest new)

pub update_at_index-IsSound :
    (config : Relations) (context : Context) (s_i next_sp : Transition) (pre_si s : StackItem)
    (i p : ℕ) (race : Bool)
    → IsSound pre_si
    → dynamically_update_backtrack_sets_at_index config context s_i next_sp pre_si i p
      ≡ ok (s, race)
    → IsSound s
unfolding dynamically_update_backtrack_sets_at_index
update_at_index-IsSound config context s_i next_sp pre_si s i p race sound h =
    let (b, found, h1) = >>=-eq-ok (has_reversible_race config context s_i next_sp i p) _ h in
    decided-IsSound context pre_si s i p b race sound h1
  where
    decided-IsSound :
        (context : Context) (pre_si s : StackItem) (i p : ℕ) (b race : Bool)
        → IsSound pre_si
        → (if b
            then (◌>>=◌ {B = StackItem × Bool}
                (candidates context pre_si i p pre_si.enabled_runners)
                (λ e. ok (schedule e pre_si, true)))
            else ok (pre_si, false))
          ≡ ok (s, race)
        → IsSound s
    decided-IsSound context pre_si s i p true race sound h =
        let (e, found, h1) = >>=-eq-ok (candidates context pre_si i p pre_si.enabled_runners) _ h in
        let same : schedule e pre_si ≡ s = cc in
        let known = candidates-IsCandidates context pre_si i p pre_si.enabled_runners found in
        subst IsSound same (
          schedule-IsSound e pre_si
            (λ r member. let (enabled, awake, race) = (known r).0 member in (awake, enabled)) sound)
    decided-IsSound context pre_si s i p false race sound h =
        let same : pre_si ≡ s = cc in subst IsSound same sound

happens_before_thread-first :
    (context : Context) (p : ℕ) {before : Bool}
    → happens_before_thread context 0 p ≡ ok before
    → before ≡ true
unfolding happens_before_thread
happens_before_thread-first context p h =
    let (t, found, h1) = >>=-eq-ok (get_transition 0 context) _ h in
    let (top, back, h2) = >>=-eq-ok (stack_back context) _ h1 in
    let (clock, at_p, h3) =
      >>=-eq-ok (or_fail (get_elem? top.per_runner_clocks p) out_of_bounds) _ h2 in
    ground arith

has_reversible_race-first :
    (config : Relations) (context : Context) (s_0 next_sp : Transition) (p : ℕ) {race : Bool}
    → has_reversible_race config context s_0 next_sp 0 p ≡ ok race
    → race ≡ false
unfolding has_reversible_race
has_reversible_race-first config context s_0 next_sp p h =
    decided (are_dependent config next_sp s_0 && are_coenabled config next_sp s_0) h
  where
    decided :
        (b : Bool) {race : Bool}
        → (if b
            then (◌>>=◌ {B = Bool} (happens_before_thread context 0 p) (λ before. ok (not before)))
            else ok false)
          ≡ ok race
        → race ≡ false
    decided true h =
        let (before, found, h1) = >>=-eq-ok (happens_before_thread context 0 p) _ h in
        let first = happens_before_thread-first context p found in ground arith
    decided false h = cc

-- At index 0 no race is found, so that the item there stays as it is.
pub update_at_first_index_lem :
    (config : Relations) (context : Context) (s_0 next_sp : Transition) (pre_s0 s : StackItem)
    (p : ℕ) (race : Bool)
    → dynamically_update_backtrack_sets_at_index config context s_0 next_sp pre_s0 0 p
      ≡ ok (s, race)
    → (race ≡ false) × (s ≡ pre_s0)
update_at_first_index_lem config context s_0 next_sp pre_s0 s p race h =
    let (found, reversed) =
      update_at_index-IsReversed config context s_0 next_sp pre_s0 s 0 p race h in
    let none_found = has_reversible_race-first config context s_0 next_sp p found in
    (none_found, subst (λ b. IsReversed context pre_s0 0 p b s) none_found reversed)
