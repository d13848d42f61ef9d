-- ===== src/Dpor/Context/Races.antt =====
-- Which runners are candidates for reversing a race, and that one of them is scheduled.
use deep_debug.Prelude.{
  ℕ, ◌==◌, ==-refl, ==-eq, ◌≡◌, ◌≢◌, refl, Bool, true, false, not, ◌&&◌, ◌||◌, List, [], ◌∷◌, any,
  if◌then◌else◌, contains, contains-insert, ap, Bool-cases, ◌⊎◌, inl, inr, Result, ok, ◌>>=◌,
  >>=-eq-ok, arith, insert, subst, sym, ◌∙◌,
}
use deep_debug.Transition.{Transition}
use deep_debug.Dpor.StackItem.{
  StackItem, insert_into_backtrack_set_unless_completed, sleep_set_contains, backtrack_set_contains,
  smallest,
}
use deep_debug.Dpor.StackItem.Sets.{smallest-mem}
use deep_debug.Dpor.Relations.{Relations}
use deep_debug.Dpor.Context.{
  Context, schedule, schedule_all, candidates, has_reversible_race, threads_race_after,
  dynamically_update_backtrack_sets_at_index,
}

-- `q == p || threads_race_after(context, i, q, p)`
abbrev pub races : Context → ℕ → ℕ → ℕ → Result Bool
races context i p q = if q == p then ok true else threads_race_after context i q p

-- The set `e` of a stack item at index `i` whose enabled runners are `runners`.
abbrev pub IsCandidates : Context → StackItem → ℕ → ℕ → List ℕ → List ℕ → Type 0
IsCandidates context pre_si i p runners e =
    (q : ℕ)
    → ((contains q e ≡ true)
        → (contains q runners ≡ true)
          × (sleep_set_contains q pre_si ≡ false)
          × (races context i p q ≡ ok true))
      × ((contains q runners ≡ true)
          → (sleep_set_contains q pre_si ≡ false)
          → (races context i p q ≡ ok true)
          → (contains q e ≡ true))

contains-insert_if :
    (b : Bool) (q r : ℕ) (rest : List ℕ)
    → contains q (if b then insert r rest else rest) ≡ ((b && (r == q)) || contains q rest)
contains-insert_if b q r rest = ground (arith, contains-insert q r rest)

IsCandidates-cons :
    (context : Context) (pre_si : StackItem) (i p r : ℕ) (runners rest : List ℕ) (in_e : Bool)
    → races context i p r ≡ ok in_e
    → IsCandidates context pre_si i p runners rest
    → IsCandidates context pre_si i p
        (r ∷ runners)
        (if in_e && not (sleep_set_contains r pre_si) then insert r rest else rest)
IsCandidates-cons context pre_si i p r runners rest in_e race known q =
    let (left, right) = known q in
    let found = contains-insert_if (in_e && not (sleep_set_contains r pre_si)) q r rest in
    elim (Bool-cases (r == q)) [
      | inl same ↦
          let here : r ≡ q = ==-eq r q same in
          let race_q : races context i p q ≡ ok in_e =
            subst (λ x. races context i p x ≡ ok in_e) here race in
          let sleeps = ap (λ x. sleep_set_contains x pre_si) here in
          (λ h. (ground arith, ground arith, ground arith), λ a b c. ground arith)
      | inr other ↦ (λ h. (ground arith, ground arith, ground arith), λ a b c. ground arith)
    ]

pub candidates-IsCandidates :
    (context : Context) (pre_si : StackItem) (i p : ℕ) (runners : List ℕ) {e : List ℕ}
    → candidates context pre_si i p runners ≡ ok e
    → IsCandidates context pre_si i p runners e
unfolding candidates
candidates-IsCandidates context pre_si i p [] {e} h = λ q. (λ a. cc, λ a b c. cc)
candidates-IsCandidates context pre_si i p (r ∷ runners) {e} h =
    let (in_e, race, h1) = >>=-eq-ok (races context i p r) _ h in
    let (rest, tail, h2) = >>=-eq-ok (candidates context pre_si i p runners) _ h1 in
    let same : (if in_e && not (sleep_set_contains r pre_si) then insert r rest else rest) ≡ e =
      cc in
    subst (IsCandidates context pre_si i p (r ∷ runners)) same (
      IsCandidates-cons context pre_si i p r runners rest in_e race
        (candidates-IsCandidates context pre_si i p runners tail))

-- A runner that has been searched from a state, or will be.
abbrev pub IsScheduled : ℕ → StackItem → Type 0
IsScheduled q s = (contains q s.backtrack_set || contains q s.done_set) ≡ true

insert-IsScheduled :
    (q r : ℕ) (b : Bool) (s : StackItem)
    → IsScheduled q s
    → IsScheduled q (if b then insert_into_backtrack_set_unless_completed r s else s)
unfolding insert_into_backtrack_set_unless_completed
insert-IsScheduled q r true s h = ground (arith, contains-insert q r s.backtrack_set)
insert-IsScheduled q r false s h = h

schedule_all-keeps :
    (q : ℕ) (runners : List ℕ) (s : StackItem)
    → IsScheduled q s
    → IsScheduled q (schedule_all runners s)
unfolding schedule_all
schedule_all-keeps q [] s h = h
schedule_all-keeps q (r ∷ runners) s h =
    schedule_all-keeps q runners _ (insert-IsScheduled q r (not (sleep_set_contains r s)) s h)

insert_lem :
    (q : ℕ) (s : StackItem) → IsScheduled q (insert_into_backtrack_set_unless_completed q s)
unfolding insert_into_backtrack_set_unless_completed
insert_lem q s = ground (arith, contains-insert q q s.backtrack_set)

sleep_set-insert :
    (b : Bool) (r : ℕ) (s : StackItem)
    → (if b then insert_into_backtrack_set_unless_completed r s else s).sleep_set ≡ s.sleep_set
unfolding insert_into_backtrack_set_unless_completed
sleep_set-insert true r s = ground arith
sleep_set-insert false r s = refl

schedule_all_lem :
    (q : ℕ) (runners : List ℕ) (s : StackItem)
    → contains q runners ≡ true
    → sleep_set_contains q s ≡ false
    → IsScheduled q (schedule_all runners s)
unfolding schedule_all
schedule_all_lem q [] s h awake = cc
schedule_all_lem q (r ∷ runners) s h awake =
    let b = not (sleep_set_contains r s) in
    elim (Bool-cases (r == q)) [
      | inl same ↦
          let here : r ≡ q = ==-eq r q same in
          let awake_r : not (sleep_set_contains r s) ≡ true =
            ap not (ap (λ x. sleep_set_contains x s) here ∙ awake) in
          rw (sym here) (schedule_all-keeps r runners _ (rw (awake_r) (insert_lem r s)))
      | inr other ↦ schedule_all_lem q runners _ (ground arith) (rw (sleep_set-insert b r s) awake)
    ]

any-contains :
    (p : ℕ → Bool) (xs : List ℕ) → any p xs ≡ true → (q : ℕ) × (contains q xs ≡ true) × (p q ≡ true)
any-contains p [] h = cc
any-contains p (x ∷ xs) h = elim (Bool-cases (p x)) [
  | inl holds ↦ (x, ground (arith, ==-refl x), holds)
  | inr fails ↦ let (q, found, holds) = any-contains p xs (ground arith) in (q, ground arith, holds)
]

schedule_lem :
    (e : List ℕ) (s : StackItem)
    → ((e ≡ [])
        × ((q : ℕ)
            → contains q s.enabled_runners ≡ true
            → sleep_set_contains q s ≡ false
            → IsScheduled q (schedule e s)))
      ⊎ ((q : ℕ) × (contains q e ≡ true) × IsScheduled q (schedule e s))
unfolding schedule
schedule_lem [] s = inl (refl, λ q h awake. schedule_all_lem q s.enabled_runners s h awake)
schedule_lem (q ∷ e) s =
    let scheduled = any (λ r. backtrack_set_contains r s) (q ∷ e) in
    elim (Bool-cases scheduled) [
      | inl holds ↦
          let (r, found, here) = any-contains (λ r. backtrack_set_contains r s) (q ∷ e) holds in
          inr (r, found, rw holds (ground arith))
      | inr fails ↦
          inr (smallest q (q ∷ e), smallest-mem q e, rw fails (insert_lem (smallest q (q ∷ e)) s))
    ]

-- What the item `pre_si` of index `i` becomes, for a runner `p` that has a race with `S_i` or not.
abbrev pub IsReversed : Context → StackItem → ℕ → ℕ → Bool → StackItem → Type 0
IsReversed context pre_si i p false s = s ≡ pre_si
IsReversed context pre_si i p true s =
    ((q : ℕ) × (contains q pre_si.enabled_runners ≡ true)
      × (sleep_set_contains q pre_si ≡ false)
      × (races context i p q ≡ ok true)
      × IsScheduled q s)
    ⊎ (((q : ℕ)
          → contains q pre_si.enabled_runners ≡ true
          → sleep_set_contains q pre_si ≡ false
          → races context i p q ≢ ok true)
        × ((q : ℕ)
            → contains q pre_si.enabled_runners ≡ true
            → sleep_set_contains q pre_si ≡ false
            → IsScheduled q s))

not_in_nil : (q : ℕ) (e : List ℕ) → e ≡ [] → contains q e ≢ true
not_in_nil q e none_in found = cc

schedule-IsReversed :
    (context : Context) (pre_si : StackItem) (i p : ℕ) (e : List ℕ)
    → IsCandidates context pre_si i p pre_si.enabled_runners e
    → IsReversed context pre_si i p true (schedule e pre_si)
schedule-IsReversed context pre_si i p e known = elim (schedule_lem e pre_si) [
  | inl (none_in, all) ↦ inr (
    λ q h awake race.
        let found : contains q e ≡ true = (known q).1 h awake race in
        absurd (not_in_nil q e none_in found),
    all,
  )
  | inr (q, found, here) ↦
      let (enabled, awake, race) = (known q).0 found in inl (q, enabled, awake, race, here)
]

decided-IsReversed :
    (context : Context) (pre_si s : StackItem) (i p : ℕ) (b race : Bool)
    → (if b
        then (◌>>=◌ {B = StackItem × Bool}
            (candidates context pre_si i p pre_si.enabled_runners)
            (λ e. ok (schedule e pre_si, true)))
        else ok (pre_si, false))
      ≡ ok (s, race)
    → (b ≡ race) × IsReversed context pre_si i p race s
decided-IsReversed context pre_si s i p true true h =
    let (e, found, h1) = >>=-eq-ok (candidates context pre_si i p pre_si.enabled_runners) _ h in
    let same : schedule e pre_si ≡ s = cc in
    (
      refl,
      subst (IsReversed context pre_si i p true) same (
          schedule-IsReversed context pre_si i p e
            (candidates-IsCandidates context pre_si i p pre_si.enabled_runners found)),
    )
decided-IsReversed context pre_si s i p true false h =
    let (e, found, h1) = >>=-eq-ok (candidates context pre_si i p pre_si.enabled_runners) _ h in cc
decided-IsReversed context pre_si s i p false true h = cc
decided-IsReversed context pre_si s i p false false h = (refl, cc)

-- When updating the backtrack sets at an index succeeds, the flag it returns is whether there is a
-- reversible race; without one the item is unchanged, and with one either a runner that was enabled
-- and awake, and that is `p` or races with it after the index, is scheduled or done, or there is no
-- such runner and every runner that was enabled and awake is scheduled or done.
pub update_at_index-IsReversed :
    (config : Relations) (context : Context) (s_i next_sp : Transition) (pre_si s : StackItem)
    (i p : ℕ) (race : Bool)
    → dynamically_update_backtrack_sets_at_index config context s_i next_sp pre_si i p
      ≡ ok (s, race)
    → (has_reversible_race config context s_i next_sp i p ≡ ok race)
      × IsReversed context pre_si i p race s
unfolding dynamically_update_backtrack_sets_at_index
update_at_index-IsReversed config context s_i next_sp pre_si s i p race h =
    let (b, found, h1) = >>=-eq-ok (has_reversible_race config context s_i next_sp i p) _ h in
    let (same, reversed) = decided-IsReversed context pre_si s i p b race h1 in
    (found ∙ ap ok same, reversed)
