-- ===== src/Dpor/Context/Sound.antt =====
-- What is scheduled stays enabled, awake and not yet searched.
use deep_debug.Prelude.{
  ℕ, ◌==◌, ◌≡◌, refl, Bool, true, false, not, List, [], ◌∷◌, any, if◌then◌else◌, contains,
  contains-insert, ==-eq, ap, arith,
}
use deep_debug.Dpor.StackItem.{
  StackItem, insert_into_backtrack_set_unless_completed, sleep_set_contains, backtrack_set_contains,
  smallest,
}
use deep_debug.Dpor.StackItem.Sets.{smallest-mem}
use deep_debug.Dpor.Context.{schedule, schedule_all}

-- A scheduled runner is not done, does not sleep and was enabled.
abbrev pub IsSound : StackItem → Type 0
IsSound s =
    (r : ℕ)
    → contains r s.backtrack_set ≡ true
    → (contains r s.done_set ≡ false)
      × (contains r s.sleep_set ≡ false)
      × (contains r s.enabled_runners ≡ true)

contains_eq : (r q : ℕ) (xs : List ℕ) → (r == q) ≡ true → contains r xs ≡ contains q xs
contains_eq r q xs e = ap (λ x. contains x xs) (==-eq r q e)

insert-IsSound :
    (q : ℕ) (s : StackItem)
    → contains q s.sleep_set ≡ false
    → contains q s.enabled_runners ≡ true
    → IsSound s
    → IsSound (insert_into_backtrack_set_unless_completed q s)
unfolding insert_into_backtrack_set_unless_completed
insert-IsSound q s awake enabled sound r h = ground (
  arith,
  sound r,
  contains-insert r q s.backtrack_set,
  contains_eq r q s.done_set,
  contains_eq r q s.sleep_set,
  contains_eq r q s.enabled_runners,
)

if-IsSound :
    (b : Bool) (s t : StackItem)
    → (b ≡ true → IsSound s)
    → (b ≡ false → IsSound t)
    → IsSound (if b then s else t)
if-IsSound true s t first second = first refl
if-IsSound false s t first second = second refl

enabled_runners-insert :
    (b : Bool) (q : ℕ) (s : StackItem)
    → (if b then insert_into_backtrack_set_unless_completed q s else s).enabled_runners
      ≡ s.enabled_runners
unfolding insert_into_backtrack_set_unless_completed
enabled_runners-insert true q s = ground arith
enabled_runners-insert false q s = refl

schedule_all-IsSound :
    (runners : List ℕ) (s : StackItem)
    → ((r : ℕ) → contains r runners ≡ true → contains r s.enabled_runners ≡ true)
    → IsSound s
    → IsSound (schedule_all runners s)
unfolding schedule_all
schedule_all-IsSound [] s known sound = sound
schedule_all-IsSound (q ∷ runners) s known sound =
    let awake = not (sleep_set_contains q s) in
    let next = if awake then insert_into_backtrack_set_unless_completed q s else s in
    schedule_all-IsSound runners next
      (λ r h. rw (enabled_runners-insert awake q s) (known r (ground arith)))
      (if-IsSound awake (insert_into_backtrack_set_unless_completed q s) s
        (λ up. insert-IsSound q s (ground arith) (known q (ground arith)) sound) (λ asleep. sound))

pub schedule-IsSound :
    (e : List ℕ) (s : StackItem)
    → ((r : ℕ)
        → contains r e ≡ true
        → (contains r s.sleep_set ≡ false) × (contains r s.enabled_runners ≡ true))
    → IsSound s
    → IsSound (schedule e s)
unfolding schedule
schedule-IsSound [] s known sound = schedule_all-IsSound s.enabled_runners s (λ r h. h) sound
schedule-IsSound (q ∷ e) s known sound =
    if-IsSound (any (λ r. backtrack_set_contains r s) (q ∷ e)) s
      (insert_into_backtrack_set_unless_completed (smallest q (q ∷ e)) s) (λ scheduled. sound)
      (λ fresh.
        let (awake, enabled) = known (smallest q (q ∷ e)) (smallest-mem q e) in
        insert-IsSound (smallest q (q ∷ e)) s awake enabled sound)
