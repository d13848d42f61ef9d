-- ===== src/Transition/Consistent/Rules.antt =====
-- When a change of one object keeps the condition variables consistent.
use deep_debug.Prelude.{
  ℕ, ◌==◌, ◌≡◌, Bool, true, false, length, if◌then◌else◌, Result, ok, ◌>>=◌, >>=-eq-ok, ap, ◌∙◌,
  subst, sym,
}
use deep_debug.Policy.Groups.{GroupsWait}
use deep_debug.Objects.{ObjectState, as_condition_variable}
use deep_debug.Objects.ConditionVariable.{ConditionVariable}
use deep_debug.State.Diff.{DiffState, add_state_for_obj, get_state_of_object}
use deep_debug.State.Diff.Reads.{get_state_of_object-add_state_for_obj}
use deep_debug.Transition.Status.{Status}
use deep_debug.Transition.Condition.{get_condition_variable}

-- The threads that may be woken are in the queue, and the count is the length of the queue.
abbrev pub IsConsistent : ConditionVariable → Type 0
IsConsistent cv = GroupsWait cv.policy × (cv.waiting_count ≡ length cv.policy.wait_queue)

abbrev pub AllConsistent : DiffState → Type 0
AllConsistent d =
    (id : ℕ) (cv : ConditionVariable) → get_condition_variable d id ≡ ok cv → IsConsistent cv

-- Whatever status it returns, an operation leaves the condition variables consistent.
abbrev pub Keeps : DiffState → Result (DiffState × Status) → Type 0
Keeps d result =
    (d' : DiffState) (status : Status)
    → result ≡ ok (d', status)
    → AllConsistent d
    → AllConsistent d'

pub same-Keeps : (d : DiffState) (status : Status) → Keeps d (ok (d, status))
same-Keeps d status d' status' h all = let same : d ≡ d' = cc in subst AllConsistent same all

pub if-Keeps :
    (b : Bool) (d : DiffState) (x y : Result (DiffState × Status))
    → Keeps d x
    → Keeps d y
    → Keeps d (if b then x else y)
if-Keeps true d x y first second = first
if-Keeps false d x y first second = second

-- A condition variable that is read from a consistent state is consistent.
pub read-Keeps :
    {A : Type 0} (d : DiffState) (m : Result A) (f : A → Result (DiffState × Status))
    → ((a : A) → m ≡ ok a → Keeps d (f a))
    → Keeps d (m >>= f)
read-Keeps d m f next d' status h all =
    let (a, found, h1) = >>=-eq-ok m f h in next a found d' status h1 all

as_condition_variable-eq-ok :
    (s : ObjectState) (cv : ConditionVariable)
    → as_condition_variable s ≡ ok cv
    → s ≡ ObjectState.condition_variable cv
unfolding as_condition_variable
as_condition_variable-eq-ok (ObjectState.thread t) cv h = cc
as_condition_variable-eq-ok (ObjectState.mutex m) cv h = cc
as_condition_variable-eq-ok (ObjectState.semaphore s) cv h = cc
as_condition_variable-eq-ok (ObjectState.condition_variable c) cv h = cc

pub add_state_for_obj-AllConsistent :
    (id : ℕ) (s : ObjectState) (d d' : DiffState)
    → ((cv : ConditionVariable) → s ≡ ObjectState.condition_variable cv → IsConsistent cv)
    → add_state_for_obj id s d ≡ ok d'
    → AllConsistent d
    → AllConsistent d'
unfolding get_condition_variable
add_state_for_obj-AllConsistent id s d d' good added all j cv h =
    let read =
      ap (λ r. r >>= as_condition_variable)
        (get_state_of_object-add_state_for_obj id j s d d' added) in
    decided (id == j) (sym read ∙ h)
  where
    decided :
        (b : Bool)
        → ((if b then ok s else get_state_of_object d j) >>= as_condition_variable) ≡ ok cv
        → IsConsistent cv
    decided true h = good cv (as_condition_variable-eq-ok s cv h)
    decided false h = all j cv h

pub added-Keeps :
    (id : ℕ) (s : ObjectState) (d : DiffState) (status : Status)
    → ((cv : ConditionVariable) → s ≡ ObjectState.condition_variable cv → IsConsistent cv)
    → Keeps d (◌>>=◌ {B = DiffState × Status} (add_state_for_obj id s d) (λ x. ok (x, status)))
added-Keeps id s d status good d' status' h all =
    let (d1, added, h1) = >>=-eq-ok (add_state_for_obj id s d) _ h in
    let same : d1 ≡ d' = cc in
    subst AllConsistent same (add_state_for_obj-AllConsistent id s d d1 good added all)

-- The same, with a further change after it.
pub then-Keeps :
    (id : ℕ) (s : ObjectState) (d : DiffState) (f : DiffState → Result (DiffState × Status))
    → ((cv : ConditionVariable) → s ≡ ObjectState.condition_variable cv → IsConsistent cv)
    → ((d1 : DiffState) → Keeps d1 (f d1))
    → Keeps d (add_state_for_obj id s d >>= f)
then-Keeps id s d f good next d' status' h all =
    let (d1, added, h1) = >>=-eq-ok (add_state_for_obj id s d) f h in
    next d1 d' status' h1 (add_state_for_obj-AllConsistent id s d d1 good added all)

pub read_cv-Keeps :
    (d : DiffState) (id : ℕ) (f : ConditionVariable → Result (DiffState × Status))
    → ((cv : ConditionVariable) → IsConsistent cv → Keeps d (f cv))
    → Keeps d (get_condition_variable d id >>= f)
read_cv-Keeps d id f next d' status' h all =
    let (cv, found, h1) = >>=-eq-ok (get_condition_variable d id) f h in
    next cv (all id cv found) d' status' h1 all

-- A consistent condition variable may be stored.
pub stored_cv :
    (c : ConditionVariable)
    → IsConsistent c
    → (cv : ConditionVariable)
    → ObjectState.condition_variable c ≡ ObjectState.condition_variable cv
    → IsConsistent cv
stored_cv c good cv h = let same : c ≡ cv = cc in subst IsConsistent same good
