-- ===== src/Transition/Commuting/Modify.antt =====
-- Which objects a transition depends on: `modify` of the classes below transitions/.
use deep_debug.Prelude.{
  ℕ, ◌==◌, ==-refl, ◌≡◌, refl, Bool, true, false, not, ◌&&◌, ◌||◌, if◌then◌else◌, Result, ok, ◌>>=◌,
  ap, arith,
}
use deep_debug.Policy.SingleGroup.{wake_thread}
use deep_debug.Objects.{ObjectState, as_mutex, as_semaphore, as_condition_variable}
use deep_debug.Objects.Mutex.{is_locked, is_locked_by, is_unlocked}
use deep_debug.Objects.ConditionVariable.{
  ConditionVariable, is_uninitialized, is_destroyed, has_waiters, waiter_can_exit,
}
use deep_debug.Objects.Semaphore.{will_block}
use deep_debug.State.Diff.{DiffState, add_state_for_obj, get_state_of_object}
use deep_debug.Transition.{
  Transition, thread_create, thread_start, thread_exit, thread_join, process_exit, process_abort,
  mutex_init, mutex_lock, mutex_unlock, sem_init, sem_post, sem_wait, sem_destroy, cond_init,
  cond_enqueue, cond_wait, cond_signal, cond_broadcast, cond_destroy, modify,
}
use deep_debug.Transition.Status.{Status, exists, disabled, undefined}
use deep_debug.Transition.Mutex.{
  get_mutex, modify_mutex_init, modify_mutex_lock, modify_mutex_unlock,
}
use deep_debug.Transition.Semaphore.{
  get_semaphore, modify_sem_init, modify_sem_post, modify_sem_wait, modify_sem_destroy,
}
use deep_debug.Transition.Condition.{
  get_condition_variable, modify_cond_init, modify_cond_enqueue, modify_cond_wait,
  modify_cond_signal, modify_cond_broadcast, modify_cond_destroy,
}
use deep_debug.Transition.Commuting.{Local, same-Local, if-Local, read-Local, added-Local}

-- The transitions on mutexes, semaphores and condition variables.
abbrev pub is_on_objects : Transition → Bool
is_on_objects (thread_create p t) = false
is_on_objects (thread_start p) = false
is_on_objects (thread_exit p) = false
is_on_objects (thread_join p t) = false
is_on_objects (process_exit p c) = false
is_on_objects (process_abort p) = false
is_on_objects _ = true

-- The objects that a transition names.
abbrev pub touches : Transition → ℕ → Bool
touches (mutex_init p m) j = m == j
touches (mutex_lock p m) j = m == j
touches (mutex_unlock p m) j = m == j
touches (sem_init p s c) j = s == j
touches (sem_post p s) j = s == j
touches (sem_wait p s) j = s == j
touches (sem_destroy p s) j = s == j
touches (cond_init p c) j = c == j
touches (cond_enqueue p c m) j = (c == j) || (m == j)
touches (cond_wait p c m) j = (c == j) || (m == j)
touches (cond_signal p c) j = c == j
touches (cond_broadcast p c) j = c == j
touches (cond_destroy p c) j = c == j
touches _ j = false

add_last-Local :
    (touched : ℕ → Bool) (d : DiffState) (id : ℕ) (s : ObjectState)
    → touched id ≡ true
    → Local touched d
        (λ e. ◌>>=◌ {B = DiffState × Status} (add_state_for_obj id s e) (λ x. ok (x, exists)))
add_last-Local touched d id s is_in =
    added-Local touched d id s (λ x. ok (x, exists)) is_in (λ d1. same-Local touched d1 exists)

-- A touched object is read first.
read_object-Local :
    {A : Type 0} (touched : ℕ → Bool) (d : DiffState) (id : ℕ) (as_kind : ObjectState → Result A)
    (k : A → DiffState → Result (DiffState × Status))
    → touched id ≡ true
    → ((a : A) → Local touched d (k a))
    → Local touched d (λ e. (get_state_of_object e id >>= as_kind) >>= λ a. k a e)
read_object-Local touched d id as_kind k is_in next =
    read-Local touched d (λ e. get_state_of_object e id >>= as_kind) k
      (λ e ag. ap (λ x. x >>= as_kind) (ag id is_in)) next

is_first : (a b : ℕ) → ((a == a) || (b == a)) ≡ true
is_first a b = rw (==-refl a) refl

is_second : (a b : ℕ) → ((a == b) || (b == b)) ≡ true
is_second a b = ground arith

-- A condition variable is read first, and has to be in use.
used-Local :
    (touched : ℕ → Bool) (d : DiffState) (c : ℕ)
    (k : ConditionVariable → DiffState → Result (DiffState × Status))
    → touched c ≡ true
    → ((cv : ConditionVariable) → Local touched d (k cv))
    → Local touched d (λ e. (get_state_of_object e c >>= as_condition_variable) >>= λ cv.
        if is_uninitialized cv || is_destroyed cv then ok (e, undefined) else k cv e)
used-Local touched d c k is_in next =
    read_object-Local touched d c as_condition_variable _ is_in (λ cv.
      if-Local touched (is_uninitialized cv || is_destroyed cv) d _ _
        (same-Local touched d undefined) (next cv))

cond_enqueue-Local :
    (p c m : ℕ) (d : DiffState) → Local (touches (cond_enqueue p c m)) d (modify_cond_enqueue p c m)
unfolding get_mutex get_condition_variable modify_cond_enqueue
cond_enqueue-Local p c m d = read_object-Local _ d c as_condition_variable _ (is_first c m) (λ cv.
    read_object-Local _ d m as_mutex _ (is_second c m) (λ ms.
      if-Local _ (is_unlocked ms || not (is_locked_by ms p)) d _ _ (same-Local _ d disabled)
        (added-Local _ d c _ _ (is_first c m) (λ d1. add_last-Local _ d1 m _ (is_second c m)))))

cond_wait-Local :
    (p c m : ℕ) (d : DiffState) → Local (touches (cond_wait p c m)) d (modify_cond_wait p c m)
unfolding get_mutex get_condition_variable modify_cond_wait
cond_wait-Local p c m d = read_object-Local _ d c as_condition_variable _ (is_first c m) (λ cv.
    read_object-Local _ d m as_mutex _ (is_second c m) (λ ms.
      if-Local _ (is_uninitialized cv || is_destroyed cv) d _ _ (same-Local _ d undefined) (
        if-Local _ (is_locked_by ms p) d _ _ (same-Local _ d disabled) (
          if-Local _
            (not (waiter_can_exit p cv && (ms.location == cv.associated_mutex) && is_unlocked ms)) d
            _ _ (same-Local _ d disabled)
            (added-Local _ d m _ _ (is_second c m) (λ d1.
              read-Local _ d1 (λ e. wake_thread p cv.policy) _ (λ e ag. refl)
                (λ policy. add_last-Local _ d1 c _ (is_first c m))))))))

-- A transition on objects returns what it does because of the objects that it names, and changes no
-- other one.
pub modify-Local :
    (t : Transition) (d : DiffState) → is_on_objects t ≡ true → Local (touches t) d (modify t)
unfolding modify get_mutex get_semaphore get_condition_variable modify_mutex_init modify_mutex_lock
    modify_mutex_unlock modify_sem_init modify_sem_post modify_sem_wait modify_sem_destroy
    modify_cond_init modify_cond_signal modify_cond_broadcast modify_cond_destroy
modify-Local (mutex_init p m) d h =
    read_object-Local _ d m as_mutex _ (==-refl m) (λ ms. add_last-Local _ d m _ (==-refl m))
modify-Local (mutex_lock p m) d h = read_object-Local _ d m as_mutex _ (==-refl m) (λ ms.
    if-Local _ (is_locked ms) d _ _ (same-Local _ d disabled) (add_last-Local _ d m _ (==-refl m)))
modify-Local (mutex_unlock p m) d h = read_object-Local _ d m as_mutex _ (==-refl m) (λ ms.
    if-Local _ (not (is_locked_by ms p)) d _ _ (same-Local _ d disabled)
      (add_last-Local _ d m _ (==-refl m)))
modify-Local (sem_init p s c) d h = add_last-Local _ d s _ (==-refl s)
modify-Local (sem_post p s) d h =
    read_object-Local _ d s as_semaphore _ (==-refl s) (λ sem. add_last-Local _ d s _ (==-refl s))
modify-Local (sem_wait p s) d h = read_object-Local _ d s as_semaphore _ (==-refl s) (λ sem.
    if-Local _ (will_block sem) d _ _ (same-Local _ d disabled)
      (add_last-Local _ d s _ (==-refl s)))
modify-Local (sem_destroy p s) d h = add_last-Local _ d s _ (==-refl s)
modify-Local (cond_init p c) d h = add_last-Local _ d c _ (==-refl c)
modify-Local (cond_enqueue p c m) d h = cond_enqueue-Local p c m d
modify-Local (cond_wait p c m) d h = cond_wait-Local p c m d
modify-Local (cond_signal p c) d h = used-Local _ d c _ (==-refl c) (λ cv.
    if-Local _ (not (has_waiters cv)) d _ _ (same-Local _ d exists)
      (add_last-Local _ d c _ (==-refl c)))
modify-Local (cond_broadcast p c) d h = used-Local _ d c _ (==-refl c) (λ cv.
    if-Local _ (not (has_waiters cv)) d _ _ (same-Local _ d exists)
      (add_last-Local _ d c _ (==-refl c)))
modify-Local (cond_destroy p c) d h = used-Local _ d c _ (==-refl c) (λ cv.
    if-Local _ (has_waiters cv) d _ _ (same-Local _ d undefined)
      (add_last-Local _ d c _ (==-refl c)))
modify-Local (thread_create p t) d h = cc
modify-Local (thread_start p) d h = cc
modify-Local (thread_exit p) d h = cc
modify-Local (thread_join p t) d h = cc
modify-Local (process_exit p c) d h = cc
modify-Local (process_abort p) d h = cc
