-- ===== src/Transition/Consistent.antt =====
-- Every condition variable keeps count of the threads in its queue, and wakes only those.
pub mod Rules
pub mod Modify
use deep_debug.Prelude.{
  ℕ, ltb, ◌==◌, ◌≡◌, refl, Bool, true, false, not, ◌&&◌, ◌||◌, List, [], ◌∷◌, length, is_empty, any,
  keep_if, contains, if◌then◌else◌, Result, ok, err, ◌>>=◌, >>=-eq-ok, arith, ap, ◌∙◌, subst, sym,
}
use deep_debug.Policy.{Policy, CondStatus, is_prewaiting, group_contains, new_policy}
use deep_debug.Policy.SingleGroup
use deep_debug.Policy.Arbitrary.{
  add_to_wake_groups, get_thread_cv_state, update_thread_cv_state, return_wait_queue,
}
use deep_debug.Policy.Groups.{
  GroupsWait, wake_thread-GroupsWait, receive_broadcast_message-GroupsWait,
  add_to_wake_groups-GroupsWait, add_waiter_with_state-GroupsWait,
}
use deep_debug.Objects.{ObjectState}
use deep_debug.Objects.Mutex.{Mutex, MutexState, is_locked_by, is_unlocked, new_mutex, rid_invalid}
use deep_debug.Objects.ConditionVariable.{
  ConditionVariable, CondState, new_condition_variable, is_uninitialized, is_destroyed, has_waiters,
  waiter_can_exit,
}
use deep_debug.State.Diff.{DiffState, add_state_for_obj}
use deep_debug.Transition.Status.{Status, exists, disabled, undefined}
use deep_debug.Transition.Mutex.{get_mutex}
use deep_debug.Transition.Condition.{
  get_condition_variable, waiting_threads, state_for, enqueue, signal, modify_cond_init,
  modify_cond_enqueue, modify_cond_wait, modify_cond_signal, modify_cond_broadcast,
  modify_cond_destroy,
}
use Rules.{
  IsConsistent, AllConsistent, Keeps, same-Keeps, added-Keeps, if-Keeps, then-Keeps, read-Keeps,
  read_cv-Keeps, stored_cv,
}

new_policy-GroupsWait : GroupsWait new_policy
new_policy-GroupsWait t h = cc

enqueue-GroupsWait : (executor : ℕ) (p : Policy) → GroupsWait p → GroupsWait (enqueue executor p)
unfolding enqueue update_thread_cv_state
enqueue-GroupsWait executor p waits =
    add_waiter_with_state-GroupsWait executor CondStatus.waiting _
      (updated (is_prewaiting (get_thread_cv_state executor p)))
  where
    updated :
        (b : Bool)
        → GroupsWait (if b then update_thread_cv_state executor CondStatus.waiting p else p)
    updated true = waits
    updated false = waits

contains-keep_if :
    (f : ℕ → Bool) (t : ℕ) (xs : List ℕ) → contains t (keep_if f xs) ≡ true → contains t xs ≡ true
contains-keep_if f t [] h = h
contains-keep_if f t (x ∷ xs) h = ground (arith, contains-keep_if f t xs)

signal-GroupsWait : (p : Policy) → GroupsWait p → GroupsWait (signal p)
unfolding signal waiting_threads
signal-GroupsWait p waits = signaled (not (is_empty (waiting_threads p)))
  where
    signaled : (b : Bool) → GroupsWait (if b then add_to_wake_groups (waiting_threads p) p else p)
    signaled true =
        add_to_wake_groups-GroupsWait (waiting_threads p) p waits
          (λ t h. contains-keep_if _ t p.wait_queue h)
    signaled false = waits

pub cond_init-Keeps : (p c : ℕ) (d : DiffState) → Keeps d (modify_cond_init p c d)
unfolding modify_cond_init
cond_init-Keeps p c d = added-Keeps c _ d exists (
    stored_cv (new_condition_variable CondState.cv_initialized rid_invalid 0 0 new_policy)
      (new_policy-GroupsWait, refl))

pub cond_enqueue-Keeps : (p c m : ℕ) (d : DiffState) → Keeps d (modify_cond_enqueue p c m d)
unfolding modify_cond_enqueue
cond_enqueue-Keeps p c m d = read_cv-Keeps d c _ (λ cv (waits, counted).
    read-Keeps d (get_mutex d m) _ (λ ms found.
      if-Keeps (is_unlocked ms || not (is_locked_by ms p)) d _ _ (same-Keeps d disabled) (
        then-Keeps c _ d _ (stored_cv _ (enqueue-GroupsWait p cv.policy waits, refl))
          (λ d1. added-Keeps m _ d1 exists (λ cv' h. cc)))))

pub cond_wait-Keeps : (p c m : ℕ) (d : DiffState) → Keeps d (modify_cond_wait p c m d)
unfolding modify_cond_wait
cond_wait-Keeps p c m d = read_cv-Keeps d c _ (λ cv (waits, counted).
    read-Keeps d (get_mutex d m) _ (λ ms found.
      if-Keeps (is_uninitialized cv || is_destroyed cv) d _ _ (same-Keeps d undefined) (
        if-Keeps (is_locked_by ms p) d _ _ (same-Keeps d disabled) (
          if-Keeps
            (not (waiter_can_exit p cv && (ms.location == cv.associated_mutex) && is_unlocked ms)) d
            _ _ (same-Keeps d disabled)
            (then-Keeps m _ d _ (λ cv' h. cc)
              (λ d1. read-Keeps d1 (SingleGroup.wake_thread p cv.policy) _ (λ policy woken.
                added-Keeps c _ d1 exists
                  (stored_cv _ (wake_thread-GroupsWait p cv.policy policy waits woken, refl)))))))))

pub cond_signal-Keeps : (p c : ℕ) (d : DiffState) → Keeps d (modify_cond_signal p c d)
unfolding modify_cond_signal
cond_signal-Keeps p c d = read_cv-Keeps d c _ (λ cv (waits, counted).
    if-Keeps (is_uninitialized cv || is_destroyed cv) d _ _ (same-Keeps d undefined) (
      if-Keeps (not (has_waiters cv)) d _ _ (same-Keeps d exists)
        (added-Keeps c _ d exists (stored_cv _ (signal-GroupsWait cv.policy waits, refl)))))

pub cond_broadcast-Keeps : (p c : ℕ) (d : DiffState) → Keeps d (modify_cond_broadcast p c d)
unfolding modify_cond_broadcast
cond_broadcast-Keeps p c d = read_cv-Keeps d c _ (λ cv (waits, counted).
    if-Keeps (is_uninitialized cv || is_destroyed cv) d _ _ (same-Keeps d undefined) (
      if-Keeps (not (has_waiters cv)) d _ _ (same-Keeps d exists) (
        added-Keeps c _ d exists
          (stored_cv _ (receive_broadcast_message-GroupsWait (signal cv.policy), refl)))))

pub cond_destroy-Keeps : (p c : ℕ) (d : DiffState) → Keeps d (modify_cond_destroy p c d)
unfolding modify_cond_destroy
cond_destroy-Keeps p c d = read_cv-Keeps d c _ (λ cv (waits, counted).
    if-Keeps (is_uninitialized cv || is_destroyed cv) d _ _ (same-Keeps d undefined) (
      if-Keeps (has_waiters cv) d _ _ (same-Keeps d undefined) (
        added-Keeps c _ d exists (
          stored_cv (new_condition_variable CondState.cv_destroyed p 0 0 new_policy)
            (new_policy-GroupsWait, refl)))))
