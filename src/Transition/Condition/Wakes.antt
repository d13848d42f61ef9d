-- ===== src/Transition/Condition/Wakes.antt =====
-- What a broadcast, a signal and a wait do to the threads that sleep.
use deep_debug.Prelude.{
  ℕ, ◌+◌, ◌≤◌, ltb, ◌==◌, ==-refl, ◌≡◌, ◌≢◌, refl, Bool, true, false, not, ◌&&◌, ◌||◌, List, [],
  ◌∷◌, is_empty, contains, if◌then◌else◌, if-eq, inl, inr, Result, ok, is_ok, ◌>>=◌, >>=-eq-ok,
  >>=-known, arith, ap, ◌∙◌, sym,
}
use deep_debug.Policy.{Policy}
use deep_debug.Policy.Default.{thread_can_exit}
use deep_debug.Policy.SingleGroup
use deep_debug.Policy.Arbitrary.{has_waiters, add_to_wake_groups}
use deep_debug.Policy.Wakeups.{
  pending_wakeups, is_ok-wake_thread, thread_can_exit-wake_thread, wake_thread-uses_up,
  thread_can_exit-receive_broadcast_message,
}
use deep_debug.Objects.{ObjectState, as_condition_variable}
use deep_debug.Objects.Mutex.{is_locked_by, is_unlocked}
use deep_debug.Objects.ConditionVariable
use deep_debug.Objects.ConditionVariable.{
  ConditionVariable, CondState, new_condition_variable, is_uninitialized, is_destroyed,
  waiter_can_exit,
}
use deep_debug.State.Diff.{DiffState, add_state_for_obj, get_state_of_object}
use deep_debug.State.Diff.Reads.{get_state_of_object-add_state_for_obj}
use deep_debug.Transition.Status.{Status, exists, disabled, undefined}
use deep_debug.Transition.Mutex.{get_mutex}
use deep_debug.Transition.Condition.{
  get_condition_variable, signal, modify_cond_wait, modify_cond_broadcast,
}

get_condition_variable-add_state_for_obj :
    (id : ℕ) (c : ConditionVariable) (d d' : DiffState)
    → add_state_for_obj id (ObjectState.condition_variable c) d ≡ ok d'
    → get_condition_variable d' id ≡ ok c
unfolding get_condition_variable as_condition_variable
get_condition_variable-add_state_for_obj id c d d' h =
    ap (λ r. r >>= as_condition_variable)
      (get_state_of_object-add_state_for_obj id id (ObjectState.condition_variable c) d d' h
        ∙ ap (λ b. if b then ok (ObjectState.condition_variable c) else get_state_of_object d id)
            (==-refl id))

added_lem :
    (id : ℕ) (c : ConditionVariable) (d d' : DiffState)
    → (◌>>=◌ {B = DiffState × Status}
        (add_state_for_obj id (ObjectState.condition_variable c) d)
        (λ x. ok (x, exists)))
      ≡ ok (d', exists)
    → get_condition_variable d' id ≡ ok c
added_lem id c d d' h =
    let (d1, added, h1) =
      >>=-eq-ok (add_state_for_obj id (ObjectState.condition_variable c) d) _ h in
    let same : d1 ≡ d' = cc in
    get_condition_variable-add_state_for_obj id c d d' (added ∙ ap ok same)

wait_queue-signal : (p : Policy) → (signal p).wait_queue ≡ p.wait_queue
unfolding signal add_to_wake_groups
wait_queue-signal p = ground arith

wait_queue-broadcast :
    (p : Policy) → is_empty (SingleGroup.receive_broadcast_message p).wait_queue ≡ true
unfolding SingleGroup.receive_broadcast_message
wait_queue-broadcast p = refl

-- A runner of the queue finds the queue not empty.
has_waiters-contains : (t : ℕ) (p : Policy) → contains t p.wait_queue ≡ true → has_waiters p ≡ true
unfolding has_waiters
has_waiters-contains t p h = not_empty p.wait_queue h
  where
    not_empty : (xs : List ℕ) → contains t xs ≡ true → not (is_empty xs) ≡ true
    not_empty [] h = cc
    not_empty (x ∷ xs) h = refl

not_undefined :
    (d d' : DiffState) → ◌≢◌ {A = Result (DiffState × Status)} (ok (d, undefined)) (ok (d', exists))
not_undefined d d' h = cc

not_disabled :
    (d d' : DiffState) → ◌≢◌ {A = Result (DiffState × Status)} (ok (d, disabled)) (ok (d', exists))
not_disabled d d' h = cc

not_both : (b : Bool) → b ≡ true → not b ≢ true
not_both b h k = ground arith

broadcast-eq-exists :
    (p c t : ℕ) (d d' : DiffState) (cv : ConditionVariable)
    → get_condition_variable d c ≡ ok cv
    → contains t cv.policy.wait_queue ≡ true
    → modify_cond_broadcast p c d ≡ ok (d', exists)
    → (cv' : ConditionVariable) × (get_condition_variable d' c ≡ ok cv')
      × (cv'.policy ≡ SingleGroup.receive_broadcast_message (signal cv.policy))
      × (cv'.associated_mutex ≡ cv.associated_mutex)
unfolding modify_cond_broadcast
broadcast-eq-exists p c t d d' cv found sleeps h =
    let h1 = >>=-known (get_condition_variable d c) _ found h in
    let waits : ConditionVariable.has_waiters cv ≡ true = has_waiters-contains t cv.policy sleeps in
    elim (if-eq (is_uninitialized cv || is_destroyed cv) _ _ h1) [
      | inl (bad, h2) ↦ absurd (not_undefined d d' h2)
      | inr (good, h2) ↦ elim (if-eq (not (ConditionVariable.has_waiters cv)) _ _ h2) [
        | inl (none_waits, h3) ↦ absurd (not_both _ waits none_waits)
        | inr (some_wait, h3) ↦ (_, added_lem c _ d d' h3, refl, refl)
      ]
    ]

or_true : (b : Bool) → (b || true) ≡ true
or_true true = refl
or_true false = refl

thread_can_exit-broadcast :
    (t : ℕ) (p : Policy)
    → contains t p.wait_queue ≡ true
    → thread_can_exit t (SingleGroup.receive_broadcast_message (signal p)) ≡ true
thread_can_exit-broadcast t p sleeps =
    thread_can_exit-receive_broadcast_message t (signal p)
    ∙ ap (λ xs. thread_can_exit t (signal p) || contains t xs) (wait_queue-signal p)
    ∙ ap (λ b. thread_can_exit t (signal p) || b) sleeps
    ∙ or_true (thread_can_exit t (signal p))

-- After a broadcast that succeeds, a thread that was in the queue can leave the condition variable,
-- the queue is empty, and the associated mutex is the same.
pub broadcast_frees :
    (p c t : ℕ) (d d' : DiffState) (cv : ConditionVariable)
    → get_condition_variable d c ≡ ok cv
    → contains t cv.policy.wait_queue ≡ true
    → modify_cond_broadcast p c d ≡ ok (d', exists)
    → (cv' : ConditionVariable) × (get_condition_variable d' c ≡ ok cv')
      × (waiter_can_exit t cv' ≡ true)
      × (ConditionVariable.has_waiters cv' ≡ false)
      × (cv'.associated_mutex ≡ cv.associated_mutex)
unfolding has_waiters
broadcast_frees p c t d d' cv found sleeps h =
    let (cv', found', policy, mutex) = broadcast-eq-exists p c t d d' cv found sleeps h in
    let frees : thread_can_exit t cv'.policy ≡ true =
      ap (thread_can_exit t) policy ∙ thread_can_exit-broadcast t cv.policy sleeps in
    (
      cv',
      found',
      rw frees (or_true (ltb 0 cv'.spurious_wakeups)),
      ap (λ x. not (is_empty x.wait_queue)) policy
          ∙ ap not (wait_queue-broadcast (signal cv.policy)),
      mutex,
    )

-- What a wait that succeeds did.
wait-eq-exists :
    (p c m : ℕ) (d d' : DiffState) (cv : ConditionVariable)
    → get_condition_variable d c ≡ ok cv
    → modify_cond_wait p c m d ≡ ok (d', exists)
    → (cv' : ConditionVariable) × (get_condition_variable d' c ≡ ok cv')
      × (SingleGroup.wake_thread p cv.policy ≡ ok cv'.policy)
      × (cv'.spurious_wakeups ≡ 0)
unfolding modify_cond_wait
wait-eq-exists p c m d d' cv found h =
    let h1 = >>=-known (get_condition_variable d c) _ found h in
    let (ms, locked, h2) = >>=-eq-ok (get_mutex d m) _ h1 in
    elim (if-eq (is_uninitialized cv || is_destroyed cv) _ _ h2) [
      | inl (bad, h3) ↦ absurd (not_undefined d d' h3)
      | inr (good, h3) ↦ elim (if-eq (is_locked_by ms p) _ _ h3) [
        | inl (holds, h4) ↦ absurd (not_disabled d d' h4)
        | inr (free, h4) ↦
            elim (if-eq
              (not (waiter_can_exit p cv && (ms.location == cv.associated_mutex) && is_unlocked ms))
              _ _ h4) [
                | inl (blocked, h5) ↦ absurd (not_disabled d d' h5)
                | inr (can, h5) ↦
                    let (d1, took, h6) = >>=-eq-ok (add_state_for_obj m _ d) _ h5 in
                    let (policy, woken, h7) =
                      >>=-eq-ok (SingleGroup.wake_thread p cv.policy) _ h6 in
                    (_, added_lem c _ d1 d' h7, woken, refl)
              ]
      ]
    ]

-- A wait that succeeds was allowed by a signal or a broadcast; afterwards the thread cannot leave
-- again without a further one, and at least one pending wakeup has been used up.
pub wait_uses_wakeup :
    (p c m : ℕ) (d d' : DiffState) (cv : ConditionVariable)
    → get_condition_variable d c ≡ ok cv
    → modify_cond_wait p c m d ≡ ok (d', exists)
    → (cv' : ConditionVariable) × (get_condition_variable d' c ≡ ok cv')
      × (thread_can_exit p cv.policy ≡ true)
      × (waiter_can_exit p cv' ≡ false)
      × (pending_wakeups cv'.policy + 1 ≤ pending_wakeups cv.policy)
wait_uses_wakeup p c m d d' cv found h =
    let (cv', found', woken, none_spurious) = wait-eq-exists p c m d d' cv found h in
    (
      cv',
      found',
      sym (is_ok-wake_thread p cv.policy) ∙ ap is_ok woken,
      rw none_spurious (thread_can_exit-wake_thread p cv.policy cv'.policy woken),
      wake_thread-uses_up p cv.policy cv'.policy woken,
    )
