-- ===== src/Checkpoint/Waiters.antt =====
-- The policy of a condition variable that a restart makes of the waiters in its queue.
use deep_debug.Prelude.{
  ℕ, ◌==◌, ◌≡◌, refl, ap, ◌∙◌, Bool, ◌&&◌, ◌||◌, List, [], ◌∷◌, any, contains, contains-append,
  is_empty, not, arith, if◌then◌else◌, Bool-cases, inl, inr,
}
use deep_debug.Policy.{Policy, CondStatus, is_waiting, is_prewaiting, is_signaled, new_policy}
use deep_debug.Policy.Default.{thread_can_exit}
use deep_debug.Policy.Arbitrary.{add_waiter_with_state, add_to_wake_groups}
use deep_debug.Policy.SingleGroup.{add_waiter}
use deep_debug.Objects.ConditionVariable.{
  add_recorded_waiters, signaled_threads, restore_policy, restored_condition_variable,
  waiter_can_exit, CondState,
}
use deep_debug.Spy.Record.{ThreadQueue}

-- The thread is in the queue in a state of this kind.
abbrev pub is_recorded : (CondStatus → Bool) → ℕ → ThreadQueue → Bool
is_recorded kind tid queue = any (λ (s : ℕ × CondStatus). (tid == s.0) && kind s.1) queue

abbrev pub sleeps : CondStatus → Bool
sleeps state = is_prewaiting state || is_waiting state

-- Adding the waiters leaves who may exit.
add_recorded_waiters-groups :
    (queue : ThreadQueue) (p : Policy)
    → ((add_recorded_waiters queue p).wake_groups ≡ p.wake_groups)
      × ((add_recorded_waiters queue p).broadcast_eligible_threads ≡ p.broadcast_eligible_threads)
unfolding add_recorded_waiters add_waiter_with_state
add_recorded_waiters-groups [] p = (refl, refl)
add_recorded_waiters-groups ((tid, state) ∷ rest) p = elim (Bool-cases (sleeps state)) [
  | inl asleep ↦
      rw (add_recorded_waiters, asleep)
        (add_recorded_waiters-groups rest (add_waiter_with_state tid state p))
  | inr awake ↦ rw (add_recorded_waiters, awake) (add_recorded_waiters-groups rest p)
]

contains-signaled_threads :
    (tid : ℕ) (queue : ThreadQueue)
    → contains tid (signaled_threads queue) ≡ is_recorded is_signaled tid queue
unfolding signaled_threads
contains-signaled_threads tid [] = refl
contains-signaled_threads tid ((other, state) ∷ rest) =
    ground (arith, contains-signaled_threads tid rest)

contains-add_recorded_waiters :
    (tid : ℕ) (queue : ThreadQueue) (p : Policy)
    → contains tid (add_recorded_waiters queue p).wait_queue
      ≡ (contains tid p.wait_queue || is_recorded sleeps tid queue)
unfolding add_recorded_waiters add_waiter_with_state add_waiter
contains-add_recorded_waiters tid [] p = ground arith
contains-add_recorded_waiters tid ((other, state) ∷ rest) p = elim (Bool-cases (sleeps state)) [
  | inl asleep ↦
      let later = contains-add_recorded_waiters tid rest (add_waiter_with_state other state p) in
      rw asleep (ground (arith, later, contains-append tid p.wait_queue (other ∷ [])))
  | inr awake ↦ rw awake (ground (arith, contains-add_recorded_waiters tid rest p))
]

-- The group of the signaled threads, on top of a policy without groups.
can_exit-add_to_wake_groups :
    (tid : ℕ) (threads : List ℕ) (p : Policy)
    → p.wake_groups ≡ []
    → p.broadcast_eligible_threads ≡ []
    → thread_can_exit tid (if not (is_empty threads) then add_to_wake_groups threads p else p)
      ≡ contains tid threads
unfolding add_to_wake_groups thread_can_exit
can_exit-add_to_wake_groups tid [] p groups eligible = rw (thread_can_exit, groups, eligible) refl
can_exit-add_to_wake_groups tid (x ∷ threads) p groups eligible =
    rw (thread_can_exit, groups, eligible) (ground arith)

wait_queue-add_to_wake_groups :
    (threads : List ℕ) (p : Policy)
    → (if not (is_empty threads) then add_to_wake_groups threads p else p).wait_queue ≡ p.wait_queue
unfolding add_to_wake_groups
wait_queue-add_to_wake_groups [] p = refl
wait_queue-add_to_wake_groups (x ∷ threads) p = refl

-- Of a condition variable that is restored from a queue, a thread can exit exactly when it has been
-- recorded there as signaled, and it sleeps exactly when it has been recorded as waiting or as
-- about to wait.
pub restored_condition_variable-waiters :
    (s : CondState) (interacting mutex count tid : ℕ) (queue : ThreadQueue)
    → (waiter_can_exit tid (restored_condition_variable s interacting mutex count queue)
        ≡ is_recorded is_signaled tid queue)
      × (contains tid
            (restored_condition_variable s interacting mutex count queue).policy.wait_queue
          ≡ is_recorded sleeps tid queue)
unfolding restored_condition_variable restore_policy
restored_condition_variable-waiters s interacting mutex count tid queue =
    let q = add_recorded_waiters queue new_policy in
    let (groups, eligible) = add_recorded_waiters-groups queue new_policy in
    (
      can_exit-add_to_wake_groups tid (signaled_threads queue) q groups eligible
          ∙ contains-signaled_threads tid queue,
      ap (contains tid) (wait_queue-add_to_wake_groups (signaled_threads queue) q)
          ∙ contains-add_recorded_waiters tid queue new_policy,
    )
