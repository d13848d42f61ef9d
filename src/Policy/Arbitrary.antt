-- ===== src/Policy/Arbitrary.antt =====
-- `ConditionVariableArbitraryPolicy`: a signal may wake any thread that sleeps when it is sent.
use deep_debug.Prelude.{
  ℕ, Bool, not, List, [], ◌∷◌, ◌++◌, none, some, is_empty, if◌then◌else◌, lookup, assign,
}
use deep_debug.Policy.{Policy, CondStatus, WakeGroup}
use deep_debug.Policy.SingleGroup

unfoldable pub receive_signal_message : Policy → Policy
receive_signal_message p =
    if not (is_empty p.wait_queue)
    then record p { wake_groups = p.wake_groups ++ p.wait_queue ∷ [] }
    else p

unfoldable pub has_waiters : Policy → Bool
has_waiters p = not (is_empty p.wait_queue)

abbrev pub return_wait_queue : Policy → List ℕ
return_wait_queue p = p.wait_queue

abbrev pub return_wake_groups : Policy → List WakeGroup
return_wake_groups p = p.wake_groups

unfoldable pub add_to_wake_groups : List ℕ → Policy → Policy
add_to_wake_groups threads p =
    if not (is_empty threads) then record p { wake_groups = p.wake_groups ++ threads ∷ [] } else p

unfoldable pub add_waiter_with_state : ℕ → CondStatus → Policy → Policy
unfolding SingleGroup.add_waiter
add_waiter_with_state tid state p =
    let q = SingleGroup.add_waiter tid p in
    record q { threads_with_states = assign tid state q.threads_with_states }

unfoldable pub get_thread_cv_state : ℕ → Policy → CondStatus
get_thread_cv_state tid p = elim (lookup tid p.threads_with_states) [
  | some state ↦ state
  | none ↦ CondStatus.uninitialized
]

unfoldable pub update_thread_cv_state : ℕ → CondStatus → Policy → Policy
update_thread_cv_state tid state p = record p {
  threads_with_states = assign tid state p.threads_with_states;
}
