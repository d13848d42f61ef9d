-- ===== src/Policy/SingleGroup.antt =====
-- `ConditionVariableSingleGroupPolicy`: adds the queue of sleeping threads.
use deep_debug.Prelude.{ℕ, ◌==◌, Bool, not, [], ◌∷◌, ◌++◌, erase_first, is_empty, Result, ok, err}
use deep_debug.Policy.{Policy}
use deep_debug.Policy.Default
use deep_debug.Policy.Default.{insert_all}

unfoldable pub receive_broadcast_message : Policy → Policy
unfolding Default.receive_broadcast_message
receive_broadcast_message p =
    let q = Default.receive_broadcast_message p in
    record q {
      broadcast_eligible_threads = insert_all q.wait_queue q.broadcast_eligible_threads;
      wait_queue = [];
    }

abbrev pub drop_waiter : ℕ → Policy → Policy
drop_waiter tid p = record p { wait_queue = erase_first (λ x. x == tid) p.wait_queue }

unfoldable pub wake_thread : ℕ → Policy → Result Policy
unfolding Default.wake_thread
wake_thread tid p = elim (Default.wake_thread tid p) [
  | ok q ↦ ok (drop_waiter tid q)
  | err e ↦ err e
]

unfoldable pub add_waiter : ℕ → Policy → Policy
add_waiter tid p = record p { wait_queue = p.wait_queue ++ tid ∷ [] }

unfoldable pub has_waiters : Policy → Bool
has_waiters p = not (is_empty p.wait_queue)
