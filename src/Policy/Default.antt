-- ===== src/Policy/Default.antt =====
-- `ConditionVariableDefaultPolicy`: wake groups, and the threads that a broadcast has freed.
use deep_debug.Prelude.{
  ℕ, Bool, ◌||◌, List, [], ◌∷◌, map, any, erase_first, contains, insert, erase, if◌then◌else◌,
  Result, ok, err, assertion_failed,
}
use deep_debug.Policy.{Policy, WakeGroup, group_contains, remove_candidate_thread}

-- `for (tid : threads) eligible.insert(tid)`
abbrev pub insert_all : List ℕ → List ℕ → List ℕ
insert_all [] eligible = eligible
insert_all (tid ∷ threads) eligible = insert_all threads (insert tid eligible)

abbrev pub insert_groups : List WakeGroup → List ℕ → List ℕ
insert_groups [] eligible = eligible
insert_groups (wg ∷ groups) eligible = insert_groups groups (insert_all wg eligible)

unfoldable pub receive_broadcast_message : Policy → Policy
receive_broadcast_message p = record p {
  broadcast_eligible_threads = insert_groups p.wake_groups p.broadcast_eligible_threads;
  wake_groups = [];
}

unfoldable pub thread_can_exit : ℕ → Policy → Bool
thread_can_exit tid p =
    contains tid p.broadcast_eligible_threads || any (λ wg. group_contains wg tid) p.wake_groups

-- The set of eligible threads, or the first group with the thread, is used up.
unfoldable pub consume : ℕ → Policy → Result Policy
consume tid p =
    if contains tid p.broadcast_eligible_threads
    then ok (record p { broadcast_eligible_threads = erase tid p.broadcast_eligible_threads })
    else if any (λ wg. group_contains wg tid) p.wake_groups
    then ok (record p { wake_groups = erase_first (λ wg. group_contains wg tid) p.wake_groups })
    else err assertion_failed

abbrev pub drop_candidate : ℕ → Policy → Policy
drop_candidate tid p = record p { wake_groups = map (remove_candidate_thread tid) p.wake_groups }

unfoldable pub wake_thread : ℕ → Policy → Result Policy
unfolding consume
wake_thread tid p = elim (consume tid p) [ ok q ↦ ok (drop_candidate tid q) | err e ↦ err e ]
