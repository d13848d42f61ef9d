-- ===== src/Policy.antt =====
-- include/mcmini/misc/cond and src/mcmini/model/cond_var_*.cpp: which thread that sleeps on a
-- condition variable may leave it. The only concrete class is `Arbitrary`; its bases are modules.
pub mod Default
pub mod SingleGroup
pub mod Arbitrary
pub mod Wakeups
pub mod Groups
use deep_debug.Prelude.{ℕ, ◌==◌, Bool, true, false, not, List, [], ◌∷◌, contains, keep_if}

-- `condition_variable_status` of spy/checkpointing/cv_status.h.
pub data CondStatus : Type 0 where
  uninitialized initialized waiting signaled prewaiting destroyed : CondStatus

abbrev pub is_waiting : CondStatus → Bool
is_waiting CondStatus.waiting = true
is_waiting _ = false

abbrev pub is_prewaiting : CondStatus → Bool
is_prewaiting CondStatus.prewaiting = true
is_prewaiting _ = false

abbrev pub is_signaled : CondStatus → Bool
is_signaled CondStatus.signaled = true
is_signaled _ = false

-- `WakeGroup`, a vector of runner ids.
abbrev pub WakeGroup : Type 0
WakeGroup = List ℕ

abbrev pub group_contains : WakeGroup → ℕ → Bool
group_contains group tid = contains tid group

abbrev pub remove_candidate_thread : ℕ → WakeGroup → WakeGroup
remove_candidate_thread tid group = keep_if (λ x. not (x == tid)) group

-- The fields of `ConditionVariableDefaultPolicy` and `ConditionVariableSingleGroupPolicy`.
pub record Policy : Type 0 where
  pub broadcast_eligible_threads : List ℕ
  pub wake_groups : List WakeGroup
  pub wait_queue : List ℕ
  pub threads_with_states : List (ℕ × CondStatus)

abbrev pub new_policy : Policy
new_policy = record {
  broadcast_eligible_threads = [];
  wake_groups = [];
  wait_queue = [];
  threads_with_states = [];
}
