-- ===== src/Objects/Mutex.antt =====
-- include/mcmini/model/objects/mutex.hpp, and the ids of include/mcmini/defines.h.
use deep_debug.Prelude.{ℕ, ◌==◌, Bool, true, false, ◌&&◌}

abbrev pub rid_invalid : ℕ
rid_invalid = 65535

abbrev pub rid_main_thread : ℕ
rid_main_thread = 0

pub data MutexState : Type 0 where
  uninitialized unlocked locked destroyed : MutexState

pub record Mutex : Type 0 where
  pub current_state : MutexState
  pub location : ℕ
  pub owner : ℕ

abbrev pub is_locked_state : MutexState → Bool
is_locked_state MutexState.locked = true
is_locked_state _ = false

abbrev pub is_unlocked_state : MutexState → Bool
is_unlocked_state MutexState.unlocked = true
is_unlocked_state _ = false

abbrev pub is_locked_by : Mutex → ℕ → Bool
is_locked_by m tid = is_locked_state m.current_state && (m.owner == tid)

abbrev pub is_locked : Mutex → Bool
is_locked m = is_locked_state m.current_state

abbrev pub is_unlocked : Mutex → Bool
is_unlocked m = is_unlocked_state m.current_state

-- `mutex(s, loc, tid)`; without a thread the owner is `RID_INVALID`.
abbrev pub new_mutex : MutexState → ℕ → ℕ → Mutex
new_mutex s loc tid = record { current_state = s; location = loc; owner = tid }
