-- ===== src/Objects/Semaphore.antt =====
-- include/mcmini/model/objects/semaphore.hpp. `_count` is an `int`, kept as its 32-bit pattern.
use deep_debug.Prelude.{ℕ, ◌+◌, ◌%◌, ◌==◌, leb, Bool, ◌||◌}

pub data SemaphoreState : Type 0 where
  uninitialized initialized destroyed : SemaphoreState

pub record Semaphore : Type 0 where
  pub pattern : ℕ
  pub current_state : SemaphoreState

-- `semaphore(unsigned count)` and `semaphore(state)`.
abbrev pub new_semaphore : ℕ → Semaphore
new_semaphore count = record { pattern = count; current_state = SemaphoreState.initialized }

abbrev pub semaphore_in : SemaphoreState → Semaphore
semaphore_in s = record { pattern = 0; current_state = s }

-- `unsigned count()`
abbrev pub count : Semaphore → ℕ
count s = s.pattern

-- `_count <= 0`: zero, or the sign bit is set.
abbrev pub will_block : Semaphore → Bool
will_block s = (s.pattern == 0) || leb 2147483648 s.pattern

-- `count + 1` and `count - 1` on `unsigned`.
abbrev pub increment : ℕ → ℕ
increment n = (n + 1) % 4294967296

abbrev pub decrement : ℕ → ℕ
decrement n = (n + 4294967295) % 4294967296
