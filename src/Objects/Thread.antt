-- ===== src/Objects/Thread.antt =====
-- include/mcmini/model/objects/thread.hpp.
use deep_debug.Prelude.{Bool, true, false}

pub data ThreadState : Type 0 where
  running exited killed embryo : ThreadState

abbrev pub is_embryo : ThreadState → Bool
is_embryo ThreadState.embryo = true
is_embryo _ = false

abbrev pub is_running : ThreadState → Bool
is_running ThreadState.running = true
is_running _ = false

abbrev pub has_exited : ThreadState → Bool
has_exited ThreadState.exited = true
has_exited _ = false

abbrev pub is_active : ThreadState → Bool
is_active t = is_running t
