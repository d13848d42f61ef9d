-- ===== src/Transition/Status.antt =====
-- `transition::status` of include/mcmini/model/transition.hpp.
use deep_debug.Prelude.{Bool, true, false, Result, ok, err}

pub data Status : Type 0 where
  exists disabled undefined : Status

abbrev pub is_exists : Status → Bool
is_exists exists = true
is_exists _ = false

-- Whether a transition could be taken.
abbrev pub was_taken {ℓ} : {A : Type ℓ} → Result (A × Status) → Bool
was_taken (ok (a, status)) = is_exists status
was_taken (err e) = false
