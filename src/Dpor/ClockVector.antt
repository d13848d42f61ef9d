-- ===== src/Dpor/ClockVector.antt =====
-- classic_dpor/clock_vector.hpp, classic_dpor/runner_item.hpp and clock_vector.cpp.
use deep_debug.Prelude.{ℕ, List, [], ◌∷◌, none, some, lookup, assign, max}

abbrev pub ClockVector : Type 0
ClockVector = List (ℕ × ℕ)

-- A runner with no entry has the value 0.
unfoldable pub value_for : ℕ → ClockVector → ℕ
value_for tid cv = elim (lookup tid cv) [ some n ↦ n | none ↦ 0 ]

-- One loop of `max`: `for (e : entries) into[e.first] = max(other.value_for(e.first), e.second)`
unfoldable pub raise : ClockVector → ClockVector → ClockVector → ClockVector
unfolding value_for
raise other [] into = into
raise other ((tid, n) ∷ entries) into =
    raise other entries (assign tid (max (value_for tid other) n) into)

unfoldable pub maximum : ClockVector → ClockVector → ClockVector
unfolding raise
maximum cv1 cv2 = raise cv2 cv1 (raise cv1 cv2 [])

pub record RunnerItem : Type 0 where
  pub execution_depth : ℕ
  pub cv : ClockVector

abbrev pub new_runner_item : RunnerItem
new_runner_item = record { execution_depth = 0; cv = [] }

abbrev pub set_clock_vector : ClockVector → RunnerItem → RunnerItem
set_clock_vector new_cv item = record item { cv = new_cv }
