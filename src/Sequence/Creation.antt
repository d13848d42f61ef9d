-- ===== src/Sequence/Creation.antt =====
-- src/mcmini/model/state_sequence.cpp: the constructors of a sequence without states and of one
-- that starts from another state.
use deep_debug.Prelude.{ℕ, zero, suc, ◌%◌, [], Result, ok, ◌>>=◌}
use deep_debug.State.{State}
use deep_debug.State.Injective.{no_mapping, inserted}
use deep_debug.Sequence.{StateSequence, new_element, record_new_runner, add_object}

abbrev pub no_states_yet : StateSequence
no_states_yet = record {
  runner_to_obj_map = no_mapping;
  visible_objects = [];
  earlier = [];
  representative = new_element no_mapping [];
}

-- The loop over the objects, with `n` of them left from `i` on.
unfoldable pub copy_objects : State → ℕ → ℕ → StateSequence → Result StateSequence
unfolding add_object
copy_objects s zero i q = ok q
copy_objects s (suc n) i q = do
  o ← s.get_state_of_object i
  copy_objects s n (suc i) (add_object o q).0

-- The loop over the runners, with `n` of them left from `p` on.
unfoldable pub copy_runners : State → ℕ → ℕ → StateSequence → Result StateSequence
unfolding record_new_runner inserted
copy_runners s zero p q = ok q
copy_runners s (suc n) p q = do
  runners ← inserted p (s.get_objid_for_runner p) q.runner_to_obj_map
  copy_runners s n (suc p) (record q {
    runner_to_obj_map = runners;
    representative = record_new_runner q.representative;
  })

-- `state_sequence(const state &)`: ids are `uint32_t` for objects and `uint16_t` for runners.
unfoldable pub from_state : State → Result StateSequence
unfolding copy_objects copy_runners new_element
from_state s = do
  copied ← copy_objects s (s.count % 4294967296) 0 no_states_yet
  copy_runners s (s.runner_count % 65536) 0 copied
