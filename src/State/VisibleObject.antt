-- ===== src/State/VisibleObject.antt =====
-- include/mcmini/model/visible_object.hpp: the history of the states of an object.
use deep_debug.Prelude.{
  ℕ, suc, ◌-◌, ◌==◌, List, [], ◌∷◌, ◌++◌, Option, length, get_elem?, get_last?, take, if◌then◌else◌,
}
use deep_debug.Objects.{ObjectState}

pub record VisibleObject : Type 0 where
  pub history : List ObjectState

abbrev pub no_states : VisibleObject
no_states = record { history = [] }

abbrev pub get_num_states : VisibleObject → ℕ
get_num_states o = length o.history

-- `history.size() - 1` on `size_t`.
unfoldable pub get_last_state_index : VisibleObject → ℕ
get_last_state_index o =
    if length o.history == 0 then 18446744073709551615 else length o.history - 1

abbrev pub state_at : VisibleObject → ℕ → Option ObjectState
state_at o i = get_elem? o.history i

abbrev pub get_current_state : VisibleObject → Option ObjectState
get_current_state o = get_last? o.history

abbrev pub push_state : VisibleObject → ObjectState → VisibleObject
push_state o s = record { history = o.history ++ s ∷ [] }

-- The states `[0, index]` are left.
abbrev pub slice : ℕ → VisibleObject → VisibleObject
slice index o = record { history = take (suc index) o.history }

abbrev pub copy_slice : ℕ → VisibleObject → VisibleObject
copy_slice num_states o = record { history = take num_states o.history }
