-- ===== src/State/Tests.antt =====
-- Small maps and diffs: the theorems applied to them.
use deep_debug.Prelude.{◌≡◌, refl, [], ◌∷◌, ok, err, arith, invalid_insertion}
use deep_debug.Objects.{ObjectState}
use deep_debug.Objects.Thread.{ThreadState}
use deep_debug.State.Injective.{Injective, insert, inserted}
use deep_debug.State.Injective.Mirror.{IsMirror, inserted-IsMirror, throwing-breaks-IsMirror}
use deep_debug.State.Diff.{DiffState, diff_of, add_state_for_obj}
use deep_debug.State.Detached.{no_objects, to_state}

-- Runner 0 is object 5.
abbrev one_runner : Injective
one_runner = record { forward = (0, 5) ∷ []; backward = (5, 0) ∷ [] }

abbrev two_runners : Injective
two_runners = record { forward = (0, 5) ∷ (1, 6) ∷ []; backward = (5, 0) ∷ (6, 1) ∷ [] }

one_runner-IsMirror : IsMirror one_runner
one_runner-IsMirror = record {
  to_backward = λ k v h. ground arith;
  to_forward = λ k v h. ground arith;
}

insert_second : inserted 1 6 one_runner ≡ ok two_runners
unfolding inserted
insert_second = refl

inserted-IsMirror_example : IsMirror two_runners
inserted-IsMirror_example =
    inserted-IsMirror 1 6 one_runner two_runners one_runner-IsMirror insert_second

throw_second : (insert 1 5 one_runner).1 ≡ err invalid_insertion
unfolding insert
throw_second = refl

throwing-breaks-IsMirror_example : ¬ IsMirror (insert 1 5 one_runner).0
throwing-breaks-IsMirror_example =
    throwing-breaks-IsMirror 1 5 one_runner one_runner-IsMirror throw_second

-- A diff of the empty state, before and after thread 4 has exited in it.
abbrev running_diff : DiffState
running_diff = record (diff_of (to_state no_objects)) {
  new_object_states = (4, record { history = ObjectState.thread ThreadState.running ∷ [] }) ∷ [];
}

abbrev exited_diff : DiffState
exited_diff = record running_diff {
  new_object_states =
      (
        4,
        record {
          history =
              ObjectState.thread ThreadState.running ∷ ObjectState.thread ThreadState.exited ∷ [];
        },
      )
      ∷ [];
}

exits : add_state_for_obj 4 (ObjectState.thread ThreadState.exited) running_diff ≡ ok exited_diff
unfolding add_state_for_obj
exits = refl
