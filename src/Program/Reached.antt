-- ===== src/Program/Reached.antt =====
-- Every program that the model builds from the start of `main` is well formed.
use deep_debug.Prelude.{ℕ, ◌≡◌, refl, ap, ◌∙◌, subst, [], ◌∷◌, length, ok, >>=-eq-ok, arith}
use deep_debug.Objects.{ObjectState}
use deep_debug.Objects.Thread.{ThreadState}
use deep_debug.State.Detached
use deep_debug.State.Injective.{inserted, insert}
use deep_debug.Sequence
use deep_debug.Sequence.{
  add_object, point_to_next_state_for, record_new_runner, new_element, indices_from,
  contains_object_with_id,
}
use deep_debug.Sequence.Creation.{copy_objects, copy_runners, from_state}
use deep_debug.Sequence.Discovery.{
  IsExact, ShowsOnly, add_object-IsExact, add_runner-IsExact, follow-ShowsOnly,
}
use deep_debug.Transition.{Transition, thread_start, get_executor}
use deep_debug.Program.{
  Program, model_execution_of, discover_object, discover_runner, set_transition,
}
use deep_debug.Program.Start.{starting_from_main}
use deep_debug.Program.Rollback.{
  IsWellFormed, IsKeyed-assign, model_execution_of-Executes, model_execution_of-IsWellFormed,
}

-- Well formed, and the last state shows no object that the model does not know.
pub record IsSettled (p : Program) : Type 0 where
  pub well : IsWellFormed p
  pub only : ShowsOnly p.state_seq.representative (length p.state_seq.visible_objects)

-- The programs built by the operations that do not go back.
pub data Reached : Program → Type 0 where
  main : {p : Program} → starting_from_main ≡ ok p → Reached p
  object : {p : Program} (o : ObjectState) → Reached p → Reached (discover_object o p).0
  runner :
      {p q : Program} (t : ThreadState) (f : ℕ → Transition) (r : ℕ)
      → ((i : ℕ) → get_executor (f i) ≡ i)
      → Reached p
      → discover_runner t f p ≡ ok (q, r)
      → Reached q
  executed :
      {p q : Program} (r : ℕ) (npo : Transition)
      → Reached p
      → model_execution_of r npo p ≡ ok q
      → Reached q

IsExact-of : (p : Program) → IsSettled p → IsExact p.state_seq
IsExact-of p s = record { fresh = s.well.fresh; only = s.only }

discover_object-IsSettled :
    (o : ObjectState) (p : Program) → IsSettled p → IsSettled (discover_object o p).0
unfolding discover_object Sequence.add_object
discover_object-IsSettled o p s =
    let exact = add_object-IsExact o p.state_seq (IsExact-of p s) in
    record {
      well = record { keyed = s.well.keyed; fresh = exact.fresh; depth = s.well.depth };
      only = exact.only;
    }

discover_runner-IsSettled :
    (t : ThreadState) (f : ℕ → Transition) (p q : Program) (r : ℕ)
    → ((i : ℕ) → get_executor (f i) ≡ i)
    → IsSettled p
    → discover_runner t f p ≡ ok (q, r)
    → IsSettled q
unfolding discover_runner
discover_runner-IsSettled t f p q r runs s h =
    let (added, e, made) = >>=-eq-ok (Sequence.add_runner t p.state_seq) _ h in
    let (exact, numbered, same) =
      add_runner-IsExact t p.state_seq added.0 added.1 (IsExact-of p s) e in
    let shape : record p {
      state_seq = added.0;
      next_steps = set_transition (f added.1) p.next_steps;
    }
        ≡ q =
      cc in
    rw (← shape) (record {
      well = record {
        keyed =
            IsKeyed-assign (get_executor (f added.1)) (f added.1) p.next_steps refl s.well.keyed;
        fresh = exact.fresh;
        depth = ap length same ∙ s.well.depth;
      };
      only = exact.only;
    })

model_execution_of-IsSettled :
    (r : ℕ) (npo : Transition) (p q : Program)
    → IsSettled p
    → model_execution_of r npo p ≡ ok q
    → IsSettled q
model_execution_of-IsSettled r npo p q s h =
    let x = model_execution_of-Executes r npo p q h in
    record {
      well = model_execution_of-IsWellFormed r npo p q s.well h;
      only = follow-ShowsOnly x.ran p.state_seq q.state_seq x.status x.followed x.existed;
    }

-- The main thread runs and is about to start.
abbrev pub main_program : Program
main_program = record {
  state_seq = record {
    runner_to_obj_map = record { forward = (0, 0) ∷ []; backward = (0, 0) ∷ [] };
    visible_objects = record { history = ObjectState.thread ThreadState.running ∷ [] } ∷ [];
    earlier = [];
    representative = record { visible_object_indices = (0, 0) ∷ []; max_visible_runner_id = 1 };
  };
  trace = [];
  next_steps = (0, thread_start 0) ∷ [];
}

pub starting_from_main_lem : starting_from_main ≡ ok main_program
unfolding starting_from_main from_state Detached.add_runner Detached.add_object copy_objects
    copy_runners inserted insert add_object point_to_next_state_for record_new_runner new_element
    indices_from Detached.get_state_of_object Detached.get_objid_for_runner
starting_from_main_lem = refl

main_program-IsSettled : IsSettled main_program
unfolding contains_object_with_id
main_program-IsSettled = record {
  well = record {
    keyed = λ r t h. ground arith;
    fresh = (refl, refl, omega arith, tt);
    depth = refl;
  };
  only = λ i b. ground arith;
}

starting_from_main-IsSettled : (p : Program) → starting_from_main ≡ ok p → IsSettled p
starting_from_main-IsSettled p h =
    let same : main_program ≡ p = cc (h, starting_from_main_lem) in
    subst IsSettled same main_program-IsSettled

-- Every program that is built from the start of main by discovering objects and runners, where a
-- new runner executes the step given for it, and by modelled executions keeps pending transitions
-- under their executors, has one state more than transitions in its trace, and its last state shows
-- the last state of every object and of nothing else.
pub Reached-IsSettled : (p : Program) → Reached p → IsSettled p
Reached-IsSettled p (main h) = starting_from_main-IsSettled p h
Reached-IsSettled _ (object {p} o reached) =
    discover_object-IsSettled o p (Reached-IsSettled p reached)
Reached-IsSettled q (runner {p} t f r runs reached h) =
    discover_runner-IsSettled t f p q r runs (Reached-IsSettled p reached) h
Reached-IsSettled q (executed {p} r npo reached h) =
    model_execution_of-IsSettled r npo p q (Reached-IsSettled p reached) h
