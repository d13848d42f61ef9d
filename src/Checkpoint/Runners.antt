-- ===== src/Checkpoint/Runners.antt =====
-- The runners of the model that a restart makes of the recorded threads.
use deep_debug.Prelude.{
  ℕ, suc, ◌+◌, ◌%◌, ◌≤◌, ◌<◌, ◌==◌, ltb, ◌≡◌, refl, sym, ap, ◌∙◌, subst, Bool-cases, false, true,
  inl, inr, List, [], ◌∷◌, none, some, lookup, lookup-assign, lookup-assign_self, assign, length,
  length-append, length-assign_new, get_elem?-append_left, get_elem?-append_middle, Result, ok,
  ◌>>=◌, arith, if◌then◌else◌,
}
use deep_debug.Objects.{ObjectState, as_thread}
use deep_debug.Objects.Thread.{ThreadState}
use deep_debug.State.{invalid_objid}
use deep_debug.State.Injective
use deep_debug.State.Injective.{Injective, inserted, insert}
use deep_debug.State.VisibleObject.{no_states, push_state}
use deep_debug.Sequence.{
  StateSequence, add_object, add_runner, record_new_runner, get_state_of_object,
  get_state_of_runner, get_objid_for_runner, contains_runner_with_id,
}
use deep_debug.Sequence.Discovery.{IsExact, add_runner-IsExact}
use deep_debug.Coordinator.{Coordinator, bind_runner, observe_runner_without_step}
use deep_debug.Coordinator.Kept.{lookup-insert_address}
use deep_debug.Spy.Record.{ThreadRecord}
use deep_debug.Checkpoint.{thread_state_of, observe_runners}
use deep_debug.Checkpoint.Objects.{state-read, state-same, indices-add_object}

abbrev pub runner_count : StateSequence → ℕ
runner_count s = Injective.size s.runner_to_obj_map

-- The runners are numbered from 0, all of them are visible, and they are objects of the model.
pub record InOrder (s : StateSequence) : Type 0 where
  pub visible : s.representative.max_visible_runner_id ≡ runner_count s
  pub later : (k : ℕ) → runner_count s ≤ k → lookup k s.runner_to_obj_map.forward ≡ none
  pub unnamed :
      (v : ℕ) → length s.visible_objects ≤ v → lookup v s.runner_to_obj_map.backward ≡ none
  pub in_model :
      (k v : ℕ) → lookup k s.runner_to_obj_map.forward ≡ some v → v < length s.visible_objects

abbrev pub runner_state : ℕ → StateSequence → Result ThreadState
runner_state p s = get_state_of_runner s s.representative p

abbrev pub StillRuns : StateSequence → StateSequence → Type 0
StillRuns s s' =
    (p v : ℕ)
    → lookup p s.runner_to_obj_map.forward ≡ some v
    → (lookup p s'.runner_to_obj_map.forward ≡ some v) × (runner_state p s' ≡ runner_state p s)

abbrev pub StillSeen : StateSequence → StateSequence → Type 0
StillSeen s s' =
    (id : ℕ)
    → id < length s.visible_objects
    → get_state_of_object s' s'.representative id ≡ get_state_of_object s s.representative id

-- The sequence after a runner has been added.
abbrev with_runner : ThreadState → StateSequence → StateSequence
with_runner t s =
    let n = length s.visible_objects in
    let s' = (add_object (ObjectState.thread t) s).0 in
    record s' {
      runner_to_obj_map = record {
        forward = assign (runner_count s) n s.runner_to_obj_map.forward;
        backward = assign n (runner_count s) s.runner_to_obj_map.backward;
      };
      representative = record_new_runner s'.representative;
    }

-- A visible runner is in the state of its object.
objid-read :
    (s : StateSequence) (p v : ℕ)
    → lookup p s.runner_to_obj_map.forward ≡ some v
    → ltb p s.representative.max_visible_runner_id ≡ true
    → get_objid_for_runner s s.representative p ≡ v
unfolding get_objid_for_runner contains_runner_with_id
objid-read s p v h visible =
    let has : Injective.count_domain p s.runner_to_obj_map ≡ true = rw h refl in
    let shown : contains_runner_with_id s s.representative p ≡ true =
      rw (contains_runner_with_id, visible, has) refl in
    rw (get_objid_for_runner, h) (ap (λ b. if b then v else invalid_objid) shown)

runner-read :
    (s : StateSequence) (p v : ℕ)
    → lookup p s.runner_to_obj_map.forward ≡ some v
    → ltb p s.representative.max_visible_runner_id ≡ true
    → runner_state p s ≡ (get_state_of_object s s.representative v >>= as_thread)
unfolding get_state_of_runner
runner-read s p v h visible =
    ap (λ x. get_state_of_object s s.representative x >>= as_thread) (objid-read s p v h visible)

module _ (t : ThreadState) (s : StateSequence) (w : IsExact s) (k : InOrder s)
    (few : runner_count s < 65535) where
  add_runner-with : add_runner t s ≡ ok (with_runner t s, runner_count s)
  unfolding add_runner inserted insert add_object
  add_runner-with =
      let narrow : runner_count s % 65536 ≡ runner_count s = omega arith in
      rw
        (
          narrow,
          inserted,
          insert,
          k.later (runner_count s) (omega arith),
          k.unnamed (length s.visible_objects) (omega arith),
        )
        refl

  count-with_runner : runner_count (with_runner t s) ≡ runner_count s + 1
  count-with_runner =
      length-assign_new (runner_count s) (length s.visible_objects) s.runner_to_obj_map.forward
        (rw (k.later (runner_count s) (omega arith)) refl)

  with_runner-Seen : StillSeen s (with_runner t s)
  unfolding add_object record_new_runner
  with_runner-Seen id known =
      let n = length s.visible_objects in
      let other : (n == id) ≡ false = ground arith in
      state-same s (with_runner t s) s.representative (with_runner t s).representative id
        (get_elem?-append_left s.visible_objects (push_state no_states (ObjectState.thread t) ∷ [])
          id known)
        (ap (lookup id) (indices-add_object (ObjectState.thread t) s w)
          ∙ lookup-assign n id 0 s.representative.visible_object_indices
          ∙ rw other refl)

  with_runner-InOrder : InOrder (with_runner t s)
  unfolding add_object record_new_runner
  with_runner-InOrder =
      let n = length s.visible_objects in
      let counted =
        length-append s.visible_objects (push_state no_states (ObjectState.thread t) ∷ []) in
      record {
        visible = omega (arith, k.visible, count-with_runner);
        later = λ j above.
            lookup-assign (runner_count s) j n s.runner_to_obj_map.forward
            ∙ ground (arith, count-with_runner, k.later j);
        unnamed = λ v above.
            lookup-assign n v (runner_count s) s.runner_to_obj_map.backward
            ∙ ground (arith, counted, k.unnamed v);
        in_model = λ j v found. elim (Bool-cases (runner_count s == j)) [
          | inl hit ↦
              let new : some n ≡ some v =
                sym (lookup-assign (runner_count s) j n s.runner_to_obj_map.forward ∙ rw hit refl)
                ∙ found in
              let same : n ≡ v = cc new in omega (arith, counted)
          | inr miss ↦
              let old : lookup j s.runner_to_obj_map.forward ≡ some v =
                sym (lookup-assign (runner_count s) j n s.runner_to_obj_map.forward ∙ rw miss refl)
                ∙ found in
              omega (arith, counted, k.in_model j v old)
        ];
      }

  with_runner-Exact : IsExact (with_runner t s)
  with_runner-Exact =
      (add_runner-IsExact t s (with_runner t s) (runner_count s) w add_runner-with).0

  with_runner-Runs : runner_state (runner_count s) (with_runner t s) ≡ ok t
  unfolding add_object record_new_runner as_thread
  with_runner-Runs =
      let n = length s.visible_objects in
      let v = push_state no_states (ObjectState.thread t) in
      let seen : get_state_of_object (with_runner t s) (with_runner t s).representative n
          ≡ ok (ObjectState.thread t) =
        state-read (with_runner t s) (with_runner t s).representative n 0 v (ObjectState.thread t)
          (get_elem?-append_middle s.visible_objects [] v)
          (ap (lookup n) (indices-add_object (ObjectState.thread t) s w)
            ∙ lookup-assign_self n 0 s.representative.visible_object_indices)
          refl in
      runner-read (with_runner t s) (runner_count s) n
        (lookup-assign_self (runner_count s) n s.runner_to_obj_map.forward)
        (ground (arith, k.visible))
      ∙ ap (λ x. x >>= as_thread) seen

  with_runner-StillRuns : StillRuns s (with_runner t s)
  unfolding add_object record_new_runner
  with_runner-StillRuns p v found =
      let below : p < runner_count s = elim (Bool-cases (ltb p (runner_count s))) [
        | inl inside ↦ ground arith
        | inr outside ↦ let gone = k.later p (ground arith) in cc
      ] in
      let apart : (runner_count s == p) ≡ false = ground arith in
      let kept : lookup p (with_runner t s).runner_to_obj_map.forward ≡ some v =
        lookup-assign (runner_count s) p (length s.visible_objects) s.runner_to_obj_map.forward
        ∙ rw apart found in
      (
        kept,
        runner-read (with_runner t s) p v kept (ground (arith, k.visible))
            ∙ ap (λ x. x >>= as_thread) (with_runner-Seen v (k.in_model p v found))
            ∙ sym (runner-read s p v found (ground (arith, k.visible))),
      )

count-objects :
    (t : ThreadState) (s : StateSequence)
    → length (with_runner t s).visible_objects ≡ length s.visible_objects + 1
unfolding add_object
count-objects t s =
    length-append s.visible_objects (push_state no_states (ObjectState.thread t) ∷ [])

-- The ids of the threads are consecutive.
abbrev pub AreNumbered : ℕ → List ThreadRecord → Type 0
AreNumbered k [] = Unit {0}
AreNumbered k (t ∷ rest) = (t.id ≡ k) × AreNumbered (suc k) rest

abbrev pub AllRun : List ThreadRecord → StateSequence → Type 0
AllRun [] s = Unit {0}
AllRun (t ∷ rest) s = (runner_state t.id s ≡ ok (thread_state_of t.status)) × AllRun rest s

-- What observing the recorded threads does.
pub record ObservesRunners (threads : List ThreadRecord) (c d : Coordinator) : Type 0 where
  pub observed : observe_runners threads c ≡ ok d
  pub run : AllRun threads d.current_program_model.state_seq
  pub still_run : StillRuns c.current_program_model.state_seq d.current_program_model.state_seq
  pub still_seen : StillSeen c.current_program_model.state_seq d.current_program_model.state_seq
  pub more :
      length c.current_program_model.state_seq.visible_objects
      ≤ length d.current_program_model.state_seq.visible_objects
  pub placed :
      (handle id : ℕ)
      → lookup handle c.system_address_mapping ≡ some id
      → lookup handle d.system_address_mapping ≡ some id
  pub waiting : d.current_program_model.next_steps ≡ c.current_program_model.next_steps

StillRuns-trans : (s t u : StateSequence) → StillRuns s t → StillRuns t u → StillRuns s u
StillRuns-trans s t u first second p v found =
    let (there, same) = first p v found in
    let (later, still) = second p v there in (later, still ∙ same)

observe-with_runner :
    (handle : ℕ) (st : ThreadState) (c : Coordinator)
    → add_runner st c.current_program_model.state_seq
      ≡ ok (
        with_runner st c.current_program_model.state_seq,
        runner_count c.current_program_model.state_seq,
      )
    → observe_runner_without_step handle st c
      ≡ ok (
        bind_runner handle
            (runner_count c.current_program_model.state_seq)
            (record c.current_program_model {
              state_seq = with_runner st c.current_program_model.state_seq;
            })
            c,
        runner_count c.current_program_model.state_seq,
      )
unfolding observe_runner_without_step
observe-with_runner handle st c added = rw (observe_runner_without_step, added) refl

-- When the last state shows all objects of the model, its runners are numbered from 0, and the
-- recorded threads carry the ids that follow and are few enough: observing them succeeds, the
-- runner of every recorded thread is in the recorded state, the earlier runners and objects are in
-- the states they were in, bound addresses stand for what they did, and no transition is pending
-- that was not.
pub observe_runners-Observes :
    (threads : List ThreadRecord) (c : Coordinator)
    → IsExact c.current_program_model.state_seq
    → InOrder c.current_program_model.state_seq
    → AreNumbered (runner_count c.current_program_model.state_seq) threads
    → runner_count c.current_program_model.state_seq + length threads < 65536
    → (d : Coordinator) × ObservesRunners threads c d
unfolding observe_runners bind_runner
observe_runners-Observes [] c w k numbered few = (
  c,
  record {
    observed = refl;
    run = tt;
    still_run = λ p v found. (found, refl);
    still_seen = λ id known. refl;
    more = omega arith;
    placed = λ handle id found. found;
    waiting = refl;
  },
)
observe_runners-Observes (t ∷ rest) c w k (first, numbered) few =
    let s = c.current_program_model.state_seq in
    let st = thread_state_of t.status in
    let small : runner_count s < 65535 = omega arith in
    let s' = with_runner st s in
    let d =
      bind_runner t.pthread_desc (runner_count s)
        (record c.current_program_model { state_seq = s' }) c in
    let count = count-with_runner st s w k small in
    let next : suc (runner_count s) ≡ runner_count s' = omega (arith, count) in
    let larger : length s'.visible_objects ≡ length s.visible_objects + 1 = count-objects st s in
    let (e, all) =
      observe_runners-Observes rest d (with_runner-Exact st s w k small)
        (with_runner-InOrder st s w k small) (subst (λ n. AreNumbered n rest) next numbered)
        (omega (arith, count)) in
    let one = observe-with_runner t.pthread_desc st c (add_runner-with st s w k small) in
    let n = length s.visible_objects in
    let (_, runs) =
      all.still_run (runner_count s) n
        (lookup-assign_self (runner_count s) n s.runner_to_obj_map.forward) in
    (
      e,
      record {
        observed = rw (observe_runners, one) all.observed;
        run = (
          ap (λ p. runner_state p e.current_program_model.state_seq) first
              ∙ runs
              ∙ with_runner-Runs st s w k small,
          all.run,
        );
        still_run =
            StillRuns-trans s s' e.current_program_model.state_seq
              (with_runner-StillRuns st s w k small) all.still_run;
        still_seen = λ id known.
            all.still_seen id (omega (arith, larger)) ∙ with_runner-Seen st s w k small id known;
        more = omega (arith, larger, all.more);
        placed = λ handle id found.
            all.placed handle id
              (lookup-insert_address t.pthread_desc handle _ id c.system_address_mapping found);
        waiting = all.waiting;
      },
    )
