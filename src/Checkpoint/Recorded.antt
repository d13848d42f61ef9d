-- ===== src/Checkpoint/Recorded.antt =====
-- A run of the wrappers of libmcmini, a checkpoint, and the model that McMini makes of it.
use deep_debug.Prelude.{
  ℕ, ◌+◌, ◌≤◌, ◌<◌, ◌≡◌, refl, sym, ap, ◌∙◌, List, [], ◌∷◌, length, length-append, Result, ok,
  subst, ◌>>=◌, >>=-eq-ok, arith, lookup,
}
use deep_debug.Objects.{ObjectState}
use deep_debug.State.Injective
use deep_debug.State.Injective.{Injective}
use deep_debug.Sequence.{get_state_of_object, new_element, indices_from}
use deep_debug.Sequence.Creation.{no_states_yet}
use deep_debug.Sequence.Discovery.{IsExact}
use deep_debug.Coordinator.{Coordinator}
use deep_debug.Coordinator.Binding.{IsBound}
use deep_debug.Coordinator.Registry.{Mailbox, Registry}
use deep_debug.Spy.Record.{
  RecordedState, RecList, ThreadRecord, mutex, semaphore, condition_variable, thread,
}
use deep_debug.Spy.Interleaving.{Threads, Runs, Runs-IsDistinct}
use deep_debug.Checkpoint.{
  Message, transfer_state, receive, nothing_received, insert_by_id, sort_by_id,
  observe_next_transitions, restore_recorded, empty_coordinator,
}
use deep_debug.Checkpoint.Transfer.{
  HasLocations, threads_of, thread_of, outcome_of, nothing-AllFresh, receive-transfer_state,
}
use deep_debug.Checkpoint.Objects.{
  AllShown, Observes, observe_records-Observes, StillShown, bound-get_model, SameRunners,
}
use deep_debug.Checkpoint.Runners.{
  InOrder, AreNumbered, AllRun, runner_count, ObservesRunners, observe_runners-Observes,
}

length-thread_of : (state : RecordedState) → length (thread_of state) ≤ 1
length-thread_of (mutex m) = omega arith
length-thread_of (semaphore s) = omega arith
length-thread_of (condition_variable c) = omega arith
length-thread_of (thread t) = omega arith

length-threads_of : (head : RecList) → length (threads_of head) ≤ length head
unfolding threads_of
length-threads_of [] = omega arith
length-threads_of (vo ∷ rest) = omega (
  arith,
  length-threads_of rest,
  length-thread_of vo.state,
  length-append (thread_of vo.state) (threads_of rest),
)

length-insert_by_id :
    (t : ThreadRecord) (threads : List ThreadRecord)
    → length (insert_by_id t threads) ≡ length threads + 1
unfolding insert_by_id
length-insert_by_id t [] = omega arith
length-insert_by_id t (u ∷ rest) = ground (arith, length-insert_by_id t rest)

length-sort_by_id : (threads : List ThreadRecord) → length (sort_by_id threads) ≡ length threads
unfolding sort_by_id
length-sort_by_id [] = omega arith
length-sort_by_id (t ∷ rest) =
    omega (arith, length-sort_by_id rest, length-insert_by_id t (sort_by_id rest))

empty-IsExact : IsExact no_states_yet
unfolding new_element indices_from
empty-IsExact = record { fresh = tt; only = λ i above. refl }

empty-InOrder : InOrder no_states_yet
unfolding new_element indices_from
empty-InOrder = record {
  visible = refl;
  later = λ k above. refl;
  unnamed = λ v above. refl;
  in_model = λ k v found. cc;
}

empty-IsBound : IsBound empty_coordinator
empty-IsBound = record { known = λ h id e. cc; distinct = λ h o id e f. cc }

SameRunners-InOrder :
    (c d : Coordinator)
    → SameRunners c d
    → InOrder c.current_program_model.state_seq
    → InOrder d.current_program_model.state_seq
SameRunners-InOrder c d (m, v, n) k = record {
  visible = v ∙ k.visible ∙ ap Injective.size (sym m);
  later = λ j above.
      ap (λ (f : Injective). lookup j f.forward) m ∙ k.later j (omega (arith, ap Injective.size m));
  unnamed = λ j above. ap (λ (f : Injective). lookup j f.backward) m ∙ k.unnamed j (omega arith);
  in_model = λ j id found.
      let old = k.in_model j id (ap (λ (f : Injective). lookup j f.forward) (sym m) ∙ found) in
      omega arith;
}

ObservesRunners-StillShown :
    (threads : List ThreadRecord) (c d : Coordinator)
    → IsBound c
    → ObservesRunners threads c d
    → StillShown c d
ObservesRunners-StillShown threads c d b o handle id found =
    let kept = o.placed handle id found in
    let read : (e : Coordinator) → ℕ → Result ObjectState = λ e.
      get_state_of_object e.current_program_model.state_seq
        e.current_program_model.state_seq.representative in
    (
      kept,
      ap (read d) (bound-get_model handle id d kept)
          ∙ o.still_seen id (b.known handle id found)
          ∙ ap (read c) (sym (bound-get_model handle id c found)),
    )

-- What restoring records does: `d` is the model before the pending transitions are read.
abbrev pub Restores : RecList → List Message → Coordinator → Type 0
Restores head messages d =
    ((tr : Registry) (mailboxes : ℕ → Mailbox)
      → restore_recorded tr mailboxes messages empty_coordinator
        ≡ observe_next_transitions tr mailboxes (sort_by_id (threads_of head)) d)
    × AllShown head d
    × AllRun (sort_by_id (threads_of head)) d.current_program_model.state_seq

restores :
    (head : RecList) (messages : List Message) (c d : Coordinator)
    → IsBound c
    → ((receive messages (nothing_received empty_coordinator) >>= outcome_of)
        ≡ ok (c, threads_of head))
    → Observes head empty_coordinator c
    → ObservesRunners (sort_by_id (threads_of head)) c d
    → Restores head messages d
unfolding restore_recorded
restores head messages c d b heard o p =
    let (r, received, kept) =
      >>=-eq-ok (receive messages (nothing_received empty_coordinator)) outcome_of heard in
    let model : r.coordinator ≡ c = cc kept in
    let threads : r.recorded_threads ≡ threads_of head = cc kept in
    (
      λ tr mailboxes. rw (restore_recorded, received) (rw (threads, model) (rw p.observed refl)),
      o.shown d (ObservesRunners-StillShown (sort_by_id (threads_of head)) c d b p),
      p.run,
    )

-- When threads have run the wrappers of libmcmini from nothing, in whatever interleaving, only
-- threads have no location, every condition variable has its queue so that the template thread can
-- send the records, and there are fewer than 65536 records and the recorded threads carry the ids
-- from 0 on: McMini makes of what is sent a model in which the address of every recorded object
-- stands for an object in the recorded state, a condition variable with the waiters of its queue,
-- and the runner of every recorded thread is in the recorded state; it then goes on to the pending
-- transitions of the threads in the order of their ids.
pub Runs-Restores :
    (t : Threads) (messages : List Message)
    → Runs (record { head = []; running = [] }) t
    → HasLocations t.head
    → transfer_state t.head ≡ ok messages
    → AreNumbered 0 (sort_by_id (threads_of t.head))
    → length t.head < 65536
    → (d : Coordinator) × Restores t.head messages d
Runs-Restores t messages runs placed sent numbered few =
    let distinct = Runs-IsDistinct t runs in
    let (c, o) =
      observe_records-Observes t.head empty_coordinator distinct placed (nothing-AllFresh ℕ t.head)
        empty-IsBound empty-IsExact (omega arith) in
    let heard =
      receive-transfer_state t.head messages empty_coordinator distinct placed sent
      ∙ ap (λ x. x >>= λ d. ok (d, threads_of t.head)) o.observed in
    let none_yet : runner_count c.current_program_model.state_seq ≡ 0 =
      ap Injective.size o.runners.0 in
    let (d, p) =
      observe_runners-Observes (sort_by_id (threads_of t.head)) c o.exact
        (SameRunners-InOrder empty_coordinator c o.runners empty-InOrder)
        (subst (λ n. AreNumbered n (sort_by_id (threads_of t.head))) (sym none_yet) numbered)
        (omega
          (arith, none_yet, length-sort_by_id (threads_of t.head), length-threads_of t.head)) in
    (d, restores t.head messages c d o.bound heard o p)
