-- ===== src/Checkpoint/Pending.antt =====
-- The pending transitions after a restart, and the search that follows.
use deep_debug.Prelude.{
  ℕ, ==-refl, ◌≡◌, refl, sym, ap, ◌∙◌, subst, List, [], ◌∷◌, ◌++◌, none, some, ok, err, or_fail,
  or_fail-eq-ok, ◌>>=◌, >>=-eq-ok, Result-cases, inl, inr, null_pointer, execution_error,
  if◌then◌else◌,
}
use deep_debug.Transition.{Transition, get_executor}
use deep_debug.Sequence
use deep_debug.Program.Rollback.{IsKeyed-assign}
use deep_debug.Coordinator.{
  get_model_of_object, Coordinator, observe_object, observe_runner_without_step,
  observe_runner_transition, bind_runner,
}
use deep_debug.Coordinator.Kept.{
  insert_address-named, Kept, Kept-refl, Kept-trans, Keeps, observe_object-Keeps,
}
use deep_debug.Coordinator.Kept.Callbacks.{callback-Keeps}
use deep_debug.Coordinator.Registry.{Mailbox, Memory, Registry, get_callback_for, default_registry}
use deep_debug.Objects.Thread.{ThreadState}
use deep_debug.Spy.Record.{
  RecordedObject, RecordedState, ThreadRecord, ThreadStatus, mutex, semaphore, condition_variable,
  thread,
}
use deep_debug.Checkpoint.{
  Message, unknown, object, cv_waiters_queue, Received, receive_object, receive, nothing_received,
  translate_recorded_object_to_model, thread_state_of, observe_runners, next_transition, sort_by_id,
  observe_next_transition, observe_next_transitions, restore_recorded, add_waiter, num_objects,
}

-- The check that no object is added when the pending transition of a recorded thread is found never
-- fails, not even when the callback has added one: the step is to find the transition and to file
-- it, and it throws just where there is no callback, the callback throws, or it returns null.
pub observe_next_transition-unguarded :
    (tr : Registry) (mailboxes : ℕ → Mailbox) (t : ThreadRecord) (c : Coordinator)
    → observe_next_transition tr mailboxes t c ≡ (
        next_transition tr mailboxes t t.status c >>= λ r.
        or_fail r.1 null_pointer >>= λ next. ok (observe_runner_transition next r.0))
unfolding observe_next_transition observe_runner_transition
observe_next_transition-unguarded tr mailboxes t c =
    elim (Result-cases (next_transition tr mailboxes t t.status c)) [
      | inr (e, failed) ↦ rw (observe_next_transition, failed) refl
      | inl ((d, none), found) ↦ rw (observe_next_transition, found) refl
      | inl ((d, some next), found) ↦
          rw (observe_next_transition, found)
            (ap (λ b. if b then ok (observe_runner_transition next d) else err execution_error)
              (==-refl (num_objects d)))
    ]

observe_runner_without_step-Kept :
    (handle : ℕ) (st : ThreadState) (c : Coordinator)
    → Keeps c (observe_runner_without_step handle st c)
unfolding observe_runner_without_step bind_runner
observe_runner_without_step-Kept handle st c d id h =
    let (added, _, made) =
      >>=-eq-ok (Sequence.add_runner st c.current_program_model.state_seq) _ h in
    let same : bind_runner handle added.1 (record c.current_program_model { state_seq = added.0 }) c
        ≡ d =
      cc made in
    subst (Kept c) same (record {
      trace = refl;
      keyed = λ k. k;
      named = λ other known.
          insert_address-named handle _ other c (bind_runner handle added.1 _ c) refl known;
    })

-- Observing what a record translates to.
translated-Kept :
    (vo : RecordedObject) (r after : Received)
    → (do
      o ← translate_recorded_object_to_model vo r.cv_waiting_threads
      observed ← observe_object vo.location o r.coordinator
      ok (record r { coordinator = observed.0 }))
      ≡ ok after
    → Kept r.coordinator after.coordinator
translated-Kept vo r after h =
    let (o, _, h₁) = >>=-eq-ok (translate_recorded_object_to_model vo r.cv_waiting_threads) _ h in
    let (observed, bound, made) = >>=-eq-ok (observe_object vo.location o r.coordinator) _ h₁ in
    let same : record r { coordinator = observed.0 } ≡ after = cc made in
    subst (λ (x : Received). Kept r.coordinator x.coordinator) same
      (observe_object-Keeps vo.location o r.coordinator observed.0 observed.1 bound)

receive_object-Kept :
    (vo : RecordedObject) (state : RecordedState) (r after : Received)
    → receive_object vo state r ≡ ok after
    → Kept r.coordinator after.coordinator
unfolding receive_object
receive_object-Kept vo (thread t) r after h =
    let same : record r { recorded_threads = r.recorded_threads ++ t ∷ [] } ≡ after = cc h in
    subst (λ (x : Received). Kept r.coordinator x.coordinator) same (Kept-refl r.coordinator)
receive_object-Kept vo (mutex m) r after h = translated-Kept vo r after h
receive_object-Kept vo (semaphore s) r after h = translated-Kept vo r after h
receive_object-Kept vo (condition_variable c) r after h = translated-Kept vo r after h

receive-Kept :
    (messages : List Message) (r after : Received)
    → receive messages r ≡ ok after
    → Kept r.coordinator after.coordinator
unfolding receive
receive-Kept [] r after h =
    let same : r ≡ after = cc h in
    subst (λ (x : Received). Kept r.coordinator x.coordinator) same (Kept-refl r.coordinator)
receive-Kept (unknown ∷ messages) r after h =
    let same : r ≡ after = cc h in
    subst (λ (x : Received). Kept r.coordinator x.coordinator) same (Kept-refl r.coordinator)
receive-Kept (cv_waiters_queue location i s ∷ messages) r after h =
    receive-Kept messages
      (record r { cv_waiting_threads = add_waiter location i s r.cv_waiting_threads }) after h
receive-Kept (object vo ∷ messages) r after h =
    let (next, first, rest) = >>=-eq-ok (receive_object vo vo.state r) (receive messages) h in
    Kept-trans (receive_object-Kept vo vo.state r next first)
      (receive-Kept messages next after rest)

observe_runners-Kept :
    (threads : List ThreadRecord) (c d : Coordinator) → observe_runners threads c ≡ ok d → Kept c d
unfolding observe_runners
observe_runners-Kept [] c d h = let same : c ≡ d = cc h in subst (Kept c) same (Kept-refl c)
observe_runners-Kept (t ∷ rest) c d h =
    let (next, first, later) =
      >>=-eq-ok (observe_runner_without_step t.pthread_desc (thread_state_of t.status) c) _ h in
    Kept-trans
      (observe_runner_without_step-Kept t.pthread_desc (thread_state_of t.status) c next.0 next.1
        first)
      (observe_runners-Kept rest next.0 d later)

observe_runner_transition-Kept :
    (t : Transition) (c : Coordinator) → Kept c (observe_runner_transition t c)
unfolding observe_runner_transition get_model_of_object
observe_runner_transition-Kept t c = record {
  trace = refl;
  keyed = IsKeyed-assign (get_executor t) t c.current_program_model.next_steps refl;
  named = λ handle known. refl;
}

module _ (m : Memory) (mailboxes : ℕ → Mailbox) where
  next_transition-Keeps :
      (t : ThreadRecord) (status : ThreadStatus) (c : Coordinator)
      → Keeps c (next_transition (default_registry m) mailboxes t status c)
  unfolding next_transition
  next_transition-Keeps t ThreadStatus.alive c d next h =
      let (callback, known, called) =
        >>=-eq-ok
          (or_fail (get_callback_for (mailboxes t.id).type (default_registry m)) execution_error) _
          h in
      let registered =
        or_fail-eq-ok (get_callback_for (mailboxes t.id).type (default_registry m)) execution_error
          known in
      callback-Keeps m (mailboxes t.id).type callback registered t.id (mailboxes t.id) c d next
        called
  next_transition-Keeps t ThreadStatus.exited c d next h =
      let same : c ≡ d = cc h in subst (Kept c) same (Kept-refl c)

  observe_next_transition-Kept :
      (t : ThreadRecord) (c d : Coordinator)
      → observe_next_transition (default_registry m) mailboxes t c ≡ ok d
      → Kept c d
  observe_next_transition-Kept t c d h =
      let (r, found, h₁) =
        >>=-eq-ok (next_transition (default_registry m) mailboxes t t.status c) _
          (sym (observe_next_transition-unguarded (default_registry m) mailboxes t c) ∙ h) in
      let (next, _, made) = >>=-eq-ok (or_fail r.1 null_pointer) _ h₁ in
      let same : observe_runner_transition next r.0 ≡ d = cc made in
      Kept-trans (next_transition-Keeps t t.status c r.0 r.1 found)
        (subst (Kept r.0) same (observe_runner_transition-Kept next r.0))

  observe_next_transitions-Kept :
      (threads : List ThreadRecord) (c d : Coordinator)
      → observe_next_transitions (default_registry m) mailboxes threads c ≡ ok d
      → Kept c d
  unfolding observe_next_transitions
  observe_next_transitions-Kept [] c d h =
      let same : c ≡ d = cc h in subst (Kept c) same (Kept-refl c)
  observe_next_transitions-Kept (t ∷ rest) c d h =
      let (next, first, later) =
        >>=-eq-ok (observe_next_transition (default_registry m) mailboxes t c) _ h in
      Kept-trans (observe_next_transition-Kept t c next first)
        (observe_next_transitions-Kept rest next d later)

  pub restore_recorded-Kept :
      (messages : List Message) (c d : Coordinator)
      → restore_recorded (default_registry m) mailboxes messages c ≡ ok d
      → Kept c d
  unfolding restore_recorded
  restore_recorded-Kept messages c d h =
      let (r, received, h₁) = >>=-eq-ok (receive messages (nothing_received c)) _ h in
      let threads = sort_by_id r.recorded_threads in
      let (e, with_runners, rest) = >>=-eq-ok (observe_runners threads r.coordinator) _ h₁ in
      Kept-trans (receive-Kept messages (nothing_received c) r received) (
        Kept-trans (observe_runners-Kept threads r.coordinator e with_runners)
          (observe_next_transitions-Kept threads e d rest))
