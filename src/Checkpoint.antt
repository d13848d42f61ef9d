-- ===== src/Checkpoint.antt =====
-- A restart from a checkpoint. The template thread of src/lib/dmtcp-callback.c sends what was
-- recorded through a pipe, and src/mcmini/mcmini.cpp makes a model of it.
pub mod Transfer
pub mod Objects
pub mod Runners
pub mod Recorded
pub mod Pending
pub mod Ends
pub mod Waiters
mod Tests
use deep_debug.Prelude.{
  ℕ, ◌==◌, leb, true, List, [], ◌∷◌, ◌++◌, Option, none, some, lookup, assign, length,
  if◌then◌else◌, Result, ok, err, or_fail, ◌>>=◌, null_pointer, assertion_failed, execution_error,
}
use deep_debug.Objects.{ObjectState}
use deep_debug.Objects.Thread.{ThreadState}
use deep_debug.Objects.Mutex.{MutexState, new_mutex}
use deep_debug.Objects.Semaphore.{SemaphoreState}
use deep_debug.Objects.ConditionVariable.{CondState, restored_condition_variable}
use deep_debug.Policy.{CondStatus}
use deep_debug.Sequence.Creation.{no_states_yet}
use deep_debug.Transition.{Transition, thread_exit}
use deep_debug.Program.{Program}
use deep_debug.Program.Start.{starting_from_main}
use deep_debug.Coordinator.{
  Coordinator, observe_object, observe_runner_without_step, observe_runner_transition,
}
use deep_debug.Coordinator.Registry.{Mailbox, Registry, get_callback_for, default_registry}
use deep_debug.Coordinator.Session.{ProcessSource, start_session}
use deep_debug.Dpor.Search.{Callbacks, Configuration, Outcome, verify_using}
use deep_debug.Spy.Record.{
  RecordedState, RecordedObject, RecList, ThreadRecord, ThreadStatus, MutexStatus, SemaphoreStatus,
  ThreadQueue, mutex, semaphore, condition_variable, thread,
}

-- The values of `visible_object` that go through the pipe.
pub data Message : Type 0 where
  unknown : Message
  object : (vo : RecordedObject) → Message
  cv_waiters_queue : (cv_location waiting_id : ℕ) (cv_state : CondStatus) → Message

unfoldable pub waiters_queue : ℕ → ThreadQueue → List Message
waiters_queue location [] = []
waiters_queue location ((waiting_id, cv_state) ∷ rest) =
    cv_waiters_queue location waiting_id cv_state ∷ waiters_queue location rest

-- What is written for an entry whose state is the second argument: before a condition variable,
-- its queue.
unfoldable pub entry_messages : RecordedObject → RecordedState → Result (List Message)
unfolding waiters_queue
entry_messages vo (condition_variable c) = do
  queue ← or_fail c.waiting_threads null_pointer
  ok (waiters_queue vo.location queue ++ object vo ∷ [])
entry_messages vo (mutex m) = ok (object vo ∷ [])
entry_messages vo (semaphore s) = ok (object vo ∷ [])
entry_messages vo (thread t) = ok (object vo ∷ [])

-- The loop of the template thread over the records, and the last message.
unfoldable pub transfer_state : RecList → Result (List Message)
unfolding entry_messages
transfer_state [] = ok (unknown ∷ [])
transfer_state (vo ∷ rest) = do
  first ← entry_messages vo vo.state
  later ← transfer_state rest
  ok (first ++ later)

abbrev pub mutex_state_of : MutexStatus → MutexState
mutex_state_of MutexStatus.uninitialized = MutexState.uninitialized
mutex_state_of MutexStatus.unlocked = MutexState.unlocked
mutex_state_of MutexStatus.locked = MutexState.locked
mutex_state_of MutexStatus.destroyed = MutexState.destroyed

abbrev pub semaphore_state_of : SemaphoreStatus → SemaphoreState
semaphore_state_of SemaphoreStatus.uninitialized = SemaphoreState.uninitialized
semaphore_state_of SemaphoreStatus.initialized = SemaphoreState.initialized
semaphore_state_of SemaphoreStatus.destroyed = SemaphoreState.destroyed

-- The two enumerations have the same numbers; `CV_PREWAITING` is that of `cv_transitional`.
abbrev pub cond_state_of : CondStatus → CondState
cond_state_of CondStatus.uninitialized = CondState.cv_uninitialized
cond_state_of CondStatus.initialized = CondState.cv_initialized
cond_state_of CondStatus.waiting = CondState.cv_waiting
cond_state_of CondStatus.signaled = CondState.cv_signaled
cond_state_of CondStatus.prewaiting = CondState.cv_transitional
cond_state_of CondStatus.destroyed = CondState.cv_destroyed

-- `thread(thread_status)`
abbrev pub thread_state_of : ThreadStatus → ThreadState
thread_state_of ThreadStatus.alive = ThreadState.running
thread_state_of ThreadStatus.exited = ThreadState.exited

abbrev pub pointer : Option ℕ → ℕ
pointer none = 0
pointer (some address) = address

abbrev pub WaitingThreads : Type 0
WaitingThreads = List (ℕ × ThreadQueue)

-- The waiters that have been read for a location.
abbrev pub waiters_at : ℕ → WaitingThreads → ThreadQueue
waiters_at location cvs = elim (lookup location cvs) [ some queue ↦ queue | none ↦ [] ]

-- A record at a location, where `waiters` are those of a condition variable.
unfoldable pub translate_state : ℕ → RecordedState → ThreadQueue → Result ObjectState
translate_state location (mutex m) waiters =
    ok (ObjectState.mutex (new_mutex (mutex_state_of m.status) location m.owner))
translate_state location (condition_variable c) waiters = ok (
    ObjectState.condition_variable (
      restored_condition_variable (cond_state_of c.status) c.interacting_thread
        (pointer c.associated_mutex) c.count waiters))
translate_state location (semaphore s) waiters = ok (
    ObjectState.semaphore
      (record { pattern = s.count; current_state = semaphore_state_of s.status }))
translate_state location (thread t) waiters = err assertion_failed  -- `std::abort`

unfoldable pub translate_recorded_object_to_model :
    RecordedObject → WaitingThreads → Result ObjectState
unfolding translate_state
translate_recorded_object_to_model vo cvs =
    translate_state vo.location vo.state (waiters_at vo.location cvs)

-- The local variables of the loop that reads, with the coordinator that it changes.
pub record Received : Type 0 where
  pub coordinator : Coordinator
  pub recorded_threads : List ThreadRecord
  pub cv_waiting_threads : WaitingThreads

abbrev pub add_waiter : ℕ → ℕ → CondStatus → WaitingThreads → WaitingThreads
add_waiter location waiting_id cv_state cvs =
    assign location (waiters_at location cvs ++ (waiting_id, cv_state) ∷ []) cvs

unfoldable pub receive_object : RecordedObject → RecordedState → Received → Result Received
unfolding translate_recorded_object_to_model
receive_object vo (thread t) r = ok (record r { recorded_threads = r.recorded_threads ++ t ∷ [] })
receive_object vo state r = do
  o ← translate_recorded_object_to_model vo r.cv_waiting_threads
  observed ← observe_object vo.location o r.coordinator
  ok (record r { coordinator = observed.0 })

-- `fifo.read` fails at the end of the pipe.
unfoldable pub receive : List Message → Received → Result Received
unfolding receive_object
receive [] r = ok r
receive (unknown ∷ messages) r = ok r
receive (cv_waiters_queue location waiting_id cv_state ∷ messages) r =
    receive messages (record r {
      cv_waiting_threads = add_waiter location waiting_id cv_state r.cv_waiting_threads;
    })
receive (object vo ∷ messages) r = receive_object vo vo.state r >>= receive messages

abbrev pub nothing_received : Coordinator → Received
nothing_received c = record { coordinator = c; recorded_threads = []; cv_waiting_threads = [] }

-- `std::sort` by the runner ids, which are all different.
unfoldable pub insert_by_id : ThreadRecord → List ThreadRecord → List ThreadRecord
insert_by_id t [] = t ∷ []
insert_by_id t (u ∷ rest) =
    let later = u ∷ insert_by_id t rest in if leb t.id u.id then t ∷ u ∷ rest else later

unfoldable pub sort_by_id : List ThreadRecord → List ThreadRecord
unfolding insert_by_id
sort_by_id [] = []
sort_by_id (t ∷ rest) = insert_by_id t (sort_by_id rest)

-- `translate_recorded_runner_to_model`, with its caller's loop.
unfoldable pub observe_runners : List ThreadRecord → Coordinator → Result Coordinator
observe_runners [] c = ok c
observe_runners (t ∷ rest) c = do
  observed ← observe_runner_without_step t.pthread_desc (thread_state_of t.status) c
  observe_runners rest observed.0

-- The pending transition of a thread.
unfoldable pub next_transition :
    Registry
    → (ℕ → Mailbox)
    → ThreadRecord
    → ThreadStatus
    → Coordinator
    → Result (Coordinator × Option Transition)
next_transition tr mailboxes t ThreadStatus.alive c = do
  callback ← or_fail (get_callback_for (mailboxes t.id).type tr) execution_error
  callback t.id (mailboxes t.id) c
next_transition tr mailboxes t ThreadStatus.exited c = ok (c, some (thread_exit t.id))

-- `get_state_sequence().count()`
abbrev pub num_objects : Coordinator → ℕ
num_objects c = length c.current_program_model.state_seq.representative.visible_object_indices

unfoldable pub observe_next_transition :
    Registry → (ℕ → Mailbox) → ThreadRecord → Coordinator → Result Coordinator
unfolding next_transition
observe_next_transition tr mailboxes t c = do
  r ← next_transition tr mailboxes t t.status c
  next ← or_fail r.1 null_pointer
  let after = observe_runner_transition next r.0
  if num_objects r.0 == num_objects after then ok after else err execution_error

unfoldable pub observe_next_transitions :
    Registry → (ℕ → Mailbox) → List ThreadRecord → Coordinator → Result Coordinator
unfolding observe_next_transition
observe_next_transitions tr mailboxes [] c = ok c
observe_next_transitions tr mailboxes (t ∷ rest) c =
    observe_next_transition tr mailboxes t c >>= observe_next_transitions tr mailboxes rest

-- `program()`, and a coordinator of it.
abbrev pub no_program : Program
no_program = record { state_seq = no_states_yet; trace = []; next_steps = [] }

abbrev pub empty_coordinator : Coordinator
empty_coordinator = record { current_program_model = no_program; system_address_mapping = [] }

-- What is read, and the mailboxes, as a model.
unfoldable pub restore_recorded :
    Registry → (ℕ → Mailbox) → List Message → Coordinator → Result Coordinator
unfolding receive sort_by_id observe_runners observe_next_transitions
restore_recorded tr mailboxes messages c = do
  r ← receive messages (nothing_received c)
  let threads = sort_by_id r.recorded_threads
  with_runners ← observe_runners threads r.coordinator
  observe_next_transitions tr mailboxes threads with_runners

-- The callbacks that both functions set.
abbrev pub set_callbacks : Callbacks
set_callbacks = record {
  deadlock = true;
  trace_completed = true;
  abnormal_termination = true;
  nonzero_exit_code = true;
  undefined_behavior = true;
}

-- The search gets `fuel` rounds of its outer loop.
module _ {Live : Type 0} (source : ProcessSource Live) (config : Configuration) (fuel : ℕ) where
  unfoldable pub do_model_checking : Result (Option Outcome)
  unfolding starting_from_main
  do_model_checking = do
    p ← starting_from_main
    s ← start_session source (record { current_program_model = p; system_address_mapping = [] })
    ok (verify_using source config set_callbacks fuel s)

  unfoldable pub do_model_checking_from_dmtcp_ckpt_file :
      (ℕ → Mailbox) → List Message → Result (Option Outcome)
  unfolding restore_recorded
  do_model_checking_from_dmtcp_ckpt_file mailboxes messages = do
    s ← start_session source empty_coordinator
    live ← or_fail s.current_process_handle null_pointer
    c ← restore_recorded (default_registry (source.memory live)) mailboxes messages s.coordinator
    ok (verify_using source config set_callbacks fuel (record s { coordinator = c }))
