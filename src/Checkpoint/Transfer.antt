-- ===== src/Checkpoint/Transfer.antt =====
-- What is read from the pipe is what was recorded.
use deep_debug.Prelude.{
  ℕ, ◌==◌, ◌≡◌, ◌≢◌, ◌⊎◌, refl, sym, ap, ◌∙◌, subst, false, inl, inr, List, [], ◌∷◌, ◌++◌,
  append_assoc, append-nil, none, some, lookup, lookup-assign, assign, Result, ok, err, or_fail,
  or_fail-eq-ok, ◌>>=◌, >>=-eq-ok, null_pointer, arith,
}
use deep_debug.Coordinator.{Coordinator, observe_object}
use deep_debug.Spy.Record.{
  RecordedState, RecordedObject, RecList, ThreadRecord, ConditionRecord, ThreadQueue, mutex,
  semaphore, condition_variable, thread, find_object,
}
use deep_debug.Spy.Distinct.{IsDistinct, missing-cons}
use deep_debug.Checkpoint.{
  Message, unknown, object, waiters_queue, entry_messages, transfer_state, WaitingThreads,
  waiters_at, add_waiter, translate_state, translate_recorded_object_to_model, Received,
  receive_object, receive, nothing_received,
}

-- The waiters in the record itself.
abbrev pub own_waiters : RecordedState → ThreadQueue
own_waiters (condition_variable c) = elim c.waiting_threads [ some queue ↦ queue | none ↦ [] ]
own_waiters state = []

-- What the records say, without the pipe: every object but the threads, in their order.
unfoldable pub observe_record : RecordedObject → RecordedState → Coordinator → Result Coordinator
observe_record vo (thread t) c = ok c
observe_record vo state c = do
  o ← translate_state vo.location state (own_waiters state)
  observed ← observe_object vo.location o c
  ok observed.0

unfoldable pub observe_records : RecList → Coordinator → Result Coordinator
unfolding observe_record
observe_records [] c = ok c
observe_records (vo ∷ rest) c = observe_record vo vo.state c >>= observe_records rest

abbrev pub thread_of : RecordedState → List ThreadRecord
thread_of (thread t) = t ∷ []
thread_of state = []

unfoldable pub threads_of : RecList → List ThreadRecord
threads_of [] = []
threads_of (vo ∷ rest) = thread_of vo.state ++ threads_of rest

-- Only threads have no location.
abbrev pub HasLocation : RecordedObject → RecordedState → Type 0
HasLocation vo (thread t) = Unit {0}
HasLocation vo state = vo.location ≢ 0

abbrev pub HasLocations : RecList → Type 0
HasLocations [] = Unit {0}
HasLocations (vo ∷ rest) = HasLocation vo vo.state × HasLocations rest

-- Nothing is known of the recorded objects yet.
abbrev pub Fresh : {V : Type 0} → RecordedObject → RecordedState → List (ℕ × V) → Type 0
Fresh vo (thread t) cvs = Unit {0}
Fresh vo state cvs = lookup vo.location cvs ≡ none

abbrev pub AllFresh : {V : Type 0} → RecList → List (ℕ × V) → Type 0
AllFresh [] cvs = Unit {0}
AllFresh (vo ∷ rest) cvs = Fresh vo vo.state cvs × AllFresh rest cvs

-- The waiters of one location join the others.
add_waiters : ℕ → ThreadQueue → WaitingThreads → WaitingThreads
add_waiters location [] cvs = cvs
add_waiters location ((i, s) ∷ queue) cvs = add_waiters location queue (add_waiter location i s cvs)

waiters_at-assign :
    (location : ℕ) (queue : ThreadQueue) (cvs : WaitingThreads)
    → waiters_at location (assign location queue cvs) ≡ queue
waiters_at-assign location queue cvs = ground (arith, lookup-assign location location queue cvs)

waiters_at-add_waiters :
    (location : ℕ) (queue : ThreadQueue) (cvs : WaitingThreads)
    → waiters_at location (add_waiters location queue cvs) ≡ waiters_at location cvs ++ queue
unfolding add_waiters
waiters_at-add_waiters location [] cvs = sym (append-nil _)
waiters_at-add_waiters location ((i, s) ∷ queue) cvs =
    waiters_at-add_waiters location queue (add_waiter location i s cvs)
    ∙ ap (λ x. x ++ queue) (waiters_at-assign location _ cvs)
    ∙ append_assoc (waiters_at location cvs) ((i, s) ∷ []) queue

lookup-add_waiters :
    (location other : ℕ) (queue : ThreadQueue) (cvs : WaitingThreads)
    → (location == other) ≡ false
    → lookup other (add_waiters location queue cvs) ≡ lookup other cvs
unfolding add_waiters
lookup-add_waiters location other [] cvs miss = refl
lookup-add_waiters location other ((i, s) ∷ queue) cvs miss =
    lookup-add_waiters location other queue (add_waiter location i s cvs) miss
    ∙ lookup-assign location other (waiters_at location cvs ++ (i, s) ∷ []) cvs
    ∙ rw miss refl

receive-waiters_queue :
    (location : ℕ) (queue : ThreadQueue) (messages : List Message) (r : Received)
    → receive (waiters_queue location queue ++ messages) r
      ≡ receive messages
          (record r { cv_waiting_threads = add_waiters location queue r.cv_waiting_threads })
unfolding receive waiters_queue add_waiters
receive-waiters_queue location [] messages r = refl
receive-waiters_queue location ((i, s) ∷ queue) messages r =
    receive-waiters_queue location queue messages
      (record r { cv_waiting_threads = add_waiter location i s r.cv_waiting_threads })

-- A change of the received state waits for the coordinator.
after_observing :
    (m : Result (Coordinator × ℕ)) (g : Coordinator → Received) (k : Received → Result Received)
    → ((m >>= λ x. ok (g x.0)) >>= k) ≡ ((m >>= λ x. ok x.0) >>= λ c. k (g c))
after_observing (ok x) g k = refl
after_observing (err e) g k = refl

abbrev with_thread : RecordedState → List ThreadRecord → List ThreadRecord
with_thread (thread t) threads = threads ++ t ∷ []
with_thread state threads = threads

abbrev reading : RecordedState → WaitingThreads → Received → Coordinator → Received
reading state cvs r c = record {
  coordinator = c;
  recorded_threads = with_thread state r.recorded_threads;
  cv_waiting_threads = cvs;
}

-- Reading what one record has sent observes the record, and leaves the waiters elsewhere.
abbrev Reads : RecordedObject → RecordedState → List Message → List Message → Received → Type 0
Reads vo state first messages r =
    (cvs : WaitingThreads) × (receive (first ++ messages) r
      ≡ (observe_record vo state r.coordinator >>= λ c. receive messages (reading state cvs r c)))
    × ((other : ℕ)
        → (vo.location == other) ≡ false
        → lookup other cvs ≡ lookup other r.cv_waiting_threads)

receive-condition :
    (vo : RecordedObject) (c : ConditionRecord) (queue : ThreadQueue) (messages : List Message)
    (r : Received)
    → vo.state ≡ condition_variable c
    → c.waiting_threads ≡ some queue
    → lookup vo.location r.cv_waiting_threads ≡ none
    → receive ((waiters_queue vo.location queue ++ object vo ∷ []) ++ messages) r ≡ (
        observe_record vo (condition_variable c) r.coordinator >>= λ d.
        receive messages
          (reading (condition_variable c) (add_waiters vo.location queue r.cv_waiting_threads) r d))
unfolding receive receive_object observe_record translate_recorded_object_to_model
receive-condition vo c queue messages r e own fresh =
    let cvs = add_waiters vo.location queue r.cv_waiting_threads in
    let heard : waiters_at vo.location cvs ≡ queue =
      waiters_at-add_waiters vo.location queue r.cv_waiting_threads
      ∙ ap (λ x. elim x as (λ y. ThreadQueue) [ some q ↦ q | none ↦ [] ] ++ queue) fresh in
    ap (λ x. receive x r) (append_assoc (waiters_queue vo.location queue) (object vo ∷ []) messages)
    ∙ receive-waiters_queue vo.location queue (object vo ∷ messages) r
    ∙ rw (e, heard, own)
        (after_observing _ (reading (condition_variable c) cvs r) (receive messages))

receive-entry_messages :
    (vo : RecordedObject) (state : RecordedState) (first messages : List Message) (r : Received)
    → vo.state ≡ state
    → entry_messages vo state ≡ ok first
    → Fresh vo state r.cv_waiting_threads
    → Reads vo state first messages r
unfolding entry_messages receive receive_object observe_record translate_recorded_object_to_model
receive-entry_messages vo (thread t) first messages r e h fresh =
    let sent : object vo ∷ [] ≡ first = cc h in
    (r.cv_waiting_threads, rw (← sent, e) refl, λ other miss. refl)
receive-entry_messages vo (mutex m) first messages r e h fresh =
    let sent : object vo ∷ [] ≡ first = cc h in
    (
      r.cv_waiting_threads,
      rw (← sent, e)
          (after_observing _ (reading (mutex m) r.cv_waiting_threads r) (receive messages)),
      λ other miss. refl,
    )
receive-entry_messages vo (semaphore s) first messages r e h fresh =
    let sent : object vo ∷ [] ≡ first = cc h in
    (
      r.cv_waiting_threads,
      rw (← sent, e)
          (after_observing _ (reading (semaphore s) r.cv_waiting_threads r) (receive messages)),
      λ other miss. refl,
    )
receive-entry_messages vo (condition_variable c) first messages r e h fresh =
    let (queue, found, made) = >>=-eq-ok (or_fail c.waiting_threads null_pointer) _ h in
    let sent : waiters_queue vo.location queue ++ object vo ∷ [] ≡ first = cc made in
    let own : c.waiting_threads ≡ some queue = or_fail-eq-ok c.waiting_threads null_pointer found in
    subst (λ x. Reads vo (condition_variable c) x messages r) sent
      (
        add_waiters vo.location queue r.cv_waiting_threads,
        receive-condition vo c queue messages r e own fresh,
        λ other miss. lookup-add_waiters vo.location other queue r.cv_waiting_threads miss,
      )

-- What is known of one location is not about the other records.
other-Fresh :
    {V : Type 0} (location : ℕ) (vo : RecordedObject) (state : RecordedState)
    (cvs later : List (ℕ × V))
    → HasLocation vo state
    → (location ≡ 0) ⊎ ((vo.location == location) ≡ false)
    → ((other : ℕ) → (location == other) ≡ false → lookup other later ≡ lookup other cvs)
    → Fresh vo state cvs
    → Fresh vo state later
other-Fresh location vo (thread t) cvs later placed apart same fresh = tt
other-Fresh location vo (mutex m) cvs later placed apart same fresh =
    same vo.location (ground arith) ∙ fresh
other-Fresh location vo (semaphore s) cvs later placed apart same fresh =
    same vo.location (ground arith) ∙ fresh
other-Fresh location vo (condition_variable c) cvs later placed apart same fresh =
    same vo.location (ground arith) ∙ fresh

pub others-AllFresh :
    {V : Type 0} (location : ℕ) (rest : RecList) (cvs later : List (ℕ × V))
    → HasLocations rest
    → (location ≡ 0) ⊎ (find_object location rest ≡ none)
    → ((other : ℕ) → (location == other) ≡ false → lookup other later ≡ lookup other cvs)
    → AllFresh rest cvs
    → AllFresh rest later
others-AllFresh location [] cvs later placed apart same fresh = tt
others-AllFresh location (vo ∷ rest) cvs later (here, placed) (inl nowhere) same (first, fresh) = (
  other-Fresh location vo vo.state cvs later here (inl nowhere) same first,
  others-AllFresh location rest cvs later placed (inl nowhere) same fresh,
)
others-AllFresh location (vo ∷ rest) cvs later (here, placed) (inr missing) same (first, fresh) =
    let (differs, others) = missing-cons location vo rest missing in
    (
      other-Fresh location vo vo.state cvs later here (inr differs) same first,
      others-AllFresh location rest cvs later placed (inr others) same fresh,
    )

with_thread-append :
    (state : RecordedState) (threads later : List ThreadRecord)
    → with_thread state threads ++ later ≡ threads ++ (thread_of state ++ later)
with_thread-append (thread t) threads later = append_assoc threads (t ∷ []) later
with_thread-append (mutex m) threads later = refl
with_thread-append (semaphore s) threads later = refl
with_thread-append (condition_variable c) threads later = refl

-- What is kept of the received state.
abbrev pub outcome_of : Received → Result (Coordinator × List ThreadRecord)
outcome_of r = ok (r.coordinator, r.recorded_threads)

after_record :
    (m : Result Coordinator) (f : Coordinator → Result Received)
    (g : Coordinator → Result (Coordinator × List ThreadRecord))
    → ((c : Coordinator) → (f c >>= outcome_of) ≡ g c)
    → ((m >>= f) >>= outcome_of) ≡ (m >>= g)
after_record (ok c) f g h = h c
after_record (err e) f g h = refl

bind_assoc :
    (m : Result Coordinator) (f : Coordinator → Result Coordinator)
    (g : Coordinator → Result (Coordinator × List ThreadRecord))
    → (m >>= λ c. f c >>= g) ≡ ((m >>= f) >>= g)
bind_assoc (ok c) f g = refl
bind_assoc (err e) f g = refl

receives :
    (head : RecList) (messages : List Message) (r : Received)
    → IsDistinct head
    → HasLocations head
    → AllFresh head r.cv_waiting_threads
    → transfer_state head ≡ ok messages
    → (receive messages r >>= outcome_of)
      ≡ (observe_records head r.coordinator >>= λ c. ok (c, r.recorded_threads ++ threads_of head))
unfolding transfer_state receive observe_records threads_of
receives [] messages r distinct placed fresh h =
    let sent : unknown ∷ [] ≡ messages = cc h in
    rw (← sent) (rw (append-nil r.recorded_threads) refl)
receives (vo ∷ head) messages r (apart, distinct) (here, placed) (first, fresh) h =
    let (own, said, h₁) = >>=-eq-ok (entry_messages vo vo.state) _ h in
    let (later, others, made) = >>=-eq-ok (transfer_state head) _ h₁ in
    let sent : own ++ later ≡ messages = cc made in
    let (cvs, reads, same) = receive-entry_messages vo vo.state own later r refl said first in
    let still = others-AllFresh vo.location head r.cv_waiting_threads cvs placed apart same fresh in
    ap (λ x. receive x r >>= outcome_of) (sym sent)
    ∙ ap (λ x. x >>= outcome_of) reads
    ∙ after_record _ _ _ (λ c.
      receives head later (reading vo.state cvs r c) distinct placed still others
      ∙ ap (λ x. observe_records head c >>= λ d. ok (d, x))
          (with_thread-append vo.state r.recorded_threads (threads_of head)))
    ∙ bind_assoc (observe_record vo vo.state r.coordinator) (observe_records head)
        (λ d. ok (d, r.recorded_threads ++ (thread_of vo.state ++ threads_of head)))

pub nothing-AllFresh : (V : Type 0) (head : RecList) → AllFresh {V = V} head []
nothing-AllFresh V [] = tt
nothing-AllFresh V (vo ∷ rest) = (of_state vo.state, nothing-AllFresh V rest)
  where
    of_state : (state : RecordedState) → Fresh {V = V} vo state []
    of_state (thread t) = tt
    of_state (mutex m) = refl
    of_state (semaphore s) = refl
    of_state (condition_variable c) = refl

-- When no two records are of the same object, only threads have no location, and every condition
-- variable has its queue so that the records can be sent, reading what the template thread sends
-- observes every recorded object but the threads, in the order of the records and a condition
-- variable with the waiters of its own queue, fails just where that fails, and leaves the recorded
-- threads in their order.
pub receive-transfer_state :
    (head : RecList) (messages : List Message) (c : Coordinator)
    → IsDistinct head
    → HasLocations head
    → transfer_state head ≡ ok messages
    → (receive messages (nothing_received c) >>= outcome_of)
      ≡ (observe_records head c >>= λ d. ok (d, threads_of head))
receive-transfer_state head messages c distinct placed sent =
    receives head messages (nothing_received c) distinct placed (nothing-AllFresh _ head) sent
