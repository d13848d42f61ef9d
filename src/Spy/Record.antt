-- ===== src/Spy/Record.antt =====
-- include/mcmini/spy/checkpointing/objects.h, the list of records of src/lib/record.c and the queue
-- of src/mcmini/Thread_queue.c. A pointer to a node of the list is its position: nodes are only
-- ever added, at the end.
use deep_debug.Prelude.{
  ℕ, suc, ◌+◌, ◌==◌, Bool, if◌then◌else◌, List, [], ◌∷◌, ◌++◌, Option, none, some, length,
  get_elem?, set, any, Result, ok, err, or_fail, ◌>>=◌, assertion_failed, out_of_bounds, bad_cast,
}
use deep_debug.Policy.{CondStatus, is_waiting}

pub data MutexStatus : Type 0 where
  uninitialized unlocked locked destroyed : MutexStatus

pub record MutexRecord : Type 0 where
  pub status : MutexStatus
  pub owner : ℕ

pub data ThreadStatus : Type 0 where
  alive exited : ThreadStatus

pub record ThreadRecord : Type 0 where
  pub pthread_desc : ℕ
  pub id : ℕ
  pub status : ThreadStatus

pub data SemaphoreStatus : Type 0 where
  uninitialized initialized destroyed : SemaphoreStatus

pub record SemaphoreRecord : Type 0 where
  pub count : ℕ
  pub status : SemaphoreStatus

-- `thread_queue`, from the front to the rear.
abbrev pub ThreadQueue : Type 0
ThreadQueue = List (ℕ × CondStatus)

pub record ConditionRecord : Type 0 where
  pub status : CondStatus
  pub interacting_thread : ℕ
  pub associated_mutex : Option ℕ
  pub count : ℕ
  pub waiting_threads : Option ThreadQueue
  pub prev_waiting_count : ℕ
  pub lost_wakeups : ℕ

-- The union of `visible_object`, with its tag.
pub data RecordedState : Type 0 where
  mutex : (mut_state : MutexRecord) → RecordedState
  semaphore : (sem_state : SemaphoreRecord) → RecordedState
  condition_variable : (cond_state : ConditionRecord) → RecordedState
  thread : (thrd_state : ThreadRecord) → RecordedState

pub record RecordedObject : Type 0 where
  pub location : ℕ
  pub state : RecordedState

abbrev pub RecList : Type 0
RecList = List RecordedObject

abbrev pub next_position : Option ℕ → Option ℕ
next_position none = none
next_position (some i) = some (suc i)

unfoldable pub find_object : ℕ → RecList → Option ℕ
find_object addr [] = none
find_object addr (node ∷ rest) =
    let later = next_position (find_object addr rest) in
    if node.location == addr then some 0 else later

unfoldable pub find_thread_record_mode : ℕ → RecList → Option ThreadRecord
find_thread_record_mode thrd [] = none
find_thread_record_mode thrd (node ∷ rest) = by_state node.state (find_thread_record_mode thrd rest)
  where
    by_state : RecordedState → Option ThreadRecord → Option ThreadRecord
    by_state (thread t) later = if thrd == t.pthread_desc then some t else later
    by_state _ later = later

abbrev pub add_rec_entry_record_mode : RecordedObject → RecList → RecList
add_rec_entry_record_mode vo head = head ++ vo ∷ []

-- The record of an object, which is added when there is none.
unfoldable pub find_or_add : ℕ → RecordedState → RecList → RecList × ℕ
find_or_add addr initial head = elim (find_object addr head) [
  | some i ↦ (head, i)
  | none ↦
      (add_rec_entry_record_mode (record { location = addr; state = initial }) head, length head)
]

-- Writing the state of a node: `f` answers for the member that the code reads. A write to a member
-- of the union that is not the one of the tag changes the bytes of the other one, which is left
-- out: the section does not end.
unfoldable pub update_node : ℕ → (RecordedState → Result RecordedState) → RecList → Result RecList
update_node i f head = do
  node ← or_fail (get_elem? head i) out_of_bounds
  state ← f node.state
  ok (set head i (record node { state = state }))

abbrev pub update_mutex : (MutexRecord → MutexRecord) → RecordedState → Result RecordedState
update_mutex f (mutex m) = ok (mutex (f m))
update_mutex f _ = err bad_cast

abbrev pub update_semaphore :
    (SemaphoreRecord → SemaphoreRecord) → RecordedState → Result RecordedState
update_semaphore f (semaphore s) = ok (semaphore (f s))
update_semaphore f _ = err bad_cast

abbrev pub update_condition :
    (ConditionRecord → Result ConditionRecord) → RecordedState → Result RecordedState
update_condition f (condition_variable c) = do changed ← f c; ok (condition_variable changed)
update_condition f _ = err bad_cast

abbrev pub is_in_thread_queue : ThreadQueue → ℕ → Bool
is_in_thread_queue queue tid = any (λ node. node.0 == tid) queue

abbrev pub enqueue_thread : ThreadQueue → ℕ → CondStatus → ThreadQueue
enqueue_thread queue tid cv_state = queue ++ (tid, cv_state) ∷ []

-- The process exits when the thread is not in the queue.
unfoldable pub get_thread_cv_state : ThreadQueue → ℕ → Result CondStatus
get_thread_cv_state [] tid = err assertion_failed
get_thread_cv_state (node ∷ rest) tid =
    let later = get_thread_cv_state rest tid in if node.0 == tid then ok node.1 else later

unfoldable pub update_thread_cv_state : ThreadQueue → ℕ → CondStatus → Result ThreadQueue
update_thread_cv_state [] tid new_state = err assertion_failed
update_thread_cv_state (node ∷ rest) tid new_state =
    let later = update_thread_cv_state rest tid new_state in
    if node.0 == tid
    then ok ((node.0, new_state) ∷ rest)
    else (do changed ← later; ok (node ∷ changed))

-- The first waiting thread; RID_INVALID is `none`.
unfoldable pub get_waiting_thread_node : ThreadQueue → Option ℕ
get_waiting_thread_node [] = none
get_waiting_thread_node (node ∷ rest) =
    let later = get_waiting_thread_node rest in if is_waiting node.1 then some node.0 else later

unfoldable pub remove_thread_from_queue : ThreadQueue → ℕ → ThreadQueue
remove_thread_from_queue [] tid = []
remove_thread_from_queue (node ∷ rest) tid =
    let later = remove_thread_from_queue rest tid in if node.0 == tid then rest else node ∷ later

-- The number of waiting threads.
unfoldable pub cv_waiting_count : ThreadQueue → ℕ
cv_waiting_count [] = 0
cv_waiting_count (node ∷ rest) =
    let later = cv_waiting_count rest in if is_waiting node.1 then later + 1 else later

-- The `while` loop of a broadcast. `update_thread_cv_state` marks the first node of the thread.
unfoldable pub signal_all : List (ℕ × CondStatus) → ThreadQueue → Result ThreadQueue
signal_all [] queue = ok queue
signal_all (node ∷ rest) queue =
    let skipped = signal_all rest queue in
    if is_waiting node.1
    then update_thread_cv_state queue node.0 CondStatus.signaled >>= signal_all rest
    else skipped
