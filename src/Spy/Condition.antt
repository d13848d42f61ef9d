-- ===== src/Spy/Condition.antt =====
-- The wrappers of condition variables in src/lib/wrappers.c. They do not name EXTERNAL_THREAD.
use deep_debug.Prelude.{
  ℕ, zero, suc, ◌+◌, ◌%◌, ◌==◌, if◌then◌else◌, Option, none, some, is_empty, Result, ok, err, ◌>>=◌,
  or_fail, assertion_failed, null_pointer, [], ltb, ◌&&◌, not, any,
}
use deep_debug.Coordinator.TransitionType
use deep_debug.Coordinator.Registry.{pointer_size}
use deep_debug.Policy.{CondStatus, is_signaled}
use deep_debug.Spy.Record.{
  RecList, ConditionRecord, condition_variable, ThreadQueue, find_object, find_thread_record_mode,
  find_or_add, update_node, update_condition, is_in_thread_queue, enqueue_thread,
  get_thread_cv_state, update_thread_cv_state, get_waiting_thread_node, remove_thread_from_queue,
  cv_waiting_count, signal_all,
}
use deep_debug.Spy.{
  Mode, switch, writes_operation, libpthread_mutex_lock, libpthread_mutex_unlock,
  libpthread_cond_init, libpthread_cond_wait, libpthread_cond_timedwait, libpthread_cond_signal,
  libpthread_cond_broadcast, libpthread_cond_destroy, Wrapper, returns, aborts, unfinished, calls,
  under_lock, asks_restart_mode, writes, wakes_scheduler_and_waits, handles_restart, put, forwards,
  etimedout,
}

abbrev pub int_succ : ℕ → ℕ
int_succ n = (n + 1) % 4294967296

abbrev pub int_pred : ℕ → ℕ
int_pred n = (n + 4294967295) % 4294967296

abbrev pub new_condition_record : CondStatus → ℕ → Option ℕ → Option ThreadQueue → ConditionRecord
new_condition_record status thread mut queue = record {
  status = status;
  interacting_thread = thread;
  associated_mutex = mut;
  count = 0;
  waiting_threads = queue;
  prev_waiting_count = 0;
  lost_wakeups = 0;
}

abbrev pub write_condition :
    ℕ → (ConditionRecord → Result ConditionRecord) → RecList → Result (RecList × ℕ)
write_condition i f head = do changed ← update_node i (update_condition f) head; ok (changed, i)

abbrev pub queue_of : ConditionRecord → Result ThreadQueue
queue_of c = or_fail c.waiting_threads null_pointer

abbrev pub initialize_condition : ConditionRecord → Result ConditionRecord
initialize_condition c = ok (record c {
  status = CondStatus.initialized;
  interacting_thread = 0;
  associated_mutex = none;
  waiting_threads = some [];
  count = 0;
})

unfoldable pub mc_pthread_cond_init : Mode → ℕ → Wrapper
mc_pthread_cond_init mode addr = switch mode (record {
  before = forwards (libpthread_cond_init addr);
  external = aborts;
  recorded =
      under_lock
        (λ head. ok (
          find_or_add addr
            (condition_variable (new_condition_record CondStatus.uninitialized 0 none none)) head))
        (λ i. calls (libpthread_cond_init addr) (λ rc.
          if rc == 0
          then under_lock (write_condition i initialize_condition) (λ j. returns rc)
          else returns rc));
  restarted = writes_operation TransitionType.cond_init addr (handles_restart (returns 0));
  controlled =
      writes_operation TransitionType.cond_init addr (wakes_scheduler_and_waits (returns 0));
  otherwise = aborts;
})

-- The section before a recorded wait: the thread enters the outer waiting room.
unfoldable pub enter_waiting_room : ℕ → ℕ → ℕ → RecList → Result (RecList × ℕ)
enter_waiting_room this_thread addr mut head = do
  thrd_record ← or_fail (find_thread_record_mode this_thread head) null_pointer
  let tmp = thrd_record.id
  let added =
      find_or_add addr
        (condition_variable (new_condition_record CondStatus.initialized tmp (some mut) (some [])))
        head
  write_condition added.1
      (λ c. do
        queue ← queue_of c
        ok (record c {
          interacting_thread = tmp;
          waiting_threads = some (
              if is_in_thread_queue queue tmp
              then queue
              else enqueue_thread queue tmp CondStatus.prewaiting);
          associated_mutex = some mut;
          count = int_succ c.count;
        }))
      added.0

-- A signaled thread leaves the queue; another one is waiting now.
unfoldable pub leave_queue : ThreadQueue → ℕ → CondStatus → ConditionRecord → Result ConditionRecord
leave_queue queue tid cv_state c =
    if is_signaled cv_state
    then ok (record c {
      waiting_threads = some (remove_thread_from_queue queue tid);
      count = int_pred c.count;
    })
    else (do
      waiting ← update_thread_cv_state queue tid CondStatus.waiting
      ok (record c { waiting_threads = some waiting }))

-- The section after a recorded wait that the library has ended.
unfoldable pub leave_waiting_room : ℕ → ℕ → RecList → Result (RecList × ℕ)
leave_waiting_room this_thread i head = do
  thrd_record ← or_fail (find_thread_record_mode this_thread head) null_pointer
  write_condition i
      (λ c. do
        queue ← queue_of c
        cv_state ← get_thread_cv_state queue thrd_record.id
        leave_queue queue thrd_record.id cv_state c)
      head

-- `mb->type = type; memcpy_v(mb->cnts, &cond, ...); memcpy_v(mb->cnts + sizeof(cond), &mutex, ...)`
abbrev pub writes_wait : ℕ → ℕ → ℕ → Wrapper → Wrapper
writes_wait type addr mut next =
    writes_operation type addr (writes (put pointer_size pointer_size mut) next)

-- The second half of a wait, once the thread has been put into the queue.
abbrev pub second_half : ℕ → ℕ → Wrapper
second_half addr mut = calls (libpthread_mutex_unlock mut) (λ unlocked.
    writes_wait TransitionType.cond_wait addr mut
      (wakes_scheduler_and_waits (calls (libpthread_mutex_lock mut) (λ locked. returns 0))))

abbrev pub restarted_wait : ℕ → ℕ → Wrapper
restarted_wait addr mut =
    writes_wait TransitionType.cond_enqueue addr mut (handles_restart (second_half addr mut))

unfoldable pub cond_wait_rounds : ℕ → ℕ → ℕ → ℕ → ℕ → Wrapper
cond_wait_rounds zero this_thread addr mut i = unfinished
cond_wait_rounds (suc rounds) this_thread addr mut i =
    let again = cond_wait_rounds rounds this_thread addr mut i in
    calls (libpthread_cond_timedwait addr mut) (λ rc.
      if rc == 0
      then under_lock (leave_waiting_room this_thread i) (λ j. returns rc)
      else if rc == etimedout
      then asks_restart_mode (λ restart. if restart then restarted_wait addr mut else again)
      else returns rc)

unfoldable pub mc_pthread_cond_wait : ℕ → ℕ → Mode → ℕ → ℕ → Wrapper
mc_pthread_cond_wait rounds this_thread mode addr mut = switch mode (record {
  before = forwards (libpthread_cond_wait addr mut);
  external = aborts;
  recorded =
      under_lock (enter_waiting_room this_thread addr mut)
        (cond_wait_rounds rounds this_thread addr mut);
  restarted = restarted_wait addr mut;
  controlled =
      writes_wait TransitionType.cond_enqueue addr mut
        (wakes_scheduler_and_waits (second_half addr mut));
  otherwise = aborts;
})

-- The record of a condition variable to signal. A new one has the calling thread.
unfoldable pub find_or_add_condition : ℕ → ℕ → RecList → Result (RecList × ℕ)
find_or_add_condition this_thread addr head = elim (find_object addr head) [
  | some i ↦ ok (head, i)
  | none ↦ do
    thrd_record ← or_fail (find_thread_record_mode this_thread head) null_pointer
    ok (
        find_or_add addr
          (condition_variable
            (new_condition_record CondStatus.initialized thrd_record.id none (some [])))
          head)
]

unfoldable pub note_waiting : ℕ → ℕ → RecList → Result (RecList × ℕ)
note_waiting this_thread addr head = do
  found ← find_or_add_condition this_thread addr head
  write_condition found.1
      (λ c. do queue ← queue_of c; ok (record c { prev_waiting_count = cv_waiting_count queue }))
      found.0

-- The section after a recorded signal: the first waiting thread is signaled, or the wakeup is lost.
unfoldable pub mark_signaled : ConditionRecord → Result ConditionRecord
mark_signaled c = do
  queue ← queue_of c
  after ← elim (get_waiting_thread_node queue) [
    | none ↦ ok queue
    | some waiting ↦ update_thread_cv_state queue waiting CondStatus.signaled
  ]
  let any_thread_signaled = any (λ node. is_signaled node.1) after
  let lost =
      not any_thread_signaled && (ltb 0 c.prev_waiting_count && ltb c.prev_waiting_count 2147483648)
  ok (record c {
    waiting_threads = some after;
    lost_wakeups = if lost then int_succ c.lost_wakeups else c.lost_wakeups;
  })

unfoldable pub mc_pthread_cond_signal : ℕ → Mode → ℕ → Wrapper
mc_pthread_cond_signal this_thread mode addr = switch mode (record {
  before = forwards (libpthread_cond_signal addr);
  external = aborts;
  recorded = under_lock (note_waiting this_thread addr) (λ i.
      calls (libpthread_cond_signal addr) (λ rc.
        if rc == 0
        then under_lock (write_condition i mark_signaled) (λ j. returns rc)
        else returns rc));
  restarted = writes_operation TransitionType.cond_signal addr (handles_restart (returns 0));
  controlled =
      writes_operation TransitionType.cond_signal addr (wakes_scheduler_and_waits (returns 0));
  otherwise = aborts;
})

abbrev pub mark_all_signaled : ConditionRecord → Result ConditionRecord
mark_all_signaled c = do
  queue ← queue_of c
  after ← signal_all queue queue
  ok (record c { waiting_threads = some after })

unfoldable pub mc_pthread_cond_broadcast : ℕ → Mode → ℕ → Wrapper
mc_pthread_cond_broadcast this_thread mode addr = switch mode (record {
  before = forwards (libpthread_cond_broadcast addr);
  external = aborts;
  recorded = under_lock (find_or_add_condition this_thread addr) (λ i.
      calls (libpthread_cond_broadcast addr) (λ rc.
        if rc == 0
        then under_lock (write_condition i mark_all_signaled) (λ j. returns rc)
        else returns rc));
  restarted = writes_operation TransitionType.cond_broadcast addr (handles_restart (returns 0));
  controlled =
      writes_operation TransitionType.cond_broadcast addr (wakes_scheduler_and_waits (returns 0));
  otherwise = aborts;
})

-- The record of a condition variable to destroy: there is one, and no thread waits.
unfoldable pub find_idle : ℕ → RecList → Result (RecList × ℕ)
find_idle addr head = do
  i ← or_fail (find_object addr head) assertion_failed
  write_condition i
      (λ c. do queue ← queue_of c; (if is_empty queue then ok c else err assertion_failed)) head

unfoldable pub mc_pthread_cond_destroy : Mode → ℕ → Wrapper
mc_pthread_cond_destroy mode addr = switch mode (record {
  before = forwards (libpthread_cond_destroy addr);
  external = aborts;
  recorded = under_lock (find_idle addr) (λ i. calls (libpthread_cond_destroy addr) (λ rc.
      if rc == 0
      then under_lock (write_condition i (λ c. ok (record c { status = CondStatus.destroyed })))
          (λ j. returns rc)
      else returns rc));
  restarted = writes_operation TransitionType.cond_destroy addr (handles_restart (returns 0));
  controlled =
      writes_operation TransitionType.cond_destroy addr (wakes_scheduler_and_waits (returns 0));
  otherwise = aborts;
})
