-- ===== src/Checkpoint/Tests.antt =====
-- The main thread locks a mutex and begins to wait on a condition variable when the checkpoint is
-- taken.
use deep_debug.Prelude.{
  ℕ, ◌≡◌, refl, false, true, List, [], ◌∷◌, some, ok, ◌>>=◌, arith, contains, or_fail, null_pointer,
}
use deep_debug.Policy.{CondStatus}
use deep_debug.Coordinator.{Coordinator, observe_runner_transition}
use deep_debug.Coordinator.TransitionType
use deep_debug.Coordinator.Registry.{Mailbox, Memory, default_registry}
use deep_debug.Spy.{record_mode, bytes}
use deep_debug.Spy.Record.{
  RecList, MutexStatus, ThreadStatus, mutex, thread, condition_variable, find_object,
  find_thread_record_mode, find_or_add, update_node, enqueue_thread, is_in_thread_queue,
}
use deep_debug.Spy.Mutex.{mc_pthread_mutex_lock, lock_rounds}
use deep_debug.Spy.Condition.{mc_pthread_cond_wait, enter_waiting_room, cond_wait_rounds}
use deep_debug.Spy.Process.{record_thread}
use deep_debug.Spy.Announce.{Call, Caller}
use deep_debug.Spy.Interleaving.{
  Threads, Runs, starts_thread, begins, section, answers, not_yet, then_step, Runs-IsDistinct,
}
use deep_debug.Checkpoint.{
  Message, unknown, object, cv_waiters_queue, transfer_state, entry_messages, waiters_queue,
  empty_coordinator, nothing_received, receive, sort_by_id, observe_next_transition,
  next_transition,
}
use deep_debug.Checkpoint.Transfer.{threads_of, observe_records, outcome_of, receive-transfer_state}
use deep_debug.Objects.ConditionVariable.{CondState, restored_condition_variable, waiter_can_exit}
use deep_debug.Checkpoint.Waiters.{restored_condition_variable-waiters}
use deep_debug.Checkpoint.Recorded.{Restores, Runs-Restores}
use deep_debug.Checkpoint.Pending.{observe_next_transition-unguarded}

abbrev caller : Caller
caller = record {
  rounds = 3;
  tid_self = 0;
  this_thread = 77;
  counted = 0;
  pthread_map = [];
  main_recorded = true;
  is_recreated = λ t. false;
}

abbrev waiting : RecList
waiting =
    record {
      location = 0;
      state = thread (record { pthread_desc = 77; id = 0; status = ThreadStatus.alive });
    }
    ∷ record { location = 4096; state = mutex (record { status = MutexStatus.locked; owner = 0 }) }
    ∷ record {
      location = 8192;
      state = condition_variable (record {
        status = CondStatus.initialized;
        interacting_thread = 0;
        associated_mutex = some 4096;
        count = 1;
        waiting_threads = some ((0, CondStatus.prewaiting) ∷ []);
        prev_waiting_count = 0;
        lost_wakeups = 0;
      });
    }
    ∷ []

waiting_threads : Threads
waiting_threads = record { head = waiting; running = cond_wait_rounds 3 77 8192 4096 2 ∷ [] }

waiting_run : Runs (record { head = []; running = [] }) waiting_threads
unfolding waiting_threads record_thread find_thread_record_mode mc_pthread_mutex_lock lock_rounds
    find_or_add find_object update_node mc_pthread_cond_wait enter_waiting_room enqueue_thread
    is_in_thread_queue
waiting_run =
    then_step
      (then_step
        (then_step
          (then_step
            (then_step
              (then_step (then_step not_yet (starts_thread 77 0 0 _ refl))
                (begins 0 0 caller record_mode (Call.mc_pthread_mutex_lock 4096) refl))
              (section 0 1 _ _ _ refl refl))
            (answers 0 0 _ _ refl))
          (section 0 1 _ _ _ refl refl))
        (begins 0 0 caller record_mode (Call.mc_pthread_cond_wait 8192 4096) refl))
      (section 0 2 _ _ _ refl refl)

abbrev sent : List Message
sent =
    object (record {
      location = 0;
      state = thread (record { pthread_desc = 77; id = 0; status = ThreadStatus.alive });
    })
    ∷ object (record {
      location = 4096;
      state = mutex (record { status = MutexStatus.locked; owner = 0 });
    })
    ∷ cv_waiters_queue 8192 0 CondStatus.prewaiting
    ∷ object (record {
      location = 8192;
      state = condition_variable (record {
        status = CondStatus.initialized;
        interacting_thread = 0;
        associated_mutex = some 4096;
        count = 1;
        waiting_threads = some ((0, CondStatus.prewaiting) ∷ []);
        prev_waiting_count = 0;
        lost_wakeups = 0;
      });
    })
    ∷ unknown
    ∷ []

waiting-sent : transfer_state waiting ≡ ok sent
unfolding transfer_state entry_messages waiters_queue
waiting-sent = refl

Runs-Restores_example : (d : Coordinator) × Restores waiting sent d
unfolding waiting_threads sort_by_id threads_of
Runs-Restores_example =
    Runs-Restores waiting_threads sent waiting_run (tt, (omega arith, (omega arith, tt)))
      waiting-sent (refl, tt) (omega arith)

receive-transfer_state_example :
    (receive sent (nothing_received empty_coordinator) >>= outcome_of)
    ≡ (observe_records waiting empty_coordinator >>= λ d. ok (d, threads_of waiting))
unfolding waiting_threads
receive-transfer_state_example =
    receive-transfer_state waiting sent empty_coordinator
      (Runs-IsDistinct waiting_threads waiting_run) (tt, (omega arith, (omega arith, tt)))
      waiting-sent

-- The thread is about to lock a mutex that has not been recorded.
abbrev memory : Memory
memory = record {
  remote_mutex_is_static_initializer = λ a. true;
  remote_cond_is_static_initializer = λ a. false;
}

abbrev about_to_lock : ℕ → Mailbox
about_to_lock p = record { type = TransitionType.mutex_lock; cnts = bytes 8 12288 }

observe_next_transition-unguarded_example :
    observe_next_transition
      (default_registry memory)
      about_to_lock
      (record { pthread_desc = 77; id = 0; status = ThreadStatus.alive })
      empty_coordinator
    ≡ (next_transition
          (default_registry memory)
          about_to_lock
          (record { pthread_desc = 77; id = 0; status = ThreadStatus.alive })
          ThreadStatus.alive
          empty_coordinator
        >>= λ r. or_fail r.1 null_pointer >>= λ next. ok (observe_runner_transition next r.0))
observe_next_transition-unguarded_example =
    observe_next_transition-unguarded (default_registry memory) about_to_lock
      (record { pthread_desc = 77; id = 0; status = ThreadStatus.alive }) empty_coordinator

-- One thread has been signaled, another waits.
restored_condition_variable-waiters_example :
    (waiter_can_exit 1 (
        restored_condition_variable CondState.cv_signaled 1 4096 2
          ((1, CondStatus.signaled) ∷ (2, CondStatus.waiting) ∷ []))
      ≡ true)
    × (contains 1
          (restored_condition_variable CondState.cv_signaled 1 4096 2
            ((1, CondStatus.signaled) ∷ (2, CondStatus.waiting) ∷ [])).policy.wait_queue
        ≡ false)
restored_condition_variable-waiters_example =
    restored_condition_variable-waiters CondState.cv_signaled 1 4096 2 1
      ((1, CondStatus.signaled) ∷ (2, CondStatus.waiting) ∷ [])
