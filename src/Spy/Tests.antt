-- ===== src/Spy/Tests.antt =====
-- Wrappers that announce their operations, and that record a mutex.
use deep_debug.Prelude.{refl, true, false, [], ◌∷◌, arith, replicate}
use deep_debug.Coordinator.Registry.{Mailbox}
use deep_debug.Spy.{target_branch, record_mode, returns}
use deep_debug.Spy.Record.{
  RecList, MutexStatus, ThreadStatus, mutex, thread, find_object, find_thread_record_mode,
  find_or_add, update_node,
}
use deep_debug.Spy.Mutex.{
  mc_pthread_mutex_lock, mc_pthread_mutex_unlock, find_recorded, lock_rounds,
}
use deep_debug.Objects.Mutex.{rid_invalid}
use deep_debug.Spy.Process.{record_thread}
use deep_debug.Spy.Announce.{Call, Caller, Announces, wrapper_of, cond_enqueue, cond_wait}
use deep_debug.Spy.Mailboxes.{wrapper_of-Announces}
use deep_debug.Spy.Distinct.{IsDistinct}
use deep_debug.Spy.Interleaving.{
  Runs, starts_thread, begins, section, answers, not_yet, then_step, Runs-IsDistinct, KeepsRecords,
  Runs-Stays,
}

abbrev caller : Caller
caller = record {
  rounds = 3;
  tid_self = 0;
  this_thread = 77;
  counted = 0;
  pthread_map = [];
  main_recorded = true;
  is_recreated = λ t. false;
}

abbrev empty_mailbox : Mailbox
empty_mailbox = record { type = 0; cnts = replicate 64 0 }

wrapper_of-Announces_example :
    Announces empty_mailbox
      (wrapper_of caller target_branch (Call.mc_pthread_cond_wait 4096 8192))
      (cond_enqueue 4096 8192 ∷ cond_wait 4096 8192 ∷ [])
wrapper_of-Announces_example =
    wrapper_of-Announces caller target_branch (Call.mc_pthread_cond_wait 4096 8192) empty_mailbox
      refl (omega arith, omega arith)

-- The main thread has locked a mutex.
abbrev recorded : RecList
recorded =
    record {
      location = 0;
      state = thread (record { pthread_desc = 77; id = 0; status = ThreadStatus.alive });
    }
    ∷ record { location = 4096; state = mutex (record { status = MutexStatus.locked; owner = 0 }) }
    ∷ []

recorded_run :
    Runs (record { head = []; running = [] }) (record { head = recorded; running = returns 0 ∷ [] })
unfolding record_thread find_thread_record_mode mc_pthread_mutex_lock lock_rounds find_or_add
    find_object update_node
recorded_run =
    then_step
      (then_step
        (then_step
          (then_step (then_step not_yet (starts_thread 77 0 0 _ refl))
            (begins 0 0 caller record_mode (Call.mc_pthread_mutex_lock 4096) refl))
          (section 0 1 _ _ _ refl refl))
        (answers 0 0 _ _ refl))
      (section 0 1 _ _ _ refl refl)

Runs-IsDistinct_example : IsDistinct recorded
Runs-IsDistinct_example =
    Runs-IsDistinct (record { head = recorded; running = returns 0 ∷ [] }) recorded_run

-- It then unlocks it.
abbrev released : RecList
released =
    record {
      location = 0;
      state = thread (record { pthread_desc = 77; id = 0; status = ThreadStatus.alive });
    }
    ∷ record {
      location = 4096;
      state = mutex (record { status = MutexStatus.unlocked; owner = rid_invalid });
    }
    ∷ []

unlocking :
    Runs
      (record { head = recorded; running = returns 0 ∷ [] })
      (record { head = released; running = returns 0 ∷ [] })
unfolding mc_pthread_mutex_unlock find_recorded find_object update_node
unlocking =
    then_step
      (then_step
        (then_step
          (then_step not_yet
            (begins 0 0 caller record_mode (Call.mc_pthread_mutex_unlock 4096) refl))
          (section 0 1 _ _ _ refl refl))
        (answers 0 0 _ _ refl))
      (section 0 1 _ _ _ refl refl)

Runs-Stays_example : KeepsRecords recorded released
Runs-Stays_example =
    Runs-Stays (record { head = recorded; running = returns 0 ∷ [] })
      (record { head = released; running = returns 0 ∷ [] }) recorded_run unlocking
