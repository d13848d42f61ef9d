-- ===== src/Spy/Mutex.antt =====
-- The wrappers of mutexes in src/lib/wrappers.c. ThreadSanitizer's annotations do nothing to the
-- state and are left out, and so are attributes.
use deep_debug.Prelude.{
  ℕ, zero, suc, ◌==◌, if◌then◌else◌, none, some, Result, ok, err, ◌>>=◌, assertion_failed,
}
use deep_debug.Coordinator.TransitionType
use deep_debug.Objects.Mutex.{rid_invalid}
use deep_debug.Spy.Record.{
  RecList, MutexStatus, MutexRecord, mutex, find_object, find_or_add, update_node, update_mutex,
}
use deep_debug.Spy.{
  Mode, switch, writes_operation, libpthread_mutex_init, libpthread_mutex_lock,
  libpthread_mutex_timedlock, libpthread_mutex_unlock, Wrapper, returns, aborts, unfinished, calls,
  under_lock, asks_restart_mode, wakes_scheduler_and_waits, handles_restart, forwards, etimedout,
}

abbrev pub new_mutex_record : MutexRecord
new_mutex_record = record { status = MutexStatus.uninitialized; owner = rid_invalid }

-- `find_object_record_mode`, and `add_rec_entry_record_mode` where that finds nothing.
abbrev pub find_or_add_mutex : ℕ → RecList → Result (RecList × ℕ)
find_or_add_mutex addr head = ok (find_or_add addr (mutex new_mutex_record) head)

abbrev pub write_mutex : ℕ → (MutexRecord → MutexRecord) → RecList → Result (RecList × ℕ)
write_mutex i f head = do changed ← update_node i (update_mutex f) head; ok (changed, i)

unfoldable pub mc_pthread_mutex_init : Mode → ℕ → Wrapper
mc_pthread_mutex_init mode addr = switch mode (record {
  before = forwards (libpthread_mutex_init addr);
  external = forwards (libpthread_mutex_init addr);
  recorded = under_lock (find_or_add_mutex addr) (λ i. calls (libpthread_mutex_init addr) (λ rc.
      if rc == 0
      then under_lock (write_mutex i (λ m. record m { status = MutexStatus.unlocked }))
          (λ j. returns rc)
      else returns rc));
  restarted =
      writes_operation TransitionType.mutex_init addr
        (handles_restart (forwards (libpthread_mutex_init addr)));
  controlled =
      writes_operation TransitionType.mutex_init addr
        (wakes_scheduler_and_waits (forwards (libpthread_mutex_init addr)));
  otherwise = aborts;
})

abbrev pub restarted_lock : ℕ → Wrapper
restarted_lock addr =
    writes_operation TransitionType.mutex_lock addr
      (handles_restart (forwards (libpthread_mutex_lock addr)))

-- The `while (1)` loop of a recorded lock, for `rounds` rounds at most.
unfoldable pub lock_rounds : ℕ → ℕ → ℕ → ℕ → Wrapper
lock_rounds zero tid_self addr i = unfinished
lock_rounds (suc rounds) tid_self addr i =
    let again = lock_rounds rounds tid_self addr i in
    calls (libpthread_mutex_timedlock addr) (λ rc.
      if rc == 0
      then under_lock
          (write_mutex i (λ m. record m { status = MutexStatus.locked; owner = tid_self }))
          (λ j. returns rc)
      else if rc == etimedout
      then asks_restart_mode (λ restart. if restart then restarted_lock addr else again)
      else returns rc)

unfoldable pub mc_pthread_mutex_lock : ℕ → ℕ → Mode → ℕ → Wrapper
mc_pthread_mutex_lock rounds tid_self mode addr = switch mode (record {
  before = forwards (libpthread_mutex_lock addr);
  external = forwards (libpthread_mutex_lock addr);
  recorded = under_lock (find_or_add_mutex addr) (lock_rounds rounds tid_self addr);
  restarted = restarted_lock addr;
  controlled =
      writes_operation TransitionType.mutex_lock addr
        (wakes_scheduler_and_waits (forwards (libpthread_mutex_lock addr)));
  otherwise = aborts;
})

-- The record of an object that must have one, or the process aborts.
unfoldable pub find_recorded : ℕ → RecList → Result (RecList × ℕ)
find_recorded addr head = elim (find_object addr head) [
  | none ↦ err assertion_failed
  | some i ↦ ok (head, i)
]

unfoldable pub mc_pthread_mutex_unlock : Mode → ℕ → Wrapper
mc_pthread_mutex_unlock mode addr = switch mode (record {
  before = forwards (libpthread_mutex_unlock addr);
  external = forwards (libpthread_mutex_unlock addr);
  recorded = under_lock (find_recorded addr) (λ i. calls (libpthread_mutex_unlock addr) (λ rc.
      if rc == 0
      then under_lock
          (write_mutex i (λ m. record m { status = MutexStatus.unlocked; owner = rid_invalid }))
          (λ j. returns rc)
      else returns rc));
  restarted =
      writes_operation TransitionType.mutex_unlock addr
        (handles_restart (forwards (libpthread_mutex_unlock addr)));
  controlled =
      writes_operation TransitionType.mutex_unlock addr
        (wakes_scheduler_and_waits (forwards (libpthread_mutex_unlock addr)));
  otherwise = aborts;
})
