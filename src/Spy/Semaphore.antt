-- ===== src/Spy/Semaphore.antt =====
-- The wrappers of semaphores in src/lib/sem-wrappers.c.
use deep_debug.Prelude.{
  ℕ, zero, suc, ◌+◌, ◌%◌, ◌==◌, if◌then◌else◌, Result, ok, ◌>>=◌, or_fail, assertion_failed,
}
use deep_debug.Coordinator.TransitionType
use deep_debug.Coordinator.Registry.{pointer_size, int_size}
use deep_debug.Spy.Record.{
  RecList, SemaphoreStatus, SemaphoreRecord, semaphore, find_object, find_or_add, update_node,
  update_semaphore,
}
use deep_debug.Spy.{
  Mode, switch, writes_operation, libpthread_sem_init, libpthread_sem_destroy, libpthread_sem_post,
  libpthread_sem_wait, libpthread_sem_timedwait, Wrapper, returns, aborts, unfinished, calls,
  under_lock, asks_restart_mode, writes, wakes_scheduler_and_waits, handles_restart, put, forwards,
  etimedout,
}

abbrev pub new_semaphore_record : SemaphoreRecord
new_semaphore_record = record { count = 0; status = SemaphoreStatus.uninitialized }

abbrev pub find_or_add_semaphore : ℕ → SemaphoreRecord → RecList → Result (RecList × ℕ)
find_or_add_semaphore addr initial head = ok (find_or_add addr (semaphore initial) head)

abbrev pub write_semaphore :
    ℕ → (SemaphoreRecord → SemaphoreRecord) → RecList → Result (RecList × ℕ)
write_semaphore i f head = do changed ← update_node i (update_semaphore f) head; ok (changed, i)

-- The whole record is written anew, after it has been found again.
abbrev pub rewrite_semaphore : ℕ → SemaphoreRecord → RecList → Result (RecList × ℕ)
rewrite_semaphore addr s head = do
  i ← or_fail (find_object addr head) assertion_failed
  changed ← update_node i (λ old. ok (semaphore s)) head
  ok (changed, i)

-- `is_in_restart_mode() ? thread_handle_after_dmtcp_restart() : thread_wake_scheduler_and_wait()`
abbrev pub hands_over : Wrapper → Wrapper
hands_over next =
    asks_restart_mode
      (λ restart. if restart then handles_restart next else wakes_scheduler_and_waits next)

abbrev pub announced : ℕ → ℕ → Wrapper → Wrapper
announced type addr next = writes_operation type addr (hands_over next)

unfoldable pub mc_sem_init : Mode → ℕ → ℕ → Wrapper
mc_sem_init mode addr count = switch mode (record {
  before = forwards (libpthread_sem_init addr count);
  external = forwards (libpthread_sem_init addr count);
  recorded = under_lock (find_or_add_semaphore addr new_semaphore_record) (λ i.
      calls (libpthread_sem_init addr count) (λ rc.
        if rc == 0
        then under_lock
            (rewrite_semaphore addr
              (record { count = count; status = SemaphoreStatus.initialized }))
            (λ j. returns rc)
        else returns rc));
  restarted = handed;
  controlled = handed;
  otherwise = aborts;
})
  where
    handed : Wrapper
    handed = writes_operation TransitionType.sem_init addr (
        writes (put pointer_size int_size count)
          (hands_over (forwards (libpthread_sem_init addr count))))

unfoldable pub mc_sem_destroy : Mode → ℕ → Wrapper
mc_sem_destroy mode addr = switch mode (record {
  before = forwards (libpthread_sem_destroy addr);
  external = forwards (libpthread_sem_destroy addr);
  recorded = under_lock (find_or_add_semaphore addr new_semaphore_record) (λ i.
      calls (libpthread_sem_destroy addr) (λ rc.
        if rc == 0
        then under_lock
            (rewrite_semaphore addr (record { count = 0; status = SemaphoreStatus.destroyed }))
            (λ j. returns rc)
        else returns rc));
  restarted = announced TransitionType.sem_destroy addr (forwards (libpthread_sem_destroy addr));
  controlled = announced TransitionType.sem_destroy addr (forwards (libpthread_sem_destroy addr));
  otherwise = aborts;
})

-- A semaphore that has no record gets one with what `sem_getvalue` answers, which is `counted`.
abbrev pub find_or_count : ℕ → ℕ → RecList → Result (RecList × ℕ)
find_or_count counted addr head =
    find_or_add_semaphore addr (record { count = counted; status = SemaphoreStatus.initialized })
      head

unfoldable pub mc_sem_post : ℕ → Mode → ℕ → Wrapper
mc_sem_post counted mode addr = switch mode (record {
  before = forwards (libpthread_sem_post addr);
  external = forwards (libpthread_sem_post addr);
  recorded = under_lock (find_or_count counted addr) (λ i. calls (libpthread_sem_post addr) (λ rc.
      if rc == 0
      then under_lock (write_semaphore i (λ s. record s { count = (s.count + 1) % 4294967296 }))
          (λ j. returns rc)
      else returns rc));
  restarted = announced TransitionType.sem_post addr (forwards (libpthread_sem_post addr));
  controlled = announced TransitionType.sem_post addr (forwards (libpthread_sem_post addr));
  otherwise = aborts;
})

-- The last call is that of `libpthread_sem_post`, as in the source.
abbrev pub handed_wait : ℕ → Wrapper
handed_wait addr = announced TransitionType.sem_wait addr (forwards (libpthread_sem_post addr))

-- The `while (1)` loop of a recorded wait, for `rounds` rounds at most.
unfoldable pub sem_wait_rounds : ℕ → ℕ → ℕ → Wrapper
sem_wait_rounds zero addr i = unfinished
sem_wait_rounds (suc rounds) addr i =
    let again = sem_wait_rounds rounds addr i in
    calls (libpthread_sem_timedwait addr) (λ rc.
      if rc == 0
      then under_lock
          (write_semaphore i (λ s. record s { count = (s.count + 4294967295) % 4294967296 }))
          (λ j. returns rc)
      else if rc == etimedout
      then asks_restart_mode (λ restart. if restart then handed_wait addr else again)
      else returns rc)

unfoldable pub mc_sem_wait : ℕ → ℕ → Mode → ℕ → Wrapper
mc_sem_wait rounds counted mode addr = switch mode (record {
  before = forwards (libpthread_sem_wait addr);
  external = forwards (libpthread_sem_wait addr);
  recorded = under_lock (find_or_count counted addr) (sem_wait_rounds rounds addr);
  restarted = handed_wait addr;
  controlled = handed_wait addr;
  otherwise = aborts;
})
