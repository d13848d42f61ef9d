-- ===== src/Spy/Mailboxes.antt =====
-- A wrapper that is under control announces its operations.
use deep_debug.Prelude.{◌≡◌, refl, true, false, [], ◌∷◌}
use deep_debug.Coordinator.TransitionType
use deep_debug.Coordinator.Registry.{Mailbox, pointer_size, int_size}
use deep_debug.Spy.{Mode, put, set_type}
use deep_debug.Spy.Announce.{
  mutex_init, mutex_lock, mutex_unlock, sem_init, sem_destroy, sem_post, sem_wait, cond_init,
  cond_enqueue, cond_wait, cond_signal, cond_broadcast, cond_destroy, process_exit, process_abort,
  thread_exit, Decodes, Announces, Call, Caller, wrapper_of, operations_of, Fits, is_under_control,
  ending,
}
use deep_debug.Spy.Decoding.{
  mutex_init-Decodes, mutex_lock-Decodes, mutex_unlock-Decodes, sem_init-Decodes,
  sem_destroy-Decodes, sem_post-Decodes, sem_wait-Decodes, cond_init-Decodes, cond_enqueue-Decodes,
  cond_wait-Decodes, cond_signal-Decodes, cond_broadcast-Decodes, cond_destroy-Decodes,
  process_exit-Decodes, process_abort-Decodes, thread_create-Decodes, thread_exit-Decodes, written,
  written-At, written_twice-At, written_count-At, written_status,
}
use deep_debug.Spy.Mutex.{mc_pthread_mutex_init, mc_pthread_mutex_lock, mc_pthread_mutex_unlock}
use deep_debug.Spy.Semaphore.{mc_sem_init, mc_sem_destroy, mc_sem_post, mc_sem_wait}
use deep_debug.Spy.Condition.{
  mc_pthread_cond_init, mc_pthread_cond_wait, mc_pthread_cond_signal, mc_pthread_cond_broadcast,
  mc_pthread_cond_destroy,
}
use deep_debug.Spy.Process.{mc_transparent_exit, mc_transparent_abort}
use deep_debug.Spy.Thread.{
  mc_pthread_create, mc_pthread_exit, mc_sleep, begins_routine, ends_routine,
}
use deep_debug.Spy.{Mode}
use deep_debug.Spy.Announcing.{
  switch_under_control, hands_over-Announces, one_operation, under_control_mode, join-Announces,
  mc_exit_thread_in_child-Announces, exit-Announces,
}

-- Whenever the model checker has control or is about to get it after a restart, a wrapper whose
-- arguments fit their types hands over once for each of its operations, in their order, and the
-- callback that is registered for the mailbox it has written then makes of it what the callback of
-- that operation makes of those arguments, whatever the library calls answer.
pub wrapper_of-Announces :
    (r : Caller) (mode : Mode) (call : Call) (mb : Mailbox)
    → is_under_control mode ≡ true
    → Fits r call
    → Announces mb (wrapper_of r mode call) (operations_of r mode call)
unfolding mc_pthread_mutex_init mc_pthread_mutex_lock mc_pthread_mutex_unlock mc_sem_init
    mc_sem_destroy mc_sem_post mc_sem_wait mc_pthread_cond_init mc_pthread_cond_wait
    mc_pthread_cond_signal mc_pthread_cond_broadcast mc_pthread_cond_destroy mc_transparent_exit
    mc_transparent_abort mc_pthread_create mc_pthread_exit mc_sleep begins_routine ends_routine
wrapper_of-Announces r mode (Call.mc_pthread_mutex_init a) mb h fits =
    let decodes = mutex_init-Decodes a _ (written-At TransitionType.mutex_init a mb fits) in
    one_operation mode _ mb (mutex_init a) h (decodes, λ rc. refl) (decodes, λ rc. refl)
wrapper_of-Announces r mode (Call.mc_pthread_mutex_lock a) mb h fits =
    let decodes = mutex_lock-Decodes a _ (written-At TransitionType.mutex_lock a mb fits) in
    one_operation mode _ mb (mutex_lock a) h (decodes, λ rc. refl) (decodes, λ rc. refl)
wrapper_of-Announces r mode (Call.mc_pthread_mutex_unlock a) mb h fits =
    let decodes = mutex_unlock-Decodes a _ (written-At TransitionType.mutex_unlock a mb fits) in
    one_operation mode _ mb (mutex_unlock a) h (decodes, λ rc. refl) (decodes, λ rc. refl)
wrapper_of-Announces r mode (Call.mc_pthread_cond_init a) mb h fits =
    let decodes = cond_init-Decodes a _ (written-At TransitionType.cond_init a mb fits) in
    one_operation mode _ mb (cond_init a) h (decodes, refl) (decodes, refl)
wrapper_of-Announces r mode (Call.mc_pthread_cond_signal a) mb h fits =
    let decodes = cond_signal-Decodes a _ (written-At TransitionType.cond_signal a mb fits) in
    one_operation mode _ mb (cond_signal a) h (decodes, refl) (decodes, refl)
wrapper_of-Announces r mode (Call.mc_pthread_cond_broadcast a) mb h fits =
    let decodes = cond_broadcast-Decodes a _ (written-At TransitionType.cond_broadcast a mb fits) in
    one_operation mode _ mb (cond_broadcast a) h (decodes, refl) (decodes, refl)
wrapper_of-Announces r mode (Call.mc_pthread_cond_destroy a) mb h fits =
    let decodes = cond_destroy-Decodes a _ (written-At TransitionType.cond_destroy a mb fits) in
    one_operation mode _ mb (cond_destroy a) h (decodes, refl) (decodes, refl)
wrapper_of-Announces r mode (Call.mc_sem_destroy a) mb h fits =
    let announces =
      hands_over-Announces (written TransitionType.sem_destroy a mb) _ (sem_destroy a) []
        (sem_destroy-Decodes a _ (written-At TransitionType.sem_destroy a mb fits)) (λ rc. refl) in
    one_operation mode _ mb (sem_destroy a) h announces announces
wrapper_of-Announces r mode (Call.mc_sem_post a) mb h fits =
    let announces =
      hands_over-Announces (written TransitionType.sem_post a mb) _ (sem_post a) []
        (sem_post-Decodes a _ (written-At TransitionType.sem_post a mb fits)) (λ rc. refl) in
    one_operation mode _ mb (sem_post a) h announces announces
wrapper_of-Announces r mode (Call.mc_sem_wait a) mb h fits =
    let announces =
      hands_over-Announces (written TransitionType.sem_wait a mb) _ (sem_wait a) []
        (sem_wait-Decodes a _ (written-At TransitionType.sem_wait a mb fits)) (λ rc. refl) in
    one_operation mode _ mb (sem_wait a) h announces announces
wrapper_of-Announces r mode (Call.mc_sem_init a count) mb h (fits, fits') =
    let (at_a, at_count) = written_count-At TransitionType.sem_init a count mb fits fits' in
    let announces =
      hands_over-Announces (put pointer_size int_size count (written TransitionType.sem_init a mb))
        _ (sem_init a count) [] (sem_init-Decodes a count _ at_a at_count) (λ rc. refl) in
    one_operation mode _ mb (sem_init a count) h announces announces
wrapper_of-Announces r mode (Call.mc_pthread_cond_wait a b) mb h (fits, fits') =
    let (at_a, at_b) = written_twice-At TransitionType.cond_enqueue a b mb fits fits' in
    let queued = put pointer_size pointer_size b (written TransitionType.cond_enqueue a mb) in
    let (at_a', at_b') = written_twice-At TransitionType.cond_wait a b queued fits fits' in
    let first = cond_enqueue-Decodes a b _ at_a at_b in
    let second = cond_wait-Decodes a b _ at_a' at_b' in
    switch_under_control (λ w. Announces mb w (cond_enqueue a b ∷ cond_wait a b ∷ [])) mode _ h
      (λ e. (first, λ unlocked. (second, λ locked. refl)))
      (λ e. (first, λ unlocked. (second, λ locked. refl)))
wrapper_of-Announces r mode (Call.mc_transparent_exit status) mb h fits =
    let says : (mb : Mailbox)
        → Decodes (put 0 int_size status (set_type TransitionType.process_exit mb))
            (process_exit status) =
      λ mb.
        process_exit-Decodes status _ refl
          (written_status (set_type TransitionType.process_exit mb) status fits) in
    let once : Mailbox = put 0 int_size status (set_type TransitionType.process_exit mb) in
    let twice : Mailbox = put 0 int_size status (set_type TransitionType.process_exit once) in
    switch_under_control (λ w. Announces mb w (ending mode (process_exit status))) mode _ h
      (λ e. rw e (says mb, (says once, (says twice, refl))))
      (λ e. rw e (says mb, (says once, refl)))
wrapper_of-Announces r mode Call.mc_transparent_abort mb h fits =
    let says : (mb : Mailbox) → Decodes (set_type TransitionType.process_abort mb) process_abort =
      λ mb. process_abort-Decodes _ refl in
    let once : Mailbox = set_type TransitionType.process_abort mb in
    switch_under_control (λ w. Announces mb w (ending mode process_abort)) mode _ h
      (λ e. rw e (says mb, (says once, (says once, refl)))) (λ e. rw e (says mb, (says once, refl)))
wrapper_of-Announces r mode (Call.mc_pthread_create true created) mb h fits = λ rc. refl
wrapper_of-Announces r mode (Call.mc_pthread_create false created) mb h fits =
    let decodes =
      thread_create-Decodes created (written TransitionType.thread_create created mb)
        (written-At TransitionType.thread_create created mb fits) in
    under_control_mode
      (λ mode.
        Announces mb (wrapper_of r mode (Call.mc_pthread_create false created))
          (operations_of r mode (Call.mc_pthread_create false created)))
      mode h (λ rc waited. refl) (λ rc waited. refl) (λ rc waited. (decodes, refl))
      (λ rc waited. (decodes, refl))
wrapper_of-Announces r mode Call.begins_routine mb h fits =
    switch_under_control (λ w. Announces mb w []) mode _ h (λ e i posted. refl) (λ e posted. refl)
wrapper_of-Announces r mode Call.ends_routine mb h fits =
    switch_under_control (λ w. Announces mb w (operations_of r mode Call.ends_routine)) mode _ h
      (λ e. rw e (thread_exit-Decodes _ refl, refl))
      (λ e. rw e (mc_exit_thread_in_child-Announces mb r.pthread_map r.this_thread))
wrapper_of-Announces r mode (Call.mc_pthread_join d t) mb h fits =
    join-Announces r mode d t mb h fits
wrapper_of-Announces r mode Call.mc_pthread_exit mb h fits =
    let marked = set_type TransitionType.thread_exit mb in
    let says = thread_exit-Decodes marked refl in
    let exits = exit-Announces marked r.pthread_map r.tid_self r.this_thread in
    switch_under_control (λ w. Announces mb w (ending mode thread_exit)) mode _ h
      (λ e. rw e (says, exits))
      (λ e. rw e (exit-Announces mb r.pthread_map r.tid_self r.this_thread))
wrapper_of-Announces r mode (Call.mc_sleep duration) mb h fits =
    switch_under_control (λ w. Announces mb w []) mode _ h (λ e. refl) (λ e. refl)
