-- ===== src/Spy/Announce.antt =====
-- What a thread announces before it waits for the scheduler, and what the coordinator makes of it.
use deep_debug.Prelude.{
  ℕ, ◌<◌, ◌^◌, ◌≡◌, Bool, true, false, if◌then◌else◌, List, [], ◌∷◌, Option, some, Result,
}
use deep_debug.Transition.{Transition}
use deep_debug.Coordinator.{Coordinator}
use deep_debug.Coordinator.Callbacks.{
  mutex_init_callback, mutex_lock_callback, mutex_unlock_callback, sem_init_callback,
  sem_post_callback, sem_wait_callback, sem_destroy_callback, process_exit_callback,
  process_abort_callback, thread_create_callback, thread_join_callback, thread_exit_callback,
}
use deep_debug.Coordinator.Conditions.{
  cond_init_callback, cond_waiting_thread_enqueue_callback, cond_wait_callback,
  cond_signal_callback, cond_broadcast_callback, cond_destroy_callback,
}
use deep_debug.Coordinator.Registry.{
  Mailbox, Memory, TransitionDiscoveryCallback, found, get_callback_for, default_registry,
}
use deep_debug.Spy.Mutex
use deep_debug.Spy.Semaphore
use deep_debug.Spy.Condition
use deep_debug.Spy.Process
use deep_debug.Spy.Thread
use deep_debug.Spy.{
  Mode, target_branch, target_branch_after_restart, is_in_restart_mode, Wrapper, returns, aborts,
  exits, unfinished, calls, under_lock, asks_restart_mode, writes, wakes_scheduler_and_waits,
  handles_restart, ends_thread, blocks_indefinitely, awakes_scheduler, awaits_scheduler,
}

-- A visible operation with the addresses of its objects.
pub data Operation : Type 0 where
  mutex_init : (mutex : ℕ) → Operation
  mutex_lock : (mutex : ℕ) → Operation
  mutex_unlock : (mutex : ℕ) → Operation
  sem_init : (sem count : ℕ) → Operation
  sem_destroy : (sem : ℕ) → Operation
  sem_post : (sem : ℕ) → Operation
  sem_wait : (sem : ℕ) → Operation
  cond_init : (cond : ℕ) → Operation
  cond_enqueue : (cond mutex : ℕ) → Operation
  cond_wait : (cond mutex : ℕ) → Operation
  cond_signal : (cond : ℕ) → Operation
  cond_broadcast : (cond : ℕ) → Operation
  cond_destroy : (cond : ℕ) → Operation
  process_exit : (status : ℕ) → Operation
  process_abort : Operation
  thread_create : (created : ℕ) → Operation
  thread_join : (rid : ℕ) → Operation
  thread_exit : Operation

-- The callback of an operation, at its objects.
abbrev pub translate :
    Memory → Operation → ℕ → Coordinator → Result (Coordinator × Option Transition)
translate m (mutex_init a) p c = found (mutex_init_callback p a c)
translate m (mutex_lock a) p c =
    found (mutex_lock_callback m.remote_mutex_is_static_initializer p a c)
translate m (mutex_unlock a) p c = found (mutex_unlock_callback p a c)
translate m (sem_init a count) p c = found (sem_init_callback p a count c)
translate m (sem_destroy a) p c = sem_destroy_callback p a c
translate m (sem_post a) p c = found (sem_post_callback p a c)
translate m (sem_wait a) p c = found (sem_wait_callback p a c)
translate m (cond_init a) p c = found (cond_init_callback p a c)
translate m (cond_enqueue a b) p c =
    found (cond_waiting_thread_enqueue_callback m.remote_cond_is_static_initializer p a b c)
translate m (cond_wait a b) p c = found (cond_wait_callback p a b c)
translate m (cond_signal a) p c =
    found (cond_signal_callback m.remote_cond_is_static_initializer p a c)
translate m (cond_broadcast a) p c =
    found (cond_broadcast_callback m.remote_cond_is_static_initializer p a c)
translate m (cond_destroy a) p c = found (cond_destroy_callback p a c)
translate m (process_exit status) p c = found (process_exit_callback p status c)
translate m process_abort p c = found (process_abort_callback p c)
translate m (thread_create created) p c = found (thread_create_callback p created c)
translate m (thread_join rid) p c = found (thread_join_callback p rid c)
translate m thread_exit p c = found (thread_exit_callback p c)

-- The registered callback reads the operation from the mailbox.
abbrev pub Decodes : Mailbox → Operation → Type 0
Decodes mb operation =
    (m : Memory) (p : ℕ) (c : Coordinator)
    → (callback : TransitionDiscoveryCallback) × (get_callback_for mb.type (default_registry m)
        ≡ some callback)
      × (callback p mb c ≡ translate m operation p c)

-- A wrapper hands control over once for each operation, in this order, and its mailbox then
-- decodes to the operation, whatever the library answers and whatever its sections find.
abbrev pub Announces : Mailbox → Wrapper → List Operation → Type 0
Announces mb (returns rc) operations = operations ≡ []
Announces mb (exits status) operations = operations ≡ []
Announces mb aborts operations = operations ≡ []
Announces mb ends_thread operations = operations ≡ []
Announces mb blocks_indefinitely operations = operations ≡ []
Announces mb unfinished operations = ⊥
Announces mb (under_lock section next) operations = (n : ℕ) → Announces mb (next n) operations
Announces mb (calls call next) operations = (rc : ℕ) → Announces mb (next rc) operations
Announces mb (asks_restart_mode next) operations = (b : Bool) → Announces mb (next b) operations
Announces mb (writes store next) operations = Announces (store mb) next operations
Announces mb (wakes_scheduler_and_waits next) [] = ⊥
Announces mb (wakes_scheduler_and_waits next) (operation ∷ operations) =
    Decodes mb operation × Announces mb next operations
Announces mb (awakes_scheduler next) [] = ⊥
Announces mb (awakes_scheduler next) (operation ∷ operations) =
    Decodes mb operation × Announces mb next operations
Announces mb (awaits_scheduler next) operations = Announces mb next operations
Announces mb (handles_restart next) [] = ⊥
Announces mb (handles_restart next) (operation ∷ operations) =
    Decodes mb operation × Announces mb next operations

-- A call of a wrapper.
pub data Call : Type 0 where
  mc_pthread_mutex_init : (mutex : ℕ) → Call
  mc_pthread_mutex_lock : (mutex : ℕ) → Call
  mc_pthread_mutex_unlock : (mutex : ℕ) → Call
  mc_sem_init : (sem count : ℕ) → Call
  mc_sem_destroy : (sem : ℕ) → Call
  mc_sem_post : (sem : ℕ) → Call
  mc_sem_wait : (sem : ℕ) → Call
  mc_pthread_cond_init : (cond : ℕ) → Call
  mc_pthread_cond_wait : (cond mutex : ℕ) → Call
  mc_pthread_cond_signal : (cond : ℕ) → Call
  mc_pthread_cond_broadcast : (cond : ℕ) → Call
  mc_pthread_cond_destroy : (cond : ℕ) → Call
  mc_transparent_exit : (status : ℕ) → Call
  mc_transparent_abort : Call
  -- The library stores the descriptor `created`.
  mc_pthread_create : (mc_creating_internal_thread : Bool) (created : ℕ) → Call
  begins_routine : Call
  ends_routine : Call
  mc_pthread_join : (defer_real_join : Bool) (thread : ℕ) → Call
  mc_pthread_exit : Call
  mc_sleep : (duration : ℕ) → Call

-- What a wrapper needs of its caller: a bound on the rounds of its loop, the runner id and the
-- descriptor of the thread, what `sem_getvalue` answers, the table of runner ids, whether the
-- main thread has its record, and which threads DMTCP has made anew.
pub record Caller : Type 0 where
  pub rounds : ℕ
  pub tid_self : ℕ
  pub this_thread : ℕ
  pub counted : ℕ
  pub pthread_map : Thread.PthreadMap
  pub main_recorded : Bool
  pub is_recreated : ℕ → Bool

abbrev pub wrapper_of : Caller → Mode → Call → Wrapper
wrapper_of r mode (Call.mc_pthread_mutex_init a) = Mutex.mc_pthread_mutex_init mode a
wrapper_of r mode (Call.mc_pthread_mutex_lock a) =
    Mutex.mc_pthread_mutex_lock r.rounds r.tid_self mode a
wrapper_of r mode (Call.mc_pthread_mutex_unlock a) = Mutex.mc_pthread_mutex_unlock mode a
wrapper_of r mode (Call.mc_sem_init a count) = Semaphore.mc_sem_init mode a count
wrapper_of r mode (Call.mc_sem_destroy a) = Semaphore.mc_sem_destroy mode a
wrapper_of r mode (Call.mc_sem_post a) = Semaphore.mc_sem_post r.counted mode a
wrapper_of r mode (Call.mc_sem_wait a) = Semaphore.mc_sem_wait r.rounds r.counted mode a
wrapper_of r mode (Call.mc_pthread_cond_init a) = Condition.mc_pthread_cond_init mode a
wrapper_of r mode (Call.mc_pthread_cond_wait a b) =
    Condition.mc_pthread_cond_wait r.rounds r.this_thread mode a b
wrapper_of r mode (Call.mc_pthread_cond_signal a) =
    Condition.mc_pthread_cond_signal r.this_thread mode a
wrapper_of r mode (Call.mc_pthread_cond_broadcast a) =
    Condition.mc_pthread_cond_broadcast r.this_thread mode a
wrapper_of r mode (Call.mc_pthread_cond_destroy a) = Condition.mc_pthread_cond_destroy mode a
wrapper_of r mode (Call.mc_transparent_exit status) = Process.mc_transparent_exit mode status
wrapper_of r mode Call.mc_transparent_abort = Process.mc_transparent_abort mode
wrapper_of r mode (Call.mc_pthread_create mc_creating_internal_thread created) =
    Thread.mc_pthread_create mc_creating_internal_thread r.main_recorded r.tid_self r.this_thread
      created mode
wrapper_of r mode Call.begins_routine = Thread.begins_routine r.tid_self r.this_thread mode
wrapper_of r mode Call.ends_routine = Thread.ends_routine r.pthread_map r.this_thread mode
wrapper_of r mode (Call.mc_pthread_join defer_real_join t) =
    Thread.mc_pthread_join_impl r.rounds defer_real_join r.is_recreated r.pthread_map mode t
wrapper_of r mode Call.mc_pthread_exit =
    Thread.mc_pthread_exit r.pthread_map r.tid_self r.this_thread mode
wrapper_of r mode (Call.mc_sleep duration) = Thread.mc_sleep mode duration

-- One announcement more after a restart, since the next case is fallen into.
abbrev pub ending : Mode → Operation → List Operation
ending mode operation =
    if is_in_restart_mode mode
    then operation ∷ operation ∷ operation ∷ []
    else operation ∷ operation ∷ []

abbrev pub operations_of : Caller → Mode → Call → List Operation
operations_of r mode (Call.mc_pthread_mutex_init a) = mutex_init a ∷ []
operations_of r mode (Call.mc_pthread_mutex_lock a) = mutex_lock a ∷ []
operations_of r mode (Call.mc_pthread_mutex_unlock a) = mutex_unlock a ∷ []
operations_of r mode (Call.mc_sem_init a count) = sem_init a count ∷ []
operations_of r mode (Call.mc_sem_destroy a) = sem_destroy a ∷ []
operations_of r mode (Call.mc_sem_post a) = sem_post a ∷ []
operations_of r mode (Call.mc_sem_wait a) = sem_wait a ∷ []
operations_of r mode (Call.mc_pthread_cond_init a) = cond_init a ∷ []
operations_of r mode (Call.mc_pthread_cond_wait a b) = cond_enqueue a b ∷ cond_wait a b ∷ []
operations_of r mode (Call.mc_pthread_cond_signal a) = cond_signal a ∷ []
operations_of r mode (Call.mc_pthread_cond_broadcast a) = cond_broadcast a ∷ []
operations_of r mode (Call.mc_pthread_cond_destroy a) = cond_destroy a ∷ []
operations_of r mode (Call.mc_transparent_exit status) = ending mode (process_exit status)
operations_of r mode Call.mc_transparent_abort = ending mode process_abort
operations_of r mode (Call.mc_pthread_create true created) = []
operations_of r mode (Call.mc_pthread_create false created) =
    if is_in_restart_mode mode then [] else thread_create created ∷ []
operations_of r mode Call.begins_routine = []
operations_of r mode Call.ends_routine =
    if is_in_restart_mode mode then thread_exit ∷ [] else thread_exit ∷ thread_exit ∷ []
operations_of r mode (Call.mc_pthread_join defer_real_join t) =
    thread_join (Thread.search_pthread_map t r.pthread_map) ∷ []
operations_of r mode Call.mc_pthread_exit = ending mode thread_exit
operations_of r mode (Call.mc_sleep duration) = []

-- Addresses have 64 bits, an `int` and an `unsigned` have 32, a runner id 16.
abbrev pub Fits : Caller → Call → Type 0
Fits r (Call.mc_pthread_mutex_init a) = a < 256 ^ 8
Fits r (Call.mc_pthread_mutex_lock a) = a < 256 ^ 8
Fits r (Call.mc_pthread_mutex_unlock a) = a < 256 ^ 8
Fits r (Call.mc_sem_init a count) = (a < 256 ^ 8) × (count < 256 ^ 4)
Fits r (Call.mc_sem_destroy a) = a < 256 ^ 8
Fits r (Call.mc_sem_post a) = a < 256 ^ 8
Fits r (Call.mc_sem_wait a) = a < 256 ^ 8
Fits r (Call.mc_pthread_cond_init a) = a < 256 ^ 8
Fits r (Call.mc_pthread_cond_wait a b) = (a < 256 ^ 8) × (b < 256 ^ 8)
Fits r (Call.mc_pthread_cond_signal a) = a < 256 ^ 8
Fits r (Call.mc_pthread_cond_broadcast a) = a < 256 ^ 8
Fits r (Call.mc_pthread_cond_destroy a) = a < 256 ^ 8
Fits r (Call.mc_transparent_exit status) = status < 256 ^ 4
Fits r Call.mc_transparent_abort = Unit {0}
Fits r (Call.mc_pthread_create mc_creating_internal_thread created) = created < 256 ^ 8
Fits r Call.begins_routine = Unit {0}
Fits r Call.ends_routine = Unit {0}
Fits r (Call.mc_pthread_join defer_real_join t) =
    Thread.search_pthread_map t r.pthread_map < 256 ^ 2
Fits r Call.mc_pthread_exit = Unit {0}
Fits r (Call.mc_sleep duration) = Unit {0}

-- The modes in which the model checker has control, or is about to get it after a restart.
abbrev pub is_under_control : Mode → Bool
is_under_control target_branch = true
is_under_control target_branch_after_restart = true
is_under_control mode = is_in_restart_mode mode
