-- ===== src/Spy.antt =====
-- libmcmini, which is loaded into the program under test: the modes of
-- include/mcmini/spy/checkpointing/record.h with `get_current_mode` of src/lib/record.c, and what a
-- wrapper function of src/lib/wrappers.c does, call by call.
pub mod Record
pub mod Mutex
pub mod Semaphore
pub mod Condition
pub mod Process
pub mod Thread
pub mod Wrappers
pub mod Announce
pub mod Announcing
pub mod Decoding
pub mod Mailboxes
pub mod Distinct
pub mod Staying
pub mod Keeping
pub mod Interleaving
mod Tests
use deep_debug.Prelude.{
  ℕ, zero, suc, ◌+◌, ◌%◌, ◌/◌, Bool, true, false, ◌||◌, if◌then◌else◌, List, [], ◌∷◌, ◌++◌, take,
  drop, Result,
}
use deep_debug.Coordinator.Registry.{Mailbox, pointer_size}
use deep_debug.Spy.Record.{RecList}

-- `enum libmcmini_mode`
pub data Mode : Type 0 where
  pre_dmtcp_init : Mode
  pre_checkpoint_thread : Mode
  external_thread : Mode
  record_mode : Mode
  pre_checkpoint : Mode
  dmtcp_restart_into_branch : Mode
  dmtcp_restart_into_template : Mode
  target_template_after_restart : Mode
  target_branch_after_restart : Mode
  target_template : Mode
  target_branch : Mode

abbrev pub is_in_restart_mode : Mode → Bool
is_in_restart_mode dmtcp_restart_into_branch = true
is_in_restart_mode dmtcp_restart_into_template = true
is_in_restart_mode _ = false

abbrev pub tsan_internal_check_applies : Mode → Bool
tsan_internal_check_applies target_branch = true
tsan_internal_check_applies target_branch_after_restart = true
tsan_internal_check_applies mode = is_in_restart_mode mode

-- The arguments say whether the calling thread is the checkpoint thread, once that one has been
-- recorded, and whether it is the internal one of ThreadSanitizer.
unfoldable pub get_current_mode : Bool → Bool → Mode → Mode
get_current_mode is_checkpoint_thread is_tsan_internal raw_mode =
    if is_checkpoint_thread
    then external_thread
    else if tsan_internal_check_applies raw_mode
    then if is_tsan_internal then external_thread else raw_mode
    else raw_mode

-- The calls of the libraries, with the addresses of the objects.
pub data LibraryCall : Type 0 where
  libpthread_mutex_init : (mutex : ℕ) → LibraryCall
  libpthread_mutex_lock : (mutex : ℕ) → LibraryCall
  libpthread_mutex_timedlock : (mutex : ℕ) → LibraryCall
  libpthread_mutex_unlock : (mutex : ℕ) → LibraryCall
  libpthread_sem_init : (sem count : ℕ) → LibraryCall
  libpthread_sem_destroy : (sem : ℕ) → LibraryCall
  libpthread_sem_post : (sem : ℕ) → LibraryCall
  libpthread_sem_wait : (sem : ℕ) → LibraryCall
  libpthread_sem_timedwait : (sem : ℕ) → LibraryCall
  libpthread_cond_init : (cond : ℕ) → LibraryCall
  libpthread_cond_wait : (cond mutex : ℕ) → LibraryCall
  libpthread_cond_timedwait : (cond mutex : ℕ) → LibraryCall
  libpthread_cond_signal : (cond : ℕ) → LibraryCall
  libpthread_cond_broadcast : (cond : ℕ) → LibraryCall
  libpthread_cond_destroy : (cond : ℕ) → LibraryCall
  libdmtcp_pthread_create : LibraryCall
  tsan_or_real_pthread_create : LibraryCall
  wait_for_registration : LibraryCall  -- of the thread that has been created
  post_registration : LibraryCall
  libdmtcp_pthread_join : (thread : ℕ) → LibraryCall
  libpthread_timedjoin_np : (thread : ℕ) → LibraryCall
  libpthread_pthread_join : (thread : ℕ) → LibraryCall
  post_exit_permission : (thread : ℕ) → LibraryCall
  wait_exit_permission : (thread : ℕ) → LibraryCall
  post_really_exited : (thread : ℕ) → LibraryCall
  wait_really_exited : (thread : ℕ) → LibraryCall
  libc_sleep : (duration : ℕ) → LibraryCall

-- What a wrapper function does. A section under `rec_list_lock` changes the list of records and
-- gives a number to what follows; it may also end the process.
pub data Wrapper : Type 0 where
  returns : (rc : ℕ) → Wrapper
  aborts : Wrapper
  exits : (status : ℕ) → Wrapper
  ends_thread : Wrapper
  blocks_indefinitely : Wrapper
  unfinished : Wrapper  -- more rounds of a loop than it was given
  calls : (call : LibraryCall) (next : ℕ → Wrapper) → Wrapper
  under_lock : (section : RecList → Result (RecList × ℕ)) (next : ℕ → Wrapper) → Wrapper
  asks_restart_mode : (next : Bool → Wrapper) → Wrapper
  writes : (store : Mailbox → Mailbox) (next : Wrapper) → Wrapper
  wakes_scheduler_and_waits : (next : Wrapper) → Wrapper
  handles_restart : (next : Wrapper) → Wrapper
  awakes_scheduler : (next : Wrapper) → Wrapper  -- and does not wait
  awaits_scheduler : (next : Wrapper) → Wrapper

-- `memcpy_v` of an unsigned number of `size` bytes, the lowest byte first.
unfoldable pub bytes : ℕ → ℕ → List ℕ
bytes zero n = []
bytes (suc size) n = (n % 256) ∷ bytes size (n / 256)

-- `memcpy_v(mb->cnts + offset, &n, size)`
abbrev pub put : ℕ → ℕ → ℕ → Mailbox → Mailbox
put offset size n mb = record mb {
  cnts = take offset mb.cnts ++ bytes size n ++ drop (offset + size) mb.cnts;
}

-- `mb->type = type`
abbrev pub set_type : ℕ → Mailbox → Mailbox
set_type type mb = record mb { type = type }

-- A library call whose result the wrapper returns.
abbrev pub forwards : LibraryCall → Wrapper
forwards call = calls call returns

abbrev pub etimedout : ℕ
etimedout = 110

-- The groups of cases that the wrappers distinguish in their `switch (get_current_mode())`.
pub record Cases : Type 0 where
  pub before : Wrapper  -- PRE_DMTCP_INIT, PRE_CHECKPOINT_THREAD
  pub external : Wrapper  -- EXTERNAL_THREAD
  pub recorded : Wrapper  -- RECORD, PRE_CHECKPOINT
  pub restarted : Wrapper  -- DMTCP_RESTART_INTO_BRANCH, DMTCP_RESTART_INTO_TEMPLATE
  pub controlled : Wrapper  -- TARGET_BRANCH, TARGET_BRANCH_AFTER_RESTART
  pub otherwise : Wrapper  -- default

abbrev pub switch : Mode → Cases → Wrapper
switch pre_dmtcp_init c = c.before
switch pre_checkpoint_thread c = c.before
switch external_thread c = c.external
switch record_mode c = c.recorded
switch pre_checkpoint c = c.recorded
switch dmtcp_restart_into_branch c = c.restarted
switch dmtcp_restart_into_template c = c.restarted
switch target_branch c = c.controlled
switch target_branch_after_restart c = c.controlled
switch _ c = c.otherwise

-- `mb->type = type; memcpy_v(mb->cnts, &addr, sizeof(addr))`
abbrev pub writes_operation : ℕ → ℕ → Wrapper → Wrapper
writes_operation type addr next = writes (set_type type) (writes (put 0 pointer_size addr) next)
