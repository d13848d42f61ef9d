-- ===== src/Spy/Thread.antt =====
-- The threads of libmcmini in src/lib/wrappers.c: the table of runner ids, and the wrappers that
-- create, join and end threads.
use deep_debug.Prelude.{
  ℕ, zero, suc, ◌+◌, ◌%◌, ◌==◌, Bool, true, false, not, if◌then◌else◌, List, [], ◌∷◌, Option, none,
  some, lookup, Result, ok, err, ◌>>=◌, or_fail, assertion_failed,
}
use deep_debug.Coordinator.TransitionType
use deep_debug.Coordinator.Registry.{pointer_size, runner_id_size}
use deep_debug.Objects.Mutex.{rid_invalid}
use deep_debug.Spy.Record.{RecList, RecordedState, ThreadStatus, thread, next_position, update_node}
use deep_debug.Spy.Process.{record_thread}
use deep_debug.Spy.{
  Mode, pre_dmtcp_init, pre_checkpoint_thread, external_thread, record_mode, pre_checkpoint,
  dmtcp_restart_into_branch, dmtcp_restart_into_template, target_branch_after_restart,
  target_branch, switch, Wrapper, returns, aborts, ends_thread, blocks_indefinitely, unfinished,
  calls, under_lock, asks_restart_mode, writes, wakes_scheduler_and_waits, handles_restart,
  awakes_scheduler, awaits_scheduler, put, set_type, forwards, etimedout, libdmtcp_pthread_create,
  tsan_or_real_pthread_create, wait_for_registration, post_registration, libdmtcp_pthread_join,
  libpthread_timedjoin_np, libpthread_pthread_join, post_exit_permission, wait_exit_permission,
  post_really_exited, wait_really_exited, libc_sleep,
}

-- An entry of the table; its two semaphores are named by the thread.
pub record PthreadEntry : Type 0 where
  pub value : ℕ
  pub registered_post_restart : Bool

abbrev pub PthreadMap : Type 0
PthreadMap = List (ℕ × PthreadEntry)

abbrev pub is_target_branch_after_restart : Mode → Bool
is_target_branch_after_restart target_branch_after_restart = true
is_target_branch_after_restart _ = false

abbrev pub insert_pthread_map : Mode → ℕ → ℕ → PthreadMap → PthreadMap
insert_pthread_map mode t v map =
    (t, record { value = v; registered_post_restart = is_target_branch_after_restart mode }) ∷ map

abbrev pub find_pthread_map_entry : ℕ → PthreadMap → Option PthreadEntry
find_pthread_map_entry t map = lookup t map

abbrev pub search_pthread_map : ℕ → PthreadMap → ℕ
search_pthread_map t map = elim (find_pthread_map_entry t map) [
  | none ↦ rid_invalid
  | some entry ↦ entry.value
]

-- The next runner id and the table; the result is the id of the thread.
unfoldable pub mc_register_this_thread : Mode → ℕ → ℕ × PthreadMap → ℕ × (ℕ × PthreadMap)
mc_register_this_thread mode this_thread (tid_next, map) =
    (tid_next, ((tid_next + 1) % 65536, insert_pthread_map mode this_thread tid_next map))

abbrev pub writes_thread_exit : Wrapper → Wrapper
writes_thread_exit next = writes (set_type TransitionType.thread_exit) next

-- A thread says that it exits, and then that it has; it ends once it has been joined.
abbrev pub mc_exit_thread_in_child : PthreadMap → ℕ → Wrapper → Wrapper
mc_exit_thread_in_child map this_thread next = writes_thread_exit (
    wakes_scheduler_and_waits (
      awakes_scheduler (elim (find_pthread_map_entry this_thread map) [
        | none ↦ aborts
        | some entry ↦
            calls (wait_exit_permission this_thread)
              (λ waited. calls (post_really_exited this_thread) (λ posted. next))
      ])))

abbrev pub mc_exit_main_thread_in_child : ℕ → Wrapper
mc_exit_main_thread_in_child tid_self =
    if tid_self == 0
    then writes_thread_exit
        (wakes_scheduler_and_waits (writes_thread_exit (awakes_scheduler blocks_indefinitely)))
    else aborts

abbrev pub exit_in_child : PthreadMap → ℕ → ℕ → Wrapper
exit_in_child map tid_self this_thread =
    if tid_self == 0
    then mc_exit_main_thread_in_child tid_self
    else mc_exit_thread_in_child map this_thread ends_thread

-- `ends_thread` is `libpthread_pthread_exit`, or the bare system call that ends a thread which
-- DMTCP has made anew.
unfoldable pub mc_pthread_exit : PthreadMap → ℕ → ℕ → Mode → Wrapper
mc_pthread_exit map tid_self this_thread mode = switch mode (record {
  before = ends_thread;
  external = ends_thread;
  recorded = ends_thread;
  restarted = writes_thread_exit (handles_restart (exit_in_child map tid_self this_thread));
  controlled = exit_in_child map tid_self this_thread;
  otherwise = aborts;
})

-- `created` is the descriptor that the library stores for the new thread.
-- `main_recorded` says whether `record_main_thread` has run.
unfoldable pub mc_pthread_create : Bool → Bool → ℕ → ℕ → ℕ → Mode → Wrapper
mc_pthread_create mc_creating_internal_thread main_recorded main_tid this_thread created mode =
    if mc_creating_internal_thread then forwards libdmtcp_pthread_create else by_mode mode
  where
    recorded : Wrapper
    recorded =
        calls libdmtcp_pthread_create (λ rc. calls wait_for_registration (λ waited. returns rc))

    controlled : Wrapper
    controlled = calls tsan_or_real_pthread_create (λ rv. calls wait_for_registration (λ waited.
        writes (put 0 pointer_size created) (
          writes (set_type TransitionType.thread_create) (wakes_scheduler_and_waits (returns rv)))))

    by_mode : Mode → Wrapper
    by_mode pre_dmtcp_init = aborts
    by_mode pre_checkpoint_thread =
        if main_recorded
        then recorded
        else if main_tid == 0
        then under_lock (record_thread this_thread main_tid) (λ i. recorded)
        else aborts
    by_mode external_thread = forwards libdmtcp_pthread_create
    by_mode record_mode = recorded
    by_mode pre_checkpoint = recorded
    by_mode dmtcp_restart_into_branch = recorded
    by_mode dmtcp_restart_into_template = recorded
    by_mode target_branch = controlled
    by_mode target_branch_after_restart = controlled
    by_mode _ = aborts

-- `memcpy_v(thread_get_mailbox()->cnts, &rid, sizeof(runner_id_t))`, and the type.
abbrev pub writes_join : ℕ → Wrapper → Wrapper
writes_join rid next =
    writes (put 0 runner_id_size rid) (writes (set_type TransitionType.thread_join) next)

-- The node that `find_thread_record_mode` points at.
unfoldable pub thread_position : ℕ → RecList → Option ℕ
thread_position t [] = none
thread_position t (node ∷ rest) = by_state node.state (next_position (thread_position t rest))
  where
    by_state : RecordedState → Option ℕ → Option ℕ
    by_state (thread r) later = if t == r.pthread_desc then some 0 else later
    by_state _ later = later

abbrev pub mark_exited : RecordedState → Result RecordedState
mark_exited (thread r) = ok (thread (record r { status = ThreadStatus.exited }))
mark_exited _ = err assertion_failed

abbrev pub find_thread : ℕ → RecList → Result (RecList × ℕ)
find_thread t head = or_fail (thread_position t head) assertion_failed >>= λ i. ok (head, i)

-- `mc_thread_routine_wrapper`, before and after it runs the routine.
unfoldable pub begins_routine : ℕ → ℕ → Mode → Wrapper
begins_routine rid this_thread mode = switch mode (record {
  before = aborts;
  external = aborts;
  recorded = recorded;
  restarted = recorded;
  controlled = calls post_registration (λ posted. awaits_scheduler (returns 0));
  otherwise = aborts;
})
  where
    recorded : Wrapper
    recorded =
        under_lock (record_thread this_thread rid)
          (λ i. calls post_registration (λ posted. returns 0))

unfoldable pub ends_routine : PthreadMap → ℕ → Mode → Wrapper
ends_routine map this_thread mode = switch mode (record {
  before = aborts;
  external = aborts;
  recorded = under_lock exits (λ i. ends_thread);
  restarted =
      writes_thread_exit (handles_restart (writes_thread_exit (awaits_scheduler ends_thread)));
  controlled = mc_exit_thread_in_child map this_thread ends_thread;
  otherwise = aborts;
})
  where
    exits : RecList → Result (RecList × ℕ)
    exits head = or_fail (thread_position this_thread head) assertion_failed >>= λ i.
        update_node i mark_exited head >>= λ changed. ok (changed, i)

-- `*deferred` is not part of the model: a deferred join returns without the library call.
abbrev pub real_join : Bool → ℕ → Wrapper
real_join defer_real_join t =
    if defer_real_join then returns 0 else forwards (libpthread_pthread_join t)

abbrev pub restarted_join : PthreadMap → ℕ → Wrapper
restarted_join map t = writes_join (search_pthread_map t map) (handles_restart (returns 0))

-- The `while (1)` loop of a recorded join, for `rounds` rounds at most.
unfoldable pub join_rounds : ℕ → PthreadMap → ℕ → ℕ → Wrapper
join_rounds zero map t i = unfinished
join_rounds (suc rounds) map t i =
    let again = join_rounds rounds map t i in
    calls (libpthread_timedjoin_np t) (λ rc.
      if rc == 0
      then under_lock (λ head. update_node i mark_exited head >>= λ changed. ok (changed, i))
          (λ j. returns rc)
      else if rc == etimedout
      then asks_restart_mode (λ restart. if restart then restarted_join map t else again)
      else returns rc)

-- The join of a target after a restart: only a thread that was created since is really joined,
-- and only one that DMTCP has made anew is waited for.
abbrev pub join_after_restart : Bool → (ℕ → Bool) → PthreadEntry → ℕ → Wrapper
join_after_restart defer_real_join is_recreated target t =
    if target.registered_post_restart
    then real_join defer_real_join t
    else if not (is_recreated t)
    then returns 0
    else calls (wait_really_exited t) (λ waited. returns 0)

unfoldable pub mc_pthread_join_impl : ℕ → Bool → (ℕ → Bool) → PthreadMap → Mode → ℕ → Wrapper
mc_pthread_join_impl rounds defer_real_join is_recreated map mode t = by_mode mode
  where
    recorded : Wrapper
    recorded = under_lock (find_thread t) (λ i. join_rounds rounds map t i)

    granted : (PthreadEntry → Wrapper) → Wrapper
    granted next = writes_join (search_pthread_map t map) (
        wakes_scheduler_and_waits (elim (find_pthread_map_entry t map) [
          | none ↦ aborts
          | some target ↦ calls (post_exit_permission t) (λ posted. next target)
        ]))

    by_mode : Mode → Wrapper
    by_mode pre_dmtcp_init = aborts
    by_mode pre_checkpoint_thread = forwards (libdmtcp_pthread_join t)
    by_mode external_thread = forwards (libdmtcp_pthread_join t)
    by_mode record_mode = recorded
    by_mode pre_checkpoint = recorded
    by_mode dmtcp_restart_into_branch = restarted_join map t
    by_mode dmtcp_restart_into_template = restarted_join map t
    by_mode target_branch = granted (λ target. real_join defer_real_join t)
    by_mode target_branch_after_restart =
        granted (λ target. join_after_restart defer_real_join is_recreated target t)
    by_mode _ = aborts

unfoldable pub mc_sleep : Mode → ℕ → Wrapper
mc_sleep mode duration = switch mode (record {
  before = forwards (libc_sleep duration);
  external = forwards (libc_sleep duration);
  recorded = forwards (libc_sleep duration);
  restarted = returns 0;
  controlled = returns 0;
  otherwise = forwards (libc_sleep duration);
})
