-- ===== src/Spy/Process.antt =====
-- The wrappers of the end of the process and of sleeping in src/lib/wrappers.c.
use deep_debug.Prelude.{ℕ, none, some, Result, ok, err, assertion_failed}
use deep_debug.Coordinator.TransitionType
use deep_debug.Coordinator.Registry.{int_size}
use deep_debug.Spy.Record.{
  RecList, ThreadStatus, thread, add_rec_entry_record_mode, find_thread_record_mode,
}
use deep_debug.Spy.{
  Mode, switch, Wrapper, aborts, exits, writes, wakes_scheduler_and_waits, handles_restart, put,
  set_type,
}

-- `mb->type = type; memcpy_v(mb->cnts, &status, sizeof(status))`
abbrev pub writes_exit : ℕ → Wrapper → Wrapper
writes_exit status next =
    writes (set_type TransitionType.process_exit) (writes (put 0 int_size status) next)

-- A thread that is under control says that it exits, and once more in the place of exiting.
abbrev pub controlled_exit : ℕ → Wrapper
controlled_exit status =
    writes_exit status
      (wakes_scheduler_and_waits (writes_exit status (wakes_scheduler_and_waits (exits status))))

unfoldable pub mc_transparent_exit : Mode → ℕ → Wrapper
mc_transparent_exit mode status = switch mode (record {
  before = exits status;
  external = exits status;
  recorded = exits status;
  restarted = writes_exit status (handles_restart (controlled_exit status));
  controlled = controlled_exit status;
  otherwise = exits status;
})

abbrev pub controlled_abort : Wrapper
controlled_abort = writes (set_type TransitionType.process_abort) (
    wakes_scheduler_and_waits
      (writes (set_type TransitionType.process_abort) (wakes_scheduler_and_waits aborts)))

unfoldable pub mc_transparent_abort : Mode → Wrapper
mc_transparent_abort mode = switch mode (record {
  before = aborts;
  external = aborts;
  recorded = aborts;
  restarted = writes (set_type TransitionType.process_abort) (handles_restart controlled_abort);
  controlled = controlled_abort;
  otherwise = aborts;
})

-- What `record_main_thread` and `mc_thread_routine_wrapper` add for a thread that starts.
unfoldable pub record_thread : ℕ → ℕ → RecList → Result (RecList × ℕ)
record_thread this_thread rid head = elim (find_thread_record_mode this_thread head) [
  | some t ↦ err assertion_failed
  | none ↦ ok (
    add_rec_entry_record_mode
        (record {
          location = 0;
          state =
              thread (record { pthread_desc = this_thread; id = rid; status = ThreadStatus.alive });
        })
        head,
    0,
  )
]
