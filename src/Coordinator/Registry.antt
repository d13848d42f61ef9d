-- ===== src/Coordinator/Registry.antt =====
-- include/mcmini/model/transition_registry.hpp, src/mcmini/model/transition_registry.cpp and the
-- enumeration of include/mcmini/spy/checkpointing/transitions.h: the callback for what a runner
-- has written into its mailbox.
use deep_debug.Prelude.{
  ℕ, zero, suc, ◌+◌, ◌*◌, Bool, List, [], ◌∷◌, Option, some, lookup, assign, has_key, if◌then◌else◌,
  Result, ok, ◌>>=◌, drop,
}
use deep_debug.Transition.{Transition}
use deep_debug.Coordinator.{Coordinator}
use deep_debug.Coordinator.Callbacks.{
  mutex_init_callback, mutex_lock_callback, mutex_unlock_callback, sem_init_callback,
  sem_post_callback, sem_wait_callback, sem_destroy_callback, thread_create_callback,
  thread_exit_callback, thread_join_callback, process_exit_callback, process_abort_callback,
}
use deep_debug.Coordinator.TransitionType
use deep_debug.Coordinator.Conditions.{
  cond_init_callback, cond_waiting_thread_enqueue_callback, cond_wait_callback,
  cond_signal_callback, cond_broadcast_callback, cond_destroy_callback,
}

-- What the callbacks read of a `runner_mailbox`: `cnts` is a list of bytes.
pub record Mailbox : Type 0 where
  pub type : ℕ
  pub cnts : List ℕ

-- Where the bytes at an address of the process are those of a static initializer.
pub record Memory : Type 0 where
  pub remote_mutex_is_static_initializer : ℕ → Bool
  pub remote_cond_is_static_initializer : ℕ → Bool

-- `memcpy_v` into an unsigned number of `size` bytes, the lowest byte first.
unfoldable pub memcpy_v : ℕ → List ℕ → ℕ
memcpy_v zero bytes = 0
memcpy_v (suc size) [] = 0
memcpy_v (suc size) (b ∷ bytes) = b + 256 * memcpy_v size bytes

abbrev pub pointer_size : ℕ
pointer_size = 8

abbrev pub int_size : ℕ
int_size = 4

abbrev pub runner_id_size : ℕ
runner_id_size = 2

-- The pointer at the start of the contents, and the one after it.
unfoldable pub first_pointer : Mailbox → ℕ
unfolding memcpy_v
first_pointer mb = memcpy_v pointer_size mb.cnts

unfoldable pub second_pointer : Mailbox → ℕ
unfolding memcpy_v
second_pointer mb = memcpy_v pointer_size (drop pointer_size mb.cnts)

-- A null pointer, which stands for no transition, is `none`.
abbrev pub TransitionDiscoveryCallback : Type 0
TransitionDiscoveryCallback = ℕ → Mailbox → Coordinator → Result (Coordinator × Option Transition)

abbrev pub found : Result (Coordinator × Transition) → Result (Coordinator × Option Transition)
found r = r >>= λ x. ok (x.0, some x.1)

abbrev pub Registry : Type 0
Registry = List (ℕ × TransitionDiscoveryCallback)

-- `insert` of the unordered map: a second registration changes nothing.
unfoldable pub register_transition : ℕ → TransitionDiscoveryCallback → Registry → Registry
register_transition rttid callback tr = if has_key rttid tr then tr else assign rttid callback tr

unfoldable pub get_callback_for : ℕ → Registry → Option TransitionDiscoveryCallback
get_callback_for rttid tr = lookup rttid tr

-- Each callback with what it reads from the mailbox, in the order of registration.
unfoldable pub default_callbacks : Memory → Registry
default_callbacks m =
    (TransitionType.mutex_init, λ p mb c. found (mutex_init_callback p (first_pointer mb) c))
    ∷ (
      TransitionType.mutex_lock,
      λ p mb c.
          found (mutex_lock_callback m.remote_mutex_is_static_initializer p (first_pointer mb) c),
    )
    ∷ (TransitionType.mutex_unlock, λ p mb c. found (mutex_unlock_callback p (first_pointer mb) c))
    ∷ (
      TransitionType.thread_create,
      λ p mb c. found (thread_create_callback p (first_pointer mb) c),
    )
    ∷ (TransitionType.thread_exit, λ p mb c. found (thread_exit_callback p c))
    ∷ (
      TransitionType.thread_join,
      λ p mb c. found (thread_join_callback p (memcpy_v runner_id_size mb.cnts) c),
    )
    ∷ (
      TransitionType.process_exit,
      λ p mb c. found (process_exit_callback p (memcpy_v int_size mb.cnts) c),
    )
    ∷ (TransitionType.process_abort, λ p mb c. found (process_abort_callback p c))
    ∷ (TransitionType.cond_init, λ p mb c. found (cond_init_callback p (first_pointer mb) c))
    ∷ (
      TransitionType.cond_enqueue,
      λ p mb c. found (
          cond_waiting_thread_enqueue_callback m.remote_cond_is_static_initializer p
            (first_pointer mb) (second_pointer mb) c),
    )
    ∷ (
      TransitionType.cond_wait,
      λ p mb c. found (cond_wait_callback p (first_pointer mb) (second_pointer mb) c),
    )
    ∷ (
      TransitionType.cond_signal,
      λ p mb c.
          found (cond_signal_callback m.remote_cond_is_static_initializer p (first_pointer mb) c),
    )
    ∷ (
      TransitionType.cond_broadcast,
      λ p mb c.
          found
            (cond_broadcast_callback m.remote_cond_is_static_initializer p (first_pointer mb) c),
    )
    ∷ (TransitionType.cond_destroy, λ p mb c. found (cond_destroy_callback p (first_pointer mb) c))
    ∷ (
      TransitionType.sem_init,
      λ p mb c. found (
          sem_init_callback p (first_pointer mb) (memcpy_v int_size (drop pointer_size mb.cnts)) c),
    )
    ∷ (TransitionType.sem_destroy, λ p mb c. sem_destroy_callback p (first_pointer mb) c)
    ∷ (TransitionType.sem_post, λ p mb c. found (sem_post_callback p (first_pointer mb) c))
    ∷ (TransitionType.sem_wait, λ p mb c. found (sem_wait_callback p (first_pointer mb) c))
    ∷ []

-- Registers all of a list.
unfoldable pub register_all : Registry → Registry → Registry
unfolding register_transition
register_all [] tr = tr
register_all ((rttid, callback) ∷ rest) tr =
    register_all rest (register_transition rttid callback tr)

unfoldable pub default_registry : Memory → Registry
unfolding default_callbacks register_all
default_registry m = register_all (default_callbacks m) []
