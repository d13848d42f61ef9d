-- ===== src/Spy/Decoding.antt =====
-- The registered callbacks read from a mailbox what it holds.
use deep_debug.Prelude.{
  ℕ, zero, suc, ◌/◌, ◌<◌, ◌^◌, ◌≡◌, refl, ap, ◌∙◌, List, ◌++◌, some, drop, arith,
}
use native.Mathlib.Nat.{pow-succ'}
use deep_debug.Coordinator.TransitionType
use deep_debug.Coordinator.Registry.{
  Mailbox, Memory, TransitionDiscoveryCallback, memcpy_v, pointer_size, int_size, runner_id_size,
  first_pointer, second_pointer, default_registry, register_all, default_callbacks,
  get_callback_for,
}
use deep_debug.Spy.{bytes, put, set_type}
use deep_debug.Coordinator.{Coordinator}
use deep_debug.Spy.Announce.{
  Operation, mutex_init, mutex_lock, mutex_unlock, sem_init, sem_destroy, sem_post, sem_wait,
  cond_init, cond_enqueue, cond_wait, cond_signal, cond_broadcast, cond_destroy, process_exit,
  process_abort, thread_create, thread_join, thread_exit, translate, Decodes,
}

-- What has been written is read again.
pub memcpy_v-bytes :
    (size n : ℕ) (rest : List ℕ) → n < 256 ^ size → memcpy_v size (bytes size n ++ rest) ≡ n
unfolding memcpy_v bytes
memcpy_v-bytes zero n rest h = omega arith
memcpy_v-bytes (suc size) n rest h =
    let later = memcpy_v-bytes size (n / 256) rest (omega (arith, pow-succ' 256 size)) in
    omega arith

-- A mailbox of the type `type`, whose contents begin with the address `a`.
abbrev pub At : ℕ → ℕ → Mailbox → Type 0
At type a mb = (mb.type ≡ type) × (first_pointer mb ≡ a)

-- A type whose callback reads one pointer.
pointer-Decodes :
    (type : ℕ) (operation : ℕ → Operation)
    → ((m : Memory)
        → (callback : TransitionDiscoveryCallback) × (get_callback_for type (default_registry m)
            ≡ some callback)
          × ((p : ℕ) (mb : Mailbox) (c : Coordinator)
              → callback p mb c ≡ translate m (operation (first_pointer mb)) p c))
    → (a : ℕ) (mb : Mailbox) → At type a mb
    → Decodes mb (operation a)
pointer-Decodes type operation reads a mb (t, h) m p c =
    let (callback, known, called) = reads m in
    (
      callback,
      ap (λ x. get_callback_for x (default_registry m)) t ∙ known,
      called p mb c ∙ ap (λ x. translate m (operation x) p c) h,
    )

pub mutex_init-Decodes :
    (a : ℕ) (mb : Mailbox) → At TransitionType.mutex_init a mb → Decodes mb (mutex_init a)
unfolding get_callback_for default_registry register_all default_callbacks
mutex_init-Decodes =
    pointer-Decodes TransitionType.mutex_init mutex_init (λ m. (_, refl, λ p mb c. refl))

pub mutex_lock-Decodes :
    (a : ℕ) (mb : Mailbox) → At TransitionType.mutex_lock a mb → Decodes mb (mutex_lock a)
unfolding get_callback_for default_registry register_all default_callbacks
mutex_lock-Decodes =
    pointer-Decodes TransitionType.mutex_lock mutex_lock (λ m. (_, refl, λ p mb c. refl))

pub mutex_unlock-Decodes :
    (a : ℕ) (mb : Mailbox) → At TransitionType.mutex_unlock a mb → Decodes mb (mutex_unlock a)
unfolding get_callback_for default_registry register_all default_callbacks
mutex_unlock-Decodes =
    pointer-Decodes TransitionType.mutex_unlock mutex_unlock (λ m. (_, refl, λ p mb c. refl))

pub sem_destroy-Decodes :
    (a : ℕ) (mb : Mailbox) → At TransitionType.sem_destroy a mb → Decodes mb (sem_destroy a)
unfolding get_callback_for default_registry register_all default_callbacks
sem_destroy-Decodes =
    pointer-Decodes TransitionType.sem_destroy sem_destroy (λ m. (_, refl, λ p mb c. refl))

pub sem_post-Decodes :
    (a : ℕ) (mb : Mailbox) → At TransitionType.sem_post a mb → Decodes mb (sem_post a)
unfolding get_callback_for default_registry register_all default_callbacks
sem_post-Decodes = pointer-Decodes TransitionType.sem_post sem_post (λ m. (_, refl, λ p mb c. refl))

pub sem_wait-Decodes :
    (a : ℕ) (mb : Mailbox) → At TransitionType.sem_wait a mb → Decodes mb (sem_wait a)
unfolding get_callback_for default_registry register_all default_callbacks
sem_wait-Decodes = pointer-Decodes TransitionType.sem_wait sem_wait (λ m. (_, refl, λ p mb c. refl))

pub cond_init-Decodes :
    (a : ℕ) (mb : Mailbox) → At TransitionType.cond_init a mb → Decodes mb (cond_init a)
unfolding get_callback_for default_registry register_all default_callbacks
cond_init-Decodes =
    pointer-Decodes TransitionType.cond_init cond_init (λ m. (_, refl, λ p mb c. refl))

pub cond_signal-Decodes :
    (a : ℕ) (mb : Mailbox) → At TransitionType.cond_signal a mb → Decodes mb (cond_signal a)
unfolding get_callback_for default_registry register_all default_callbacks
cond_signal-Decodes =
    pointer-Decodes TransitionType.cond_signal cond_signal (λ m. (_, refl, λ p mb c. refl))

pub cond_broadcast-Decodes :
    (a : ℕ) (mb : Mailbox) → At TransitionType.cond_broadcast a mb → Decodes mb (cond_broadcast a)
unfolding get_callback_for default_registry register_all default_callbacks
cond_broadcast-Decodes =
    pointer-Decodes TransitionType.cond_broadcast cond_broadcast (λ m. (_, refl, λ p mb c. refl))

pub cond_destroy-Decodes :
    (a : ℕ) (mb : Mailbox) → At TransitionType.cond_destroy a mb → Decodes mb (cond_destroy a)
unfolding get_callback_for default_registry register_all default_callbacks
cond_destroy-Decodes =
    pointer-Decodes TransitionType.cond_destroy cond_destroy (λ m. (_, refl, λ p mb c. refl))

pub cond_enqueue-Decodes :
    (a b : ℕ) (mb : Mailbox)
    → At TransitionType.cond_enqueue a mb
    → second_pointer mb ≡ b
    → Decodes mb (cond_enqueue a b)
unfolding get_callback_for default_registry register_all default_callbacks
cond_enqueue-Decodes a b mb (t, h) h' m p c = (
  _,
  ap (λ x. get_callback_for x (default_registry m)) t,
  ap (λ x. translate m (cond_enqueue x (second_pointer mb)) p c) h
      ∙ ap (λ x. translate m (cond_enqueue a x) p c) h',
)

pub cond_wait-Decodes :
    (a b : ℕ) (mb : Mailbox)
    → At TransitionType.cond_wait a mb
    → second_pointer mb ≡ b
    → Decodes mb (cond_wait a b)
unfolding get_callback_for default_registry register_all default_callbacks
cond_wait-Decodes a b mb (t, h) h' m p c = (
  _,
  ap (λ x. get_callback_for x (default_registry m)) t,
  ap (λ x. translate m (cond_wait x (second_pointer mb)) p c) h
      ∙ ap (λ x. translate m (cond_wait a x) p c) h',
)

pub sem_init-Decodes :
    (a count : ℕ) (mb : Mailbox)
    → At TransitionType.sem_init a mb
    → memcpy_v int_size (drop pointer_size mb.cnts) ≡ count
    → Decodes mb (sem_init a count)
unfolding get_callback_for default_registry register_all default_callbacks
sem_init-Decodes a count mb (t, h) h' m p c = (
  _,
  ap (λ x. get_callback_for x (default_registry m)) t,
  ap (λ x. translate m (sem_init x (memcpy_v int_size (drop pointer_size mb.cnts))) p c) h
      ∙ ap (λ x. translate m (sem_init a x) p c) h',
)

pub process_exit-Decodes :
    (status : ℕ) (mb : Mailbox)
    → mb.type ≡ TransitionType.process_exit
    → memcpy_v int_size mb.cnts ≡ status
    → Decodes mb (process_exit status)
unfolding get_callback_for default_registry register_all default_callbacks
process_exit-Decodes status mb t h m p c = (
  _,
  ap (λ x. get_callback_for x (default_registry m)) t,
  ap (λ x. translate m (process_exit x) p c) h,
)

pub process_abort-Decodes :
    (mb : Mailbox) → mb.type ≡ TransitionType.process_abort → Decodes mb process_abort
unfolding get_callback_for default_registry register_all default_callbacks
process_abort-Decodes mb t m p c = (_, ap (λ x. get_callback_for x (default_registry m)) t, refl)

pub thread_create-Decodes :
    (a : ℕ) (mb : Mailbox) → At TransitionType.thread_create a mb → Decodes mb (thread_create a)
unfolding get_callback_for default_registry register_all default_callbacks
thread_create-Decodes =
    pointer-Decodes TransitionType.thread_create thread_create (λ m. (_, refl, λ p mb c. refl))

pub thread_join-Decodes :
    (rid : ℕ) (mb : Mailbox)
    → mb.type ≡ TransitionType.thread_join
    → memcpy_v runner_id_size mb.cnts ≡ rid
    → Decodes mb (thread_join rid)
unfolding get_callback_for default_registry register_all default_callbacks
thread_join-Decodes rid mb t h m p c = (
  _,
  ap (λ x. get_callback_for x (default_registry m)) t,
  ap (λ x. translate m (thread_join x) p c) h,
)

pub thread_exit-Decodes :
    (mb : Mailbox) → mb.type ≡ TransitionType.thread_exit → Decodes mb thread_exit
unfolding get_callback_for default_registry register_all default_callbacks
thread_exit-Decodes mb t m p c = (_, ap (λ x. get_callback_for x (default_registry m)) t, refl)

-- `mb->type = type; memcpy_v(mb->cnts, &a, sizeof(a))`
abbrev pub written : ℕ → ℕ → Mailbox → Mailbox
written type a mb = put 0 pointer_size a (set_type type mb)

pub written-At : (type a : ℕ) (mb : Mailbox) → a < 256 ^ 8 → At type a (written type a mb)
unfolding first_pointer
written-At type a mb h = (refl, memcpy_v-bytes 8 a (drop 8 mb.cnts) h)

-- A second address leaves the first one.
pub written_twice-At :
    (type a b : ℕ) (mb : Mailbox)
    → a < 256 ^ 8
    → b < 256 ^ 8
    → At type a (put pointer_size pointer_size b (written type a mb))
      × (second_pointer (put pointer_size pointer_size b (written type a mb)) ≡ b)
unfolding first_pointer second_pointer bytes
written_twice-At type a b mb h h' =
    let kept = drop 16 (written type a mb).cnts in
    ((refl, memcpy_v-bytes 8 a (bytes 8 b ++ kept) h), memcpy_v-bytes 8 b kept h')

pub written_count-At :
    (type a count : ℕ) (mb : Mailbox)
    → a < 256 ^ 8
    → count < 256 ^ 4
    → At type a (put pointer_size int_size count (written type a mb))
      × (memcpy_v int_size
            (drop pointer_size (put pointer_size int_size count (written type a mb)).cnts)
          ≡ count)
unfolding first_pointer bytes
written_count-At type a count mb h h' =
    let kept = drop 12 (written type a mb).cnts in
    ((refl, memcpy_v-bytes 8 a (bytes 4 count ++ kept) h), memcpy_v-bytes 4 count kept h')

pub written_status :
    (mb : Mailbox) (status : ℕ)
    → status < 256 ^ 4
    → memcpy_v int_size (put 0 int_size status mb).cnts ≡ status
written_status mb status h = memcpy_v-bytes 4 status (drop 4 mb.cnts) h
