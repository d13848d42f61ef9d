-- ===== src/Coordinator/Kept/Callbacks.antt =====
-- Every callback of the default registry keeps the trace and the keys.
use deep_debug.Prelude.{
  ℕ, ◌==◌, ◌≡◌, Bool, [], ◌∷◌, some, inl, inr, lookup, Bool-cases, if◌then◌else◌, ok, ◌>>=◌,
  >>=-eq-ok, subst,
}
use deep_debug.Objects.Thread.{ThreadState}
use deep_debug.Transition.{thread_start}
use deep_debug.Coordinator.{Coordinator, contains_object, contains_runner, observe_runner}
use deep_debug.Coordinator.Callbacks.{
  mutex_init_callback, mutex_lock_callback, mutex_unlock_callback, sem_init_callback,
  sem_post_callback, sem_wait_callback, sem_destroy_callback, thread_create_callback,
  thread_exit_callback, thread_join_callback, process_exit_callback, process_abort_callback,
}
use deep_debug.Coordinator.Conditions.{
  ensure_cond_initialized, cond_init_callback, cond_waiting_thread_enqueue_callback,
  cond_wait_callback, cond_signal_callback, cond_broadcast_callback, cond_destroy_callback,
}
use deep_debug.Coordinator.Registry.{
  Mailbox, Memory, TransitionDiscoveryCallback, Registry, get_callback_for, default_registry,
}
use deep_debug.Coordinator.Kept.{
  Kept, Keeps, KeepsOne, Kept-refl, ok-Keeps, err-Keeps, if-Keeps, guard-Keeps, found-Keeps,
  ensure_object-KeepsOne, bind-Keeps, observe_runner-Keeps,
}

mutex_init-Keeps : (p h : ℕ) (c : Coordinator) → Keeps c (mutex_init_callback p h c)
unfolding mutex_init_callback
mutex_init-Keeps p h c = bind-Keeps c _ _ (ensure_object-KeepsOne h _ c) (λ d. ok-Keeps d _)

mutex_lock-Keeps :
    (is_static : ℕ → Bool) (p h : ℕ) (c : Coordinator)
    → Keeps c (mutex_lock_callback is_static p h c)
unfolding mutex_lock_callback
mutex_lock-Keeps is_static p h c = if-Keeps (contains_object h c) c _ _ (ok-Keeps c _) (
    if-Keeps (is_static h) c _ _
      (bind-Keeps c _ _ (ensure_object-KeepsOne h _ c) (λ d. ok-Keeps d _)) (err-Keeps c _))

mutex_unlock-Keeps : (p h : ℕ) (c : Coordinator) → Keeps c (mutex_unlock_callback p h c)
unfolding mutex_unlock_callback
mutex_unlock-Keeps p h c = guard-Keeps (contains_object h c) c _ _

sem_init-Keeps : (p h n : ℕ) (c : Coordinator) → Keeps c (sem_init_callback p h n c)
unfolding sem_init_callback
sem_init-Keeps p h n c = bind-Keeps c _ _ (ensure_object-KeepsOne h _ c) (λ d. ok-Keeps d _)

sem_post-Keeps : (p h : ℕ) (c : Coordinator) → Keeps c (sem_post_callback p h c)
unfolding sem_post_callback
sem_post-Keeps p h c = guard-Keeps (contains_object h c) c _ _

sem_wait-Keeps : (p h : ℕ) (c : Coordinator) → Keeps c (sem_wait_callback p h c)
unfolding sem_wait_callback
sem_wait-Keeps p h c = guard-Keeps (contains_object h c) c _ _

sem_destroy-Keeps : (p h : ℕ) (c : Coordinator) → Keeps c (sem_destroy_callback p h c)
unfolding sem_destroy_callback
sem_destroy-Keeps p h c = guard-Keeps (contains_object h c) c _ _

ensure_runner-KeepsOne :
    (h : ℕ) (c : Coordinator)
    → KeepsOne c (
        if contains_runner h c
        then ok c
        else (do r ← observe_runner h ThreadState.embryo thread_start c; ok r.0))
ensure_runner-KeepsOne h c d e = elim (Bool-cases (contains_runner h c)) [
  | inl hit ↦
      let same : ok c ≡ ok d = rw hit at e in
      let there : c ≡ d = cc same in subst (Kept c) there (Kept-refl c)
  | inr miss ↦
      let (r, observed, made) =
        >>=-eq-ok (observe_runner h ThreadState.embryo thread_start c) _ (rw miss at e) in
      let there : r.0 ≡ d = cc made in
      subst (Kept c) there (observe_runner-Keeps h ThreadState.embryo c r.0 r.1 observed)
]

thread_create-Keeps : (p h : ℕ) (c : Coordinator) → Keeps c (thread_create_callback p h c)
unfolding thread_create_callback
thread_create-Keeps p h c = bind-Keeps c _ _ (ensure_runner-KeepsOne h c) (λ d. ok-Keeps d _)

thread_join-Keeps : (p target : ℕ) (c : Coordinator) → Keeps c (thread_join_callback p target c)
unfolding thread_join_callback
thread_join-Keeps p target c = if-Keeps (target == 65535) c _ _ (err-Keeps c _) (ok-Keeps c _)

ensure_cond-KeepsOne :
    (is_static : ℕ → Bool) (h : ℕ) (c : Coordinator)
    → KeepsOne c (ensure_cond_initialized is_static h c)
unfolding ensure_cond_initialized
ensure_cond-KeepsOne is_static h c d e = elim (Bool-cases (contains_object h c)) [
  | inl hit ↦
      let same : ok c ≡ ok d = rw hit at e in
      let there : c ≡ d = cc same in subst (Kept c) there (Kept-refl c)
  | inr miss ↦ elim (Bool-cases (is_static h)) [
    | inl static ↦ ensure_object-KeepsOne h _ c d (rw (miss, static) at e)
    | inr garbage ↦ let stuck = rw (miss, garbage) at e in cc stuck
  ]
]

cond_init-Keeps : (p h : ℕ) (c : Coordinator) → Keeps c (cond_init_callback p h c)
unfolding cond_init_callback
cond_init-Keeps p h c = bind-Keeps c _ _ (ensure_object-KeepsOne h _ c) (λ d. ok-Keeps d _)

cond_enqueue-Keeps :
    (is_static : ℕ → Bool) (p h m : ℕ) (c : Coordinator)
    → Keeps c (cond_waiting_thread_enqueue_callback is_static p h m c)
unfolding cond_waiting_thread_enqueue_callback
cond_enqueue-Keeps is_static p h m c =
    bind-Keeps c _ _ (ensure_cond-KeepsOne is_static h c)
      (λ d. guard-Keeps (contains_object m d) d _ _)

cond_wait-Keeps : (p h m : ℕ) (c : Coordinator) → Keeps c (cond_wait_callback p h m c)
unfolding cond_wait_callback
cond_wait-Keeps p h m c =
    if-Keeps (contains_object h c) c _ _ (guard-Keeps (contains_object m c) c _ _) (err-Keeps c _)

cond_signal-Keeps :
    (is_static : ℕ → Bool) (p h : ℕ) (c : Coordinator)
    → Keeps c (cond_signal_callback is_static p h c)
unfolding cond_signal_callback
cond_signal-Keeps is_static p h c =
    bind-Keeps c _ _ (ensure_cond-KeepsOne is_static h c) (λ d. ok-Keeps d _)

cond_broadcast-Keeps :
    (is_static : ℕ → Bool) (p h : ℕ) (c : Coordinator)
    → Keeps c (cond_broadcast_callback is_static p h c)
unfolding cond_broadcast_callback
cond_broadcast-Keeps is_static p h c =
    bind-Keeps c _ _ (ensure_cond-KeepsOne is_static h c) (λ d. ok-Keeps d _)

cond_destroy-Keeps : (p h : ℕ) (c : Coordinator) → Keeps c (cond_destroy_callback p h c)
unfolding cond_destroy_callback
cond_destroy-Keeps p h c = guard-Keeps (contains_object h c) c _ _

thread_exit-Keeps : (p : ℕ) (c : Coordinator) → Keeps c (thread_exit_callback p c)
unfolding thread_exit_callback
thread_exit-Keeps p c = ok-Keeps c _

process_exit-Keeps : (p n : ℕ) (c : Coordinator) → Keeps c (process_exit_callback p n c)
unfolding process_exit_callback
process_exit-Keeps p n c = ok-Keeps c _

process_abort-Keeps : (p : ℕ) (c : Coordinator) → Keeps c (process_abort_callback p c)
unfolding process_abort_callback
process_abort-Keeps p c = ok-Keeps c _

-- Each callback of a registry keeps the trace and the keys.
abbrev AllKeep : Registry → Type 0
AllKeep [] = Unit
AllKeep ((rttid, callback) ∷ tr) =
    ((p : ℕ) (mb : Mailbox) (c : Coordinator) → Keeps c (callback p mb c)) × AllKeep tr

AllKeep-lookup :
    (tr : Registry) (rttid : ℕ) (callback : TransitionDiscoveryCallback)
    → AllKeep tr
    → lookup rttid tr ≡ some callback
    → (p : ℕ) (mb : Mailbox) (c : Coordinator) → Keeps c (callback p mb c)
AllKeep-lookup [] rttid callback k h p mb c = cc h
AllKeep-lookup ((j, f) ∷ tr) rttid callback (k, ks) h p mb c = elim (Bool-cases (j == rttid)) [
  | inl hit ↦
      let found_here : some f ≡ some callback = rw hit at h in
      let same : f ≡ callback = cc found_here in
      subst (λ (g : TransitionDiscoveryCallback). Keeps c (g p mb c)) same (k p mb c)
  | inr miss ↦ AllKeep-lookup tr rttid callback ks (rw miss at h) p mb c
]

default_registry-AllKeep : (m : Memory) → AllKeep (default_registry m)
unfolding default_registry
default_registry-AllKeep m = (
  λ p mb c. found-Keeps c _ (mutex_init-Keeps p _ c),
  (
    λ p mb c. found-Keeps c _ (mutex_lock-Keeps _ p _ c),
    (
      λ p mb c. found-Keeps c _ (mutex_unlock-Keeps p _ c),
      (
        λ p mb c. found-Keeps c _ (thread_create-Keeps p _ c),
        (
          λ p mb c. found-Keeps c _ (thread_exit-Keeps p c),
          (
            λ p mb c. found-Keeps c _ (thread_join-Keeps p _ c),
            (
              λ p mb c. found-Keeps c _ (process_exit-Keeps p _ c),
              (
                λ p mb c. found-Keeps c _ (process_abort-Keeps p c),
                (
                  λ p mb c. found-Keeps c _ (cond_init-Keeps p _ c),
                  (
                    λ p mb c. found-Keeps c _ (cond_enqueue-Keeps _ p _ _ c),
                    (
                      λ p mb c. found-Keeps c _ (cond_wait-Keeps p _ _ c),
                      (
                        λ p mb c. found-Keeps c _ (cond_signal-Keeps _ p _ c),
                        (
                          λ p mb c. found-Keeps c _ (cond_broadcast-Keeps _ p _ c),
                          (
                            λ p mb c. found-Keeps c _ (cond_destroy-Keeps p _ c),
                            (
                              λ p mb c. found-Keeps c _ (sem_init-Keeps p _ _ c),
                              (
                                λ p mb c. sem_destroy-Keeps p _ c,
                                (
                                  λ p mb c. found-Keeps c _ (sem_post-Keeps p _ c),
                                  (λ p mb c. found-Keeps c _ (sem_wait-Keeps p _ c), tt),
                                ),
                              ),
                            ),
                          ),
                        ),
                      ),
                    ),
                  ),
                ),
              ),
            ),
          ),
        ),
      ),
    ),
  ),
)

pub callback-Keeps :
    (m : Memory) (rttid : ℕ) (callback : TransitionDiscoveryCallback)
    → get_callback_for rttid (default_registry m) ≡ some callback
    → (p : ℕ) (mb : Mailbox) (c : Coordinator) → Keeps c (callback p mb c)
unfolding get_callback_for
callback-Keeps m rttid callback =
    AllKeep-lookup (default_registry m) rttid callback (default_registry-AllKeep m)
