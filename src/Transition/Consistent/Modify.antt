-- ===== src/Transition/Consistent/Modify.antt =====
-- Every transition keeps the condition variables consistent.
use deep_debug.Prelude.{
  ◌==◌, ◌≡◌, Bool, true, false, not, ◌||◌, if◌then◌else◌, ok, ◌>>=◌, >>=-eq-ok, ap, subst,
}
use deep_debug.Objects.Thread.{is_running, is_active}
use deep_debug.Objects.Mutex.{is_locked, is_locked_by, rid_main_thread}
use deep_debug.Objects.Semaphore.{will_block}
use deep_debug.State.{State}
use deep_debug.State.Diff.{
  DiffState, diff_of, copy, add_state_for_runner, get_state_of_runner, get_state_of_object,
}
use deep_debug.Transition.{
  Transition, thread_create, thread_start, thread_exit, thread_join, process_exit, process_abort,
  mutex_init, mutex_lock, mutex_unlock, sem_init, sem_post, sem_wait, sem_destroy, cond_init,
  cond_enqueue, cond_wait, cond_signal, cond_broadcast, cond_destroy, get_executor, modify,
  apply_to, keep_if_exists,
}
use deep_debug.Transition.Status.{Status, exists, disabled, undefined}
use deep_debug.Transition.Thread.{
  modify_thread_create, modify_thread_start, modify_thread_exit, modify_thread_join,
  modify_process_exit, modify_process_abort,
}
use deep_debug.Transition.Mutex.{
  get_mutex, modify_mutex_init, modify_mutex_lock, modify_mutex_unlock,
}
use deep_debug.Transition.Semaphore.{
  get_semaphore, modify_sem_init, modify_sem_post, modify_sem_wait, modify_sem_destroy,
}
use deep_debug.Transition.Condition.{get_condition_variable}
use deep_debug.Transition.Consistent.{
  cond_init-Keeps, cond_enqueue-Keeps, cond_wait-Keeps, cond_signal-Keeps, cond_broadcast-Keeps,
  cond_destroy-Keeps,
}
use deep_debug.Transition.Consistent.Rules.{
  AllConsistent, Keeps, same-Keeps, if-Keeps, read-Keeps, added-Keeps,
}

modify-Keeps : (t : Transition) (d : DiffState) → Keeps d (modify t d)
unfolding modify modify_thread_create modify_thread_start modify_thread_exit modify_thread_join
    modify_process_exit modify_process_abort modify_mutex_init modify_mutex_lock modify_mutex_unlock
    modify_sem_init modify_sem_post modify_sem_wait modify_sem_destroy add_state_for_runner
modify-Keeps (thread_create p t) d = added-Keeps _ _ d exists (λ cv h. cc)
modify-Keeps (thread_start p) d =
    read-Keeps d (get_state_of_runner d p) _ (λ t found. same-Keeps d _)
modify-Keeps (thread_exit p) d = read-Keeps d (get_state_of_runner d p) _ (λ t found.
    if-Keeps (not (is_running t) || (p == rid_main_thread)) d _ _ (same-Keeps d disabled)
      (added-Keeps _ _ d exists (λ cv h. cc)))
modify-Keeps (thread_join p t) d =
    read-Keeps d (get_state_of_runner d t) _ (λ s found. same-Keeps d _)
modify-Keeps (process_exit p c) d = added-Keeps _ _ d exists (λ cv h. cc)
modify-Keeps (process_abort p) d = same-Keeps d exists
modify-Keeps (mutex_init p m) d =
    read-Keeps d (get_mutex d m) _ (λ ms found. added-Keeps m _ d exists (λ cv h. cc))
modify-Keeps (mutex_lock p m) d = read-Keeps d (get_mutex d m) _ (λ ms found.
    if-Keeps (is_locked ms) d _ _ (same-Keeps d disabled) (added-Keeps m _ d exists (λ cv h. cc)))
modify-Keeps (mutex_unlock p m) d = read-Keeps d (get_mutex d m) _ (λ ms found.
    if-Keeps (not (is_locked_by ms p)) d _ _ (same-Keeps d disabled)
      (added-Keeps m _ d exists (λ cv h. cc)))
modify-Keeps (sem_init p s c) d = added-Keeps s _ d exists (λ cv h. cc)
modify-Keeps (sem_post p s) d =
    read-Keeps d (get_semaphore d s) _ (λ sem found. added-Keeps s _ d exists (λ cv h. cc))
modify-Keeps (sem_wait p s) d = read-Keeps d (get_semaphore d s) _ (λ sem found.
    if-Keeps (will_block sem) d _ _ (same-Keeps d disabled) (added-Keeps s _ d exists (λ cv h. cc)))
modify-Keeps (sem_destroy p s) d = added-Keeps s _ d exists (λ cv h. cc)
modify-Keeps (cond_init p c) d = cond_init-Keeps p c d
modify-Keeps (cond_enqueue p c m) d = cond_enqueue-Keeps p c m d
modify-Keeps (cond_wait p c m) d = cond_wait-Keeps p c m d
modify-Keeps (cond_signal p c) d = cond_signal-Keeps p c d
modify-Keeps (cond_broadcast p c) d = cond_broadcast-Keeps p c d
modify-Keeps (cond_destroy p c) d = cond_destroy-Keeps p c d

copy-AllConsistent : (d : DiffState) → AllConsistent d → AllConsistent (copy d)
unfolding get_condition_variable get_state_of_object
copy-AllConsistent d all id cv h = all id cv h

keep_if_exists-AllConsistent :
    (s : State) (e : DiffState) (st : Status) (d : DiffState) (status : Status)
    → AllConsistent (diff_of s)
    → keep_if_exists s (e, st) ≡ (d, status)
    → AllConsistent e
    → AllConsistent d
unfolding keep_if_exists
keep_if_exists-AllConsistent s e exists d status all h good =
    let same : copy e ≡ d = ap (λ x. x.0) h in subst AllConsistent same (copy-AllConsistent e good)
keep_if_exists-AllConsistent s e disabled d status all h good =
    let same : diff_of s ≡ d = ap (λ x. x.0) h in subst AllConsistent same all
keep_if_exists-AllConsistent s e undefined d status all h good =
    let same : diff_of s ≡ d = ap (λ x. x.0) h in subst AllConsistent same all

-- If in a state every condition variable counts the length of its queue and lets only threads of
-- its queue be woken by a signal, this still holds in the diff that applying any transition gives,
-- whatever its status.
pub apply_to-AllConsistent :
    (t : Transition) (s : State) (d : DiffState) (status : Status)
    → AllConsistent (diff_of s)
    → apply_to t s ≡ ok (d, status)
    → AllConsistent d
unfolding apply_to
apply_to-AllConsistent t s d status all h =
    let (runner, found, h1) = >>=-eq-ok (s.get_state_of_runner (get_executor t)) _ h in
    decided (is_active runner) h1
  where
    decided :
        (b : Bool)
        → (if b
            then (◌>>=◌ {B = DiffState × Status}
                (modify t (diff_of s))
                (λ r. ok (keep_if_exists s r)))
            else ok (diff_of s, disabled))
          ≡ ok (d, status)
        → AllConsistent d
    decided true h =
        let ((e, st), found, h1) = >>=-eq-ok (modify t (diff_of s)) _ h in
        let same : keep_if_exists s (e, st) ≡ (d, status) = cc in
        keep_if_exists-AllConsistent s e st d status all same
          (modify-Keeps t (diff_of s) e st found all)
    decided false h = let same : diff_of s ≡ d = cc in subst AllConsistent same all
