-- ===== src/Spy/Wrappers.antt =====
-- The sections of every wrapper keep the records distinct and where they are.
use deep_debug.Prelude.{
  ◌≡◌, ◌++◌, [], ◌∷◌, refl, subst, ok, ◌>>=◌, ℕ, zero, suc, ◌==◌, Bool, true, false, Option-cases,
  inl, inr, or_fail, >>=-eq-ok, assertion_failed, not,
}
use deep_debug.Spy.Keeping.{
  Keeps, SectionKeeps, unchanged, find_or_add-SectionKeeps, find_recorded-SectionKeeps,
  rewrite_semaphore-SectionKeeps, enter_waiting_room-SectionKeeps,
  find_or_add_condition-SectionKeeps, note_waiting-SectionKeeps, find_idle-SectionKeeps, if-Keeps,
  lock_rounds-Keeps, sem_wait_rounds-Keeps, cond_wait_rounds-Keeps, switch-Keeps, around-Keeps,
  write-SectionKeeps,
}
use deep_debug.Spy.Mutex.{mc_pthread_mutex_init, mc_pthread_mutex_lock, mc_pthread_mutex_unlock}
use deep_debug.Spy.Semaphore.{mc_sem_init, mc_sem_destroy, mc_sem_post, mc_sem_wait}
use deep_debug.Spy.Condition.{
  mc_pthread_cond_init, mc_pthread_cond_wait, mc_pthread_cond_signal, mc_pthread_cond_broadcast,
  mc_pthread_cond_destroy, initialize_condition,
}
use deep_debug.Policy.{CondStatus}
use deep_debug.Spy.Record.{
  ConditionRecord, RecordedObject, ThreadStatus, thread, find_thread_record_mode, update_node,
}
use deep_debug.Spy.Distinct.{IsDistinct, append-IsDistinct}
use deep_debug.Spy.Staying.{
  Stays, append-Stays, update_mutex-Preserves, update_semaphore-Preserves,
  update_condition-Preserves, mark_exited-Preserves,
}
use deep_debug.Spy.Process.{record_thread, mc_transparent_exit, mc_transparent_abort}
use deep_debug.Spy.Thread.{
  PthreadMap, PthreadEntry, find_pthread_map_entry, thread_position, find_thread, join_rounds,
  real_join, join_after_restart, exit_in_child, mc_pthread_create, mc_pthread_join_impl,
  mc_exit_thread_in_child, mark_exited, mc_pthread_exit, mc_sleep, begins_routine, ends_routine,
}
use deep_debug.Spy.{
  Mode, pre_dmtcp_init, pre_checkpoint_thread, external_thread, record_mode, pre_checkpoint,
  dmtcp_restart_into_branch, dmtcp_restart_into_template, target_template_after_restart,
  target_branch_after_restart, target_template, target_branch, etimedout, ends_thread,
}
use deep_debug.Spy.Announce.{Call, Caller, wrapper_of}

find_thread-SectionKeeps : (t : ℕ) → SectionKeeps (find_thread t)
find_thread-SectionKeeps t head after n d h =
    let (i, found, made) = >>=-eq-ok (or_fail (thread_position t head) assertion_failed) _ h in
    unchanged head after d (cc made)

join_rounds-Keeps : (rounds : ℕ) (map : PthreadMap) (t i : ℕ) → Keeps (join_rounds rounds map t i)
unfolding join_rounds
join_rounds-Keeps zero map t i = tt
join_rounds-Keeps (suc rounds) map t i = λ rc.
    if-Keeps (rc == 0) _ _ (write-SectionKeeps i _ mark_exited-Preserves, λ j. tt)
      (if-Keeps (rc == etimedout) _ _ (λ b. if-Keeps b _ _ tt (join_rounds-Keeps rounds map t i))
        tt)

pub record_thread-SectionKeeps :
    (this_thread rid : ℕ) → SectionKeeps (record_thread this_thread rid)
unfolding record_thread
record_thread-SectionKeeps this_thread rid head after n d h =
    elim (Option-cases (find_thread_record_mode this_thread head)) [
      | inl (t, found) ↦ let stuck = rw (record_thread, found) at h in cc stuck
      | inr missing ↦
          let made = rw (record_thread, missing) at h in
          let node : RecordedObject = record {
            location = 0;
            state =
                thread
                  (record { pthread_desc = this_thread; id = rid; status = ThreadStatus.alive });
          } in
          let same : head ++ node ∷ [] ≡ after = cc made in
          subst (λ x. IsDistinct x × Stays head x) same
            (append-IsDistinct head node d (inl refl), append-Stays head node)
    ]

mc_pthread_create-Keeps :
    (internal main_recorded : Bool) (main_tid this_thread created : ℕ) (mode : Mode)
    → Keeps (mc_pthread_create internal main_recorded main_tid this_thread created mode)
unfolding mc_pthread_create
mc_pthread_create-Keeps true m i t created mode = λ rc. tt
mc_pthread_create-Keeps false m i t created pre_dmtcp_init = tt
mc_pthread_create-Keeps false m i t created pre_checkpoint_thread =
    if-Keeps m _ _ (λ rc waited. tt)
      (if-Keeps (i == 0) _ _ (record_thread-SectionKeeps t i, λ j rc waited. tt) tt)
mc_pthread_create-Keeps false m i t created external_thread = λ rc. tt
mc_pthread_create-Keeps false m i t created record_mode = λ rc waited. tt
mc_pthread_create-Keeps false m i t created pre_checkpoint = λ rc waited. tt
mc_pthread_create-Keeps false m i t created dmtcp_restart_into_branch = λ rc waited. tt
mc_pthread_create-Keeps false m i t created dmtcp_restart_into_template = λ rc waited. tt
mc_pthread_create-Keeps false m i t created target_branch = λ rc waited. tt
mc_pthread_create-Keeps false m i t created target_branch_after_restart = λ rc waited. tt
mc_pthread_create-Keeps false m i t created target_template_after_restart = tt
mc_pthread_create-Keeps false m i t created target_template = tt

real_join-Keeps : (defer_real_join : Bool) (t : ℕ) → Keeps (real_join defer_real_join t)
real_join-Keeps defer_real_join t = if-Keeps defer_real_join _ _ tt (λ rc. tt)

join_after_restart-Keeps :
    (defer_real_join : Bool) (is_recreated : ℕ → Bool) (target : PthreadEntry) (t : ℕ)
    → Keeps (join_after_restart defer_real_join is_recreated target t)
join_after_restart-Keeps defer_real_join is_recreated target t =
    if-Keeps target.registered_post_restart _ _ (real_join-Keeps defer_real_join t)
      (if-Keeps (not (is_recreated t)) _ _ tt (λ waited. tt))

mc_pthread_join_impl-Keeps :
    (rounds : ℕ) (defer_real_join : Bool) (is_recreated : ℕ → Bool) (map : PthreadMap) (mode : Mode)
    (t : ℕ)
    → Keeps (mc_pthread_join_impl rounds defer_real_join is_recreated map mode t)
unfolding mc_pthread_join_impl
mc_pthread_join_impl-Keeps rounds d is_recreated map pre_dmtcp_init t = tt
mc_pthread_join_impl-Keeps rounds d is_recreated map pre_checkpoint_thread t = λ rc. tt
mc_pthread_join_impl-Keeps rounds d is_recreated map external_thread t = λ rc. tt
mc_pthread_join_impl-Keeps rounds d is_recreated map record_mode t =
    (find_thread-SectionKeeps t, λ i. join_rounds-Keeps rounds map t i)
mc_pthread_join_impl-Keeps rounds d is_recreated map pre_checkpoint t =
    (find_thread-SectionKeeps t, λ i. join_rounds-Keeps rounds map t i)
mc_pthread_join_impl-Keeps rounds d is_recreated map dmtcp_restart_into_branch t = tt
mc_pthread_join_impl-Keeps rounds d is_recreated map dmtcp_restart_into_template t = tt
mc_pthread_join_impl-Keeps rounds d is_recreated map target_branch t =
    elim (Option-cases (find_pthread_map_entry t map)) [
      | inl (target, found) ↦ rw found (λ posted. real_join-Keeps d t)
      | inr missing ↦ rw missing tt
    ]
mc_pthread_join_impl-Keeps rounds d is_recreated map target_branch_after_restart t =
    elim (Option-cases (find_pthread_map_entry t map)) [
      | inl (target, found) ↦ rw found (λ posted. join_after_restart-Keeps d is_recreated target t)
      | inr missing ↦ rw missing tt
    ]
mc_pthread_join_impl-Keeps rounds d is_recreated map target_template_after_restart t = tt
mc_pthread_join_impl-Keeps rounds d is_recreated map target_template t = tt

mc_exit_thread_in_child-Keeps :
    (map : PthreadMap) (this_thread : ℕ)
    → Keeps (mc_exit_thread_in_child map this_thread ends_thread)
mc_exit_thread_in_child-Keeps map this_thread =
    elim (Option-cases (find_pthread_map_entry this_thread map)) [
      | inl (entry, found) ↦ rw found (λ waited posted. tt)
      | inr missing ↦ rw missing tt
    ]

exit_in_child-Keeps :
    (map : PthreadMap) (tid_self this_thread : ℕ) → Keeps (exit_in_child map tid_self this_thread)
exit_in_child-Keeps map tid_self this_thread =
    if-Keeps (tid_self == 0) _ _ (if-Keeps (tid_self == 0) _ _ tt tt)
      (mc_exit_thread_in_child-Keeps map this_thread)

-- A thread that returns marks its record.
mark_thread-SectionKeeps :
    (t : ℕ)
    → SectionKeeps (λ head. or_fail (thread_position t head) assertion_failed >>= λ i.
        update_node i mark_exited head >>= λ changed. ok (changed, i))
mark_thread-SectionKeeps t head after n d h =
    let (i, found, h₁) = >>=-eq-ok (or_fail (thread_position t head) assertion_failed) _ h in
    write-SectionKeeps i mark_exited mark_exited-Preserves head after n d h₁

pub wrapper_of-Keeps : (r : Caller) (mode : Mode) (call : Call) → Keeps (wrapper_of r mode call)
unfolding mc_pthread_mutex_init mc_pthread_mutex_lock mc_pthread_mutex_unlock mc_sem_init
    mc_sem_destroy mc_sem_post mc_sem_wait mc_pthread_cond_init mc_pthread_cond_wait
    mc_pthread_cond_signal mc_pthread_cond_broadcast mc_pthread_cond_destroy mc_transparent_exit
    mc_transparent_abort mc_pthread_exit mc_sleep begins_routine ends_routine
wrapper_of-Keeps r mode (Call.mc_pthread_mutex_init a) =
    switch-Keeps mode _ (λ rc. tt) (λ rc. tt)
      (find_or_add-SectionKeeps a _, λ i rc. around-Keeps i _ rc (update_mutex-Preserves _))
      (λ rc. tt) (λ rc. tt) tt
wrapper_of-Keeps r mode (Call.mc_pthread_mutex_lock a) =
    switch-Keeps mode _ (λ rc. tt) (λ rc. tt)
      (find_or_add-SectionKeeps a _, λ i. lock_rounds-Keeps r.rounds r.tid_self a i) (λ rc. tt)
      (λ rc. tt) tt
wrapper_of-Keeps r mode (Call.mc_pthread_mutex_unlock a) =
    switch-Keeps mode _ (λ rc. tt) (λ rc. tt)
      (find_recorded-SectionKeeps a, λ i rc. around-Keeps i _ rc (update_mutex-Preserves _))
      (λ rc. tt) (λ rc. tt) tt
wrapper_of-Keeps r mode (Call.mc_sem_init a count) =
    switch-Keeps mode _ (λ rc. tt) (λ rc. tt)
      (
        find_or_add-SectionKeeps a _,
        λ i rc. if-Keeps (rc == 0) _ _ (rewrite_semaphore-SectionKeeps a _, λ j. tt) tt,
      )
      (λ b. if-Keeps b _ _ (λ rc. tt) (λ rc. tt)) (λ b. if-Keeps b _ _ (λ rc. tt) (λ rc. tt)) tt
wrapper_of-Keeps r mode (Call.mc_sem_destroy a) =
    switch-Keeps mode _ (λ rc. tt) (λ rc. tt)
      (
        find_or_add-SectionKeeps a _,
        λ i rc. if-Keeps (rc == 0) _ _ (rewrite_semaphore-SectionKeeps a _, λ j. tt) tt,
      )
      (λ b. if-Keeps b _ _ (λ rc. tt) (λ rc. tt)) (λ b. if-Keeps b _ _ (λ rc. tt) (λ rc. tt)) tt
wrapper_of-Keeps r mode (Call.mc_sem_post a) =
    switch-Keeps mode _ (λ rc. tt) (λ rc. tt)
      (find_or_add-SectionKeeps a _, λ i rc. around-Keeps i _ rc (update_semaphore-Preserves _))
      (λ b. if-Keeps b _ _ (λ rc. tt) (λ rc. tt)) (λ b. if-Keeps b _ _ (λ rc. tt) (λ rc. tt)) tt
wrapper_of-Keeps r mode (Call.mc_sem_wait a) =
    switch-Keeps mode _ (λ rc. tt) (λ rc. tt)
      (find_or_add-SectionKeeps a _, λ i. sem_wait_rounds-Keeps r.rounds a i)
      (λ b. if-Keeps b _ _ (λ rc. tt) (λ rc. tt)) (λ b. if-Keeps b _ _ (λ rc. tt) (λ rc. tt)) tt
wrapper_of-Keeps r mode (Call.mc_pthread_cond_init a) =
    switch-Keeps mode _ (λ rc. tt) tt
      (
        find_or_add-SectionKeeps a _,
        λ i rc. around-Keeps i _ rc (update_condition-Preserves initialize_condition),
      )
      tt tt tt
wrapper_of-Keeps r mode (Call.mc_pthread_cond_wait a b) =
    switch-Keeps mode _ (λ rc. tt) tt
      (
        enter_waiting_room-SectionKeeps r.this_thread a b,
        λ i. cond_wait_rounds-Keeps r.rounds r.this_thread a b i,
      )
      (λ rc rc'. tt) (λ rc rc'. tt) tt
wrapper_of-Keeps r mode (Call.mc_pthread_cond_signal a) =
    switch-Keeps mode _ (λ rc. tt) tt
      (
        note_waiting-SectionKeeps r.this_thread a,
        λ i rc. around-Keeps i _ rc (update_condition-Preserves _),
      )
      tt tt tt
wrapper_of-Keeps r mode (Call.mc_pthread_cond_broadcast a) =
    switch-Keeps mode _ (λ rc. tt) tt
      (
        find_or_add_condition-SectionKeeps r.this_thread a,
        λ i rc. around-Keeps i _ rc (update_condition-Preserves _),
      )
      tt tt tt
wrapper_of-Keeps r mode (Call.mc_pthread_cond_destroy a) =
    switch-Keeps mode _ (λ rc. tt) tt
      (
        find_idle-SectionKeeps a,
        λ i rc. around-Keeps i _ rc (
            update_condition-Preserves
              (λ (c : ConditionRecord). ok (record c { status = CondStatus.destroyed }))),
      )
      tt tt tt
wrapper_of-Keeps r mode (Call.mc_transparent_exit status) = switch-Keeps mode _ tt tt tt tt tt tt
wrapper_of-Keeps r mode Call.mc_transparent_abort = switch-Keeps mode _ tt tt tt tt tt tt
wrapper_of-Keeps r mode (Call.mc_pthread_create internal created) =
    mc_pthread_create-Keeps internal r.main_recorded r.tid_self r.this_thread created mode
wrapper_of-Keeps r mode Call.begins_routine =
    switch-Keeps mode _ tt tt (record_thread-SectionKeeps r.this_thread r.tid_self, λ i posted. tt)
      (record_thread-SectionKeeps r.this_thread r.tid_self, λ i posted. tt) (λ posted. tt) tt
wrapper_of-Keeps r mode Call.ends_routine =
    switch-Keeps mode _ tt tt (mark_thread-SectionKeeps r.this_thread, λ i. tt) tt
      (mc_exit_thread_in_child-Keeps r.pthread_map r.this_thread) tt
wrapper_of-Keeps r mode (Call.mc_pthread_join d t) =
    mc_pthread_join_impl-Keeps r.rounds d r.is_recreated r.pthread_map mode t
wrapper_of-Keeps r mode Call.mc_pthread_exit =
    switch-Keeps mode _ tt tt tt (exit_in_child-Keeps r.pthread_map r.tid_self r.this_thread)
      (exit_in_child-Keeps r.pthread_map r.tid_self r.this_thread) tt
wrapper_of-Keeps r mode (Call.mc_sleep duration) =
    switch-Keeps mode _ (λ rc. tt) (λ rc. tt) (λ rc. tt) tt tt (λ rc. tt)
