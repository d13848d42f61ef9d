-- ===== src/Spy/Announcing.antt =====
-- The parts of the wrappers that announce operations.
use deep_debug.Prelude.{
  ℕ, ◌<◌, ◌^◌, ◌==◌, ◌≡◌, refl, Bool, true, false, if◌then◌else◌, List, [], ◌∷◌, drop, Option, none,
  some, Bool-cases, inl, inr, not,
}
use deep_debug.Coordinator.TransitionType
use deep_debug.Coordinator.Registry.{Mailbox}
use deep_debug.Spy.{Mode, Cases, Wrapper, switch, set_type, aborts, ends_thread}
use deep_debug.Spy.Announce.{
  Operation, thread_join, thread_exit, Decodes, Announces, Caller, is_under_control,
}
use deep_debug.Spy.Decoding.{thread_join-Decodes, thread_exit-Decodes, memcpy_v-bytes}
use deep_debug.Spy.Semaphore.{hands_over}
use deep_debug.Spy.Thread.{
  PthreadMap, PthreadEntry, search_pthread_map, find_pthread_map_entry, real_join,
  join_after_restart, exit_in_child, mc_pthread_join_impl, mc_exit_thread_in_child,
}
use deep_debug.Spy.{
  is_in_restart_mode, Mode, pre_dmtcp_init, pre_checkpoint_thread, external_thread, record_mode,
  pre_checkpoint, dmtcp_restart_into_branch, dmtcp_restart_into_template,
  target_template_after_restart, target_branch_after_restart, target_template, target_branch,
}

-- Under control a wrapper is in one of two of its cases.
pub switch_under_control {ℓ} :
    (P : Wrapper → Type ℓ) (mode : Mode) (c : Cases)
    → is_under_control mode ≡ true
    → (is_in_restart_mode mode ≡ true → P c.restarted)
    → (is_in_restart_mode mode ≡ false → P c.controlled)
    → P (switch mode c)
switch_under_control P dmtcp_restart_into_branch c h restarted controlled = restarted refl
switch_under_control P dmtcp_restart_into_template c h restarted controlled = restarted refl
switch_under_control P target_branch c h restarted controlled = controlled refl
switch_under_control P target_branch_after_restart c h restarted controlled = controlled refl
switch_under_control P pre_dmtcp_init c h restarted controlled = cc h
switch_under_control P pre_checkpoint_thread c h restarted controlled = cc h
switch_under_control P external_thread c h restarted controlled = cc h
switch_under_control P record_mode c h restarted controlled = cc h
switch_under_control P pre_checkpoint c h restarted controlled = cc h
switch_under_control P target_template_after_restart c h restarted controlled = cc h
switch_under_control P target_template c h restarted controlled = cc h

pub hands_over-Announces :
    (mb : Mailbox) (next : Wrapper) (operation : Operation) (operations : List Operation)
    → Decodes mb operation
    → Announces mb next operations
    → Announces mb (hands_over next) (operation ∷ operations)
hands_over-Announces mb next operation operations decodes rest true = (decodes, rest)
hands_over-Announces mb next operation operations decodes rest false = (decodes, rest)

-- A wrapper that announces one operation, in the same way in both of its cases.
pub one_operation :
    (mode : Mode) (c : Cases) (mb : Mailbox) (operation : Operation)
    → is_under_control mode ≡ true
    → Announces mb c.restarted (operation ∷ [])
    → Announces mb c.controlled (operation ∷ [])
    → Announces mb (switch mode c) (operation ∷ [])
one_operation mode c mb operation h restarted controlled =
    switch_under_control (λ w. Announces mb w (operation ∷ [])) mode c h (λ e. restarted)
      (λ e. controlled)

pub under_control_mode {ℓ} :
    (P : Mode → Type ℓ) (mode : Mode)
    → is_under_control mode ≡ true
    → P dmtcp_restart_into_branch
    → P dmtcp_restart_into_template
    → P target_branch
    → P target_branch_after_restart
    → P mode
under_control_mode P dmtcp_restart_into_branch h a b c d = a
under_control_mode P dmtcp_restart_into_template h a b c d = b
under_control_mode P target_branch h a b c d = c
under_control_mode P target_branch_after_restart h a b c d = d
under_control_mode P pre_dmtcp_init h a b c d = cc h
under_control_mode P pre_checkpoint_thread h a b c d = cc h
under_control_mode P external_thread h a b c d = cc h
under_control_mode P record_mode h a b c d = cc h
under_control_mode P pre_checkpoint h a b c d = cc h
under_control_mode P target_template_after_restart h a b c d = cc h
under_control_mode P target_template h a b c d = cc h

-- A test after which the wrapper announces the same operations.
if-Announces :
    (b : Bool) (mb : Mailbox) (u v : Wrapper) (operations : List Operation)
    → Announces mb u operations
    → Announces mb v operations
    → Announces mb (if b then u else v) operations
if-Announces true mb u v operations first second = first
if-Announces false mb u v operations first second = second

real_join-Announces :
    (mb : Mailbox) (defer_real_join : Bool) (t : ℕ) → Announces mb (real_join defer_real_join t) []
real_join-Announces mb defer_real_join t = if-Announces defer_real_join mb _ _ [] refl (λ rc. refl)

join_after_restart-Announces :
    (mb : Mailbox) (defer_real_join : Bool) (is_recreated : ℕ → Bool) (t : ℕ)
    (target : PthreadEntry)
    → Announces mb (join_after_restart defer_real_join is_recreated target t) []
join_after_restart-Announces mb defer_real_join is_recreated t target =
    if-Announces target.registered_post_restart mb _ _ [] (real_join-Announces mb defer_real_join t)
      (if-Announces (not (is_recreated t)) mb _ _ [] refl (λ waited. refl))

-- The entry of a thread that has registered.
entry-Announces :
    (mb : Mailbox) (entry : Option PthreadEntry) (next : PthreadEntry → Wrapper)
    → ((target : PthreadEntry) → Announces mb (next target) [])
    → Announces mb (elim entry [ none ↦ aborts | some target ↦ next target ]) []
entry-Announces mb none next k = refl
entry-Announces mb (some target) next k = k target

pub join-Announces :
    (r : Caller) (mode : Mode) (defer_real_join : Bool) (t : ℕ) (mb : Mailbox)
    → is_under_control mode ≡ true
    → search_pthread_map t r.pthread_map < 256 ^ 2
    → Announces mb
        (mc_pthread_join_impl r.rounds defer_real_join r.is_recreated r.pthread_map mode t)
        (thread_join (search_pthread_map t r.pthread_map) ∷ [])
unfolding mc_pthread_join_impl
join-Announces r mode defer_real_join t mb h fits =
    let rid = search_pthread_map t r.pthread_map in
    let decodes = thread_join-Decodes rid _ refl (memcpy_v-bytes 2 rid (drop 2 mb.cnts) fits) in
    let entry = find_pthread_map_entry t r.pthread_map in
    under_control_mode
      (λ mode.
        Announces mb
          (mc_pthread_join_impl r.rounds defer_real_join r.is_recreated r.pthread_map mode t)
          (thread_join rid ∷ []))
      mode h (decodes, refl) (decodes, refl)
      (
        decodes,
        entry-Announces _ entry _ (λ target posted. real_join-Announces _ defer_real_join t),
      )
      (
        decodes,
        entry-Announces _ entry _ (λ target posted.
            join_after_restart-Announces _ defer_real_join r.is_recreated t target),
      )

pub mc_exit_thread_in_child-Announces :
    (mb : Mailbox) (map : PthreadMap) (this_thread : ℕ)
    → Announces mb
        (mc_exit_thread_in_child map this_thread ends_thread)
        (thread_exit ∷ thread_exit ∷ [])
mc_exit_thread_in_child-Announces mb map this_thread =
    let says = thread_exit-Decodes (set_type TransitionType.thread_exit mb) refl in
    (
      says,
      (
        says,
        entry-Announces _ (find_pthread_map_entry this_thread map) _ (λ entry waited posted. refl),
      ),
    )

pub exit-Announces :
    (mb : Mailbox) (map : PthreadMap) (tid_self this_thread : ℕ)
    → Announces mb (exit_in_child map tid_self this_thread) (thread_exit ∷ thread_exit ∷ [])
exit-Announces mb map tid_self this_thread =
    let says = thread_exit-Decodes (set_type TransitionType.thread_exit mb) refl in
    elim (Bool-cases (tid_self == 0)) [
      | inl main ↦ rw main (says, (says, refl))
      | inr other ↦ rw other (mc_exit_thread_in_child-Announces mb map this_thread)
    ]
