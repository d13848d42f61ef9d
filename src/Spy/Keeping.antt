-- ===== src/Spy/Keeping.antt =====
-- The sections of the wrappers keep the records distinct and where they are.
use deep_debug.Prelude.{
  ℕ, zero, suc, ◌==◌, ◌≡◌, subst, Bool, Option-cases, true, false, inl, inr, Result, ok, or_fail,
  ◌>>=◌, >>=-eq-ok, if◌then◌else◌, null_pointer, assertion_failed,
}
use deep_debug.Spy.Record.{
  RecordedState, RecList, SemaphoreRecord, semaphore, find_object, find_or_add,
  find_thread_record_mode, update_node,
}
use deep_debug.Spy.Distinct.{IsDistinct, find_or_add-IsDistinct, update_node-IsDistinct}
use deep_debug.Spy.Staying.{
  Stays, Preserves, Stays-refl, Stays-trans, find_or_add-Stays, update_node-Stays,
  update_mutex-Preserves, update_semaphore-Preserves, update_condition-Preserves,
  overwritten-Preserves,
}
use deep_debug.Spy.{
  Mode, pre_dmtcp_init, pre_checkpoint_thread, external_thread, record_mode, pre_checkpoint,
  dmtcp_restart_into_branch, dmtcp_restart_into_template, target_template_after_restart,
  target_branch_after_restart, target_template, target_branch, Cases, switch, Wrapper, returns,
  aborts, exits, unfinished, calls, under_lock, asks_restart_mode, writes,
  wakes_scheduler_and_waits, handles_restart, ends_thread, blocks_indefinitely, awakes_scheduler,
  awaits_scheduler, etimedout,
}
use deep_debug.Spy.Mutex.{find_recorded, lock_rounds}
use deep_debug.Spy.Semaphore.{rewrite_semaphore, sem_wait_rounds}
use deep_debug.Spy.Condition.{
  enter_waiting_room, leave_waiting_room, cond_wait_rounds, find_or_add_condition, note_waiting,
  find_idle,
}

-- A section that ends keeps the records distinct, and where they are.
abbrev pub SectionKeeps : (RecList → Result (RecList × ℕ)) → Type 0
SectionKeeps section =
    (head after : RecList) (n : ℕ)
    → IsDistinct head
    → section head ≡ ok (after, n)
    → IsDistinct after × Stays head after

abbrev pub Keeps : Wrapper → Type 0
Keeps (returns rc) = Unit {0}
Keeps aborts = Unit {0}
Keeps (exits status) = Unit {0}
Keeps ends_thread = Unit {0}
Keeps blocks_indefinitely = Unit {0}
Keeps unfinished = Unit {0}
Keeps (calls call next) = (rc : ℕ) → Keeps (next rc)
Keeps (under_lock section next) = SectionKeeps section × ((n : ℕ) → Keeps (next n))
Keeps (asks_restart_mode next) = (b : Bool) → Keeps (next b)
Keeps (writes store next) = Keeps next
Keeps (wakes_scheduler_and_waits next) = Keeps next
Keeps (awakes_scheduler next) = Keeps next
Keeps (awaits_scheduler next) = Keeps next
Keeps (handles_restart next) = Keeps next

pub find_or_add-SectionKeeps :
    (addr : ℕ) (initial : RecordedState) → SectionKeeps (λ head. ok (find_or_add addr initial head))
find_or_add-SectionKeeps addr initial head after n d h =
    let same : find_or_add addr initial head ≡ (after, n) = cc h in
    subst (λ (x : RecList × ℕ). IsDistinct x.0 × Stays head x.0) same
      (find_or_add-IsDistinct addr initial head d, find_or_add-Stays addr initial head)

-- Writing the node at a position.
pub write-SectionKeeps :
    (i : ℕ) (f : RecordedState → Result RecordedState)
    → Preserves f
    → SectionKeeps (λ head. update_node i f head >>= λ changed. ok (changed, i))
write-SectionKeeps i f preserves head after n d h =
    let (changed, updated, made) = >>=-eq-ok (update_node i f head) _ h in
    let same : changed ≡ after = cc made in
    subst (λ x. IsDistinct x × Stays head x) same
      (
        update_node-IsDistinct i f head changed updated d,
        update_node-Stays i f head changed preserves updated,
      )

pub unchanged :
    (head after : RecList) → IsDistinct head → head ≡ after → IsDistinct after × Stays head after
unchanged head after d same = subst (λ x. IsDistinct x × Stays head x) same (d, Stays-refl head)

-- A second change of the list.
then-Stays :
    (head between after : RecList)
    → Stays head between
    → IsDistinct after × Stays between after
    → IsDistinct after × Stays head after
then-Stays head between after first (d, second) = (d, Stays-trans head between after first second)

pub find_recorded-SectionKeeps : (addr : ℕ) → SectionKeeps (find_recorded addr)
unfolding find_recorded
find_recorded-SectionKeeps addr head after n d h = elim (Option-cases (find_object addr head)) [
  | inl (i, found) ↦
      let made = rw (find_recorded, found) at h in
      let same : head ≡ after = cc made in unchanged head after d same
  | inr missing ↦ let stuck = rw (find_recorded, missing) at h in cc stuck
]

pub rewrite_semaphore-SectionKeeps :
    (addr : ℕ) (s : SemaphoreRecord) → SectionKeeps (rewrite_semaphore addr s)
rewrite_semaphore-SectionKeeps addr s head after n d h =
    let (i, found, h₁) = >>=-eq-ok (or_fail (find_object addr head) assertion_failed) _ h in
    write-SectionKeeps i (λ old. ok (semaphore s)) (overwritten-Preserves s) head after n d h₁

pub enter_waiting_room-SectionKeeps :
    (this_thread addr mut : ℕ) → SectionKeeps (enter_waiting_room this_thread addr mut)
unfolding enter_waiting_room
enter_waiting_room-SectionKeeps this_thread addr mut head after n d h =
    let (t, found, h₁) =
      >>=-eq-ok (or_fail (find_thread_record_mode this_thread head) null_pointer) _ h in
    then-Stays head _ after (find_or_add-Stays addr _ head) (
      write-SectionKeeps _ _ (update_condition-Preserves _) _ after n
        (find_or_add-IsDistinct addr _ head d) h₁)

pub leave_waiting_room-SectionKeeps :
    (this_thread i : ℕ) → SectionKeeps (leave_waiting_room this_thread i)
unfolding leave_waiting_room
leave_waiting_room-SectionKeeps this_thread i head after n d h =
    let (t, found, h₁) =
      >>=-eq-ok (or_fail (find_thread_record_mode this_thread head) null_pointer) _ h in
    write-SectionKeeps i _ (update_condition-Preserves _) head after n d h₁

pub find_or_add_condition-SectionKeeps :
    (this_thread addr : ℕ) → SectionKeeps (find_or_add_condition this_thread addr)
unfolding find_or_add_condition
find_or_add_condition-SectionKeeps this_thread addr head after n d h =
    elim (Option-cases (find_object addr head)) [
      | inl (i, found) ↦
          let made = rw (find_or_add_condition, found) at h in
          let same : head ≡ after = cc made in unchanged head after d same
      | inr missing ↦
          let h₀ = rw (find_or_add_condition, missing) at h in
          let (t, found, made) =
            >>=-eq-ok (or_fail (find_thread_record_mode this_thread head) null_pointer) _ h₀ in
          find_or_add-SectionKeeps addr _ head after n d made
    ]

pub note_waiting-SectionKeeps :
    (this_thread addr : ℕ) → SectionKeeps (note_waiting this_thread addr)
unfolding note_waiting
note_waiting-SectionKeeps this_thread addr head after n d h =
    let (found, added, h₁) = >>=-eq-ok (find_or_add_condition this_thread addr head) _ h in
    let (distinct, stays) =
      find_or_add_condition-SectionKeeps this_thread addr head found.0 found.1 d added in
    then-Stays head found.0 after stays
      (write-SectionKeeps found.1 _ (update_condition-Preserves _) found.0 after n distinct h₁)

pub find_idle-SectionKeeps : (addr : ℕ) → SectionKeeps (find_idle addr)
unfolding find_idle
find_idle-SectionKeeps addr head after n d h =
    let (i, found, h₁) = >>=-eq-ok (or_fail (find_object addr head) assertion_failed) _ h in
    write-SectionKeeps i _ (update_condition-Preserves _) head after n d h₁

-- A test of the result of a library call.
pub if-Keeps : (b : Bool) (u v : Wrapper) → Keeps u → Keeps v → Keeps (if b then u else v)
if-Keeps true u v k k' = k
if-Keeps false u v k k' = k'

pub lock_rounds-Keeps : (rounds tid addr i : ℕ) → Keeps (lock_rounds rounds tid addr i)
unfolding lock_rounds
lock_rounds-Keeps zero tid addr i = tt
lock_rounds-Keeps (suc rounds) tid addr i = λ rc.
    if-Keeps (rc == 0) _ _ (write-SectionKeeps i _ (update_mutex-Preserves _), λ j. tt)
      (if-Keeps (rc == etimedout) _ _
        (λ b. if-Keeps b _ _ (λ rc. tt) (lock_rounds-Keeps rounds tid addr i)) tt)

pub sem_wait_rounds-Keeps : (rounds addr i : ℕ) → Keeps (sem_wait_rounds rounds addr i)
unfolding sem_wait_rounds
sem_wait_rounds-Keeps zero addr i = tt
sem_wait_rounds-Keeps (suc rounds) addr i = λ rc.
    if-Keeps (rc == 0) _ _ (write-SectionKeeps i _ (update_semaphore-Preserves _), λ j. tt)
      (if-Keeps (rc == etimedout) _ _
        (λ b.
          if-Keeps b _ _ (λ b. if-Keeps b _ _ (λ rc. tt) (λ rc. tt))
            (sem_wait_rounds-Keeps rounds addr i))
        tt)

pub cond_wait_rounds-Keeps :
    (rounds this_thread addr mut i : ℕ) → Keeps (cond_wait_rounds rounds this_thread addr mut i)
unfolding cond_wait_rounds
cond_wait_rounds-Keeps zero this_thread addr mut i = tt
cond_wait_rounds-Keeps (suc rounds) this_thread addr mut i = λ rc.
    if-Keeps (rc == 0) _ _ (leave_waiting_room-SectionKeeps this_thread i, λ j. tt)
      (if-Keeps (rc == etimedout) _ _
        (λ b. if-Keeps b _ _ (λ rc rc'. tt) (cond_wait_rounds-Keeps rounds this_thread addr mut i))
        tt)

pub switch-Keeps :
    (mode : Mode) (c : Cases)
    → Keeps c.before
    → Keeps c.external
    → Keeps c.recorded
    → Keeps c.restarted
    → Keeps c.controlled
    → Keeps c.otherwise
    → Keeps (switch mode c)
switch-Keeps pre_dmtcp_init c a b r s t o = a
switch-Keeps pre_checkpoint_thread c a b r s t o = a
switch-Keeps external_thread c a b r s t o = b
switch-Keeps record_mode c a b r s t o = r
switch-Keeps pre_checkpoint c a b r s t o = r
switch-Keeps dmtcp_restart_into_branch c a b r s t o = s
switch-Keeps dmtcp_restart_into_template c a b r s t o = s
switch-Keeps target_branch c a b r s t o = t
switch-Keeps target_branch_after_restart c a b r s t o = t
switch-Keeps target_template_after_restart c a b r s t o = o
switch-Keeps target_template c a b r s t o = o

-- A library call between two sections.
pub around-Keeps :
    (i : ℕ) (f : RecordedState → Result RecordedState) (rc : ℕ)
    → Preserves f
    → Keeps (
        if rc == 0
        then under_lock
            (λ head. update_node i f head >>= λ changed. ok (changed, i))
            (λ j. returns rc)
        else returns rc)
around-Keeps i f rc preserves =
    if-Keeps (rc == 0) _ _ (write-SectionKeeps i f preserves, λ j. tt) tt
