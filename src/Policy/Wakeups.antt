-- ===== src/Policy/Wakeups.antt =====
-- Who may leave, and how many: signals are used up one by one, a broadcast frees all.
use deep_debug.Prelude.{
  ℕ, suc, ◌+◌, ◌≤◌, ◌≡◌, refl, ap, Bool, true, false, ◌||◌, List, [], ◌∷◌, map, any, erase_first,
  contains, insert, erase, length, Result, ok, is_ok, arith, contains-insert, contains-erase, ◌>>=◌,
  >>=-eq-ok,
}
use deep_debug.Policy.{Policy, WakeGroup, group_contains, remove_candidate_thread}
use deep_debug.Policy.Default.{insert_all, insert_groups, thread_can_exit}
use deep_debug.Policy.SingleGroup

abbrev in_group : ℕ → List WakeGroup → Bool
in_group tid = any (λ wg. group_contains wg tid)

contains-insert_all :
    (t : ℕ) (ts es : List ℕ) → contains t (insert_all ts es) ≡ (contains t ts || contains t es)
contains-insert_all t [] es = refl
contains-insert_all t (x ∷ ts) es =
    ground (arith, contains-insert_all t ts (insert x es), contains-insert t x es)

contains-insert_groups :
    (t : ℕ) (gs : List WakeGroup) (es : List ℕ)
    → contains t (insert_groups gs es) ≡ (in_group t gs || contains t es)
contains-insert_groups t [] es = refl
contains-insert_groups t (g ∷ gs) es =
    ground (arith, contains-insert_groups t gs (insert_all g es), contains-insert_all t g es)

in_group-removed :
    (t : ℕ) (gs : List WakeGroup) → in_group t (map (remove_candidate_thread t) gs) ≡ false
in_group-removed t [] = refl
in_group-removed t (g ∷ gs) = ground (arith, in_group-removed t gs, contains-erase t t g)

length-map_removed :
    (t : ℕ) (gs : List WakeGroup) → length (map (remove_candidate_thread t) gs) ≡ length gs
length-map_removed t [] = refl
length-map_removed t (g ∷ gs) = ap suc (length-map_removed t gs)

length-erase_first :
    (t : ℕ) (gs : List WakeGroup)
    → in_group t gs ≡ true
    → length (erase_first (λ wg. group_contains wg t) gs) + 1 ≡ length gs
length-erase_first t [] h = cc
length-erase_first t (g ∷ gs) h = ground (arith, length-erase_first t gs)

length-erase-le : (t : ℕ) (es : List ℕ) → length (erase t es) ≤ length es
length-erase-le t [] = omega arith
length-erase-le t (x ∷ es) = ground (arith, length-erase-le t es)

length-erase-lt : (t : ℕ) (es : List ℕ) → contains t es ≡ true → length (erase t es) + 1 ≤ length es
length-erase-lt t [] h = cc
length-erase-lt t (x ∷ es) h = ground (arith, length-erase-lt t es, length-erase-le t es)

-- How often threads can still be woken with no further signal.
abbrev pub pending_wakeups : Policy → ℕ
pending_wakeups r = length r.wake_groups + length r.broadcast_eligible_threads

module _ (t : ℕ) (p : Policy) where
  -- Waking a thread succeeds exactly when the thread may leave: for every other one the assertion
  -- fails.
  pub is_ok-wake_thread : is_ok (SingleGroup.wake_thread t p) ≡ thread_can_exit t p
  unfolding SingleGroup.wake_thread thread_can_exit
  is_ok-wake_thread = ground arith

  -- A thread that has been woken may not leave again on the messages received so far.
  pub thread_can_exit-wake_thread :
      (q : Policy) → SingleGroup.wake_thread t p ≡ ok q → thread_can_exit t q ≡ false
  unfolding SingleGroup.wake_thread thread_can_exit
  thread_can_exit-wake_thread q h = ground (
    arith,
    contains-erase t t p.broadcast_eligible_threads,
    in_group-removed t p.wake_groups,
    in_group-removed t (erase_first (λ wg. group_contains wg t) p.wake_groups),
  )

  -- Each thread that is woken uses up a wake group or its place among the freed threads.
  pub wake_thread-uses_up :
      (q : Policy) → SingleGroup.wake_thread t p ≡ ok q → pending_wakeups q + 1 ≤ pending_wakeups p
  unfolding SingleGroup.wake_thread
  wake_thread-uses_up q h = ground (
    arith,
    length-erase-lt t p.broadcast_eligible_threads,
    length-erase_first t p.wake_groups,
    length-map_removed t p.wake_groups,
    length-map_removed t (erase_first (λ wg. group_contains wg t) p.wake_groups),
  )

-- The threads of a list woken one after the other, with no signal or broadcast in between.
unfoldable pub wake_all : List ℕ → Policy → Result Policy
wake_all [] p = ok p
wake_all (t ∷ ts) p = SingleGroup.wake_thread t p >>= wake_all ts

-- However the threads are chosen that are woken one after the other with no message in between,
-- there are no more of them than wake groups and freed threads that are used up.
pub length-wake_all-le :
    (ts : List ℕ) (p q : Policy)
    → wake_all ts p ≡ ok q
    → length ts + pending_wakeups q ≤ pending_wakeups p
unfolding wake_all
length-wake_all-le [] p q h = ground arith
length-wake_all-le (t ∷ ts) p q h =
    let (r, woken, rest) = >>=-eq-ok (SingleGroup.wake_thread t p) (wake_all ts) h in
    omega (arith, wake_thread-uses_up t p r woken, length-wake_all-le ts r q rest)

-- After a broadcast message exactly those threads can leave that could before or that were in the
-- queue.
pub thread_can_exit-receive_broadcast_message :
    (t : ℕ) (p : Policy)
    → thread_can_exit t (SingleGroup.receive_broadcast_message p)
      ≡ (thread_can_exit t p || contains t p.wait_queue)
unfolding thread_can_exit SingleGroup.receive_broadcast_message
thread_can_exit-receive_broadcast_message t p = ground (
  arith,
  contains-insert_groups t p.wake_groups p.broadcast_eligible_threads,
  contains-insert_all t p.wait_queue (insert_groups p.wake_groups p.broadcast_eligible_threads),
)
