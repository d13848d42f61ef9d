-- ===== src/Policy/Groups.antt =====
-- The queue of sleeping threads and the wake groups agree.
use deep_debug.Prelude.{
  ℕ, ◌==◌, ◌≡◌, refl, true, false, not, ◌&&◌, ◌||◌, List, [], ◌∷◌, ◌++◌, map, any, erase_first,
  contains, ok, arith, contains-erase, contains-append,
}
use deep_debug.Policy.{Policy, WakeGroup, CondStatus, group_contains, remove_candidate_thread}
use deep_debug.Policy.SingleGroup
use deep_debug.Policy.Arbitrary

-- Whoever may use a signal still sleeps.
abbrev pub GroupsWait : Policy → Type 0
GroupsWait p =
    (t : ℕ) → any (λ wg. group_contains wg t) p.wake_groups ≡ true → contains t p.wait_queue ≡ true

in_groups-append :
    (t : ℕ) (gs : List WakeGroup) (g : WakeGroup)
    → any (λ wg. group_contains wg t) (gs ++ g ∷ [])
      ≡ (any (λ wg. group_contains wg t) gs || contains t g)
in_groups-append t [] g = ground arith
in_groups-append t (h ∷ gs) g = ground (arith, in_groups-append t gs g)

in_groups-removed :
    (t u : ℕ) (gs : List WakeGroup)
    → any (λ wg. group_contains wg t) (map (remove_candidate_thread u) gs)
      ≡ (not (t == u) && any (λ wg. group_contains wg t) gs)
in_groups-removed t u [] = ground arith
in_groups-removed t u (g ∷ gs) = ground (arith, in_groups-removed t u gs, contains-erase t u g)

in_groups-erase_first :
    (t u : ℕ) (gs : List WakeGroup)
    → any (λ wg. group_contains wg t) (erase_first (λ wg. group_contains wg u) gs) ≡ true
    → any (λ wg. group_contains wg t) gs ≡ true
in_groups-erase_first t u [] h = h
in_groups-erase_first t u (g ∷ gs) h = ground (arith, in_groups-erase_first t u gs)

contains-erase_first :
    (t u : ℕ) (xs : List ℕ)
    → (t == u) ≡ false
    → contains t (erase_first (λ x. x == u) xs) ≡ contains t xs
contains-erase_first t u [] h = refl
contains-erase_first t u (x ∷ xs) h = ground (arith, contains-erase_first t u xs)

-- A woken thread leaves every group; the other threads stay in the queue.
pub wake_thread-GroupsWait :
    (u : ℕ) (p q : Policy) → GroupsWait p → SingleGroup.wake_thread u p ≡ ok q → GroupsWait q
unfolding SingleGroup.wake_thread
wake_thread-GroupsWait u p q inv h t member = ground (
  arith,
  inv t,
  in_groups-removed t u p.wake_groups,
  in_groups-removed t u (erase_first (λ wg. group_contains wg u) p.wake_groups),
  in_groups-erase_first t u p.wake_groups,
  contains-erase_first t u p.wait_queue,
)

pub receive_broadcast_message-GroupsWait :
    (p : Policy) → GroupsWait (SingleGroup.receive_broadcast_message p)
unfolding SingleGroup.receive_broadcast_message
receive_broadcast_message-GroupsWait p t h = cc

-- A group of sleeping threads may be added.
pub add_to_wake_groups-GroupsWait :
    (ts : List ℕ) (p : Policy)
    → GroupsWait p
    → ((t : ℕ) → contains t ts ≡ true → contains t p.wait_queue ≡ true)
    → GroupsWait (Arbitrary.add_to_wake_groups ts p)
unfolding Arbitrary.add_to_wake_groups
add_to_wake_groups-GroupsWait ts p inv sleeping t h =
    ground (arith, inv t, sleeping t, in_groups-append t p.wake_groups ts)

pub add_waiter_with_state-GroupsWait :
    (u : ℕ) (c : CondStatus) (p : Policy)
    → GroupsWait p
    → GroupsWait (Arbitrary.add_waiter_with_state u c p)
unfolding Arbitrary.add_waiter_with_state
add_waiter_with_state-GroupsWait u c p inv t h =
    ground (arith, inv t, contains-append t p.wait_queue (u ∷ []))
