-- ===== src/Transition/Semaphore/Count.antt =====
-- The count of a semaphore: what a post gives, a wait takes.
use deep_debug.Prelude.{
  ℕ, ◌+◌, ◌-◌, ◌<◌, ◌==◌, ==-refl, ◌≡◌, refl, Bool, true, false, if◌then◌else◌, ok, ◌>>=◌,
  >>=-eq-ok, arith, ap, ◌∙◌, sym,
}
use deep_debug.Objects.{ObjectState, as_semaphore}
use deep_debug.Objects.Semaphore.{Semaphore, new_semaphore, count, will_block, increment, decrement}
use deep_debug.State.{invalid_objid}
use deep_debug.State.Diff.{DiffState, add_state_for_obj, get_state_of_object}
use deep_debug.State.Diff.Reads.{
  add_state_for_obj-eq-ok, add_state_for_obj-is_ok, get_state_of_object-add_state_for_obj,
}
use deep_debug.Transition.Status.{Status, exists, disabled}
use deep_debug.Transition.Semaphore.{get_semaphore, modify_sem_post, modify_sem_wait}

get_semaphore-add_state_for_obj :
    (id : ℕ) (s : Semaphore) (d d' : DiffState)
    → add_state_for_obj id (ObjectState.semaphore s) d ≡ ok d'
    → get_semaphore d' id ≡ ok s
unfolding get_semaphore as_semaphore
get_semaphore-add_state_for_obj id s d d' h =
    ap (λ r. r >>= as_semaphore)
      (get_state_of_object-add_state_for_obj id id (ObjectState.semaphore s) d d' h
        ∙ ap (λ b. if b then ok (ObjectState.semaphore s) else get_state_of_object d id)
            (==-refl id))

-- A count below the largest positive `int` does not wrap.
increment_lem : (n : ℕ) → n < 2147483647 → increment n ≡ n + 1
increment_lem n h = omega arith

decrement_lem : (n : ℕ) → n + 1 < 4294967296 → decrement (n + 1) ≡ n
decrement_lem n h = omega arith

added_lem :
    (id : ℕ) (s : Semaphore) (d d' : DiffState)
    → (◌>>=◌ {B = DiffState × Status}
        (add_state_for_obj id (ObjectState.semaphore s) d)
        (λ x. ok (x, exists)))
      ≡ ok (d', exists)
    → add_state_for_obj id (ObjectState.semaphore s) d ≡ ok d'
added_lem id s d d' h =
    let (d1, added, h1) = >>=-eq-ok (add_state_for_obj id (ObjectState.semaphore s) d) _ h in
    let same : d1 ≡ d' = cc in added ∙ ap ok same

sem_post-eq-exists :
    (p id : ℕ) (sem : Semaphore) (d d' : DiffState)
    → get_semaphore d id ≡ ok sem
    → modify_sem_post p id d ≡ ok (d', exists)
    → (get_semaphore d' id ≡ ok (new_semaphore (increment (count sem))))
      × ((id == invalid_objid) ≡ false)
unfolding modify_sem_post
sem_post-eq-exists p id sem d d' found h =
    let (s, found', h1) = >>=-eq-ok (get_semaphore d id) _ h in
    let same : s ≡ sem = cc in
    let added = added_lem id (new_semaphore (increment (count s))) d d' h1 in
    (
      get_semaphore-add_state_for_obj id (new_semaphore (increment (count s))) d d' added
          ∙ ap (λ x. ok (new_semaphore (increment (count x)))) same,
      (add_state_for_obj-eq-ok id _ d d' added).0,
    )

-- After a post to a semaphore whose count is below 2^31 - 1, a wait of any runner succeeds and
-- gives the semaphore the count that it had before the post.
pub sem_wait-sem_post :
    (p q id : ℕ) (sem : Semaphore) (d d' : DiffState)
    → get_semaphore d id ≡ ok sem
    → count sem < 2147483647
    → modify_sem_post p id d ≡ ok (d', exists)
    → (d'' : DiffState) × (modify_sem_wait q id d' ≡ ok (d'', exists))
      × (get_semaphore d'' id ≡ ok (new_semaphore (count sem)))
unfolding modify_sem_wait
sem_wait-sem_post p q id sem d d' found small h =
    let (posted, valid) = sem_post-eq-exists p id sem d d' found h in
    let n = count sem in
    let posted' : get_semaphore d' id ≡ ok (new_semaphore (n + 1)) =
      posted ∙ ap (λ x. ok (new_semaphore x)) (increment_lem n small) in
    let free : will_block (new_semaphore (n + 1)) ≡ false = ground arith in
    let (d'', added) =
      add_state_for_obj-is_ok id (ObjectState.semaphore (new_semaphore (decrement (n + 1)))) d'
        valid in
    (
      d'',
      rw posted' (rw free (rw added refl)),
      get_semaphore-add_state_for_obj id (new_semaphore (decrement (n + 1))) d' d'' added
          ∙ ap (λ x. ok (new_semaphore x)) (decrement_lem n (omega arith)),
    )

free_lem :
    (sem : Semaphore)
    → will_block sem ≡ false
    → (n : ℕ) × (count sem ≡ n + 1) × (count sem < 2147483648)
free_lem sem h = (count sem - 1, ground arith, ground arith)

-- A wait that succeeds finds a count of at least 1 and below 2^31 and leaves one less, so that the
-- count does not become negative.
pub sem_wait-takes_one :
    (p id : ℕ) (sem : Semaphore) (d d' : DiffState)
    → get_semaphore d id ≡ ok sem
    → modify_sem_wait p id d ≡ ok (d', exists)
    → (n : ℕ) × (count sem ≡ n + 1)
      × (count sem < 2147483648)
      × (get_semaphore d' id ≡ ok (new_semaphore n))
unfolding modify_sem_wait
sem_wait-takes_one p id sem d d' found h =
    let (s, found', h1) = >>=-eq-ok (get_semaphore d id) _ h in
    let same : s ≡ sem = cc in
    let (open_sem, taken) = decided s (will_block s) h1 in
    let (n, positive, small) = free_lem sem (ap will_block (sym same) ∙ open_sem) in
    (
      n,
      positive,
      small,
      taken
          ∙ ap (λ x. ok (new_semaphore (decrement (count x)))) same
          ∙ ap (λ x. ok (new_semaphore (decrement x))) positive
          ∙ ap (λ x. ok (new_semaphore x)) (decrement_lem n (omega arith)),
    )
  where
    decided :
        (s : Semaphore) (b : Bool)
        → (if b
            then ok (d, disabled)
            else (◌>>=◌ {B = DiffState × Status}
                (add_state_for_obj id
                  (ObjectState.semaphore (new_semaphore (decrement (count s))))
                  d)
                (λ x. ok (x, exists))))
          ≡ ok (d', exists)
        → (b ≡ false) × (get_semaphore d' id ≡ ok (new_semaphore (decrement (count s))))
    decided s true h = cc
    decided s false h = (
      refl,
      get_semaphore-add_state_for_obj id (new_semaphore (decrement (count s))) d d'
          (added_lem id (new_semaphore (decrement (count s))) d d' h),
    )
