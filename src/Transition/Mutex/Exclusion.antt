-- ===== src/Transition/Mutex/Exclusion.antt =====
-- A mutex is held by one runner at a time, and only that runner can give it back.
use deep_debug.Prelude.{
  ℕ, ◌==◌, ==-refl, ◌≡◌, refl, Bool, true, false, not, if◌then◌else◌, ok, ◌>>=◌, >>=-eq-ok, arith,
  ap, ◌∙◌,
}
use deep_debug.Objects.{ObjectState, as_mutex}
use deep_debug.Objects.Mutex.{Mutex, MutexState, is_locked, is_locked_by, new_mutex, rid_invalid}
use deep_debug.State.{invalid_objid}
use deep_debug.State.Diff.{DiffState, add_state_for_obj, get_state_of_object}
use deep_debug.State.Diff.Reads.{add_state_for_obj-eq-ok, get_state_of_object-add_state_for_obj}
use deep_debug.Transition.Status.{Status, exists, disabled, was_taken}
use deep_debug.Transition.Mutex.{get_mutex, modify_mutex_lock, modify_mutex_unlock}

get_mutex-add_state_for_obj :
    (id : ℕ) (m : Mutex) (d d' : DiffState)
    → add_state_for_obj id (ObjectState.mutex m) d ≡ ok d'
    → get_mutex d' id ≡ ok m
unfolding get_mutex as_mutex
get_mutex-add_state_for_obj id m d d' h =
    ap (λ r. r >>= as_mutex)
      (get_state_of_object-add_state_for_obj id id (ObjectState.mutex m) d d' h
        ∙ ap (λ b. if b then ok (ObjectState.mutex m) else get_state_of_object d id) (==-refl id))

-- What a lock that succeeds has done.
lock-eq-exists :
    (p id : ℕ) (d d' : DiffState)
    → modify_mutex_lock p id d ≡ ok (d', exists)
    → (loc : ℕ) × (get_mutex d' id ≡ ok (new_mutex MutexState.locked loc p))
      × ((id == invalid_objid) ≡ false)
unfolding modify_mutex_lock
lock-eq-exists p id d d' h =
    let (ms, found, h1) = >>=-eq-ok (get_mutex d id) _ h in decided ms (is_locked ms) h1
  where
    decided :
        (ms : Mutex) (b : Bool)
        → (if b
            then ok (d, disabled)
            else (◌>>=◌ {B = DiffState × Status}
                (add_state_for_obj id
                  (ObjectState.mutex (new_mutex MutexState.locked ms.location p))
                  d)
                (λ d'. ok (d', exists))))
          ≡ ok (d', exists)
        → (loc : ℕ) × (get_mutex d' id ≡ ok (new_mutex MutexState.locked loc p))
          × ((id == invalid_objid) ≡ false)
    decided ms true h = cc
    decided ms false h =
        let s = ObjectState.mutex (new_mutex MutexState.locked ms.location p) in
        let (d1, added, h2) = >>=-eq-ok (add_state_for_obj id s d) _ h in
        let same : d1 ≡ d' = cc in
        let added' : add_state_for_obj id s d ≡ ok d' = added ∙ ap ok same in
        (
          ms.location,
          get_mutex-add_state_for_obj id (new_mutex MutexState.locked ms.location p) d d' added',
          (add_state_for_obj-eq-ok id s d d' added').0,
        )

-- After `p` has locked a mutex, no runner can lock it, `p` included, and a runner can unlock it
-- exactly when it is `p`.
pub lock_excludes :
    (p q id : ℕ) (d d' : DiffState)
    → modify_mutex_lock p id d ≡ ok (d', exists)
    → (modify_mutex_lock q id d' ≡ ok (d', disabled))
      × (was_taken (modify_mutex_unlock q id d') ≡ (p == q))
unfolding modify_mutex_lock modify_mutex_unlock add_state_for_obj
lock_excludes p q id d d' h =
    let (loc, held, valid) = lock-eq-exists p id d d' h in (rw held refl, rw held (ground arith))

-- What an unlock that succeeds has done.
unlock-eq-exists :
    (p id : ℕ) (d d' : DiffState)
    → modify_mutex_unlock p id d ≡ ok (d', exists)
    → (ms : Mutex) × (get_mutex d id ≡ ok ms)
      × (is_locked_by ms p ≡ true)
      × (get_mutex d' id ≡ ok (new_mutex MutexState.unlocked ms.location rid_invalid))
      × ((id == invalid_objid) ≡ false)
unfolding modify_mutex_unlock
unlock-eq-exists p id d d' h =
    let (ms, found, h1) = >>=-eq-ok (get_mutex d id) _ h in
    let (held, released, valid) = decided ms (is_locked_by ms p) h1 in
    (ms, found, held, released, valid)
  where
    decided :
        (ms : Mutex) (b : Bool)
        → (if not b
            then ok (d, disabled)
            else (◌>>=◌ {B = DiffState × Status}
                (add_state_for_obj id
                  (ObjectState.mutex (new_mutex MutexState.unlocked ms.location rid_invalid))
                  d)
                (λ d'. ok (d', exists))))
          ≡ ok (d', exists)
        → (b ≡ true)
          × (get_mutex d' id ≡ ok (new_mutex MutexState.unlocked ms.location rid_invalid))
          × ((id == invalid_objid) ≡ false)
    decided ms false h = cc
    decided ms true h =
        let m = new_mutex MutexState.unlocked ms.location rid_invalid in
        let (d1, added, h2) = >>=-eq-ok (add_state_for_obj id (ObjectState.mutex m) d) _ h in
        let same : d1 ≡ d' = cc in
        let added' : add_state_for_obj id (ObjectState.mutex m) d ≡ ok d' = added ∙ ap ok same in
        (
          refl,
          get_mutex-add_state_for_obj id m d d' added',
          (add_state_for_obj-eq-ok id (ObjectState.mutex m) d d' added').0,
        )

-- If `p` has unlocked a mutex, `p` could not have locked it instead; afterwards every runner can
-- lock it and none can unlock it.
pub unlock_releases :
    (p q id : ℕ) (d d' : DiffState)
    → modify_mutex_unlock p id d ≡ ok (d', exists)
    → (modify_mutex_lock p id d ≡ ok (d, disabled))
      × (was_taken (modify_mutex_lock q id d') ≡ true)
      × (modify_mutex_unlock q id d' ≡ ok (d', disabled))
unfolding modify_mutex_lock modify_mutex_unlock add_state_for_obj
unlock_releases p q id d d' h =
    let (ms, found, held, released, valid) = unlock-eq-exists p id d d' h in
    (rw found (ground arith), rw released (ground arith), rw released refl)
