-- ===== src/Coordinator/Naming.antt =====
-- Transitions made from mailboxes name objects of the model.
use deep_debug.Prelude.{
  ℕ, ◌<◌, ◌==◌, ◌≡◌, refl, true, false, ◌||◌, inl, inr, Bool, Bool-cases, Option, none, some,
  lookup, ok, err, Result, is_ok, >>=-eq-ok, arith, not, ap, ◌∙◌, not_initialized,
}
use deep_debug.Objects.{ObjectState}
use deep_debug.Objects.Mutex.{MutexState, new_mutex, rid_invalid}
use deep_debug.State.{invalid_objid}
use deep_debug.Transition.{Transition, mutex_lock}
use deep_debug.Coordinator.{Coordinator, get_model_of_object, contains_object, observe_object}
use deep_debug.Coordinator.Binding.{IsBound, object_count, observe_object-Binds}
use deep_debug.Coordinator.Later.{Later, Later-named}
use deep_debug.Coordinator.Callbacks.{ensure_object, mutex_lock_callback}

-- The address stands for an object of a model whose addresses stand for distinct objects.
pub record IsNamed (handle : ℕ) (c : Coordinator) : Type 0 where
  pub bound : IsBound c
  pub in_model : get_model_of_object handle c < object_count c
  pub contained : contains_object handle c ≡ true

bounded_or :
    (x : Option ℕ) (n : ℕ)
    → ((id : ℕ) → x ≡ some id → id < n)
    → not (elim x [ some id ↦ id | none ↦ invalid_objid ] == invalid_objid) ≡ true
    → elim x [ some id ↦ id | none ↦ invalid_objid ] < n
bounded_or none n b h = ground arith
bounded_or (some id) n b h = b id refl

contained-IsNamed :
    (handle : ℕ) (c : Coordinator) → IsBound c → contains_object handle c ≡ true → IsNamed handle c
unfolding get_model_of_object
contained-IsNamed handle c b h = record {
  bound = b;
  in_model =
      bounded_or (lookup handle c.system_address_mapping) (object_count c) (b.known handle) h;
  contained = h;
}

observed-IsNamed :
    (handle id : ℕ) (o : ObjectState) (c d : Coordinator)
    → IsBound c
    → object_count c < 4294967295
    → observe_object handle o c ≡ ok (d, id)
    → IsNamed handle d
observed-IsNamed handle id o c d b small h =
    let binds = observe_object-Binds handle id o c d b small h in
    let known = binds.in_model in
    let counted = binds.counted in
    record {
      bound = binds.bound;
      in_model = rw binds.found known;
      contained = rw binds.found (ground arith);
    }

ensure_object-IsNamed :
    (handle : ℕ) (o : ObjectState) (c d : Coordinator)
    → IsBound c
    → object_count c < 4294967295
    → ensure_object handle o c ≡ ok d
    → IsNamed handle d
unfolding ensure_object
ensure_object-IsNamed handle o c d b small h = elim (Bool-cases (contains_object handle c)) [
  | inl hit ↦
      let same : ok c ≡ ok d = rw hit at h in
      let there : c ≡ d = cc same in rw (← there) (contained-IsNamed handle c b hit)
  | inr miss ↦
      let (r, observed, made) = >>=-eq-ok (observe_object handle o c) _ (rw miss at h) in
      let there : r.0 ≡ d = cc made in
      rw (← there) (observed-IsNamed handle r.1 o c r.0 b small observed)
]

-- A second lock at an address that is contained.
mutex_lock_callback-contained :
    (init : ℕ → Bool) (p handle : ℕ) (c : Coordinator)
    → contains_object handle c ≡ true
    → mutex_lock_callback init p handle c ≡ ok (c, mutex_lock p (get_model_of_object handle c))
unfolding mutex_lock_callback
mutex_lock_callback-contained init p handle c h = rw h refl

-- What a lock makes of the mailbox.
pub record Locks (p handle : ℕ) (t : Transition) (d : Coordinator) : Type 0 where
  pub named : IsNamed handle d
  pub made : t ≡ mutex_lock p (get_model_of_object handle d)
  pub again :
      (init : ℕ → Bool) (q : ℕ) (e : Coordinator)
      → Later d e
      → mutex_lock_callback init q handle e ≡ ok (e, mutex_lock q (get_model_of_object handle d))

-- The address is then contained, whatever the coordinator has done in between.
lock_afterwards :
    (handle : ℕ) (d : Coordinator) (init : ℕ → Bool) (q : ℕ) (e : Coordinator)
    → contains_object handle d ≡ true
    → Later d e
    → mutex_lock_callback init q handle e ≡ ok (e, mutex_lock q (get_model_of_object handle d))
lock_afterwards handle d init q e known later =
    let same = Later-named handle known later in
    mutex_lock_callback-contained init q handle e
      (ap (λ id. not (id == invalid_objid)) same ∙ known)
    ∙ ap (λ id. ok (e, mutex_lock q id)) same

named-Locks :
    (p handle : ℕ) (t : Transition) (c d : Coordinator)
    → IsNamed handle c
    → ◌≡◌ {A = Result (Coordinator × Transition)}
        (ok (c, mutex_lock p (get_model_of_object handle c)))
        (ok (d, t))
    → Locks p handle t d
named-Locks p handle t c d n h =
    let same : c ≡ d = cc h in
    let made : mutex_lock p (get_model_of_object handle c) ≡ t = cc h in
    rw (← same, ← made)
      (record {
        named = n;
        made = refl;
        again = λ init q e later. lock_afterwards handle c init q e n.contained later;
      })

-- If the bound addresses stand for distinct objects of the model, of which there are fewer than the
-- largest object id, a lock that the callback accepts names the object that the address then stands
-- for, which is in the model, and the addresses still stand for distinct objects; and after any
-- further callbacks of the default registry, modelled executions and returns to a depth, a lock by
-- any runner at that address names the same object id and changes nothing, whatever the memory
-- holds.
pub mutex_lock_callback-Locks :
    (init : ℕ → Bool) (p handle : ℕ) (t : Transition) (c d : Coordinator)
    → IsBound c
    → object_count c < 4294967295
    → mutex_lock_callback init p handle c ≡ ok (d, t)
    → Locks p handle t d
unfolding mutex_lock_callback
mutex_lock_callback-Locks init p handle t c d b small h =
    elim (Bool-cases (contains_object handle c)) [
      | inl hit ↦ named-Locks p handle t c d (contained-IsNamed handle c b hit) (rw hit at h)
      | inr miss ↦ elim (Bool-cases (init handle)) [
        | inl is_static ↦
            let (e, ensured, made) =
              >>=-eq-ok
                (ensure_object handle
                  (ObjectState.mutex (new_mutex MutexState.unlocked handle rid_invalid)) c)
                _ (rw (miss, is_static) at h) in
            named-Locks p handle t e d (ensure_object-IsNamed handle _ c e b small ensured) made
        | inr garbage ↦
            let stuck : Result.err not_initialized ≡ ok (d, t) = rw (miss, garbage) at h in cc stuck
      ]
    ]

value_of {κ} : {A : Type κ} (x : Result A) → is_ok x ≡ true → (v : A) × (x ≡ ok v)
value_of (err cause) h = ground arith
value_of (ok v) h = (v, refl)

observes :
    (handle : ℕ) (o : ObjectState) (c : Coordinator)
    → contains_object handle c ≡ false
    → (r : Coordinator × ℕ) × (observe_object handle o c ≡ ok r)
unfolding observe_object
observes handle o c h = value_of (observe_object handle o c) (rw h refl)

is_ok-ensure_object :
    (handle : ℕ) (o : ObjectState) (c : Coordinator)
    → contains_object handle c ≡ false
    → (d : Coordinator) × (ensure_object handle o c ≡ ok d)
unfolding ensure_object
is_ok-ensure_object handle o c h =
    let (r, observed) = observes handle o c h in (r.0, rw (h, observed) refl)

-- A lock is accepted exactly when its address stands for an object of the model or the memory there
-- looks statically initialized.
pub is_ok-mutex_lock_callback :
    (init : ℕ → Bool) (p handle : ℕ) (c : Coordinator)
    → is_ok (mutex_lock_callback init p handle c) ≡ (contains_object handle c || init handle)
unfolding mutex_lock_callback
is_ok-mutex_lock_callback init p handle c = elim (Bool-cases (contains_object handle c)) [
  | inl hit ↦ rw hit refl
  | inr miss ↦ elim (Bool-cases (init handle)) [
    | inl is_static ↦
        let (d, made) =
          is_ok-ensure_object handle
            (ObjectState.mutex (new_mutex MutexState.unlocked handle rid_invalid)) c miss in
        rw (miss, is_static, made) refl
    | inr garbage ↦ rw (miss, garbage) refl
  ]
]
