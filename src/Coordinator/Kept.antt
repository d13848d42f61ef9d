-- ===== src/Coordinator/Kept.antt =====
-- What the callbacks leave alone: the trace, that pending transitions are filed under their
-- executors, and which objects the bound addresses stand for.
pub mod Callbacks
use deep_debug.Prelude.{
  ℕ, ◌==◌, ◌≡◌, refl, sym, ap, ◌∙◌, Bool, true, false, List, [], ◌∷◌, Option, none, some, inl, inr,
  lookup, lookup-assign, Option-cases, not, ==-eq, Bool-cases, if◌then◌else◌, Result, ok, err,
  Error, ◌>>=◌, >>=-eq-ok, arith, subst,
}
use deep_debug.Objects.{ObjectState}
use deep_debug.Objects.Thread.{ThreadState}
use deep_debug.State.{invalid_objid}
use deep_debug.Sequence
use deep_debug.Transition.{Transition, thread_start, get_executor}
use deep_debug.Program.{Program, discover_runner, set_transition}
use deep_debug.Program.Rollback.{IsKeyed, IsKeyed-assign}
use deep_debug.Coordinator.{
  Coordinator, get_model_of_object, contains_object, contains_runner, observe_object,
  observe_runner, bind_runner, insert_address,
}
use deep_debug.Coordinator.Callbacks.{
  ensure_object, mutex_init_callback, mutex_lock_callback, mutex_unlock_callback, sem_init_callback,
  sem_post_callback, sem_wait_callback, sem_destroy_callback, thread_create_callback,
  thread_exit_callback, thread_join_callback, process_exit_callback, process_abort_callback,
}
use deep_debug.Coordinator.Conditions.{
  ensure_cond_initialized, cond_init_callback, cond_waiting_thread_enqueue_callback,
  cond_wait_callback, cond_signal_callback, cond_broadcast_callback, cond_destroy_callback,
}
use deep_debug.Coordinator.Registry.{
  Mailbox, Memory, TransitionDiscoveryCallback, Registry, found, get_callback_for, default_registry,
}

pub record Kept (c d : Coordinator) : Type 0 where
  pub trace : d.current_program_model.trace ≡ c.current_program_model.trace
  pub keyed :
      IsKeyed c.current_program_model.next_steps → IsKeyed d.current_program_model.next_steps
  pub named :
      (handle : ℕ)
      → contains_object handle c ≡ true
      → get_model_of_object handle d ≡ get_model_of_object handle c

abbrev pub Keeps : {X : Type 0} → Coordinator → Result (Coordinator × X) → Type 0
Keeps {X} c r = (d : Coordinator) (x : X) → r ≡ ok (d, x) → Kept c d

pub Kept-refl : (c : Coordinator) → Kept c c
Kept-refl c = record { trace = refl; keyed = λ k. k; named = λ handle known. refl }

pub Kept-trans : {c d e : Coordinator} → Kept c d → Kept d e → Kept c e
Kept-trans k l = record {
  trace = l.trace ∙ k.trace;
  keyed = λ h. l.keyed (k.keyed h);
  named = λ handle known.
      l.named handle (ap (λ id. not (id == invalid_objid)) (k.named handle known) ∙ known)
      ∙ k.named handle known;
}

-- A bound address keeps what it stands for.
pub lookup-insert_address :
    (new handle id v : ℕ) (m : List (ℕ × ℕ))
    → lookup handle m ≡ some v
    → lookup handle (insert_address new id m) ≡ some v
lookup-insert_address new handle id v m found = elim (Option-cases (lookup new m)) [
  | inl (bound, there) ↦ rw there found
  | inr free ↦ elim (Bool-cases (new == handle)) [
    | inl hit ↦ let same : new ≡ handle = ==-eq new handle hit in cc
    | inr other ↦ rw free (lookup-assign new handle id m ∙ rw other found)
  ]
]

-- An object that is contained is still the one that its address stands for.
pub insert_address-named :
    (new id handle : ℕ) (c d : Coordinator)
    → d.system_address_mapping ≡ insert_address new id c.system_address_mapping
    → contains_object handle c ≡ true
    → get_model_of_object handle d ≡ get_model_of_object handle c
unfolding get_model_of_object
insert_address-named new id handle c d m known =
    elim (Option-cases (lookup handle c.system_address_mapping)) [
      | inl (v, found) ↦
          let kept : lookup handle d.system_address_mapping ≡ some v =
            ap (lookup handle) m
            ∙ lookup-insert_address new handle id v c.system_address_mapping found in
          rw (get_model_of_object, kept, found) refl
      | inr missing ↦ let stuck = rw (get_model_of_object, missing) at known in cc stuck
    ]

pub ok-Keeps : {X : Type 0} → (c : Coordinator) (x : X) → Keeps c (ok (c, x))
ok-Keeps c x d y h = let same : c ≡ d = cc h in subst (Kept c) same (Kept-refl c)

pub err-Keeps : {X : Type 0} → (c : Coordinator) (e : Error) → Keeps {X = X} c (err e)
err-Keeps c e d x h = cc h

pub if-Keeps :
    {X : Type 0} (b : Bool) (c : Coordinator) (r s : Result (Coordinator × X))
    → Keeps c r
    → Keeps c s
    → Keeps c (if b then r else s)
if-Keeps true c r s k l = k
if-Keeps false c r s k l = l

pub guard-Keeps :
    {X : Type 0} (b : Bool) (c : Coordinator) (x : X) (e : Error)
    → Keeps c (if b then ok (c, x) else err e)
guard-Keeps b c x e = if-Keeps b c _ _ (ok-Keeps c x) (err-Keeps c e)

pub found-Keeps :
    (c : Coordinator) (r : Result (Coordinator × Transition)) → Keeps c r → Keeps c (found r)
found-Keeps c (ok (e, t)) k d x h = let same : e ≡ d = cc h in k d t (ap (λ y. ok (y, t)) same)
found-Keeps c (err e) k d x h = cc h

pub observe_object-Keeps :
    (handle : ℕ) (o : ObjectState) (c : Coordinator) → Keeps c (observe_object handle o c)
unfolding observe_object
observe_object-Keeps handle o c d id h = elim (Bool-cases (contains_object handle c)) [
  | inl hit ↦ err-Keeps c _ d id (rw hit at h)
  | inr miss ↦
      let made = rw miss at h in
      let p = c.current_program_model in
      let new = Sequence.add_object o p.state_seq in
      let next : Coordinator = record {
        current_program_model = record p { state_seq = new.0 };
        system_address_mapping = insert_address handle new.1 c.system_address_mapping;
      } in
      let same : next ≡ d = cc made in
      subst (Kept c) same (record {
        trace = refl;
        keyed = λ k. k;
        named = λ other known. insert_address-named handle new.1 other c next refl known;
      })
]

-- The results of an operation that returns only the coordinator.
abbrev pub KeepsOne : Coordinator → Result Coordinator → Type 0
KeepsOne c r = (d : Coordinator) → r ≡ ok d → Kept c d

pub ensure_object-KeepsOne :
    (handle : ℕ) (o : ObjectState) (c : Coordinator) → KeepsOne c (ensure_object handle o c)
unfolding ensure_object
ensure_object-KeepsOne handle o c d h = elim (Bool-cases (contains_object handle c)) [
  | inl hit ↦
      let same : ok c ≡ ok d = rw hit at h in
      let there : c ≡ d = cc same in subst (Kept c) there (Kept-refl c)
  | inr miss ↦
      let (r, observed, made) = >>=-eq-ok (observe_object handle o c) _ (rw miss at h) in
      let there : r.0 ≡ d = cc made in
      subst (Kept c) there (observe_object-Keeps handle o c r.0 r.1 observed)
]

pub bind-Keeps :
    {X : Type 0} (c : Coordinator) (r : Result Coordinator)
    (f : Coordinator → Result (Coordinator × X))
    → KeepsOne c r
    → ((d : Coordinator) → Keeps d (f d))
    → Keeps c (r >>= f)
bind-Keeps c (ok e) f k l d x h = Kept-trans (k e refl) (l e d x h)
bind-Keeps c (err e) f k l d x h = cc h

pub observe_runner-Keeps :
    (handle : ℕ) (t : ThreadState) (c : Coordinator)
    → Keeps c (observe_runner handle t thread_start c)
unfolding observe_runner bind_runner discover_runner
observe_runner-Keeps handle t c d id h = elim (Bool-cases (contains_object handle c)) [
  | inl hit ↦ err-Keeps c _ d id (rw hit at h)
  | inr miss ↦
      let p = c.current_program_model in
      let (r, discovered, made) = >>=-eq-ok (discover_runner t thread_start p) _ (rw miss at h) in
      let (added, _, shape) = >>=-eq-ok (Sequence.add_runner t p.state_seq) _ discovered in
      let program : record p {
        state_seq = added.0;
        next_steps = set_transition (thread_start added.1) p.next_steps;
      }
          ≡ r.0 =
        cc shape in
      let there : bind_runner handle r.1 r.0 c ≡ d = cc made in
      subst (Kept c) there (
        rw (← program) (record {
          trace = refl;
          keyed = IsKeyed-assign added.1 (thread_start added.1) p.next_steps refl;
          named = λ other known.
              insert_address-named handle _ other c (bind_runner handle r.1 _ c) refl known;
        }))
]
