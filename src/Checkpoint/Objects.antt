-- ===== src/Checkpoint/Objects.antt =====
-- The objects of the model that a restart makes of the records.
use deep_debug.Prelude.{
  ℕ, ◌+◌, ◌≤◌, ◌<◌, ◌==◌, ==-eq, ◌≡◌, refl, sym, ap, ◌∙◌, Bool-cases, false, inl, inr, List, [],
  ◌∷◌, ◌++◌, none, some, lookup, lookup-assign, lookup-assign_self, assign, get_elem?, length,
  get_elem?-append_left, get_elem?-append_middle, Result, ok, arith,
}
use deep_debug.Objects.{ObjectState}
use deep_debug.State.VisibleObject.{VisibleObject, no_states, push_state, state_at}
use deep_debug.Sequence.{
  Element, StateSequence, add_object, get_state_of_object, point_to_next_state_for,
}
use deep_debug.Sequence.Discovery.{IsExact, add_object-IsExact}
use deep_debug.Coordinator.{Coordinator, get_model_of_object, observe_object}
use deep_debug.Coordinator.Binding.{IsBound, object_count, observe_object-Binds}
use deep_debug.Spy.Record.{
  RecordedState, RecordedObject, RecList, mutex, semaphore, condition_variable, thread,
}
use deep_debug.Spy.Distinct.{IsDistinct}
use deep_debug.Checkpoint.{translate_state}
use deep_debug.Checkpoint.Transfer.{
  own_waiters, observe_record, observe_records, HasLocations, Fresh, AllFresh, others-AllFresh,
}

-- The state of an object is read at two places.
pub state-read :
    (s : StateSequence) (e : Element) (id i : ℕ) (v : VisibleObject) (o : ObjectState)
    → get_elem? s.visible_objects id ≡ some v
    → lookup id e.visible_object_indices ≡ some i
    → state_at v i ≡ some o
    → get_state_of_object s e id ≡ ok o
unfolding get_state_of_object
state-read s e id i v o h k l = rw (get_state_of_object, h, k, l) refl

pub state-same :
    (s s' : StateSequence) (e e' : Element) (id : ℕ)
    → get_elem? s'.visible_objects id ≡ get_elem? s.visible_objects id
    → lookup id e'.visible_object_indices ≡ lookup id e.visible_object_indices
    → get_state_of_object s' e' id ≡ get_state_of_object s e id
unfolding get_state_of_object
state-same s s' e e' id h k = rw (get_state_of_object, h, k) refl

pub indices-add_object :
    (o : ObjectState) (s : StateSequence)
    → IsExact s
    → (add_object o s).0.representative.visible_object_indices
      ≡ assign (length s.visible_objects) 0 s.representative.visible_object_indices
unfolding add_object point_to_next_state_for
indices-add_object o s w =
    rw (point_to_next_state_for, w.only (length s.visible_objects) (omega arith)) refl

objects-add_object :
    (o : ObjectState) (s : StateSequence)
    → (add_object o s).0.visible_objects ≡ s.visible_objects ++ push_state no_states o ∷ []
unfolding add_object
objects-add_object o s = refl

-- An object that is added is seen in the last element, and the others as before.
seen-new :
    (o : ObjectState) (s : StateSequence)
    → IsExact s
    → get_state_of_object
        (add_object o s).0
        (add_object o s).0.representative
        (length s.visible_objects)
      ≡ ok o
seen-new o s w =
    let n = length s.visible_objects in
    let v = push_state no_states o in
    state-read (add_object o s).0 (add_object o s).0.representative n 0 v o
      (ap (λ x. get_elem? x n) (objects-add_object o s)
        ∙ get_elem?-append_middle s.visible_objects [] v)
      (ap (lookup n) (indices-add_object o s w)
        ∙ lookup-assign_self n 0 s.representative.visible_object_indices)
      refl

seen-old :
    (o : ObjectState) (s : StateSequence) (id : ℕ)
    → IsExact s
    → id < length s.visible_objects
    → get_state_of_object (add_object o s).0 (add_object o s).0.representative id
      ≡ get_state_of_object s s.representative id
seen-old o s id w known =
    let n = length s.visible_objects in
    let other : (n == id) ≡ false = ground arith in
    state-same s (add_object o s).0 s.representative (add_object o s).0.representative id
      (ap (λ x. get_elem? x id) (objects-add_object o s)
        ∙ get_elem?-append_left s.visible_objects (push_state no_states o ∷ []) id known)
      (ap (lookup id) (indices-add_object o s w)
        ∙ lookup-assign n id 0 s.representative.visible_object_indices
        ∙ rw other refl)

-- The state of the object that an address stands for.
abbrev pub state_at_address : ℕ → Coordinator → Result ObjectState
state_at_address handle c =
    let s = c.current_program_model.state_seq in
    get_state_of_object s s.representative (get_model_of_object handle c)

abbrev pub IsExactModel : Coordinator → Type 0
IsExactModel c = IsExact c.current_program_model.state_seq

-- Addresses that stand for an object still do, and the object is in the same state.
abbrev pub StillShown : Coordinator → Coordinator → Type 0
StillShown c d =
    (handle id : ℕ)
    → lookup handle c.system_address_mapping ≡ some id
    → (lookup handle d.system_address_mapping ≡ some id)
      × (state_at_address handle d ≡ state_at_address handle c)

-- The runners are the same, and no object is lost.
abbrev pub SameRunners : Coordinator → Coordinator → Type 0
SameRunners c d =
    (d.current_program_model.state_seq.runner_to_obj_map
      ≡ c.current_program_model.state_seq.runner_to_obj_map)
    × (d.current_program_model.state_seq.representative.max_visible_runner_id
        ≡ c.current_program_model.state_seq.representative.max_visible_runner_id)
    × (object_count c ≤ object_count d)

pub record Adds (handle : ℕ) (o : ObjectState) (c d : Coordinator) : Type 0 where
  pub observed : observe_object handle o c ≡ ok (d, object_count c)
  pub bound : IsBound d
  pub exact : IsExactModel d
  pub counted : object_count d ≡ object_count c + 1
  pub placed : lookup handle d.system_address_mapping ≡ some (object_count c)
  pub shown : state_at_address handle d ≡ ok o
  pub still : StillShown c d
  pub runners : SameRunners c d
  pub others :
      (other : ℕ)
      → (handle == other) ≡ false
      → lookup other d.system_address_mapping ≡ lookup other c.system_address_mapping

pub bound-get_model :
    (handle id : ℕ) (c : Coordinator)
    → lookup handle c.system_address_mapping ≡ some id
    → get_model_of_object handle c ≡ id
unfolding get_model_of_object
bound-get_model handle id c e = rw (get_model_of_object, e) refl

-- An address that is bound is not one that is free.
pub distinct_handles :
    (handle other : ℕ) (m : List (ℕ × ℕ)) {id : ℕ}
    → lookup handle m ≡ none
    → lookup other m ≡ some id
    → (handle == other) ≡ false
distinct_handles handle other m free known = elim (Bool-cases (handle == other)) [
  | inr miss ↦ miss
  | inl hit ↦ let same = ==-eq handle other hit in cc
]

observe_object-Adds :
    (handle : ℕ) (o : ObjectState) (c : Coordinator)
    → IsBound c
    → IsExactModel c
    → object_count c < 4294967295
    → lookup handle c.system_address_mapping ≡ none
    → (d : Coordinator) × Adds handle o c d
unfolding observe_object get_model_of_object add_object point_to_next_state_for
observe_object-Adds handle o c b w small free =
    let s = c.current_program_model.state_seq in
    let d : Coordinator = record {
      current_program_model = record c.current_program_model { state_seq = (add_object o s).0 };
      system_address_mapping = assign handle (object_count c) c.system_address_mapping;
    } in
    let observed : observe_object handle o c ≡ ok (d, object_count c) =
      rw (get_model_of_object, free) refl in
    let binds = observe_object-Binds handle (object_count c) o c d b small observed in
    (
      d,
      record {
        observed = observed;
        bound = binds.bound;
        exact = add_object-IsExact o s w;
        counted = binds.counted;
        placed = lookup-assign_self handle (object_count c) c.system_address_mapping;
        shown =
            ap (get_state_of_object (add_object o s).0 (add_object o s).0.representative)
              binds.found
            ∙ seen-new o s w;
        still = λ other id known.
            let apart = distinct_handles handle other c.system_address_mapping free known in
            let kept : lookup other d.system_address_mapping ≡ some id =
              lookup-assign handle other (object_count c) c.system_address_mapping
              ∙ rw apart known in
            (
              kept,
              ap (get_state_of_object (add_object o s).0 (add_object o s).0.representative)
                    (bound-get_model other id d kept)
                  ∙ seen-old o s id w (b.known other id known)
                  ∙ ap (get_state_of_object s s.representative)
                      (sym (bound-get_model other id c known)),
            );
        runners = (refl, refl, omega (arith, binds.counted));
        others = λ other miss.
            lookup-assign handle other (object_count c) c.system_address_mapping ∙ rw miss refl;
      },
    )

-- The address of a record that is not of a thread stands for an object in the recorded state.
abbrev pub Shows : RecordedObject → Coordinator → Type 0
Shows vo c =
    (o : ObjectState)
    → translate_state vo.location vo.state (own_waiters vo.state) ≡ ok o
    → state_at_address vo.location c ≡ ok o

abbrev pub AllShown : RecList → Coordinator → Type 0
AllShown [] c = Unit {0}
AllShown (vo ∷ rest) c = Shows vo c × AllShown rest c

-- What observing records does.
pub record Observes (head : RecList) (c d : Coordinator) : Type 0 where
  pub observed : observe_records head c ≡ ok d
  pub bound : IsBound d
  pub exact : IsExactModel d
  pub shown : (e : Coordinator) → StillShown d e → AllShown head e
  pub still : StillShown c d
  pub runners : SameRunners c d

-- What observing one record does.
record ObservesOne (vo : RecordedObject) (state : RecordedState) (c d : Coordinator) : Type 0 where
  observed : observe_record vo state c ≡ ok d
  bound : IsBound d
  exact : IsExactModel d
  counted : object_count d ≤ object_count c + 1
  shown :
      (e : Coordinator) (o : ObjectState)
      → StillShown d e
      → translate_state vo.location state (own_waiters state) ≡ ok o
      → state_at_address vo.location e ≡ ok o
  still : StillShown c d
  runners : SameRunners c d
  others :
      (other : ℕ)
      → (vo.location == other) ≡ false
      → lookup other d.system_address_mapping ≡ lookup other c.system_address_mapping

Adds-ObservesOne :
    (vo : RecordedObject) (state : RecordedState) (o : ObjectState) (c d : Coordinator)
    → translate_state vo.location state (own_waiters state) ≡ ok o
    → observe_record vo state c ≡ ok d
    → Adds vo.location o c d
    → ObservesOne vo state c d
Adds-ObservesOne vo state o c d translated h a = record {
  observed = h;
  bound = a.bound;
  exact = a.exact;
  counted = omega (arith, a.counted);
  shown = λ e o' still translated'.
      let same : o ≡ o' = cc in
      (still vo.location (object_count c) a.placed).1 ∙ a.shown ∙ ap ok same;
  still = a.still;
  runners = a.runners;
  others = a.others;
}

module _ (vo : RecordedObject) (c : Coordinator) (b : IsBound c) (w : IsExactModel c)
    (small : object_count c < 4294967295) where
  observe_record-ObservesOne :
      (state : RecordedState)
      → Fresh vo state c.system_address_mapping
      → (d : Coordinator) × ObservesOne vo state c d
  unfolding observe_record translate_state
  observe_record-ObservesOne (thread t) fresh = (
    c,
    record {
      observed = refl;
      bound = b;
      exact = w;
      counted = omega arith;
      shown = λ e o still translated. cc;
      still = λ handle id known. (known, refl);
      runners = (refl, refl, omega arith);
      others = λ other miss. refl;
    },
  )
  observe_record-ObservesOne (mutex m) fresh =
      let (d, a) = observe_object-Adds vo.location _ c b w small fresh in
      (d, Adds-ObservesOne vo (mutex m) _ c d refl (rw a.observed refl) a)
  observe_record-ObservesOne (semaphore s) fresh =
      let (d, a) = observe_object-Adds vo.location _ c b w small fresh in
      (d, Adds-ObservesOne vo (semaphore s) _ c d refl (rw a.observed refl) a)
  observe_record-ObservesOne (condition_variable v) fresh =
      let (d, a) = observe_object-Adds vo.location _ c b w small fresh in
      (d, Adds-ObservesOne vo (condition_variable v) _ c d refl (rw a.observed refl) a)

pub StillShown-trans : (c d e : Coordinator) → StillShown c d → StillShown d e → StillShown c e
StillShown-trans c d e first second handle id known =
    let (there, same) = first handle id known in
    let (later, still) = second handle id there in (later, still ∙ same)

SameRunners-trans : (c d e : Coordinator) → SameRunners c d → SameRunners d e → SameRunners c e
SameRunners-trans c d e (m, v, n) (m', v', n') = (m' ∙ m, v' ∙ v, omega arith)

-- When no two records are of the same object, only threads have no location, no recorded object
-- stands for anything yet, the addresses stand for distinct objects of the model, whose last state
-- shows all of them, and there are fewer objects than ids: observing the records succeeds, and
-- then the address of every record but those of threads stands for an object in the recorded state,
-- also after more objects have been added.
pub observe_records-Observes :
    (head : RecList) (c : Coordinator)
    → IsDistinct head
    → HasLocations head
    → AllFresh head c.system_address_mapping
    → IsBound c
    → IsExactModel c
    → object_count c + length head < 4294967296
    → (d : Coordinator) × Observes head c d
unfolding observe_records
observe_records-Observes [] c distinct placed fresh b w small = (
  c,
  record {
    observed = refl;
    bound = b;
    exact = w;
    shown = λ e still. tt;
    still = λ handle id known. (known, refl);
    runners = (refl, refl, omega arith);
  },
)
observe_records-Observes (vo ∷ rest) c (apart, distinct) (here, placed) (first, fresh) b w small =
    let (d, one) = observe_record-ObservesOne vo c b w (omega arith) vo.state first in
    let later =
      others-AllFresh vo.location rest c.system_address_mapping d.system_address_mapping placed
        apart one.others fresh in
    let fewer : object_count d + length rest < 4294967296 = omega (arith, one.counted) in
    let (e, all) =
      observe_records-Observes rest d distinct placed later one.bound one.exact fewer in
    (
      e,
      record {
        observed = rw (observe_records, one.observed) all.observed;
        bound = all.bound;
        exact = all.exact;
        shown = λ f still. (
          λ o translated. one.shown f o (StillShown-trans d e f all.still still) translated,
          all.shown f still,
        );
        still = StillShown-trans c d e one.still all.still;
        runners = SameRunners-trans c d e one.runners all.runners;
      },
    )
