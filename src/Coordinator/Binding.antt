-- ===== src/Coordinator/Binding.antt =====
-- Addresses stand for distinct objects of the model.
use deep_debug.Prelude.{
  ℕ, ◌+◌, ◌<◌, ◌==◌, ◌≡◌, ◌⊎◌, refl, sym, ap, ◌∙◌, false, inl, inr, Bool-cases, ==-eq, List, [],
  ◌∷◌, Option, none, some, length, length-append, lookup, lookup-assign, assign, ok, Result, arith,
  if◌then◌else◌, already_bound, not,
}
use deep_debug.Objects.{ObjectState}
use deep_debug.State.{invalid_objid}
use deep_debug.State.VisibleObject.{no_states, push_state}
use deep_debug.Sequence.{add_object}
use deep_debug.Coordinator.{Coordinator, get_model_of_object, contains_object, observe_object}

abbrev pub object_count : Coordinator → ℕ
object_count c = length c.current_program_model.state_seq.visible_objects

-- Every bound address stands for an object of the model, and no two for the same.
pub record IsBound (c : Coordinator) : Type 0 where
  pub known :
      (handle id : ℕ) → lookup handle c.system_address_mapping ≡ some id → id < object_count c
  pub distinct :
      (handle other id : ℕ)
      → lookup handle c.system_address_mapping ≡ some id
      → lookup other c.system_address_mapping ≡ some id
      → handle ≡ other

-- What binding an address to the object `id` does.
pub record Binds (handle id : ℕ) (c d : Coordinator) : Type 0 where
  pub bound : IsBound d
  pub found : get_model_of_object handle d ≡ id
  pub in_model : id < object_count d
  pub counted : object_count d ≡ object_count c + 1
  pub others :
      (other : ℕ)
      → (handle == other) ≡ false
      → get_model_of_object other d ≡ get_model_of_object other c

absent_or :
    (x : Option ℕ)
    → ((id : ℕ) → x ≡ some id → id < 4294967295)
    → not (elim x [ some id ↦ id | none ↦ invalid_objid ] == invalid_objid) ≡ false
    → x ≡ none
absent_or none b h = refl
absent_or (some id) b h = let small = b id refl in ground arith

-- An address that is not contained is not in the map.
not_contained :
    (handle : ℕ) (c : Coordinator)
    → IsBound c
    → object_count c < 4294967295
    → contains_object handle c ≡ false
    → lookup handle c.system_address_mapping ≡ none
unfolding get_model_of_object
not_contained handle c b small h =
    absent_or (lookup handle c.system_address_mapping)
      (λ id e. let k = b.known handle id e in omega arith) h

count-add_object :
    (o : ObjectState) (c : Coordinator)
    → length (add_object o c.current_program_model.state_seq).0.visible_objects ≡ object_count c + 1
unfolding add_object
count-add_object o c =
    length-append c.current_program_model.state_seq.visible_objects (push_state no_states o ∷ [])

id-add_object :
    (o : ObjectState) (c : Coordinator)
    → (add_object o c.current_program_model.state_seq).1 ≡ object_count c
unfolding add_object
id-add_object o c = refl

-- What is bound after an address has been added.
bound_after :
    (handle other n id : ℕ) (m m' : List (ℕ × ℕ))
    → m' ≡ assign handle n m
    → lookup other m' ≡ some id
    → ((handle ≡ other) × (id ≡ n)) ⊎ (lookup other m ≡ some id)
bound_after handle other n id m m' e h =
    let found : (if handle == other then some n else lookup other m) ≡ some id =
      sym (lookup-assign handle other n m) ∙ ap (lookup other) (sym e) ∙ h in
    elim (Bool-cases (handle == other)) [
      | inl hit ↦ let same : some n ≡ some id = rw hit at found in inl (==-eq handle other hit, cc)
      | inr miss ↦ inr (rw miss at found)
    ]

-- A new address is bound to an id that is larger than those before.
module _ (handle : ℕ) (c d : Coordinator) (b : IsBound c)
    (m : d.system_address_mapping ≡ assign handle (object_count c) c.system_address_mapping)
    (n : object_count d ≡ object_count c + 1) where
  assign-known :
      (other id : ℕ) → lookup other d.system_address_mapping ≡ some id → id < object_count d
  assign-known other id e =
      elim (bound_after handle other (object_count c) id c.system_address_mapping _ m e) [
        | inl (same, new) ↦ omega arith
        | inr old ↦ let k = b.known other id old in omega arith
      ]

  assign-distinct :
      (x y id : ℕ)
      → lookup x d.system_address_mapping ≡ some id
      → lookup y d.system_address_mapping ≡ some id
      → x ≡ y
  assign-distinct x y id e f =
      let first = bound_after handle x (object_count c) id c.system_address_mapping _ m e in
      let second = bound_after handle y (object_count c) id c.system_address_mapping _ m f in
      elim first [
        | inl (p, i) ↦ elim second [
          | inl (q, j) ↦ omega arith
          | inr old ↦ let k = b.known y id old in omega arith
        ]
        | inr old ↦ elim second [
          | inl (q, j) ↦ let k = b.known x id old in omega arith
          | inr also ↦ b.distinct x y id old also
        ]
      ]

  assign-Binds : Binds handle (object_count c) c d
  unfolding get_model_of_object
  assign-Binds = record {
    bound = record { known = assign-known; distinct = assign-distinct };
    found =
        rw
          (
            get_model_of_object,
            m,
            lookup-assign handle handle (object_count c) c.system_address_mapping,
          )
          (ground arith);
    in_model = omega arith;
    counted = n;
    others = λ other miss.
        rw
          (
            get_model_of_object,
            m,
            lookup-assign handle other (object_count c) c.system_address_mapping,
            miss,
          )
          refl;
  }

-- If the bound addresses stand for distinct objects of the model, of which there are fewer than the
-- largest object id, and an address is bound to a new object, it stands for that object, which is
-- in the model, the model has one object more, every other address stands for what it did, and the
-- addresses still stand for distinct objects.
pub observe_object-Binds :
    (handle id : ℕ) (o : ObjectState) (c d : Coordinator)
    → IsBound c
    → object_count c < 4294967295
    → observe_object handle o c ≡ ok (d, id)
    → Binds handle id c d
unfolding observe_object
observe_object-Binds handle id o c d b small h = elim (Bool-cases (contains_object handle c)) [
  | inl hit ↦ let stuck : Result.err already_bound ≡ ok (d, id) = rw hit at h in cc stuck
  | inr miss ↦
      let free = not_contained handle c b small miss in
      let new = (add_object o c.current_program_model.state_seq).0 in
      let next : Coordinator = record {
        current_program_model = record c.current_program_model { state_seq = new };
        system_address_mapping = assign handle (object_count c) c.system_address_mapping;
      } in
      let made : ok (next, object_count c) ≡ ok (d, id) = rw (miss, free, id-add_object o c) at h in
      let binds = assign-Binds handle c next b refl (count-add_object o c) in
      let same : next ≡ d = cc made in
      let numbered : object_count c ≡ id = cc made in rw (← same, ← numbered) binds
]
