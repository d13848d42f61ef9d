-- ===== src/Spy/Staying.antt =====
-- Records stay where they are: what the sections under `rec_list_lock` do to the nodes.
use deep_debug.Prelude.{
  ℕ, zero, suc, ◌==◌, Bool, false, ◌≡◌, ◌⊎◌, refl, sym, ap, ◌∙◌, subst, Bool-cases, Option-cases,
  inl, inr, [], ◌∷◌, ◌++◌, some, get_elem?, set, Result, ok, or_fail, or_fail-eq-ok, >>=-eq-ok,
  out_of_bounds, if◌then◌else◌,
}
use deep_debug.Spy.Record.{
  RecordedObject, RecordedState, MutexRecord, SemaphoreRecord, ConditionRecord, ThreadStatus,
  RecList, mutex, semaphore, condition_variable, thread, next_position, find_object, find_or_add,
  update_node, update_mutex, update_semaphore, update_condition,
}
use deep_debug.Spy.Thread.{thread_position, mark_exited}

-- What a record is of: the tag of the union, and the descriptor and the id of a thread.
pub data Subject : Type 0 where
  a_mutex a_semaphore a_condition_variable : Subject
  a_thread : (pthread_desc id : ℕ) → Subject

abbrev pub subject : RecordedState → Subject
subject (mutex m) = a_mutex
subject (semaphore s) = a_semaphore
subject (condition_variable c) = a_condition_variable
subject (thread t) = a_thread t.pthread_desc t.id

-- It is still of the same, or of a semaphore, which overwrites the whole node.
abbrev pub Becomes : RecordedState → RecordedState → Type 0
Becomes old new = (subject new ≡ subject old) ⊎ (subject new ≡ a_semaphore)

Becomes-trans : (a b c : RecordedState) → Becomes a b → Becomes b c → Becomes a c
Becomes-trans a b c first (inr overwritten) = inr overwritten
Becomes-trans a b c (inl same) (inl same') = inl (same' ∙ same)
Becomes-trans a b c (inr overwritten) (inl same') = inr (same' ∙ overwritten)

-- The second list has the nodes of the first where they were, and perhaps more.
abbrev pub Stays : RecList → RecList → Type 0
Stays [] after = Unit {0}
Stays (node ∷ head) [] = ⊥
Stays (node ∷ head) (node' ∷ after) =
    (node'.location ≡ node.location) × Becomes node.state node'.state × Stays head after

pub Stays-refl : (head : RecList) → Stays head head
Stays-refl [] = tt
Stays-refl (node ∷ head) = (refl, inl refl, Stays-refl head)

pub Stays-trans :
    (head between after : RecList) → Stays head between → Stays between after → Stays head after
Stays-trans [] between after first second = tt
Stays-trans (x ∷ head) [] after first second = absurd first
Stays-trans (x ∷ head) (y ∷ between) [] first second = absurd second
Stays-trans (x ∷ head) (y ∷ between) (z ∷ after) (e, b, first) (e', b', second) = (
  e' ∙ e,
  Becomes-trans x.state y.state z.state b b',
  Stays-trans head between after first second,
)

pub append-Stays : (head : RecList) (node : RecordedObject) → Stays head (head ++ node ∷ [])
append-Stays [] node = tt
append-Stays (x ∷ head) node = (refl, inl refl, append-Stays head node)

set-Stays :
    (head : RecList) (i : ℕ) (node : RecordedObject) (state : RecordedState)
    → get_elem? head i ≡ some node
    → Becomes node.state state
    → Stays head (set head i (record node { state = state }))
set-Stays [] i node state h b = cc
set-Stays (x ∷ head) zero node state h b =
    let same : x ≡ node = cc h in
    (
      ap (λ (y : RecordedObject). y.location) (sym same),
      subst (λ (y : RecordedObject). Becomes y.state state) (sym same) b,
      Stays-refl head,
    )
set-Stays (x ∷ head) (suc i) node state h b = (refl, inl refl, set-Stays head i node state h b)

pub find_or_add-Stays :
    (addr : ℕ) (initial : RecordedState) (head : RecList)
    → Stays head (find_or_add addr initial head).0
unfolding find_or_add
find_or_add-Stays addr initial head = elim (Option-cases (find_object addr head)) [
  | inl (j, found) ↦ rw (find_or_add, found) (Stays-refl head)
  | inr missing ↦
      rw (find_or_add, missing) (append-Stays head (record { location = addr; state = initial }))
]

-- What is written to a node is of what the node was of, or a semaphore.
abbrev pub Preserves : (RecordedState → Result RecordedState) → Type 0
Preserves f = (old new : RecordedState) → f old ≡ ok new → Becomes old new

pub update_node-Stays :
    (i : ℕ) (f : RecordedState → Result RecordedState) (head after : RecList)
    → Preserves f
    → update_node i f head ≡ ok after
    → Stays head after
unfolding update_node
update_node-Stays i f head after preserves h =
    let (node, at_i, h₁) = >>=-eq-ok (or_fail (get_elem? head i) out_of_bounds) _ h in
    let (state, computed, made) = >>=-eq-ok (f node.state) _ h₁ in
    let same : set head i (record node { state = state }) ≡ after = cc made in
    subst (Stays head) same (
      set-Stays head i node state (or_fail-eq-ok (get_elem? head i) out_of_bounds at_i)
        (preserves node.state state computed))

pub update_mutex-Preserves : (f : MutexRecord → MutexRecord) → Preserves (update_mutex f)
update_mutex-Preserves f (mutex m) new h =
    let same : mutex (f m) ≡ new = cc in inl (ap subject (sym same))
update_mutex-Preserves f (semaphore s) new h = cc
update_mutex-Preserves f (condition_variable c) new h = cc
update_mutex-Preserves f (thread t) new h = cc

pub update_semaphore-Preserves :
    (f : SemaphoreRecord → SemaphoreRecord) → Preserves (update_semaphore f)
update_semaphore-Preserves f (mutex m) new h = cc
update_semaphore-Preserves f (semaphore s) new h =
    let same : semaphore (f s) ≡ new = cc in inl (ap subject (sym same))
update_semaphore-Preserves f (condition_variable c) new h = cc
update_semaphore-Preserves f (thread t) new h = cc

pub update_condition-Preserves :
    (f : ConditionRecord → Result ConditionRecord) → Preserves (update_condition f)
update_condition-Preserves f (mutex m) new h = cc
update_condition-Preserves f (semaphore s) new h = cc
update_condition-Preserves f (condition_variable c) new h =
    let (changed, computed, made) = >>=-eq-ok (f c) _ h in
    let same : condition_variable changed ≡ new = cc in inl (ap subject (sym same))
update_condition-Preserves f (thread t) new h = cc

pub mark_exited-Preserves : Preserves mark_exited
mark_exited-Preserves (mutex m) new h = cc
mark_exited-Preserves (semaphore s) new h = cc
mark_exited-Preserves (condition_variable c) new h = cc
mark_exited-Preserves (thread t) new h =
    let same : thread (record t { status = ThreadStatus.exited }) ≡ new = cc in
    inl (ap subject (sym same))

pub overwritten-Preserves : (s : SemaphoreRecord) → Preserves (λ old. ok (semaphore s))
overwritten-Preserves s old new h = let same : semaphore s ≡ new = cc in inr (ap subject (sym same))

-- What staying comes to for the lookups.

pub Stays-get_elem? :
    (head after : RecList) (i : ℕ) (node : RecordedObject)
    → Stays head after
    → get_elem? head i ≡ some node
    → (node' : RecordedObject) × (get_elem? after i ≡ some node')
      × (node'.location ≡ node.location)
      × Becomes node.state node'.state
Stays-get_elem? [] after i node stays h = cc
Stays-get_elem? (x ∷ head) [] i node stays h = absurd stays
Stays-get_elem? (x ∷ head) (y ∷ after) zero node (e, b, stays) h =
    let same : x ≡ node = cc in
    (
      y,
      refl,
      e ∙ ap (λ (n : RecordedObject). n.location) same,
      subst (λ (n : RecordedObject). Becomes n.state y.state) same b,
    )
Stays-get_elem? (x ∷ head) (y ∷ after) (suc i) node (e, b, stays) h =
    Stays-get_elem? head after i node stays h

pub Stays-find_object :
    (head after : RecList) (addr i : ℕ)
    → Stays head after
    → find_object addr head ≡ some i
    → find_object addr after ≡ some i
unfolding find_object
Stays-find_object [] after addr i stays h = cc
Stays-find_object (x ∷ head) [] addr i stays h = absurd stays
Stays-find_object (x ∷ head) (y ∷ after) addr i (e, b, stays) h =
    rw e (elim (Bool-cases (x.location == addr)) [
      | inl hit ↦ rw hit (rw hit at h)
      | inr miss ↦ elim (Option-cases (find_object addr head)) [
        | inl (j, later) ↦
            let here : some (suc j) ≡ some i = rw (miss, later) at h in
            rw (miss, Stays-find_object head after addr j stays later) here
        | inr missing ↦ let stuck = rw (miss, missing) at h in cc stuck
      ]
    ])

-- Whether a record is of a thread with this descriptor.
abbrev is_of : ℕ → Subject → Bool
is_of t (a_thread pthread_desc id) = t == pthread_desc
is_of t _ = false

thread_position-cons :
    (t location : ℕ) (state : RecordedState) (rest : RecList)
    → thread_position t (record { location = location; state = state } ∷ rest)
      ≡ (if is_of t (subject state) then some 0 else next_position (thread_position t rest))
unfolding thread_position
thread_position-cons t location (mutex m) rest = refl
thread_position-cons t location (semaphore s) rest = refl
thread_position-cons t location (condition_variable c) rest = refl
thread_position-cons t location (thread r) rest = refl

-- The record at a position is of a semaphore.
abbrev pub HasSemaphoreAt : ℕ → RecList → Type 0
HasSemaphoreAt i after =
    (node : RecordedObject) × (get_elem? after i ≡ some node) × (subject node.state ≡ a_semaphore)

pub Stays-thread_position :
    (head after : RecList) (t i : ℕ)
    → Stays head after
    → thread_position t head ≡ some i
    → (thread_position t after ≡ some i) ⊎ HasSemaphoreAt i after
unfolding thread_position
Stays-thread_position [] after t i stays h = cc
Stays-thread_position (x ∷ head) [] t i stays h = absurd stays
Stays-thread_position (x ∷ head) (y ∷ after) t i (e, b, stays) h =
    let first = sym (thread_position-cons t x.location x.state head) ∙ h in
    elim (Bool-cases (is_of t (subject x.state))) [
      | inl hit ↦
          let here : some 0 ≡ some i = rw hit at first in
          let zeroth : 0 ≡ i = cc in
          elim b [
            | inl same ↦
                inl (thread_position-cons t y.location y.state after ∙ (rw (same, hit) here))
            | inr overwritten ↦
                inr (subst (λ n. HasSemaphoreAt n (y ∷ after)) zeroth (y, refl, overwritten))
          ]
      | inr miss ↦
          let later : next_position (thread_position t head) ≡ some i = rw miss at first in
          let miss' : is_of t (subject y.state) ≡ false = elim b [
            | inl same ↦ ap (is_of t) same ∙ miss
            | inr overwritten ↦ ap (is_of t) overwritten
          ] in
          elim (Option-cases (thread_position t head)) [
            | inl (j, found) ↦
                let next : some (suc j) ≡ some i = rw found at later in
                let same : suc j ≡ i = cc in
                elim (Stays-thread_position head after t j stays found) [
                  | inl kept ↦
                      inl
                        (thread_position-cons t y.location y.state after ∙ (rw (miss', kept) next))
                  | inr (node, at_j, overwritten) ↦
                      inr (subst (λ n. HasSemaphoreAt n (y ∷ after)) same (node, at_j, overwritten))
                ]
            | inr missing ↦ let stuck = rw missing at later in cc stuck
          ]
    ]
