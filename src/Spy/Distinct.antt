-- ===== src/Spy/Distinct.antt =====
-- No object has two records: what the sections under `rec_list_lock` do to the list.
use deep_debug.Prelude.{
  ℕ, zero, suc, ◌==◌, ==-eq, ◌≡◌, ◌⊎◌, refl, sym, ap, ◌∙◌, subst, Bool-cases, Option-cases, false,
  inl, inr, [], ◌∷◌, ◌++◌, some, none, get_elem?, set, Result, ok, or_fail, or_fail-eq-ok,
  >>=-eq-ok, out_of_bounds, arith, if◌then◌else◌,
}
use deep_debug.Spy.Record.{
  RecordedObject, RecordedState, RecList, next_position, find_object, find_or_add, update_node,
}

-- No two nodes have the same location, but for those with none.
abbrev pub IsDistinct : RecList → Type 0
IsDistinct [] = Unit {0}
IsDistinct (node ∷ rest) =
    ((node.location ≡ 0) ⊎ (find_object node.location rest ≡ none)) × IsDistinct rest

-- The location is not that of the first node, nor of a later one.
pub missing-cons :
    (addr : ℕ) (node : RecordedObject) (rest : RecList)
    → find_object addr (node ∷ rest) ≡ none
    → ((node.location == addr) ≡ false) × (find_object addr rest ≡ none)
unfolding find_object
missing-cons addr node rest h = elim (Bool-cases (node.location == addr)) [
  | inl hit ↦ let stuck = rw hit at h in cc stuck
  | inr miss ↦ elim (Option-cases (find_object addr rest)) [
    | inl (i, later) ↦ let stuck = rw (miss, later) at h in cc stuck
    | inr later ↦ (miss, later)
  ]
]

missing-append :
    (addr : ℕ) (head : RecList) (node : RecordedObject)
    → find_object addr head ≡ none
    → (node.location == addr) ≡ false
    → find_object addr (head ++ node ∷ []) ≡ none
unfolding find_object
missing-append addr [] node h miss = rw miss refl
missing-append addr (x ∷ head) node h miss =
    let (first, later) = missing-cons addr x head h in
    rw (first, missing-append addr head node later miss) refl

==-sym-false : (a b : ℕ) → (a == b) ≡ false → (b == a) ≡ false
==-sym-false a b h = ground arith

pub append-IsDistinct :
    (head : RecList) (node : RecordedObject)
    → IsDistinct head
    → (node.location ≡ 0) ⊎ (find_object node.location head ≡ none)
    → IsDistinct (head ++ node ∷ [])
unfolding find_object
append-IsDistinct [] node d new = (inr refl, tt)
append-IsDistinct (x ∷ head) node (fresh, d) new = elim new [
  | inr missing ↦
      let (differs, later) = missing-cons node.location x head missing in
      (
        still_fresh fresh (==-sym-false x.location node.location differs),
        append-IsDistinct head node d (inr later),
      )
  | inl nowhere ↦ (nowhere_fresh fresh nowhere, append-IsDistinct head node d (inl nowhere))
]
  where
    still_fresh :
        (x.location ≡ 0) ⊎ (find_object x.location head ≡ none)
        → (node.location == x.location) ≡ false
        → (x.location ≡ 0) ⊎ (find_object x.location (head ++ node ∷ []) ≡ none)
    still_fresh (inl zero_location) differs = inl zero_location
    still_fresh (inr missing) differs = inr (missing-append x.location head node missing differs)

    nowhere_fresh :
        (x.location ≡ 0) ⊎ (find_object x.location head ≡ none)
        → node.location ≡ 0
        → (x.location ≡ 0) ⊎ (find_object x.location (head ++ node ∷ []) ≡ none)
    nowhere_fresh (inl zero_location) e = inl zero_location
    nowhere_fresh (inr missing) e = elim (Bool-cases (node.location == x.location)) [
      | inl hit ↦ inl (sym (==-eq node.location x.location hit) ∙ e)
      | inr miss ↦ inr (missing-append x.location head node missing miss)
    ]

find_object-set :
    (addr : ℕ) (head : RecList) (i : ℕ) (node : RecordedObject) (state : RecordedState)
    → get_elem? head i ≡ some node
    → find_object addr (set head i (record node { state = state })) ≡ find_object addr head
unfolding find_object
find_object-set addr [] i node state h = cc
find_object-set addr (x ∷ head) zero node state h =
    let same : x ≡ node = cc h in
    ap
      (λ (y : RecordedObject).
        if y.location == addr then some 0 else next_position (find_object addr head))
      (sym same)
find_object-set addr (x ∷ head) (suc i) node state h =
    ap (λ later. if x.location == addr then some 0 else next_position later)
      (find_object-set addr head i node state h)

set-IsDistinct :
    (head : RecList) (i : ℕ) (node : RecordedObject) (state : RecordedState)
    → get_elem? head i ≡ some node
    → IsDistinct head
    → IsDistinct (set head i (record node { state = state }))
set-IsDistinct [] i node state h d = cc
set-IsDistinct (x ∷ head) zero node state h (fresh, d) =
    let same : x ≡ node = cc h in
    (
      subst (λ (y : RecordedObject). (y.location ≡ 0) ⊎ (find_object y.location head ≡ none)) same
          fresh,
      d,
    )
set-IsDistinct (x ∷ head) (suc i) node state h (fresh, d) = (
  subst (λ f. (x.location ≡ 0) ⊎ (f ≡ none)) (sym (find_object-set x.location head i node state h))
      fresh,
  set-IsDistinct head i node state h d,
)

pub find_or_add-IsDistinct :
    (addr : ℕ) (initial : RecordedState) (head : RecList)
    → IsDistinct head
    → IsDistinct (find_or_add addr initial head).0
unfolding find_or_add
find_or_add-IsDistinct addr initial head d = elim (Option-cases (find_object addr head)) [
  | inl (i, found) ↦ rw (find_or_add, found) d
  | inr missing ↦
      rw (find_or_add, missing)
        (append-IsDistinct head (record { location = addr; state = initial }) d (inr missing))
]

pub update_node-IsDistinct :
    (i : ℕ) (f : RecordedState → Result RecordedState) (head after : RecList)
    → update_node i f head ≡ ok after
    → IsDistinct head
    → IsDistinct after
unfolding update_node
update_node-IsDistinct i f head after h d =
    let (node, at_i, h₁) = >>=-eq-ok (or_fail (get_elem? head i) out_of_bounds) _ h in
    let (state, computed, made) = >>=-eq-ok (f node.state) _ h₁ in
    let same : set head i (record node { state = state }) ≡ after = cc made in
    subst IsDistinct same
      (set-IsDistinct head i node state (or_fail-eq-ok (get_elem? head i) out_of_bounds at_i) d)
