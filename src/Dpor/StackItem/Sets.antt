-- ===== src/Dpor/StackItem/Sets.antt =====
-- The runner that is taken from the backtrack set was scheduled.
use deep_debug.Prelude.{
  ℕ, ◌≤◌, min, ◌==◌, ◌≡◌, refl, sym, ◌∙◌, true, false, ◌⊎◌, inl, inr, List, [], ◌∷◌, contains, ok,
  arith, Bool-cases, ap, ==-eq, leb, err, subst, backtrack_empty,
}
use deep_debug.Dpor.StackItem.{
  StackItem, mark_searched, smallest, pop_smallest, backtrack_set_pop_first,
}

contains_eq : (r q : ℕ) (xs : List ℕ) → (r == q) ≡ true → contains r xs ≡ contains q xs
contains_eq r q xs e = ap (λ x. contains x xs) (==-eq r q e)

leb-false : (a b : ℕ) → leb a b ≡ false → b ≤ a
leb-false a b h = ground arith

-- The smallest value is the start or an element.
pub smallest-contains :
    (start : ℕ) (xs : List ℕ)
    → (smallest start xs ≡ start) ⊎ (contains (smallest start xs) xs ≡ true)
unfolding smallest
smallest-contains start [] = inl refl
smallest-contains start (x ∷ xs) = elim (smallest-contains (min x start) xs) [
  | inr found ↦ inr (ground arith)
  | inl here ↦ elim (Bool-cases (leb x start)) [
    | inl low ↦ inr (ground arith)
    | inr high ↦ inl (omega (arith, leb-false x start high))
  ]
]

pub smallest-mem :
    (first : ℕ) (rest : List ℕ) → contains (smallest first (first ∷ rest)) (first ∷ rest) ≡ true
smallest-mem first rest = elim (smallest-contains first (first ∷ rest)) [
  | inl here ↦ rw here (ground arith)
  | inr found ↦ found
]

-- What a returned runner says of the item that it was taken from.
pub backtrack_set_pop_first-eq-ok :
    (s t : StackItem) (rid : ℕ)
    → backtrack_set_pop_first s ≡ ok (rid, t)
    → (t ≡ mark_searched rid s) × (contains rid s.backtrack_set ≡ true)
unfolding backtrack_set_pop_first
backtrack_set_pop_first-eq-ok s t rid h = by_set s.backtrack_set h
  where
    by_set :
        (set : List ℕ)
        → pop_smallest set s ≡ ok (rid, t)
        → (t ≡ mark_searched rid s) × (contains rid set ≡ true)
    by_set [] h =
        let empty : pop_smallest [] s ≡ err backtrack_empty = unfold pop_smallest in refl in
        cc (h, empty)
    by_set (first ∷ rest) h =
        let taken : pop_smallest (first ∷ rest) s
            ≡ ok (smallest first (first ∷ rest), mark_searched (smallest first (first ∷ rest)) s) =
          unfold pop_smallest in refl in
        let returned = sym h ∙ taken in
        let same : rid ≡ smallest first (first ∷ rest) = cc returned in
        let item : t ≡ mark_searched (smallest first (first ∷ rest)) s = cc returned in
        subst (λ x. (t ≡ mark_searched x s) × (contains x (first ∷ rest) ≡ true)) (sym same)
          (item, smallest-mem first rest)
