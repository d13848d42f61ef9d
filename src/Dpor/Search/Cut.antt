-- ===== src/Dpor/Search/Cut.antt =====
-- What is left of the stack once exhausted items have gone.
use deep_debug.Prelude.{
  suc, ◌-◌, ◌≡◌, refl, ap, true, false, List, [], ◌∷◌, ◌++◌, is_empty, length, length-append, set,
  Bool-cases, inl, inr, arith,
}
use deep_debug.Dpor.StackItem.{StackItem, backtrack_set_empty}
use deep_debug.Dpor.Search.{pop_exhausted}

abbrev pub AllExhausted : List StackItem → Type 0
AllExhausted [] = Unit {0}
AllExhausted (s ∷ stack) = (backtrack_set_empty s ≡ true) × AllExhausted stack

-- The last item that has something scheduled, and the exhausted ones after it.
pub record Cut (stack : List StackItem) : Type 0 where
  pub before : List StackItem
  pub top : StackItem
  pub dropped : List StackItem
  pub whole : stack ≡ before ++ top ∷ dropped
  pub kept : pop_exhausted stack ≡ before ++ top ∷ []
  pub scheduled : backtrack_set_empty top ≡ false
  pub exhausted : AllExhausted dropped

pop_exhausted-empty :
    (stack : List StackItem) → is_empty (pop_exhausted stack) ≡ true → AllExhausted stack
unfolding pop_exhausted
pop_exhausted-empty [] h = tt
pop_exhausted-empty (s ∷ stack) h = elim (Bool-cases (is_empty (pop_exhausted stack))) [
  | inl gone ↦ elim (Bool-cases (backtrack_set_empty s)) [
    | inl none_left ↦ (none_left, pop_exhausted-empty stack gone)
    | inr some_left ↦ let stuck = rw (gone, some_left) at h in cc stuck
  ]
  | inr kept ↦ let stuck = rw kept at h in cc stuck
]

is_empty-eq {ℓ} : {A : Type ℓ} (xs : List A) → is_empty xs ≡ true → xs ≡ []
is_empty-eq [] h = refl
is_empty-eq (x ∷ xs) h = cc

-- If a stack has not become empty by removing its last items while they have nothing scheduled, it
-- has kept exactly the items up to the last that has something scheduled, and no item after that
-- has.
pub pop_exhausted-Cut :
    (stack : List StackItem) → is_empty (pop_exhausted stack) ≡ false → Cut stack
unfolding pop_exhausted
pop_exhausted-Cut [] h = cc
pop_exhausted-Cut (s ∷ stack) h = elim (Bool-cases (is_empty (pop_exhausted stack))) [
  | inl gone ↦ elim (Bool-cases (backtrack_set_empty s)) [
    | inl none_left ↦ let stuck = rw (gone, none_left) at h in cc stuck
    | inr some_left ↦ record {
      before = [];
      top = s;
      dropped = stack;
      whole = refl;
      kept = rw (gone, some_left) (ap (◌∷◌ s) (is_empty-eq (pop_exhausted stack) gone));
      scheduled = some_left;
      exhausted = pop_exhausted-empty stack gone;
    }
  ]
  | inr more ↦
      let c = pop_exhausted-Cut stack more in
      record {
        before = s ∷ c.before;
        top = c.top;
        dropped = c.dropped;
        whole = ap (◌∷◌ s) c.whole;
        kept = rw more (ap (◌∷◌ s) c.kept);
        scheduled = c.scheduled;
        exhausted = c.exhausted;
      }
]

-- Writing the last item.
pub set-last :
    (before : List StackItem) (top new : StackItem)
    → set (before ++ top ∷ []) (length (before ++ top ∷ []) - 1) new ≡ before ++ new ∷ []
set-last [] top new = refl
set-last (s ∷ before) top new =
    let last : length (s ∷ before ++ top ∷ []) - 1 ≡ suc (length (before ++ top ∷ []) - 1) =
      omega (arith, length-append before (top ∷ [])) in
    rw last (ap (◌∷◌ s) (set-last before top new))
