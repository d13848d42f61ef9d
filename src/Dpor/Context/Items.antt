-- ===== src/Dpor/Context/Items.antt =====
-- `grow_stack_after_running`: what its parts leave of an item.
use deep_debug.Prelude.{
  ℕ, suc, ◌≡◌, refl, Bool, true, false, List, [], ◌∷◌, some, if◌then◌else◌, length, length-set,
  get_elem?, set, ap, ok, >>=-eq-ok, or_fail-eq-ok, arith, sym, ◌∙◌, zero, ◌<◌, or_fail,
  out_of_bounds,
}
use deep_debug.Dpor.ClockVector.{ClockVector, RunnerItem, set_clock_vector}
use deep_debug.Transition.{Transition}
use deep_debug.Dpor.StackItem.{StackItem, insert_into_sleep_set}
use deep_debug.Dpor.Relations.{Relations, are_independent}
use deep_debug.Dpor.Context.{Context, next_of}
use deep_debug.Dpor.Context.Expand.{set_clock_of, keep_sleeping}

pub backtrack_set-keep_sleeping :
    (config : Relations) (t : Transition) (context : Context) (sleeping : List ℕ) (s : StackItem)
    {r : StackItem}
    → keep_sleeping config t context sleeping s ≡ ok r
    → r.backtrack_set ≡ s.backtrack_set
unfolding keep_sleeping
backtrack_set-keep_sleeping config t context [] s {r} h =
    let same : s ≡ r = cc in ap (λ x. x.backtrack_set) (sym same)
backtrack_set-keep_sleeping config t context (rid ∷ sleeping) s h =
    let (rid_next, found, h1) = >>=-eq-ok (next_of rid context) _ h in
    backtrack_set-keep_sleeping config t context sleeping _ h1
    ∙ kept (are_independent config rid_next t) rid s
  where
    kept :
        (b : Bool) (rid : ℕ) (s : StackItem)
        → (if b then insert_into_sleep_set rid s else s).backtrack_set ≡ s.backtrack_set
    kept true rid s = refl
    kept false rid s = refl

pub per_runner_clocks-keep_sleeping :
    (config : Relations) (t : Transition) (context : Context) (sleeping : List ℕ) (s : StackItem)
    {r : StackItem}
    → keep_sleeping config t context sleeping s ≡ ok r
    → r.per_runner_clocks ≡ s.per_runner_clocks
unfolding keep_sleeping
per_runner_clocks-keep_sleeping config t context [] s {r} h =
    let same : s ≡ r = cc in ap (λ x. x.per_runner_clocks) (sym same)
per_runner_clocks-keep_sleeping config t context (rid ∷ sleeping) s h =
    let (rid_next, found, h1) = >>=-eq-ok (next_of rid context) _ h in
    per_runner_clocks-keep_sleeping config t context sleeping _ h1
    ∙ kept (are_independent config rid_next t) rid s
  where
    kept :
        (b : Bool) (rid : ℕ) (s : StackItem)
        → (if b then insert_into_sleep_set rid s else s).per_runner_clocks ≡ s.per_runner_clocks
    kept true rid s = refl
    kept false rid s = refl

get_elem?-some-lt {ℓ} :
    {A : Type ℓ} (xs : List A) (i : ℕ) (a : A) → get_elem? xs i ≡ some a → i < length xs
get_elem?-some-lt [] i a h = cc
get_elem?-some-lt (x ∷ xs) zero a h = omega arith
get_elem?-some-lt (x ∷ xs) (suc i) a h = omega (arith, get_elem?-some-lt xs i a h)

pub set_clock_of-lt :
    (p : ℕ) (cv : ClockVector) (clocks after : List RunnerItem)
    → set_clock_of p cv clocks ≡ ok after
    → p < length clocks
unfolding set_clock_of
set_clock_of-lt p cv clocks after h =
    let (clock, found, h1) = >>=-eq-ok (or_fail (get_elem? clocks p) out_of_bounds) _ h in
    get_elem?-some-lt clocks p clock (or_fail-eq-ok _ out_of_bounds found)

pub length-set_clock_of :
    (p : ℕ) (cv : ClockVector) (clocks after : List RunnerItem)
    → set_clock_of p cv clocks ≡ ok after
    → length after ≡ length clocks
unfolding set_clock_of
length-set_clock_of p cv clocks after h =
    let (clock, found, h1) = >>=-eq-ok (or_fail (get_elem? clocks p) out_of_bounds) _ h in
    let same : set clocks p (set_clock_vector cv clock) ≡ after = cc in
    ap length (sym same) ∙ length-set clocks p (set_clock_vector cv clock)
