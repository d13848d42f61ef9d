-- ===== src/Prelude/Results.antt =====
-- What a C++ call may raise, and the sequencing of calls that may raise it.
use Prim.Native.Nat.{ℕ}
use mathlib.Core.Path.{◌≡◌, refl, subst}
use mathlib.Core.Logic.{◌⊎◌, inl, inr}
use mathlib.Core.Bool.{Bool, true, false}
use mathlib.Core.Option.{Option, none, some}

pub data Error : Type 0 where
  out_of_range : Error  -- `std::out_of_range` of `at`
  bad_cast : Error  -- undefined: a `static_cast` to another kind of object
  out_of_bounds : Error  -- undefined: `operator[]` or `back` past the end
  invalid_object : Error  -- the invalid object id was given
  unknown_runner : Error  -- the runner does not exist in this state
  invalid_insertion : Error  -- two keys of an injective function would share a value
  assertion_failed : Error
  executor_mismatch : Error
  next_unknown : Error
  was_disabled : Error
  was_undefined : Error
  backtrack_empty : Error
  depth_exceeded : Error
  null_pointer : Error  -- undefined: a null pointer is followed
  already_bound : Error  -- an address already stands for an object of the model
  not_initialized : Error  -- `undefined_behavior_exception`
  unmodeled_thread : Error
  execution_error : Error
  termination_error : (signo culprit : ℕ) → Error
  nonzero_exit_code_error : (exit_code culprit : ℕ) → Error

-- The value that a call returns, or why it does not return.
pub data Result {κ} (Value : Type κ) : Type κ where
  err : (cause : Error) → Result Value
  ok : (value : Value) → Result Value

infixl 5 ◌>>=◌
abbrev pub ◌>>=◌ {κ μ} :
    {A : Type κ} {B : Type μ} (first : Result A) (next : A → Result B) → Result B
err cause >>= next = err cause
ok value >>= next = next value

-- `throw` where a lookup found nothing.
abbrev pub or_fail {κ} : {A : Type κ} → Option A → Error → Result A
or_fail (some value) cause = ok value
or_fail none cause = err cause

abbrev pub is_ok {κ} : {A : Type κ} → Result A → Bool
is_ok (err cause) = false
is_ok (ok value) = true

-- A sequence that returned is one whose first call returned, and so did the second.
pub >>=-eq-ok {κ μ} :
    {A : Type κ} {B : Type μ} (first : Result A) (next : A → Result B) {last : B}
    → (first >>= next) ≡ ok last
    → (middle : A) × (first ≡ ok middle) × (next middle ≡ ok last)
>>=-eq-ok (err cause) next returned = cc
>>=-eq-ok (ok value) next returned = (value, refl, returned)

pub or_fail-eq-ok {ℓ} :
    {A : Type ℓ} (o : Option A) (e : Error) {a : A} → or_fail o e ≡ ok a → o ≡ some a
or_fail-eq-ok none e h = cc
or_fail-eq-ok (some a) e h = cc

-- The step that follows a known result.
pub >>=-known {ℓ κ} :
    {A : Type ℓ} {B : Type κ} (m : Result A) (f : A → Result B) {a : A} {r : Result B}
    → m ≡ ok a
    → (m >>= f) ≡ r
    → f a ≡ r
>>=-known (ok b) f {a} {r} known h = let same : b ≡ a = cc in subst (λ x. f x ≡ r) same h
>>=-known (err e) f {a} {r} known h = cc

-- To split on a computed result and keep the equation.
pub Result-cases {κ} :
    {A : Type κ} (r : Result A) → ((a : A) × (r ≡ ok a)) ⊎ ((cause : Error) × (r ≡ err cause))
Result-cases (err cause) = inr (cause, refl)
Result-cases (ok value) = inl (value, refl)

pub Option-cases {κ} : {A : Type κ} (x : Option A) → ((a : A) × (x ≡ some a)) ⊎ (x ≡ none)
Option-cases (some a) = inl (a, refl)
Option-cases none = inr refl
