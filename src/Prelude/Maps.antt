-- ===== src/Prelude/Maps.antt =====
-- Hash maps keyed by numbers, as association lists with `operator[]`, `insert`, `count` and `at`.
use Prim.Native.Nat.{ℕ, ◌+◌}
use mathlib.Core.Path.{◌≡◌, refl}
use mathlib.Core.Bool.{Bool, false}
use mathlib.Core.List.{List, [], ◌∷◌}
use mathlib.Core.Option.{Option, none, some}
use native.Mathlib.Omega.{arith}
use deep_debug.Prelude.Tests.{◌==◌, if◌then◌else◌, is_some}
use deep_debug.Prelude.Lists.{length}

module _ {ℓ} {V : Type ℓ} where
  abbrev pub lookup : ℕ → List (ℕ × V) → Option V
  lookup k [] = none
  lookup k ((j, v) ∷ m) = if j == k then some v else lookup k m

  -- `m[k] = v`
  abbrev pub assign : ℕ → V → List (ℕ × V) → List (ℕ × V)
  assign k v [] = (k, v) ∷ []
  assign k v ((j, w) ∷ m) = if j == k then (k, v) ∷ m else (j, w) ∷ assign k v m

  abbrev pub has_key : ℕ → List (ℕ × V) → Bool
  has_key k m = is_some (lookup k m)

  pub lookup-assign :
      (k j : ℕ) (v : V) (m : List (ℕ × V))
      → lookup j (assign k v m) ≡ (if k == j then some v else lookup j m)
  lookup-assign k j v [] = refl
  lookup-assign k j v ((i, w) ∷ m) = ground (arith, lookup-assign k j v m)

  pub lookup-assign_self : (k : ℕ) (v : V) (m : List (ℕ × V)) → lookup k (assign k v m) ≡ some v
  lookup-assign_self k v m = ground (arith, lookup-assign k k v m)

  pub length-assign_new :
      (k : ℕ) (v : V) (m : List (ℕ × V))
      → has_key k m ≡ false
      → length (assign k v m) ≡ length m + 1
  length-assign_new k v [] h = omega arith
  length-assign_new k v ((j, w) ∷ m) h = ground (arith, length-assign_new k v m)
