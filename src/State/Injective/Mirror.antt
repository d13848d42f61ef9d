-- ===== src/State/Injective/Mirror.antt =====
-- The two maps of an injective function mirror each other.
use deep_debug.Prelude.{ℕ, ◌≡◌, some, lookup, lookup-assign, ok, err, arith, invalid_insertion}
use deep_debug.State.Injective.{Injective, insert, inserted}

pub record IsMirror (f : Injective) : Type 0 where
  pub to_backward : (k v : ℕ) → lookup k f.forward ≡ some v → lookup v f.backward ≡ some k
  pub to_forward : (k v : ℕ) → lookup v f.backward ≡ some k → lookup k f.forward ≡ some v

-- An insertion that does not throw keeps the two maps of an injective function inverse to each
-- other.
pub inserted-IsMirror :
    (k v : ℕ) (f g : Injective) → IsMirror f → inserted k v f ≡ ok g → IsMirror g
unfolding inserted
inserted-IsMirror k v f g m h = record {
  to_backward = λ a b e. ground (
    arith,
    m.to_backward a b,
    m.to_forward k v,
    lookup-assign k a v f.forward,
    lookup-assign v b k f.backward,
  );
  to_forward = λ a b e. ground (
    arith,
    m.to_forward a b,
    m.to_backward a b,
    lookup-assign k a v f.forward,
    lookup-assign v b k f.backward,
  );
}

-- After an insertion that throws, the two maps of an injective function that were inverse to each
-- other no longer are.
pub throwing-breaks-IsMirror :
    (k v : ℕ) (f : Injective)
    → IsMirror f
    → (insert k v f).1 ≡ err invalid_insertion
    → ¬ IsMirror (insert k v f).0
unfolding insert
throwing-breaks-IsMirror k v f m h n =
    ground (arith, n.to_backward k v, lookup-assign k k v f.forward, m.to_forward k v)
