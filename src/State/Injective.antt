-- ===== src/State/Injective.antt =====
-- include/mcmini/misc/injective_function.hpp.
pub mod Mirror
use deep_debug.Prelude.{
  ℕ, Bool, true, false, List, [], ◌∷◌, Option, none, some, lookup, assign, has_key, length,
  if◌then◌else◌, Result, ok, err, invalid_insertion, ◌>>=◌,
}

pub record Injective : Type 0 where
  pub forward : List (ℕ × ℕ)
  pub backward : List (ℕ × ℕ)

abbrev pub no_mapping : Injective
no_mapping = record { forward = []; backward = [] }

abbrev pub size : Injective → ℕ
size f = length f.forward

abbrev pub at : ℕ → Injective → Option ℕ
at k f = lookup k f.forward

abbrev pub range_at : ℕ → Injective → Option ℕ
range_at v f = lookup v f.backward

abbrev pub count_domain : ℕ → Injective → Bool
count_domain k f = has_key k f.forward

abbrev pub count_range : ℕ → Injective → Bool
count_range v f = has_key v f.backward

-- The function as the call leaves it, and whether it inserted or threw. The key is in `forward`
-- before the value is looked up in `backward`.
unfoldable pub insert : ℕ → ℕ → Injective → Injective × Result Bool
insert k v f =
    if has_key k f.forward
    then (f, ok false)
    else if has_key v f.backward
    then (record f { forward = assign k v f.forward }, err invalid_insertion)
    else (record { forward = assign k v f.forward; backward = assign v k f.backward }, ok true)

-- For the callers, which let the exception pass.
unfoldable pub inserted : ℕ → ℕ → Injective → Result Injective
unfolding insert
inserted k v f = let (g, r) = insert k v f in r >>= λ _. ok g
