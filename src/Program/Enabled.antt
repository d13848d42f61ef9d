-- ===== src/Program/Enabled.antt =====
-- Who may run, and when the program is in a deadlock.
use deep_debug.Prelude.{
  ℕ, zero, suc, ◌==◌, ==-refl, ==-eq, ◌≡◌, ◌≢◌, Bool, true, false, List, [], ◌∷◌, some, get_elem?,
  contains, if◌then◌else◌, if-eq, inl, inr, Bool-cases, ok, >>=-eq-ok, arith, ap, ◌∙◌, sym,
}
use deep_debug.Sequence.{StateSequence, current}
use deep_debug.Transition.{Transition, is_enabled_in}
use deep_debug.Program.{Program, PendingTransitions, enabled_among, get_enabled_runners}

-- A pending transition of `q` that is enabled.
abbrev pub HasEnabled : StateSequence → PendingTransitions → ℕ → Type 0
HasEnabled s steps q =
    (i : ℕ) × (t : Transition) × (get_elem? steps i ≡ some (q, t))
    × (is_enabled_in t (current s) ≡ ok true)

in_tail :
    (p q : ℕ) (rest : List ℕ)
    → (p == q) ≡ false
    → contains q (p ∷ rest) ≡ true
    → contains q rest ≡ true
in_tail p q rest other h = ground arith

enabled_among-HasEnabled :
    (s : StateSequence) (steps : PendingTransitions) (rs : List ℕ) (q : ℕ)
    → enabled_among s steps ≡ ok rs
    → contains q rs ≡ true
    → HasEnabled s steps q
unfolding enabled_among
enabled_among-HasEnabled s [] rs q h member = absurd (nothing rs q (cc) member)
  where
    nothing : (rs : List ℕ) (q : ℕ) → rs ≡ [] → contains q rs ≢ true
    nothing rs q h = cc
enabled_among-HasEnabled s ((p, t) ∷ steps) rs q h member =
    let (enabled, found, h1) = >>=-eq-ok (is_enabled_in t (current s)) _ h in
    let (rest, others, h2) = >>=-eq-ok (enabled_among s steps) _ h1 in
    let same : (if enabled then p ∷ rest else rest) ≡ rs = cc in
    elim (if-eq enabled (p ∷ rest) rest same) [
      | inl (on, e) ↦ elim (Bool-cases (p == q)) [
        | inl here ↦ (0, t, ap (λ x. some (x, t)) (==-eq p q here), found ∙ ap ok on)
        | inr other ↦
            let (i, u, at_i, can) =
              enabled_among-HasEnabled s steps rest q others
                (in_tail p q rest other (ap (contains q) e ∙ member)) in
            (suc i, u, at_i, can)
      ]
      | inr (off, e) ↦
          let (i, u, at_i, can) =
            enabled_among-HasEnabled s steps rest q others (ap (contains q) e ∙ member) in
          (suc i, u, at_i, can)
    ]

found_at :
    (s : StateSequence) (p q : ℕ) (u t : Transition) (steps : PendingTransitions) (i : ℕ)
    (enabled : Bool) (rest : List ℕ)
    → is_enabled_in u (current s) ≡ ok enabled
    → is_enabled_in t (current s) ≡ ok true
    → get_elem? ((p, u) ∷ steps) i ≡ some (q, t)
    → ((j : ℕ) → get_elem? steps j ≡ some (q, t) → contains q rest ≡ true)
    → contains q (if enabled then p ∷ rest else rest) ≡ true
found_at s p q u t steps zero true rest found can at_i later =
    let same : p ≡ q = cc in rw same (ground (arith, ==-refl q))
found_at s p q u t steps zero false rest found can at_i later =
    let same : u ≡ t = cc in let can_u : is_enabled_in u (current s) ≡ ok true = rw same can in cc
found_at s p q u t steps (suc i) true rest found can at_i later =
    let here = later i at_i in ground arith
found_at s p q u t steps (suc i) false rest found can at_i later = later i at_i

HasEnabled-enabled_among :
    (s : StateSequence) (steps : PendingTransitions) (rs : List ℕ) (q i : ℕ) (t : Transition)
    → enabled_among s steps ≡ ok rs
    → get_elem? steps i ≡ some (q, t)
    → is_enabled_in t (current s) ≡ ok true
    → contains q rs ≡ true
unfolding enabled_among
HasEnabled-enabled_among s [] rs q i t h at_i can = cc
HasEnabled-enabled_among s ((p, u) ∷ steps) rs q i t h at_i can =
    let (enabled, found, h1) = >>=-eq-ok (is_enabled_in u (current s)) _ h in
    let (rest, others, h2) = >>=-eq-ok (enabled_among s steps) _ h1 in
    let same : (if enabled then p ∷ rest else rest) ≡ rs = cc in
    ap (contains q) (sym same)
    ∙ found_at s p q u t steps i enabled rest found can at_i
        (λ j at_j. HasEnabled-enabled_among s steps rest q j t others at_j can)

-- If `get_enabled_runners` returns, it lists a runner exactly when the runner has a pending
-- transition that is enabled.
pub contains-get_enabled_runners :
    (p : Program) (rs : List ℕ) (q : ℕ)
    → get_enabled_runners p ≡ ok rs
    → (contains q rs ≡ true → HasEnabled p.state_seq p.next_steps q)
      × (HasEnabled p.state_seq p.next_steps q → contains q rs ≡ true)
unfolding get_enabled_runners
contains-get_enabled_runners p rs q h = (
  λ member. enabled_among-HasEnabled p.state_seq p.next_steps rs q h member,
  λ (i, t, at_i, can). HasEnabled-enabled_among p.state_seq p.next_steps rs q i t h at_i can,
)
