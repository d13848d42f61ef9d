-- ===== src/Program/Pending.antt =====
-- The next steps that `restore_model_at_depth` puts back.
use deep_debug.Prelude.{
  ℕ, zero, suc, ◌+◌, ◌<◌, ◌==◌, ◌≡◌, refl, ◌∙◌, false, List, [], ◌∷◌, ◌++◌, Option, none, some,
  length, get_elem?, lookup, assign, lookup-assign, length-append, get_elem?-append_left,
  get_elem?-append_at, if◌then◌else◌, ok, arith, Bool-cases, inl, inr, ◌⊎◌, ==-eq, is_empty,
}
use deep_debug.Transition.{Transition, get_executor}
use deep_debug.Program.{
  PendingTransitions, set_transition, indices_from_top, restore_next_steps,
  runner_to_index_from_top, decrement_u32,
}

-- A trace and the transitions that ran after it, the last one first.
abbrev pub append_run : List Transition → List Transition → List Transition
append_run xs [] = xs
append_run xs (t ∷ run) = append_run xs run ++ t ∷ []

abbrev pub or_else {ℓ} : {A : Type ℓ} → Option A → Option A → Option A
or_else none b = b
or_else (some a) b = some a

-- The first of the transitions of a run, last one first, that a runner executed.
abbrev pub first_by : ℕ → List Transition → Option Transition
first_by r [] = none
first_by r (t ∷ run) = or_else (first_by r run) (if get_executor t == r then some t else none)

-- Its index in the trace.
abbrev first_index : ℕ → ℕ → List Transition → Option ℕ
first_index r n [] = none
first_index r n (t ∷ run) =
    or_else (first_index r n run) (if get_executor t == r then some (n + length run) else none)

pub length-append_run :
    (xs run : List Transition) → length (append_run xs run) ≡ length xs + length run
length-append_run xs [] = omega arith
length-append_run xs (t ∷ run) =
    omega (arith, length-append (append_run xs run) (t ∷ []), length-append_run xs run)

-- Each entry of the index map is the index of a transition of its runner, and has its own key.
abbrev IsIndex : List Transition → List (ℕ × ℕ) → Type 0
IsIndex trace [] = Unit
IsIndex trace ((p, i) ∷ m) =
    (lookup p m ≡ none)
    × ((t : Transition) × (get_elem? trace i ≡ some t) × (get_executor t ≡ p))
    × IsIndex trace m

assign-IsIndex :
    (trace : List Transition) (i : ℕ) (t : Transition) (m : List (ℕ × ℕ))
    → get_elem? trace i ≡ some t
    → IsIndex trace m
    → IsIndex trace (assign (get_executor t) i m)
assign-IsIndex trace i t [] e h = (refl, (t, e, refl), tt)
assign-IsIndex trace i t ((p, j) ∷ m) e (fresh, known, h) =
    elim (Bool-cases (p == get_executor t)) [
      | inl hit ↦ rw hit (rw (← ==-eq p (get_executor t) hit) fresh, (t, e, refl), h)
      | inr miss ↦ rw miss (
        ground (arith, lookup-assign (get_executor t) p i m),
        known,
        assign-IsIndex trace i t m e h,
      )
    ]

restore_next_steps_lem :
    (trace : List Transition) (m : List (ℕ × ℕ)) (steps : PendingTransitions)
    → IsIndex trace m
    → (steps' : PendingTransitions) × (restore_next_steps m trace steps ≡ ok steps')
      × ((r : ℕ)
          → lookup r steps'
            ≡ (elim (lookup r m) [ some i ↦ get_elem? trace i | none ↦ lookup r steps ]))
unfolding restore_next_steps
restore_next_steps_lem trace [] steps h = (steps, refl, λ r. refl)
restore_next_steps_lem trace ((p, i) ∷ m) steps (fresh, (t, e, x), h) =
    let (steps', runs, found) = restore_next_steps_lem trace m (set_transition t steps) h in
    (steps', ground arith, λ r. ground (arith, found r, lookup-assign (get_executor t) r t steps))

module _ (trace xs : List Transition) (k : ℕ) (deep : length xs ≡ suc k) where
  abbrev Agrees : List Transition → Type 0
  Agrees run =
      (j : ℕ) → j < length (append_run xs run) → get_elem? trace j ≡ get_elem? (append_run xs run) j

  stops_at_limit : (m : List (ℕ × ℕ)) (i : ℕ) → i ≡ k → indices_from_top i k trace m ≡ m
  unfolding indices_from_top
  stops_at_limit m zero e = refl
  stops_at_limit m (suc i) e = ground arith

  one_down :
      (m : List (ℕ × ℕ)) (i : ℕ) (t : Transition)
      → k < suc i
      → get_elem? trace (suc i) ≡ some t
      → indices_from_top (suc i) k trace m
        ≡ indices_from_top i k trace (assign (get_executor t) (suc i) m)
  unfolding indices_from_top
  one_down m i t h e = ground arith

  last_of_run :
      (t : Transition) (run : List Transition)
      → Agrees (t ∷ run)
      → get_elem? trace (suc (k + length run)) ≡ some t
  last_of_run t run same =
      same (suc (k + length run))
        (omega (arith, length-append (append_run xs run) (t ∷ []), length-append_run xs run))
      ∙ get_elem?-append_at (append_run xs run) t (suc (k + length run))
          (omega (arith, length-append_run xs run))

  Agrees-tail : (t : Transition) (run : List Transition) → Agrees (t ∷ run) → Agrees run
  Agrees-tail t run same j h =
      same j (omega (arith, length-append (append_run xs run) (t ∷ [])))
      ∙ get_elem?-append_left (append_run xs run) (t ∷ []) j h

  abbrev Indexed : List Transition → List (ℕ × ℕ) → List (ℕ × ℕ) → Type 0
  Indexed run m r =
      IsIndex trace r × ((p : ℕ) → lookup p r ≡ or_else (first_index p (suc k) run) (lookup p m))

  indices_from_top_lem :
      (run : List Transition) (m : List (ℕ × ℕ))
      → Agrees run
      → IsIndex trace m
      → Indexed run m (indices_from_top (k + length run) k trace m)
  indices_from_top_lem [] m same h =
      let e : indices_from_top (k + 0) k trace m ≡ m = stops_at_limit m (k + 0) (omega arith) in
      rw e (h, λ p. refl)
  indices_from_top_lem (t ∷ run) m same h =
      let found = last_of_run t run same in
      let (index, firsts) =
        indices_from_top_lem run (assign (get_executor t) (suc (k + length run)) m)
          (Agrees-tail t run same) (assign-IsIndex trace (suc (k + length run)) t m found h) in
      let shape : k + length (t ∷ run) ≡ suc (k + length run) = omega arith in
      rw (shape, one_down m (k + length run) t (omega arith) found)
        (
          index,
          λ p. ground (arith, firsts p, lookup-assign (get_executor t) p (suc (k + length run)) m),
        )

  -- The index and the transition are found together.
  abbrev Found : ℕ → List Transition → Type 0
  Found r run =
      ((first_index r (suc k) run ≡ none) × (first_by r run ≡ none))
      ⊎ ((j : ℕ) × (u : Transition) × (first_index r (suc k) run ≡ some j)
          × (get_elem? trace j ≡ some u)
          × (first_by r run ≡ some u))

  first_index-first_by : (r : ℕ) (run : List Transition) → Agrees run → Found r run
  first_index-first_by r [] same = inl (refl, refl)
  first_index-first_by r (t ∷ run) same =
      elim (first_index-first_by r run (Agrees-tail t run same)) [
        | inr (j, u, p, q, e) ↦ inr (j, u, rw (p), q, rw e)
        | inl (p, e) ↦ elim (Bool-cases (get_executor t == r)) [
          | inl hit ↦
              inr (suc (k + length run), t, ground arith, last_of_run t run same, rw (e, hit))
          | inr miss ↦ inl (rw (p, miss), rw (e, miss))
        ]
      ]

  restored :
      (r : ℕ) (run : List Transition) (m : List (ℕ × ℕ)) (steps : PendingTransitions)
      → lookup r m ≡ or_else (first_index r (suc k) run) none
      → Found r run
      → (elim (lookup r m) [ some i ↦ get_elem? trace i | none ↦ lookup r steps ])
        ≡ or_else (first_by r run) (lookup r steps)
  restored r run m steps e (inl (p, q)) = ground arith
  restored r run m steps e (inr (j, u, p, g, q)) = ground arith

is_empty-pos {ℓ} : {A : Type ℓ} (l : List A) → 0 < length l → is_empty l ≡ false
is_empty-pos [] h = absurd (omega arith)
is_empty-pos (x ∷ l) h = refl

-- On a trace that is not empty the counters of the loop do not wrap.
runner_to_index_from_top_lem :
    (x : Transition) (xs run : List Transition)
    → suc (length xs) + length run < 4294967296
    → runner_to_index_from_top (suc (length xs)) (append_run (x ∷ xs) run)
      ≡ indices_from_top (length xs + length run) (length xs) (append_run (x ∷ xs) run) []
unfolding runner_to_index_from_top
runner_to_index_from_top_lem x xs run short =
    let size : length (append_run (x ∷ xs) run) ≡ suc (length xs) + length run =
      length-append_run (x ∷ xs) run in
    let top : decrement_u32 (length (append_run (x ∷ xs) run)) ≡ length xs + length run =
      omega arith in
    let limit : decrement_u32 (suc (length xs)) ≡ length xs = omega arith in
    rw (is_empty-pos (append_run (x ∷ xs) run) (omega arith), top, limit)

-- After a run from a trace that is not empty, the next step of each runner is again the first that
-- it executed in the run, or the one that it has now.
pub restored_steps :
    (xs run : List Transition) (steps : PendingTransitions)
    → 0 < length xs
    → length xs + length run < 4294967296
    → (steps' : PendingTransitions) × (restore_next_steps
          (runner_to_index_from_top (length xs) (append_run xs run))
          (append_run xs run)
          steps
        ≡ ok steps')
      × ((r : ℕ) → lookup r steps' ≡ or_else (first_by r run) (lookup r steps))
unfolding runner_to_index_from_top
restored_steps [] run steps deep short = absurd (omega arith)
restored_steps (x ∷ xs) run steps deep short =
    let trace = append_run (x ∷ xs) run in
    let (index, firsts) =
      indices_from_top_lem trace (x ∷ xs) (length xs) refl run [] (λ j h. refl) tt in
    let (steps', runs, found) = restore_next_steps_lem trace _ steps index in
    (
      steps',
      rw (runner_to_index_from_top_lem x xs run short) runs,
      λ r.
          found r
          ∙ restored trace (x ∷ xs) (length xs) refl r run _ steps (firsts r)
              (first_index-first_by trace (x ∷ xs) (length xs) refl r run (λ j h. refl)),
    )
