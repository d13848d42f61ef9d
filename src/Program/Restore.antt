-- ===== src/Program/Restore.antt =====
-- `restore_model_at_depth` against the program as it was at that depth.
use deep_debug.Prelude.{
  ℕ, zero, suc, ◌<◌, ◌≤◌, ◌≡◌, refl, sym, ap, ◌∙◌, Bool, true, false, is_empty, List, [], ◌∷◌, ◌++◌,
  leb, take, take-append, length, lookup, if◌then◌else◌, ok, arith, append_assoc, append-nil,
}
use deep_debug.Transition.{Transition}
use deep_debug.Sequence.{consume_into_subsequence}
use deep_debug.Sequence.Rollback.{consume_into_subsequence-Extends}
use deep_debug.Program.{
  Program, restore_next_steps, restore_model_at_depth, runner_to_index_from_top, indices_from_top,
  consume_trace, decrement_u32,
}
use deep_debug.Program.Pending.{append_run, length-append_run, restored_steps}
use deep_debug.Program.Rollback.{IsWellFormed, Runs, Runs-Since}

take-append_run : (xs run : List Transition) → take (length xs) (append_run xs run) ≡ xs
take-append_run xs run = let (more, e) = split run in rw e (take-append xs more)
  where
    split : (ts : List Transition) → (more : List Transition) × (append_run xs ts ≡ xs ++ more)
    split [] = ([], sym (append-nil xs))
    split (t ∷ ts) =
        let (more, e) = split ts in
        (more ++ t ∷ [], ap (λ l. l ++ t ∷ []) e ∙ append_assoc xs more (t ∷ []))

consume_trace-append_run :
    (xs run : List Transition) → consume_trace (length xs) (append_run xs run) ≡ xs
unfolding consume_trace
consume_trace-append_run xs run =
    let short : leb (length xs) (length (append_run xs run)) ≡ true =
      ground (arith, length-append_run xs run) in
    rw short (take-append_run xs run)

-- The program that the theorems below speak of.
abbrev pub IsRestored : Program → Program → Program → Type 0
IsRestored p q r =
    (restore_model_at_depth (length p.trace) q ≡ ok r)
    × (r.state_seq ≡ p.state_seq)
    × (r.trace ≡ p.trace)
    × ((x : ℕ) → lookup x r.next_steps ≡ lookup x p.next_steps)

-- After any number of modelled executions since a well-formed program whose trace is not empty,
-- with a trace shorter than 2^32, `restore_model_at_depth` at the depth of that program succeeds
-- and gives back its states, its trace and, for every runner, the transition that was pending.
pub restore_model_at_depth-Runs :
    (p q : Program)
    → IsWellFormed p
    → Runs p q
    → 0 < length p.trace
    → length q.trace < 4294967296
    → (r : Program) × IsRestored p q r
unfolding restore_model_at_depth
restore_model_at_depth-Runs p q w runs deep short =
    let s = Runs-Since w runs in
    let (steps, again, found) =
      restored_steps p.trace s.run q.next_steps deep
        (omega (arith, ap length s.trace, length-append_run p.trace s.run)) in
    let cut = consume_into_subsequence-Extends p.state_seq q.state_seq w.fresh s.states in
    (
      record { state_seq = p.state_seq; trace = p.trace; next_steps = steps },
      (
        rw (s.trace, again, ← w.depth, cut, w.depth) (rw (consume_trace-append_run p.trace s.run)),
        refl,
        refl,
        λ x. found x ∙ sym (s.pending x),
      ),
    )

no_index_above :
    (i limit : ℕ) (trace : List Transition) → i ≤ limit → indices_from_top i limit trace [] ≡ []
unfolding indices_from_top
no_index_above zero limit trace h = refl
no_index_above (suc i) limit trace h = ground arith

no_index_at_zero : (trace : List Transition) → runner_to_index_from_top 0 trace ≡ []
unfolding runner_to_index_from_top
no_index_at_zero trace =
    rw (no_index_above (decrement_u32 (length trace)) (decrement_u32 0) trace (omega arith))
      (both (is_empty trace))
  where
    both : (b : Bool) → ◌≡◌ {A = List (ℕ × ℕ)} (if b then [] else []) []
    both true = refl
    both false = refl

-- After any number of modelled executions since a well-formed program with an empty trace, going
-- back to depth 0 restores its states and its trace, but leaves the pending transitions as they are
-- after the executions.
pub restore_model_at_depth-zero :
    (p q : Program)
    → IsWellFormed p
    → Runs p q
    → p.trace ≡ []
    → restore_model_at_depth 0 q
      ≡ ok (record { state_seq = p.state_seq; trace = []; next_steps = q.next_steps })
unfolding restore_model_at_depth restore_next_steps consume_trace
restore_model_at_depth-zero p q w runs e =
    let s = Runs-Since w runs in
    let cut = consume_into_subsequence-Extends p.state_seq q.state_seq w.fresh s.states in
    let start : length p.state_seq.earlier ≡ 0 = omega (arith, w.depth, ap length e) in
    let cut_at_zero : consume_into_subsequence 1 q.state_seq ≡ ok p.state_seq = rw start at cut in
    rw (no_index_at_zero q.trace, cut_at_zero) (ground arith)
