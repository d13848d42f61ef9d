-- ===== src/Program/Rollback.antt =====
-- Returning to an earlier depth undoes what was executed since.
use deep_debug.Prelude.{
  ℕ, ◌==◌, ◌≡◌, refl, sym, ap, ◌∙◌, subst, inl, inr, true, List, [], ◌∷◌, ◌++◌, none, some, length,
  lookup, assign, lookup-assign, if◌then◌else◌, Result, ok, or_fail, or_fail-eq-ok, ◌>>=◌,
  >>=-eq-ok, arith, length-append, next_unknown, executor_mismatch, Bool-cases, ==-eq,
}
use deep_debug.Transition.{Transition, get_executor}
use deep_debug.Transition.Status.{Status, exists, disabled, undefined, is_exists}
use deep_debug.Sequence.{follow}
use deep_debug.Sequence.Rollback.{IsCurrent, Extends}
use deep_debug.Sequence.Follow.{follow-Grown, Extends-Grown}
use deep_debug.Program.{
  Program, PendingTransitions, set_transition, check_status, model_execution_of,
}
use deep_debug.Program.Pending.{append_run, first_by, or_else}

-- A transition is pending for the runner that executes it.
abbrev pub IsKeyed : PendingTransitions → Type 0
IsKeyed steps = (r : ℕ) (t : Transition) → lookup r steps ≡ some t → get_executor t ≡ r

-- There is one state more than transitions in the trace, and the last state shows every object.
pub record IsWellFormed (p : Program) : Type 0 where
  pub keyed : IsKeyed p.next_steps
  pub fresh : IsCurrent p.state_seq
  pub depth : length p.state_seq.earlier ≡ length p.trace

-- What one modelled execution does to the three parts of a program.
pub record Executes (npo : Transition) (p q : Program) : Type 0 where
  pub ran : Transition
  pub was_pending : lookup (get_executor npo) p.next_steps ≡ some ran
  pub trace : q.trace ≡ p.trace ++ ran ∷ []
  pub next_steps : q.next_steps ≡ set_transition npo p.next_steps
  pub status : Status
  pub followed : follow ran p.state_seq ≡ ok (q.state_seq, status)
  pub existed : is_exists status ≡ true

check_status-eq-ok :
    (status : Status) (u : Unit {0}) → check_status status ≡ ok u → is_exists status ≡ true
unfolding check_status
check_status-eq-ok exists u h = refl
check_status-eq-ok disabled u h = cc
check_status-eq-ok undefined u h = cc

-- The chain of calls in `model_execution_of`, taken apart.
execution_parts :
    (r : ℕ) (npo : Transition) (p q : Program)
    → r ≡ get_executor npo
    → (do
      next_s_p ← or_fail (lookup r p.next_steps) next_unknown
      followed ← follow next_s_p p.state_seq
      _ ← check_status followed.1
      ran ← or_fail (lookup (get_executor npo) p.next_steps) next_unknown
      ok (record {
        state_seq = followed.0;
        trace = p.trace ++ ran ∷ [];
        next_steps = set_transition npo p.next_steps;
      }))
      ≡ ok q
    → Executes npo p q
execution_parts r npo p q e h =
    let (t, found, h₁) = >>=-eq-ok (or_fail (lookup r p.next_steps) next_unknown) _ h in
    let (followed, follows, h₂) = >>=-eq-ok (follow t p.state_seq) _ h₁ in
    let (u, checked, h₃) = >>=-eq-ok (check_status followed.1) _ h₂ in
    let (ran, again, h₄) =
      >>=-eq-ok (or_fail (lookup (get_executor npo) p.next_steps) next_unknown) _ h₃ in
    let pending : lookup (get_executor npo) p.next_steps ≡ some ran =
      or_fail-eq-ok (lookup (get_executor npo) p.next_steps) next_unknown again in
    let same : t ≡ ran =
      cc (e, pending, or_fail-eq-ok (lookup r p.next_steps) next_unknown found) in
    let made : record {
      state_seq = followed.0;
      trace = p.trace ++ ran ∷ [];
      next_steps = set_transition npo p.next_steps;
    }
        ≡ q =
      cc in
    let states : followed.0 ≡ q.state_seq = ap (λ (x : Program). x.state_seq) made in
    record {
      ran = ran;
      was_pending = pending;
      trace = sym (ap (λ (x : Program). x.trace) made);
      next_steps = sym (ap (λ (x : Program). x.next_steps) made);
      status = followed.1;
      followed = rw (← same, ← states) follows;
      existed = check_status-eq-ok followed.1 u checked;
    }

pub model_execution_of-Executes :
    (r : ℕ) (npo : Transition) (p q : Program)
    → model_execution_of r npo p ≡ ok q
    → Executes npo p q
unfolding model_execution_of
model_execution_of-Executes r npo p q h = elim (Bool-cases (r == get_executor npo)) [
  | inl hit ↦ execution_parts r npo p q (==-eq r (get_executor npo) hit) (rw hit at h)
  | inr miss ↦ let stuck : Result.err executor_mismatch ≡ ok q = rw miss at h in cc stuck
]

pub IsKeyed-assign :
    (x : ℕ) (npo : Transition) (steps : PendingTransitions)
    → get_executor npo ≡ x
    → IsKeyed steps
    → IsKeyed (assign x npo steps)
IsKeyed-assign x npo steps e k r t h =
    let found = sym (lookup-assign x r npo steps) ∙ h in
    elim (Bool-cases (x == r)) [
      | inl hit ↦
          let same : some npo ≡ some t = rw hit at found in let here : x ≡ r = ==-eq x r hit in cc
      | inr miss ↦ k r t (rw miss at found)
    ]

-- A modelled execution that succeeds keeps a program well formed: pending transitions are filed
-- under their executors, the last element shows the last state of every object, and there is an
-- element for each transition of the trace.
pub model_execution_of-IsWellFormed :
    (r : ℕ) (npo : Transition) (p q : Program)
    → IsWellFormed p
    → model_execution_of r npo p ≡ ok q
    → IsWellFormed q
model_execution_of-IsWellFormed r npo p q w h =
    let x = model_execution_of-Executes r npo p q h in
    let (grown, fresh, deeper) =
      follow-Grown x.ran p.state_seq q.state_seq x.status w.fresh x.followed x.existed in
    record {
      keyed =
          subst IsKeyed (sym x.next_steps)
            (IsKeyed-assign (get_executor npo) npo p.next_steps refl w.keyed);
      fresh = fresh;
      depth = omega (arith, w.depth, deeper, ap length x.trace, length-append p.trace (x.ran ∷ []));
    }

-- Any number of modelled executions, in the order in which they happen.
pub data Runs (p : Program) : Program → Type 0 where
  start : Runs p p
  later :
      {q q' : Program} (r : ℕ) (npo : Transition)
      → Runs p q
      → model_execution_of r npo q ≡ ok q'
      → Runs p q'

pub Runs-IsWellFormed : {p q : Program} → IsWellFormed p → Runs p q → IsWellFormed q
Runs-IsWellFormed w start = w
Runs-IsWellFormed w (later {q} {q'} r npo runs h) =
    model_execution_of-IsWellFormed r npo q q' (Runs-IsWellFormed w runs) h

-- What a run leaves of the program that it started from.
pub record Since (p q : Program) : Type 0 where
  pub run : List Transition
  pub trace : q.trace ≡ append_run p.trace run
  pub pending : (r : ℕ) → lookup r p.next_steps ≡ or_else (first_by r run) (lookup r q.next_steps)
  pub states : Extends p.state_seq q.state_seq

first_by-run :
    (x r : ℕ) (run : List Transition) (ran npo : Transition) (steps : PendingTransitions)
    → get_executor ran ≡ x
    → lookup x steps ≡ some ran
    → or_else (first_by r run) (lookup r steps)
      ≡ or_else
          (or_else (first_by r run) (if x == r then some ran else none))
          (lookup r (assign x npo steps))
first_by-run x r run ran npo steps e h = ground (arith, lookup-assign x r npo steps)

Since-step :
    (p q q' : Program) (npo : Transition)
    → IsWellFormed q
    → Since p q
    → Executes npo q q'
    → Since p q'
Since-step p q q' npo w s x = record {
  run = x.ran ∷ s.run;
  trace = x.trace ∙ ap (λ l. l ++ x.ran ∷ []) s.trace;
  pending = λ r.
      let executor = w.keyed (get_executor npo) x.ran x.was_pending in
      rw (executor, x.next_steps)
        (s.pending r
          ∙ first_by-run (get_executor npo) r s.run x.ran npo q.next_steps executor x.was_pending);
  states =
      Extends-Grown p.state_seq q.state_seq q'.state_seq s.states
        (follow-Grown x.ran q.state_seq q'.state_seq x.status w.fresh x.followed x.existed).0;
}

pub Runs-Since : {p q : Program} → IsWellFormed p → Runs p q → Since p q
Runs-Since w start = record { run = []; trace = refl; pending = λ r. refl; states = inl refl }
Runs-Since {p} w (later {q} {q'} r npo runs h) =
    Since-step p q q' npo (Runs-IsWellFormed w runs) (Runs-Since w runs)
      (model_execution_of-Executes r npo q q' h)
