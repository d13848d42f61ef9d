-- ===== src/Dpor/Search/Aligned.antt =====
-- The stack of the search stays in step with the trace of the model and with the live process.
use deep_debug.Prelude.{
  ℕ, zero, suc, ◌+◌, ◌-◌, ◌≡◌, refl, sym, ap, ◌∙◌, Bool-cases, Result-cases, inl, inr, List, [],
  length, is_empty, ok, >>=-eq-ok, subst, ◌%◌, set, or_fail, null_pointer, get_last?,
}
use deep_debug.Program.Rollback.{IsKeyed}
use deep_debug.Coordinator.Session.{
  ProcessSource, Session, current_program_model, execute_runner, return_to_depth,
}
use deep_debug.Coordinator.Synchronized.{
  IsSynchronized, execute_runner-IsSynchronized, return_to_depth-IsSynchronized,
}
use deep_debug.Dpor.StackItem.{backtrack_set_pop_first}
use deep_debug.Dpor.Context.Expand.{expand_trace}
use deep_debug.Dpor.Context.Growth.{length-expand_trace}
use deep_debug.Dpor.Search.{
  Configuration, Callbacks, Search, Explored, unfinished, stopped, explored, context_of,
  continue_dpor_by_expanding_trace_with, explore_step, explore, report_completed, report_deadlock,
  pop_exhausted, follow_backtrack, backtrack, search_round,
}
use deep_debug.Dpor.Search.Exploring.{explore-Goes}
use deep_debug.Dpor.Search.Termination.{report_deadlock-eq-ok, start_of}
use deep_debug.Dpor.Search.Reaches.{Reaches, at_once, after_round}

module _ {Live : Type 0} (source : ProcessSource Live) where
  -- There is one item more than transitions in the trace, and the live process has run the trace.
  pub record IsAligned (s : Search Live) : Type 0 where
    pub synchronized : IsSynchronized source s.session
    pub aligned : length s.stack ≡ length (current_program_model s.session).trace + 1

module _ {Live : Type 0} (source : ProcessSource Live) (config : Configuration)
    (k : Callbacks) where
  continue-IsAligned :
      (p : ℕ) (s t : Search Live)
      → IsSynchronized source s.session
      → continue_dpor_by_expanding_trace_with source config k p s ≡ ok t
      → IsAligned source t
  unfolding continue_dpor_by_expanding_trace_with
  continue-IsAligned p s t w h =
      let (session, ran, h₁) = >>=-eq-ok (execute_runner source p s.session) _ h in
      let context = context_of (record s { session = session }) in
      let (after, grown, made) = >>=-eq-ok (expand_trace config.relations context) _ h₁ in
      let shape : record s { session = session; stack = after.stack } ≡ t = cc made in
      subst (IsAligned source) shape (record {
        synchronized = execute_runner-IsSynchronized source p s.session session w ran;
        aligned = length-expand_trace config.relations context after grown;
      })

  explore_step-IsAligned :
      (p : ℕ) (s t : Search Live)
      → IsAligned source s
      → explore_step source config k p s ≡ ok t
      → IsAligned source t
  unfolding explore_step
  explore_step-IsAligned p s t w h =
      let (after, continued, made) =
        >>=-eq-ok (continue_dpor_by_expanding_trace_with source config k p s) _ h in
      let a = continue-IsAligned p s after w.synchronized continued in
      let shape : record after {
        stats = record after.stats {
          total_transitions = (after.stats.total_transitions + 1) % 4294967296;
        };
      }
          ≡ t =
        cc made in
      subst (IsAligned source) shape (record { synchronized = a.synchronized; aligned = a.aligned })

  explore-IsAligned :
      (rounds : ℕ) (s t : Search Live)
      → IsAligned source s
      → explore source config k rounds s ≡ explored t
      → IsAligned source t
  explore-IsAligned zero s t w h =
      let empty : explore source config k zero s ≡ unfinished = unfold explore in refl in
      cc (h, empty)
  explore-IsAligned (suc rounds) s t w h = elim (explore-Goes source config k rounds s) [
    | inl ends ↦ let same : s ≡ t = cc (h, ends) in subst (IsAligned source) same w
    | inr later ↦ elim later [
      | inl (o, adds, stops) ↦ cc (h, stops)
      | inr (p, u, stepped, short, rest) ↦
          explore-IsAligned rounds u t (explore_step-IsAligned p s u w stepped) (sym rest ∙ h)
    ]
  ]

  follow_backtrack-IsAligned :
      (s t : Search Live)
      → IsSynchronized source s.session
      → follow_backtrack source config k s ≡ ok t
      → IsAligned source t
  unfolding follow_backtrack
  follow_backtrack-IsAligned s t w h =
      let (top, back, h₁) = >>=-eq-ok (or_fail (get_last? s.stack) null_pointer) _ h in
      let (popped, taken, h₂) = >>=-eq-ok (backtrack_set_pop_first top) _ h₁ in
      continue-IsAligned popped.0 (record s { stack = set s.stack (length s.stack - 1) popped.1 }) t
        w h₂

  backtrack-IsAligned :
      (s t : Search Live)
      → IsKeyed (current_program_model s.session).next_steps
      → backtrack source config k s ≡ explored t
      → IsAligned source t
  unfolding backtrack
  backtrack-IsAligned s t keyed h =
      elim (Result-cases (return_to_depth source (length s.stack - 1) s.session)) [
        | inr (e, failed) ↦ let stuck = rw (backtrack, failed) at h in cc stuck
        | inl (session, returned) ↦
            let next : Search Live = record s {
              session = session;
              stats = record s.stats { trace_id = (s.stats.trace_id + 1) % 4294967296 };
            } in
            elim (Result-cases (follow_backtrack source config k next)) [
              | inr (e, failed) ↦ let stuck = rw (backtrack, returned, failed) at h in cc stuck
              | inl (after, followed) ↦
                  let made : explored after ≡ explored t =
                    rw (backtrack, returned, followed) at h in
                  let same : after ≡ t = cc made in
                  follow_backtrack-IsAligned next t
                    (return_to_depth-IsSynchronized source (length s.stack - 1) s.session session
                      keyed returned).0
                    (followed ∙ ap ok same)
            ]
      ]

  pub search_round-IsAligned :
      (s t : Search Live)
      → IsAligned source s
      → search_round source config k s ≡ explored t
      → IsAligned source t
  unfolding search_round
  search_round-IsAligned s t w h = by_exploring (explore source config k rounds s) refl
    where
      rounds : ℕ
      rounds = suc (config.maximum_total_execution_depth - length s.stack)

      by_exploring : (r : Explored Live) → explore source config k rounds s ≡ r → IsAligned source t
      by_exploring unfinished e = let stuck = rw (search_round, e) at h in cc stuck
      by_exploring (stopped outcome) e = let stuck = rw (search_round, e) at h in cc stuck
      by_exploring (explored reached) e =
          let a = explore-IsAligned rounds s reached w e in
          let completed = report_completed source config k reached in
          elim (Result-cases (report_deadlock source config k completed)) [
            | inr (cause, failed) ↦ let stuck = rw (search_round, e, failed) at h in cc stuck
            | inl (reported, reporting) ↦
                elim (Bool-cases (is_empty (pop_exhausted reported.stack))) [
                  | inl done ↦ let stuck = rw (search_round, e, reporting, done) at h in cc stuck
                  | inr more ↦
                      let (session, stack) =
                        report_deadlock-eq-ok source config k completed reported reporting in
                      backtrack-IsAligned (record reported { stack = pop_exhausted reported.stack })
                        t
                        (subst (λ (x : Session Live). IsKeyed (current_program_model x).next_steps)
                          (sym session) a.synchronized.keyed)
                        (rw (search_round, e, reporting, more) at h)
                ]
          ]

  -- If the trace is empty when a search starts with a live process that has just begun, at the
  -- beginning of every round the stack has one item more than the trace has transitions, and a new
  -- process that runs the trace comes to where the live process is.
  pub Reaches-IsAligned :
      (session : Session Live) (enabled : List ℕ) (t : Search Live)
      → IsSynchronized source session
      → (current_program_model session).trace ≡ []
      → Reaches source config k (start_of source config k session enabled) t
      → IsAligned source t
  unfolding start_of
  Reaches-IsAligned session enabled t w empty at_once = record {
    synchronized = w;
    aligned = rw empty refl;
  }
  Reaches-IsAligned session enabled t w empty (after_round {t = s} r e) =
      search_round-IsAligned s t (Reaches-IsAligned session enabled s w empty r) e
