-- ===== src/Dpor/Search/Additions.antt =====
-- What each part of the search adds to the events.
use deep_debug.Prelude.{
  ℕ, zero, suc, ◌+◌, ◌-◌, ◌≡◌, refl, sym, Bool-cases, Result-cases, inl, inr, set, get_last?,
  or_fail, null_pointer, some, length, is_empty, ok, >>=-eq-ok, subst, ◌%◌,
}
use deep_debug.Program.{is_in_deadlock}
use deep_debug.Coordinator.Session.{ProcessSource, current_program_model, return_to_depth}
use deep_debug.Dpor.StackItem.{backtrack_set_pop_first}
use deep_debug.Dpor.Search.{
  Configuration, Callbacks, Search, deadlock, Explored, unfinished, stopped, explored, Outcome,
  call, explore_step, explore, report_completed, report_deadlock, pop_exhausted, follow_backtrack,
  backtrack, search_round, search_rounds,
}
use deep_debug.Dpor.Search.Events.{
  events_of, Extends, Extends-refl, Extends-trans, Extends-call, catch_process_errors-Extends,
  catch_undefined_behavior-Extends, continue-events, explore_step-events,
}
use deep_debug.Dpor.Search.Exploring.{explore-Goes}

module _ {Live : Type 0} (source : ProcessSource Live) (config : Configuration)
    (k : Callbacks) where
  -- What a part of the search adds to the events.
  abbrev pub Adds : Search Live → Explored Live → Type 0
  Adds s unfinished = Unit {0}
  Adds s (stopped outcome) = Extends s.events (events_of outcome)
  Adds s (explored t) = Extends s.events t.events

  pub explore-Adds : (rounds : ℕ) (s : Search Live) → Adds s (explore source config k rounds s)
  explore-Adds zero s =
      let empty : explore source config k zero s ≡ unfinished = unfold explore in refl in
      rw empty tt
  explore-Adds (suc rounds) s = elim (explore-Goes source config k rounds s) [
    | inl ends ↦ rw ends (Extends-refl s.events)
    | inr later ↦ elim later [
      | inl (o, adds, stops) ↦ rw stops adds
      | inr (p, t, stepped, short, rest) ↦
          rw rest
            (after_step p t stepped (explore source config k rounds t) (explore-Adds rounds t))
    ]
  ]
    where
      after_step :
          (p : ℕ) (t : Search Live)
          → explore_step source config k p s ≡ ok t
          → (r : Explored Live) → Adds t r
          → Adds s r
      after_step p t stepped unfinished a = tt
      after_step p t stepped (stopped o) a =
          subst (λ x. Extends x (events_of o)) (explore_step-events source config k p s t stepped) a
      after_step p t stepped (explored u) a =
          subst (λ x. Extends x u.events) (explore_step-events source config k p s t stepped) a

  Adds-trans :
      (s t : Search Live) (r : Explored Live) → Extends s.events t.events → Adds t r → Adds s r
  Adds-trans s t unfinished e a = tt
  Adds-trans s t (stopped o) e a = Extends-trans s.events e a
  Adds-trans s t (explored u) e a = Extends-trans s.events e a

  pub report_completed-Extends :
      (s : Search Live) → Extends s.events (report_completed source config k s).events
  report_completed-Extends s = Extends-call k.trace_completed _ s.events

  pub report_deadlock-Extends :
      (s t : Search Live) → report_deadlock source config k s ≡ ok t → Extends s.events t.events
  unfolding report_deadlock
  report_deadlock-Extends s t h = elim (Bool-cases k.deadlock) [
    | inl asked ↦
        let (found, tested, made) =
          >>=-eq-ok (is_in_deadlock (current_program_model s.session)) _ (rw asked at h) in
        let event = deadlock (current_program_model s.session).trace s.stats in
        let shape : record s { events = call found event s.events } ≡ t = cc made in
        subst (λ (x : Search Live). Extends s.events x.events) shape
          (Extends-call found event s.events)
    | inr silent ↦
        let made : ok s ≡ ok t = rw silent at h in
        let shape : s ≡ t = cc made in
        subst (λ (x : Search Live). Extends s.events x.events) shape (Extends-refl s.events)
  ]

  follow_backtrack-events :
      (s t : Search Live) → follow_backtrack source config k s ≡ ok t → t.events ≡ s.events
  unfolding follow_backtrack
  follow_backtrack-events s t h =
      let (top, back, h₁) = >>=-eq-ok (or_fail (get_last? s.stack) null_pointer) _ h in
      let (popped, taken, h₂) = >>=-eq-ok (backtrack_set_pop_first top) _ h₁ in
      continue-events source config k popped.0
        (record s { stack = set s.stack (length s.stack - 1) popped.1 }) t h₂

  backtrack-Adds : (s : Search Live) → Adds s (backtrack source config k s)
  unfolding backtrack
  backtrack-Adds s = elim (Result-cases (return_to_depth source (length s.stack - 1) s.session)) [
    | inr (e, failed) ↦ rw (backtrack, failed) (catch_process_errors-Extends k e s)
    | inl (session, went) ↦
        let next : Search Live = record s {
          session = session;
          stats = record s.stats { trace_id = (s.stats.trace_id + 1) % 4294967296 };
        } in
        elim (Result-cases (follow_backtrack source config k next)) [
          | inr (e, failed) ↦
              rw (backtrack, went, failed) (catch_undefined_behavior-Extends k e next)
          | inl (t, followed) ↦
              rw (backtrack, went, followed)
                (subst (Extends s.events) (sym (follow_backtrack-events next t followed))
                  (Extends-refl s.events))
        ]
  ]

  pub search_round-Adds :
      (s reached reported : Search Live)
      → explore source config k (suc (config.maximum_total_execution_depth - length s.stack)) s
        ≡ explored reached
      → report_deadlock source config k (report_completed source config k reached) ≡ ok reported
      → Adds reported (search_round source config k s)
  unfolding search_round
  search_round-Adds s reached reported e reporting =
      elim (Bool-cases (is_empty (pop_exhausted reported.stack))) [
        | inl done ↦ rw (search_round, e, reporting, done) (Extends-refl reported.events)
        | inr more ↦
            rw (search_round, e, reporting, more)
              (backtrack-Adds (record reported { stack = pop_exhausted reported.stack }))
      ]

  pub reporting-Extends :
      (s reached reported : Search Live)
      → Extends s.events reached.events
      → report_deadlock source config k (report_completed source config k reached) ≡ ok reported
      → Extends s.events reported.events
  reporting-Extends s reached reported e reporting = Extends-trans s.events e (
      Extends-trans reached.events (report_completed-Extends reached)
        (report_deadlock-Extends (report_completed source config k reached) reported reporting))

  search_round-Adds_all : (s : Search Live) → Adds s (search_round source config k s)
  unfolding search_round
  search_round-Adds_all s =
      by_exploring (explore source config k rounds s) refl (explore-Adds rounds s)
    where
      rounds : ℕ
      rounds = suc (config.maximum_total_execution_depth - length s.stack)

      by_exploring :
          (r : Explored Live)
          → explore source config k rounds s ≡ r
          → Adds s (explore source config k rounds s)
          → Adds s (search_round source config k s)
      by_exploring unfinished e a = rw (search_round, e) tt
      by_exploring (stopped o) e a =
          let adds : Adds s (stopped o) = rw e at a in rw (search_round, e) adds
      by_exploring (explored reached) e a =
          let adds : Adds s (explored reached) = rw e at a in
          let completed = report_completed source config k reached in
          elim (Result-cases (report_deadlock source config k completed)) [
            | inr (cause, failed) ↦
                rw (search_round, e, failed)
                  (Extends-trans s.events adds (report_completed-Extends reached))
            | inl (reported, reporting) ↦
                Adds-trans s reported (search_round source config k s)
                  (reporting-Extends s reached reported adds reporting)
                  (search_round-Adds s reached reported e reporting)
          ]

  pub search_rounds-Extends :
      (fuel : ℕ) (s : Search Live) (o : Outcome)
      → search_rounds source config k fuel s ≡ some o
      → Extends s.events (events_of o)
  unfolding search_rounds
  search_rounds-Extends zero s o h = cc h
  search_rounds-Extends (suc fuel) s o h =
      by_round (search_rounds-Extends fuel) (search_round source config k s) refl
        (search_round-Adds_all s)
    where
      by_round :
          ((t : Search Live) (o : Outcome)
            → search_rounds source config k fuel t ≡ some o
            → Extends t.events (events_of o))
          → (r : Explored Live) → search_round source config k s ≡ r
          → Adds s (search_round source config k s)
          → Extends s.events (events_of o)
      by_round rest unfinished e a = let stuck = rw (search_rounds, e) at h in cc stuck
      by_round rest (stopped outcome) e a =
          let adds : Adds s (stopped outcome) = rw e at a in
          let ends : some outcome ≡ some o = rw (search_rounds, e) at h in
          let same : outcome ≡ o = cc ends in subst (λ x. Extends s.events (events_of x)) same adds
      by_round rest (explored t) e a =
          let adds : Adds s (explored t) = rw e at a in
          Extends-trans s.events adds (rest t o (rw (search_rounds, e) at h))
