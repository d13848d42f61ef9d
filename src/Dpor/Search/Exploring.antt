-- ===== src/Dpor/Search/Exploring.antt =====
-- The exploration phase: it ends, and leaves no more to search.
use deep_debug.Prelude.{
  ℕ, zero, suc, ◌+◌, ◌≤◌, ◌<◌, leb, ◌≡◌, ◌≢◌, ◌⊎◌, refl, sym, ◌∙◌, inl, inr, length, get_last?,
  Bool-cases, Option-cases, Result-cases, ok, >>=-eq-ok, arith, subst, ◌%◌,
}
use deep_debug.Coordinator.Session.{
  ProcessSource, current_program_model, get_pending_transition_for,
}
use deep_debug.Dpor.StackItem.{has_enabled_runners, get_first_enabled_runner}
use deep_debug.Dpor.Context.Latest.{IsFresh}
use deep_debug.Dpor.Search.{
  Configuration, Callbacks, Search, Outcome, Explored, unfinished, stopped, explored,
  continue_dpor_by_expanding_trace_with, explore_step, explore, abnormal_exit,
}
use deep_debug.Dpor.Search.Events.{
  events_of, Extends, Extends-refl, Extends-trans, catch_all-Extends, explore_step-events,
}
use deep_debug.Dpor.Search.Rounds.{IsReady, Advances, left, continue-Advances}

module _ {Live : Type 0} (source : ProcessSource Live) (config : Configuration)
    (k : Callbacks) where
  explore_step-Advances :
      (p : ℕ) (s t : Search Live)
      → IsReady config s
      → length s.stack ≤ config.maximum_total_execution_depth
      → explore_step source config k p s ≡ ok t
      → Advances config p s t
  unfolding explore_step
  explore_step-Advances p s t w short h =
      let (after, continued, made) =
        >>=-eq-ok (continue_dpor_by_expanding_trace_with source config k p s) _ h in
      let a = continue-Advances source config k p s after w short continued in
      let shape : record after {
        stats = record after.stats {
          total_transitions = (after.stats.total_transitions + 1) % 4294967296;
        };
      }
          ≡ t =
        cc made in
      subst (Advances config p s) shape (record {
        ready = record {
          keyed = a.ready.keyed;
          sound = a.ready.sound;
          clocks = a.ready.clocks;
          fits = a.ready.fits;
        };
        latest = a.latest;
        no_more = a.no_more;
        longer = a.longer;
        has_clock = a.has_clock;
      })

  none_added :
      (p : ℕ) (s t : Search Live)
      → explore_step source config k p s ≡ ok t
      → Extends s.events t.events
  none_added p s t stepped =
      subst (Extends s.events) (sym (explore_step-events source config k p s t stepped))
        (Extends-refl s.events)

  -- What one round of exploring does: it ends there, or it goes on after a step.
  abbrev pub Goes : ℕ → Search Live → Explored Live → Type 0
  Goes rounds s r =
      (r ≡ explored s)
      ⊎ ((o : Outcome) × Extends s.events (events_of o) × (r ≡ stopped o))
      ⊎ ((p : ℕ) × (t : Search Live) × (explore_step source config k p s ≡ ok t)
          × (length s.stack < config.maximum_total_execution_depth)
          × (r ≡ explore source config k rounds t))

  pub explore-Goes :
      (rounds : ℕ) (s : Search Live) → Goes rounds s (explore source config k (suc rounds) s)
  unfolding explore
  explore-Goes rounds s = elim (Option-cases (get_last? s.stack)) [
    | inr nothing ↦ rw (explore, nothing) (inr (inl (_, Extends-refl s.events, refl)))
    | inl (top, back) ↦ elim (Bool-cases (has_enabled_runners top)) [
      | inr done ↦ rw (explore, back, done) (inl refl)
      | inl enabled ↦
          elim (Bool-cases (leb config.maximum_total_execution_depth (length s.stack))) [
            | inl deep ↦
                rw (explore, back, enabled, deep) (inr (inl (_, Extends-refl s.events, refl)))
            | inr shallow ↦
                let rid = get_first_enabled_runner top in
                elim (Result-cases (explore_step source config k rid s)) [
                  | inr (e, failed) ↦
                      rw (explore, back, enabled, shallow, failed)
                        (inr (inl (_, catch_all-Extends k e s, refl)))
                  | inl (t, stepped) ↦
                      elim (Option-cases
                        (get_pending_transition_for rid (current_program_model t.session))) [
                          | inr nothing ↦
                              rw (explore, back, enabled, shallow, stepped, nothing)
                                (inr (inl (_, none_added rid s t stepped, refl)))
                          | inl (next, pending) ↦ elim (Option-cases (abnormal_exit rid next)) [
                            | inl (e, abnormal) ↦
                                rw (explore, back, enabled, shallow, stepped, pending, abnormal)
                                  (inr (
                                    inl (
                                      _,
                                      Extends-trans s.events (none_added rid s t stepped)
                                          (catch_all-Extends k e t),
                                      refl,
                                    )))
                            | inr normal ↦
                                rw (explore, back, enabled, shallow, stepped, pending, normal)
                                  (inr (inr (rid, t, stepped, ground arith, refl)))
                          ]
                        ]
                ]
          ]
    ]
  ]

  step-Advances :
      (p : ℕ) (s t : Search Live)
      → IsReady config s
      → length s.stack < config.maximum_total_execution_depth
      → explore_step source config k p s ≡ ok t
      → Advances config p s t
  step-Advances p s t w short h = explore_step-Advances p s t w (omega arith) h

  pub explore-IsReady :
      (rounds : ℕ) (s t : Search Live)
      → IsReady config s
      → IsFresh s.stack
      → explore source config k rounds s ≡ explored t
      → IsReady config t × IsFresh t.stack × (left config t ≤ left config s)
  explore-IsReady zero s t w fresh h =
      let empty : explore source config k zero s ≡ unfinished = unfold explore in refl in
      cc (h, empty)
  explore-IsReady (suc rounds) s t w fresh h = elim (explore-Goes rounds s) [
    | inl ends ↦
        let same : s ≡ t = cc (h, ends) in
        subst
          (λ (x : Search Live).
            IsReady config x × IsFresh x.stack × (left config x ≤ left config s))
          same (w, fresh, omega arith)
    | inr later ↦ elim later [
      | inl (o, adds, stops) ↦ cc (h, stops)
      | inr (p, u, stepped, short, rest) ↦
          let a = step-Advances p s u w short stepped in
          let (ready, latest, less) = explore-IsReady rounds u t a.ready a.latest (sym rest ∙ h) in
          let no_more = a.no_more in (ready, latest, omega arith)
    ]
  ]

  -- The rounds suffice once they reach the depth at which exploring stops.
  pub explore-ne-unfinished :
      (rounds : ℕ) (s : Search Live)
      → IsReady config s
      → 0 < rounds
      → config.maximum_total_execution_depth < length s.stack + rounds
      → explore source config k rounds s ≢ unfinished
  explore-ne-unfinished zero s w some_left enough h = elim some_left [ ]
  explore-ne-unfinished (suc rounds) s w some_left enough h = elim (explore-Goes rounds s) [
    | inl ends ↦ cc (h, ends)
    | inr later ↦ elim later [
      | inl (o, adds, stops) ↦ cc (h, stops)
      | inr (p, u, stepped, short, rest) ↦
          let a = step-Advances p s u w short stepped in
          let longer = a.longer in
          explore-ne-unfinished rounds u a.ready (omega arith) (omega arith) (sym rest ∙ h)
    ]
  ]
