-- ===== src/Dpor/Search/Reports.antt =====
-- The callbacks that the search calls: every deadlock that it meets is reported.
use deep_debug.Prelude.{
  ℕ, zero, suc, ◌-◌, ◌≡◌, ◌≢◌, refl, Result-cases, inl, inr, List, [], ◌∷◌, ◌++◌, Mem,
  mem-append_right, mem-cons_self, some, length, ok, err, Error, subst, true,
}
use deep_debug.Program.{get_enabled_runners, is_in_deadlock}
use deep_debug.Coordinator.Session.{ProcessSource, Session, current_program_model}
use deep_debug.Dpor.Search.{
  Configuration, Callbacks, Search, Event, deadlock, Explored, unfinished, stopped, explored,
  Outcome, explore, report_completed, report_deadlock, search_round, search_rounds, verify_using,
}
use deep_debug.Dpor.Search.Events.{events_of, Mem-Extends}
use deep_debug.Dpor.Search.Termination.{start_of}
use deep_debug.Dpor.Search.Additions.{Adds, search_round-Adds, search_rounds-Extends}
use deep_debug.Dpor.Search.Reaches.{Reaches, Reaches-rest}

module _ {Live : Type 0} (source : ProcessSource Live) (config : Configuration)
    (k : Callbacks) where
  deadlock-report :
      (s reported : Search Live)
      → k.deadlock ≡ true
      → is_in_deadlock (current_program_model s.session) ≡ ok true
      → report_deadlock source config k s ≡ ok reported
      → Mem (deadlock (current_program_model s.session).trace s.stats) reported.events
  unfolding report_deadlock
  deadlock-report s reported asked stuck h =
      let event = deadlock (current_program_model s.session).trace s.stats in
      let made : ok (record s { events = s.events ++ event ∷ [] }) ≡ ok reported =
        rw (asked, stuck) at h in
      let shape : record s { events = s.events ++ event ∷ [] } ≡ reported = cc made in
      subst (λ (x : Search Live). Mem event x.events) shape
        (mem-append_right s.events mem-cons_self)

  deadlock-tested :
      (s : Search Live) (cause : Error)
      → k.deadlock ≡ true
      → is_in_deadlock (current_program_model s.session) ≡ ok true
      → report_deadlock source config k s ≢ err cause
  unfolding report_deadlock
  deadlock-tested s cause asked stuck h = let made = rw (asked, stuck) at h in cc made

  -- The round that begins with `s` ends with the event among those of the outcome.
  round-report :
      (fuel : ℕ) (s reached reported : Search Live) (o : Outcome) (event : Event)
      → explore source config k (suc (config.maximum_total_execution_depth - length s.stack)) s
        ≡ explored reached
      → report_deadlock source config k (report_completed source config k reached) ≡ ok reported
      → Mem event reported.events
      → search_rounds source config k fuel s ≡ some o
      → Mem event (events_of o)
  unfolding search_rounds
  round-report zero s reached reported o event e reporting m h = cc h
  round-report (suc fuel) s reached reported o event e reporting m h =
      by_round (search_round source config k s) refl
        (search_round-Adds source config k s reached reported e reporting)
    where
      by_round :
          (r : Explored Live)
          → search_round source config k s ≡ r
          → Adds source config k reported (search_round source config k s)
          → Mem event (events_of o)
      by_round unfinished f a = let stuck = rw (search_rounds, f) at h in cc stuck
      by_round (stopped outcome) f a =
          let adds : Adds source config k reported (stopped outcome) = rw f at a in
          let ends : some outcome ≡ some o = rw (search_rounds, f) at h in
          let same : outcome ≡ o = cc ends in
          subst (λ x. Mem event (events_of x)) same (Mem-Extends m adds)
      by_round (explored t) f a =
          let adds : Adds source config k reported (explored t) = rw f at a in
          Mem-Extends (Mem-Extends m adds)
            (search_rounds-Extends source config k fuel t o (rw (search_rounds, f) at h))

  -- If the search ends, every deadlock in which it stops exploring in one of its rounds is among
  -- the calls of the deadlock callback, where one is set.
  pub verify_using-reports :
      (fuel : ℕ) (session : Session Live) (enabled : List ℕ) (o : Outcome) (s reached : Search Live)
      → get_enabled_runners (current_program_model session) ≡ ok enabled
      → verify_using source config k fuel session ≡ some o
      → Reaches source config k (start_of source config k session enabled) s
      → explore source config k (suc (config.maximum_total_execution_depth - length s.stack)) s
        ≡ explored reached
      → k.deadlock ≡ true
      → is_in_deadlock (current_program_model reached.session) ≡ ok true
      → Mem (deadlock (current_program_model reached.session).trace reached.stats) (events_of o)
  unfolding verify_using start_of
  verify_using-reports fuel session enabled o s reached found h r e asked stuck =
      let completed = report_completed source config k reached in
      let begun : search_rounds source config k fuel (start_of source config k session enabled)
          ≡ some o =
        rw (verify_using, found) at h in
      let (left, rest) =
        Reaches-rest source config k fuel (start_of source config k session enabled) o r begun in
      elim (Result-cases (report_deadlock source config k completed)) [
        | inl (reported, reporting) ↦
            round-report left s reached reported o _ e reporting
              (deadlock-report completed reported asked stuck reporting) rest
        | inr (cause, failed) ↦ absurd (deadlock-tested completed cause asked stuck failed)
      ]
