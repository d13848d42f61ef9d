-- ===== src/Dpor/Search/Termination.antt =====
-- The search ends.
use deep_debug.Prelude.{
  ℕ, zero, suc, ◌+◌, ◌-◌, ◌^◌, ◌≤◌, ◌<◌, ◌≡◌, ◌≢◌, refl, sym, ap, ◌∙◌, false, List, [], ◌∷◌, ◌++◌,
  none, some, is_empty, length, length-append, get_elem?, get_elem?-append_at, inl, inr, Bool-cases,
  Result-cases, ok, >>=-eq-ok, arith, subst,
}
use deep_debug.Program.{get_enabled_runners, is_in_deadlock}
use deep_debug.Program.Rollback.{IsKeyed}
use deep_debug.Coordinator.Session.{ProcessSource, Session, current_program_model}
use deep_debug.Dpor.StackItem.{StackItem, new_stack_item, fresh_clocks, backtrack_set_empty}
use deep_debug.Dpor.StackItem.Marks.{
  mark, marks, AllClocks, remaining, width, remaining-append, width-eq-pow,
}
use deep_debug.Dpor.Context.Invariant.{AllSound}
use deep_debug.Dpor.Context.Latest.{IsFresh}
use deep_debug.Dpor.Search.{
  Configuration, Callbacks, Search, Explored, unfinished, stopped, explored, call, deadlock,
  explore, report_completed, report_deadlock, backtrack, pop_exhausted, search_round, search_rounds,
  verify_using,
}
use deep_debug.Dpor.Search.Cut.{Cut, pop_exhausted-Cut}
use deep_debug.Dpor.Search.Rounds.{IsReady, left, height}
use deep_debug.Dpor.Search.Exploring.{explore-IsReady, explore-ne-unfinished}
use deep_debug.Dpor.Search.Backtracking.{backtrack-IsReady, backtrack-ne-unfinished}

-- An item that has something scheduled is not the last of a fresh stack.
Cut-lt :
    (stack : List StackItem)
    → IsFresh stack
    → (c : Cut stack) → length (c.before ++ c.top ∷ []) < length stack
Cut-lt stack fresh c = by_dropped c.dropped c.whole
  where
    by_dropped :
        (dropped : List StackItem)
        → stack ≡ c.before ++ c.top ∷ dropped
        → length (c.before ++ c.top ∷ []) < length stack
    by_dropped [] whole =
        let position : length stack - 1 ≡ length c.before =
          omega (arith, ap length whole, length-append c.before (c.top ∷ [])) in
        let at_end : get_elem? stack (length stack - 1) ≡ some c.top =
          ap (λ x. get_elem? x (length stack - 1)) whole
          ∙ get_elem?-append_at c.before c.top (length stack - 1) position in
        cc (fresh c.top at_end, c.scheduled)
    by_dropped (s ∷ dropped) whole = omega (
      arith,
      ap length whole,
      length-append c.before (c.top ∷ s ∷ dropped),
      length-append c.before (c.top ∷ []),
    )

upto-AllSound :
    (xs : List StackItem) (s : StackItem) (ys : List StackItem)
    → AllSound (xs ++ s ∷ ys)
    → AllSound (xs ++ s ∷ [])
upto-AllSound [] s ys (here, h) = (here, tt)
upto-AllSound (x ∷ xs) s ys (here, h) = (here, upto-AllSound xs s ys h)

upto-AllClocks :
    (xs : List StackItem) (s : StackItem) (ys : List StackItem)
    → AllClocks (marks (xs ++ s ∷ ys))
    → AllClocks (marks (xs ++ s ∷ []))
upto-AllClocks [] s ys (here, h) = (here, tt)
upto-AllClocks (x ∷ xs) s ys (here, h) = (here, upto-AllClocks xs s ys h)

module _ {Live : Type 0} (source : ProcessSource Live) (config : Configuration)
    (k : Callbacks) where
  -- Reporting a deadlock changes only the events.
  pub report_deadlock-eq-ok :
      (s t : Search Live)
      → report_deadlock source config k s ≡ ok t
      → (t.session ≡ s.session) × (t.stack ≡ s.stack)
  unfolding report_deadlock
  report_deadlock-eq-ok s t h = elim (Bool-cases k.deadlock) [
    | inl asked ↦
        let (found, tested, made) =
          >>=-eq-ok (is_in_deadlock (current_program_model s.session)) _ (rw asked at h) in
        let trace = (current_program_model s.session).trace in
        let shape : record s { events = call found (deadlock trace s.stats) s.events } ≡ t =
          cc made in
        (
          ap (λ (x : Search Live). x.session) (sym shape),
          ap (λ (x : Search Live). x.stack) (sym shape),
        )
    | inr silent ↦
        let made : ok s ≡ ok t = rw silent at h in
        let shape : s ≡ t = cc made in
        (
          ap (λ (x : Search Live). x.session) (sym shape),
          ap (λ (x : Search Live). x.stack) (sym shape),
        )
  ]

  -- A round that goes on leaves less to search.
  abbrev Lessens : Search Live → Explored Live → Type 0
  Lessens s r =
      (r ≢ unfinished)
      × ((t : Search Live)
          → r ≡ explored t
          → IsReady config t × IsFresh t.stack × (left config t < left config s))

  backtrack-Lessens :
      (s reached reported : Search Live)
      → IsReady config reached
      → IsFresh reached.stack
      → left config reached ≤ left config s
      → report_deadlock source config k (report_completed source config k reached) ≡ ok reported
      → is_empty (pop_exhausted reported.stack) ≡ false
      → Lessens s
          (backtrack source config k (record reported { stack = pop_exhausted reported.stack }))
  backtrack-Lessens s reached reported w fresh less reporting some_left =
      let (session, stack) =
        report_deadlock-eq-ok (report_completed source config k reached) reported reporting in
      let c = pop_exhausted-Cut reported.stack some_left in
      let shorter : length (c.before ++ c.top ∷ []) < length reported.stack =
        Cut-lt reported.stack (subst IsFresh (sym stack) fresh) c in
      let whole : reached.stack ≡ c.before ++ c.top ∷ c.dropped = sym stack ∙ c.whole in
      let sound : AllSound (c.before ++ c.top ∷ c.dropped) = subst AllSound whole w.sound in
      let clocks : AllClocks (marks (c.before ++ c.top ∷ c.dropped)) =
        subst (λ x. AllClocks (marks x)) whole w.clocks in
      let cut : Search Live = record reported { stack = pop_exhausted reported.stack } in
      let ready : IsReady config cut = record {
        keyed =
            subst (λ (x : Session Live). IsKeyed (current_program_model x).next_steps) (sym session)
              w.keyed;
        sound = subst AllSound (sym c.kept) (upto-AllSound c.before c.top c.dropped sound);
        clocks =
            subst (λ x. AllClocks (marks x)) (sym c.kept)
              (upto-AllClocks c.before c.top c.dropped clocks);
        fits = omega (arith, w.fits, ap length stack, ap length c.kept);
      } in
      (
        backtrack-ne-unfinished source config k cut,
        λ t h.
            let (ready', fresh', fewer) =
              backtrack-IsReady source config k cut t c.before c.top c.dropped ready c.kept
                (omega (arith, w.fits, ap length stack, ap length c.kept)) h in
            let before = ap (λ x. remaining (height config) (marks x)) whole in
            (ready', fresh', omega arith),
      )

  search_round-Lessens :
      (s : Search Live)
      → IsReady config s
      → IsFresh s.stack
      → Lessens s (search_round source config k s)
  unfolding search_round
  search_round-Lessens s w fresh = by_exploring (explore source config k rounds s) refl
    where
      rounds : ℕ
      rounds = suc (config.maximum_total_execution_depth - length s.stack)

      by_exploring :
          (r : Explored Live)
          → explore source config k rounds s ≡ r
          → Lessens s (search_round source config k s)
      by_exploring unfinished e =
          absurd (explore-ne-unfinished source config k rounds s w (omega arith) (omega arith) e)
      by_exploring (stopped outcome) e = rw (search_round, e) (λ h. cc h, λ t h. cc h)
      by_exploring (explored reached) e =
          let (ready, latest, less) = explore-IsReady source config k rounds s reached w fresh e in
          elim (Result-cases
            (report_deadlock source config k (report_completed source config k reached))) [
              | inr (cause, failed) ↦ rw (search_round, e, failed) (λ h. cc h, λ t h. cc h)
              | inl (reported, reporting) ↦
                  elim (Bool-cases (is_empty (pop_exhausted reported.stack))) [
                    | inl done ↦ rw (search_round, e, reporting, done) (λ h. cc h, λ t h. cc h)
                    | inr more ↦
                        rw (search_round, e, reporting, more)
                          (backtrack-Lessens s reached reported ready latest less reporting more)
                  ]
            ]

  search_rounds-ne-none :
      (fuel : ℕ) (s : Search Live)
      → IsReady config s
      → IsFresh s.stack
      → left config s < fuel
      → search_rounds source config k fuel s ≢ none
  unfolding search_rounds
  search_rounds-ne-none zero s w fresh enough h = elim enough [ ]
  search_rounds-ne-none (suc fuel) s w fresh enough h =
      by_round (search_rounds-ne-none fuel) (search_round source config k s) refl
    where
      lessens : Lessens s (search_round source config k s)
      lessens = search_round-Lessens s w fresh

      by_round :
          ((t : Search Live)
            → IsReady config t
            → IsFresh t.stack
            → left config t < fuel
            → search_rounds source config k fuel t ≢ none)
          → (r : Explored Live) → search_round source config k s ≡ r
          → ⊥
      by_round next unfinished e = lessens.0 e
      by_round next (stopped outcome) e = let stuck = rw (search_rounds, e) at h in cc stuck
      by_round next (explored t) e =
          let (ready, latest, less) = lessens.1 t e in
          let rest : search_rounds source config k fuel t ≡ none = rw (search_rounds, e) at h in
          next t ready latest (omega arith) rest

  unfoldable pub start_of : Session Live → List ℕ → Search Live
  start_of session enabled = record {
    session = session;
    stack = new_stack_item [] fresh_clocks none enabled ∷ [];
    stats = record { trace_id = 1; total_transitions = 0 };
    events = [];
  }

  start_of-IsReady :
      (session : Session Live) (enabled : List ℕ)
      → IsKeyed (current_program_model session).next_steps
      → IsReady config (start_of session enabled)
  unfolding start_of
  start_of-IsReady session enabled keyed = record {
    keyed = keyed;
    sound = (λ r h. cc h, tt);
    clocks = (refl, tt);
    fits = omega arith;
  }

  start_of-IsFresh :
      (session : Session Live) (enabled : List ℕ) → IsFresh (start_of session enabled).stack
  unfolding start_of
  start_of-IsFresh session enabled s at_0 =
      let same : new_stack_item [] fresh_clocks none enabled ≡ s = cc at_0 in
      ap (λ (x : StackItem). backtrack_set_empty x) (sym same)

  -- If the pending transitions are filed under their executors, the search ends in fewer rounds of
  -- its outer loop than any number above 21 to the power of 2 more than the largest depth, whatever
  -- the process does.
  pub verify_using-ne-none :
      (fuel : ℕ) (session : Session Live)
      → IsKeyed (current_program_model session).next_steps
      → 21 ^ (config.maximum_total_execution_depth + 2) < fuel
      → verify_using source config k fuel session ≢ none
  unfolding verify_using start_of
  verify_using-ne-none fuel session keyed enough h =
      elim (Result-cases (get_enabled_runners (current_program_model session))) [
        | inr (e, failed) ↦ let stuck = rw (verify_using, failed) at h in cc stuck
        | inl (enabled, found) ↦
            let rest : search_rounds source config k fuel (start_of session enabled) ≡ none =
              rw (verify_using, found) at h in
            let first =
              remaining-append (height config) []
                (mark (new_stack_item [] fresh_clocks none enabled)) (omega arith) in
            let whole : remaining (height config) [] ≡ width (height config) =
              unfold remaining in refl in
            search_rounds-ne-none fuel (start_of session enabled)
              (start_of-IsReady session enabled keyed)
              (λ s at_0. start_of-IsFresh session enabled s at_0)
              (omega (arith, first, whole, width-eq-pow (height config))) rest
      ]
