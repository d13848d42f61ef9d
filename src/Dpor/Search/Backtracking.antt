-- ===== src/Dpor/Search/Backtracking.antt =====
-- The backtrack phase leaves less to search.
use deep_debug.Prelude.{
  ℕ, ◌+◌, ◌-◌, ◌≤◌, ◌<◌, ◌≡◌, ◌≢◌, refl, sym, ap, ◌∙◌, false, List, [], ◌∷◌, ◌++◌, some, length,
  length-append, set, get_last?, get_last?-append, contains, contains-insert, contains-erase, inl,
  inr, Result-cases, ok, or_fail, or_fail-eq-ok, null_pointer, >>=-eq-ok, arith, ◌%◌,
}
use deep_debug.Coordinator.Session.{ProcessSource, return_to_depth}
use deep_debug.Coordinator.Synchronized.{return_to_depth-IsSynchronized}
use deep_debug.Dpor.StackItem.{
  StackItem, mark_searched, backtrack_set_pop_first, max_total_threads_in_program,
}
use deep_debug.Dpor.StackItem.Sets.{backtrack_set_pop_first-eq-ok}
use deep_debug.Dpor.StackItem.Marks.{
  mark, marks, AllClocks, open_below, open_below-lt, remaining, remaining-lt, marks-append,
  length-marks, append-AllClocks, prefix-AllClocks,
}
use deep_debug.Dpor.Context.Sound.{IsSound}
use deep_debug.Dpor.Context.Invariant.{AllSound, append-AllSound}
use deep_debug.Dpor.Context.Latest.{IsFresh}
use deep_debug.Dpor.Search.{
  Configuration, Callbacks, Search, unfinished, explored, continue_dpor_by_expanding_trace_with,
  follow_backtrack, backtrack,
}
use deep_debug.Dpor.Search.Cut.{set-last}
use deep_debug.Dpor.Search.Rounds.{IsReady, left, height, continue-Advances}

mark_searched-IsSound : (rid : ℕ) (s : StackItem) → IsSound s → IsSound (mark_searched rid s)
unfolding mark_searched
mark_searched-IsSound rid s sound r h =
    ground (arith, sound r, contains-erase r rid s.backtrack_set, contains-insert r rid s.done_set)

mark_searched-open :
    (rid : ℕ) (s : StackItem)
    → rid < max_total_threads_in_program
    → contains rid s.done_set ≡ false
    → open_below max_total_threads_in_program (mark_searched rid s).done_set
      < open_below max_total_threads_in_program s.done_set
unfolding mark_searched
mark_searched-open rid s known fresh =
    open_below-lt max_total_threads_in_program rid s.done_set (mark_searched rid s).done_set known
      fresh (ground (arith, contains-insert rid rid s.done_set))
      (λ q h. ground (arith, contains-insert q rid s.done_set))

length-mark_searched :
    (rid : ℕ) (s : StackItem)
    → length (mark_searched rid s).per_runner_clocks ≡ length s.per_runner_clocks
unfolding mark_searched
length-mark_searched rid s = refl

prefix-AllSound : (xs ys : List StackItem) → AllSound (xs ++ ys) → AllSound xs
prefix-AllSound [] ys h = tt
prefix-AllSound (x ∷ xs) ys (here, h) = (here, prefix-AllSound xs ys h)

middle-AllSound :
    (xs : List StackItem) (s : StackItem) (ys : List StackItem)
    → AllSound (xs ++ s ∷ ys)
    → IsSound s
middle-AllSound [] s ys (here, h) = here
middle-AllSound (x ∷ xs) s ys (here, h) = middle-AllSound xs s ys h

middle-AllClocks :
    (xs : List StackItem) (s : StackItem) (ys : List StackItem)
    → AllClocks (marks (xs ++ s ∷ ys))
    → length s.per_runner_clocks ≡ max_total_threads_in_program
middle-AllClocks [] s ys (here, h) = here
middle-AllClocks (x ∷ xs) s ys (here, h) = middle-AllClocks xs s ys h

prefix-marks : (xs ys : List StackItem) → AllClocks (marks (xs ++ ys)) → AllClocks (marks xs)
prefix-marks xs ys h = prefix-AllClocks (marks xs) (marks ys) (rw (← marks-append xs ys) h)

module _ {Live : Type 0} (source : ProcessSource Live) (config : Configuration)
    (k : Callbacks) where
  -- A step from the item at the top of a stack that has lost the items `dropped`.
  pub follow_backtrack-IsReady :
      (s t : Search Live) (before : List StackItem) (top : StackItem) (dropped : List StackItem)
      → IsReady config s
      → s.stack ≡ before ++ top ∷ []
      → length s.stack ≤ config.maximum_total_execution_depth
      → follow_backtrack source config k s ≡ ok t
      → IsReady config t
        × IsFresh t.stack
        × (left config t < remaining (height config) (marks (before ++ top ∷ dropped)))
  unfolding follow_backtrack
  follow_backtrack-IsReady s t before top dropped w shape short h =
      let (last, back, h₁) = >>=-eq-ok (or_fail (get_last? s.stack) null_pointer) _ h in
      let (popped, taken, h₂) = >>=-eq-ok (backtrack_set_pop_first last) _ h₁ in
      let at_top : some last ≡ some top =
        sym (or_fail-eq-ok (get_last? s.stack) null_pointer back)
        ∙ ap get_last? shape
        ∙ get_last?-append before top in
      let here : last ≡ top = cc at_top in
      let taken' : backtrack_set_pop_first top ≡ ok (popped.0, popped.1) = rw here at taken in
      let (item, scheduled) = backtrack_set_pop_first-eq-ok top popped.1 popped.0 taken' in
      let searched = mark_searched popped.0 top in
      let cut : set s.stack (length s.stack - 1) popped.1 ≡ before ++ searched ∷ [] =
        ap (set s.stack (length s.stack - 1)) item
        ∙ ap (λ x. set x (length x - 1) searched) shape
        ∙ set-last before top searched in
      let next : Search Live = record s { stack = before ++ searched ∷ [] } in
      let continued : continue_dpor_by_expanding_trace_with source config k popped.0 next ≡ ok t =
        rw cut at h₂ in
      let sound : AllSound (before ++ top ∷ []) = rw shape at w.sound in
      let clocks : AllClocks (marks (before ++ top ∷ [])) = rw shape at w.clocks in
      let top_sound = middle-AllSound before top [] sound in
      let size : length (before ++ searched ∷ []) ≡ length s.stack =
        length-append before (searched ∷ [])
        ∙ sym (length-append before (top ∷ []))
        ∙ ap length (sym shape) in
      let ready : IsReady config next = record {
        keyed = w.keyed;
        sound =
            append-AllSound before searched (prefix-AllSound before (top ∷ []) sound)
              (mark_searched-IsSound popped.0 top top_sound);
        clocks = rw (marks-append before (searched ∷ [])) (
            append-AllClocks (marks before) (mark searched ∷ [])
              (prefix-marks before (top ∷ []) clocks)
              (length-mark_searched popped.0 top ∙ middle-AllClocks before top [] clocks, tt));
        fits = omega (arith, w.fits);
      } in
      let a = continue-Advances source config k popped.0 next t ready (omega arith) continued in
      let fewer = mark_searched-open popped.0 top a.has_clock (top_sound popped.0 scheduled).0 in
      let room : length (marks before) < height config =
        omega (arith, length-marks before, length-append before (top ∷ []), ap length shape) in
      let less =
        remaining-lt (height config) (marks before) (mark top) (mark searched) (marks dropped) room
          fewer in
      let bound : left config next < remaining (height config) (marks (before ++ top ∷ dropped)) =
        rw (marks-append before (searched ∷ []), marks-append before (top ∷ dropped)) less in
      let no_more = a.no_more in (a.ready, a.latest, omega arith)

  pub backtrack-IsReady :
      (s t : Search Live) (before : List StackItem) (top : StackItem) (dropped : List StackItem)
      → IsReady config s
      → s.stack ≡ before ++ top ∷ []
      → length s.stack ≤ config.maximum_total_execution_depth
      → backtrack source config k s ≡ explored t
      → IsReady config t
        × IsFresh t.stack
        × (left config t < remaining (height config) (marks (before ++ top ∷ dropped)))
  unfolding backtrack
  backtrack-IsReady s t before top dropped w shape short h =
      elim (Result-cases (return_to_depth source (length s.stack - 1) s.session)) [
        | inr (e, failed) ↦ let stuck = rw (backtrack, failed) at h in cc stuck
        | inl (session, returned) ↦
            let next : Search Live = record s {
              session = session;
              stats = record s.stats { trace_id = (s.stats.trace_id + 1) % 4294967296 };
            } in
            let keyed =
              (return_to_depth-IsSynchronized source (length s.stack - 1) s.session session w.keyed
                returned).0.keyed in
            let ready : IsReady config next = record {
              keyed = keyed;
              sound = w.sound;
              clocks = w.clocks;
              fits = w.fits;
            } in
            elim (Result-cases (follow_backtrack source config k next)) [
              | inr (e, failed) ↦ let stuck = rw (backtrack, returned, failed) at h in cc stuck
              | inl (after, followed) ↦
                  let made : explored after ≡ explored t =
                    rw (backtrack, returned, followed) at h in
                  let same : after ≡ t = cc made in
                  follow_backtrack-IsReady next t before top dropped ready shape short
                    (followed ∙ ap ok same)
            ]
      ]

  pub backtrack-ne-unfinished : (s : Search Live) → backtrack source config k s ≢ unfinished
  unfolding backtrack
  backtrack-ne-unfinished s h =
      elim (Result-cases (return_to_depth source (length s.stack - 1) s.session)) [
        | inr (e, failed) ↦ let stuck = rw (backtrack, failed) at h in cc stuck
        | inl (session, returned) ↦
            elim (Result-cases (
              follow_backtrack source config k (record s {
                session = session;
                stats = record s.stats { trace_id = (s.stats.trace_id + 1) % 4294967296 };
              }))) [
                | inr (e, failed) ↦ let stuck = rw (backtrack, returned, failed) at h in cc stuck
                | inl (after, followed) ↦
                    let stuck = rw (backtrack, returned, followed) at h in cc stuck
              ]
      ]
