-- ===== src/Dpor/Search/Events.antt =====
-- The callbacks that the parts of the search call: events are only ever added.
use deep_debug.Prelude.{
  ℕ, ◌+◌, ◌≡◌, refl, sym, ap, ◌∙◌, Bool, List, [], ◌∷◌, ◌++◌, append_assoc, append-nil, Mem,
  mem-append_left, ok, Error, >>=-eq-ok, subst, ◌%◌, true, false, not_initialized,
  termination_error, nonzero_exit_code_error,
}
use deep_debug.Coordinator.Session.{ProcessSource, execute_runner}
use deep_debug.Dpor.Context.Expand.{expand_trace}
use deep_debug.Dpor.Search.{
  context_of, Configuration, Callbacks, Search, Event, Outcome, returned, thrown, call, catch_all,
  catch_process_errors, catch_undefined_behavior, continue_dpor_by_expanding_trace_with,
  explore_step,
}

abbrev pub events_of : Outcome → List Event
events_of (returned events) = events
events_of (thrown cause events) = events

-- The second list goes on where the first ends.
abbrev pub Extends : List Event → List Event → Type 0
Extends before after = (added : List Event) × (after ≡ before ++ added)

pub Extends-refl : (events : List Event) → Extends events events
Extends-refl events = ([], sym (append-nil events))

pub Extends-trans : (a : List Event) {b c : List Event} → Extends a b → Extends b c → Extends a c
Extends-trans a (x, p) (y, q) = (x ++ y, q ∙ ap (λ l. l ++ y) p ∙ append_assoc a x y)

pub Extends-call :
    (is_set : Bool) (event : Event) (events : List Event)
    → Extends events (call is_set event events)
Extends-call true event events = (event ∷ [], refl)
Extends-call false event events = Extends-refl events

pub Mem-Extends : {event : Event} {a b : List Event} → Mem event a → Extends a b → Mem event b
Mem-Extends {event} m (added, same) = subst (Mem event) (sym same) (mem-append_left added m)

module _ {Live : Type 0} (k : Callbacks) where
  pub catch_all-Extends :
      (e : Error) (s : Search Live) → Extends s.events (events_of (catch_all k e s))
  unfolding catch_all
  catch_all-Extends not_initialized s = Extends-call _ _ s.events
  catch_all-Extends (termination_error signo culprit) s = Extends-call _ _ s.events
  catch_all-Extends (nonzero_exit_code_error exit_code culprit) s = Extends-call _ _ s.events
  catch_all-Extends e s = Extends-refl s.events

  pub catch_process_errors-Extends :
      (e : Error) (s : Search Live) → Extends s.events (events_of (catch_process_errors k e s))
  unfolding catch_process_errors
  catch_process_errors-Extends (termination_error signo culprit) s = Extends-call _ _ s.events
  catch_process_errors-Extends (nonzero_exit_code_error exit_code culprit) s =
      Extends-call _ _ s.events
  catch_process_errors-Extends e s = Extends-refl s.events

  pub catch_undefined_behavior-Extends :
      (e : Error) (s : Search Live) → Extends s.events (events_of (catch_undefined_behavior k e s))
  unfolding catch_undefined_behavior
  catch_undefined_behavior-Extends not_initialized s = Extends-call _ _ s.events
  catch_undefined_behavior-Extends e s = Extends-refl s.events

module _ {Live : Type 0} (source : ProcessSource Live) (config : Configuration)
    (k : Callbacks) where
  pub continue-events :
      (p : ℕ) (s t : Search Live)
      → continue_dpor_by_expanding_trace_with source config k p s ≡ ok t
      → t.events ≡ s.events
  unfolding continue_dpor_by_expanding_trace_with
  continue-events p s t h =
      let (session, ran, h₁) = >>=-eq-ok (execute_runner source p s.session) _ h in
      let context = context_of (record s { session = session }) in
      let (after, grown, made) = >>=-eq-ok (expand_trace config.relations context) _ h₁ in
      let shape : record s { session = session; stack = after.stack } ≡ t = cc made in
      ap (λ (x : Search Live). x.events) (sym shape)

  pub explore_step-events :
      (p : ℕ) (s t : Search Live) → explore_step source config k p s ≡ ok t → t.events ≡ s.events
  unfolding explore_step
  explore_step-events p s t h =
      let (after, continued, made) =
        >>=-eq-ok (continue_dpor_by_expanding_trace_with source config k p s) _ h in
      let shape : record after {
        stats = record after.stats {
          total_transitions = (after.stats.total_transitions + 1) % 4294967296;
        };
      }
          ≡ t =
        cc made in
      ap (λ (x : Search Live). x.events) (sym shape) ∙ continue-events p s after continued
