-- ===== src/Dpor/Search/Rounds.antt =====
-- One round of the search leaves less to search.
use deep_debug.Prelude.{
  ℕ, ◌+◌, ◌≤◌, ◌<◌, ◌≡◌, sym, ap, ◌∙◌, List, [], ◌∷◌, ◌++◌, some, length, get_last?,
  get_last?-append, ok, >>=-eq-ok, arith, subst,
}
use deep_debug.Transition.{Transition, get_executor}
use deep_debug.Program.Rollback.{IsKeyed}
use deep_debug.Coordinator.Session.{ProcessSource, current_program_model, execute_runner}
use deep_debug.Coordinator.Synchronized.{execute_runner-Followed}
use deep_debug.Dpor.StackItem.{max_total_threads_in_program}
use deep_debug.Dpor.StackItem.Marks.{marks, AllClocks, remaining}
use deep_debug.Dpor.Context.Expand.{expand_trace}
use deep_debug.Dpor.Context.Invariant.{AllSound}
use deep_debug.Dpor.Context.Latest.{IsFresh, expand_trace-IsFresh}
use deep_debug.Dpor.Context.Growth.{expand_trace-AllSound}
use deep_debug.Dpor.Search.{
  Configuration, Callbacks, Search, context_of, continue_dpor_by_expanding_trace_with,
}
use deep_debug.Dpor.Search.Measure.{Expanded, expand_trace-Expanded}

-- The longest that a stack becomes: one item more than the depth at which exploring stops.
abbrev pub height : Configuration → ℕ
height config = config.maximum_total_execution_depth + 2

abbrev pub left : {Live : Type 0} → Configuration → Search Live → ℕ
left config s = remaining (height config) (marks s.stack)

pub record IsReady {Live : Type 0} (config : Configuration) (s : Search Live) : Type 0 where
  pub keyed : IsKeyed (current_program_model s.session).next_steps
  pub sound : AllSound s.stack
  pub clocks : AllClocks (marks s.stack)
  pub fits : length s.stack ≤ config.maximum_total_execution_depth + 1

-- A step of the search: the stack grows by an item, and no more is left to search.
pub record Advances {Live : Type 0} (config : Configuration) (p : ℕ) (s t : Search Live)
    : Type 0 where
  pub ready : IsReady config t
  pub latest : IsFresh t.stack
  pub no_more : left config t ≤ left config s
  pub longer : length t.stack ≡ length s.stack + 1
  pub has_clock : p < max_total_threads_in_program

get_last?-trace :
    (trace before : List Transition) (ran t : Transition)
    → trace ≡ before ++ ran ∷ []
    → get_last? trace ≡ some t
    → t ≡ ran
get_last?-trace trace before ran t e h =
    let last = get_last?-append before ran in
    let same : some t ≡ some ran = sym h ∙ ap get_last? e ∙ last in cc same

module _ {Live : Type 0} (source : ProcessSource Live) (config : Configuration)
    (k : Callbacks) where
  pub continue-Advances :
      (p : ℕ) (s t : Search Live)
      → IsReady config s
      → length s.stack ≤ config.maximum_total_execution_depth
      → continue_dpor_by_expanding_trace_with source config k p s ≡ ok t
      → Advances config p s t
  unfolding continue_dpor_by_expanding_trace_with
  continue-Advances p s t w short h =
      let (session, ran, h₁) = >>=-eq-ok (execute_runner source p s.session) _ h in
      let context = context_of (record s { session = session }) in
      let (after, grown, made) = >>=-eq-ok (expand_trace config.relations context) _ h₁ in
      let f = execute_runner-Followed source p s.session session w.keyed ran in
      let (sound, as_long, depth) =
        expand_trace-AllSound config.relations context after w.sound grown in
      let e : Expanded (height config) context after =
        expand_trace-Expanded (height config) config.relations context after w.clocks (omega arith)
          grown in
      let same : e.t_n ≡ f.ran = get_last?-trace _ _ f.ran e.t_n f.trace e.last_transition in
      let shape : record s { session = session; stack = after.stack } ≡ t = cc made in
      let longer = e.longer in
      subst (Advances config p s) shape (record {
        ready = record {
          keyed = f.keyed;
          sound = sound;
          clocks = e.all_clocks;
          fits = omega arith;
        };
        latest = expand_trace-IsFresh config.relations context after grown;
        no_more = e.less;
        longer = longer;
        has_clock =
            subst (λ x. x < max_total_threads_in_program) (ap get_executor same ∙ f.executor)
              e.has_clock;
      })
