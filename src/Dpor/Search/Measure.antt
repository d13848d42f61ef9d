-- ===== src/Dpor/Search/Measure.antt =====
-- One expansion of the trace leaves no more to search.
use deep_debug.Prelude.{
  ℕ, ◌+◌, ◌-◌, ◌≤◌, ◌<◌, ◌≡◌, refl, ap, ◌∙◌, [], ◌∷◌, ◌++◌, some, length, length-set, set,
  get_last?, contains-insert, arith, ok, >>=-eq-ok,
}
use deep_debug.Transition.{Transition, get_executor}
use deep_debug.Dpor.StackItem.{StackItem, mark_searched, max_total_threads_in_program}
use deep_debug.Dpor.StackItem.Marks.{
  mark, marks, AllClocks, open_below, open_below_mono, remaining, remaining-append, remaining-set,
  length-marks, marks-append, marks-set, get_elem?-marks, get_elem?-last, get_elem?-AllClocks,
  set-AllClocks, append-AllClocks,
}
use deep_debug.Dpor.Relations.{Relations}
use deep_debug.Dpor.Context.{Context}
use deep_debug.Dpor.Context.Expand.{close_item, grow_stack_after_running, expand_trace}
use deep_debug.Dpor.Context.Expansion.{dynamically_update_backtrack_sets-Updates}
use deep_debug.Dpor.Context.Growth.{grow_stack_after_running-Grows}

-- What the measure needs of an expansion.
pub record Expanded (h : ℕ) (context after : Context) : Type 0 where
  pub t_n : Transition
  pub last_transition : get_last? context.coordinator.trace ≡ some t_n
  pub has_clock : get_executor t_n < max_total_threads_in_program
  pub all_clocks : AllClocks (marks after.stack)
  pub longer : length after.stack ≡ length context.stack + 1
  pub less : remaining h (marks after.stack) ≤ remaining h (marks context.stack)

close_item-open :
    (t : Transition) (s : StackItem)
    → open_below max_total_threads_in_program (close_item t s).done_set
      ≤ open_below max_total_threads_in_program s.done_set
unfolding close_item mark_searched
close_item-open t s =
    open_below_mono max_total_threads_in_program s.done_set (close_item t s).done_set
      (λ r h. ground (arith, contains-insert r (get_executor t) s.done_set))

length-close_item :
    (t : Transition) (s : StackItem)
    → length (close_item t s).per_runner_clocks ≡ length s.per_runner_clocks
unfolding close_item mark_searched
length-close_item t s = refl

pub expand_trace-Expanded :
    (h : ℕ) (config : Relations) (context after : Context)
    → AllClocks (marks context.stack)
    → length context.stack < h
    → expand_trace config context ≡ ok after
    → Expanded h context after
unfolding expand_trace
expand_trace-Expanded h config context after k short e =
    let (grown, grew, e1) = >>=-eq-ok (grow_stack_after_running config context) _ e in
    let (kept, sized, longer, keeps, first, m) =
      grow_stack_after_running-Grows config context grown grew in
    let (same, as_long, keeps_too, first_too, same_marks) =
      dynamically_update_backtrack_sets-Updates config grown after e1 in
    let i = length context.stack - 1 in
    let closed = mark (close_item m.t_n m.s_n) in
    let base = set (marks context.stack) i closed in
    let shape : marks after.stack ≡ base ++ mark m.new ∷ [] =
      same_marks
      ∙ ap marks m.stack
      ∙ marks-append (set context.stack i (close_item m.t_n m.s_n)) (m.new ∷ [])
      ∙ ap (λ x. x ++ mark m.new ∷ []) (marks-set context.stack i (close_item m.t_n m.s_n)) in
    let at_last =
      get_elem?-marks context.stack i m.s_n (get_elem?-last context.stack m.s_n m.last_item) in
    let clocks : length m.s_n.per_runner_clocks ≡ max_total_threads_in_program =
      get_elem?-AllClocks (marks context.stack) i (mark m.s_n) k at_last in
    let lower =
      remaining-set h (marks context.stack) i (mark m.s_n) closed at_last
        (close_item-open m.t_n m.s_n) in
    let fits : length base < h =
      omega (arith, length-set (marks context.stack) i closed, length-marks context.stack) in
    let under = remaining-append h base (mark m.new) fits in
    let clock = m.has_clock in
    record {
      t_n = m.t_n;
      last_transition = m.last_transition;
      has_clock = omega arith;
      all_clocks = rw shape (
          append-AllClocks base (mark m.new ∷ [])
            (set-AllClocks (marks context.stack) i closed k
              (length-close_item m.t_n m.s_n ∙ clocks))
            (m.clocks ∙ clocks, tt));
      longer = as_long ∙ longer;
      less = rw shape (omega arith);
    }
