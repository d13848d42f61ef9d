-- ===== src/Dpor/Context/Growth.antt =====
-- `continue_dpor_by_expanding_trace_with`: what it makes of the stack.
use deep_debug.Prelude.{
  ℕ, suc, ◌+◌, ◌-◌, ◌==◌, ==-eq, ◌≡◌, ◌≢◌, refl, true, List, [], ◌∷◌, ◌++◌, some, if◌then◌else◌,
  length, length-set, length-append, get_elem?, get_last?, set, contains, contains-insert,
  contains-erase, ap, ok, err, >>=-eq-ok, or_fail-eq-ok, null_pointer, assertion_failed, arith,
  subst, ◌∙◌, assign, ◌<◌,
}
use deep_debug.Transition.{Transition, get_executor}
use deep_debug.Program.{get_enabled_runners}
use deep_debug.Dpor.StackItem.{StackItem, new_stack_item, mark_searched}
use deep_debug.Dpor.Relations.{Relations}
use deep_debug.Dpor.Context.{Context, stack_back, trace_back, accumulate_max_clock_vector_against}
use deep_debug.Dpor.Context.Expand.{
  set_clock_of, keep_sleeping, close_item, grow_stack_after_running, expand_trace,
}
use deep_debug.Dpor.Context.Items.{
  backtrack_set-keep_sleeping, per_runner_clocks-keep_sleeping, set_clock_of-lt,
  length-set_clock_of,
}
use deep_debug.Dpor.Context.Sound.{IsSound}
use deep_debug.Dpor.Context.Invariant.{AllSound, set-AllSound, append-AllSound}
use deep_debug.Dpor.Context.Expansion.{dynamically_update_backtrack_sets-Updates}

pub get_last?-AllSound :
    (stack : List StackItem) {s : StackItem} → AllSound stack → get_last? stack ≡ some s → IsSound s
get_last?-AllSound [] sound h = cc
get_last?-AllSound (t ∷ []) {s} (here, rest) h = let same : t ≡ s = cc in subst IsSound same here
get_last?-AllSound (t ∷ u ∷ stack) (here, rest) h = get_last?-AllSound (u ∷ stack) rest h

contains_eq : (r q : ℕ) (xs : List ℕ) → (r == q) ≡ true → contains r xs ≡ contains q xs
contains_eq r q xs e = ap (λ x. contains x xs) (==-eq r q e)

pub close_item-IsSound : (t : Transition) (s : StackItem) → IsSound s → IsSound (close_item t s)
unfolding close_item mark_searched
close_item-IsSound t s sound r h = ground (
  arith,
  sound r,
  contains-erase r (get_executor t) s.backtrack_set,
  contains-insert r (get_executor t) s.done_set,
  contains-insert r (get_executor t) s.sleep_set,
)

backtrack_set-close_item :
    (t : Transition) (s : StackItem) (q : ℕ)
    → contains q (close_item t s).backtrack_set ≡ true
    → contains q s.backtrack_set ≡ true
unfolding close_item mark_searched
backtrack_set-close_item t s q h = ground (arith, contains-erase q (get_executor t) s.backtrack_set)

-- The first item schedules no runner that it did not schedule before.
abbrev pub FirstGainsNothing : List StackItem → List StackItem → Type 0
FirstGainsNothing stack after =
    (s_0 : StackItem) × (after_0 : StackItem) × (get_elem? stack 0 ≡ some s_0)
    × (get_elem? after 0 ≡ some after_0)
    × ((q : ℕ) → contains q after_0.backtrack_set ≡ true → contains q s_0.backtrack_set ≡ true)

grown-FirstGainsNothing :
    (t : Transition) (stack : List StackItem) (s_n new : StackItem)
    → get_last? stack ≡ some s_n
    → FirstGainsNothing stack (set stack (length stack - 1) (close_item t s_n) ++ new ∷ [])
grown-FirstGainsNothing t [] s_n new h = cc
grown-FirstGainsNothing t (s ∷ []) s_n new h = (
  s,
  close_item t s_n,
  refl,
  refl,
  λ q member. let same : s ≡ s_n = cc in rw same (backtrack_set-close_item t s_n q member),
)
grown-FirstGainsNothing t (s ∷ u ∷ stack) s_n new h =
    let last : length (s ∷ u ∷ stack) - 1 ≡ suc (length stack) = omega arith in
    (s, s, refl, rw last refl, λ q member. member)

sized_lem : (m n : ℕ) {d : ℕ} → (if m == n then ok m else err assertion_failed) ≡ ok d → n ≡ m
sized_lem m n h = ground arith

none_scheduled : (r : ℕ) (xs : List ℕ) → xs ≡ [] → contains r xs ≢ true
none_scheduled r xs h = cc

sized-append :
    (stack : List StackItem) (i : ℕ) (s new : StackItem)
    → length (set stack i s ++ new ∷ []) ≡ length stack + 1
sized-append stack i s new = length-append _ _ ∙ ap (λ x. x + 1) (length-set stack i s)

-- The marks of a grown stack: the executor of the last transition is done at the item before.
pub record GrowsMarks (context grown : Context) : Type 0 where
  pub t_n : Transition
  pub s_n : StackItem
  pub new : StackItem
  pub last_transition : get_last? context.coordinator.trace ≡ some t_n
  pub last_item : get_last? context.stack ≡ some s_n
  pub has_clock : get_executor t_n < length s_n.per_runner_clocks
  pub clocks : length new.per_runner_clocks ≡ length s_n.per_runner_clocks
  pub nothing_scheduled : new.backtrack_set ≡ []
  pub stack :
      grown.stack ≡ set context.stack (length context.stack - 1) (close_item t_n s_n) ++ new ∷ []

-- What growing the stack leaves.
abbrev pub Grows : Context → Context → Type 0
Grows context grown =
    (grown.coordinator ≡ context.coordinator)
    × (length context.stack ≡ length context.coordinator.trace)
    × (length grown.stack ≡ length context.stack + 1)
    × (AllSound context.stack → AllSound grown.stack)
    × FirstGainsNothing context.stack grown.stack
    × GrowsMarks context grown

pub grow_stack_after_running-Grows :
    (config : Relations) (context grown : Context)
    → grow_stack_after_running config context ≡ ok grown
    → Grows context grown
unfolding grow_stack_after_running
grow_stack_after_running-Grows config context grown h =
    let depth = length context.coordinator.trace in
    let (d, sized, h1) =
      >>=-eq-ok (if depth == length context.stack then ok depth else err assertion_failed) _ h in
    let (t_n, found, h2) = >>=-eq-ok (trace_back context) _ h1 in
    let (s_n, back, h3) = >>=-eq-ok (stack_back context) _ h2 in
    let cv =
      assign (get_executor t_n) depth (accumulate_max_clock_vector_against config t_n context) in
    let (clocks, at, h4) =
      >>=-eq-ok (set_clock_of (get_executor t_n) cv s_n.per_runner_clocks) _ h3 in
    let (enabled, ready, h5) = >>=-eq-ok (get_enabled_runners context.coordinator) _ h4 in
    let (new, slept, h6) =
      >>=-eq-ok
        (keep_sleeping config t_n context s_n.sleep_set
          (new_stack_item cv clocks (some t_n) enabled))
        _ h5 in
    let last : get_last? context.stack ≡ some s_n = or_fail-eq-ok _ null_pointer back in
    let fresh = backtrack_set-keep_sleeping config t_n context s_n.sleep_set _ slept in
    let same : (record context {
      stack = set context.stack (length context.stack - 1) (close_item t_n s_n) ++ new ∷ [];
    })
        ≡ grown =
      cc in
    subst (Grows context) same (
      refl,
      sized_lem depth _ sized,
      sized-append context.stack _ _ new,
      λ sound.
          append-AllSound _ new
            (set-AllSound context.stack _ _ sound
              (close_item-IsSound t_n s_n (get_last?-AllSound context.stack sound last)))
            (λ r member. absurd (none_scheduled r new.backtrack_set fresh member)),
      grown-FirstGainsNothing t_n context.stack s_n new last,
      record {
        t_n = t_n;
        s_n = s_n;
        new = new;
        last_transition = or_fail-eq-ok _ null_pointer found;
        last_item = last;
        has_clock = set_clock_of-lt (get_executor t_n) cv s_n.per_runner_clocks clocks at;
        clocks =
            ap length (per_runner_clocks-keep_sleeping config t_n context s_n.sleep_set _ slept)
            ∙ length-set_clock_of (get_executor t_n) cv s_n.per_runner_clocks clocks at;
        nothing_scheduled = fresh;
        stack = refl;
      },
    )

pub length-expand_trace :
    (config : Relations) (context after : Context)
    → expand_trace config context ≡ ok after
    → length after.stack ≡ length context.coordinator.trace + 1
unfolding expand_trace
length-expand_trace config context after h =
    let (grown, grew, h1) = >>=-eq-ok (grow_stack_after_running config context) _ h in
    let (kept, sized, longer, keeps, first, grown_marks) =
      grow_stack_after_running-Grows config context grown grew in
    let (same, as_long, keeps_too, first_too, same_marks) =
      dynamically_update_backtrack_sets-Updates config grown after h1 in
    omega arith

-- If every item of the stack schedules only runners that were enabled, that do not sleep and that
-- are not done, this still holds after the trace has been expanded by a transition; the stack was
-- then as long as the trace, and is afterwards one longer.
pub expand_trace-AllSound :
    (config : Relations) (context after : Context)
    → AllSound context.stack
    → expand_trace config context ≡ ok after
    → AllSound after.stack
      × (length context.stack ≡ length context.coordinator.trace)
      × (length after.stack ≡ length after.coordinator.trace + 1)
unfolding expand_trace
expand_trace-AllSound config context after sound h =
    let (grown, grew, h1) = >>=-eq-ok (grow_stack_after_running config context) _ h in
    let (kept, sized, longer, keeps, first, grown_marks) =
      grow_stack_after_running-Grows config context grown grew in
    let (same, as_long, keeps_too, first_too, same_marks) =
      dynamically_update_backtrack_sets-Updates config grown after h1 in
    let depth = ap (λ c. length c.trace) (same ∙ kept) in
    (keeps_too (keeps sound), sized, omega arith)

-- An expansion of the trace schedules no runner at the first item of the stack that was not
-- scheduled there before.
pub expand_trace-FirstGainsNothing :
    (config : Relations) (context after : Context)
    → expand_trace config context ≡ ok after
    → FirstGainsNothing context.stack after.stack
unfolding expand_trace
expand_trace-FirstGainsNothing config context after h =
    let (grown, grew, h1) = >>=-eq-ok (grow_stack_after_running config context) _ h in
    let (kept, sized, longer, keeps, (s_0, grown_0, at_0, grown_at_0, gains), _) =
      grow_stack_after_running-Grows config context grown grew in
    let (same, as_long, keeps_too, first_too, same_marks) =
      dynamically_update_backtrack_sets-Updates config grown after h1 in
    (s_0, grown_0, at_0, first_too ∙ grown_at_0, gains)
