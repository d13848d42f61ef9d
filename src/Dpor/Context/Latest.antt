-- ===== src/Dpor/Context/Latest.antt =====
-- Updating the backtrack sets leaves the items after the updated ones alone, so that nothing is
-- scheduled at the last item of an expanded stack.
use deep_debug.Prelude.{
  ℕ, zero, suc, ◌-◌, ◌<◌, ◌≤◌, ◌==◌, ◌≡◌, refl, sym, ap, ◌∙◌, Bool, true, List, [], ◌∷◌, some,
  length, length-set, get_elem?, get_elem?-set, get_elem?-append_at, get_last?, set, Bool-cases,
  inl, inr, ok, ◌>>=◌, >>=-eq-ok, or_fail, out_of_range, arith, subst, is_empty,
}
use deep_debug.Transition.{Transition, get_executor}
use deep_debug.Dpor.StackItem.{StackItem, backtrack_set_empty}
use deep_debug.Dpor.Relations.{Relations}
use deep_debug.Dpor.Context.{
  Context, item_at, next_of, trace_back, dynamically_update_backtrack_sets_at_index,
}
use deep_debug.Dpor.Context.Expand.{
  update_item_at, update_other_runners, update_last_runner, dynamically_update_backtrack_sets,
  grow_stack_after_running, expand_trace, close_item,
}
use deep_debug.Dpor.Context.Expansion.{dynamically_update_backtrack_sets-Updates, if-eq-ok}
use deep_debug.Dpor.Context.Growth.{grow_stack_after_running-Grows}

abbrev Leaves : ℕ → Context → Context → Type 0
Leaves n context after = get_elem? after.stack n ≡ get_elem? context.stack n

update_item_at-Leaves :
    (config : Relations) (s_i next_sp : Transition) (i p n : ℕ) (context after : Context)
    (race : Bool)
    → i < n
    → update_item_at config s_i next_sp i p context ≡ ok (after, race)
    → Leaves n context after
unfolding update_item_at
update_item_at-Leaves config s_i next_sp i p n context after race b h =
    let (pre_si, found, h1) = >>=-eq-ok (item_at i context) _ h in
    let ((s, r), updated, h2) =
      >>=-eq-ok (dynamically_update_backtrack_sets_at_index config context s_i next_sp pre_si i p) _
        h1 in
    let same : (record context { stack = set context.stack i s }) ≡ after = cc in
    let kept : get_elem? (set context.stack i s) n ≡ get_elem? context.stack n =
      ground (arith, get_elem?-set context.stack i n s) in
    subst (Leaves n context) same kept

update_other_runners-Leaves :
    (config : Relations) (s_n : Transition) (top count rid n : ℕ) (context after : Context)
    → top < n
    → update_other_runners config s_n top count rid context ≡ ok after
    → Leaves n context after
unfolding update_other_runners
update_other_runners-Leaves config s_n top zero rid n context after b h =
    let same : context ≡ after = cc in subst (Leaves n context) same refl
update_other_runners-Leaves config s_n top (suc count) rid n context after b h =
    elim (Bool-cases (rid == get_executor s_n)) [
      | inl same ↦
          let rest : update_other_runners config s_n top count (suc rid) context ≡ ok after =
            ground arith in
          update_other_runners-Leaves config s_n top count (suc rid) n context after b rest
      | inr other ↦
          let step : ◌>>=◌ {B = Context} (next_of rid context) (λ next_sp.
            ◌>>=◌ {B = Context} (update_item_at config s_n next_sp top rid context)
              (λ r. update_other_runners config s_n top count (suc rid) r.0))
              ≡ ok after =
            ground arith in
          let (next_sp, found, h1) = >>=-eq-ok (next_of rid context) _ step in
          let ((next, race), updated, h2) =
            >>=-eq-ok (update_item_at config s_n next_sp top rid context) _ h1 in
          update_other_runners-Leaves config s_n top count (suc rid) n next after b h2
          ∙ update_item_at-Leaves config s_n next_sp top rid n context next race b updated
    ]

update_last_runner-Leaves :
    (config : Relations) (next_s_p : Transition) (p count n : ℕ) (context after : Context)
    → count ≤ n
    → update_last_runner config next_s_p p count context ≡ ok after
    → Leaves n context after
unfolding update_last_runner
update_last_runner-Leaves config next_s_p p zero n context after b h =
    let same : context ≡ after = cc in subst (Leaves n context) same refl
update_last_runner-Leaves config next_s_p p (suc i) n context after b h =
    let (s_i, found, h1) =
      >>=-eq-ok (or_fail (get_elem? context.coordinator.trace i) out_of_range) _ h in
    let ((next, race), updated, h2) =
      >>=-eq-ok (update_item_at config s_i next_s_p i p context) _ h1 in
    let first =
      update_item_at-Leaves config s_i next_s_p i p n context next race (omega arith) updated in
    elim (if-eq-ok race next _ h2) [
      | inl same ↦ subst (Leaves n context) same first
      | inr rest ↦
          update_last_runner-Leaves config next_s_p p i n next after (omega arith) rest ∙ first
    ]

dynamically_update_backtrack_sets-Leaves :
    (config : Relations) (n : ℕ) (context after : Context)
    → length context.stack - 2 < n
    → dynamically_update_backtrack_sets config context ≡ ok after
    → Leaves n context after
unfolding dynamically_update_backtrack_sets
dynamically_update_backtrack_sets-Leaves config n context after b h =
    let (s_n, found, h1) = >>=-eq-ok (trace_back context) _ h in
    let top = length context.stack - 2 in
    let (middle, updated, h2) =
      >>=-eq-ok
        (update_other_runners config s_n top (length context.coordinator.next_steps) 0 context) _
        h1 in
    let (next_s_p, pending, h3) = >>=-eq-ok (next_of (get_executor s_n) middle) _ h2 in
    update_last_runner-Leaves config next_s_p (get_executor s_n) top n middle after (omega arith) h3
    ∙ update_other_runners-Leaves config s_n top _ 0 n context middle b updated

get_last?-pos {ℓ} : {A : Type ℓ} (xs : List A) (a : A) → get_last? xs ≡ some a → 0 < length xs
get_last?-pos [] a h = cc
get_last?-pos (x ∷ xs) a h = omega arith

-- At the last item nothing is scheduled.
abbrev pub IsFresh : List StackItem → Type 0
IsFresh stack =
    (s : StackItem) → get_elem? stack (length stack - 1) ≡ some s → backtrack_set_empty s ≡ true

pub expand_trace-IsFresh :
    (config : Relations) (context after : Context)
    → expand_trace config context ≡ ok after
    → IsFresh after.stack
unfolding expand_trace
expand_trace-IsFresh config context after e s at_end =
    let (grown, grew, e1) = >>=-eq-ok (grow_stack_after_running config context) _ e in
    let (kept, sized, longer, keeps, first, m) =
      grow_stack_after_running-Grows config context grown grew in
    let (same, as_long, keeps_too, first_too, same_marks) =
      dynamically_update_backtrack_sets-Updates config grown after e1 in
    let closed = set context.stack (length context.stack - 1) (close_item m.t_n m.s_n) in
    let n = length context.stack in
    let size : length closed ≡ n = length-set context.stack (n - 1) (close_item m.t_n m.s_n) in
    let some_item = get_last?-pos context.stack m.s_n m.last_item in
    let in_grown : get_elem? grown.stack n ≡ some m.new =
      ap (λ x. get_elem? x n) m.stack ∙ get_elem?-append_at closed m.new n (sym size) in
    let kept_at : get_elem? after.stack n ≡ get_elem? grown.stack n =
      dynamically_update_backtrack_sets-Leaves config n grown after (omega arith) e1 in
    let position : length after.stack - 1 ≡ n = omega arith in
    let here : some s ≡ some m.new =
      sym at_end ∙ ap (get_elem? after.stack) position ∙ kept_at ∙ in_grown in
    let item : s ≡ m.new = cc here in
    ap (λ (x : StackItem). is_empty x.backtrack_set) item ∙ ap is_empty m.nothing_scheduled
