-- ===== src/Dpor/Context/Expansion.antt =====
-- One expansion of the trace: the stack grows by an item, stays sound, and schedules nothing new
-- at the first item.
use deep_debug.Prelude.{
  ℕ, zero, suc, ◌-◌, ◌==◌, ◌≡◌, refl, Bool, true, false, some, if◌then◌else◌, length, length-set,
  get_elem?, head-set_later, set-get_elem?, set, ap, Bool-cases, ◌⊎◌, inl, inr, Result, ok, ◌>>=◌,
  >>=-eq-ok, or_fail, or_fail-eq-ok, out_of_range, arith, subst, ◌∙◌,
}
use deep_debug.Transition.{Transition, get_executor}
use deep_debug.Dpor.StackItem.{StackItem}
use deep_debug.Dpor.Relations.{Relations}
use deep_debug.Dpor.Context.{
  Context, item_at, next_of, trace_back, dynamically_update_backtrack_sets_at_index,
}
use deep_debug.Dpor.Context.Expand.{
  update_item_at, update_other_runners, update_last_runner, dynamically_update_backtrack_sets,
}
use deep_debug.Dpor.StackItem.Marks.{mark, marks, marks-set, get_elem?-marks}
use deep_debug.Dpor.Context.Marked.{update_at_index-mark}
use deep_debug.Dpor.Context.Invariant.{
  AllSound, get_elem?-AllSound, set-AllSound, update_at_index-IsSound, update_at_first_index_lem,
}

-- What an update of the backtrack sets leaves.
abbrev pub Updates : Context → Context → Type 0
Updates context after =
    (after.coordinator ≡ context.coordinator)
    × (length after.stack ≡ length context.stack)
    × (AllSound context.stack → AllSound after.stack)
    × (get_elem? after.stack 0 ≡ get_elem? context.stack 0)
    × (marks after.stack ≡ marks context.stack)

Updates-refl : (context : Context) → Updates context context
Updates-refl context = (refl, refl, λ sound. sound, refl, refl)

Updates-trans :
    (first second third : Context)
    → Updates first second
    → Updates second third
    → Updates first third
Updates-trans first second third (c1, l1, s1, f1, m1) (c2, l2, s2, f2, m2) =
    (c2 ∙ c1, l2 ∙ l1, λ sound. s2 (s1 sound), f2 ∙ f1, m2 ∙ m1)

first_item-set :
    (config : Relations) (context : Context) (s_i next_sp : Transition) (pre_si s : StackItem)
    (i p : ℕ) (race : Bool)
    → get_elem? context.stack i ≡ some pre_si
    → dynamically_update_backtrack_sets_at_index config context s_i next_sp pre_si i p
      ≡ ok (s, race)
    → get_elem? (set context.stack i s) 0 ≡ get_elem? context.stack 0
first_item-set config context s_i next_sp pre_si s zero p race at_i h =
    let (none_found, same) =
      update_at_first_index_lem config context s_i next_sp pre_si s p race h in
    ap (λ x. get_elem? x 0)
      (ap (set context.stack 0) same ∙ set-get_elem? context.stack 0 pre_si at_i)
first_item-set config context s_i next_sp pre_si s (suc i) p race at_i h =
    head-set_later context.stack i s

update_item_at-Updates :
    (config : Relations) (s_i next_sp : Transition) (i p : ℕ) (context after : Context)
    (race : Bool)
    → update_item_at config s_i next_sp i p context ≡ ok (after, race)
    → Updates context after
unfolding update_item_at
update_item_at-Updates config s_i next_sp i p context after race h =
    let (pre_si, found, h1) = >>=-eq-ok (item_at i context) _ h in
    let ((s, b), updated, h2) =
      >>=-eq-ok (dynamically_update_backtrack_sets_at_index config context s_i next_sp pre_si i p) _
        h1 in
    let at_i : get_elem? context.stack i ≡ some pre_si = or_fail-eq-ok _ out_of_range found in
    let same : (record context { stack = set context.stack i s }) ≡ after = cc in
    subst (Updates context) same (
      refl,
      length-set context.stack i s,
      λ sound. set-AllSound context.stack i s sound (
          update_at_index-IsSound config context s_i next_sp pre_si s i p b
            (get_elem?-AllSound context.stack i sound at_i) updated),
      first_item-set config context s_i next_sp pre_si s i p b at_i updated,
      marks-set context.stack i s
          ∙ ap (set (marks context.stack) i)
              (update_at_index-mark config context s_i next_sp pre_si s i p b updated)
          ∙ set-get_elem? (marks context.stack) i (mark pre_si)
              (get_elem?-marks context.stack i pre_si at_i),
    )

update_other_runners-Updates :
    (config : Relations) (s_n : Transition) (top count rid : ℕ) (context after : Context)
    → update_other_runners config s_n top count rid context ≡ ok after
    → Updates context after
unfolding update_other_runners
update_other_runners-Updates config s_n top zero rid context after h =
    let same : context ≡ after = cc in subst (Updates context) same (Updates-refl context)
update_other_runners-Updates config s_n top (suc count) rid context after h =
    elim (Bool-cases (rid == get_executor s_n)) [
      | inl same ↦
          let rest : update_other_runners config s_n top count (suc rid) context ≡ ok after =
            ground arith in
          update_other_runners-Updates config s_n top count (suc rid) context after rest
      | inr other ↦
          let step : ◌>>=◌ {B = Context} (next_of rid context) (λ next_sp.
            ◌>>=◌ {B = Context} (update_item_at config s_n next_sp top rid context)
              (λ r. update_other_runners config s_n top count (suc rid) r.0))
              ≡ ok after =
            ground arith in
          let (next_sp, found, h1) = >>=-eq-ok (next_of rid context) _ step in
          let ((next, race), updated, h2) =
            >>=-eq-ok (update_item_at config s_n next_sp top rid context) _ h1 in
          Updates-trans context next after
            (update_item_at-Updates config s_n next_sp top rid context next race updated)
            (update_other_runners-Updates config s_n top count (suc rid) next after h2)
    ]

pub if-eq-ok :
    (b : Bool) (next : Context) (rest : Result Context) {after : Context}
    → (if b then ok next else rest) ≡ ok after
    → (next ≡ after) ⊎ (rest ≡ ok after)
if-eq-ok true next rest h = inl cc
if-eq-ok false next rest h = inr h

update_last_runner-Updates :
    (config : Relations) (next_s_p : Transition) (p count : ℕ) (context after : Context)
    → update_last_runner config next_s_p p count context ≡ ok after
    → Updates context after
unfolding update_last_runner
update_last_runner-Updates config next_s_p p zero context after h =
    let same : context ≡ after = cc in subst (Updates context) same (Updates-refl context)
update_last_runner-Updates config next_s_p p (suc i) context after h =
    let (s_i, found, h1) =
      >>=-eq-ok (or_fail (get_elem? context.coordinator.trace i) out_of_range) _ h in
    let ((next, race), updated, h2) =
      >>=-eq-ok (update_item_at config s_i next_s_p i p context) _ h1 in
    let first = update_item_at-Updates config s_i next_s_p i p context next race updated in
    elim (if-eq-ok race next _ h2) [
      | inl same ↦ subst (Updates context) same first
      | inr rest ↦
          Updates-trans context next after first
            (update_last_runner-Updates config next_s_p p i next after rest)
    ]

pub dynamically_update_backtrack_sets-Updates :
    (config : Relations) (context after : Context)
    → dynamically_update_backtrack_sets config context ≡ ok after
    → Updates context after
unfolding dynamically_update_backtrack_sets
dynamically_update_backtrack_sets-Updates config context after h =
    let (s_n, found, h1) = >>=-eq-ok (trace_back context) _ h in
    let top = length context.stack - 2 in
    let (middle, updated, h2) =
      >>=-eq-ok
        (update_other_runners config s_n top (length context.coordinator.next_steps) 0 context) _
        h1 in
    let (next_s_p, pending, h3) = >>=-eq-ok (next_of (get_executor s_n) middle) _ h2 in
    Updates-trans context middle after
      (update_other_runners-Updates config s_n top _ 0 context middle updated)
      (update_last_runner-Updates config next_s_p (get_executor s_n) top middle after h3)
