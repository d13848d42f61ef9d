-- ===== src/Dpor/Context/Marked.antt =====
-- Scheduling runners leaves what is done, and the clocks, alone.
use deep_debug.Prelude.{
  ℕ, ◌≡◌, refl, ◌∙◌, Bool, true, false, not, List, [], ◌∷◌, any, if◌then◌else◌, ok, ◌>>=◌,
  >>=-eq-ok, subst,
}
use deep_debug.Transition.{Transition}
use deep_debug.Dpor.StackItem.{
  StackItem, insert_into_backtrack_set_unless_completed, sleep_set_contains, backtrack_set_contains,
  done_set_contains, smallest,
}
use deep_debug.Dpor.StackItem.Marks.{mark}
use deep_debug.Dpor.Relations.{Relations}
use deep_debug.Dpor.Context.{
  Context, schedule, schedule_all, candidates, has_reversible_race,
  dynamically_update_backtrack_sets_at_index,
}

if-mark :
    (b : Bool) (s t u : StackItem)
    → mark s ≡ mark u
    → mark t ≡ mark u
    → mark (if b then s else t) ≡ mark u
if-mark true s t u h k = h
if-mark false s t u h k = k

insert-mark :
    (q : ℕ) (s : StackItem) → mark (insert_into_backtrack_set_unless_completed q s) ≡ mark s
unfolding insert_into_backtrack_set_unless_completed
insert-mark q s = if-mark (not (done_set_contains q s)) _ s s refl refl

schedule_all-mark : (runners : List ℕ) (s : StackItem) → mark (schedule_all runners s) ≡ mark s
unfolding schedule_all
schedule_all-mark [] s = refl
schedule_all-mark (q ∷ runners) s =
    schedule_all-mark runners _
    ∙ if-mark (not (sleep_set_contains q s)) _ s s (insert-mark q s) refl

schedule-mark : (e : List ℕ) (s : StackItem) → mark (schedule e s) ≡ mark s
unfolding schedule
schedule-mark [] s = schedule_all-mark s.enabled_runners s
schedule-mark (q ∷ e) s =
    if-mark (any (λ r. backtrack_set_contains r s) (q ∷ e)) s _ s refl
      (insert-mark (smallest q (q ∷ e)) s)

pub update_at_index-mark :
    (config : Relations) (context : Context) (s_i next_sp : Transition) (pre_si s : StackItem)
    (i p : ℕ) (race : Bool)
    → dynamically_update_backtrack_sets_at_index config context s_i next_sp pre_si i p
      ≡ ok (s, race)
    → mark s ≡ mark pre_si
unfolding dynamically_update_backtrack_sets_at_index
update_at_index-mark config context s_i next_sp pre_si s i p race h =
    let (b, found, h1) = >>=-eq-ok (has_reversible_race config context s_i next_sp i p) _ h in
    decided b h1
  where
    decided :
        (b : Bool)
        → (if b
            then (◌>>=◌ {B = StackItem × Bool}
                (candidates context pre_si i p pre_si.enabled_runners)
                (λ e. ok (schedule e pre_si, true)))
            else ok (pre_si, false))
          ≡ ok (s, race)
        → mark s ≡ mark pre_si
    decided true h =
        let (e, found, h1) = >>=-eq-ok (candidates context pre_si i p pre_si.enabled_runners) _ h in
        let same : schedule e pre_si ≡ s = cc in
        subst (λ (x : StackItem). mark x ≡ mark pre_si) same (schedule-mark e pre_si)
    decided false h =
        let same : pre_si ≡ s = cc in subst (λ (x : StackItem). mark x ≡ mark pre_si) same refl
