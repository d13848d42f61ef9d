-- ===== src/Coordinator/Schedule.antt =====
-- What the coordinator promises: a schedule, the runners that have run since the start, and a live
-- process that has run it.
use deep_debug.Prelude.{
  ℕ, zero, suc, ◌==◌, leb, ◌<◌, ◌≡◌, refl, sym, ap, ◌∙◌, Bool-cases, Result-cases, inl, inr, List,
  [], ◌∷◌, ◌++◌, some, length, map, take, if◌then◌else◌, Result, ok, err, or_fail, ◌>>=◌, >>=-eq-ok,
  null_pointer, assertion_failed, arith, subst,
}
use deep_debug.Transition.{Transition, get_executor}
use deep_debug.Program.{
  Program, consume_trace, restore_model_at_depth, restore_next_steps, runner_to_index_from_top,
}
use deep_debug.Program.Rollback.{IsKeyed}
use deep_debug.Sequence.{consume_into_subsequence}
use deep_debug.Coordinator.{Coordinator}
use deep_debug.Coordinator.Session.{
  ProcessSource, Session, current_program_model, replay, assign_new_process_handle, start_session,
  execute_runner, return_to_depth,
}
use deep_debug.Coordinator.Synchronized.{
  IsSynchronized, start_session-IsSynchronized, execute_runner-Followed,
  execute_runner-IsSynchronized, return_to_depth-IsSynchronized,
}

map-append {ℓ} :
    {A B : Type ℓ} (f : A → B) (xs ys : List A) → map f (xs ++ ys) ≡ map f xs ++ map f ys
map-append f [] ys = refl
map-append f (x ∷ xs) ys = ap (◌∷◌ (f x)) (map-append f xs ys)

map-take {ℓ} :
    {A B : Type ℓ} (f : A → B) (n : ℕ) (xs : List A) → map f (take n xs) ≡ take n (map f xs)
map-take f zero xs = refl
map-take f (suc n) [] = refl
map-take f (suc n) (x ∷ xs) = ap (◌∷◌ (f x)) (map-take f n xs)

take-all {ℓ} : {A : Type ℓ} (n : ℕ) (xs : List A) → length xs < n → take n xs ≡ xs
take-all zero xs h = elim h [ ]
take-all (suc n) [] h = refl
take-all (suc n) (x ∷ xs) h = ap (◌∷◌ x) (take-all n xs (omega arith))

consume_trace-take : (n : ℕ) (trace : List Transition) → consume_trace n trace ≡ take n trace
unfolding consume_trace
consume_trace-take n trace = elim (Bool-cases (leb n (length trace))) [
  | inl within ↦ rw within refl
  | inr beyond ↦ rw beyond (sym (take-all n trace (ground arith)))
]

restore_model_at_depth-trace :
    (n : ℕ) (p q : Program) → restore_model_at_depth n p ≡ ok q → q.trace ≡ take n p.trace
unfolding restore_model_at_depth
restore_model_at_depth-trace n p q h =
    let (steps, again, h₁) =
      >>=-eq-ok (restore_next_steps (runner_to_index_from_top n p.trace) p.trace p.next_steps) _
        h in
    let (s, cut, made) = >>=-eq-ok (consume_into_subsequence (suc n) p.state_seq) _ h₁ in
    let shape : record { state_seq = s; trace = consume_trace n p.trace; next_steps = steps } ≡ q =
      cc made in
    ap (λ (x : Program). x.trace) (sym shape) ∙ consume_trace-take n p.trace

pub data Command : Type 0 where
  run : (runner_id : ℕ) → Command
  go_back : (n : ℕ) → Command

-- What a command does to the schedule.
abbrev pub promised : Command → List ℕ → List ℕ
promised (run r) schedule = schedule ++ r ∷ []
promised (go_back n) schedule = take n schedule

abbrev pub promised_all : List Command → List ℕ → List ℕ
promised_all [] schedule = schedule
promised_all (c ∷ commands) schedule = promised_all commands (promised c schedule)

module _ {Live : Type 0} (source : ProcessSource Live) where
  abbrev pub obey : Command → Session Live → Result (Session Live)
  obey (run r) s = execute_runner source r s
  obey (go_back n) s = return_to_depth source n s

  abbrev pub obey_all : List Command → Session Live → Result (Session Live)
  obey_all [] s = ok s
  obey_all (c ∷ commands) s = obey c s >>= obey_all commands

  -- A process that runs a schedule.
  abbrev pub run_schedule : List ℕ → Live → Result Live
  run_schedule [] live = ok live
  run_schedule (r ∷ schedule) live = source.execute_runner r live >>= λ x. run_schedule schedule x.0

  pub record Implements (schedule : List ℕ) (s : Session Live) : Type 0 where
    pub first : Live
    pub live : Live
    pub started : source.force_new_process ≡ ok first
    pub handle : s.current_process_handle ≡ some live
    pub process : run_schedule schedule first ≡ ok live
    pub model : map get_executor (current_program_model s).trace ≡ schedule
    pub keyed : IsKeyed (current_program_model s).next_steps

  replay-run_schedule :
      (trace : List Transition) (live : Live)
      → replay source trace live ≡ run_schedule (map get_executor trace) live
  unfolding replay
  replay-run_schedule [] live = refl
  replay-run_schedule (t ∷ trace) live =
      elim (Result-cases (source.execute_runner (get_executor t) live)) [
        | inr (e, failed) ↦ rw failed refl
        | inl (x, ran) ↦ rw ran (replay-run_schedule trace x.0)
      ]

  IsSynchronized-Implements :
      (s : Session Live)
      → IsSynchronized source s
      → Implements (map get_executor (current_program_model s).trace) s
  IsSynchronized-Implements s w = record {
    first = w.first;
    live = w.live;
    started = w.started;
    handle = w.handle;
    process = sym (replay-run_schedule (current_program_model s).trace w.first) ∙ w.replayed;
    model = refl;
    keyed = w.keyed;
  }

  Implements-IsSynchronized :
      (schedule : List ℕ) (s : Session Live) → Implements schedule s → IsSynchronized source s
  Implements-IsSynchronized schedule s w = record {
    first = w.first;
    live = w.live;
    started = w.started;
    handle = w.handle;
    replayed =
        replay-run_schedule (current_program_model s).trace w.first
        ∙ ap (λ x. run_schedule x w.first) w.model
        ∙ w.process;
    keyed = w.keyed;
  }

  return_to_depth-trace :
      (n : ℕ) (s s' : Session Live)
      → return_to_depth source n s ≡ ok s'
      → (current_program_model s').trace ≡ take n (current_program_model s).trace
  unfolding return_to_depth assign_new_process_handle
  return_to_depth-trace n s s' h =
      let (fresh, assigned, h₁) = >>=-eq-ok (assign_new_process_handle source s) _ h in
      let (first, started, assigned') = >>=-eq-ok source.force_new_process _ assigned in
      let begun : record s { current_process_handle = some first } ≡ fresh = cc assigned' in
      let (p, restored, h₂) =
        >>=-eq-ok (restore_model_at_depth n (current_program_model fresh)) _ h₁ in
      let (u, checked, h₃) =
        >>=-eq-ok (if length p.trace == n then ok n else err assertion_failed) _ h₂ in
      let (live, alive, h₄) = >>=-eq-ok (or_fail fresh.current_process_handle null_pointer) _ h₃ in
      let (last, replayed, made) = >>=-eq-ok (replay source p.trace live) _ h₄ in
      let shape : record {
        coordinator = record s.coordinator { current_program_model = p };
        current_process_handle = some last;
      }
          ≡ s' =
        cc made in
      ap (λ (x : Session Live). (current_program_model x).trace) (sym shape)
      ∙ restore_model_at_depth-trace n (current_program_model fresh) p restored
      ∙ ap (λ (x : Session Live). take n (current_program_model x).trace) (sym begun)

  obey-Implements :
      (c : Command) (schedule : List ℕ) (s s' : Session Live)
      → Implements schedule s
      → obey c s ≡ ok s'
      → Implements (promised c schedule) s'
  obey-Implements (run r) schedule s s' w h =
      let f = execute_runner-Followed source r s s' w.keyed h in
      let model : map get_executor (current_program_model s').trace ≡ schedule ++ r ∷ [] =
        ap (map get_executor) f.trace
        ∙ map-append get_executor (current_program_model s).trace (f.ran ∷ [])
        ∙ ap (λ x. x ++ get_executor f.ran ∷ []) w.model
        ∙ ap (λ x. schedule ++ x ∷ []) f.executor in
      subst (λ x. Implements x s') model
        (IsSynchronized-Implements s'
          (execute_runner-IsSynchronized source r s s' (Implements-IsSynchronized schedule s w) h))
  obey-Implements (go_back n) schedule s s' w h =
      let model : map get_executor (current_program_model s').trace ≡ take n schedule =
        ap (map get_executor) (return_to_depth-trace n s s' h)
        ∙ map-take get_executor n (current_program_model s).trace
        ∙ ap (take n) w.model in
      subst (λ x. Implements x s') model
        (IsSynchronized-Implements s' (return_to_depth-IsSynchronized source n s s' w.keyed h).0)

  -- Whatever sequence of `execute_runner` and `return_to_depth` a coordinator obeys, it implements
  -- the schedule that appends the runners and takes the prefixes: the trace of the model has these
  -- executors, and the live process has run that schedule from a new process.
  pub obey_all-Implements :
      (commands : List Command) (schedule : List ℕ) (s s' : Session Live)
      → Implements schedule s
      → obey_all commands s ≡ ok s'
      → Implements (promised_all commands schedule) s'
  obey_all-Implements [] schedule s s' w h =
      let same : s ≡ s' = cc h in subst (Implements schedule) same w
  obey_all-Implements (c ∷ commands) schedule s s' w h =
      let (next, obeyed, rest) = >>=-eq-ok (obey c s) _ h in
      obey_all-Implements commands (promised c schedule) next s'
        (obey-Implements c schedule s next w obeyed) rest

  pub start_session-Implements :
      (c : Coordinator) (s : Session Live)
      → c.current_program_model.trace ≡ []
      → IsKeyed c.current_program_model.next_steps
      → start_session source c ≡ ok s
      → Implements [] s
  unfolding start_session assign_new_process_handle
  start_session-Implements c s empty keyed h =
      let (live, started, made) = >>=-eq-ok source.force_new_process _ h in
      let shape : record { coordinator = c; current_process_handle = some live } ≡ s = cc made in
      let model : map get_executor (current_program_model s).trace ≡ [] =
        ap (λ (x : Session Live). map get_executor (current_program_model x).trace) (sym shape)
        ∙ ap (map get_executor) empty in
      subst (λ x. Implements x s) model
        (IsSynchronized-Implements s (start_session-IsSynchronized source c s empty keyed h))
