-- ===== src/Coordinator/Synchronized.antt =====
-- The live process has run what the trace of the model says.
use deep_debug.Prelude.{
  ℕ, suc, ◌==◌, ◌≡◌, refl, sym, ap, ◌∙◌, Bool-cases, ==-eq, inl, inr, List, [], ◌∷◌, ◌++◌, some,
  length, get_elem?, if◌then◌else◌, Result, ok, err, or_fail, or_fail-eq-ok, >>=-eq-ok,
  out_of_range, executor_mismatch, execution_error, null_pointer, assertion_failed, arith, subst,
}
use deep_debug.Transition.{Transition, get_executor}
use deep_debug.Sequence.{consume_into_subsequence}
use deep_debug.Program.{
  Program, PendingTransitions, model_execution_of, restore_model_at_depth, restore_next_steps,
  runner_to_index_from_top, consume_trace, set_transition,
}
use deep_debug.Program.Rollback.{IsKeyed, IsKeyed-assign, model_execution_of-Executes}
use deep_debug.Coordinator.{Coordinator}
use deep_debug.Coordinator.Registry.{Mailbox, Memory, get_callback_for, default_registry}
use deep_debug.Coordinator.Session.{
  ProcessSource, Session, current_program_model, get_pending_transition_for, replay,
  assign_new_process_handle, start_session, follow_mailbox, execute_runner, return_to_depth,
}
use deep_debug.Coordinator.Kept.{Kept}
use deep_debug.Coordinator.Kept.Callbacks.{callback-Keeps}

replay-append :
    {Live : Type 0}
    → (source : ProcessSource Live) (trace : List Transition) (t : Transition)
      (first live last : Live) (mb : Mailbox)
    → replay source trace first ≡ ok live
    → source.execute_runner (get_executor t) live ≡ ok (last, mb)
    → replay source (trace ++ t ∷ []) first ≡ ok last
unfolding replay
replay-append source [] t first live last mb h e =
    let same : first ≡ live = cc h in rw (same, e) refl
replay-append source (u ∷ trace) t first live last mb h e =
    let (r, ran, rest) = >>=-eq-ok (source.execute_runner (get_executor u) first) _ h in
    rw ran (replay-append source trace t r.0 live last mb rest e)

model_execution_of-executor :
    (r : ℕ) (npo : Transition) (p q : Program)
    → model_execution_of r npo p ≡ ok q
    → r ≡ get_executor npo
unfolding model_execution_of
model_execution_of-executor r npo p q h = elim (Bool-cases (r == get_executor npo)) [
  | inl hit ↦ ==-eq r (get_executor npo) hit
  | inr miss ↦ let stuck : Result.err executor_mismatch ≡ ok q = rw miss at h in cc stuck
]

restore_next_steps-IsKeyed :
    (indices : List (ℕ × ℕ)) (trace : List Transition) (steps steps' : PendingTransitions)
    → IsKeyed steps
    → restore_next_steps indices trace steps ≡ ok steps'
    → IsKeyed steps'
unfolding restore_next_steps
restore_next_steps-IsKeyed [] trace steps steps' k h =
    let same : steps ≡ steps' = cc h in subst IsKeyed same k
restore_next_steps-IsKeyed ((p, i) ∷ rest) trace steps steps' k h =
    let (t, found, made) = >>=-eq-ok (or_fail (get_elem? trace i) out_of_range) _ h in
    restore_next_steps-IsKeyed rest trace (set_transition t steps) steps'
      (IsKeyed-assign (get_executor t) t steps refl k) made

restore_model_at_depth-IsKeyed :
    (n : ℕ) (p q : Program)
    → IsKeyed p.next_steps
    → restore_model_at_depth n p ≡ ok q
    → IsKeyed q.next_steps
unfolding restore_model_at_depth
restore_model_at_depth-IsKeyed n p q k h =
    let (steps, again, h₁) =
      >>=-eq-ok (restore_next_steps (runner_to_index_from_top n p.trace) p.trace p.next_steps) _
        h in
    let (s, cut, made) = >>=-eq-ok (consume_into_subsequence (suc n) p.state_seq) _ h₁ in
    let shape : record { state_seq = s; trace = consume_trace n p.trace; next_steps = steps } ≡ q =
      cc made in
    subst (λ (x : Program). IsKeyed x.next_steps) shape
      (restore_next_steps-IsKeyed (runner_to_index_from_top n p.trace) p.trace p.next_steps steps k
        again)

-- What `follow_mailbox` does to the model.
pub record Followed (r : ℕ) (c d : Coordinator) : Type 0 where
  pub ran : Transition
  pub executor : get_executor ran ≡ r
  pub trace : d.current_program_model.trace ≡ c.current_program_model.trace ++ ran ∷ []
  pub keyed : IsKeyed d.current_program_model.next_steps

follow_mailbox-Followed :
    (m : Memory) (r : ℕ) (mb : Mailbox) (c d : Coordinator)
    → IsKeyed c.current_program_model.next_steps
    → follow_mailbox (default_registry m) r mb c ≡ ok d
    → Followed r c d
unfolding follow_mailbox
follow_mailbox-Followed m r mb c d k h =
    let (callback, found, h₁) =
      >>=-eq-ok (or_fail (get_callback_for mb.type (default_registry m)) execution_error) _ h in
    let (x, called, h₂) = >>=-eq-ok (callback r mb c) _ h₁ in
    let (npo, translated, h₃) = >>=-eq-ok (or_fail x.1 execution_error) _ h₂ in
    let (q, executed, made) = >>=-eq-ok (model_execution_of r npo x.0.current_program_model) _ h₃ in
    let kept : Kept c x.0 =
      callback-Keeps m mb.type callback
        (or_fail-eq-ok (get_callback_for mb.type (default_registry m)) execution_error found) r mb c
        x.0 x.1 called in
    let e = model_execution_of-Executes r npo x.0.current_program_model q executed in
    let same = model_execution_of-executor r npo x.0.current_program_model q executed in
    let keys = kept.keyed k in
    let shape : record x.0 { current_program_model = q } ≡ d = cc made in
    subst (Followed r c) shape (record {
      ran = e.ran;
      executor = keys (get_executor npo) e.ran e.was_pending ∙ sym same;
      trace = e.trace ∙ ap (λ l. l ++ e.ran ∷ []) kept.trace;
      keyed =
          subst IsKeyed (sym e.next_steps)
            (IsKeyed-assign (get_executor npo) npo x.0.current_program_model.next_steps refl keys);
    })

length-checked : (len n u : ℕ) → (if len == n then ok n else err assertion_failed) ≡ ok u → len ≡ n
length-checked len n u h = ground arith

module _ {Live : Type 0} (source : ProcessSource Live) where
  -- A new process that runs the trace again comes to where the live process is.
  pub record IsSynchronized (s : Session Live) : Type 0 where
    pub first : Live
    pub live : Live
    pub started : source.force_new_process ≡ ok first
    pub handle : s.current_process_handle ≡ some live
    pub replayed : replay source (current_program_model s).trace first ≡ ok live
    pub keyed : IsKeyed (current_program_model s).next_steps

  pub start_session-IsSynchronized :
      (c : Coordinator) (s : Session Live)
      → c.current_program_model.trace ≡ []
      → IsKeyed c.current_program_model.next_steps
      → start_session source c ≡ ok s
      → IsSynchronized s
  unfolding start_session replay assign_new_process_handle
  start_session-IsSynchronized c s e k h =
      let (live, started, made) = >>=-eq-ok source.force_new_process _ h in
      let shape : record { coordinator = c; current_process_handle = some live } ≡ s = cc made in
      subst IsSynchronized shape (record {
        first = live;
        live = live;
        started = started;
        handle = refl;
        replayed = rw e refl;
        keyed = k;
      })

  pub execute_runner-Followed :
      (r : ℕ) (s s' : Session Live)
      → IsKeyed (current_program_model s).next_steps
      → execute_runner source r s ≡ ok s'
      → Followed r s.coordinator s'.coordinator
  unfolding execute_runner
  execute_runner-Followed r s s' k h =
      let (live, alive, h₁) = >>=-eq-ok (or_fail s.current_process_handle execution_error) _ h in
      let (logged, _, h₂) =
        >>=-eq-ok (or_fail (get_pending_transition_for r (current_program_model s)) null_pointer) _
          h₁ in
      let (x, ran, h₃) = >>=-eq-ok (source.execute_runner r live) _ h₂ in
      let (d, followed, made) =
        >>=-eq-ok (follow_mailbox (default_registry (source.memory x.0)) r x.1 s.coordinator) _
          h₃ in
      let shape : record { coordinator = d; current_process_handle = some x.0 } ≡ s' = cc made in
      subst (λ (y : Session Live). Followed r s.coordinator y.coordinator) shape
        (follow_mailbox-Followed (source.memory x.0) r x.1 s.coordinator d k followed)

  pub execute_runner-IsSynchronized :
      (r : ℕ) (s s' : Session Live)
      → IsSynchronized s
      → execute_runner source r s ≡ ok s'
      → IsSynchronized s'
  unfolding execute_runner
  execute_runner-IsSynchronized r s s' w h =
      let (live, alive, h₁) = >>=-eq-ok (or_fail s.current_process_handle execution_error) _ h in
      let (logged, _, h₂) =
        >>=-eq-ok (or_fail (get_pending_transition_for r (current_program_model s)) null_pointer) _
          h₁ in
      let (x, ran, h₃) = >>=-eq-ok (source.execute_runner r live) _ h₂ in
      let (d, followed, made) =
        >>=-eq-ok (follow_mailbox (default_registry (source.memory x.0)) r x.1 s.coordinator) _
          h₃ in
      let f = follow_mailbox-Followed (source.memory x.0) r x.1 s.coordinator d w.keyed followed in
      let same : some w.live ≡ some live =
        sym w.handle ∙ or_fail-eq-ok s.current_process_handle execution_error alive in
      let there : w.live ≡ live = cc same in
      let shape : record { coordinator = d; current_process_handle = some x.0 } ≡ s' = cc made in
      subst IsSynchronized shape (record {
        first = w.first;
        live = x.0;
        started = w.started;
        handle = refl;
        replayed = rw f.trace (
            replay-append source (current_program_model s).trace f.ran w.first w.live x.0 x.1
              w.replayed (rw (f.executor, there) ran));
        keyed = f.keyed;
      })

  pub return_to_depth-IsSynchronized :
      (n : ℕ) (s s' : Session Live)
      → IsKeyed (current_program_model s).next_steps
      → return_to_depth source n s ≡ ok s'
      → IsSynchronized s' × (length (current_program_model s').trace ≡ n)
  unfolding return_to_depth assign_new_process_handle
  return_to_depth-IsSynchronized n s s' k h =
      let (fresh, assigned, h₁) = >>=-eq-ok (assign_new_process_handle source s) _ h in
      let (first, started, assigned') = >>=-eq-ok source.force_new_process _ assigned in
      let begun : record s { current_process_handle = some first } ≡ fresh = cc assigned' in
      let (p, restored, h₂) =
        >>=-eq-ok (restore_model_at_depth n (current_program_model fresh)) _ h₁ in
      let (u, checked, h₃) =
        >>=-eq-ok (if length p.trace == n then ok n else err assertion_failed) _ h₂ in
      let (live, alive, h₄) = >>=-eq-ok (or_fail fresh.current_process_handle null_pointer) _ h₃ in
      let (last, replayed, made) = >>=-eq-ok (replay source p.trace live) _ h₄ in
      let handle : some first ≡ some live =
        ap (λ (x : Session Live). x.current_process_handle) begun
        ∙ or_fail-eq-ok fresh.current_process_handle null_pointer alive in
      let there : first ≡ live = cc handle in
      let shape : record {
        coordinator = record s.coordinator { current_program_model = p };
        current_process_handle = some last;
      }
          ≡ s' =
        cc made in
      let restored' : restore_model_at_depth n (current_program_model s) ≡ ok p =
        rw (← begun) at restored in
      subst (λ (x : Session Live). IsSynchronized x × (length (current_program_model x).trace ≡ n))
        shape
        (
          record {
            first = live;
            live = last;
            started = subst (λ x. source.force_new_process ≡ ok x) there started;
            handle = refl;
            replayed = replayed;
            keyed = restore_model_at_depth-IsKeyed n (current_program_model s) p k restored';
          },
          length-checked (length p.trace) n u checked,
        )
