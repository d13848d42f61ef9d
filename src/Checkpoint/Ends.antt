-- ===== src/Checkpoint/Ends.antt =====
-- Both ways to check a program end.
use deep_debug.Prelude.{
  ℕ, ◌+◌, ◌<◌, ◌^◌, ◌≡◌, ◌≢◌, refl, sym, ap, subst, List, [], none, some, ok, or_fail, >>=-eq-ok,
  null_pointer,
}
use deep_debug.Objects.Thread.{ThreadState}
use deep_debug.State.{State}
use deep_debug.State.Detached
use deep_debug.State.Detached.{no_objects}
use deep_debug.Sequence.Creation.{from_state}
use deep_debug.Transition.{thread_start}
use deep_debug.Program.{Program, PendingTransitions, set_transition}
use deep_debug.Program.Start.{starting_from_main, starting_from}
use deep_debug.Program.Rollback.{IsKeyed, IsKeyed-assign}
use deep_debug.Coordinator.{Coordinator}
use deep_debug.Coordinator.Registry.{Mailbox, default_registry}
use deep_debug.Coordinator.Session.{
  ProcessSource, Session, start_session, assign_new_process_handle,
}
use deep_debug.Dpor.Search.{Configuration, verify_using}
use deep_debug.Dpor.Search.Termination.{verify_using-ne-none}
use deep_debug.Checkpoint.{
  Message, restore_recorded, empty_coordinator, set_callbacks, do_model_checking,
  do_model_checking_from_dmtcp_ckpt_file,
}
use deep_debug.Checkpoint.Pending.{restore_recorded-Kept}

start_session-coordinator :
    {Live : Type 0} (source : ProcessSource Live) (c : Coordinator) (s : Session Live)
    → start_session source c ≡ ok s
    → s.coordinator ≡ c
unfolding start_session assign_new_process_handle
start_session-coordinator source c s h =
    let (live, _, made) = >>=-eq-ok source.force_new_process _ h in
    let same : record { coordinator = c; current_process_handle = some live } ≡ s = cc made in
    ap (λ x. x.coordinator) (sym same)

nothing-IsKeyed : IsKeyed []
nothing-IsKeyed r t h = cc

starting_from-steps :
    (s : State) (first : PendingTransitions) (p : Program)
    → starting_from s first ≡ ok p
    → first ≡ p.next_steps
unfolding starting_from
starting_from-steps s first p h =
    let (seq, _, made) = >>=-eq-ok (from_state s) _ h in
    let same : record { state_seq = seq; trace = []; next_steps = first } ≡ p = cc made in
    ap (λ (x : Program). x.next_steps) same

starting_from_main-IsKeyed : (p : Program) → starting_from_main ≡ ok p → IsKeyed p.next_steps
unfolding starting_from_main
starting_from_main-IsKeyed p h =
    let (added, _, begun) =
      >>=-eq-ok (Detached.add_runner ThreadState.running no_objects)
        (λ added.
          starting_from (Detached.to_state added.0) (set_transition (thread_start added.1) []))
        h in
    let first = set_transition (thread_start added.1) [] in
    subst IsKeyed (starting_from-steps (Detached.to_state added.0) first p begun)
      (IsKeyed-assign added.1 (thread_start added.1) [] refl nothing-IsKeyed)

module _ {Live : Type 0} (source : ProcessSource Live) (config : Configuration) (fuel : ℕ)
    (enough : 21 ^ (config.maximum_total_execution_depth + 2) < fuel) where
  main_ends : do_model_checking source config fuel ≢ ok none
  unfolding do_model_checking
  main_ends h =
      let (p, begun, h₁) = >>=-eq-ok starting_from_main _ h in
      let c : Coordinator = record { current_program_model = p; system_address_mapping = [] } in
      let (s, started, made) = >>=-eq-ok (start_session source c) _ h₁ in
      let same = start_session-coordinator source c s started in
      let keyed =
        subst (λ (x : Coordinator). IsKeyed x.current_program_model.next_steps) (sym same)
          (starting_from_main-IsKeyed p begun) in
      let used_up : verify_using source config set_callbacks fuel s ≡ none = cc made in
      verify_using-ne-none source config set_callbacks fuel s keyed enough used_up

  checkpoint_ends :
      (mailboxes : ℕ → Mailbox) (messages : List Message)
      → do_model_checking_from_dmtcp_ckpt_file source config fuel mailboxes messages ≢ ok none
  unfolding do_model_checking_from_dmtcp_ckpt_file
  checkpoint_ends mailboxes messages h =
      let (s, started, h₁) = >>=-eq-ok (start_session source empty_coordinator) _ h in
      let (live, _, h₂) = >>=-eq-ok (or_fail s.current_process_handle null_pointer) _ h₁ in
      let registry = default_registry (source.memory live) in
      let (c, restored, made) =
        >>=-eq-ok (restore_recorded registry mailboxes messages s.coordinator) _ h₂ in
      let same = start_session-coordinator source empty_coordinator s started in
      let keyed =
        (restore_recorded-Kept (source.memory live) mailboxes messages s.coordinator c
            restored).keyed
          (subst (λ (x : Coordinator). IsKeyed x.current_program_model.next_steps) (sym same)
            nothing-IsKeyed) in
      let used_up : verify_using source config set_callbacks fuel (record s { coordinator = c })
          ≡ none =
        cc made in
      verify_using-ne-none source config set_callbacks fuel (record s { coordinator = c }) keyed
        enough used_up

  -- With more rounds than 21 to the power of 2 more than the largest depth, neither the search from
  -- `main` nor the one from a checkpoint, whatever has been recorded and whatever the mailboxes
  -- hold, uses up its rounds: if nothing is thrown before it, it ends with an outcome.
  pub checks_end :
      (do_model_checking source config fuel ≢ ok none)
      × ((mailboxes : ℕ → Mailbox) (messages : List Message)
          → do_model_checking_from_dmtcp_ckpt_file source config fuel mailboxes messages ≢ ok none)
  checks_end = (main_ends, checkpoint_ends)
