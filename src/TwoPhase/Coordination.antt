-- ===== src/TwoPhase/Coordination.antt =====
-- The coordinator's part of libsplinter/src/consensus/two_phase/mod.rs: starting, completing and
-- timing out a proposal. The clock's reading `now` is an argument.
use splinter.Prelude.{ℕ, Bool, false, List, any, ◌==◌, bytes_eq, if◌then◌else◌}
use splinter.Prelude.Exec.{ok, ◌>>=◌, ◌>>◌, pure}
use splinter.TwoPhase.Timing.{check_expired, start_timeout, stop_timeout}
use splinter.TwoPhase.Model.{
  ProposalId, ProposalResult, unset_result, apply, reject, result_message, TwoPhaseProposal, State,
  idle, awaiting_proposal, evaluating_proposal, TwoPhaseEngine, check_proposal, accept_proposal,
  reject_proposal, broadcast, World, Env, Action, modify, or_protobuf_error, try_call, call,
}

abbrev pub set_state : State → TwoPhaseEngine → TwoPhaseEngine
set_state s e = record e { state = s }

abbrev pub evaluates : State → ProposalId → Bool
evaluates idle pid = false
evaluates awaiting_proposal pid = false
evaluates (evaluating_proposal p) pid = p.proposal_id == pid

unfoldable pub evaluating : TwoPhaseEngine → ProposalId → Bool
evaluating e pid = evaluates e.state pid

abbrev pub in_backlog : ProposalId → List TwoPhaseProposal → Bool
in_backlog pid = any (λ (p : TwoPhaseProposal). p.proposal_id == pid)

abbrev pub stop_coordination : TwoPhaseEngine → TwoPhaseEngine
stop_coordination e = record e {
  state = idle;
  coordinator_timeout = stop_timeout e.coordinator_timeout;
}

abbrev pub start_evaluation : TwoPhaseProposal → ℕ → TwoPhaseEngine → TwoPhaseEngine
start_evaluation p now e = record e {
  state = evaluating_proposal p;
  coordinator_timeout = start_timeout now e.coordinator_timeout;
}

module _ (env : Env) where
  -- the part after the `match` on the result
  unfoldable pub announce_result : ProposalId → ProposalResult → Action (Unit {0})
  announce_result pid r = do
    modify stop_coordination
    bytes ← or_protobuf_error (env.write_message (result_message pid r))
    call env (broadcast bytes)

  unfoldable pub complete_coordination : ProposalId → ProposalResult → Action (Unit {0})
  complete_coordination pid apply = do call env (accept_proposal pid); announce_result pid apply
  complete_coordination pid reject = do call env (reject_proposal pid); announce_result pid reject
  complete_coordination pid unset_result = pure tt

  unfoldable pub start_coordination : TwoPhaseProposal → ℕ → Action (Unit {0})
  start_coordination p now = do
    checked ← try_call env (check_proposal p.proposal_id)
    if checked then modify (start_evaluation p now) else complete_coordination p.proposal_id reject

  abbrev pub abort_evaluated : State → ℕ → Action (Unit {0})
  abort_evaluated idle now w = (ok tt, w)
  abort_evaluated awaiting_proposal now w = (ok tt, w)
  abort_evaluated (evaluating_proposal p) now w =
      let (t, is_expired) = check_expired now w.engine.coordinator_timeout in
      let w' : World = record w { engine = record w.engine { coordinator_timeout = t } } in
      if is_expired then complete_coordination p.proposal_id reject w' else (ok tt, w')

  unfoldable pub abort_proposal_if_timed_out : ℕ → Action (Unit {0})
  abort_proposal_if_timed_out now w = abort_evaluated w.engine.state now w
