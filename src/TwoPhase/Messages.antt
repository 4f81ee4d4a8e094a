-- ===== src/TwoPhase/Messages.antt =====
-- `handle_consensus_msg` of libsplinter/src/consensus/two_phase/mod.rs.
use splinter.Prelude.{
  Bool, true, false, Option, none, some, List, [], ◌∷◌, ◌++◌, ◌==◌, bytes_eq, take_first,
  if◌then◌else◌,
}
use splinter.Prelude.Exec.{ok, ◌>>=◌, ◌>>◌, pure}
use splinter.Prelude.Sets
use splinter.Prelude.Sets.{set_eq}
use splinter.TwoPhase.Model.{
  PeerId, ProposalId, ConsensusMessage, TwoPhaseMessage, MessageType, unset_type,
  proposal_verification_request, proposal_verification_response, proposal_result,
  VerificationResponse, unset_verification_response, verified, failed, ProposalResult, unset_result,
  apply, reject, TwoPhaseProposal, State, idle, awaiting_proposal, evaluating_proposal,
  TwoPhaseEngine, check_proposal, accept_proposal, reject_proposal, Env, Action, modify,
  or_protobuf_error, call,
}
use splinter.TwoPhase.Coordination.{set_state, evaluating, complete_coordination}

abbrev pub push_request : ProposalId → TwoPhaseEngine → TwoPhaseEngine
push_request pid e = record e {
  verification_request_backlog = e.verification_request_backlog ++ pid ∷ [];
}

-- The proposal leaves the backlog and is evaluated.
abbrev pub evaluate_from_backlog :
    TwoPhaseProposal → List TwoPhaseProposal → TwoPhaseEngine → TwoPhaseEngine
evaluate_from_backlog p rest e = record e { state = evaluating_proposal p; proposal_backlog = rest }

unfoldable pub add_verified_peer : PeerId → TwoPhaseProposal → TwoPhaseProposal
add_verified_peer id p = record p { peers_verified = Sets.insert id p.peers_verified }

-- another proposal is being evaluated
abbrev pub occupied : State → ProposalId → Bool
occupied idle pid = false
occupied awaiting_proposal pid = false
occupied (evaluating_proposal p) pid = if p.proposal_id == pid then false else true

abbrev pub has_id : ProposalId → TwoPhaseProposal → Bool
has_id pid p = p.proposal_id == pid

abbrev pub reset_if_evaluating : ProposalId → TwoPhaseEngine → TwoPhaseEngine
reset_if_evaluating pid e = if evaluating e pid then set_state idle e else e

module _ (env : Env) where
  abbrev pub check_backlogged :
      ProposalId → Option (TwoPhaseProposal × List TwoPhaseProposal) → Action (Unit {0})
  check_backlogged pid none = modify (push_request pid)
  check_backlogged pid (some (p, rest)) = do
    call env (check_proposal pid)
    modify (evaluate_from_backlog p rest)

  unfoldable pub verification_request : ProposalId → Action (Unit {0})
  verification_request pid w =
      if occupied w.engine.state pid
      then modify (push_request pid) w
      else check_backlogged pid (take_first (has_id pid) w.engine.proposal_backlog) w

  abbrev pub count_verified : ProposalId → PeerId → State → Action (Unit {0})
  count_verified pid origin idle = pure tt
  count_verified pid origin awaiting_proposal = pure tt
  count_verified pid origin (evaluating_proposal p) = do
    let p' = add_verified_peer origin p
    modify (set_state (evaluating_proposal p'))
    if set_eq p'.peers_verified p'.required_verifiers
        then complete_coordination env pid apply
        else pure tt

  abbrev pub respond : ProposalId → PeerId → VerificationResponse → Action (Unit {0})
  respond pid origin verified w = count_verified pid origin w.engine.state w
  respond pid origin failed w = complete_coordination env pid reject w
  respond pid origin unset_verification_response w = (ok tt, w)

  unfoldable pub verification_response :
      ProposalId → PeerId → VerificationResponse → Action (Unit {0})
  verification_response pid origin r w =
      if evaluating w.engine pid then respond pid origin r w else (ok tt, w)

  unfoldable pub receive_result : ProposalId → ProposalResult → Action (Unit {0})
  receive_result pid apply w =
      if evaluating w.engine pid
      then (do call env (accept_proposal pid); modify (set_state idle)) w
      else (ok tt, w)
  receive_result pid reject w =
      (do call env (reject_proposal pid); modify (reset_if_evaluating pid)) w
  receive_result pid unset_result w = (ok tt, w)

  abbrev pub dispatch_message : MessageType → TwoPhaseMessage → PeerId → Action (Unit {0})
  dispatch_message proposal_verification_request m origin = verification_request m.proposal_id
  dispatch_message proposal_verification_response m origin =
      verification_response m.proposal_id origin m.verification_response
  dispatch_message proposal_result m origin = receive_result m.proposal_id m.result
  dispatch_message unset_type m origin = pure tt

  unfoldable pub handle_consensus_msg : ConsensusMessage → Action (Unit {0})
  handle_consensus_msg msg = do
    m ← or_protobuf_error (env.parse_message msg.message)
    dispatch_message m.message_type m msg.origin_id
