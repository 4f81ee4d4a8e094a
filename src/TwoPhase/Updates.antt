-- ===== src/TwoPhase/Updates.antt =====
-- `handle_proposal_update` and `handle_proposal` of libsplinter/src/consensus/two_phase/mod.rs.
use splinter.Prelude.{ℕ, Option, none, some, List, [], ◌∷◌, ◌++◌, ◌==◌, bytes_eq, if◌then◌else◌}
use splinter.Prelude.Exec.{ok, ◌>>=◌, ◌>>◌, pure}
use splinter.Prelude.Sets
use splinter.Prelude.Sets.{from_list}
use splinter.TwoPhase.Order.{minimum}
use splinter.TwoPhase.Model.{
  PeerId, ProposalId, Proposal, ProposalUpdate, proposal_created, proposal_received, proposal_valid,
  proposal_invalid, proposal_accepted, proposal_accept_failed, shutdown, verified, failed,
  VerificationResponse, reject, request_message, response_message, TwoPhaseProposal, State, idle,
  awaiting_proposal, evaluating_proposal, TwoPhaseEngine, reject_proposal, send_to, broadcast, Env,
  Action, modify, or_protobuf_error, call,
}
use splinter.TwoPhase.Coordination.{
  set_state, in_backlog, complete_coordination, start_coordination,
}
use splinter.TwoPhase.Messages.{add_verified_peer}

-- `TwoPhaseProposal::new`
unfoldable pub new_proposal : ProposalId → PeerId → List PeerId → TwoPhaseProposal
new_proposal pid coordinator verifiers = record {
  proposal_id = pid;
  coordinator_id = coordinator;
  peers_verified = [];
  required_verifiers = verifiers;
}

abbrev pub push_proposal : TwoPhaseProposal → TwoPhaseEngine → TwoPhaseEngine
push_proposal p e = record e { proposal_backlog = e.proposal_backlog ++ p ∷ [] }

abbrev pub await_to_idle : State → State
await_to_idle idle = idle
await_to_idle awaiting_proposal = idle
await_to_idle (evaluating_proposal p) = evaluating_proposal p

module _ (env : Env) where
  -- the peers that must verify: those of the consensus data, or all of them
  unfoldable pub verifiers_of : Proposal → Action (List PeerId)
  verifiers_of proposal w = elim proposal.consensus_data [
    | [] ↦ (ok (Sets.insert w.engine.id w.engine.peers), w)
    | b ∷ bs ↦
        (do required ← or_protobuf_error (env.parse_verifiers (b ∷ bs)); pure (from_list required))
          w
  ]

  abbrev pub place_proposal : TwoPhaseProposal → ℕ → State → Action (Unit {0})
  place_proposal p now (evaluating_proposal current) w =
      if p.proposal_id == current.proposal_id then (ok tt, w) else modify (push_proposal p) w
  place_proposal p now idle w =
      if w.engine.id == p.coordinator_id
      then start_coordination env p now w
      else modify (push_proposal p) w
  place_proposal p now awaiting_proposal w =
      if w.engine.id == p.coordinator_id
      then start_coordination env p now w
      else modify (push_proposal p) w

  unfoldable pub assign_coordinator :
      ProposalId → List PeerId → ℕ → Option PeerId → Action (Unit {0})
  assign_coordinator pid verifiers now none w =
      (do call env (reject_proposal pid); modify (set_state idle)) w
  assign_coordinator pid verifiers now (some coordinator) w =
      place_proposal (new_proposal pid coordinator verifiers) now w.engine.state w

  unfoldable pub handle_proposal : Proposal → ℕ → Action (Unit {0})
  handle_proposal proposal now w =
      if in_backlog proposal.id w.engine.proposal_backlog
      then (ok tt, w)
      else (do
        verifiers ← verifiers_of proposal
        assign_coordinator proposal.id verifiers now (minimum verifiers))
          w

  abbrev pub respond_to_coordinator : TwoPhaseProposal → VerificationResponse → Action (Unit {0})
  respond_to_coordinator p r = do
    bytes ← or_protobuf_error (env.write_message (response_message p.proposal_id r))
    call env (send_to p.coordinator_id bytes)

  abbrev pub broadcast_request : TwoPhaseProposal → Action (Unit {0})
  broadcast_request p = do
    bytes ← or_protobuf_error (env.write_message (request_message p.proposal_id))
    call env (broadcast bytes)

  abbrev pub request_verification : TwoPhaseProposal → Action (Unit {0})
  request_verification p w =
      (do
        modify (set_state (evaluating_proposal (add_verified_peer w.engine.id p)))
        broadcast_request p)
        w

  -- `pid` is the id of the update
  abbrev pub proposal_is_valid : ProposalId → State → Action (Unit {0})
  proposal_is_valid pid idle w = (ok tt, w)
  proposal_is_valid pid awaiting_proposal w = (ok tt, w)
  proposal_is_valid pid (evaluating_proposal p) w =
      if p.proposal_id == pid
      then (if w.engine.id == p.coordinator_id
          then request_verification p w
          else respond_to_coordinator p verified w)
      else (ok tt, w)

  abbrev pub proposal_is_invalid : ProposalId → State → Action (Unit {0})
  proposal_is_invalid pid idle w = (ok tt, w)
  proposal_is_invalid pid awaiting_proposal w = (ok tt, w)
  proposal_is_invalid pid (evaluating_proposal p) w =
      if p.proposal_id == pid
      then (if w.engine.id == p.coordinator_id
          then complete_coordination env pid reject w
          else respond_to_coordinator p failed w)
      else (ok tt, w)

  unfoldable pub handle_proposal_update : ProposalUpdate → ℕ → Action (Unit {0})
  handle_proposal_update (proposal_created none) now w =
      (ok tt, record w { engine = set_state (await_to_idle w.engine.state) w.engine })
  handle_proposal_update (proposal_created (some proposal)) now w = handle_proposal proposal now w
  handle_proposal_update (proposal_received proposal peer) now w = handle_proposal proposal now w
  handle_proposal_update (proposal_valid pid) now w = proposal_is_valid pid w.engine.state w
  handle_proposal_update (proposal_invalid pid) now w = proposal_is_invalid pid w.engine.state w
  handle_proposal_update (proposal_accepted pid) now w = (ok tt, w)
  handle_proposal_update (proposal_accept_failed pid reason) now w = (ok tt, w)
  handle_proposal_update shutdown now w = (ok tt, w)
