-- ===== src/Admin/Commit.antt =====
-- `commit` of libsplinter/src/admin/service/shared.rs: the pending change is carried out, by whether the
-- proposal is accepted, rejected or still voted on. This is the part of `AdminServiceShared` that
-- it touches; the storage, the orchestrator and the network are parameters.
use splinter.Prelude.{
  String, Bool, Option, none, some, List, [], ◌∷◌, ◌==◌, string_eq, if◌then◌else◌,
}
use splinter.Prelude.Exec.{Result, ok, err, Exec, ◌>>=◌, ◌>>◌, raise}
use splinter.Circuit.State.{CircuitDirectory, SplinterState}
use splinter.Admin.Proto.{
  SplinterNode, Circuit, CircuitProposal, Action, circuit_create_request, circuit_proposal_vote,
}
use splinter.Admin.Messages
use splinter.Admin.Messages.{MarshallingError, Converted, proposal_from_proto}
use splinter.Admin.Events.{
  AdminServiceEvent, proposal_submitted, proposal_vote, proposal_accepted, proposal_rejected,
}
use splinter.Admin.Validation.{CircuitProposalStatus, accepted, rejected, pending, check_approved}
use splinter.Admin.Shared.{CircuitProposalContext}
use splinter.Admin.OpenProposals.{
  ProposalRegistry, OpenProposalError, Opened, add_proposal, remove_proposal,
}
use splinter.Admin.Update.{CommitError, update_splinter_state}
use splinter.Admin.Ready.{ReadyState, ReadyError, Orchestrator, add_uninitialized_circuit}

pub data AdminSharedError : Type 0 where
  no_pending_changes unknown_action marshalling_failed send_failed : AdminSharedError
  commit_error : CommitError → AdminSharedError
  open_proposal_error : OpenProposalError → AdminSharedError
  invalid_message_format : MarshallingError → AdminSharedError
  not_ready : ReadyError → AdminSharedError

-- The events and the nodes that were sent MEMBER_READY, with their circuit, are the newest first.
pub record CommitState : Type 0 where
  pub node_id : String
  pub pending_changes : Option CircuitProposalContext
  pub open_proposals : ProposalRegistry
  pub splinter_state : SplinterState
  pub ready : ReadyState
  pub events : List (String × AdminServiceEvent)
  pub member_ready : List (String × String)

pub record Environment : Type 0 where
  pub can_store : CircuitDirectory → Bool
  pub can_write : ProposalRegistry → Bool
  pub orchestrator : Orchestrator
  -- whether there is a network sender, and its messages can be written
  pub has_sender : Bool
  pub can_encode : Bool
  pub can_send : List (String × String) → String → Bool

abbrev pub Step : Type 0 → Type 0
Step A = Exec CommitState AdminSharedError A

abbrev pub map_error :
    {E A : Type 0} → (E → AdminSharedError) → Result E A → Result AdminSharedError A
map_error f (ok a) = ok a
map_error f (err e) = err (f e)

abbrev pub convert : CircuitProposal → Step Messages.CircuitProposal
convert p s = (map_error invalid_message_format (proposal_from_proto p), s)

abbrev pub send_event : String → AdminServiceEvent → Step (Unit {0})
send_event management_type e s = (ok tt, record s { events = (management_type, e) ∷ s.events })

module _ (env : Environment) where
  abbrev pub update_state : Circuit → Step (Unit {0})
  update_state c s =
      let r = update_splinter_state env.can_store s.node_id c s.splinter_state in
      (map_error commit_error r.0, record s { splinter_state = r.1 })

  abbrev pub with_registry : Opened × ProposalRegistry → Step (Unit {0})
  with_registry (result, r) s = (
    elim result [ ok o ↦ ok tt | err e ↦ err (open_proposal_error e) ],
    record s { open_proposals = r },
  )

  unfoldable pub drop_proposal : String → Step (Unit {0})
  drop_proposal id s = with_registry (remove_proposal env.can_write id s.open_proposals) s

  unfoldable pub keep_proposal : CircuitProposal → Step (Unit {0})
  keep_proposal p s = with_registry (add_proposal env.can_write p s.open_proposals) s

  -- MEMBER_READY goes to each member but this node
  unfoldable pub send_ready : String → List SplinterNode → Step (Unit {0})
  send_ready circuit_id [] s = (ok tt, s)
  send_ready circuit_id (m ∷ ms) s =
      let rest = send_ready circuit_id ms in
      if m.node_id == s.node_id
      then rest s
      else if env.can_send s.member_ready m.node_id
      then rest (record s { member_ready = (circuit_id, m.node_id) ∷ s.member_ready })
      else (err send_failed, s)

  abbrev pub announce_ready : Circuit → Step (Unit {0})
  announce_ready c s =
      if env.has_sender
      then (if env.can_encode
          then send_ready c.circuit_id c.members s
          else (err marshalling_failed, s))
      else (ok tt, s)

  abbrev pub add_uninitialized : CircuitProposal → Step (Unit {0})
  add_uninitialized p s =
      let r = add_uninitialized_circuit env.orchestrator p s.ready in
      (map_error not_ready r.0, record s { ready = r.1 })

  abbrev pub announce_accepted : CircuitProposalContext → Step (Unit {0})
  announce_accepted context = do
    let p = context.circuit_proposal
    let c = p.circuit_proposal
    message ← convert p
    send_event c.circuit_management_type (proposal_accepted message context.signer_public_key)
    announce_ready c
    add_uninitialized p

  unfoldable pub commit_accepted : CircuitProposalContext → Step (Unit {0})
  commit_accepted context = do
    update_state context.circuit_proposal.circuit_proposal
    drop_proposal context.circuit_proposal.circuit_id
    announce_accepted context

  -- the event of a proposal that is still voted on
  abbrev pub announce_pending : Action → CircuitProposalContext → Step (Unit {0})
  announce_pending circuit_create_request context = do
    let p = context.circuit_proposal
    message ← convert p
    send_event p.circuit_proposal.circuit_management_type (proposal_submitted message)
  announce_pending circuit_proposal_vote context = do
    let p = context.circuit_proposal
    message ← convert p
    send_event p.circuit_proposal.circuit_management_type
        (proposal_vote message context.signer_public_key)
  announce_pending _ context = raise unknown_action

  unfoldable pub commit_pending : CircuitProposalContext → Step (Unit {0})
  commit_pending context = do
    keep_proposal context.circuit_proposal
    announce_pending context.action context

  unfoldable pub commit_rejected : CircuitProposalContext → Step (Unit {0})
  commit_rejected context = do
    let p = context.circuit_proposal
    drop_proposal p.circuit_id
    message ← convert p
    send_event p.circuit_proposal.circuit_management_type
        (proposal_rejected message context.signer_public_key)

  abbrev pub commit_by : CircuitProposalStatus → CircuitProposalContext → Step (Unit {0})
  commit_by accepted context = commit_accepted context
  commit_by pending context = commit_pending context
  commit_by rejected context = commit_rejected context

  abbrev pub commit_change : Option CircuitProposalContext → Step (Unit {0})
  commit_change none s = (err no_pending_changes, s)
  commit_change (some context) s =
      commit_by (check_approved context.circuit_proposal) context
        (record s { pending_changes = none })

  unfoldable pub commit : Step (Unit {0})
  commit s = commit_change s.pending_changes s
