-- ===== src/Admin/Events.antt =====
-- The events of libsplinter/src/admin/service/messages.rs, and what `send_event` of
-- libsplinter/src/admin/service/shared.rs reads of them.
use splinter.Prelude.{String, Bytes}
use splinter.Admin.Messages

-- the key of the signer, where there is one
pub data AdminServiceEvent : Type 0 where
  proposal_submitted : Messages.CircuitProposal → AdminServiceEvent
  proposal_vote proposal_accepted proposal_rejected :
      Messages.CircuitProposal → Bytes → AdminServiceEvent
  circuit_ready : Messages.CircuitProposal → AdminServiceEvent

abbrev pub proposal_of : AdminServiceEvent → Messages.CircuitProposal
proposal_of (proposal_submitted p) = p
proposal_of (proposal_vote p key) = p
proposal_of (proposal_accepted p key) = p
proposal_of (proposal_rejected p key) = p
proposal_of (circuit_ready p) = p

abbrev pub management_type_of : AdminServiceEvent → String
management_type_of e = (proposal_of e).circuit.circuit_management_type
