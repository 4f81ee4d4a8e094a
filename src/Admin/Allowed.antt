-- ===== src/Admin/Allowed.antt =====
-- The changes that `propose_change` of libsplinter/src/admin/service/shared.rs may make pending.
use splinter.Prelude.{String, ◌≡◌, true, false, some, ◌==◌, string_eq, any, ◌⊎◌, map, [], ◌∷◌, ◌++◌}
use splinter.Prelude.Exec.{Result, ok, err}
use splinter.Prelude.Map.{lookup, contains_key}
use splinter.Admin.Proto.{
  create, VoteRecord, SplinterNode, CircuitManagementPayload, CircuitProposal, Circuit,
  CircuitProposalVote, Header, circuit_create_request, circuit_proposal_vote,
}
use splinter.Admin.Circuits.{IsValidCircuit}
use splinter.Admin.Shared.{AdminServiceShared, Services, AdminError}

-- The rules that let a node propose the circuit.
pub record IsCreation (services : Services) (s : AdminServiceShared) (c : Circuit) (header : Header)
    : Type 0 where
  pub valid : IsValidCircuit s.node_id c
  pub unproposed : contains_key c.circuit_id s.open_proposals ≡ false
  pub unused : services.has_circuit c.circuit_id ≡ false
  pub key : services.keys.node_of_key header.requester ≡ ok (some header.requester_node_id)

-- The rules that let a node vote on the open proposal `p`.
pub record IsVote (services : Services) (s : AdminServiceShared) (vote : CircuitProposalVote)
    (header : Header) (p : CircuitProposal) : Type 0 where
  pub opened : lookup vote.circuit_id s.open_proposals ≡ some p
  pub other : (p.requester_node_id == header.requester_node_id) ≡ false
  pub first : any (λ (v : VoteRecord). v.voter_node_id == header.requester_node_id) p.votes ≡ false
  pub same_circuit : (p.circuit_hash == vote.circuit_hash) ≡ true
  pub key : services.keys.node_of_key header.requester ≡ ok (some header.requester_node_id)

-- The proposal is a new one for the payload's circuit, with the circuit's hash, by the requester
-- that the header names and without votes; or an open one whose votes end in the one more.
abbrev pub IsAllowed :
    Services → AdminServiceShared → CircuitManagementPayload → Header → CircuitProposal → Type 0
IsAllowed services s payload header proposal =
    ((hash : String) × (services.hash_circuit payload.circuit_create_request ≡ some hash)
      × (◌≡◌ {A = CircuitProposal} proposal (record {
        proposal_type = create;
        circuit_id = payload.circuit_create_request.circuit_id;
        circuit_hash = hash;
        circuit_proposal = payload.circuit_create_request;
        votes = [];
        requester = header.requester;
        requester_node_id = header.requester_node_id;
      }))
      × (header.action ≡ circuit_create_request)
      × IsCreation services s payload.circuit_create_request header)
    ⊎ ((p : CircuitProposal) × (◌≡◌ {A = CircuitProposal} proposal (record p {
      votes =
          p.votes
          ++ record {
            public_key = header.requester;
            vote = payload.circuit_proposal_vote.vote;
            voter_node_id = header.requester_node_id;
          }
            ∷ [];
    }))
        × (header.action ≡ circuit_proposal_vote)
        × IsVote services s payload.circuit_proposal_vote header p)

-- A payload that was made the pending change.
pub record IsPending (services : Services) (payload : CircuitManagementPayload)
    (s : AdminServiceShared) (hash : String) (proposal : CircuitProposal) (s' : AdminServiceShared)
    : Type 0 where
  pub header : Header
  pub read : services.parse_header payload.header ≡ some header
  pub hashed : services.hash_proposal proposal ≡ some hash
  pub allowed : IsAllowed services s payload header proposal
  pub after : ◌≡◌ {A = AdminServiceShared} s' (record s {
    pending_changes = some (record {
      circuit_proposal = proposal;
      action = header.action;
      signer_public_key = header.requester;
    });
    current_consensus_verifiers =
        map
          (λ (m : SplinterNode). services.admin_service_id m.node_id)
          proposal.circuit_proposal.members;
  })

-- An error leaves the state; a success has the allowed change pending.
abbrev pub IsOutcome :
    Services
    → CircuitManagementPayload
    → AdminServiceShared
    → Result AdminError (String × CircuitProposal) × AdminServiceShared
    → Type 0
IsOutcome services payload s (err e, s') = s' ≡ s
IsOutcome services payload s (ok (hash, proposal), s') =
    IsPending services payload s hash proposal s'
