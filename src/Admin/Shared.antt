-- ===== src/Admin/Shared.antt =====
-- The part of `AdminServiceShared` (libsplinter/src/admin/service/shared.rs) that takes payloads
-- from submission to a proposed change: the payloads that wait for peers, the queue for consensus,
-- and the pending change. The open proposals are read through `lookup`.
use splinter.Prelude.{
  String, Bool, Option, none, some, List, [], ◌∷◌, ◌++◌, ◌==◌, string_eq, Bytes, any, keep, map,
  not, if◌then◌else◌, ◌||◌,
}
use splinter.Prelude.Exec.{Result, ok, err, Exec, ◌>>=◌, ◌>>◌, raise}
use splinter.Prelude.Map.{lookup, contains_key}
use splinter.Admin.Proto.{
  SplinterNode, Circuit, create, CircuitProposal, CircuitProposalVote, Action, action_unset,
  circuit_proposal_vote, circuit_create_request, Header, CircuitManagementPayload,
}
use splinter.Admin.Validation.{
  ValidationFailure, signature_invalid, drop_verdict, no_such_proposal, action_not_set,
  action_unknown, Check, Keys, is_empty, node_ids, validate_create_circuit, validate_circuit_vote,
  validate_circuit_management_payload, add_vote,
}
use splinter.Auth.Model.{PeerAuthorizationState, peer_authorized, peer_unauthorized}

pub data AdminError : Type 0 where
  validation_failed : ValidationFailure → AdminError
  marshalling_error : AdminError
  connect_failed : String → AdminError

pub record CircuitProposalContext : Type 0 where
  pub circuit_proposal : CircuitProposal
  pub action : Action
  pub signer_public_key : Bytes

pub record AdminServiceShared : Type 0 where
  pub node_id : String
  pub open_proposals : List (String × CircuitProposal)
  -- a payload, and the members that are still to be authorized
  pub unpeered_payloads : List (List String × CircuitManagementPayload)
  pub pending_circuit_payloads : List CircuitManagementPayload
  pub pending_changes : Option CircuitProposalContext
  pub current_consensus_verifiers : List String

-- What the service calls: the keys, the protobuf reader, the hashes, its peers and the circuits of
-- the node. The answers are those of one call; another call may find others.
pub record Services : Type 0 where
  pub keys : Keys
  pub parse_header : Bytes → Option Header
  pub hash_circuit : Circuit → Option String
  pub hash_proposal : CircuitProposal → Option String
  pub admin_service_id : String → String
  pub is_authorized : String → Bool
  -- whether `connect_peer` succeeds for a node and its endpoint
  pub connect_peer : String → String → Bool
  pub has_circuit : String → Bool

abbrev pub Method : Type 0 → Type 0
Method A = Exec AdminServiceShared AdminError A

abbrev pub check : Check → Method (Unit {0})
check (ok u) s = (ok tt, s)
check (err e) s = (err (validation_failed e), s)

abbrev pub or_raise : {A : Type 0} → AdminError → Option A → Method A
or_raise e none s = (err e, s)
or_raise e (some a) s = (ok a, s)

-- `peers.retain(|id| id != peer_id)`
abbrev pub other_than : String → List String → List String
other_than peer = keep (λ id. not (id == peer))

-- the peers that an entry still waits for, after a change
abbrev pub after_change : PeerAuthorizationState → String → List String → List String
after_change peer_authorized peer peers = other_than peer peers
after_change peer_unauthorized peer peers = if any (λ id. id == peer) peers then [] else peers

abbrev pub change_entry :
    PeerAuthorizationState
    → String
    → List String × CircuitManagementPayload
    → List String × CircuitManagementPayload
change_entry state peer (peers, payload) = (after_change state peer peers, payload)

abbrev pub is_fully_peered : List String × CircuitManagementPayload → Bool
is_fully_peered (peers, payload) = is_empty peers

abbrev pub payload_of : List String × CircuitManagementPayload → CircuitManagementPayload
payload_of (peers, payload) = payload

abbrev pub released :
    PeerAuthorizationState
    → List (List String × CircuitManagementPayload)
    → List CircuitManagementPayload
released peer_authorized entries = map payload_of entries
released peer_unauthorized entries = []

unfoldable pub on_authorization_change :
    String → PeerAuthorizationState → AdminServiceShared → AdminServiceShared
on_authorization_change peer state s =
    let changed = map (change_entry state peer) s.unpeered_payloads in
    record s {
      unpeered_payloads = keep (λ e. not (is_fully_peered e)) changed;
      pending_circuit_payloads =
          s.pending_circuit_payloads ++ released state (keep is_fully_peered changed);
    }

unfoldable pub pop_pending_circuit_payload :
    AdminServiceShared → Option CircuitManagementPayload × AdminServiceShared
pop_pending_circuit_payload s = elim s.pending_circuit_payloads [
  | [] ↦ (none, s)
  | p ∷ ps ↦ (some p, record s { pending_circuit_payloads = ps })
]

unfoldable pub rollback : AdminServiceShared → AdminServiceShared
rollback s = record s { pending_changes = none }

abbrev pub push_pending : CircuitManagementPayload → AdminServiceShared → AdminServiceShared
push_pending payload s = record s {
  pending_circuit_payloads = s.pending_circuit_payloads ++ payload ∷ [];
}

unfoldable pub propose_vote : CircuitManagementPayload → Method (Unit {0})
propose_vote payload s = (ok tt, push_pending payload s)

module _ (services : Services) where
  -- the loop over the members: connects to those that are not authorized yet
  unfoldable pub connect_members : String → List SplinterNode → Result AdminError (List String)
  connect_members self [] = ok []
  connect_members self (m ∷ ms) =
      let rest = connect_members self ms in
      if self == m.node_id || services.is_authorized m.node_id
      then rest
      else if services.connect_peer m.node_id m.endpoint
      then elim rest [ ok peers ↦ ok (m.node_id ∷ peers) | err e ↦ err e ]
      else err (connect_failed m.node_id)

  abbrev pub queue_or_wait :
      CircuitManagementPayload → Result AdminError (List String) → Method (Unit {0})
  queue_or_wait payload (err e) s = (err e, s)
  queue_or_wait payload (ok []) s = (ok tt, push_pending payload s)
  queue_or_wait payload (ok (p ∷ ps)) s =
      (ok tt, record s { unpeered_payloads = s.unpeered_payloads ++ (p ∷ ps, payload) ∷ [] })

  unfoldable pub propose_circuit : CircuitManagementPayload → Method (Unit {0})
  propose_circuit payload s =
      queue_or_wait payload (connect_members s.node_id payload.circuit_create_request.members) s

  abbrev pub verify_signature : CircuitManagementPayload → Header → Check
  verify_signature payload header =
      drop_verdict signature_invalid
        (services.keys.verify payload.header payload.signature header.requester)

  abbrev pub submit_action : Action → CircuitManagementPayload → Method (Unit {0})
  submit_action circuit_create_request payload = propose_circuit payload
  submit_action circuit_proposal_vote payload = propose_vote payload
  submit_action action_unset payload = raise (validation_failed action_not_set)
  submit_action _ payload = raise (validation_failed action_unknown)

  unfoldable pub submit : CircuitManagementPayload → Method (Unit {0})
  submit payload = do
    header ← or_raise marshalling_error (services.parse_header payload.header)
    check (validate_circuit_management_payload payload header)
    check (verify_signature payload header)
    submit_action header.action payload

  abbrev pub set_pending :
      CircuitProposal → Action → Bytes → List SplinterNode → AdminServiceShared → AdminServiceShared
  set_pending proposal action signer members s = record s {
    pending_changes =
        some (record { circuit_proposal = proposal; action = action; signer_public_key = signer });
    current_consensus_verifiers = map services.admin_service_id (node_ids members);
  }

  abbrev pub new_circuit_proposal : Circuit → String → Header → CircuitProposal
  new_circuit_proposal c hash header = record {
    proposal_type = create;
    circuit_id = c.circuit_id;
    circuit_hash = hash;
    circuit_proposal = c;
    votes = [];
    requester = header.requester;
    requester_node_id = header.requester_node_id;
  }

  -- Keep the change, and return it with its hash.
  abbrev pub propose : CircuitProposal → Action → Header → Method (String × CircuitProposal)
  propose proposal action header = do
    hash ← or_raise marshalling_error (services.hash_proposal proposal)
    λ s. (
      ok (hash, proposal),
      set_pending proposal action header.requester proposal.circuit_proposal.members s,
    )

  unfoldable pub propose_create : Circuit → Header → Method (String × CircuitProposal)
  propose_create c header s =
      (do
        check (
            validate_create_circuit services.keys s.node_id (λ id. contains_key id s.open_proposals)
              services.has_circuit c header.requester header.requester_node_id)
        circuit_hash ← or_raise marshalling_error (services.hash_circuit c)
        propose (new_circuit_proposal c circuit_hash header) circuit_create_request header)
        s

  unfoldable pub propose_vote_change :
      CircuitProposalVote → Header → Method (String × CircuitProposal)
  propose_vote_change vote header s =
      (do
        proposal ←
            or_raise (validation_failed no_such_proposal) (lookup vote.circuit_id s.open_proposals)
        check (
            validate_circuit_vote services.keys vote header.requester proposal
              header.requester_node_id)
        propose (add_vote proposal header.requester vote.vote header.requester_node_id)
            circuit_proposal_vote header)
        s

  abbrev pub propose_action :
      Action → CircuitManagementPayload → Header → Method (String × CircuitProposal)
  propose_action circuit_create_request payload header =
      propose_create payload.circuit_create_request header
  propose_action circuit_proposal_vote payload header =
      propose_vote_change payload.circuit_proposal_vote header
  propose_action action_unset payload header = raise (validation_failed action_not_set)
  propose_action _ payload header = raise (validation_failed action_unknown)

  unfoldable pub propose_change : CircuitManagementPayload → Method (String × CircuitProposal)
  propose_change payload = do
    header ← or_raise marshalling_error (services.parse_header payload.header)
    check (validate_circuit_management_payload payload header)
    check (verify_signature payload header)
    propose_action header.action payload header
