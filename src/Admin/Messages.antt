-- ===== src/Admin/Messages.antt =====
-- The messages of libsplinter/src/admin/service/messages.rs, and their conversions from and into the
-- protobuf messages of protos/admin.proto.
use splinter.Prelude.{Bool, true, false, String, List, Bytes, map}
use splinter.Prelude.Exec.{Result, ok, err}
use splinter.Prelude.Results.{◌>>=◌, collect}
use splinter.Admin.Proto

-- the message of an unset field
pub data MarshallingError : Type 0 where
  unset_field : String → MarshallingError

pub data AuthorizationType : Type 0 where
  trust : AuthorizationType

pub data PersistenceType : Type 0 where
  any_persistence : PersistenceType

pub data DurabilityType : Type 0 where
  no_durability : DurabilityType

pub data RouteType : Type 0 where
  any_route : RouteType

pub record SplinterNode : Type 0 where
  pub node_id : String
  pub endpoint : String

pub record SplinterService : Type 0 where
  pub service_id : String
  pub service_type : String
  pub allowed_nodes : List String
  pub arguments : List (String × String)

pub record CreateCircuit : Type 0 where
  pub circuit_id : String
  pub roster : List SplinterService
  pub members : List SplinterNode
  pub authorization_type : AuthorizationType
  pub persistence : PersistenceType
  pub durability : DurabilityType
  pub routes : RouteType
  pub circuit_management_type : String
  pub application_metadata : Bytes

pub data ProposalType : Type 0 where
  create update_roster add_node remove_node destroy : ProposalType

pub data Vote : Type 0 where
  accept reject : Vote

pub record VoteRecord : Type 0 where
  pub public_key : Bytes
  pub vote : Vote
  pub voter_node_id : String

pub record CircuitProposal : Type 0 where
  pub proposal_type : ProposalType
  pub circuit_id : String
  pub circuit_hash : String
  pub circuit : CreateCircuit
  pub votes : List VoteRecord
  pub requester : Bytes
  pub requester_node_id : String

abbrev pub Converted : Type 0 → Type 0
Converted A = Result MarshallingError A

abbrev pub authorization_from_proto : Proto.AuthorizationType → Converted AuthorizationType
authorization_from_proto Proto.trust_authorization = ok trust
authorization_from_proto Proto.unset_authorization_type =
    err (unset_field "Unset authorization type")

abbrev pub persistence_from_proto : Proto.PersistenceType → Converted PersistenceType
persistence_from_proto Proto.any_persistence = ok any_persistence
persistence_from_proto Proto.unset_persistence_type = err (unset_field "Unset persistence type")

abbrev pub durability_from_proto : Proto.DurabilityType → Converted DurabilityType
durability_from_proto Proto.no_durability = ok no_durability
durability_from_proto Proto.unset_durability_type = err (unset_field "Unset durability type")

abbrev pub route_from_proto : Proto.RouteType → Converted RouteType
route_from_proto Proto.any_route = ok any_route
route_from_proto Proto.unset_route_type = err (unset_field "Unset route type")

unfoldable pub node_from_proto : Proto.SplinterNode → Converted SplinterNode
node_from_proto n = ok (record { node_id = n.node_id; endpoint = n.endpoint })

unfoldable pub service_from_proto : Proto.SplinterService → Converted SplinterService
service_from_proto s = ok (record {
  service_id = s.service_id;
  service_type = s.service_type;
  allowed_nodes = s.allowed_nodes;
  arguments = map (λ (a : Proto.Argument). (a.key, a.value)) s.arguments;
})

unfoldable pub circuit_from_proto : Proto.Circuit → Converted CreateCircuit
circuit_from_proto c = do
  authorization_type ← authorization_from_proto c.authorization_type
  persistence ← persistence_from_proto c.persistence
  durability ← durability_from_proto c.durability
  routes ← route_from_proto c.routes
  roster ← collect service_from_proto c.roster
  members ← collect node_from_proto c.members
  ok (record {
    circuit_id = c.circuit_id;
    roster = roster;
    members = members;
    authorization_type = authorization_type;
    persistence = persistence;
    durability = durability;
    routes = routes;
    circuit_management_type = c.circuit_management_type;
    application_metadata = c.application_metadata;
  })

abbrev pub vote_from_proto : Proto.Vote → Converted Vote
vote_from_proto Proto.accept = ok accept
vote_from_proto Proto.reject = ok reject
vote_from_proto Proto.unset_vote = err (unset_field "Unset vote")

unfoldable pub vote_record_from_proto : Proto.VoteRecord → Converted VoteRecord
vote_record_from_proto r = do
  vote ← vote_from_proto r.vote
  ok (record { public_key = r.public_key; vote = vote; voter_node_id = r.voter_node_id })

abbrev pub proposal_type_from_proto : Proto.ProposalType → Converted ProposalType
proposal_type_from_proto Proto.create = ok create
proposal_type_from_proto Proto.update_roster = ok update_roster
proposal_type_from_proto Proto.add_node = ok add_node
proposal_type_from_proto Proto.remove_node = ok remove_node
proposal_type_from_proto Proto.destroy = ok destroy
proposal_type_from_proto Proto.unset_proposal_type = err (unset_field "Unset proposal type")

unfoldable pub proposal_from_proto : Proto.CircuitProposal → Converted CircuitProposal
proposal_from_proto p = do
  proposal_type ← proposal_type_from_proto p.proposal_type
  votes ← collect vote_record_from_proto p.votes
  circuit ← circuit_from_proto p.circuit_proposal
  ok (record {
    proposal_type = proposal_type;
    circuit_id = p.circuit_id;
    circuit_hash = p.circuit_hash;
    circuit = circuit;
    votes = votes;
    requester = p.requester;
    requester_node_id = p.requester_node_id;
  })

unfoldable pub node_into_proto : SplinterNode → Proto.SplinterNode
node_into_proto n = record { node_id = n.node_id; endpoint = n.endpoint }

abbrev pub argument_into_proto : String × String → Proto.Argument
argument_into_proto (k, v) = record { key = k; value = v }

unfoldable pub service_into_proto : SplinterService → Proto.SplinterService
service_into_proto s = record {
  service_id = s.service_id;
  service_type = s.service_type;
  allowed_nodes = s.allowed_nodes;
  arguments = map argument_into_proto s.arguments;
}

abbrev pub authorization_into_proto : AuthorizationType → Proto.AuthorizationType
authorization_into_proto trust = Proto.trust_authorization

abbrev pub persistence_into_proto : PersistenceType → Proto.PersistenceType
persistence_into_proto any_persistence = Proto.any_persistence

abbrev pub durability_into_proto : DurabilityType → Proto.DurabilityType
durability_into_proto no_durability = Proto.no_durability

abbrev pub route_into_proto : RouteType → Proto.RouteType
route_into_proto any_route = Proto.any_route

-- the circuit of the create request; no step fails
unfoldable pub circuit_into_proto : CreateCircuit → Converted Proto.Circuit
circuit_into_proto c = ok (record {
  circuit_id = c.circuit_id;
  roster = map service_into_proto c.roster;
  members = map node_into_proto c.members;
  authorization_type = authorization_into_proto c.authorization_type;
  persistence = persistence_into_proto c.persistence;
  durability = durability_into_proto c.durability;
  routes = route_into_proto c.routes;
  circuit_management_type = c.circuit_management_type;
  application_metadata = c.application_metadata;
})

abbrev pub vote_into_proto : Vote → Proto.Vote
vote_into_proto accept = Proto.accept
vote_into_proto reject = Proto.reject

unfoldable pub vote_record_into_proto : VoteRecord → Proto.VoteRecord
vote_record_into_proto r = record {
  public_key = r.public_key;
  vote = vote_into_proto r.vote;
  voter_node_id = r.voter_node_id;
}

abbrev pub proposal_type_into_proto : ProposalType → Proto.ProposalType
proposal_type_into_proto create = Proto.create
proposal_type_into_proto update_roster = Proto.update_roster
proposal_type_into_proto add_node = Proto.add_node
proposal_type_into_proto remove_node = Proto.remove_node
proposal_type_into_proto destroy = Proto.destroy

unfoldable pub proposal_into_proto : CircuitProposal → Converted Proto.CircuitProposal
proposal_into_proto p = do
  circuit ← circuit_into_proto p.circuit
  ok (record {
    proposal_type = proposal_type_into_proto p.proposal_type;
    circuit_id = p.circuit_id;
    circuit_hash = p.circuit_hash;
    circuit_proposal = circuit;
    votes = map vote_record_into_proto p.votes;
    requester = p.requester;
    requester_node_id = p.requester_node_id;
  })

abbrev pub converts : {A : Type 0} → Converted A → Bool
converts (ok a) = true
converts (err e) = false

-- whether the conversion into an event succeeds
abbrev pub is_convertible : Proto.CircuitProposal → Bool
is_convertible p = converts (proposal_from_proto p)
