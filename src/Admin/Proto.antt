-- ===== src/Admin/Proto.antt =====
-- The messages of protos/admin.proto that the admin service reads and keeps.
use splinter.Prelude.{String, List, Bytes}

pub record SplinterNode : Type 0 where
  pub node_id : String
  pub endpoint : String

pub record Argument : Type 0 where
  pub key : String
  pub value : String

pub record SplinterService : Type 0 where
  pub service_id : String
  pub service_type : String
  pub allowed_nodes : List String
  pub arguments : List Argument

pub data AuthorizationType : Type 0 where
  unset_authorization_type trust_authorization : AuthorizationType

pub data PersistenceType : Type 0 where
  unset_persistence_type any_persistence : PersistenceType

pub data DurabilityType : Type 0 where
  unset_durability_type no_durability : DurabilityType

pub data RouteType : Type 0 where
  unset_route_type any_route : RouteType

pub record Circuit : Type 0 where
  pub circuit_id : String
  pub roster : List SplinterService
  pub members : List SplinterNode
  pub authorization_type : AuthorizationType
  pub persistence : PersistenceType
  pub durability : DurabilityType
  pub routes : RouteType
  pub circuit_management_type : String
  pub application_metadata : Bytes

pub data ProposalType : Type 0 where
  unset_proposal_type create update_roster add_node remove_node destroy : ProposalType

pub data Vote : Type 0 where
  unset_vote accept reject : Vote

pub record VoteRecord : Type 0 where
  pub public_key : Bytes
  pub vote : Vote
  pub voter_node_id : String

pub record CircuitProposal : Type 0 where
  pub proposal_type : ProposalType
  pub circuit_id : String
  pub circuit_hash : String
  pub circuit_proposal : Circuit
  pub votes : List VoteRecord
  pub requester : Bytes
  pub requester_node_id : String

pub record CircuitProposalVote : Type 0 where
  pub circuit_id : String
  pub circuit_hash : String
  pub vote : Vote

pub data Action : Type 0 where
  action_unset circuit_proposal_vote circuit_create_request : Action
  circuit_update_roster_request circuit_update_add_node circuit_update_remove_node : Action
  circuit_update_application_metadata_request circuit_join_request : Action
  circuit_destroy_request circuit_abandon : Action

pub record Header : Type 0 where
  pub action : Action
  pub requester : Bytes
  pub payload_sha512 : Bytes
  pub requester_node_id : String

-- The two requests that are handled; a field that is unset reads as its default.
pub record CircuitManagementPayload : Type 0 where
  pub header : Bytes
  pub signature : Bytes
  pub circuit_proposal_vote : CircuitProposalVote
  pub circuit_create_request : Circuit
