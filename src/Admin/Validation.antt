-- ===== src/Admin/Validation.antt =====
-- The checks of libsplinter/src/admin/service/shared.rs: circuits, votes, payloads and approval.
use splinter.Prelude.{
  String, Bool, true, false, Option, none, some, List, [], ◌∷◌, ◌++◌, ◌==◌, string_eq, bytes_eq,
  Bytes, any, map, if◌then◌else◌, not,
}
use splinter.Prelude.Exec.{Result, ok, err}
use splinter.Prelude.Results.{◌>>=◌, ◌>>◌, reject_if}
use splinter.Prelude.Sets
use splinter.Prelude.Sets.{contains, from_list, set_eq}
use splinter.Admin.Proto.{
  SplinterNode, SplinterService, AuthorizationType, unset_authorization_type, trust_authorization,
  PersistenceType, unset_persistence_type, any_persistence, DurabilityType, unset_durability_type,
  no_durability, RouteType, unset_route_type, any_route, Circuit, Vote, unset_vote, accept, reject,
  VoteRecord, CircuitProposal, CircuitProposalVote, Header, CircuitManagementPayload,
}

-- Why a validation failed, a constructor for each message.
pub data ValidationFailure : Type 0 where
  authorization_type_unset persistence_type_unset durability_type_unset : ValidationFailure
  route_type_unset circuit_id_unset management_type_unset : ValidationFailure
  member_id_empty member_not_unique endpoint_empty endpoint_not_unique : ValidationFailure
  no_members not_a_member no_services : ValidationFailure
  no_allowed_node many_allowed_nodes allowed_node_not_member : ValidationFailure
  service_id_empty service_not_unique : ValidationFailure
  requester_node_id_empty key_registry_failed key_not_registered wrong_node : ValidationFailure
  not_permitted duplicate_proposal circuit_exists : ValidationFailure
  vote_of_requester duplicate_vote hash_mismatch : ValidationFailure
  signature_unset header_unset requester_unset : ValidationFailure
  signature_invalid no_such_proposal action_not_set action_unknown : ValidationFailure

abbrev pub Check : Type 0
Check = Result ValidationFailure (Unit {0})

abbrev pub is_unset_authorization : AuthorizationType → Bool
is_unset_authorization unset_authorization_type = true
is_unset_authorization trust_authorization = false

abbrev pub is_unset_persistence : PersistenceType → Bool
is_unset_persistence unset_persistence_type = true
is_unset_persistence any_persistence = false

abbrev pub is_unset_durability : DurabilityType → Bool
is_unset_durability unset_durability_type = true
is_unset_durability no_durability = false

abbrev pub is_unset_route : RouteType → Bool
is_unset_route unset_route_type = true
is_unset_route any_route = false

abbrev pub is_empty : {A : Type 0} → List A → Bool
is_empty [] = true
is_empty (x ∷ xs) = false

-- The loop over the members, with the node ids and the endpoints seen before.
unfoldable pub check_members : List SplinterNode → List String → List String → Check
check_members [] members endpoints = ok tt
check_members (m ∷ ms) members endpoints = do
  reject_if (m.node_id == "") member_id_empty
  reject_if (contains members m.node_id) member_not_unique
  reject_if (m.endpoint == "") endpoint_empty
  reject_if (contains endpoints m.endpoint) endpoint_not_unique
  check_members ms (m.node_id ∷ members) (m.endpoint ∷ endpoints)

abbrev pub node_ids : List SplinterNode → List String
node_ids = map (λ (m : SplinterNode). m.node_id)

abbrev pub endpoints_of : List SplinterNode → List String
endpoints_of = map (λ (m : SplinterNode). m.endpoint)

abbrev pub service_ids : List SplinterService → List String
service_ids = map (λ (s : SplinterService). s.service_id)

-- exactly one allowed node, and that a member
abbrev pub check_allowed : List String → List String → Check
check_allowed members [] = err no_allowed_node
check_allowed members (n ∷ []) = reject_if (not (contains members n)) allowed_node_not_member
check_allowed members (n ∷ m ∷ ns) = err many_allowed_nodes

-- The loop over the services, with the service ids seen before.
unfoldable pub check_services : List String → List SplinterService → List String → Check
check_services members [] services = ok tt
check_services members (s ∷ ss) services = do
  check_allowed members s.allowed_nodes
  reject_if (s.service_id == "") service_id_empty
  reject_if (contains services s.service_id) service_not_unique
  check_services members ss (s.service_id ∷ services)

-- `self` is the id of this node. The vector that the source collects while it checks the members
-- holds their node ids.
unfoldable pub validate_circuit : String → Circuit → Check
validate_circuit self c = do
  reject_if (is_unset_authorization c.authorization_type) authorization_type_unset
  reject_if (is_unset_persistence c.persistence) persistence_type_unset
  reject_if (is_unset_durability c.durability) durability_type_unset
  reject_if (is_unset_route c.routes) route_type_unset
  reject_if (c.circuit_id == "") circuit_id_unset
  reject_if (c.circuit_management_type == "") management_type_unset
  check_members c.members [] []
  reject_if (is_empty c.members) no_members
  reject_if (not (contains (node_ids c.members) self)) not_a_member
  reject_if (is_empty c.roster) no_services
  check_services (node_ids c.members) c.roster []
  reject_if (c.circuit_management_type == "") management_type_unset

-- The key registry, the permissions of keys and the signature verifier.
pub record Keys : Type 0 where
  -- `get_key`: an error, or the node that the key belongs to
  pub node_of_key : Bytes → Result (Unit {0}) (Option String)
  -- an error, or the verdict; so for `verify`
  pub is_permitted : Bytes → String → Result (Unit {0}) Bool
  pub verify : Bytes → Bytes → Bytes → Result (Unit {0}) Bool

-- `key_registry.get_key(...)?.ok_or_else(...)?`
abbrev pub registered_node : Result (Unit {0}) (Option String) → Result ValidationFailure String
registered_node (err e) = err key_registry_failed
registered_node (ok none) = err key_not_registered
registered_node (ok (some node)) = ok node

-- `.map_err(...)?` on a verdict: an error ends the call, and the verdict is not used
abbrev pub drop_verdict : ValidationFailure → Result (Unit {0}) Bool → Check
drop_verdict failure (ok verdict) = ok tt
drop_verdict failure (err e) = err failure

abbrev pub proposer_role : String
proposer_role = "proposer"

abbrev pub voter_role : String
voter_role = "voter"

-- `has_proposal` and `has_circuit` say whether the id is taken.
unfoldable pub validate_create_circuit :
    Keys → String → (String → Bool) → (String → Bool) → Circuit → Bytes → String → Check
validate_create_circuit keys self has_proposal has_circuit c signer requester_node = do
  reject_if (requester_node == "") requester_node_id_empty
  node ← registered_node (keys.node_of_key signer)
  reject_if (not (node == requester_node)) wrong_node
  drop_verdict not_permitted (keys.is_permitted signer proposer_role)
  reject_if (has_proposal c.circuit_id) duplicate_proposal
  reject_if (has_circuit c.circuit_id) circuit_exists
  validate_circuit self c

abbrev pub voters : List VoteRecord → List String
voters = map (λ (v : VoteRecord). v.voter_node_id)

unfoldable pub validate_circuit_vote :
    Keys → CircuitProposalVote → Bytes → CircuitProposal → String → Check
validate_circuit_vote keys vote signer proposal node_id = do
  signer_node ← registered_node (keys.node_of_key signer)
  reject_if (not (signer_node == node_id)) wrong_node
  reject_if (proposal.requester_node_id == signer_node) vote_of_requester
  reject_if (any (λ node. node == signer_node) (voters proposal.votes)) duplicate_vote
  drop_verdict not_permitted (keys.is_permitted signer voter_role)
  reject_if (not (proposal.circuit_hash == vote.circuit_hash)) hash_mismatch

unfoldable pub validate_circuit_management_payload : CircuitManagementPayload → Header → Check
validate_circuit_management_payload payload header = do
  reject_if (is_empty payload.signature) signature_unset
  reject_if (is_empty payload.header) header_unset
  reject_if (is_empty header.requester) requester_unset
  reject_if (header.requester_node_id == "") requester_node_id_empty

pub data CircuitProposalStatus : Type 0 where
  accepted rejected pending : CircuitProposalStatus

abbrev pub is_reject : Vote → Bool
is_reject unset_vote = false
is_reject accept = false
is_reject reject = true

-- the early return of the loop over the votes
unfoldable pub has_reject : List VoteRecord → Bool
has_reject [] = false
has_reject (v ∷ vs) = let rest = has_reject vs in if is_reject v.vote then true else rest

unfoldable pub check_approved : CircuitProposal → CircuitProposalStatus
check_approved p =
    if has_reject p.votes
    then rejected
    else (let received_votes = from_list (voters p.votes) in
        let members = from_list (node_ids p.circuit_proposal.members) in
        let required_votes = Sets.remove p.requester_node_id members in
        if set_eq required_votes received_votes then accepted else pending)

-- The proposal with one more vote record, as `propose_change` makes it.
unfoldable pub add_vote : CircuitProposal → Bytes → Vote → String → CircuitProposal
add_vote p signer vote node_id = record p {
  votes = p.votes ++ record { public_key = signer; vote = vote; voter_node_id = node_id } ∷ [];
}
