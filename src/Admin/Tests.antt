-- ===== src/Admin/Tests.antt =====
-- The admin service at a concrete circuit of the nodes alpha and beta.
use splinter.Prelude.{
  arith, ◌≡◌, refl, ◌↔◌, ◌≢◌, Bool, true, false, none, some, List, [], ◌∷◌, ◌++◌, any, All, ◌+◌,
  string_eq, keep,
}
use splinter.Prelude.Exec.{ok}
use splinter.Prelude.Sets.{contains}
use splinter.Prelude.Map.{lookup, contains_key}
use splinter.Auth.Model.{peer_authorized, peer_unauthorized}
use splinter.Admin.Proto.{
  trust_authorization, any_persistence, no_durability, any_route, Circuit, create, accept,
  VoteRecord, CircuitProposal, CircuitProposalVote, circuit_create_request,
  CircuitManagementPayload,
}
use splinter.Admin.Validation.{
  Keys, validate_circuit, validate_circuit_vote, check_approved, accepted, rejected, is_reject,
  add_vote, check_members, check_services, validate_create_circuit,
  validate_circuit_management_payload,
}
use splinter.Admin.Circuits.{IsValidCircuit, validate_circuit_iff}
use splinter.Admin.Approval.{IsComplete, check_approved_iff, outsider_blocks}
use splinter.Admin.Shared.{AdminServiceShared, Services, propose_change, submit, propose_create}
use splinter.Admin.Peering.{
  Change, run_changes, still_waiting, sent_of, count, IsWaiting, run_changes-settle,
}
use splinter.Admin.Allowed.{IsOutcome}
use splinter.Admin.Proposals.{propose_change-IsOutcome}
use splinter.Admin.Signatures.{Verdicts, with_verdicts, verdict_ignored}

abbrev pub sample_circuit : Circuit
sample_circuit = record {
  circuit_id = "circuit";
  roster =
      record {
        service_id = "a000";
        service_type = "scabbard";
        allowed_nodes = "alpha" ∷ [];
        arguments = [];
      }
      ∷ record {
        service_id = "b000";
        service_type = "scabbard";
        allowed_nodes = "beta" ∷ [];
        arguments = [];
      }
      ∷ [];
  members =
      record { node_id = "alpha"; endpoint = "tcp://alpha" }
      ∷ record { node_id = "beta"; endpoint = "tcp://beta" }
      ∷ [];
  authorization_type = trust_authorization;
  persistence = any_persistence;
  durability = no_durability;
  routes = any_route;
  circuit_management_type = "gameroom";
  application_metadata = [];
}

validate_circuit_iff_example :
    (validate_circuit "alpha" sample_circuit ≡ ok tt) ↔ IsValidCircuit "alpha" sample_circuit
validate_circuit_iff_example = validate_circuit_iff "alpha" sample_circuit

sample_circuit_passes : validate_circuit "alpha" sample_circuit ≡ ok tt
unfolding validate_circuit check_members check_services contains
sample_circuit_passes = refl

abbrev pub sample_record : VoteRecord
sample_record = record { public_key = 2 ∷ []; vote = accept; voter_node_id = "beta" }

abbrev pub sample_proposal : CircuitProposal
sample_proposal = record {
  proposal_type = create;
  circuit_id = "circuit";
  circuit_hash = "hash";
  circuit_proposal = sample_circuit;
  votes = sample_record ∷ [];
  requester = 1 ∷ [];
  requester_node_id = "alpha";
}

check_approved_iff_example :
    ((check_approved sample_proposal ≡ rejected)
      ↔ (any (λ (v : VoteRecord). is_reject v.vote) sample_proposal.votes ≡ true))
    × ((check_approved sample_proposal ≡ accepted) ↔ (
        (any (λ (v : VoteRecord). is_reject v.vote) sample_proposal.votes ≡ false)
        × IsComplete sample_proposal))
check_approved_iff_example = check_approved_iff sample_proposal

-- All keys are gamma's.
abbrev gamma_keys : Keys
gamma_keys = record {
  node_of_key = λ key. ok (some "gamma");
  is_permitted = λ key role. ok true;
  verify = λ message signature key. ok true;
}

abbrev sample_vote : CircuitProposalVote
sample_vote = record { circuit_id = "circuit"; circuit_hash = "hash"; vote = accept }

outsider_blocks_example :
    (validate_circuit_vote gamma_keys sample_vote (3 ∷ []) sample_proposal "gamma" ≡ ok tt)
    × ((more : List VoteRecord)
        → check_approved (record sample_proposal {
          votes = (add_vote sample_proposal (3 ∷ []) accept "gamma").votes ++ more;
        })
          ≢ accepted)
unfolding contains any
outsider_blocks_example =
    outsider_blocks gamma_keys sample_vote (3 ∷ []) sample_proposal "gamma" true refl refl refl refl
      refl refl

abbrev sample_payload : CircuitManagementPayload
sample_payload = record {
  header = 1 ∷ [];
  signature = 5 ∷ [];
  circuit_proposal_vote = sample_vote;
  circuit_create_request = sample_circuit;
}

abbrev sample_shared : AdminServiceShared
sample_shared = record {
  node_id = "alpha";
  open_proposals = [];
  unpeered_payloads = ("beta" ∷ "gamma" ∷ [], sample_payload) ∷ ("delta" ∷ [], sample_payload) ∷ [];
  pending_circuit_payloads = [];
  pending_changes = none;
  current_consensus_verifiers = [];
}

abbrev sample_changes : List Change
sample_changes =
    ("beta", peer_authorized) ∷ ("delta", peer_unauthorized) ∷ ("gamma", peer_authorized) ∷ []

-- The first payload is sent, the second dropped.
sample_outcomes :
    (still_waiting sample_changes sample_shared.unpeered_payloads ≡ [])
    × (sent_of sample_changes sample_shared.unpeered_payloads ≡ sample_payload ∷ [])
unfolding any keep
sample_outcomes = (refl, refl)

run_changes-settle_example :
    ((run_changes sample_changes sample_shared).unpeered_payloads
      ≡ still_waiting sample_changes sample_shared.unpeered_payloads)
    × All IsWaiting (run_changes sample_changes sample_shared).unpeered_payloads
    × ((q : CircuitManagementPayload → Bool)
        → count q (run_changes sample_changes sample_shared).pending_circuit_payloads
          ≡ count q sample_shared.pending_circuit_payloads
            + count q (sent_of sample_changes sample_shared.unpeered_payloads))
run_changes-settle_example =
    run_changes-settle sample_changes sample_shared
      (λ e. ground (arith, e), (λ e. ground (arith, e), tt))

-- Every header reads as alpha's request, under a key of alpha.
abbrev sample_services : Services
sample_services = record {
  keys = record {
    node_of_key = λ key. ok (some "alpha");
    is_permitted = λ key role. ok true;
    verify = λ message signature key. ok true;
  };
  parse_header = λ bytes. some (record {
    action = circuit_create_request;
    requester = 1 ∷ [];
    payload_sha512 = [];
    requester_node_id = "alpha";
  });
  hash_circuit = λ c. some "hash";
  hash_proposal = λ p. some "proposal";
  admin_service_id = λ node. node;
  is_authorized = λ node. true;
  connect_peer = λ node endpoint. true;
  has_circuit = λ id. false;
}

propose_change-IsOutcome_example :
    IsOutcome sample_services sample_payload sample_shared
      (propose_change sample_services sample_payload sample_shared)
propose_change-IsOutcome_example =
    propose_change-IsOutcome sample_services sample_payload sample_shared

-- The change of the run above is the pending one.
sample_verifiers :
    (propose_change sample_services sample_payload sample_shared).1.current_consensus_verifiers
    ≡ "alpha" ∷ "beta" ∷ []
unfolding propose_change propose_create validate_create_circuit validate_circuit_management_payload
    validate_circuit check_members check_services contains contains_key lookup
sample_verifiers = refl

abbrev refusing : Verdicts
refusing = record { is_signature = λ m s k. false; is_permitted = λ k role. false }

abbrev allowing : Verdicts
allowing = record { is_signature = λ m s k. true; is_permitted = λ k role. true }

verdict_ignored_example :
    (submit (with_verdicts refusing sample_services) sample_payload sample_shared
      ≡ submit (with_verdicts allowing sample_services) sample_payload sample_shared)
    × (propose_change (with_verdicts refusing sample_services) sample_payload sample_shared
        ≡ propose_change (with_verdicts allowing sample_services) sample_payload sample_shared)
verdict_ignored_example =
    verdict_ignored refusing allowing sample_services sample_payload sample_shared
