-- ===== src/Admin/CommitTests.antt =====
-- Commits of the sample proposal.
use mathlib.Core.Path.{subst}
use splinter.Prelude.{
  if◌then◌else◌, none, ◌==◌, ◌≡◌, ◌↔◌, refl, true, some, [], ◌∷◌, string_eq, String,
}
use splinter.Prelude.Exec.{ok, err}
use splinter.Prelude.Results.{collect}
use splinter.Prelude.Map
use splinter.Prelude.Map.{lookup}
use splinter.Prelude.Sets
use splinter.Prelude.Sets.{contains, from_list, set_eq, is_subset}
use splinter.Prelude.{any, all, keep}
use splinter.Circuit.State.{SplinterState, new_state, new_directory}
use splinter.Admin.Proto.{CircuitProposal, circuit_proposal_vote, unset_vote, reject}
use splinter.Admin.Messages
use splinter.Admin.Messages.{
  MarshallingError, unset_field, proposal_from_proto, proposal_into_proto, vote_record_from_proto,
  circuit_from_proto, service_from_proto, node_from_proto,
}
use splinter.Admin.Conversions.{proposal_from_proto_iff}
use splinter.Admin.Validation.{
  accepted, pending, rejected, check_approved, has_reject, validate_circuit, check_members,
  check_services,
}
use splinter.Admin.Shared.{CircuitProposalContext}
use splinter.Admin.OpenProposals.{
  ProposalRegistry, get_proposal, add_proposal, remove_proposal, invalid_message,
}
use splinter.Admin.OpenMap.{abstract_map, IsAdded, removed, open_proposals-refine}
use splinter.Admin.Update.{update_splinter_state}
use splinter.Admin.Committed.{IsCommitted, update_splinter_state-IsCommitted}
use splinter.Admin.Commit.{
  Environment, CommitState, commit, add_uninitialized, invalid_message_format,
}
use splinter.Admin.Undecided.{IsUndecided, IsLeft, IsUndecided-insert, commit-IsUndecided}
use splinter.Admin.Accepted.{Works, announced, decided, commit-accepted, commit-message_invalid}
use splinter.Admin.Tests.{sample_circuit, sample_proposal}
use splinter.Admin.ReadyTests.{sample_orchestrator, sample_ready}

abbrev pub sample_message : Messages.CircuitProposal
sample_message = record {
  proposal_type = Messages.create;
  circuit_id = "circuit";
  circuit_hash = "hash";
  circuit = record {
    circuit_id = "circuit";
    roster =
        record {
          service_id = "a000";
          service_type = "scabbard";
          allowed_nodes = "alpha" ∷ [];
          arguments = [];
        }
        ∷ record {
          service_id = "b000";
          service_type = "scabbard";
          allowed_nodes = "beta" ∷ [];
          arguments = [];
        }
        ∷ [];
    members =
        record { node_id = "alpha"; endpoint = "tcp://alpha" }
        ∷ record { node_id = "beta"; endpoint = "tcp://beta" }
        ∷ [];
    authorization_type = Messages.trust;
    persistence = Messages.any_persistence;
    durability = Messages.no_durability;
    routes = Messages.any_route;
    circuit_management_type = "gameroom";
    application_metadata = [];
  };
  votes = record { public_key = 2 ∷ []; vote = Messages.accept; voter_node_id = "beta" } ∷ [];
  requester = 1 ∷ [];
  requester_node_id = "alpha";
}

sample_converts : proposal_from_proto sample_proposal ≡ ok sample_message
unfolding proposal_from_proto collect vote_record_from_proto circuit_from_proto service_from_proto
    node_from_proto
sample_converts = refl

sample_passes : validate_circuit "alpha" sample_circuit ≡ ok tt
unfolding validate_circuit check_members check_services contains
sample_passes = refl

sample_accepted : check_approved sample_proposal ≡ accepted
unfolding check_approved has_reject any contains from_list set_eq is_subset all Sets.insert
    Sets.remove keep
sample_accepted = refl

proposal_from_proto_iff_example :
    (proposal_from_proto sample_proposal ≡ ok sample_message)
    ↔ (proposal_into_proto sample_message ≡ ok sample_proposal)
proposal_from_proto_iff_example = proposal_from_proto_iff sample_proposal sample_message

abbrev sample_environment : Environment
sample_environment = record {
  can_store = λ d. true;
  can_write = λ r. true;
  orchestrator = sample_orchestrator;
  has_sender = true;
  can_encode = true;
  can_send = λ sent to. true;
}

sample-Works : Works sample_environment
sample-Works = record {
  stores = λ d. refl;
  writes = λ r. refl;
  sender = refl;
  encodes = refl;
  sends = λ sent to. refl;
}

abbrev empty_state : SplinterState
empty_state = new_state new_directory

-- the proposal before beta's vote
abbrev open_proposal : CircuitProposal
open_proposal = record sample_proposal { votes = [] }

abbrev open_message : Messages.CircuitProposal
open_message = record sample_message { votes = [] }

abbrev state_of : CircuitProposal → CommitState
state_of p = record {
  node_id = "alpha";
  pending_changes =
      some (record {
        circuit_proposal = p;
        action = circuit_proposal_vote;
        signer_public_key = 2 ∷ [];
      });
  open_proposals = ("circuit", open_message) ∷ [];
  splinter_state = empty_state;
  ready = sample_ready;
  events = [];
  member_ready = [];
}

open_converts : proposal_from_proto open_proposal ≡ ok open_message
unfolding proposal_from_proto collect vote_record_from_proto circuit_from_proto service_from_proto
    node_from_proto
open_converts = refl

open_pending : check_approved open_proposal ≡ pending
unfolding check_approved has_reject any contains from_list set_eq is_subset all Sets.insert
    Sets.remove keep
open_pending = refl

open_IsUndecided : IsUndecided (("circuit", open_message) ∷ [])
unfolding Map.insert lookup
open_IsUndecided =
    IsUndecided-insert open_proposal open_message [] open_converts open_pending (λ id p h. cc)

-- beta rejects the proposal
abbrev refused_proposal : CircuitProposal
refused_proposal = record sample_proposal {
  votes = record { public_key = 2 ∷ []; vote = reject; voter_node_id = "beta" } ∷ [];
}

abbrev refused_context : CircuitProposalContext
refused_context = record {
  circuit_proposal = refused_proposal;
  action = circuit_proposal_vote;
  signer_public_key = 2 ∷ [];
}

refused_rejected : check_approved refused_proposal ≡ rejected
unfolding check_approved has_reject any
refused_rejected = refl

-- The open proposal is gone, for any id.
commit-IsUndecided_example :
    ((id : String)
      → lookup id (commit sample_environment (state_of refused_proposal)).1.open_proposals
        ≡ (if "circuit" == id then none else lookup id (("circuit", open_message) ∷ [])))
    × IsUndecided (commit sample_environment (state_of refused_proposal)).1.open_proposals
commit-IsUndecided_example =
    let (left, undecided) =
      commit-IsUndecided sample_environment refused_context (state_of refused_proposal) refl in
    (
      subst
          (λ status.
            IsLeft status refused_proposal (("circuit", open_message) ∷ [])
              (commit sample_environment (state_of refused_proposal)))
          refused_rejected left,
      undecided open_IsUndecided,
    )

update_splinter_state-IsCommitted_example :
    (s' : SplinterState) × (update_splinter_state (λ d. true) "alpha" sample_circuit empty_state
      ≡ (ok tt, s'))
    × IsCommitted "alpha" sample_circuit empty_state s'
update_splinter_state-IsCommitted_example =
    update_splinter_state-IsCommitted (λ d. true) "alpha" sample_circuit empty_state (λ d. refl)
      sample_passes

abbrev sample_context : CircuitProposalContext
sample_context = record {
  circuit_proposal = sample_proposal;
  action = circuit_proposal_vote;
  signer_public_key = 2 ∷ [];
}

commit-accepted_example :
    (state : SplinterState) × IsCommitted "alpha" sample_circuit empty_state state
    × (commit sample_environment (state_of sample_proposal)
        ≡ add_uninitialized sample_environment sample_proposal (
            announced sample_context sample_message
              (decided sample_context state (state_of sample_proposal))))
commit-accepted_example =
    commit-accepted sample_environment sample_context sample_message (state_of sample_proposal)
      sample-Works refl sample_accepted sample_passes sample_converts

-- beta's vote is left unset
abbrev unset_proposal : CircuitProposal
unset_proposal = record sample_proposal {
  votes = record { public_key = 2 ∷ []; vote = unset_vote; voter_node_id = "beta" } ∷ [];
}

abbrev unset_context : CircuitProposalContext
unset_context = record sample_context { circuit_proposal = unset_proposal }

unset_accepted : check_approved unset_proposal ≡ accepted
unfolding check_approved has_reject any contains from_list set_eq is_subset all Sets.insert
    Sets.remove keep
unset_accepted = refl

unset_fails : proposal_from_proto unset_proposal ≡ err (unset_field "Unset vote")
unfolding proposal_from_proto collect vote_record_from_proto
unset_fails = refl

commit-message_invalid_example :
    (state : SplinterState) × IsCommitted "alpha" sample_circuit empty_state state
    × (commit sample_environment (state_of unset_proposal) ≡ (
      err (invalid_message_format (unset_field "Unset vote")),
      decided unset_context state (state_of unset_proposal),
    ))
commit-message_invalid_example =
    commit-message_invalid sample_environment unset_context (unset_field "Unset vote")
      (state_of unset_proposal) sample-Works refl unset_accepted sample_passes unset_fails

abbrev sample_registry : ProposalRegistry
sample_registry = ("circuit", open_message) ∷ []

open_proposals-refine_example :
    ((id : String) → get_proposal id sample_registry ≡ ok (abstract_map sample_registry id))
    × ((p : CircuitProposal) (x : Messages.CircuitProposal)
        → proposal_from_proto p ≡ ok x
        → IsAdded (λ r. true) p sample_registry)
    × ((p : CircuitProposal) (e : MarshallingError)
        → proposal_from_proto p ≡ err e
        → add_proposal (λ r. true) p sample_registry ≡ (err (invalid_message e), sample_registry))
    × ((id : String)
        → ((remove_proposal (λ r. true) id sample_registry).0
            ≡ ok (abstract_map sample_registry id))
          × ((other : String)
              → abstract_map (remove_proposal (λ r. true) id sample_registry).1 other
                ≡ removed id (abstract_map sample_registry) other))
open_proposals-refine_example = open_proposals-refine (λ r. true) sample_registry (λ s. refl)
