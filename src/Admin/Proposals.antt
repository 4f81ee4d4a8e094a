-- ===== src/Admin/Proposals.antt =====
-- What `propose_change` of libsplinter/src/admin/service/shared.rs does with a payload.
use text.Mathlib.TextEquality.{eq_iff}
use splinter.Prelude.{
  String, ◌≡◌, refl, Option, none, some, ◌==◌, string_eq, any, not, arith, inl, inr, map, List, [],
  ◌∷◌, ap, sym, ◌∙◌,
}
use splinter.Prelude.Exec.{Result, ok, err, ◌>>=◌, ◌>>◌}
use splinter.Prelude.Results.{reject_if, ok_of_then, false_of_reject_if}
use splinter.Prelude.Results
use splinter.Prelude.Map.{lookup, contains_key}
use splinter.Admin.Proto.{
  VoteRecord, SplinterNode, CircuitManagementPayload, CircuitProposal, Circuit, CircuitProposalVote,
  Header, Action, circuit_create_request, circuit_proposal_vote, action_unset,
  circuit_update_roster_request, circuit_update_add_node, circuit_update_remove_node,
  circuit_update_application_metadata_request, circuit_join_request, circuit_destroy_request,
  circuit_abandon,
}
use splinter.Admin.Validation.{
  Check, node_ids, voters, wrong_node, drop_verdict, not_permitted, proposer_role, voter_role,
  validate_create_circuit, validate_circuit_vote, add_vote, validate_circuit_management_payload,
  registered_node,
}
use splinter.Admin.Circuits.{validate_circuit_iff}
use splinter.Admin.Shared.{
  AdminServiceShared, Services, AdminError, Method, check, or_raise, propose, marshalling_error,
  propose_change, propose_create, propose_vote_change, propose_action, verify_signature,
}
use splinter.Admin.Allowed.{IsCreation, IsVote, IsAllowed, IsOutcome}

module _ {B : Type 0} (P : Result AdminError B × AdminServiceShared → Type 0)
    (s : AdminServiceShared) (failing : (e : AdminError) → P (err e, s)) where
  check_then : (c : Check) (m : Method B) → (c ≡ ok tt → P (m s)) → P ((check c >> m) s)
  check_then (ok u) m h = h refl
  check_then (err e) m h = failing _

  raise_then :
      {A : Type 0} (e : AdminError) (o : Option A) (m : A → Method B)
      → ((a : A) → o ≡ some a → P (m a s))
      → P ((or_raise e o >>= m) s)
  raise_then e none m h = failing _
  raise_then e (some a) m h = h a refl

voters_lem :
    (node : String) (vs : List VoteRecord)
    → any (λ n. n == node) (voters vs) ≡ any (λ (v : VoteRecord). v.voter_node_id == node) vs
unfolding any
voters_lem node [] = refl
voters_lem node (v ∷ vs) = cc (voters_lem node vs)

ids_lem :
    (f : String → String) (ms : List SplinterNode)
    → map f (node_ids ms) ≡ map (λ (m : SplinterNode). f m.node_id) ms
ids_lem f [] = refl
ids_lem f (m ∷ ms) = ap (λ rest. f m.node_id ∷ rest) (ids_lem f ms)

-- a key that passed is one of the node that the header names
key_of :
    (r : Result (Unit {0}) (Option String)) (claimed : String) (rest : String → Check)
    → Results.◌>>=◌
        (registered_node r)
        (λ node. Results.◌>>◌ (reject_if (not (node == claimed)) wrong_node) (rest node))
      ≡ ok tt
    → (r ≡ ok (some claimed)) × (rest claimed ≡ ok tt)
key_of (err e) claimed rest h = cc
key_of (ok none) claimed rest h = cc
key_of (ok (some node)) claimed rest h =
    let (a, b) = ok_of_then (reject_if (not (node == claimed)) wrong_node) (rest node) h in
    let same : node ≡ claimed = ground (arith, a, eq_iff node claimed) in (cc same, cc (same, b))

validate_create_circuit-IsCreation :
    (services : Services) (s : AdminServiceShared) (c : Circuit) (header : Header)
    → validate_create_circuit services.keys s.node_id
        (λ id. contains_key id s.open_proposals)
        services.has_circuit
        c
        header.requester
        header.requester_node_id
      ≡ ok tt
    → IsCreation services s c header
unfolding validate_create_circuit
validate_create_circuit-IsCreation services s c header h =
    let (_, h₁) = ok_of_then (reject_if (header.requester_node_id == "") _) _ h in
    let (k, h₂) =
      key_of (services.keys.node_of_key header.requester) header.requester_node_id _ h₁ in
    let (_, h₃) =
      ok_of_then
        (drop_verdict not_permitted (services.keys.is_permitted header.requester proposer_role)) _
        h₂ in
    let (a, h₄) = ok_of_then (reject_if (contains_key c.circuit_id s.open_proposals) _) _ h₃ in
    let (b, v) = ok_of_then (reject_if (services.has_circuit c.circuit_id) _) _ h₄ in
    record {
      valid = (validate_circuit_iff s.node_id c).0 v;
      unproposed = false_of_reject_if _ _ a;
      unused = false_of_reject_if _ _ b;
      key = k;
    }

validate_circuit_vote-IsVote :
    (services : Services) (s : AdminServiceShared) (vote : CircuitProposalVote) (header : Header)
    (p : CircuitProposal)
    → lookup vote.circuit_id s.open_proposals ≡ some p
    → validate_circuit_vote services.keys vote header.requester p header.requester_node_id ≡ ok tt
    → IsVote services s vote header p
unfolding validate_circuit_vote
validate_circuit_vote-IsVote services s vote header p o h =
    let (k, h₁) =
      key_of (services.keys.node_of_key header.requester) header.requester_node_id _ h in
    let (a, h₂) = ok_of_then (reject_if (p.requester_node_id == header.requester_node_id) _) _ h₁ in
    let (b, h₃) =
      ok_of_then (reject_if (any (λ n. n == header.requester_node_id) (voters p.votes)) _) _ h₂ in
    let (_, c) =
      ok_of_then
        (drop_verdict not_permitted (services.keys.is_permitted header.requester voter_role)) _
        h₃ in
    record {
      opened = o;
      other = false_of_reject_if _ _ a;
      first = sym (voters_lem header.requester_node_id p.votes) ∙ false_of_reject_if _ _ b;
      same_circuit = ground (arith, c);
      key = k;
    }

module _ (services : Services) (payload : CircuitManagementPayload) (header : Header)
    (s : AdminServiceShared) (read : services.parse_header payload.header ≡ some header) where
  -- the last steps, for an allowed proposal
  propose-IsOutcome :
      (proposal : CircuitProposal)
      → IsAllowed services s payload header proposal
      → IsOutcome services payload s (propose services proposal header.action header s)
  propose-IsOutcome proposal allowed =
      raise_then (IsOutcome services payload s) s (λ e. refl) marshalling_error
        (services.hash_proposal proposal) _
        (λ hash hashed. record {
          header = header;
          read = read;
          hashed = hashed;
          allowed = allowed;
          after =
              ap
                (λ verifiers. record s {
                  pending_changes = some (record {
                    circuit_proposal = proposal;
                    action = header.action;
                    signer_public_key = header.requester;
                  });
                  current_consensus_verifiers = verifiers;
                })
                (ids_lem services.admin_service_id proposal.circuit_proposal.members);
        })

  propose_action-IsOutcome :
      (action : Action)
      → header.action ≡ action
      → IsOutcome services payload s (propose_action services action payload header s)
  unfolding propose_create propose_vote_change add_vote
  propose_action-IsOutcome circuit_create_request e =
      check_then (IsOutcome services payload s) s (λ e. refl) _ _
        (λ valid.
          raise_then (IsOutcome services payload s) s (λ e. refl) marshalling_error
            (services.hash_circuit payload.circuit_create_request) _
            (λ hash hashed. rw e at (
              propose-IsOutcome _ (
                inl (
                  hash,
                  hashed,
                  refl,
                  e,
                  validate_create_circuit-IsCreation services s _ header valid,
                )))))
  propose_action-IsOutcome circuit_proposal_vote e =
      raise_then (IsOutcome services payload s) s (λ e. refl) _ _ _
        (λ p opened.
          check_then (IsOutcome services payload s) s (λ e. refl) _ _
            (λ valid. rw e at (
              propose-IsOutcome _ (
                inr
                  (p, refl, e, validate_circuit_vote-IsVote services s _ header p opened valid)))))
  propose_action-IsOutcome action_unset e = refl
  propose_action-IsOutcome circuit_update_roster_request e = refl
  propose_action-IsOutcome circuit_update_add_node e = refl
  propose_action-IsOutcome circuit_update_remove_node e = refl
  propose_action-IsOutcome circuit_update_application_metadata_request e = refl
  propose_action-IsOutcome circuit_join_request e = refl
  propose_action-IsOutcome circuit_destroy_request e = refl
  propose_action-IsOutcome circuit_abandon e = refl

-- A payload changes the state only when `propose_change` succeeds. Then the change and the
-- members' services are pending, with the hash that is returned, and the change was allowed: a
-- valid circuit whose id is free, or the first vote of a node other than the requester on an open
-- proposal, each under a key that is registered for the node that the header names.
pub propose_change-IsOutcome :
    (services : Services) (payload : CircuitManagementPayload) (s : AdminServiceShared)
    → IsOutcome services payload s (propose_change services payload s)
unfolding propose_change
propose_change-IsOutcome services payload s =
    raise_then (IsOutcome services payload s) s (λ e. refl) _ (services.parse_header payload.header)
      _
      (λ header read.
        check_then (IsOutcome services payload s) s (λ e. refl)
          (validate_circuit_management_payload payload header)
          (check (verify_signature services payload header)
            >> propose_action services header.action payload header)
          (λ _.
            check_then (IsOutcome services payload s) s (λ e. refl)
              (verify_signature services payload header)
              (propose_action services header.action payload header)
              (λ _. propose_action-IsOutcome services payload header s read header.action refl)))
