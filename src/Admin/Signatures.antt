-- ===== src/Admin/Signatures.antt =====
-- What the verdicts on signatures and permissions do in libsplinter/src/admin/service/shared.rs.
use splinter.Prelude.{String, ◌≡◌, refl, Bool, Option, none, some, List, [], ◌∷◌, string_eq, Bytes}
use splinter.Prelude.Exec.{ok, err, ◌>>=◌, ◌>>◌}
use splinter.Admin.Proto.{
  SplinterNode, CircuitManagementPayload, Header, Action, circuit_create_request,
  circuit_proposal_vote, action_unset, circuit_update_roster_request, circuit_update_add_node,
  circuit_update_remove_node, circuit_update_application_metadata_request, circuit_join_request,
  circuit_destroy_request, circuit_abandon,
}
use splinter.Admin.Validation.{
  Check, validate_create_circuit, validate_circuit_vote, validate_circuit_management_payload,
}
use splinter.Admin.Shared.{
  AdminServiceShared, Services, AdminError, Method, check, or_raise, marshalling_error,
  propose_change, propose_create, propose_vote_change, propose_action, submit, submit_action,
  propose_circuit, connect_members,
}

-- What a verifier of signatures and the permissions of keys answer, when they do not fail.
pub record Verdicts : Type 0 where
  pub is_signature : Bytes → Bytes → Bytes → Bool
  pub is_permitted : Bytes → String → Bool

-- The services with these verdicts.
abbrev pub with_verdicts : Verdicts → Services → Services
with_verdicts verdicts services = record services {
  keys = record services.keys {
    verify = λ message signature key. ok (verdicts.is_signature message signature key);
    is_permitted = λ key role. ok (verdicts.is_permitted key role);
  };
}

module _ (v w : Verdicts) (services : Services) where
  connect_members-same :
      (self : String) (ms : List SplinterNode)
      → connect_members (with_verdicts v services) self ms
        ≡ connect_members (with_verdicts w services) self ms
  unfolding connect_members
  connect_members-same self [] = refl
  connect_members-same self (m ∷ ms) = rw (connect_members-same self ms)

  submit_action-same :
      (action : Action) (payload : CircuitManagementPayload) (s : AdminServiceShared)
      → submit_action (with_verdicts v services) action payload s
        ≡ submit_action (with_verdicts w services) action payload s
  unfolding propose_circuit
  submit_action-same circuit_create_request payload s =
      rw (connect_members-same s.node_id payload.circuit_create_request.members)
  submit_action-same circuit_proposal_vote payload s = refl
  submit_action-same action_unset payload s = refl
  submit_action-same circuit_update_roster_request payload s = refl
  submit_action-same circuit_update_add_node payload s = refl
  submit_action-same circuit_update_remove_node payload s = refl
  submit_action-same circuit_update_application_metadata_request payload s = refl
  submit_action-same circuit_join_request payload s = refl
  submit_action-same circuit_destroy_request payload s = refl
  submit_action-same circuit_abandon payload s = refl

  propose_action-same :
      (action : Action) (payload : CircuitManagementPayload) (header : Header)
      (s : AdminServiceShared)
      → propose_action (with_verdicts v services) action payload header s
        ≡ propose_action (with_verdicts w services) action payload header s
  unfolding propose_create propose_vote_change validate_create_circuit validate_circuit_vote
  propose_action-same circuit_create_request payload header s = refl
  propose_action-same circuit_proposal_vote payload header s = refl
  propose_action-same action_unset payload header s = refl
  propose_action-same circuit_update_roster_request payload header s = refl
  propose_action-same circuit_update_add_node payload header s = refl
  propose_action-same circuit_update_remove_node payload header s = refl
  propose_action-same circuit_update_application_metadata_request payload header s = refl
  propose_action-same circuit_join_request payload header s = refl
  propose_action-same circuit_destroy_request payload header s = refl
  propose_action-same circuit_abandon payload header s = refl

module _ {A B : Type 0} (s : AdminServiceShared) where
  same_after_or_raise :
      (e : AdminError) (o : Option A) (f g : A → Method B)
      → ((a : A) → f a s ≡ g a s)
      → (or_raise e o >>= f) s ≡ (or_raise e o >>= g) s
  same_after_or_raise e none f g h = refl
  same_after_or_raise e (some a) f g h = h a

same_after_check :
    {B : Type 0} (s : AdminServiceShared) (c : Check) (m n : Method B)
    → m s ≡ n s
    → (check c >> m) s ≡ (check c >> n) s
same_after_check s (ok u) m n h = h
same_after_check s (err e) m n h = refl

-- Any two verdicts on signatures and permissions lead to the same result and the same state, for
-- every payload, in `submit` and in `propose_change`: a signature that is found wrong is not
-- refused, and neither is a key without the role.
pub verdict_ignored :
    (v w : Verdicts) (services : Services) (payload : CircuitManagementPayload)
    (s : AdminServiceShared)
    → (submit (with_verdicts v services) payload s ≡ submit (with_verdicts w services) payload s)
      × (propose_change (with_verdicts v services) payload s
          ≡ propose_change (with_verdicts w services) payload s)
unfolding submit propose_change
verdict_ignored v w services payload s =
    let parsed = services.parse_header payload.header in
    (
      same_after_or_raise s marshalling_error parsed _ _ (λ header.
          same_after_check s (validate_circuit_management_payload payload header) _ _
            (submit_action-same v w services header.action payload s)),
      same_after_or_raise s marshalling_error parsed _ _ (λ header.
          same_after_check s (validate_circuit_management_payload payload header) _ _
            (propose_action-same v w services header.action payload header s)),
    )
