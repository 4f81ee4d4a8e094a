-- ===== src/Admin/Accepted.antt =====
-- An accepted proposal in `commit` of libsplinter/src/admin/service/shared.rs.
use splinter.Prelude.{
  String, ◌≡◌, refl, ◌∙◌, true, not, none, some, List, [], ◌∷◌, ◌==◌, string_eq, Bool-cases, inl,
  inr, keep, map,
}
use splinter.Prelude.Exec.{ok, err, bind_ok}
use splinter.Prelude.Map
use splinter.Circuit.State.{CircuitDirectory, SplinterState}
use splinter.Admin.Proto.{SplinterNode, Circuit}
use splinter.Admin.Messages
use splinter.Admin.Messages.{MarshallingError, proposal_from_proto}
use splinter.Admin.Validation.{accepted, check_approved, validate_circuit, node_ids}
use splinter.Admin.Shared.{CircuitProposalContext}
use splinter.Admin.OpenProposals.{ProposalRegistry, registry_remove, remove_proposal}
use splinter.Admin.OpenMap.{stored-abstract_map}
use splinter.Admin.Committed.{IsCommitted, update_splinter_state-IsCommitted}
use splinter.Admin.Events.{proposal_accepted}
use splinter.Admin.Commit.{
  Environment, CommitState, send_ready, drop_proposal, commit_accepted, commit, update_state,
  announce_ready, announce_accepted, add_uninitialized, invalid_message_format,
}

-- the circuit and the members to be told, the last told first, before what was sent
abbrev pub told : List (String × String) → List (String × String) → List (String × String)
told [] sent = sent
told (x ∷ xs) sent = told xs (x ∷ sent)

abbrev pub others_of : String → Circuit → List (String × String)
others_of self c = map (λ m. (c.circuit_id, m)) (keep (λ m. not (m == self)) (node_ids c.members))

-- The storage and the network take everything.
pub record Works (env : Environment) : Type 0 where
  pub stores : (d : CircuitDirectory) → env.can_store d ≡ true
  pub writes : (r : ProposalRegistry) → env.can_write r ≡ true
  pub sender : env.has_sender ≡ true
  pub encodes : env.can_encode ≡ true
  pub sends : (sent : List (String × String)) (to : String) → env.can_send sent to ≡ true

-- the state after the circuit is stored and the proposal is removed
abbrev pub decided : CircuitProposalContext → SplinterState → CommitState → CommitState
decided x state s = record s {
  pending_changes = none;
  splinter_state = state;
  open_proposals = Map.remove x.circuit_proposal.circuit_id s.open_proposals;
}

-- the state once the acceptance is reported and the members are told
abbrev pub announced : CircuitProposalContext → Messages.CircuitProposal → CommitState → CommitState
announced x m s =
    let c = x.circuit_proposal.circuit_proposal in
    record s {
      events = (c.circuit_management_type, proposal_accepted m x.signer_public_key) ∷ s.events;
      member_ready = told (others_of s.node_id c) s.member_ready;
    }

module _ (env : Environment) (works : Works env) where
  drop_proposal_ok :
      (id : String) (s : CommitState)
      → drop_proposal env id s
        ≡ (ok tt, record s { open_proposals = Map.remove id s.open_proposals })
  unfolding drop_proposal remove_proposal registry_remove
  drop_proposal_ok id s =
      rw (works.writes (Map.remove id s.open_proposals))
        (rw (stored-abstract_map (Map.lookup id s.open_proposals)) refl)

  send_ready_ok :
      (id : String) (ms : List SplinterNode) (s : CommitState)
      → send_ready env id ms s ≡ (
        ok tt,
        record s {
          member_ready =
              told
                (map (λ m. (id, m)) (keep (λ m. not (m == s.node_id)) (node_ids ms)))
                s.member_ready;
        },
      )
  unfolding send_ready keep
  send_ready_ok id [] s = refl
  send_ready_ok id (m ∷ ms) s = elim (Bool-cases (m.node_id == s.node_id)) [
    | inl e ↦ rw e (send_ready_ok id ms s)
    | inr e ↦ rw e (rw (works.sends s.member_ready m.node_id) (send_ready_ok id ms _))
  ]

  announce_ready_ok :
      (c : Circuit) (s : CommitState)
      → announce_ready env c s
        ≡ (ok tt, record s { member_ready = told (others_of s.node_id c) s.member_ready })
  unfolding send_ready
  announce_ready_ok c s =
      rw works.sender (rw works.encodes (send_ready_ok c.circuit_id c.members s))

  -- The first two calls succeed; what is left is the conversion and what follows it.
  commit_after_state :
      (x : CircuitProposalContext) (s : CommitState)
      → s.pending_changes ≡ some x
      → check_approved x.circuit_proposal ≡ accepted
      → validate_circuit s.node_id x.circuit_proposal.circuit_proposal ≡ ok tt
      → (state : SplinterState) × IsCommitted s.node_id x.circuit_proposal.circuit_proposal
          s.splinter_state state
        × (commit env s ≡ announce_accepted env x (decided x state s))
  unfolding commit commit_accepted
  commit_after_state x s e a v =
      let (state, updated, committed) =
        update_splinter_state-IsCommitted env.can_store s.node_id
          x.circuit_proposal.circuit_proposal s.splinter_state works.stores v in
      let s₀ : CommitState = record s { pending_changes = none } in
      let s₁ : CommitState = record s₀ { splinter_state = state } in
      let first : update_state env x.circuit_proposal.circuit_proposal s₀ ≡ (ok tt, s₁) =
        rw updated refl in
      (
        state,
        committed,
        rw e (
            rw a (
              bind_ok (update_state env x.circuit_proposal.circuit_proposal) _ s₀ first
              ∙ bind_ok (drop_proposal env x.circuit_proposal.circuit_id) _ s₁
                  (drop_proposal_ok x.circuit_proposal.circuit_id s₁))),
      )

  announce_accepted_ok :
      (x : CircuitProposalContext) (m : Messages.CircuitProposal) (s : CommitState)
      → proposal_from_proto x.circuit_proposal ≡ ok m
      → announce_accepted env x s ≡ add_uninitialized env x.circuit_proposal (announced x m s)
  announce_accepted_ok x m s h = rw h (
      bind_ok (announce_ready env x.circuit_proposal.circuit_proposal) _ _
        (announce_ready_ok x.circuit_proposal.circuit_proposal _))

-- In an environment where every call to the storage and the network succeeds, committing an accepted
-- proposal whose circuit passed the validation and whose message is valid stores the circuit in the
-- state, removes the proposal, reports it as accepted, sends MEMBER_READY to every other member, and
-- records that this node is ready, all in one call, whose result is that of the last part.
pub commit-accepted :
    (env : Environment) (x : CircuitProposalContext) (m : Messages.CircuitProposal)
    (s : CommitState)
    → Works env
    → s.pending_changes ≡ some x
    → check_approved x.circuit_proposal ≡ accepted
    → validate_circuit s.node_id x.circuit_proposal.circuit_proposal ≡ ok tt
    → proposal_from_proto x.circuit_proposal ≡ ok m
    → (state : SplinterState) × IsCommitted s.node_id x.circuit_proposal.circuit_proposal
        s.splinter_state state
      × (commit env s
          ≡ add_uninitialized env x.circuit_proposal (announced x m (decided x state s)))
commit-accepted env x m s works e a v h =
    let (state, committed, eq) = commit_after_state env works x s e a v in
    (state, committed, eq ∙ announce_accepted_ok env works x m (decided x state s) h)

-- If every call to the storage and the network succeeds, the commit of an accepted proposal whose
-- circuit passes the validation, but that does not convert into a message, as one with an unset
-- vote does not, fails although the circuit is stored and the proposal is removed: no event is sent, no
-- member is told, and this node is not ready for the circuit.
pub commit-message_invalid :
    (env : Environment) (x : CircuitProposalContext) (e : MarshallingError) (s : CommitState)
    → Works env
    → s.pending_changes ≡ some x
    → check_approved x.circuit_proposal ≡ accepted
    → validate_circuit s.node_id x.circuit_proposal.circuit_proposal ≡ ok tt
    → proposal_from_proto x.circuit_proposal ≡ err e
    → (state : SplinterState) × IsCommitted s.node_id x.circuit_proposal.circuit_proposal
        s.splinter_state state
      × (commit env s ≡ (err (invalid_message_format e), decided x state s))
commit-message_invalid env x e s works c a v h =
    let (state, committed, eq) = commit_after_state env works x s c a v in
    (state, committed, eq ∙ rw h refl)
