-- ===== src/Admin/Untouched.antt =====
-- The steps of `commit` of libsplinter/src/admin/service/shared.rs that leave the open proposals.
use splinter.Prelude.{String, List, [], ◌∷◌, ◌==◌, string_eq}
use splinter.Prelude.Exec.{Preserves, Preserves-bind, kept_if, Preserves-raise}
use splinter.Admin.Proto.{
  SplinterNode, Circuit, CircuitProposal, Action, circuit_create_request, circuit_proposal_vote,
  action_unset, circuit_update_roster_request, circuit_update_add_node, circuit_update_remove_node,
  circuit_update_application_metadata_request, circuit_join_request, circuit_destroy_request,
  circuit_abandon,
}
use splinter.Admin.Shared.{CircuitProposalContext}
use splinter.Admin.OpenProposals.{ProposalRegistry}
use splinter.Admin.Events.{AdminServiceEvent}
use splinter.Admin.Commit.{
  Environment, CommitState, send_ready, convert, send_event, update_state, announce_ready,
  add_uninitialized, announce_accepted, announce_pending,
}

module _ (P : ProposalRegistry → Type 0) where
  abbrev pub Held : CommitState → Type 0
  Held s = P s.open_proposals

  pub convert-Held : (p : CircuitProposal) → Preserves Held (convert p)
  convert-Held p = record { at = λ s h. h }

  pub send_event-Held : (t : String) (e : AdminServiceEvent) → Preserves Held (send_event t e)
  send_event-Held t e = record { at = λ s h. h }

  module _ (env : Environment) where
    pub update_state-Held : (c : Circuit) → Preserves Held (update_state env c)
    update_state-Held c = record { at = λ s h. h }

    add_uninitialized-Held : (p : CircuitProposal) → Preserves Held (add_uninitialized env p)
    add_uninitialized-Held p = record { at = λ s h. h }

    send_ready-Held : (id : String) (ms : List SplinterNode) → Preserves Held (send_ready env id ms)
    unfolding send_ready
    send_ready-Held id [] = record { at = λ s h. h }
    send_ready-Held id (m ∷ ms) = record {
      at = λ s h.
          let rest = send_ready-Held id ms in
          kept_if Held (m.node_id == s.node_id) _ _ (rest.at s h)
            (kept_if Held (env.can_send s.member_ready m.node_id) _ _ (rest.at _ h) h);
    }

    announce_ready-Held : (c : Circuit) → Preserves Held (announce_ready env c)
    announce_ready-Held c = record {
      at = λ s h.
          kept_if Held env.has_sender _ _
            (kept_if Held env.can_encode _ _ ((send_ready-Held c.circuit_id c.members).at s h) h) h;
    }

    ruleset held_rules = (
      Preserves-bind, Preserves-raise, add_uninitialized-Held, announce_ready-Held, send_event-Held,
      convert-Held,
    )

    pub announce_accepted-Held :
        (x : CircuitProposalContext) → Preserves Held (announce_accepted env x)
    announce_accepted-Held x = search held_rules depth 12

    pub announce_pending-Held :
        (a : Action) (x : CircuitProposalContext) → Preserves Held (announce_pending env a x)
    announce_pending-Held circuit_create_request x = search held_rules depth 12
    announce_pending-Held circuit_proposal_vote x = search held_rules depth 12
    announce_pending-Held action_unset x = search held_rules
    announce_pending-Held circuit_update_roster_request x = search held_rules
    announce_pending-Held circuit_update_add_node x = search held_rules
    announce_pending-Held circuit_update_remove_node x = search held_rules
    announce_pending-Held circuit_update_application_metadata_request x = search held_rules
    announce_pending-Held circuit_join_request x = search held_rules
    announce_pending-Held circuit_destroy_request x = search held_rules
    announce_pending-Held circuit_abandon x = search held_rules
