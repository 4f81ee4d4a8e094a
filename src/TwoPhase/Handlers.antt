-- ===== src/TwoPhase/Handlers.antt =====
-- The invariant through the message and update handlers of
-- libsplinter/src/consensus/two_phase/mod.rs.
use splinter.Prelude.{
  ◌≡◌, refl, true, Option, none, some, List, ◌∷◌, arith, any, take_first, bytes_eq, bytes_beq_iff,
  Bool-cases, Option-cases, inl, inr,
}
use splinter.Prelude.Exec.{Preserves, bind_at}
use splinter.Prelude.Sets.{set_eq, set_eq_iff}
use splinter.TwoPhase.Model.{
  PeerId, ProposalId, ConsensusMessage, TwoPhaseMessage, MessageType, unset_type,
  proposal_verification_request, proposal_verification_response, proposal_result,
  VerificationResponse, unset_verification_response, verified, failed, ProposalResult, unset_result,
  apply, reject, TwoPhaseProposal, State, idle, awaiting_proposal, evaluating_proposal,
  accept_proposal, reject_proposal, Entry, received, World, Env, note, modify, call,
}
use splinter.TwoPhase.Coordination.{evaluating, evaluates, set_state}
use splinter.TwoPhase.Messages.{
  add_verified_peer, push_request, evaluate_from_backlog, has_id, occupied, check_backlogged,
  verification_request, count_verified, respond, verification_response, reset_if_evaluating,
  receive_result, dispatch_message, handle_consensus_msg,
}
use splinter.TwoPhase.History.{Justified, vouched}
use splinter.TwoPhase.Kept.{Kept, Kept-take, Kept-vouch, Kept-evaluate}
use splinter.TwoPhase.Invariant.{
  Inv, note-Inv, change-Inv, call-Inv, apply-Inv, checked_modify-Inv, reject_proposal-Inv,
  reject-Inv, idle-Inv,
}

module _ (env : Env) (self : PeerId) (peers : List PeerId) where
  push_request-Inv : (pid : ProposalId) → Preserves (Inv env self peers) (modify (push_request pid))
  push_request-Inv pid = record {
    at = λ w h. change-Inv env self peers (push_request pid) w refl refl h.kept h;
  }

  reset-Inv : (pid : ProposalId) → Preserves (Inv env self peers) (modify (reset_if_evaluating pid))
  unfolding modify
  reset-Inv pid = record {
    at = λ w h. elim (Bool-cases (evaluating w.engine pid)) [
      | inl e ↦ rw (e, reset_if_evaluating) ((idle-Inv env self peers).at w h)
      | inr e ↦ rw (e, reset_if_evaluating) h
    ];
  }

  check_backlogged-Inv :
      (pid : ProposalId) (w : World) (found : Option (TwoPhaseProposal × List TwoPhaseProposal))
      → take_first (has_id pid) w.engine.proposal_backlog ≡ found
      → Inv env self peers w
      → Inv env self peers (check_backlogged env pid found w).1
  check_backlogged-Inv pid w none e h = (push_request-Inv pid).at w h
  check_backlogged-Inv pid w (some (p, rest)) e h =
      checked_modify-Inv env self peers pid (evaluate_from_backlog p rest) w
        (λ x n.
          let t =
            Kept-take env self peers (has_id pid) _ w.engine.state w.engine.proposal_backlog p rest
              e n.kept in
          change-Inv env self peers (evaluate_from_backlog p rest) (note x w) refl refl
            (Kept-evaluate env self peers _ p idle rest t.0 t.1) n)
        h

  verification_request-Inv :
      (pid : ProposalId) → Preserves (Inv env self peers) (verification_request env pid)
  unfolding verification_request
  verification_request-Inv pid = record {
    at = λ w h. elim (Bool-cases (occupied w.engine.state pid)) [
      | inl e ↦ rw e ((push_request-Inv pid).at w h)
      | inr e ↦ rw e (check_backlogged-Inv pid w _ refl h)
    ];
  }

  receive_result-Inv :
      (pid : ProposalId) (r : ProposalResult) (w : World)
      → (r ≡ apply → Justified env self peers w.log pid)
      → Inv env self peers w
      → Inv env self peers (receive_result env pid r w).1
  receive_result-Inv pid unset_result w j h = unfold receive_result in h
  receive_result-Inv pid reject w j h =
      unfold receive_result in
      bind_at (call env (reject_proposal pid)) _ w ((reject_proposal-Inv env self peers pid).at w h)
        (λ _. reset-Inv pid)
  receive_result-Inv pid apply w j h =
      unfold receive_result in
      elim (Bool-cases (evaluating w.engine pid)) [
        | inl e ↦ rw e (
            bind_at (call env (accept_proposal pid)) _ w
              (call-Inv env self peers (accept_proposal pid) w (j refl) h)
              (λ _. idle-Inv env self peers))
        | inr e ↦ rw e h
      ]

  -- The required verifiers of a proposal that is verified by all of them justify its commit.
  Justified-of_verified :
      (log : List Entry) (p : TwoPhaseProposal) (ps : List TwoPhaseProposal)
      → Kept env self peers log (evaluating_proposal p) ps
      → set_eq p.peers_verified p.required_verifiers ≡ true
      → Justified env self peers log p.proposal_id
  Justified-of_verified log p ps k e = inr (
    k.sourced.0.source,
    p.required_verifiers,
    k.sourced.0.announced,
    k.sourced.0.same_id,
    k.sourced.0.required,
    λ v m. k.evaluated v (((set_eq_iff p.peers_verified p.required_verifiers).0 e).1 v m),
  )

  count_verified-Inv :
      (pid : ProposalId) (origin : PeerId) (w : World) (s : State)
      → w.engine.state ≡ s
      → evaluates s pid ≡ true
      → vouched env self peers w.log pid origin ≡ true
      → Inv env self peers w
      → Inv env self peers (count_verified env pid origin s w).1
  unfolding add_verified_peer
  count_verified-Inv pid origin w idle e v k h = h
  count_verified-Inv pid origin w awaiting_proposal e v k h = h
  count_verified-Inv pid origin w (evaluating_proposal p) e v k h =
      unfold modify in
      let p' = add_verified_peer origin p in
      let same : p.proposal_id ≡ pid = (bytes_beq_iff p.proposal_id pid).0 v in
      let old : Kept env self peers w.log (evaluating_proposal p) w.engine.proposal_backlog =
        rw e at h.kept in
      let new =
        Kept-vouch env self peers w.log p w.engine.proposal_backlog origin (rw same k) old in
      let counted =
        change-Inv env self peers (set_state (evaluating_proposal p')) w refl refl new h in
      elim (Bool-cases (set_eq p'.peers_verified p'.required_verifiers)) [
        | inl q ↦ rw q (
            apply-Inv env self peers pid _
              (rw same at (Justified-of_verified w.log p' w.engine.proposal_backlog new q))
              (unfold modify in counted))
        | inr q ↦ rw q (unfold modify in counted)
      ]

  respond-Inv :
      (pid : ProposalId) (origin : PeerId) (r : VerificationResponse) (w : World)
      → evaluating w.engine pid ≡ true
      → (r ≡ verified → vouched env self peers w.log pid origin ≡ true)
      → Inv env self peers w
      → Inv env self peers (respond env pid origin r w).1
  unfolding evaluating
  respond-Inv pid origin verified w e v h =
      count_verified-Inv pid origin w w.engine.state refl e (v refl) h
  respond-Inv pid origin failed w e v h = (reject-Inv env self peers pid).at w h
  respond-Inv pid origin unset_verification_response w e v h = h

  verification_response-Inv :
      (pid : ProposalId) (origin : PeerId) (r : VerificationResponse) (w : World)
      → (r ≡ verified → vouched env self peers w.log pid origin ≡ true)
      → Inv env self peers w
      → Inv env self peers (verification_response env pid origin r w).1
  unfolding verification_response
  verification_response-Inv pid origin r w v h = elim (Bool-cases (evaluating w.engine pid)) [
    | inl e ↦ rw e (respond-Inv pid origin r w e v h)
    | inr e ↦ rw e h
  ]

  -- What a message says stands in the history that ends with it.
  vouched_of_message :
      (m : ConsensusMessage) (t : TwoPhaseMessage) (log : List Entry)
      → env.parse_message m.message ≡ some t
      → t.message_type ≡ proposal_verification_response
      → t.verification_response ≡ verified
      → vouched env self peers (received m ∷ log) t.proposal_id m.origin_id ≡ true
  unfolding vouched any
  vouched_of_message m t log e i v =
      rw (e, i, v)
        (ground
          (arith, bytes_beq_iff m.origin_id m.origin_id, bytes_beq_iff t.proposal_id t.proposal_id))

  Justified-of_message :
      (m : ConsensusMessage) (t : TwoPhaseMessage) (log : List Entry)
      → env.parse_message m.message ≡ some t
      → t.message_type ≡ proposal_result
      → t.result ≡ apply
      → Justified env self peers (received m ∷ log) t.proposal_id
  unfolding any
  Justified-of_message m t log e i v =
      inl (rw (e, i, v) (ground (arith, bytes_beq_iff t.proposal_id t.proposal_id)))

  dispatch_message-Inv :
      (m : ConsensusMessage) (t : TwoPhaseMessage) (ty : MessageType) (w : World)
      → env.parse_message m.message ≡ some t
      → t.message_type ≡ ty
      → Inv env self peers w
      → Inv env self peers (dispatch_message env ty t m.origin_id (note (received m) w)).1
  dispatch_message-Inv m t unset_type w e i h = note-Inv env self peers (received m) w tt h
  dispatch_message-Inv m t proposal_verification_request w e i h =
      (verification_request-Inv t.proposal_id).at _ (note-Inv env self peers (received m) w tt h)
  dispatch_message-Inv m t proposal_verification_response w e i h =
      verification_response-Inv t.proposal_id m.origin_id t.verification_response _
        (vouched_of_message m t w.log e i) (note-Inv env self peers (received m) w tt h)
  dispatch_message-Inv m t proposal_result w e i h =
      receive_result-Inv t.proposal_id t.result _ (Justified-of_message m t w.log e i)
        (note-Inv env self peers (received m) w tt h)

  -- A message, once noted in the history, keeps the invariant.
  pub handle_consensus_msg-Inv :
      (m : ConsensusMessage) (w : World)
      → Inv env self peers w
      → Inv env self peers (handle_consensus_msg env m (note (received m) w)).1
  unfolding handle_consensus_msg
  handle_consensus_msg-Inv m w h = elim (Option-cases (env.parse_message m.message)) [
    | inl e ↦ rw e (note-Inv env self peers (received m) w tt h)
    | inr (t, e) ↦ rw e (dispatch_message-Inv m t t.message_type w e refl h)
  ]
