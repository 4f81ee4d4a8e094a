-- ===== src/TwoPhase/Rounds.antt =====
-- The invariant through the update handlers and the main loop of
-- libsplinter/src/consensus/two_phase/mod.rs.
use splinter.Prelude.{
  ℕ, ◌≡◌, refl, true, false, Option, none, some, List, [], ◌∷◌, arith, any, ◌==◌, bytes_eq,
  bytes_beq_iff, eq_comm, Bytes, ◌⊎◌, Bool-cases, Option-cases, inl, inr,
}
use splinter.Prelude.Exec.{ok, err, Preserves, bind_at}
use splinter.Prelude.Sets
use splinter.Prelude.Sets.{from_list}
use splinter.TwoPhase.Order.{minimum, minimum-IsLeast}
use splinter.TwoPhase.Model.{
  PeerId, ProposalId, Proposal, ProposalUpdate, proposal_created, proposal_received, proposal_valid,
  proposal_invalid, proposal_accepted, proposal_accept_failed, shutdown, VerificationResponse,
  verified, failed, TwoPhaseProposal, State, idle, awaiting_proposal, evaluating_proposal,
  reject_proposal, Entry, protobuf_error, updated, World, Env, note, modify, call,
}
use splinter.TwoPhase.Coordination.{in_backlog, set_state}
use splinter.TwoPhase.Messages.{add_verified_peer}
use splinter.TwoPhase.Updates.{
  new_proposal, push_proposal, await_to_idle, verifiers_of, place_proposal, assign_coordinator,
  handle_proposal, respond_to_coordinator, broadcast_request, request_verification,
  proposal_is_valid, proposal_is_invalid, handle_proposal_update,
}
use splinter.TwoPhase.Backlog.{tracked}
use splinter.TwoPhase.History.{Announced, required_of, vouched}
use splinter.TwoPhase.Kept.{Kept, IsFresh, Kept-push, Kept-vouch}
use splinter.TwoPhase.Invariant.{
  Inv, inv_rules, note-Inv, change-Inv, reject-Inv, idle-Inv, reject_proposal-Inv,
  start_coordination-Inv,
}

module _ (env : Env) (self : PeerId) (peers : List PeerId) where
  -- A proposal that is new beside the backlog and is not the one under evaluation goes into it.
  push_proposal-Inv :
      (p : TwoPhaseProposal) (w : World)
      → IsFresh env self peers w.log p (tracked w.engine.state w.engine.proposal_backlog)
      → Inv env self peers w
      → Inv env self peers (modify (push_proposal p) w).1
  push_proposal-Inv p w f h =
      change-Inv env self peers (push_proposal p) w refl refl
        (Kept-push env self peers w.log p w.engine.state w.engine.proposal_backlog f h.kept) h

  beside :
      (p c : TwoPhaseProposal) (log : List Entry) (ps : List TwoPhaseProposal)
      → (p.proposal_id == c.proposal_id) ≡ false
      → IsFresh env self peers log p ps
      → IsFresh env self peers log p (c ∷ ps)
  unfolding any
  beside p c log ps q f = record {
    absent = ground (arith, f.absent, eq_comm p.proposal_id c.proposal_id);
    sourced = f.sourced;
    unverified = f.unverified;
  }

  place_proposal-Inv :
      (p : TwoPhaseProposal) (now : ℕ) (s : State) (w : World)
      → w.engine.state ≡ s
      → IsFresh env self peers w.log p w.engine.proposal_backlog
      → Inv env self peers w
      → Inv env self peers (place_proposal env p now s w).1
  place_proposal-Inv p now idle w e f h = elim (Bool-cases (w.engine.id == p.coordinator_id)) [
    | inl q ↦ rw q (start_coordination-Inv env self peers p now w f h)
    | inr q ↦ rw q (push_proposal-Inv p w (rw e f) h)
  ]
  place_proposal-Inv p now awaiting_proposal w e f h =
      elim (Bool-cases (w.engine.id == p.coordinator_id)) [
        | inl q ↦ rw q (start_coordination-Inv env self peers p now w f h)
        | inr q ↦ rw q (push_proposal-Inv p w (rw e f) h)
      ]
  place_proposal-Inv p now (evaluating_proposal c) w e f h =
      elim (Bool-cases (p.proposal_id == c.proposal_id)) [
        | inl q ↦ rw q h
        | inr q ↦
            rw q (push_proposal-Inv p w (rw e (beside p c w.log w.engine.proposal_backlog q f)) h)
      ]

  assign_coordinator-Inv :
      (pid : ProposalId) (q : Proposal) (vs : List PeerId) (now : ℕ) (w : World) (c : Option PeerId)
      → minimum vs ≡ c
      → q.id ≡ pid
      → Announced q w.log
      → required_of env self peers q ≡ some vs
      → in_backlog pid w.engine.proposal_backlog ≡ false
      → Inv env self peers w
      → Inv env self peers (assign_coordinator env pid vs now c w).1
  unfolding assign_coordinator new_proposal
  assign_coordinator-Inv pid q vs now w none m i a r f h =
      bind_at (call env (reject_proposal pid)) _ w ((reject_proposal-Inv env self peers pid).at w h)
        (λ _. idle-Inv env self peers)
  assign_coordinator-Inv pid q vs now w (some c) m i a r f h =
      place_proposal-Inv (new_proposal pid c vs) now w.engine.state w refl
        (record {
          absent = f;
          sourced = record {
            led = minimum-IsLeast vs c m;
            source = q;
            announced = a;
            same_id = i;
            required = r;
          };
          unverified = refl;
        })
        h

  -- The verifiers that the handler computes are those that the proposal requires.
  abbrev VerifiersOf : Proposal → World → Type 0
  VerifiersOf q w =
      ((vs : List PeerId) × (verifiers_of env q w ≡ (ok vs, w))
        × (required_of env self peers q ≡ some vs))
      ⊎ (verifiers_of env q w ≡ (err protobuf_error, w))

  VerifiersOf-cases :
      (q : Proposal) (w : World) (bytes : Bytes)
      → q.consensus_data ≡ bytes
      → Inv env self peers w
      → VerifiersOf q w
  unfolding verifiers_of
  VerifiersOf-cases q w [] e h = inl (
    Sets.insert w.engine.id w.engine.peers,
    rw (e, verifiers_of),
    rw (e, h.self_id, h.same_peers),
  )
  VerifiersOf-cases q w (b ∷ bs) e h = elim (Option-cases (env.parse_verifiers (b ∷ bs))) [
    | inl n ↦ inr (rw (e, verifiers_of, n))
    | inr (vs, n) ↦ inl (from_list vs, rw (e, verifiers_of, n), rw (e, n))
  ]

  handle_proposal-Inv :
      (q : Proposal) (now : ℕ) (w : World)
      → Announced q w.log
      → Inv env self peers w
      → Inv env self peers (handle_proposal env q now w).1
  handle_proposal-Inv q now w a h = elim (Bool-cases (in_backlog q.id w.engine.proposal_backlog)) [
    | inl e ↦ unfold handle_proposal in rw e h
    | inr e ↦
        unfold handle_proposal in
        rw e (elim (VerifiersOf-cases q w q.consensus_data refl h) [
          | inl (vs, v, r) ↦
              rw v (assign_coordinator-Inv q.id q vs now w (minimum vs) refl refl a r e h)
          | inr v ↦ rw v h
        ])
  ]

  respond_to_coordinator-Inv :
      (p : TwoPhaseProposal) (r : VerificationResponse)
      → Preserves (Inv env self peers) (respond_to_coordinator env p r)
  respond_to_coordinator-Inv p r = search inv_rules

  broadcast_request-Inv :
      (p : TwoPhaseProposal) → Preserves (Inv env self peers) (broadcast_request env p)
  broadcast_request-Inv p = search inv_rules

  request_verification-Inv :
      (p : TwoPhaseProposal) (w : World)
      → w.engine.state ≡ evaluating_proposal p
      → vouched env self peers w.log p.proposal_id self ≡ true
      → Inv env self peers w
      → Inv env self peers (request_verification env p w).1
  request_verification-Inv p w e v h =
      let p' = add_verified_peer w.engine.id p in
      let old : Kept env self peers w.log (evaluating_proposal p) w.engine.proposal_backlog =
        rw e at h.kept in
      let new =
        Kept-vouch env self peers w.log p w.engine.proposal_backlog w.engine.id (rw h.self_id v)
          old in
      bind_at (modify (set_state (evaluating_proposal p'))) _ w
        (change-Inv env self peers (set_state (evaluating_proposal p')) w refl refl new h)
        (λ _. broadcast_request-Inv p)

  proposal_is_valid-Inv :
      (pid : ProposalId) (s : State) (w : World)
      → w.engine.state ≡ s
      → vouched env self peers w.log pid self ≡ true
      → Inv env self peers w
      → Inv env self peers (proposal_is_valid env pid s w).1
  proposal_is_valid-Inv pid idle w e v h = h
  proposal_is_valid-Inv pid awaiting_proposal w e v h = h
  proposal_is_valid-Inv pid (evaluating_proposal p) w e v h =
      elim (Bool-cases (p.proposal_id == pid)) [
        | inr n ↦ rw n h
        | inl y ↦ elim (Bool-cases (w.engine.id == p.coordinator_id)) [
          | inl c ↦
              rw (y, c)
                (request_verification-Inv p w e (rw ((bytes_beq_iff p.proposal_id pid).0 y) v) h)
          | inr c ↦ rw (y, c) ((respond_to_coordinator-Inv p verified).at w h)
        ]
      ]

  proposal_is_invalid-Inv :
      (pid : ProposalId) (s : State) (w : World)
      → Inv env self peers w
      → Inv env self peers (proposal_is_invalid env pid s w).1
  proposal_is_invalid-Inv pid idle w h = h
  proposal_is_invalid-Inv pid awaiting_proposal w h = h
  proposal_is_invalid-Inv pid (evaluating_proposal p) w h =
      elim (Bool-cases (p.proposal_id == pid)) [
        | inr n ↦ rw n h
        | inl y ↦ elim (Bool-cases (w.engine.id == p.coordinator_id)) [
          | inl c ↦ rw (y, c) ((reject-Inv env self peers pid).at w h)
          | inr c ↦ rw (y, c) ((respond_to_coordinator-Inv p failed).at w h)
        ]
      ]

  vouched_of_valid :
      (pid : ProposalId) (log : List Entry)
      → vouched env self peers (updated (proposal_valid pid) ∷ log) pid self ≡ true
  unfolding vouched any
  vouched_of_valid pid log = ground (arith, bytes_beq_iff pid pid, bytes_beq_iff self self)

  to_idle-Inv :
      (s : State) (w : World)
      → w.engine.state ≡ s
      → Inv env self peers w
      → Inv env self peers (record w { engine = set_state (await_to_idle s) w.engine })
  to_idle-Inv idle w e h = unfold modify in (idle-Inv env self peers).at w h
  to_idle-Inv awaiting_proposal w e h = unfold modify in (idle-Inv env self peers).at w h
  to_idle-Inv (evaluating_proposal p) w e h = rw (← e) h

  -- An update, once noted in the history, keeps the invariant.
  pub handle_proposal_update-Inv :
      (u : ProposalUpdate) (now : ℕ) (w : World)
      → Inv env self peers w
      → Inv env self peers (handle_proposal_update env u now (note (updated u) w)).1
  unfolding handle_proposal_update
  handle_proposal_update-Inv u now w h = go u (note-Inv env self peers (updated u) w tt h)
    where
      go :
          (u : ProposalUpdate)
          → Inv env self peers (note (updated u) w)
          → Inv env self peers (handle_proposal_update env u now (note (updated u) w)).1
      go (proposal_created none) n = to_idle-Inv w.engine.state _ refl n
      go (proposal_created (some q)) n = handle_proposal-Inv q now _ (inl refl) n
      go (proposal_received q peer) n = handle_proposal-Inv q now _ (inl refl) n
      go (proposal_valid pid) n =
          proposal_is_valid-Inv pid w.engine.state _ refl (vouched_of_valid pid w.log) n
      go (proposal_invalid pid) n = proposal_is_invalid-Inv pid w.engine.state _ n
      go (proposal_accepted pid) n = n
      go (proposal_accept_failed pid reason) n = n
      go shutdown n = n
