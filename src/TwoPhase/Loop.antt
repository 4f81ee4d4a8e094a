-- ===== src/TwoPhase/Loop.antt =====
-- The invariant through the main loop of libsplinter/src/consensus/two_phase/mod.rs, and what it
-- says of a whole run.
use splinter.Prelude.{
  ℕ, ◌≡◌, refl, Bool, true, Option, none, some, List, [], ◌∷◌, take_first, Bool-cases, inl, inr,
  bytes_eq,
}
use splinter.Prelude.Exec.{Preserves}
use splinter.TwoPhase.Model.{
  PeerId, ProposalId, TwoPhaseProposal, State, idle, awaiting_proposal, evaluating_proposal,
  create_proposal, updated, called, ConsensusMessage, ProposalUpdate, shutdown, World, Env, modify,
  try_call,
}
use splinter.TwoPhase.Coordination.{set_state}
use splinter.TwoPhase.Messages.{has_id}
use splinter.TwoPhase.Run.{
  is_idle, set_backlog, set_requests, is_coordinated_by, Recv, message, timeout, disconnected,
  Round, check_requested, take_requested, handle_backlogged_verification_request, next_of_backlog,
  get_next_proposal, before_receiving, take_message, take_update, receive_update, receive, round,
  run_loop,
}
use splinter.TwoPhase.Kept.{
  Kept-take, Kept-idle, Kept-awaiting, Kept-evaluate, IsFresh, IsFresh-cons,
}
use splinter.TwoPhase.Invariant.{
  Inv, note-Inv, change-Inv, checked_modify-Inv, abort-Inv, start_coordination-Inv,
}
use splinter.TwoPhase.Handlers.{handle_consensus_msg-Inv}
use splinter.TwoPhase.Rounds.{handle_proposal_update-Inv}

module _ (env : Env) (self : PeerId) (peers : List PeerId) where
  idle_of : (s : State) → is_idle s ≡ true → s ≡ idle
  idle_of idle h = refl
  idle_of awaiting_proposal h = cc
  idle_of (evaluating_proposal p) h = cc

  -- Taking a proposal out of the backlog of an idle engine.
  set_backlog-Inv :
      (test : TwoPhaseProposal → Bool) (w : World) (p : TwoPhaseProposal)
      (rest : List TwoPhaseProposal)
      → take_first test w.engine.proposal_backlog ≡ some (p, rest)
      → w.engine.state ≡ idle
      → Inv env self peers w
      → IsFresh env self peers w.log p rest × Inv env self peers (modify (set_backlog rest) w).1
  set_backlog-Inv test w p rest e i h =
      let t =
        Kept-take env self peers test w.log w.engine.state w.engine.proposal_backlog p rest e
          h.kept in
      (t.0, change-Inv env self peers (set_backlog rest) w refl refl (rw i t.1) h)

  check_requested-Inv :
      (pid : ProposalId) (w : World) (found : Option (TwoPhaseProposal × List TwoPhaseProposal))
      → take_first (has_id pid) w.engine.proposal_backlog ≡ found
      → w.engine.state ≡ idle
      → Inv env self peers w
      → Inv env self peers (check_requested env pid found w).1
  unfolding modify
  check_requested-Inv pid w none e i h = h
  check_requested-Inv pid w (some (p, rest)) e i h =
      let (f, taken) = set_backlog-Inv (has_id pid) w p rest e i h in
      checked_modify-Inv env self peers pid (set_state (evaluating_proposal p)) _
        (λ x n.
          change-Inv env self peers (set_state (evaluating_proposal p)) _ refl refl
            (Kept-evaluate env self peers _ p w.engine.state rest
              (IsFresh-cons env self peers x w.log p rest f) n.kept)
            n)
        taken

  take_requested-Inv :
      (found : Option (ProposalId × List ProposalId)) (w : World)
      → w.engine.state ≡ idle
      → Inv env self peers w
      → Inv env self peers (take_requested env found w).1
  unfolding modify
  take_requested-Inv none w i h = h
  take_requested-Inv (some (pid, requests)) w i h =
      check_requested-Inv pid (record w { engine = set_requests requests w.engine }) _ refl i
        (change-Inv env self peers (set_requests requests) w refl refl h.kept h)

  handle_backlogged-Inv :
      Preserves (Inv env self peers) (handle_backlogged_verification_request env)
  unfolding handle_backlogged_verification_request
  handle_backlogged-Inv = record {
    at = λ w h. elim (Bool-cases (is_idle w.engine.state)) [
      | inl e ↦ rw e (take_requested-Inv _ w (idle_of w.engine.state e) h)
      | inr e ↦ rw e h
    ];
  }

  next_of_backlog-Inv :
      (now : ℕ) (w : World) (found : Option (TwoPhaseProposal × List TwoPhaseProposal))
      → take_first (is_coordinated_by w.engine.id) w.engine.proposal_backlog ≡ found
      → w.engine.state ≡ idle
      → Inv env self peers w
      → Inv env self peers (next_of_backlog env now found w).1
  unfolding modify try_call
  next_of_backlog-Inv now w (some (p, rest)) e i h =
      let (f, taken) = set_backlog-Inv (is_coordinated_by w.engine.id) w p rest e i h in
      start_coordination-Inv env self peers p now _ f taken
  next_of_backlog-Inv now w none e i h =
      let noted =
        note-Inv env self peers (called create_proposal (env.answer w.log create_proposal)) w tt
          h in
      elim (Bool-cases (env.answer w.log create_proposal)) [
        | inl y ↦ rw y (
            change-Inv env self peers (set_state awaiting_proposal) _ refl refl
              (Kept-awaiting env self peers _ w.engine.proposal_backlog (
                Kept-idle env self peers _ w.engine.state w.engine.proposal_backlog
                  (rw y at noted).kept))
              (rw y at noted))
        | inr n ↦ rw n (rw n at noted)
      ]

  get_next_proposal-Inv : (now : ℕ) → Preserves (Inv env self peers) (get_next_proposal env now)
  unfolding get_next_proposal
  get_next_proposal-Inv now = record {
    at = λ w h. elim (Bool-cases (is_idle w.engine.state)) [
      | inl e ↦ rw e (next_of_backlog-Inv now w _ refl (idle_of w.engine.state e) h)
      | inr e ↦ rw e h
    ];
  }

  before_receiving-Inv :
      (now : ℕ) (w : World) → Inv env self peers w → Inv env self peers (before_receiving env now w)
  unfolding before_receiving
  before_receiving-Inv now w h =
      (get_next_proposal-Inv now).at _
        (handle_backlogged-Inv.at _ ((abort-Inv env self peers now).at w h))

  take_message-Inv :
      (m : ConsensusMessage) (w : World)
      → Inv env self peers w
      → Inv env self peers (take_message env m w)
  unfolding take_message
  take_message-Inv = handle_consensus_msg-Inv env self peers

  take_update-Inv :
      (u : ProposalUpdate) (now : ℕ) (w : World)
      → Inv env self peers w
      → Inv env self peers (take_update env u now w)
  unfolding take_update
  take_update-Inv = handle_proposal_update-Inv env self peers

  receive_update-Inv :
      (u : Recv ProposalUpdate) (now : ℕ) (w : World)
      → Inv env self peers w
      → Inv env self peers (receive_update env u now w).0
  receive_update-Inv timeout now w h = h
  receive_update-Inv disconnected now w h = h
  receive_update-Inv (message shutdown) now w h = note-Inv env self peers (updated shutdown) w tt h
  receive_update-Inv (message u) now w h = take_update-Inv u now w h

  receive-Inv :
      (r : Round) (m : Recv ConsensusMessage) (w : World)
      → Inv env self peers w
      → Inv env self peers (receive env r m w).0
  receive-Inv r disconnected w h = h
  receive-Inv r timeout w h = receive_update-Inv r.proposal_update r.later w h
  receive-Inv r (message m) w h =
      receive_update-Inv r.proposal_update r.later _ (take_message-Inv m w h)

  pub run_loop-Inv :
      (rs : List Round) (w : World) → Inv env self peers w → Inv env self peers (run_loop env rs w)
  unfolding run_loop round
  run_loop-Inv [] w h = h
  run_loop-Inv (r ∷ rs) w h =
      let next = receive-Inv r r.consensus_message _ (before_receiving-Inv r.now w h) in
      elim (Bool-cases (round env r w).1) [
        | inl e ↦ rw e (run_loop-Inv rs (round env r w).0 next)
        | inr e ↦ rw e next
      ]
