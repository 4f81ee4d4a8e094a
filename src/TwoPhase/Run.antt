-- ===== src/TwoPhase/Run.antt =====
-- The backlog and the main loop of libsplinter/src/consensus/two_phase/mod.rs. What the two channels
-- deliver in each round is a list of rounds; the loop ends with the list, as it ends when a channel
-- closes.
use splinter.Prelude.{
  ℕ, Bool, true, false, Option, none, some, List, [], ◌∷◌, ◌==◌, bytes_eq, take_first,
  if◌then◌else◌,
}
use splinter.Prelude.Exec.{ok, ◌>>=◌, ◌>>◌, pure}
use splinter.Prelude.Sets
use splinter.TwoPhase.Model.{
  PeerId, ProposalId, ProposalUpdate, shutdown, ConsensusMessage, TwoPhaseProposal, State, idle,
  awaiting_proposal, evaluating_proposal, TwoPhaseEngine, create_proposal, check_proposal, received,
  updated, World, Env, Action, note, modify, try_call, call,
}
use splinter.TwoPhase.Coordination.{
  set_state, in_backlog, start_coordination, abort_proposal_if_timed_out,
}
use splinter.TwoPhase.Messages.{has_id, handle_consensus_msg}
use splinter.TwoPhase.Updates.{handle_proposal_update}

abbrev pub is_idle : State → Bool
is_idle idle = true
is_idle awaiting_proposal = false
is_idle (evaluating_proposal p) = false

abbrev pub set_backlog : List TwoPhaseProposal → TwoPhaseEngine → TwoPhaseEngine
set_backlog ps e = record e { proposal_backlog = ps }

abbrev pub set_requests : List ProposalId → TwoPhaseEngine → TwoPhaseEngine
set_requests rs e = record e { verification_request_backlog = rs }

abbrev pub is_coordinated_by : PeerId → TwoPhaseProposal → Bool
is_coordinated_by id p = p.coordinator_id == id

-- What `recv_timeout` returns.
pub data Recv (A : Type 0) : Type 0 where
  message : A → Recv A
  timeout : Recv A
  disconnected : Recv A

-- One round of the loop: what the channels deliver and what the clock reads in its two parts.
pub record Round : Type 0 where
  pub now : ℕ
  pub consensus_message : Recv ConsensusMessage
  pub proposal_update : Recv ProposalUpdate
  pub later : ℕ

module _ (env : Env) where
  -- The request's proposal is in the backlog, by the search before it: the source's `unwrap` does
  -- not fail, and the case `none` is not met.
  abbrev pub check_requested :
      ProposalId → Option (TwoPhaseProposal × List TwoPhaseProposal) → Action (Unit {0})
  check_requested pid none = pure tt
  check_requested pid (some (p, rest)) = do
    modify (set_backlog rest)
    call env (check_proposal pid)
    modify (set_state (evaluating_proposal p))

  abbrev pub take_requested : Option (ProposalId × List ProposalId) → Action (Unit {0})
  take_requested none w = (ok tt, w)
  take_requested (some (pid, requests)) w =
      (do
        modify (set_requests requests)
        check_requested pid (take_first (has_id pid) w.engine.proposal_backlog))
        w

  unfoldable pub handle_backlogged_verification_request : Action (Unit {0})
  handle_backlogged_verification_request w =
      if is_idle w.engine.state
      then take_requested
          (take_first (λ pid. in_backlog pid w.engine.proposal_backlog)
            w.engine.verification_request_backlog)
          w
      else (ok tt, w)

  abbrev pub next_of_backlog :
      ℕ → Option (TwoPhaseProposal × List TwoPhaseProposal) → Action (Unit {0})
  next_of_backlog now (some (p, rest)) w =
      (ok tt, (start_coordination env p now (record w { engine = set_backlog rest w.engine })).1)
  next_of_backlog now none w =
      (do
        created ← try_call env create_proposal
        if created then modify (set_state awaiting_proposal) else pure tt)
        w

  unfoldable pub get_next_proposal : ℕ → Action (Unit {0})
  get_next_proposal now w =
      if is_idle w.engine.state
      then next_of_backlog now
          (take_first (is_coordinated_by w.engine.id) w.engine.proposal_backlog) w
      else (ok tt, w)

  -- The loop's first part; errors are logged and dropped.
  unfoldable pub before_receiving : ℕ → World → World
  before_receiving now w =
      let aborted = (abort_proposal_if_timed_out env now w).1 in
      let handled = (handle_backlogged_verification_request aborted).1 in
      (get_next_proposal now handled).1

  unfoldable pub take_message : ConsensusMessage → World → World
  take_message m w = (handle_consensus_msg env m (note (received m) w)).1

  unfoldable pub take_update : ProposalUpdate → ℕ → World → World
  take_update u now w = (handle_proposal_update env u now (note (updated u) w)).1

  -- The state after a round's second part, and whether the loop goes on.
  abbrev pub receive_update : Recv ProposalUpdate → ℕ → World → World × Bool
  receive_update (message shutdown) now w = (note (updated shutdown) w, false)
  receive_update (message u) now w = (take_update u now w, true)
  receive_update timeout now w = (w, true)
  receive_update disconnected now w = (w, false)

  abbrev pub receive : Round → Recv ConsensusMessage → World → World × Bool
  receive r (message m) w = receive_update r.proposal_update r.later (take_message m w)
  receive r timeout w = receive_update r.proposal_update r.later w
  receive r disconnected w = (w, false)

  unfoldable pub round : Round → World → World × Bool
  round r w = receive r r.consensus_message (before_receiving r.now w)

  unfoldable pub run_loop : List Round → World → World
  run_loop [] w = w
  run_loop (r ∷ rs) w =
      let (w', continues) = round r w in let rest = run_loop rs w' in if continues then rest else w'

-- the start of `run`
abbrev pub insert_peers : List PeerId → List PeerId → List PeerId
insert_peers [] peers = peers
insert_peers (p ∷ ps) peers = insert_peers ps (Sets.insert p peers)

unfoldable pub run : Env → TwoPhaseEngine → PeerId → List PeerId → List Round → World
run env e id peer_ids rounds =
    run_loop env rounds
      (record { engine = record e { id = id; peers = insert_peers peer_ids e.peers }; log = [] })
