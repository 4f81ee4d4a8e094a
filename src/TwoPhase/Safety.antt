-- ===== src/TwoPhase/Safety.antt =====
-- What holds of every run of the engine of libsplinter/src/consensus/two_phase/mod.rs.
use splinter.Prelude.{ℕ, refl, List, [], All}
use splinter.TwoPhase.Model.{PeerId, World, Env, new_engine}
use splinter.TwoPhase.Run.{Round, insert_peers, run}
use splinter.TwoPhase.Backlog.{tracked, Distinct}
use splinter.TwoPhase.History.{IsJust}
use splinter.TwoPhase.Kept.{IsSourced, VouchedState}
use splinter.TwoPhase.Invariant.{Inv}
use splinter.TwoPhase.Loop.{run_loop-Inv}

module _ (env : Env) (self : PeerId) (peer_ids : List PeerId) (duration now : ℕ)
    (rounds : List Round) where
  -- the world that a run of a new engine ends in
  abbrev pub end_of_run : World
  end_of_run = run env (new_engine duration now) self peer_ids rounds

  run-Inv : Inv env self (insert_peers peer_ids []) end_of_run
  unfolding run new_engine
  run-Inv = run_loop-Inv env self (insert_peers peer_ids []) rounds _ (record {
    self_id = refl;
    same_peers = refl;
    kept = record { distinct = tt; sourced = tt; unverified = tt; evaluated = tt };
    just = tt;
  })

  -- In the history of every run of a new engine, whatever the codec, the proposal manager and the
  -- network answer and whatever messages and updates arrive: each `accept_proposal` was preceded
  -- by an APPLY result for that proposal, or by a proposal of that id all of whose required
  -- verifiers had vouched for it (a VERIFIED response from the verifier; for the node itself also
  -- the manager's finding that the proposal is valid).
  pub run-IsJust : IsJust env self (insert_peers peer_ids []) end_of_run.log
  run-IsJust = run-Inv.just

  -- After every run of a new engine, the proposals that it keeps (the one under evaluation and the
  -- backlog) have different ids, each was announced with the verifiers that it has, each has the
  -- least of its verifiers as its coordinator, and each peer counted as having verified the
  -- proposal under evaluation had vouched for it.
  pub run-Kept :
      let w = end_of_run in
      Distinct (tracked w.engine.state w.engine.proposal_backlog)
      × All
          (IsSourced env self (insert_peers peer_ids []) w.log)
          (tracked w.engine.state w.engine.proposal_backlog)
      × VouchedState env self (insert_peers peer_ids []) w.log w.engine.state
  run-Kept = (run-Inv.kept.distinct, run-Inv.kept.sourced, run-Inv.kept.evaluated)
