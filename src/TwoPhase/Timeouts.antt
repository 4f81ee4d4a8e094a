-- ===== src/TwoPhase/Timeouts.antt =====
-- The coordinator's timeout of libsplinter/src/consensus/two_phase: from the start of a
-- coordination to its abort.
use splinter.Prelude.{ℕ, ◌-◌, ◌≤◌, ◌<◌, ◌≡◌, true, some, List, ◌∷◌, Bytes, arith}
use splinter.TwoPhase.Timing.{inactive, check_expired, start_timeout, stop_timeout}
use splinter.TwoPhase.Model.{
  ProposalId, reject, result_message, TwoPhaseProposal, idle, Call, check_proposal, reject_proposal,
  broadcast, Entry, called, World, Env, modify, try_call, call,
}
use splinter.TwoPhase.Coordination.{
  announce_result, complete_coordination, start_coordination, abort_proposal_if_timed_out,
}

-- The engine is idle again with its timer off, and since `log` it has told its proposal manager to
-- reject the proposal and its peers of the rejection.
pub record IsAborted (pid : ProposalId) (bytes : Bytes) (log : List Entry) (w : World)
    : Type 0 where
  pub state : w.engine.state ≡ idle
  pub timer : w.engine.coordinator_timeout.state ≡ inactive
  pub told : w.log ≡ called (broadcast bytes) true ∷ called (reject_proposal pid) true ∷ log

module _ (env : Env) (answers : (log : List Entry) (c : Call) → env.answer log c ≡ true)
    (bytes : Bytes) (p : TwoPhaseProposal)
    (written : env.write_message (result_message p.proposal_id reject) ≡ some bytes) where
  -- If every call succeeds and the result message can be written: after a coordination that started at `start`, the check for a timeout
  -- at `now` changes nothing while at most `duration` has passed, and aborts the proposal once
  -- more has.
  pub start-abort :
      (start now : ℕ) (w : World)
      → let w' = (start_coordination env p start w).1 in
        let w'' = (abort_proposal_if_timed_out env now w').1 in
        let duration = w.engine.coordinator_timeout.duration in
        (now - start ≤ duration → w'' ≡ w')
        × (duration < now - start → IsAborted p.proposal_id bytes w'.log w'')
  unfolding start_coordination abort_proposal_if_timed_out try_call call modify check_expired
      start_timeout stop_timeout complete_coordination announce_result
  start-abort start now w = (
    (λ h. ground (arith, answers w.log (check_proposal p.proposal_id))),
    (λ h.
        let checked = called (check_proposal p.proposal_id) true ∷ w.log in
        let rejected = called (reject_proposal p.proposal_id) true ∷ checked in
        ground (
          arith,
          answers w.log (check_proposal p.proposal_id),
          answers checked (reject_proposal p.proposal_id),
          answers rejected (broadcast bytes),
        )),
  )
