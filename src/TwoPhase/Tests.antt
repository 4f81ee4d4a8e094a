-- ===== src/TwoPhase/Tests.antt =====
-- Runs of the two-phase commit engine at concrete inputs.
use splinter.Prelude.{
  arith, false, any, all, take_first, bytes_beq, ℕ, zero, suc, ◌≡◌, refl, true, Option, none, some,
  List, [], ◌∷◌, map, Bytes, All,
}
use splinter.TwoPhase.Model.{
  Proposal, proposal_created, proposal_valid, MessageType, unset_type,
  proposal_verification_request, proposal_verification_response, proposal_result,
  VerificationResponse, unset_verification_response, verified, failed, ProposalResult, unset_result,
  apply, reject, TwoPhaseMessage, TwoPhaseProposal, evaluating_proposal, create_proposal,
  check_proposal, accept_proposal, broadcast, received, updated, called, World, Env, new_engine,
  try_call, call, modify,
}
use splinter.Prelude.Sets.{contains, from_list, insert, is_subset, set_eq}
use splinter.TwoPhase.Order.{le_bytes, minimum}
use splinter.TwoPhase.Timing.{active, check_expired, new_timeout, start_timeout, stop_timeout}
use splinter.TwoPhase.Coordination.{
  evaluating, announce_result, complete_coordination, start_coordination,
  abort_proposal_if_timed_out,
}
use splinter.TwoPhase.Messages.{
  add_verified_peer, verification_request, verification_response, receive_result,
  handle_consensus_msg,
}
use splinter.TwoPhase.Updates.{
  new_proposal, verifiers_of, assign_coordinator, handle_proposal, handle_proposal_update,
}
use splinter.TwoPhase.Run.{
  Round, message, timeout, insert_peers, run, run_loop, round, take_message, take_update,
  before_receiving, get_next_proposal, handle_backlogged_verification_request,
}
use splinter.TwoPhase.Backlog.{Distinct, tracked}
use splinter.TwoPhase.History.{IsJust}
use splinter.TwoPhase.Kept.{IsSourced, VouchedState}
use splinter.TwoPhase.Commit.{
  deliver, is_accepted, IsCommitted, deliver-IsCommitted, stranger_blocks,
}
use splinter.TwoPhase.Timeouts.{IsAborted, start-abort}
use splinter.TwoPhase.Safety.{end_of_run, run-IsJust, run-Kept}

-- A codec: the type, the response, the result, and the proposal id.
abbrev type_code : MessageType → ℕ
type_code unset_type = 0
type_code proposal_verification_request = 1
type_code proposal_verification_response = 2
type_code proposal_result = 3

abbrev code_type : ℕ → MessageType
code_type zero = unset_type
code_type (suc zero) = proposal_verification_request
code_type (suc (suc zero)) = proposal_verification_response
code_type _ = proposal_result

abbrev response_code : VerificationResponse → ℕ
response_code unset_verification_response = 0
response_code verified = 1
response_code failed = 2

abbrev code_response : ℕ → VerificationResponse
code_response zero = unset_verification_response
code_response (suc zero) = verified
code_response _ = failed

abbrev result_code : ProposalResult → ℕ
result_code unset_result = 0
result_code apply = 1
result_code reject = 2

abbrev code_result : ℕ → ProposalResult
code_result zero = unset_result
code_result (suc zero) = apply
code_result _ = reject

abbrev sample_write : TwoPhaseMessage → Bytes
sample_write m =
    type_code m.message_type
    ∷ response_code m.verification_response
    ∷ result_code m.result
    ∷ m.proposal_id

abbrev sample_parse : Bytes → Option TwoPhaseMessage
sample_parse (t ∷ v ∷ r ∷ pid) = some (record {
  message_type = code_type t;
  proposal_id = pid;
  verification_response = code_response v;
  result = code_result r;
})
sample_parse _ = none

-- Every call succeeds.
abbrev sample_env : Env
sample_env = record {
  parse_message = sample_parse;
  write_message = λ m. some (sample_write m);
  parse_verifiers = λ bytes. some (map (λ b. b ∷ []) bytes);
  answer = λ log c. true;
}

-- Proposal 7, which the peers 0 and 1 must verify.
abbrev sample_proposal : Proposal
sample_proposal = record {
  id = 7 ∷ [];
  previous_id = [];
  proposal_height = 1;
  summary = [];
  consensus_data = 0 ∷ 1 ∷ [];
}

abbrev sample_rounds : List Round
sample_rounds =
    record {
      now = 10;
      consensus_message = timeout;
      proposal_update = message (proposal_created (some sample_proposal));
      later = 11;
    }
    ∷ record {
      now = 20;
      consensus_message = timeout;
      proposal_update = message (proposal_valid (7 ∷ []));
      later = 21;
    }
    ∷ record {
      now = 30;
      consensus_message = message (record { message = 2 ∷ 1 ∷ 0 ∷ 7 ∷ []; origin_id = 1 ∷ [] });
      proposal_update = timeout;
      later = 31;
    }
    ∷ []

abbrev sample_end : World
sample_end = end_of_run sample_env (0 ∷ []) ((1 ∷ []) ∷ []) 5000 0 sample_rounds

-- The run, with every function that it calls unfolded.
ran : World
unfolding run run_loop round take_message handle_consensus_msg verification_response evaluating
    before_receiving get_next_proposal handle_backlogged_verification_request
    abort_proposal_if_timed_out take_update handle_proposal_update handle_proposal any new_engine
    take_first try_call bytes_beq all contains from_list insert is_subset set_eq announce_result
    complete_coordination start_coordination add_verified_peer receive_result verification_request
    call modify le_bytes minimum check_expired new_timeout start_timeout stop_timeout
    assign_coordinator new_proposal verifiers_of
ran = sample_end

ran_log :
    ran.log
    ≡ called (broadcast (3 ∷ 0 ∷ 1 ∷ 7 ∷ [])) true
      ∷ called (accept_proposal (7 ∷ [])) true
      ∷ received (record { message = 2 ∷ 1 ∷ 0 ∷ 7 ∷ []; origin_id = 1 ∷ [] })
      ∷ called (broadcast (1 ∷ 0 ∷ 0 ∷ 7 ∷ [])) true
      ∷ updated (proposal_valid (7 ∷ []))
      ∷ called (check_proposal (7 ∷ [])) true
      ∷ updated (proposal_created (some sample_proposal))
      ∷ called create_proposal true
      ∷ []
unfolding ran
ran_log = refl

run-IsJust_example : IsJust sample_env (0 ∷ []) (insert_peers ((1 ∷ []) ∷ []) []) sample_end.log
run-IsJust_example = run-IsJust sample_env (0 ∷ []) ((1 ∷ []) ∷ []) 5000 0 sample_rounds

-- Proposal 7, which the peers 0, 1 and 2 must verify, and a run that ends before peer 2 answers.
abbrev wide_proposal : Proposal
wide_proposal = record sample_proposal { consensus_data = 0 ∷ 1 ∷ 2 ∷ [] }

abbrev evaluating_rounds : List Round
evaluating_rounds =
    record {
      now = 10;
      consensus_message = timeout;
      proposal_update = message (proposal_created (some wide_proposal));
      later = 11;
    }
    ∷ record {
      now = 20;
      consensus_message = timeout;
      proposal_update = message (proposal_valid (7 ∷ []));
      later = 21;
    }
    ∷ record {
      now = 30;
      consensus_message = message (record { message = 2 ∷ 1 ∷ 0 ∷ 7 ∷ []; origin_id = 1 ∷ [] });
      proposal_update = timeout;
      later = 31;
    }
    ∷ []

abbrev sample_peers : List Bytes
sample_peers = (1 ∷ []) ∷ (2 ∷ []) ∷ []

abbrev evaluating_end : World
evaluating_end = end_of_run sample_env (0 ∷ []) sample_peers 5000 0 evaluating_rounds

evaluated : World
unfolding run run_loop round take_message handle_consensus_msg verification_response evaluating
    before_receiving get_next_proposal handle_backlogged_verification_request
    abort_proposal_if_timed_out take_update handle_proposal_update handle_proposal any new_engine
    take_first try_call bytes_beq all contains from_list insert is_subset set_eq announce_result
    complete_coordination start_coordination add_verified_peer receive_result verification_request
    call modify le_bytes minimum check_expired new_timeout start_timeout stop_timeout
    assign_coordinator new_proposal verifiers_of
evaluated = evaluating_end

evaluated_state :
    evaluated.engine.state
    ≡ evaluating_proposal (record {
      proposal_id = 7 ∷ [];
      coordinator_id = 0 ∷ [];
      peers_verified = (1 ∷ []) ∷ (0 ∷ []) ∷ [];
      required_verifiers = (0 ∷ []) ∷ (1 ∷ []) ∷ (2 ∷ []) ∷ [];
    })
unfolding evaluated
evaluated_state = refl

run-Kept_example :
    Distinct (tracked evaluating_end.engine.state evaluating_end.engine.proposal_backlog)
    × All
        (IsSourced sample_env (0 ∷ []) (insert_peers sample_peers []) evaluating_end.log)
        (tracked evaluating_end.engine.state evaluating_end.engine.proposal_backlog)
    × VouchedState sample_env
        (0 ∷ [])
        (insert_peers sample_peers [])
        evaluating_end.log
        evaluating_end.engine.state
run-Kept_example = run-Kept sample_env (0 ∷ []) sample_peers 5000 0 evaluating_rounds

-- A coordinator that waits for the peers 1 and 2.
abbrev waiting_proposal : TwoPhaseProposal
waiting_proposal = record {
  proposal_id = 7 ∷ [];
  coordinator_id = 0 ∷ [];
  peers_verified = (0 ∷ []) ∷ [];
  required_verifiers = (0 ∷ []) ∷ (1 ∷ []) ∷ (2 ∷ []) ∷ [];
}

abbrev waiting : World
waiting = record {
  engine = record {
    id = 0 ∷ [];
    peers = [];
    state = evaluating_proposal waiting_proposal;
    coordinator_timeout = record { state = active; duration = 5000; start = 0 };
    proposal_backlog = [];
    verification_request_backlog = [];
  };
  log = [];
}

deliver-IsCommitted_example :
    IsCommitted sample_env
      (7 ∷ [])
      (2 ∷ 1 ∷ 0 ∷ 7 ∷ [])
      refl
      (3 ∷ 0 ∷ 1 ∷ 7 ∷ [])
      (deliver sample_env (7 ∷ []) (2 ∷ 1 ∷ 0 ∷ 7 ∷ []) ((2 ∷ []) ∷ (1 ∷ []) ∷ []) waiting)
unfolding contains set_eq is_subset all bytes_beq
deliver-IsCommitted_example =
    deliver-IsCommitted sample_env (7 ∷ []) (2 ∷ 1 ∷ 0 ∷ 7 ∷ []) refl (3 ∷ 0 ∷ 1 ∷ 7 ∷ [])
      (λ log c. refl) refl ((2 ∷ []) ∷ (1 ∷ []) ∷ []) waiting_proposal waiting refl refl refl
      (λ v m. ground arith) (λ v m. ground arith) (λ v m. ground arith)

stranger_blocks_example :
    any
      (is_accepted (7 ∷ []))
      (deliver sample_env
        (7 ∷ [])
        (2 ∷ 1 ∷ 0 ∷ 7 ∷ [])
        ((9 ∷ []) ∷ (2 ∷ []) ∷ (1 ∷ []) ∷ [])
        waiting).log
    ≡ false
unfolding contains any bytes_beq
stranger_blocks_example =
    stranger_blocks sample_env (7 ∷ []) (2 ∷ 1 ∷ 0 ∷ 7 ∷ []) refl (9 ∷ [])
      ((2 ∷ []) ∷ (1 ∷ []) ∷ []) waiting_proposal waiting refl refl refl

start-abort_example :
    let w' = (start_coordination sample_env waiting_proposal 100 waiting).1 in
    let w'' = (abort_proposal_if_timed_out sample_env 6000 w').1 in
    IsAborted (7 ∷ []) (3 ∷ 0 ∷ 2 ∷ 7 ∷ []) w'.log w''
start-abort_example =
    (start-abort sample_env (λ log c. refl) (3 ∷ 0 ∷ 2 ∷ 7 ∷ []) waiting_proposal refl 100 6000
        waiting).1
      (omega arith)
