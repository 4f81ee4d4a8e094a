-- ===== src/TwoPhase/Model.antt =====
-- The data of libsplinter/src/consensus/two_phase/mod.rs and of the messages it exchanges
-- (protos/two_phase.proto, libsplinter/src/consensus/mod.rs), and its surroundings: the codec, the
-- proposal manager and the network sender, whose answers may depend on all that happened before.
use splinter.Prelude.{
  String, ℕ, Bool, Option, none, some, List, [], ◌∷◌, Bytes, bytes_eq, if◌then◌else◌,
}
use splinter.Prelude.Exec.{ok, err, Exec, ◌>>=◌, pure, raise}
use splinter.TwoPhase.Timing.{Timeout, new_timeout}

abbrev pub PeerId : Type 0
PeerId = Bytes

abbrev pub ProposalId : Type 0
ProposalId = Bytes

pub record Proposal : Type 0 where
  pub id : ProposalId
  pub previous_id : ProposalId
  pub proposal_height : ℕ
  pub summary : Bytes
  pub consensus_data : Bytes

pub data ProposalUpdate : Type 0 where
  proposal_created : Option Proposal → ProposalUpdate
  proposal_received : Proposal → PeerId → ProposalUpdate
  proposal_valid : ProposalId → ProposalUpdate
  proposal_invalid : ProposalId → ProposalUpdate
  proposal_accepted : ProposalId → ProposalUpdate
  proposal_accept_failed : ProposalId → String → ProposalUpdate
  shutdown : ProposalUpdate

pub record ConsensusMessage : Type 0 where
  pub message : Bytes
  pub origin_id : PeerId

pub data MessageType : Type 0 where
  unset_type proposal_verification_request proposal_verification_response proposal_result :
      MessageType

pub data VerificationResponse : Type 0 where
  unset_verification_response verified failed : VerificationResponse

pub data ProposalResult : Type 0 where
  unset_result apply reject : ProposalResult

pub record TwoPhaseMessage : Type 0 where
  pub message_type : MessageType
  pub proposal_id : ProposalId
  pub verification_response : VerificationResponse
  pub result : ProposalResult

-- What is sent: a request, a response and a result leave the fields of the others unset.
abbrev pub request_message : ProposalId → TwoPhaseMessage
request_message pid = record {
  message_type = proposal_verification_request;
  proposal_id = pid;
  verification_response = unset_verification_response;
  result = unset_result;
}

abbrev pub response_message : ProposalId → VerificationResponse → TwoPhaseMessage
response_message pid r = record {
  message_type = proposal_verification_response;
  proposal_id = pid;
  verification_response = r;
  result = unset_result;
}

abbrev pub result_message : ProposalId → ProposalResult → TwoPhaseMessage
result_message pid r = record {
  message_type = proposal_result;
  proposal_id = pid;
  verification_response = unset_verification_response;
  result = r;
}

pub record TwoPhaseProposal : Type 0 where
  pub proposal_id : ProposalId
  pub coordinator_id : PeerId
  pub peers_verified : List PeerId
  pub required_verifiers : List PeerId

pub data State : Type 0 where
  idle : State
  awaiting_proposal : State
  evaluating_proposal : TwoPhaseProposal → State

pub record TwoPhaseEngine : Type 0 where
  pub id : PeerId
  pub peers : List PeerId
  pub state : State
  pub coordinator_timeout : Timeout
  pub proposal_backlog : List TwoPhaseProposal
  pub verification_request_backlog : List ProposalId

unfoldable pub new_engine : ℕ → ℕ → TwoPhaseEngine
unfolding new_timeout
new_engine duration now = record {
  id = [];
  peers = [];
  state = idle;
  coordinator_timeout = new_timeout duration now;
  proposal_backlog = [];
  verification_request_backlog = [];
}

-- The calls of `ProposalManager` and `ConsensusNetworkSender`.
pub data Call : Type 0 where
  create_proposal : Call
  check_proposal accept_proposal reject_proposal : ProposalId → Call
  send_to : PeerId → Bytes → Call
  broadcast : Bytes → Call

-- What the engine has seen and done: the messages and updates it took from its channels, and its
-- calls with their success.
pub data Entry : Type 0 where
  received : ConsensusMessage → Entry
  updated : ProposalUpdate → Entry
  called : Call → Bool → Entry

pub data EngineError : Type 0 where
  protobuf_error : EngineError
  call_failed : Call → EngineError

pub record World : Type 0 where
  pub engine : TwoPhaseEngine
  -- newest first
  pub log : List Entry

pub record Env : Type 0 where
  pub parse_message : Bytes → Option TwoPhaseMessage
  pub write_message : TwoPhaseMessage → Option Bytes
  pub parse_verifiers : Bytes → Option (List PeerId)
  -- whether a call returns `Ok`, after the history so far
  pub answer : List Entry → Call → Bool

abbrev pub Action : Type 0 → Type 0
Action A = Exec World EngineError A

-- Take an event from a channel.
abbrev pub note : Entry → World → World
note x w = record w { log = x ∷ w.log }

unfoldable pub modify : (TwoPhaseEngine → TwoPhaseEngine) → Action (Unit {0})
modify f w = (ok tt, record w { engine = f w.engine })

abbrev pub or_protobuf_error : {A : Type 0} → Option A → Action A
or_protobuf_error none w = (err protobuf_error, w)
or_protobuf_error (some a) w = (ok a, w)

module _ (env : Env) where
  -- a call whose result the caller inspects
  unfoldable pub try_call : Call → Action Bool
  try_call c w =
      let answer = env.answer w.log c in (ok answer, record w { log = called c answer ∷ w.log })

  -- a call under `?`
  unfoldable pub call : Call → Action (Unit {0})
  call c = do answer ← try_call c; if answer then pure tt else raise (call_failed c)
