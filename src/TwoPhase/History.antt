-- ===== src/TwoPhase/History.antt =====
-- What the history of an engine of libsplinter/src/consensus/two_phase/mod.rs says about a
-- proposal: who announced it, who vouched for it, and when a commit is justified.
use mathlib.Core.Option
use splinter.Prelude.{
  ◌≡◌, ◌⊎◌, Bool, true, false, ◌||◌, ◌&&◌, Option, none, some, List, [], ◌∷◌, arith, any, ◌==◌,
  bytes_eq,
}
use splinter.Prelude.Sets
use splinter.Prelude.Sets.{contains, from_list}
use splinter.TwoPhase.Model.{
  PeerId, ProposalId, Proposal, proposal_created, proposal_received, proposal_valid, MessageType,
  proposal_verification_response, proposal_result, VerificationResponse, verified, ProposalResult,
  apply, TwoPhaseMessage, Call, accept_proposal, Entry, received, updated, called, Env,
}

abbrev pub is_response : MessageType → Bool
is_response proposal_verification_response = true
is_response _ = false

abbrev pub is_result : MessageType → Bool
is_result proposal_result = true
is_result _ = false

abbrev pub is_verified : VerificationResponse → Bool
is_verified verified = true
is_verified _ = false

abbrev pub is_apply : ProposalResult → Bool
is_apply apply = true
is_apply _ = false

-- The proposal that an entry announces.
abbrev pub announces : Entry → Option Proposal
announces (updated (proposal_created o)) = o
announces (updated (proposal_received q peer)) = some q
announces _ = none

abbrev pub Announced : Proposal → List Entry → Type 0
Announced q [] = ⊥
Announced q (x ∷ log) = (announces x ≡ some q) ⊎ Announced q log

-- The manager found the proposal valid.
abbrev pub says_valid : ProposalId → Entry → Bool
says_valid pid (updated (proposal_valid i)) = i == pid
says_valid pid _ = false

module _ (env : Env) where
  -- A message says that `v` verified the proposal.
  abbrev pub parsed_verified : ProposalId → Option TwoPhaseMessage → Bool
  parsed_verified pid none = false
  parsed_verified pid (some m) =
      is_response m.message_type && is_verified m.verification_response && m.proposal_id == pid

  abbrev pub says_verified : ProposalId → PeerId → Entry → Bool
  says_verified pid v (received m) =
      m.origin_id == v && parsed_verified pid (env.parse_message m.message)
  says_verified pid v _ = false

  -- A message orders the proposal to be applied.
  abbrev pub parsed_apply : ProposalId → Option TwoPhaseMessage → Bool
  parsed_apply pid none = false
  parsed_apply pid (some m) = is_result m.message_type && is_apply m.result && m.proposal_id == pid

  abbrev pub says_apply : ProposalId → Entry → Bool
  says_apply pid (received m) = parsed_apply pid (env.parse_message m.message)
  says_apply pid _ = false

  module _ (self : PeerId) (peers : List PeerId) where
    -- The verifiers that a proposal requires.
    abbrev pub required_of : Proposal → Option (List PeerId)
    required_of q = elim q.consensus_data [
      | [] ↦ some (Sets.insert self peers)
      | b ∷ bs ↦ Option.map from_list (env.parse_verifiers (b ∷ bs))
    ]

    -- `v` verified the proposal: by a message, or, being the node itself, through its manager.
    unfoldable pub vouched : List Entry → ProposalId → PeerId → Bool
    vouched log pid v = any (says_verified pid v) log || (v == self && any (says_valid pid) log)

    -- A commit is justified by an order to apply, or by all the verifiers that an announced
    -- proposal of that id requires.
    abbrev pub Justified : List Entry → ProposalId → Type 0
    Justified log pid =
        (any (says_apply pid) log ≡ true)
        ⊎ ((q : Proposal) × (vs : List PeerId) × Announced q log
            × (q.id ≡ pid)
            × (required_of q ≡ some vs)
            × ((v : PeerId) → contains vs v ≡ true → vouched log pid v ≡ true))

    abbrev pub Allowed : List Entry → Call → Type 0
    Allowed log (accept_proposal pid) = Justified log pid
    Allowed log _ = Unit {0}

    abbrev pub Permitted : List Entry → Entry → Type 0
    Permitted log (called c answer) = Allowed log c
    Permitted log _ = Unit {0}

    -- Every commit of the history was justified when it was made.
    abbrev pub IsJust : List Entry → Type 0
    IsJust [] = Unit {0}
    IsJust (x ∷ log) = Permitted log x × IsJust log

    pub vouched-cons :
        (x : Entry) (log : List Entry) (pid : ProposalId) (v : PeerId)
        → vouched log pid v ≡ true
        → vouched (x ∷ log) pid v ≡ true
    unfolding vouched any
    vouched-cons x log pid v h = ground arith
