-- ===== src/TwoPhase/Backlog.antt =====
-- Which proposals the engine of libsplinter/src/consensus/two_phase/mod.rs keeps: the one under
-- evaluation and those of the backlog.
use splinter.Prelude.{
  ◌≡◌, refl, Bool, true, false, ◌||◌, some, List, [], ◌∷◌, ◌++◌, arith, any, take_first, All, ◌==◌,
  bytes_eq, bytes_beq_iff, Bool-cases, inl, inr, Option-cases,
}
use splinter.TwoPhase.Order.{IsLeast}
use splinter.TwoPhase.Model.{
  ProposalId, TwoPhaseProposal, State, idle, awaiting_proposal, evaluating_proposal,
}
use splinter.TwoPhase.Coordination.{in_backlog}

abbrev pub tracked : State → List TwoPhaseProposal → List TwoPhaseProposal
tracked idle ps = ps
tracked awaiting_proposal ps = ps
tracked (evaluating_proposal p) ps = p ∷ ps

-- No id occurs twice.
abbrev pub Distinct : List TwoPhaseProposal → Type 0
Distinct [] = Unit {0}
Distinct (p ∷ ps) = (in_backlog p.proposal_id ps ≡ false) × Distinct ps

-- The coordinator is the least of the required verifiers (the bully rule).
abbrev pub Led : TwoPhaseProposal → Type 0
Led p = IsLeast p.coordinator_id p.required_verifiers

pub in_backlog-append :
    (pid : ProposalId) (ps : List TwoPhaseProposal) (p : TwoPhaseProposal)
    → in_backlog pid (ps ++ p ∷ []) ≡ (in_backlog pid ps || p.proposal_id == pid)
unfolding any
in_backlog-append pid [] p = ground arith
in_backlog-append pid (q ∷ ps) p = ground (arith, in_backlog-append pid ps p)

pub Distinct-append :
    (ps : List TwoPhaseProposal) (p : TwoPhaseProposal)
    → Distinct ps
    → in_backlog p.proposal_id ps ≡ false
    → Distinct (ps ++ p ∷ [])
unfolding any
Distinct-append [] p d h = (refl, tt)
Distinct-append (q ∷ ps) p d h = (
  ground (
    arith,
    in_backlog-append q.proposal_id ps p,
    bytes_beq_iff q.proposal_id p.proposal_id,
    bytes_beq_iff p.proposal_id q.proposal_id,
  ),
  Distinct-append ps p d.1 (ground arith),
)

-- Taking out the first match leaves the others.
module _ (test : TwoPhaseProposal → Bool) where
  in_backlog-rest :
      (pid : ProposalId) (ps : List TwoPhaseProposal) (p : TwoPhaseProposal)
      (rest : List TwoPhaseProposal)
      → take_first test ps ≡ some (p, rest)
      → in_backlog pid ps ≡ (in_backlog pid rest || p.proposal_id == pid)
  unfolding any take_first
  in_backlog-rest pid [] p rest h = cc
  in_backlog-rest pid (q ∷ ps) p rest h = elim (Bool-cases (test q)) [
    | inl t ↦ ground arith
    | inr f ↦ elim (Option-cases (take_first test ps)) [
      | inl e ↦ ground arith
      | inr (r, e) ↦ ground (arith, in_backlog-rest pid ps r.0 r.1 e)
    ]
  ]

  pub Distinct-rest :
      (ps : List TwoPhaseProposal) (p : TwoPhaseProposal) (rest : List TwoPhaseProposal)
      → take_first test ps ≡ some (p, rest)
      → Distinct ps
      → (in_backlog p.proposal_id rest ≡ false) × Distinct rest
  unfolding any take_first
  Distinct-rest [] p rest h d = cc
  Distinct-rest (q ∷ ps) p rest h d = elim (Bool-cases (test q)) [
    | inl t ↦ ground arith
    | inr f ↦ elim (Option-cases (take_first test ps)) [
      | inl e ↦ ground arith
      | inr (r, e) ↦ ground (
        arith,
        Distinct-rest ps r.0 r.1 e d.1,
        in_backlog-rest q.proposal_id ps r.0 r.1 e,
        bytes_beq_iff q.proposal_id r.0.proposal_id,
        bytes_beq_iff r.0.proposal_id q.proposal_id,
      )
    ]
  ]

  pub All-rest :
      (P : TwoPhaseProposal → Type 0) (ps : List TwoPhaseProposal) (p : TwoPhaseProposal)
      (rest : List TwoPhaseProposal)
      → take_first test ps ≡ some (p, rest)
      → All P ps
      → P p × All P rest
  unfolding take_first
  All-rest P [] p rest h a = cc
  All-rest P (q ∷ ps) p rest h a = elim (Bool-cases (test q)) [
    | inl t ↦ ground arith
    | inr f ↦ elim (Option-cases (take_first test ps)) [
      | inl e ↦ ground arith
      | inr (r, e) ↦ ground (arith, All-rest P ps r.0 r.1 e a.1)
    ]
  ]

  pub take_first-test :
      (ps : List TwoPhaseProposal) (p : TwoPhaseProposal) (rest : List TwoPhaseProposal)
      → take_first test ps ≡ some (p, rest)
      → test p ≡ true
  unfolding take_first
  take_first-test [] p rest h = cc
  take_first-test (q ∷ ps) p rest h = elim (Bool-cases (test q)) [
    | inl t ↦ ground arith
    | inr f ↦ elim (Option-cases (take_first test ps)) [
      | inl e ↦ ground arith
      | inr (r, e) ↦ ground (arith, take_first-test ps r.0 r.1 e)
    ]
  ]
