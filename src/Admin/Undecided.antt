-- ===== src/Admin/Undecided.antt =====
-- The open proposals after `commit` of libsplinter/src/admin/service/shared.rs, by their votes.
use mathlib.Core.Path.{subst}
use splinter.Prelude.{
  String, ◌≡◌, refl, sym, ap, ◌∙◌, Bool, true, false, Option, none, some, ◌==◌, string_eq,
  if◌then◌else◌, arith, ◌⊎◌, inl, inr, Bool-cases,
}
use splinter.Prelude.Exec.{Result, ok, err, ◌>>=◌, Preserves-bind, ◌>>◌, bind_at, resume}
use splinter.Prelude.Map
use splinter.Prelude.Map.{lookup, lookup-insert, lookup-remove}
use splinter.Prelude.Results.{Result-cases}
use splinter.Admin.Proto.{CircuitProposal}
use splinter.Admin.Messages
use splinter.Admin.Messages.{MarshallingError, proposal_from_proto}
use splinter.Admin.Conversions.{proposal_from_proto_iff}
use splinter.Admin.Validation.{CircuitProposalStatus, accepted, rejected, pending, check_approved}
use splinter.Admin.Shared.{CircuitProposalContext}
use splinter.Admin.OpenProposals.{
  ProposalRegistry, registry_add, registry_remove, add_proposal, remove_proposal,
}
use splinter.Admin.OpenMap.{abstract_of, abstract_map, abstract_map-insert}
use splinter.Admin.Untouched.{
  convert-Held, send_event-Held, announce_accepted-Held, announce_pending-Held,
}
use splinter.Admin.Events.{proposal_rejected}
use splinter.Admin.Update.{CommitError, update_splinter_state}
use splinter.Admin.Commit.{
  Environment, CommitState, AdminSharedError, commit_error, drop_proposal, keep_proposal,
  commit_accepted, commit_pending, commit_rejected, commit_by, commit, convert, send_event,
  update_state, announce_accepted, announce_pending, map_error,
}

abbrev pub IsUndecided : ProposalRegistry → Type 0
IsUndecided r =
    (id : String) (p : CircuitProposal) → abstract_map r id ≡ some p → check_approved p ≡ pending

-- one proposal is gone, and the others are as before
abbrev pub IsWithout : String → ProposalRegistry → ProposalRegistry → Type 0
IsWithout id r r' =
    (other : String) → lookup other r' ≡ (if id == other then none else lookup other r)

-- one proposal is the message, and the others are as before
abbrev pub IsWith : String → Messages.CircuitProposal → ProposalRegistry → ProposalRegistry → Type 0
IsWith id message r r' =
    (other : String) → lookup other r' ≡ (if id == other then some message else lookup other r)

-- What becomes of the proposals, by the votes of the pending one.
abbrev pub IsLeft :
    CircuitProposalStatus
    → CircuitProposal
    → ProposalRegistry
    → Result AdminSharedError (Unit {0}) × CommitState
    → Type 0
IsLeft rejected p r (result, s') = IsWithout p.circuit_id r s'.open_proposals
IsLeft accepted p r (result, s') =
    IsWithout p.circuit_id r s'.open_proposals
    ⊎ ((e : CommitError) × (result ≡ err (commit_error e)) × (s'.open_proposals ≡ r))
IsLeft pending p r (result, s') =
    ((message : Messages.CircuitProposal) × (proposal_from_proto p ≡ ok message)
      × IsWith p.circuit_id message r s'.open_proposals)
    ⊎ ((e : MarshallingError) × (proposal_from_proto p ≡ err e) × (s'.open_proposals ≡ r))

drop_proposal-IsWithout :
    (env : Environment) (id : String) (s : CommitState)
    → IsWithout id s.open_proposals (drop_proposal env id s).1.open_proposals
unfolding drop_proposal remove_proposal registry_remove
drop_proposal-IsWithout env id s other = lookup-remove id other s.open_proposals

module _ (env : Environment) (x : CircuitProposalContext) (s : CommitState) where
  commit_rejected-IsLeft :
      IsLeft rejected x.circuit_proposal s.open_proposals (commit_rejected env x s)
  unfolding commit_rejected
  commit_rejected-IsLeft =
      let P = IsWithout x.circuit_proposal.circuit_id s.open_proposals in
      let p = x.circuit_proposal in
      bind_at {Q = λ (t : CommitState). P t.open_proposals} (drop_proposal env p.circuit_id)
        (λ u. convert p >>= λ message.
          send_event p.circuit_proposal.circuit_management_type
            (proposal_rejected message x.signer_public_key))
        s (drop_proposal-IsWithout env x.circuit_proposal.circuit_id s)
        (λ u. search (Preserves-bind, convert-Held P, send_event-Held P))

  accepted_lem :
      (result : Result CommitError (Unit {0})) (s₁ : CommitState)
      → s₁.open_proposals ≡ s.open_proposals
      → IsLeft accepted x.circuit_proposal s.open_proposals (
          resume
            (map_error commit_error result)
            (λ u. drop_proposal env x.circuit_proposal.circuit_id >> announce_accepted env x)
            s₁)
  accepted_lem (err e) s₁ same = inr (e, refl, same)
  accepted_lem (ok u) s₁ same =
      let P = IsWithout x.circuit_proposal.circuit_id s.open_proposals in
      inl (
        bind_at (drop_proposal env x.circuit_proposal.circuit_id) (λ u. announce_accepted env x) s₁
          (λ other.
            drop_proposal-IsWithout env x.circuit_proposal.circuit_id s₁ other
            ∙ ap (λ r. if x.circuit_proposal.circuit_id == other then none else lookup other r)
                same)
          (λ u. announce_accepted-Held P env x))

  commit_accepted-IsLeft :
      IsLeft accepted x.circuit_proposal s.open_proposals (commit_accepted env x s)
  unfolding commit_accepted
  commit_accepted-IsLeft =
      let updated = update_state env x.circuit_proposal.circuit_proposal s in
      let r =
        update_splinter_state env.can_store s.node_id x.circuit_proposal.circuit_proposal
          s.splinter_state in
      accepted_lem r.0 updated.1 refl

  commit_pending-IsLeft :
      IsLeft pending x.circuit_proposal s.open_proposals (commit_pending env x s)
  unfolding commit_pending keep_proposal add_proposal registry_add
  commit_pending-IsLeft =
      let p = x.circuit_proposal in
      elim (Result-cases (proposal_from_proto p)) [
        | inl (message, e) ↦ inl (
          message,
          e,
          bind_at (keep_proposal env p) (λ u. announce_pending env x.action x) s
              (rw e (λ other. lookup-insert p.circuit_id other message s.open_proposals))
              (λ u.
                announce_pending-Held (IsWith p.circuit_id message s.open_proposals) env x.action
                  x),
        )
        | inr (failure, e) ↦ inr (
          failure,
          e,
          bind_at (keep_proposal env p) (λ u. announce_pending env x.action x) s (rw e refl)
              (λ u. announce_pending-Held (λ r. r ≡ s.open_proposals) env x.action x),
        )
      ]

commit_by-IsLeft :
    (env : Environment) (status : CircuitProposalStatus) (x : CircuitProposalContext)
    (s : CommitState)
    → IsLeft status x.circuit_proposal s.open_proposals (commit_by env status x s)
commit_by-IsLeft env accepted x s = commit_accepted-IsLeft env x s
commit_by-IsLeft env pending x s = commit_pending-IsLeft env x s
commit_by-IsLeft env rejected x s = commit_rejected-IsLeft env x s

added_case :
    (b : Bool) (p q : CircuitProposal) (o : Option CircuitProposal)
    → check_approved p ≡ pending
    → (o ≡ some q → check_approved q ≡ pending)
    → (if b then some p else o) ≡ some q
    → check_approved q ≡ pending
added_case true p q o h g e = ground (arith, h, e)
added_case false p q o h g e = g e

pub IsUndecided-insert :
    (p : CircuitProposal) (x : Messages.CircuitProposal) (r : ProposalRegistry)
    → proposal_from_proto p ≡ ok x
    → check_approved p ≡ pending
    → IsUndecided r
    → IsUndecided (Map.insert p.circuit_id x r)
IsUndecided-insert p x r e h u id q eq =
    added_case (p.circuit_id == id) p q (abstract_map r id) h (u id q)
      (sym (abstract_map-insert p x r id ((proposal_from_proto_iff p x).0 e)) ∙ eq)

-- the same messages, in another order
IsUndecided-same :
    (r r' : ProposalRegistry)
    → ((id : String) → lookup id r' ≡ lookup id r)
    → IsUndecided r
    → IsUndecided r'
IsUndecided-same r r' same u id q e = u id q (ap abstract_of (sym (same id)) ∙ e)

IsWithout-IsUndecided :
    (id : String) (r r' : ProposalRegistry) → IsWithout id r r' → IsUndecided r → IsUndecided r'
IsWithout-IsUndecided id r r' w u other q e =
    let e' = ap abstract_of (sym (w other)) ∙ e in
    elim (Bool-cases (id == other)) [
      | inl t ↦ (let h = rw t at e' in cc h)
      | inr f ↦ u other q (rw f at e')
    ]

left-IsUndecided :
    (status : CircuitProposalStatus) (p : CircuitProposal) (r : ProposalRegistry)
    (end : Result AdminSharedError (Unit {0}) × CommitState)
    → check_approved p ≡ status
    → IsLeft status p r end
    → IsUndecided r
    → IsUndecided end.1.open_proposals
left-IsUndecided accepted p r (q, s') c (inl w) u =
    IsWithout-IsUndecided p.circuit_id r s'.open_proposals w u
left-IsUndecided accepted p r (q, s') c (inr (e, failed, same)) u = subst IsUndecided (sym same) u
left-IsUndecided rejected p r (q, s') c w u =
    IsWithout-IsUndecided p.circuit_id r s'.open_proposals w u
left-IsUndecided pending p r (q, s') c (inl (message, e, w)) u =
    IsUndecided-same (Map.insert p.circuit_id message r) s'.open_proposals
      (λ id. w id ∙ sym (lookup-insert p.circuit_id id message r))
      (IsUndecided-insert p message r e c u)
left-IsUndecided pending p r (q, s') c (inr (e, failed, same)) u = subst IsUndecided (sym same) u

-- Whatever the environment answers, `commit` of a pending change leaves the open proposals of other
-- circuits as they were. The change's own proposal is gone after it if it is rejected; if it is
-- accepted too, unless the state of circuits could not be updated, an error that is returned and
-- leaves the proposals; and a proposal that is still voted on is stored as its message, or left as
-- it was where it does not convert. So open proposals that are all undecided stay so.
pub commit-IsUndecided :
    (env : Environment) (x : CircuitProposalContext) (s : CommitState)
    → s.pending_changes ≡ some x
    → IsLeft (check_approved x.circuit_proposal) x.circuit_proposal s.open_proposals (commit env s)
      × (IsUndecided s.open_proposals → IsUndecided (commit env s).1.open_proposals)
unfolding commit
commit-IsUndecided env x s e =
    let left =
      commit_by-IsLeft env (check_approved x.circuit_proposal) x
        (record s { pending_changes = none }) in
    rw e (
      left,
      left-IsUndecided (check_approved x.circuit_proposal) x.circuit_proposal s.open_proposals _
          refl left,
    )
