-- ===== src/TwoPhase/Commit.antt =====
-- The coordinator of libsplinter/src/consensus/two_phase/mod.rs commits once its verifiers answer.
use splinter.Prelude.{
  ◌≡◌, refl, Bool, true, false, ◌||◌, ◌&&◌, some, List, [], ◌∷◌, arith, any, ◌==◌, bytes_eq,
  bytes_beq_iff, Bytes, Bool-cases, inl, inr, if◌then◌else◌,
}
use splinter.Prelude.Sets.{contains, contains-insert, set_eq, set_eq_iff}
use splinter.TwoPhase.Model.{
  PeerId, ProposalId, verified, apply, response_message, result_message, TwoPhaseProposal, idle,
  evaluating_proposal, ConsensusMessage, Call, accept_proposal, broadcast, Entry, received, called,
  World, Env, note, modify, try_call, call,
}
use splinter.TwoPhase.Coordination.{set_state, evaluating, announce_result, complete_coordination}
use splinter.TwoPhase.Messages.{add_verified_peer, verification_response, handle_consensus_msg}
use splinter.TwoPhase.Run.{take_message}

-- the proposal manager accepted the proposal
abbrev pub is_accepted : ProposalId → Entry → Bool
is_accepted pid (called (accept_proposal i) answer) = i == pid && answer
is_accepted pid _ = false

module _ (env : Env) (pid : ProposalId) (reply : Bytes) where
  -- `v` answers that it verified the proposal.
  abbrev pub answer_of : PeerId → ConsensusMessage
  answer_of v = record { message = reply; origin_id = v }

  -- The answers arrive one after another.
  unfoldable pub deliver : List PeerId → World → World
  deliver [] w = w
  deliver (v ∷ vs) w = deliver vs (take_message env (answer_of v) w)

  abbrev counted : PeerId → TwoPhaseProposal → World → World
  counted v p w =
      let noted : World = note (received (answer_of v)) w in
      record noted { engine = set_state (evaluating_proposal (add_verified_peer v p)) noted.engine }

  module _ (parsed : env.parse_message reply ≡ some (response_message pid verified)) where
    take-evaluating :
        (v : PeerId) (p : TwoPhaseProposal) (w : World)
        → w.engine.state ≡ evaluating_proposal p
        → p.proposal_id ≡ pid
        → take_message env (answer_of v) w ≡ (
            if set_eq (add_verified_peer v p).peers_verified p.required_verifiers
            then (complete_coordination env pid apply (counted v p w)).1
            else counted v p w)
    unfolding take_message handle_consensus_msg verification_response evaluating modify
        add_verified_peer
    take-evaluating v p w e i = ground (arith, bytes_beq_iff p.proposal_id pid)

    take-idle :
        (v : PeerId) (w : World)
        → w.engine.state ≡ idle
        → take_message env (answer_of v) w ≡ note (received (answer_of v)) w
    unfolding take_message handle_consensus_msg verification_response evaluating
    take-idle v w e = ground arith

    -- Answers that come late change nothing but the history.
    deliver-idle :
        (vs : List PeerId) (w : World) (q : Entry → Bool)
        → w.engine.state ≡ idle
        → any q w.log ≡ true
        → ((deliver vs w).engine ≡ w.engine) × (any q (deliver vs w).log ≡ true)
    unfolding deliver
    deliver-idle [] w q e h = (refl, h)
    deliver-idle (v ∷ vs) w q e h =
        rw (take-idle v w e, deliver)
          (deliver-idle vs (note (received (answer_of v)) w) q e (unfold any in ground arith))

    -- a set with an element that the other lacks
    not-set_eq :
        (xs ys : List PeerId) (s : PeerId)
        → contains xs s ≡ true
        → contains ys s ≡ false
        → set_eq xs ys ≡ false
    not-set_eq xs ys s m n = elim (Bool-cases (set_eq xs ys)) [
      | inl e ↦ let c = ((set_eq_iff xs ys).0 e).0 s m in cc
      | inr e ↦ e
    ]

    blocked :
        (vs : List PeerId) (p : TwoPhaseProposal) (w : World) (s : PeerId)
        → w.engine.state ≡ evaluating_proposal p
        → p.proposal_id ≡ pid
        → contains p.peers_verified s ≡ true
        → contains p.required_verifiers s ≡ false
        → any (is_accepted pid) (deliver vs w).log ≡ any (is_accepted pid) w.log
    unfolding deliver add_verified_peer any
    blocked [] p w s e i m n = refl
    blocked (v ∷ vs) p w s e i m n =
        let p' = add_verified_peer v p in
        let m' : contains p'.peers_verified s ≡ true =
          ground (arith, contains-insert v s p.peers_verified) in
        rw
          (
            take-evaluating v p w e i,
            not-set_eq p'.peers_verified p.required_verifiers s m' n,
            deliver,
          )
          (blocked vs p' (counted v p w) s refl i m' n)

    -- Once a peer that is not among the required verifiers has answered VERIFIED for the proposal
    -- under evaluation, no later VERIFIED answers, whoever sends them, make the engine accept it.
    pub stranger_blocks :
        (s : PeerId) (vs : List PeerId) (p : TwoPhaseProposal) (w : World)
        → w.engine.state ≡ evaluating_proposal p
        → p.proposal_id ≡ pid
        → contains p.required_verifiers s ≡ false
        → any (is_accepted pid) (deliver (s ∷ vs) w).log ≡ any (is_accepted pid) w.log
    unfolding deliver add_verified_peer any
    stranger_blocks s vs p w e i n =
        let p' = add_verified_peer s p in
        let m : contains p'.peers_verified s ≡ true =
          ground (arith, contains-insert s s p.peers_verified, bytes_beq_iff s s) in
        rw
          (
            take-evaluating s p w e i,
            not-set_eq p'.peers_verified p.required_verifiers s m n,
            deliver,
          )
          (blocked vs p' (counted s p w) s refl i m n)

    module _ (bytes : Bytes) where
      abbrev pub is_announced : Entry → Bool
      is_announced (called (broadcast b) answer) = b == bytes && answer
      is_announced _ = false

      -- The proposal manager accepted the proposal, the result went out to all, and the engine is
      -- ready for the next proposal.
      pub record IsCommitted (w : World) : Type 0 where
        pub state : w.engine.state ≡ idle
        pub accepted : any (is_accepted pid) w.log ≡ true
        pub announced : any is_announced w.log ≡ true

      module _ (answers : (log : List Entry) (c : Call) → env.answer log c ≡ true)
          (written : env.write_message (result_message pid apply) ≡ some bytes) where
        complete-IsCommitted : (w : World) → IsCommitted (complete_coordination env pid apply w).1
        unfolding complete_coordination announce_result call try_call modify any
        complete-IsCommitted w =
            rw (answers, written, answers)
              (record {
                state = refl;
                accepted = ground (arith, bytes_beq_iff pid pid);
                announced = ground (arith, bytes_beq_iff bytes bytes);
              })

        deliver-late : (vs : List PeerId) (w : World) → IsCommitted w → IsCommitted (deliver vs w)
        deliver-late vs w c =
            let a = deliver-idle vs w (is_accepted pid) c.state c.accepted in
            let b = deliver-idle vs w is_announced c.state c.announced in
            record { state = rw a.0 c.state; accepted = a.1; announced = b.1 }

        -- If every call succeeds, and the engine is evaluating a proposal that some required
        -- verifier has not verified yet, then VERIFIED answers from required verifiers, that
        -- include all the missing ones, end in a commit: the manager is told to accept the
        -- proposal, APPLY is broadcast, and the engine is idle.
        pub deliver-IsCommitted :
            (vs : List PeerId) (p : TwoPhaseProposal) (w : World)
            → w.engine.state ≡ evaluating_proposal p
            → p.proposal_id ≡ pid
            → set_eq p.peers_verified p.required_verifiers ≡ false
            → ((v : PeerId)
                → contains p.peers_verified v ≡ true
                → contains p.required_verifiers v ≡ true)
            → ((v : PeerId) → contains vs v ≡ true → contains p.required_verifiers v ≡ true)
            → ((v : PeerId)
                → contains p.required_verifiers v ≡ true
                → (contains p.peers_verified v || contains vs v) ≡ true)
            → IsCommitted (deliver vs w)
        unfolding deliver add_verified_peer contains
        deliver-IsCommitted [] p w e i missing inside due covered =
            let all_verified =
              (set_eq_iff p.peers_verified p.required_verifiers).1
                (inside, λ v m. ground (arith, covered v m)) in
            cc
        deliver-IsCommitted (v ∷ vs) p w e i missing inside due covered =
            let p' = add_verified_peer v p in
            elim (Bool-cases (set_eq p'.peers_verified p.required_verifiers)) [
              | inl q ↦
                  rw (take-evaluating v p w e i, q)
                    (deliver-late vs _ (complete-IsCommitted (counted v p w)))
              | inr q ↦
                  rw (take-evaluating v p w e i, q)
                    (deliver-IsCommitted vs p' (counted v p w) refl i q
                      (λ u m. ground (arith, contains-insert v u p.peers_verified, inside u, due u))
                      (λ u m. ground (arith, due u))
                      (λ u m. ground (arith, contains-insert v u p.peers_verified, covered u m)))
            ]
