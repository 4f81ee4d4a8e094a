-- ===== src/TwoPhase/Invariant.antt =====
-- The invariant of an engine of libsplinter/src/consensus/two_phase/mod.rs with its history, and
-- the coordinator's part.
use splinter.Prelude.{
  ℕ, ◌≡◌, refl, ◌∙◌, Bytes, true, Option, none, some, List, Bool-cases, inl, inr,
}
use splinter.Prelude.Exec.{Result, ok, err, ◌>>=◌, ◌>>◌, Preserves, preserves_rules, bind_at}
use splinter.TwoPhase.Timing.{check_expired}
use splinter.TwoPhase.Model.{
  PeerId, ProposalId, ProposalResult, apply, reject, TwoPhaseProposal, State, idle,
  awaiting_proposal, evaluating_proposal, TwoPhaseEngine, Call, check_proposal, accept_proposal,
  reject_proposal, send_to, broadcast, Entry, called, World, Env, note, modify, or_protobuf_error,
  try_call, call,
}
use splinter.TwoPhase.Coordination.{
  set_state, stop_coordination, start_evaluation, announce_result, complete_coordination,
  start_coordination, abort_evaluated, abort_proposal_if_timed_out,
}
use splinter.TwoPhase.History.{Justified, Allowed, Permitted, IsJust}
use splinter.TwoPhase.Kept.{Kept, IsFresh, IsFresh-cons, Kept-cons, Kept-idle, Kept-evaluate}

module _ (env : Env) (self : PeerId) (peers : List PeerId) where
  pub record Inv (w : World) : Type 0 where
    pub self_id : w.engine.id ≡ self
    pub same_peers : w.engine.peers ≡ peers
    pub kept : Kept env self peers w.log w.engine.state w.engine.proposal_backlog
    pub just : IsJust env self peers w.log

  -- The history grows by what is permitted.
  pub note-Inv : (x : Entry) (w : World) → Permitted env self peers w.log x → Inv w → Inv (note x w)
  note-Inv x w p h = record {
    self_id = h.self_id;
    same_peers = h.same_peers;
    kept = Kept-cons env self peers x w.log w.engine.state w.engine.proposal_backlog h.kept;
    just = (p, h.just);
  }

  -- The engine changes in its state and backlog.
  pub change-Inv :
      (f : TwoPhaseEngine → TwoPhaseEngine) (w : World)
      → (f w.engine).id ≡ w.engine.id
      → (f w.engine).peers ≡ w.engine.peers
      → Kept env self peers w.log (f w.engine).state (f w.engine).proposal_backlog
      → Inv w
      → Inv (modify f w).1
  unfolding modify
  change-Inv f w i p k h = record {
    self_id = i ∙ h.self_id;
    same_peers = p ∙ h.same_peers;
    kept = k;
    just = h.just;
  }

  pub idle-Inv : Preserves Inv (modify (set_state idle))
  idle-Inv = record {
    at = λ w h.
        change-Inv (set_state idle) w refl refl
          (Kept-idle env self peers w.log w.engine.state w.engine.proposal_backlog h.kept) h;
  }

  pub stop-Inv : Preserves Inv (modify stop_coordination)
  stop-Inv = record {
    at = λ w h.
        change-Inv stop_coordination w refl refl
          (Kept-idle env self peers w.log w.engine.state w.engine.proposal_backlog h.kept) h;
  }

  pub try_call-Inv :
      (c : Call) (w : World) → Allowed env self peers w.log c → Inv w → Inv (try_call env c w).1
  unfolding try_call
  try_call-Inv c w a h = note-Inv (called c (env.answer w.log c)) w a h

  pub call-Inv :
      (c : Call) (w : World) → Allowed env self peers w.log c → Inv w → Inv (call env c w).1
  unfolding call try_call
  call-Inv c w a h =
      let noted = note-Inv (called c (env.answer w.log c)) w a h in
      elim (Bool-cases (env.answer w.log c)) [
        | inl e ↦ rw e (rw e at noted)
        | inr e ↦ rw e (rw e at noted)
      ]

  -- a change of the engine that follows a successful check
  pub checked_modify-Inv :
      (pid : ProposalId) (f : TwoPhaseEngine → TwoPhaseEngine) (w : World)
      → ((x : Entry) → Inv (note x w) → Inv (modify f (note x w)).1)
      → Inv w
      → Inv ((call env (check_proposal pid) >>= λ _. modify f) w).1
  unfolding call try_call
  checked_modify-Inv pid f w k h =
      let c = check_proposal pid in
      let noted = note-Inv (called c (env.answer w.log c)) w tt h in
      elim (Bool-cases (env.answer w.log c)) [
        | inl e ↦ rw e (k (called c true) (rw e at noted))
        | inr e ↦ rw e (rw e at noted)
      ]

  pub broadcast-Inv : (m : Bytes) → Preserves Inv (call env (broadcast m))
  broadcast-Inv m = record { at = λ w h. call-Inv (broadcast m) w tt h }

  pub send_to-Inv : (p : PeerId) (m : Bytes) → Preserves Inv (call env (send_to p m))
  send_to-Inv p m = record { at = λ w h. call-Inv (send_to p m) w tt h }

  pub check_proposal-Inv : (pid : ProposalId) → Preserves Inv (call env (check_proposal pid))
  check_proposal-Inv pid = record { at = λ w h. call-Inv (check_proposal pid) w tt h }

  pub reject_proposal-Inv : (pid : ProposalId) → Preserves Inv (call env (reject_proposal pid))
  reject_proposal-Inv pid = record { at = λ w h. call-Inv (reject_proposal pid) w tt h }

  pub protobuf-Inv : {A : Type 0} (o : Option A) → Preserves Inv (or_protobuf_error o)
  protobuf-Inv none = record { at = λ w h. h }
  protobuf-Inv (some a) = record { at = λ w h. h }

  pub ruleset inv_rules = (
    preserves_rules, idle-Inv, stop-Inv, broadcast-Inv, send_to-Inv, check_proposal-Inv,
    reject_proposal-Inv, protobuf-Inv,
  )

  announce_result-Inv :
      (pid : ProposalId) (r : ProposalResult) → Preserves Inv (announce_result env pid r)
  unfolding announce_result
  announce_result-Inv pid r = search inv_rules

  pub reject-Inv : (pid : ProposalId) → Preserves Inv (complete_coordination env pid reject)
  unfolding complete_coordination
  reject-Inv pid = search (inv_rules, announce_result-Inv)

  pub apply-Inv :
      (pid : ProposalId) (w : World)
      → Justified env self peers w.log pid
      → Inv w
      → Inv (complete_coordination env pid apply w).1
  unfolding complete_coordination
  apply-Inv pid w j h =
      bind_at (call env (accept_proposal pid)) _ w (call-Inv (accept_proposal pid) w j h)
        (λ _. announce_result-Inv pid apply)

  pub start_coordination-Inv :
      (p : TwoPhaseProposal) (now : ℕ) (w : World)
      → IsFresh env self peers w.log p w.engine.proposal_backlog
      → Inv w
      → Inv (start_coordination env p now w).1
  unfolding start_coordination try_call
  start_coordination-Inv p now w f h =
      let c = check_proposal p.proposal_id in
      let noted = note-Inv (called c (env.answer w.log c)) w tt h in
      elim (Bool-cases (env.answer w.log c)) [
        | inl e ↦ rw e (
            change-Inv (start_evaluation p now) (note (called c true) w) refl refl
              (Kept-evaluate env self peers _ p w.engine.state w.engine.proposal_backlog
                (IsFresh-cons env self peers (called c true) w.log p w.engine.proposal_backlog f)
                (rw e at noted).kept)
              (rw e at noted))
        | inr e ↦ rw e ((reject-Inv p.proposal_id).at _ (rw e at noted))
      ]

  pub abort-Inv : (now : ℕ) → Preserves Inv (abort_proposal_if_timed_out env now)
  unfolding abort_proposal_if_timed_out
  abort-Inv now = record { at = λ w h. go w w.engine.state h }
    where
      go : (w : World) (s : State) → Inv w → Inv (abort_evaluated env s now w).1
      go w idle h = h
      go w awaiting_proposal h = h
      go w (evaluating_proposal p) h =
          let checked : Inv (record w {
            engine = record w.engine {
              coordinator_timeout = (check_expired now w.engine.coordinator_timeout).0;
            };
          }) =
            record {
              self_id = h.self_id;
              same_peers = h.same_peers;
              kept = h.kept;
              just = h.just;
            } in
          elim (Bool-cases (check_expired now w.engine.coordinator_timeout).1) [
            | inl e ↦ rw e ((reject-Inv p.proposal_id).at _ checked)
            | inr e ↦ rw e checked
          ]
