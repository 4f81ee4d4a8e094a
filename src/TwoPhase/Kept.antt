-- ===== src/TwoPhase/Kept.antt =====
-- What is true of the proposals that an engine of libsplinter/src/consensus/two_phase/mod.rs keeps,
-- and how it survives each change of the state and the backlog.
use splinter.Prelude.{
  ◌≡◌, Bool, true, false, some, List, [], ◌∷◌, ◌++◌, arith, take_first, All, All-append, bytes_eq,
  bytes_beq_iff, inr,
}
use splinter.Prelude.Sets.{contains, contains-insert}
use splinter.TwoPhase.Model.{
  PeerId, Proposal, TwoPhaseProposal, State, idle, awaiting_proposal, evaluating_proposal, Entry,
  Env,
}
use splinter.TwoPhase.Coordination.{in_backlog}
use splinter.TwoPhase.Messages.{add_verified_peer}
use splinter.TwoPhase.Backlog.{tracked, Distinct, Led, Distinct-append, Distinct-rest, All-rest}
use splinter.TwoPhase.History.{Announced, required_of, vouched, vouched-cons}

module _ (env : Env) (self : PeerId) (peers : List PeerId) where
  -- The proposal has the verifiers that an announced proposal of its id requires, and the least of
  -- them as its coordinator.
  pub record IsSourced (log : List Entry) (p : TwoPhaseProposal) : Type 0 where
    pub led : Led p
    pub source : Proposal
    pub announced : Announced source log
    pub same_id : source.id ≡ p.proposal_id
    pub required : required_of env self peers source ≡ some p.required_verifiers

  abbrev pub Vouched : List Entry → TwoPhaseProposal → Type 0
  Vouched log p =
      (v : PeerId)
      → contains p.peers_verified v ≡ true
      → vouched env self peers log p.proposal_id v ≡ true

  abbrev pub VouchedState : List Entry → State → Type 0
  VouchedState log (evaluating_proposal p) = Vouched log p
  VouchedState log _ = Unit {0}

  abbrev pub Unverified : TwoPhaseProposal → Type 0
  Unverified p = p.peers_verified ≡ []

  pub record Kept (log : List Entry) (s : State) (ps : List TwoPhaseProposal) : Type 0 where
    pub distinct : Distinct (tracked s ps)
    pub sourced : All (IsSourced log) (tracked s ps)
    pub unverified : All Unverified ps
    pub evaluated : VouchedState log s

  -- A proposal that may be evaluated beside the backlog `ps`.
  pub record IsFresh (log : List Entry) (p : TwoPhaseProposal) (ps : List TwoPhaseProposal)
      : Type 0 where
    pub absent : in_backlog p.proposal_id ps ≡ false
    pub sourced : IsSourced log p
    pub unverified : Unverified p

  IsSourced-cons :
      (x : Entry) (log : List Entry) (p : TwoPhaseProposal)
      → IsSourced log p
      → IsSourced (x ∷ log) p
  IsSourced-cons x log p h = record {
    led = h.led;
    source = h.source;
    announced = inr h.announced;
    same_id = h.same_id;
    required = h.required;
  }

  pub IsFresh-cons :
      (x : Entry) (log : List Entry) (p : TwoPhaseProposal) (ps : List TwoPhaseProposal)
      → IsFresh log p ps
      → IsFresh (x ∷ log) p ps
  IsFresh-cons x log p ps f = record {
    absent = f.absent;
    sourced = IsSourced-cons x log p f.sourced;
    unverified = f.unverified;
  }

  All-IsSourced-cons :
      (x : Entry) (log : List Entry) (ps : List TwoPhaseProposal)
      → All (IsSourced log) ps
      → All (IsSourced (x ∷ log)) ps
  All-IsSourced-cons x log [] h = tt
  All-IsSourced-cons x log (p ∷ ps) h =
      (IsSourced-cons x log p h.0, All-IsSourced-cons x log ps h.1)

  VouchedState-cons :
      (x : Entry) (log : List Entry) (s : State) → VouchedState log s → VouchedState (x ∷ log) s
  VouchedState-cons x log idle h = tt
  VouchedState-cons x log awaiting_proposal h = tt
  VouchedState-cons x log (evaluating_proposal p) h =
      λ v m. vouched-cons env self peers x log p.proposal_id v (h v m)

  pub Kept-cons :
      (x : Entry) (log : List Entry) (s : State) (ps : List TwoPhaseProposal)
      → Kept log s ps
      → Kept (x ∷ log) s ps
  Kept-cons x log s ps k = record {
    distinct = k.distinct;
    sourced = All-IsSourced-cons x log (tracked s ps) k.sourced;
    unverified = k.unverified;
    evaluated = VouchedState-cons x log s k.evaluated;
  }

  pub Kept-idle :
      (log : List Entry) (s : State) (ps : List TwoPhaseProposal) → Kept log s ps → Kept log idle ps
  Kept-idle log idle ps k = k
  Kept-idle log awaiting_proposal ps k = record {
    distinct = k.distinct;
    sourced = k.sourced;
    unverified = k.unverified;
    evaluated = tt;
  }
  Kept-idle log (evaluating_proposal p) ps k = record {
    distinct = k.distinct.1;
    sourced = k.sourced.1;
    unverified = k.unverified;
    evaluated = tt;
  }

  pub Kept-awaiting :
      (log : List Entry) (ps : List TwoPhaseProposal)
      → Kept log idle ps
      → Kept log awaiting_proposal ps
  Kept-awaiting log ps k = record {
    distinct = k.distinct;
    sourced = k.sourced;
    unverified = k.unverified;
    evaluated = tt;
  }

  -- Nobody has verified a proposal that is new.
  Vouched-Unverified : (log : List Entry) (p : TwoPhaseProposal) → Unverified p → Vouched log p
  unfolding contains
  Vouched-Unverified log p u = λ v m. ground arith

  pub Kept-evaluate :
      (log : List Entry) (p : TwoPhaseProposal) (s : State) (ps : List TwoPhaseProposal)
      → IsFresh log p ps
      → Kept log s ps
      → Kept log (evaluating_proposal p) ps
  Kept-evaluate log p s ps f k =
      let i = Kept-idle log s ps k in
      record {
        distinct = (f.absent, i.distinct);
        sourced = (f.sourced, i.sourced);
        unverified = k.unverified;
        evaluated = Vouched-Unverified log p f.unverified;
      }

  pub Kept-push :
      (log : List Entry) (p : TwoPhaseProposal) (s : State) (ps : List TwoPhaseProposal)
      → IsFresh log p (tracked s ps)
      → Kept log s ps
      → Kept log s (ps ++ p ∷ [])
  Kept-push log p idle ps f k = record {
    distinct = Distinct-append ps p k.distinct f.absent;
    sourced = All-append (IsSourced log) ps (p ∷ []) k.sourced (f.sourced, tt);
    unverified = All-append Unverified ps (p ∷ []) k.unverified (f.unverified, tt);
    evaluated = tt;
  }
  Kept-push log p awaiting_proposal ps f k = record {
    distinct = Distinct-append ps p k.distinct f.absent;
    sourced = All-append (IsSourced log) ps (p ∷ []) k.sourced (f.sourced, tt);
    unverified = All-append Unverified ps (p ∷ []) k.unverified (f.unverified, tt);
    evaluated = tt;
  }
  Kept-push log p (evaluating_proposal c) ps f k = record {
    distinct = Distinct-append (c ∷ ps) p k.distinct f.absent;
    sourced = All-append (IsSourced log) (c ∷ ps) (p ∷ []) k.sourced (f.sourced, tt);
    unverified = All-append Unverified ps (p ∷ []) k.unverified (f.unverified, tt);
    evaluated = k.evaluated;
  }

  -- The proposal that leaves the backlog is fresh beside the rest.
  pub Kept-take :
      (test : TwoPhaseProposal → Bool) (log : List Entry) (s : State) (ps : List TwoPhaseProposal)
      (p : TwoPhaseProposal) (rest : List TwoPhaseProposal)
      → take_first test ps ≡ some (p, rest)
      → Kept log s ps
      → IsFresh log p rest × Kept log idle rest
  Kept-take test log s ps p rest e k =
      let i = Kept-idle log s ps k in
      let d = Distinct-rest test ps p rest e i.distinct in
      let o = All-rest test (IsSourced log) ps p rest e i.sourced in
      let u = All-rest test Unverified ps p rest e k.unverified in
      (
        record { absent = d.0; sourced = o.0; unverified = u.0 },
        record { distinct = d.1; sourced = o.1; unverified = u.1; evaluated = tt },
      )

  pub Kept-vouch :
      (log : List Entry) (p : TwoPhaseProposal) (ps : List TwoPhaseProposal) (v : PeerId)
      → vouched env self peers log p.proposal_id v ≡ true
      → Kept log (evaluating_proposal p) ps
      → Kept log (evaluating_proposal (add_verified_peer v p)) ps
  unfolding add_verified_peer
  Kept-vouch log p ps v h k = record {
    distinct = k.distinct;
    sourced = (
      record {
        led = k.sourced.0.led;
        source = k.sourced.0.source;
        announced = k.sourced.0.announced;
        same_id = k.sourced.0.same_id;
        required = k.sourced.0.required;
      },
      k.sourced.1,
    );
    unverified = k.unverified;
    evaluated = λ u m.
        ground (arith, contains-insert v u p.peers_verified, bytes_beq_iff u v, k.evaluated u);
  }
