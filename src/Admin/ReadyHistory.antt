-- ===== src/Admin/ReadyHistory.antt =====
-- Why circuits are reported as ready in libsplinter/src/admin/service/shared.rs.
use splinter.Prelude.{
  String, ◌≡◌, Bool, true, false, ◌||◌, ◌&&◌, some, List, [], ◌∷◌, ◌==◌, string_eq, arith, inr, ◌⊎◌,
  All, any,
}
use splinter.Prelude.Sets.{contains}
use splinter.Prelude.Map.{lookup}
use splinter.Admin.Proto.{CircuitProposal}
use splinter.Admin.Validation.{node_ids}
use splinter.Admin.Ready.{UninitializedCircuit, ReadyState, ReadyStep, reported, committed}

abbrev pub is_report : String → String → ReadyStep → Bool
is_report circuit_id member (reported c m) = c == circuit_id && m == member
is_report circuit_id member (committed p) = false

-- Some step commits the proposal.
abbrev pub IsCommitted : CircuitProposal → List ReadyStep → Type 0
IsCommitted p [] = true ≡ false
IsCommitted p (committed q ∷ steps) = (q ≡ p) ⊎ IsCommitted p steps
IsCommitted p (reported c m ∷ steps) = IsCommitted p steps

-- the member is the node itself or has reported
abbrev pub has_reported : String → List ReadyStep → String → String → Bool
has_reported node steps circuit_id member =
    member == node || any (is_report circuit_id member) steps

-- The proposal was committed, and every member of its circuit has reported.
abbrev pub IsJustReady : String → List ReadyStep → CircuitProposal → Type 0
IsJustReady node steps p =
    IsCommitted p steps
    × ((member : String)
        → contains (node_ids p.circuit_proposal.members) member ≡ true
        → has_reported node steps p.circuit_id member ≡ true)

abbrev pub IsBackedEntry : String → List ReadyStep → String → UninitializedCircuit → Type 0
IsBackedEntry node steps id u =
    ((member : String)
      → contains u.ready_members member ≡ true
      → has_reported node steps id member ≡ true)
    × ((p : CircuitProposal) → u.circuit ≡ some p → (p.circuit_id ≡ id) × IsCommitted p steps)

pub record Inv (node : String) (steps : List ReadyStep) (s : ReadyState) : Type 0 where
  pub same_node : s.node_id ≡ node
  pub entries :
      (id : String) (u : UninitializedCircuit)
      → lookup id s.uninitialized_circuits ≡ some u
      → IsBackedEntry node steps id u
  pub log : All (IsJustReady node steps) s.circuit_ready

-- More steps change nothing of that.
pub has_reported_later :
    (node : String) (x : ReadyStep) (steps : List ReadyStep) (id member : String)
    → has_reported node steps id member ≡ true
    → has_reported node (x ∷ steps) id member ≡ true
unfolding any
has_reported_later node x steps id member h = ground arith

pub IsCommitted-later :
    (p : CircuitProposal) (x : ReadyStep) (steps : List ReadyStep)
    → IsCommitted p steps
    → IsCommitted p (x ∷ steps)
IsCommitted-later p (committed q) steps h = inr h
IsCommitted-later p (reported c m) steps h = h

pub IsJustReady-later :
    (node : String) (x : ReadyStep) (steps : List ReadyStep) (ps : List CircuitProposal)
    → All (IsJustReady node steps) ps
    → All (IsJustReady node (x ∷ steps)) ps
IsJustReady-later node x steps [] a = tt
IsJustReady-later node x steps (p ∷ ps) a = (
  (
    IsCommitted-later p x steps a.0.0,
    λ member m. has_reported_later node x steps p.circuit_id member (a.0.1 member m),
  ),
  IsJustReady-later node x steps ps a.1,
)

pub IsBackedEntry-later :
    (node : String) (x : ReadyStep) (steps : List ReadyStep) (id : String)
    (u : UninitializedCircuit)
    → IsBackedEntry node steps id u
    → IsBackedEntry node (x ∷ steps) id u
IsBackedEntry-later node x steps id u b = (
  λ member m. has_reported_later node x steps id member (b.0 member m),
  λ p e. ((b.1 p e).0, IsCommitted-later p x steps (b.1 p e).1),
)

pub Inv-later :
    (node : String) (x : ReadyStep) (steps : List ReadyStep) (s : ReadyState)
    → Inv node steps s
    → Inv node (x ∷ steps) s
Inv-later node x steps s i = record {
  same_node = i.same_node;
  entries = λ id u e. IsBackedEntry-later node x steps id u (i.entries id u e);
  log = IsJustReady-later node x steps s.circuit_ready i.log;
}
