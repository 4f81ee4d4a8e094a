-- ===== src/Admin/Informed.antt =====
-- What an uninitialized circuit of libsplinter/src/admin/service/shared.rs knows of the steps so far.
use splinter.Prelude.{
  ℕ, ◌+◌, true, ◌==◌, any, if◌then◌else◌, eq_comm, eq_self, ap, sym, ◌∙◌, ◌⊎◌, inl, inr, String,
  ◌≡◌, false, none, some, List, [], ◌∷◌, string_eq, arith,
}
use splinter.Prelude.Sets
use splinter.Prelude.Sets.{contains, contains-insert, contains-from_list, is_subset, from_list}
use splinter.Admin.Proto.{CircuitProposal}
use splinter.Admin.Ready.{UninitializedCircuit, ReadyStep, reported, committed}
use splinter.Admin.Validation.{node_ids}
use splinter.Admin.ReadyHistory.{is_report, has_reported, IsCommitted, has_reported_later}

-- how many steps commit a circuit of the id
abbrev pub commits_of : String → List ReadyStep → ℕ
commits_of id [] = 0
commits_of id (committed p ∷ steps) =
    let rest = commits_of id steps in if p.circuit_id == id then 1 + rest else rest
commits_of id (reported c m ∷ steps) = commits_of id steps

-- Some member of the proposal's circuit is not the node and has not reported.
abbrev pub IsMissing : String → List ReadyStep → String → CircuitProposal → Type 0
IsMissing node steps id p =
    (member : String) × (contains (node_ids p.circuit_proposal.members) member ≡ true)
    × (has_reported node steps id member ≡ false)

-- Every member of the proposal's circuit is the node or has reported.
abbrev pub IsReported : String → List ReadyStep → String → CircuitProposal → Type 0
IsReported node steps id p =
    (member : String)
    → contains (node_ids p.circuit_proposal.members) member ≡ true
    → has_reported node steps id member ≡ true

-- What an entry knows of the steps: every report, before a commit; the node's own readiness too,
-- once the circuit is known; and no more than that. A committed circuit stays known until its
-- members have reported.
pub record IsInformed (node id : String) (steps : List ReadyStep) (u : UninitializedCircuit)
    : Type 0 where
  pub unknown : commits_of id steps ≡ 0 → u.circuit ≡ none
  pub reports :
      commits_of id steps ≡ 0
      → (member : String) → any (is_report id member) steps ≡ true
      → contains u.ready_members member ≡ true
  pub known :
      (p : CircuitProposal)
      → u.circuit ≡ some p
      → (member : String) → has_reported node steps id member ≡ true
      → contains u.ready_members member ≡ true
  pub sound :
      (member : String)
      → contains u.ready_members member ≡ true
      → has_reported node steps id member ≡ true
  pub awaited :
      (p : CircuitProposal)
      → IsCommitted p steps
      → (p.circuit_id == id) ≡ true
      → (u.circuit ≡ some p) ⊎ IsReported node steps id p

-- a commit of the circuit counts
commits_of-IsCommitted :
    (id : String) (p : CircuitProposal) (steps : List ReadyStep)
    → IsCommitted p steps
    → (p.circuit_id == id) ≡ true
    → commits_of id steps ≡ 0
    → true ≡ false
commits_of-IsCommitted id p [] c h z = c
commits_of-IsCommitted id p (committed q ∷ steps) (inl same) h z =
    let h' = ap (λ (x : CircuitProposal). x.circuit_id == id) same ∙ h in ground (arith, h', z)
commits_of-IsCommitted id p (committed q ∷ steps) (inr c) h z =
    commits_of-IsCommitted id p steps c h (ground (arith, z))
commits_of-IsCommitted id p (reported c m ∷ steps) k h z = commits_of-IsCommitted id p steps k h z

-- one more step
awaited_later :
    {A : Type 0} (node id : String) (x : ReadyStep) (steps : List ReadyStep) (p : CircuitProposal)
    → A ⊎ IsReported node steps id p
    → A ⊎ IsReported node (x ∷ steps) id p
awaited_later node id x steps p (inl a) = inl a
awaited_later node id x steps p (inr f) = inr (λ m c. has_reported_later node x steps id m (f m c))

-- the entry after a report, and after a commit
abbrev pub put_report : String → UninitializedCircuit → UninitializedCircuit
put_report m u = record u { ready_members = Sets.insert m u.ready_members }

abbrev pub put_commit : String → CircuitProposal → UninitializedCircuit → UninitializedCircuit
put_commit node q u = record { circuit = some q; ready_members = Sets.insert node u.ready_members }

module _ (node id : String) (steps : List ReadyStep) (u : UninitializedCircuit)
    (i : IsInformed node id steps u) where
  -- steps for other circuits
  pub reported_other :
      (c m : String) → (c == id) ≡ false → IsInformed node id (reported c m ∷ steps) u
  unfolding any
  reported_other c m h = record {
    unknown = i.unknown;
    reports = λ e n r. i.reports e n (ground (arith, h, r));
    known = λ p e n r. i.known p e n (ground (arith, h, r));
    sound = λ n r. has_reported_later node (reported c m) steps id n (i.sound n r);
    awaited = λ p k e. awaited_later node id (reported c m) steps p (i.awaited p k e);
  }

  pub committed_other :
      (q : CircuitProposal)
      → (q.circuit_id == id) ≡ false
      → IsInformed node id (committed q ∷ steps) u
  unfolding any
  committed_other q h = record {
    unknown = λ e. i.unknown (ground (arith, h, e));
    reports = λ e n r. i.reports (ground (arith, h, e)) n (ground (arith, h, r));
    known = λ p e n r. i.known p e n (ground (arith, h, r));
    sound = λ n r. has_reported_later node (committed q) steps id n (i.sound n r);
    awaited = λ p k e. committed_before p k e;
  }
    where
      committed_before :
          (p : CircuitProposal)
          → IsCommitted p (committed q ∷ steps)
          → (p.circuit_id == id) ≡ true
          → (u.circuit ≡ some p) ⊎ IsReported node (committed q ∷ steps) id p
      committed_before p (inl same) e =
          let h' = sym (ap (λ (x : CircuitProposal). x.circuit_id == id) same) ∙ h in cc (h', e)
      committed_before p (inr k) e = awaited_later node id (committed q) steps p (i.awaited p k e)

  -- steps for this circuit
  pub reported_here : (m : String) → IsInformed node id (reported id m ∷ steps) (put_report m u)
  unfolding any
  reported_here m = record {
    unknown = i.unknown;
    reports =
        λ e n r. ground (arith, r, i.reports e n, contains-insert m n u.ready_members, eq_comm m n);
    known = λ p e n r.
        ground (arith, r, i.known p e n, contains-insert m n u.ready_members, eq_comm m n);
    sound = λ n r.
        ground (arith, r, i.sound n, contains-insert m n u.ready_members, eq_self id, eq_comm m n);
    awaited = λ p k e. awaited_later node id (reported id m) steps p (i.awaited p k e);
  }

  pub committed_here :
      (q : CircuitProposal)
      → (q.circuit_id == id) ≡ true
      → commits_of id steps ≡ 0
      → IsInformed node id (committed q ∷ steps) (put_commit node q u)
  unfolding any
  committed_here q h z = record {
    unknown = λ e. ground (arith, h, e);
    reports = λ e n r. ground (arith, h, e);
    known = λ p e n r. ground (arith, r, i.reports z n, contains-insert node n u.ready_members);
    sound = λ n r. ground (arith, r, i.sound n, contains-insert node n u.ready_members);
    awaited = λ p k e. committed_now p k e;
  }
    where
      committed_now :
          (p : CircuitProposal)
          → IsCommitted p (committed q ∷ steps)
          → (p.circuit_id == id) ≡ true
          → (some q ≡ some p) ⊎ IsReported node (committed q ∷ steps) id p
      committed_now p (inl same) e = inl (ap (λ x. some x) same)
      committed_now p (inr k) e = (let f = commits_of-IsCommitted id p steps k e z in cc f)
