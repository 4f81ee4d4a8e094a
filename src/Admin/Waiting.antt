-- ===== src/Admin/Waiting.antt =====
-- Which circuits wait for their members in libsplinter/src/admin/service/shared.rs.
use mathlib.Core.Path.{subst}
use text.Mathlib.TextEquality.{eq_iff}
use splinter.Prelude.{
  ◌⊎◌, ◌↔◌, sym, all, Bool, ◌≤◌, true, ◌==◌, any, String, ◌≡◌, refl, ◌∙◌, false, Option, none, some,
  List, [], ◌∷◌, string_eq, arith, eq_self, Bool-cases, inl, inr,
}
use splinter.Prelude.Sets.{contains, contains-from_list, is_subset, from_list}
use splinter.Prelude.Map.{lookup}
use splinter.Admin.Proto.{CircuitProposal}
use splinter.Admin.Ready.{
  entry_of, UninitializedCircuit, Orchestrator, ReadyState, is_ready,
  initialize_services_if_members_ready, put_entry, add_ready_member, add_uninitialized_circuit,
  ReadyStep, reported, committed, ready_step, ready_steps,
}
use splinter.Admin.Validation.{node_ids}
use splinter.Admin.ReadyHistory.{has_reported, IsCommitted}
use splinter.Admin.ReadyCauses.{past}
use splinter.Admin.Informed.{
  commits_of, IsMissing, IsReported, IsInformed, put_report, put_commit, reported_other,
  committed_other, reported_here, committed_here,
}
use splinter.Admin.Settled.{unknown_waits, settled-IsInformed, settle_entry}

record Waits (node id : String) (steps : List ReadyStep) (s : ReadyState) : Type 0 where
  same_node : s.node_id ≡ node
  informed : IsInformed node id steps (entry_of (lookup id s.uninitialized_circuits))
  unready : is_ready (entry_of (lookup id s.uninitialized_circuits)) ≡ false

module _ (orchestrator : Orchestrator) where
  -- an entry that was put and settled, for the id or another one
  settle-Waits :
      (node id circuit_id : String) (x : ReadyStep) (steps : List ReadyStep)
      (u : UninitializedCircuit) (s : ReadyState)
      → Waits node id steps s
      → ((circuit_id == id) ≡ true → IsInformed node id (x ∷ steps) u)
      → ((circuit_id == id) ≡ false
          → IsInformed node id (x ∷ steps) (entry_of (lookup id s.uninitialized_circuits)))
      → Waits node id
          (x ∷ steps)
          (initialize_services_if_members_ready orchestrator circuit_id
            (put_entry circuit_id u s)).1
  settle-Waits node id circuit_id x steps u s w here other =
      let (kept, entries) = settle_entry orchestrator circuit_id u s in
      elim (Bool-cases (circuit_id == id)) [
        | inl e ↦
            (let (i, f) = settled-IsInformed node id (x ∷ steps) u (here e) in
              let found = rw e at (entries id) in
              record {
                same_node = kept ∙ w.same_node;
                informed = rw found i;
                unready = rw found f;
              })
        | inr e ↦
            (let found = rw e at (entries id) in
              record {
                same_node = kept ∙ w.same_node;
                informed = rw found (other e);
                unready = rw found w.unready;
              })
      ]

  ready_step-Waits :
      (node id : String) (x : ReadyStep) (steps : List ReadyStep) (s : ReadyState)
      → commits_of id (x ∷ steps) ≤ 1
      → Waits node id steps s
      → Waits node id (x ∷ steps) (ready_step orchestrator x s)
  unfolding add_ready_member add_uninitialized_circuit
  ready_step-Waits node id (reported c m) steps s once w =
      let u = entry_of (lookup c s.uninitialized_circuits) in
      settle-Waits node id c (reported c m) steps (put_report m u) s w
        (λ e.
          subst
            (λ k.
              IsInformed node id (reported k m ∷ steps)
                (put_report m (entry_of (lookup k s.uninitialized_circuits))))
            (sym ((eq_iff c id).0 e))
            (reported_here node id steps (entry_of (lookup id s.uninitialized_circuits)) w.informed
              m))
        (reported_other node id steps (entry_of (lookup id s.uninitialized_circuits)) w.informed c
          m)
  ready_step-Waits node id (committed p) steps s once w =
      let u = λ (k : String). entry_of (lookup k s.uninitialized_circuits) in
      settle-Waits node id p.circuit_id (committed p) steps
        (put_commit s.node_id p (u p.circuit_id)) s w
        (λ e.
          let here = committed_here node id steps (u id) w.informed p e (ground (arith, once, e)) in
          subst (λ n. IsInformed node id (committed p ∷ steps) (put_commit n p (u p.circuit_id)))
            (sym w.same_node)
            (subst (λ k. IsInformed node id (committed p ∷ steps) (put_commit node p (u k)))
              (sym ((eq_iff p.circuit_id id).0 e)) here))
        (committed_other node id steps (u id) w.informed p)

commits_of-past :
    (id : String) (xs done : List ReadyStep) → commits_of id done ≤ commits_of id (past xs done)
commits_of-past id [] done = omega arith
commits_of-past id (committed p ∷ xs) done =
    ground (arith, commits_of-past id xs (committed p ∷ done))
commits_of-past id (reported c m ∷ xs) done = commits_of-past id xs (reported c m ∷ done)

ready_steps-Waits :
    (orchestrator : Orchestrator) (node id : String) (done xs : List ReadyStep) (s : ReadyState)
    → commits_of id (past xs done) ≤ 1
    → Waits node id done s
    → Waits node id (past xs done) (ready_steps orchestrator xs s)
ready_steps-Waits orchestrator node id done [] s once w = w
ready_steps-Waits orchestrator node id done (x ∷ xs) s once w =
    ready_steps-Waits orchestrator node id (x ∷ done) xs _ once (
      ready_step-Waits orchestrator node id x done s
        (omega (arith, once, commits_of-past id xs (x ∷ done))) w)

-- some element fails a test that not all pass
failing :
    (f : String → Bool) (xs : List String)
    → all f xs ≡ false
    → (x : String) × (contains xs x ≡ true) × (f x ≡ false)
unfolding all contains
failing f [] h = cc h
failing f (x ∷ xs) h = elim (Bool-cases (f x)) [
  | inr e ↦ (x, ground (arith, eq_self x), e)
  | inl e ↦ (let (y, c, g) = failing f xs (ground (arith, h, e)) in (y, ground (arith, c), g))
]

known_unready :
    (u : UninitializedCircuit) (p : CircuitProposal)
    → u.circuit ≡ some p
    → is_ready u ≡ false
    → is_subset (from_list (node_ids p.circuit_proposal.members)) u.ready_members ≡ false
unfolding is_ready
known_unready u p e h = rw e at h

-- the proposal's circuit waits, with the proposal
abbrev pub IsAwaited : CircuitProposal → ReadyState → Type 0
IsAwaited p s =
    (u : UninitializedCircuit) × (lookup p.circuit_id s.uninitialized_circuits ≡ some u)
    × (u.circuit ≡ some p)

awaited-IsMissing :
    (node id : String) (steps : List ReadyStep) (u : UninitializedCircuit) (p : CircuitProposal)
    → IsInformed node id steps u
    → is_ready u ≡ false
    → u.circuit ≡ some p
    → IsMissing node steps id p
unfolding is_subset
awaited-IsMissing node id steps u p i unready known =
    let members = node_ids p.circuit_proposal.members in
    let (m, inside, absent) =
      failing (contains u.ready_members) (from_list members) (known_unready u p known unready) in
    (
      m,
      sym (contains-from_list members m) ∙ inside,
      elim (Bool-cases (has_reported node steps id m)) [
        | inr e ↦ e
        | inl e ↦ (let there = i.known p known m e in cc (there, absent))
      ],
    )

IsMissing-awaited :
    (node id : String) (steps : List ReadyStep) (o : Option UninitializedCircuit)
    (p : CircuitProposal)
    → ((entry_of o).circuit ≡ some p) ⊎ IsReported node steps id p
    → IsMissing node steps id p
    → (u : UninitializedCircuit) × (o ≡ some u) × (u.circuit ≡ some p)
IsMissing-awaited node id steps none p (inl e) missing = cc e
IsMissing-awaited node id steps (some u) p (inl e) missing = (u, refl, e)
IsMissing-awaited node id steps o p (inr f) (m, inside, absent) =
    let there = f m inside in cc (there, absent)

-- From a node where no entry waits for the circuit, after any commits and reports of which one
-- commits the proposal and no other commits its circuit, and whether the services start or fail:
-- the circuit waits with the proposal exactly while some member of it is not the node and has not
-- reported.
pub ready_steps-IsMissing :
    (orchestrator : Orchestrator) (xs : List ReadyStep) (s : ReadyState) (p : CircuitProposal)
    → lookup p.circuit_id s.uninitialized_circuits ≡ none
    → IsCommitted p (past xs [])
    → commits_of p.circuit_id (past xs []) ≤ 1
    → IsAwaited p (ready_steps orchestrator xs s) ↔ IsMissing s.node_id (past xs []) p.circuit_id p
unfolding any contains
ready_steps-IsMissing orchestrator xs s p new done once =
    let start : Waits s.node_id p.circuit_id [] s = record {
      same_node = refl;
      informed = rw new (record {
        unknown = λ e. refl;
        reports = λ e m h. cc h;
        known = λ q h. cc h;
        sound = λ m h. cc h;
        awaited = λ q h. cc h;
      });
      unready = rw new (unknown_waits (entry_of none) refl);
    } in
    let w = ready_steps-Waits orchestrator s.node_id p.circuit_id [] xs s once start in
    (
      (λ (a : IsAwaited p (ready_steps orchestrator xs s)).
          let (u, found, known) = a in
          awaited-IsMissing s.node_id p.circuit_id (past xs []) u p (rw found at w.informed)
            (rw found at w.unready) known),
      IsMissing-awaited s.node_id p.circuit_id (past xs []) _ p
          (w.informed.awaited p done (ground (arith, eq_self p.circuit_id))),
    )
