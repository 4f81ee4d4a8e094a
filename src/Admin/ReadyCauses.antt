-- ===== src/Admin/ReadyCauses.antt =====
-- Each step on uninitialized circuits in libsplinter/src/admin/service/shared.rs, and the circuits that
-- it reports.
use mathlib.Core.Path.{subst}
use text.Mathlib.TextEquality.{eq_iff}
use splinter.Prelude.{
  String, ◌≡◌, refl, ◌∙◌, sym, true, Option, none, some, List, [], ◌∷◌, ◌==◌, string_eq, keep,
  arith, eq_self, eq_comm, ap, Option-cases, Bool-cases, inl, inr, All, any,
}
use splinter.Prelude.Exec.{Preserves, Preserves-bind, Preserves-pure}
use splinter.Prelude.Sets.{
  contains, contains-insert, contains-from_list, is_subset, is_subset_iff, from_list,
}
use splinter.Prelude.Map
use splinter.Prelude.Map.{lookup, lookup-insert, lookup-remove}
use splinter.Admin.Proto.{SplinterService, CircuitProposal}
use splinter.Admin.Validation.{node_ids}
use splinter.Admin.Messages.{is_convertible}
use splinter.Admin.Ready.{
  UninitializedCircuit, Orchestrator, ReadyState, ServiceDefinition, is_ready, start_service,
  start_services, initialize_services, send_circuit_ready, start_circuit, start_known,
  definition_of, arguments_of, initialize_services_if_members_ready, entry_of, put_entry,
  add_ready_member, add_uninitialized_circuit, ReadyStep, reported, committed, ready_step,
  ready_steps, runs_here,
}
use splinter.Admin.ReadyHistory.{Inv, has_reported, IsJustReady, IsBackedEntry, Inv-later}

module _ (orchestrator : Orchestrator) (node : String) (steps : List ReadyStep) where
  start_service-Inv :
      (d : ServiceDefinition) (arguments : List (String × String))
      → Preserves (Inv node steps) (start_service orchestrator d arguments)
  unfolding start_service
  start_service-Inv d arguments = record {
    at = λ s i. elim (Bool-cases (orchestrator.initialize_service s.running_services d arguments)) [
      | inl e ↦ rw e (record { same_node = i.same_node; entries = i.entries; log = i.log })
      | inr e ↦ rw e i
    ];
  }

  start_services-Inv :
      (id : String) (services : List SplinterService)
      → Preserves (Inv node steps) (start_services orchestrator id services)
  unfolding start_services
  start_services-Inv id [] = Preserves-pure tt
  start_services-Inv id (service ∷ services) =
      Preserves-bind (start_service orchestrator (definition_of id service) (arguments_of service))
        (λ _. start_services orchestrator id services)
        (start_service-Inv (definition_of id service) (arguments_of service))
        (λ _. start_services-Inv id services)

  start_circuit-Inv :
      (p : CircuitProposal)
      → IsJustReady node steps p
      → Preserves (Inv node steps) (start_circuit orchestrator p)
  unfolding initialize_services send_circuit_ready
  start_circuit-Inv p j =
      Preserves-bind (initialize_services orchestrator p.circuit_proposal)
        (λ _. send_circuit_ready orchestrator p)
        (record {
          at = λ s i.
              (start_services-Inv p.circuit_proposal.circuit_id
                  (keep (runs_here orchestrator s.node_id) p.circuit_proposal.roster)).at
                s i;
        })
        (λ _. record {
          at = λ s i. elim (Bool-cases (is_convertible p)) [
            | inl e ↦
                rw e (record { same_node = i.same_node; entries = i.entries; log = (j, i.log) })
            | inr e ↦ rw e i
          ];
        })

  -- an entry that is ready
  start_known-Inv :
      (id : String) (u : UninitializedCircuit) (o : Option CircuitProposal)
      → u.circuit ≡ o
      → IsBackedEntry node steps id u
      → is_ready u ≡ true
      → Preserves (Inv node steps) (start_known orchestrator o)
  unfolding is_ready
  start_known-Inv id u none e b r = Preserves-pure tt
  start_known-Inv id u (some p) e b r =
      let (same, done) = b.1 p e in
      let subset : is_subset (from_list (node_ids p.circuit_proposal.members)) u.ready_members
          ≡ true =
        ground (arith, e, r) in
      start_circuit-Inv p (
        done,
        λ member m.
            subst (λ x. has_reported node steps x member ≡ true) (sym same)
              (b.0 member (
                (is_subset_iff (from_list (node_ids p.circuit_proposal.members)) u.ready_members).0
                  subset member
                  (rw (contains-from_list (node_ids p.circuit_proposal.members) member) m))),
      )

  put_entry-Inv :
      (id : String) (u : UninitializedCircuit) (s : ReadyState)
      → IsBackedEntry node steps id u
      → Inv node steps s
      → Inv node steps (put_entry id u s)
  put_entry-Inv id u s b i = record {
    same_node = i.same_node;
    entries = λ id' v e.
        let inserted = lookup-insert id id' u s.uninitialized_circuits in
        elim (Bool-cases (id == id')) [
          | inl q ↦
              let found : some v ≡ some u = ground (arith, e, inserted, q) in
              let same : u ≡ v = ground (arith, found) in
              subst (λ x. IsBackedEntry node steps x v) ((eq_iff id id').0 q)
                (subst (IsBackedEntry node steps id) same b)
          | inr q ↦ i.entries id' v (ground (arith, e, inserted, q))
        ];
    log = i.log;
  }

  remove_entry-Inv :
      (id : String) (s : ReadyState)
      → Inv node steps s
      → Inv node steps
          (record s { uninitialized_circuits = Map.remove id s.uninitialized_circuits })
  remove_entry-Inv id s i = record {
    same_node = i.same_node;
    entries = λ id' v e.
        i.entries id' v (ground (arith, e, lookup-remove id id' s.uninitialized_circuits));
    log = i.log;
  }

  settle-Inv :
      (id : String) (u : UninitializedCircuit) (s : ReadyState)
      → IsBackedEntry node steps id u
      → Inv node steps s
      → Inv node steps (initialize_services_if_members_ready orchestrator id (put_entry id u s)).1
  unfolding initialize_services_if_members_ready
  settle-Inv id u s b i =
      let found : lookup id (Map.insert id u s.uninitialized_circuits) ≡ some u =
        lookup-insert id id u s.uninitialized_circuits ∙ ground (arith, eq_self id) in
      let put = put_entry-Inv id u s b i in
      rw found (elim (Bool-cases (is_ready u)) [
        | inl e ↦ rw e (
            (start_known-Inv id u u.circuit refl b e).at _
              (remove_entry-Inv id (put_entry id u s) put))
        | inr e ↦ rw e put
      ])

entry_of-IsBackedEntry :
    (node : String) (steps : List ReadyStep) (id : String) (s : ReadyState)
    → Inv node steps s
    → IsBackedEntry node steps id (entry_of (lookup id s.uninitialized_circuits))
unfolding contains
entry_of-IsBackedEntry node steps id s i =
    elim (Option-cases (lookup id s.uninitialized_circuits)) [
      | inl e ↦ rw e ((λ member m. cc), (λ p e. cc))
      | inr (u, e) ↦ rw e (i.entries id u e)
    ]

ready_step-Inv :
    (orchestrator : Orchestrator) (node : String) (steps : List ReadyStep) (x : ReadyStep)
    (s : ReadyState)
    → Inv node steps s
    → Inv node (x ∷ steps) (ready_step orchestrator x s)
unfolding add_ready_member add_uninitialized_circuit any
ready_step-Inv orchestrator node steps (reported id m) s i =
    let i' = Inv-later node (reported id m) steps s i in
    let u = entry_of (lookup id s.uninitialized_circuits) in
    let b = entry_of-IsBackedEntry node (reported id m ∷ steps) id s i' in
    settle-Inv orchestrator node (reported id m ∷ steps) id _ s
      (
        λ n h. ground (arith, b.0 n, contains-insert m n u.ready_members, eq_self id, eq_comm m n),
        b.1,
      )
      i'
ready_step-Inv orchestrator node steps (committed p) s i =
    let i' = Inv-later node (committed p) steps s i in
    let u = entry_of (lookup p.circuit_id s.uninitialized_circuits) in
    let b = entry_of-IsBackedEntry node (committed p ∷ steps) p.circuit_id s i' in
    settle-Inv orchestrator node (committed p ∷ steps) p.circuit_id _ s
      (
        λ n h. ground (arith, b.0 n, contains-insert s.node_id n u.ready_members, i.same_node),
        λ q e.
            let same : p ≡ q = ground (arith, e) in
            (ap (λ (r : CircuitProposal). r.circuit_id) (sym same), inl same),
      )
      i'

-- The steps, newest first.
abbrev pub past : List ReadyStep → List ReadyStep → List ReadyStep
past [] done = done
past (x ∷ xs) done = past xs (x ∷ done)

ready_steps-Inv :
    (orchestrator : Orchestrator) (node : String) (done xs : List ReadyStep) (s : ReadyState)
    → Inv node done s
    → Inv node (past xs done) (ready_steps orchestrator xs s)
ready_steps-Inv orchestrator node done [] s i = i
ready_steps-Inv orchestrator node done (x ∷ xs) s i =
    ready_steps-Inv orchestrator node (x ∷ done) xs _ (ready_step-Inv orchestrator node done x s i)

-- From a node without uninitialized circuits, whatever commits and reports follow: each circuit
-- that is reported as ready was committed, and every member of it is the node or has reported.
pub ready_steps-IsJustReady :
    (orchestrator : Orchestrator) (xs : List ReadyStep) (s : ReadyState)
    → s.uninitialized_circuits ≡ []
    → s.circuit_ready ≡ []
    → All (IsJustReady s.node_id (past xs [])) (ready_steps orchestrator xs s).circuit_ready
unfolding lookup
ready_steps-IsJustReady orchestrator xs s none_waits none_ready =
    (ready_steps-Inv orchestrator s.node_id [] xs s (record {
      same_node = refl;
      entries = λ id u e. cc (none_waits, e);
      log = rw none_ready tt;
    })).log
