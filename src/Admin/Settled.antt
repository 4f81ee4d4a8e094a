-- ===== src/Admin/Settled.antt =====
-- What a step of libsplinter/src/admin/service/shared.rs leaves of the uninitialized circuits.
use splinter.Prelude.{
  ◌⊎◌, true, ◌==◌, if◌then◌else◌, String, ap, ◌≡◌, refl, ◌∙◌, false, Option, none, some, List, [],
  ◌∷◌, string_eq, keep, arith, eq_self, Bool-cases, inl, inr,
}
use splinter.Prelude.Exec.{Result, ok, err, ◌>>◌, resume}
use splinter.Prelude.Sets.{contains, contains-from_list, is_subset, is_subset_iff, from_list}
use splinter.Prelude.Map
use splinter.Prelude.Map.{lookup, lookup-insert, lookup-remove}
use splinter.Admin.Proto.{SplinterService, CircuitProposal}
use splinter.Admin.Ready.{
  entry_of, ReadyError, UninitializedCircuit, Orchestrator, ReadyState, is_ready, start_service,
  start_services, initialize_services, send_circuit_ready, start_circuit, start_known,
  definition_of, arguments_of, initialize_services_if_members_ready, put_entry, ReadyStep,
  runs_here, Method,
}
use splinter.Admin.Validation.{node_ids}
use splinter.Admin.Informed.{IsReported, IsInformed}

-- The method leaves the circuits that wait, and the node.
abbrev KeepsWaiting : Method (Unit {0}) → Type 0
KeepsWaiting m =
    (s : ReadyState)
    → ((m s).1.uninitialized_circuits ≡ s.uninitialized_circuits) × ((m s).1.node_id ≡ s.node_id)

resumed_KeepsWaiting :
    (r : Result ReadyError (Unit {0})) (n : Method (Unit {0})) (s₁ s : ReadyState)
    → (s₁.uninitialized_circuits ≡ s.uninitialized_circuits) × (s₁.node_id ≡ s.node_id)
    → ((n s₁).1.uninitialized_circuits ≡ s₁.uninitialized_circuits)
      × ((n s₁).1.node_id ≡ s₁.node_id)
    → ((resume r (λ _. n) s₁).1.uninitialized_circuits ≡ s.uninitialized_circuits)
      × ((resume r (λ _. n) s₁).1.node_id ≡ s.node_id)
resumed_KeepsWaiting (ok u) n s₁ s (e, f) (g, h) = (g ∙ e, h ∙ f)
resumed_KeepsWaiting (err x) n s₁ s h k = h

then_KeepsWaiting :
    (m n : Method (Unit {0})) → KeepsWaiting m → KeepsWaiting n → KeepsWaiting (m >> n)
then_KeepsWaiting m n hm hn s = resumed_KeepsWaiting (m s).0 n (m s).1 s (hm s) (hn (m s).1)

module _ (orchestrator : Orchestrator) where
  start_services-KeepsWaiting :
      (circuit_id : String) (services : List SplinterService)
      → KeepsWaiting (start_services orchestrator circuit_id services)
  unfolding start_services start_service
  start_services-KeepsWaiting circuit_id [] = λ s. (refl, refl)
  start_services-KeepsWaiting circuit_id (service ∷ services) =
      then_KeepsWaiting
        (start_service orchestrator (definition_of circuit_id service) (arguments_of service))
        (start_services orchestrator circuit_id services) (λ s. (ground arith, ground arith))
        (start_services-KeepsWaiting circuit_id services)

  start_circuit-KeepsWaiting : (p : CircuitProposal) → KeepsWaiting (start_circuit orchestrator p)
  unfolding initialize_services send_circuit_ready
  start_circuit-KeepsWaiting p =
      then_KeepsWaiting (initialize_services orchestrator p.circuit_proposal)
        (send_circuit_ready orchestrator p)
        (λ s.
          start_services-KeepsWaiting p.circuit_proposal.circuit_id
            (keep (runs_here orchestrator s.node_id) p.circuit_proposal.roster) s)
        (λ s. (ground arith, ground arith))

  start_known-KeepsWaiting :
      (o : Option CircuitProposal) → KeepsWaiting (start_known orchestrator o)
  start_known-KeepsWaiting none = λ s. (refl, refl)
  start_known-KeepsWaiting (some p) = start_circuit-KeepsWaiting p

-- a new entry stays unless it is ready
abbrev pub settled : UninitializedCircuit → Option UninitializedCircuit
settled u = if is_ready u then none else some u

pub unknown_waits : (u : UninitializedCircuit) → u.circuit ≡ none → is_ready u ≡ false
unfolding is_ready
unknown_waits u h = rw h refl

-- a circuit that is ready has had all reports
started-IsReported :
    {A : Type 0} (node id : String) (steps : List ReadyStep) (u : UninitializedCircuit)
    (p : CircuitProposal)
    → IsInformed node id steps u
    → is_ready u ≡ true
    → (u.circuit ≡ some p) ⊎ IsReported node steps id p
    → A ⊎ IsReported node steps id p
unfolding is_ready
started-IsReported node id steps u p i e (inr f) = inr f
started-IsReported node id steps u p i e (inl known) =
    let members = node_ids p.circuit_proposal.members in
    let subset : is_subset (from_list members) u.ready_members ≡ true = rw known at e in
    inr (λ m c. i.sound m (
      (is_subset_iff (from_list members) u.ready_members).0 subset m
        (contains-from_list members m ∙ c)))

pub settled-IsInformed :
    (node id : String) (steps : List ReadyStep) (u : UninitializedCircuit)
    → IsInformed node id steps u
    → IsInformed node id steps (entry_of (settled u)) × (is_ready (entry_of (settled u)) ≡ false)
unfolding contains
settled-IsInformed node id steps u i = elim (Bool-cases (is_ready u)) [
  | inr e ↦ rw e (i, e)
  | inl e ↦ rw e (
    record {
      unknown = λ z. refl;
      reports = λ z n r. (let h = unknown_waits u (i.unknown z) in cc (e, h));
      known = λ p h. cc h;
      sound = λ m h. cc h;
      awaited = λ p c h. started-IsReported node id steps u p i e (i.awaited p c h);
    },
    unknown_waits (entry_of none) refl,
  )
]

module _ (orchestrator : Orchestrator) where
  -- The entry that was just put leaves if it is ready, and no other entry changes.
  pub settle_entry :
      (circuit_id : String) (u : UninitializedCircuit) (s : ReadyState)
      → let s' =
          (initialize_services_if_members_ready orchestrator circuit_id
            (put_entry circuit_id u s)).1 in
        (s'.node_id ≡ s.node_id)
        × ((id : String)
            → lookup id s'.uninitialized_circuits
              ≡ (if circuit_id == id then settled u else lookup id s.uninitialized_circuits))
  unfolding initialize_services_if_members_ready
  settle_entry circuit_id u s =
      let found : lookup circuit_id (Map.insert circuit_id u s.uninitialized_circuits) ≡ some u =
        lookup-insert circuit_id circuit_id u s.uninitialized_circuits
        ∙ ground (arith, eq_self circuit_id) in
      let inserted = λ (id : String). lookup-insert circuit_id id u s.uninitialized_circuits in
      rw found (elim (Bool-cases (is_ready u)) [
        | inl e ↦
            (let (same, node) =
                start_known-KeepsWaiting orchestrator u.circuit (record (put_entry circuit_id u s) {
                  uninitialized_circuits =
                      Map.remove circuit_id (Map.insert circuit_id u s.uninitialized_circuits);
                }) in
              rw e (
                node,
                λ id.
                    ap (lookup id) same
                    ∙ ground (
                      arith,
                      inserted id,
                      lookup-remove circuit_id id
                          (Map.insert circuit_id u s.uninitialized_circuits),
                    ),
              ))
        | inr e ↦ rw e (refl, inserted)
      ])
