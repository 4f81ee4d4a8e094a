-- ===== src/Admin/Restarted.antt =====
-- What a restart does, in libsplinter/src/admin/service/shared.rs.
use splinter.Prelude.{
  String, ◌≡◌, refl, ap, ◌∙◌, Bool, true, false, ◌||◌, ◌&&◌, List, [], ◌∷◌, ◌==◌, string_eq, any,
  keep, Bool-cases, inl, inr,
}
use splinter.Prelude.Exec.{ok, bind_ok}
use splinter.Prelude.Sets
use splinter.Prelude.Sets.{contains, contains-insert}
use splinter.Circuit.Circuits
use splinter.Circuit.Circuits.{roster_list}
use splinter.Circuit.State.{CircuitDirectory, SplinterState}
use splinter.Admin.Ready.{ServiceDefinition, ReadyState, Orchestrator, start_service, definition_eq}
use splinter.Admin.Restart.{
  stop_services, started_as, may_start, restart_each, restart_circuit, restart_services,
  add_services_to_directory,
}
use splinter.Admin.Reloaded.{add_circuits, with_named_nodes, restore_circuits-IsSame}

-- Whatever ids the stored nodes carry, the services that a restart adds are those that the commits
-- of the stored circuits add, one circuit after the other, in the state where each stored node has
-- the id it is stored under; the result is the same, and the directory of nodes and circuits stays.
pub add_services_to_directory-add_circuits :
    (can_store : CircuitDirectory → Bool) (self : String) (s : SplinterState)
    → (add_circuits can_store self s.circuit_directory.circuits (with_named_nodes s) ≡ (
      (add_services_to_directory self s).0,
      with_named_nodes (add_services_to_directory self s).1,
    ))
      × ((add_services_to_directory self s).1.circuit_directory ≡ s.circuit_directory)
unfolding add_services_to_directory
add_services_to_directory-add_circuits can_store self s =
    restore_circuits-IsSame can_store self s.circuit_directory.circuits s

-- the services that run after each is started
abbrev pub with_started :
    String → List Circuits.ServiceDefinition → List ServiceDefinition → List ServiceDefinition
with_started circuit_name [] running = running
with_started circuit_name (d ∷ ds) running =
    with_started circuit_name ds (Sets.insert (started_as circuit_name d) running)

-- one of the services starts as the definition
abbrev starts_as : String → ServiceDefinition → List Circuits.ServiceDefinition → Bool
starts_as circuit_name d = any (λ x. d == started_as circuit_name x)

or_swap : (a b c : Bool) → (a || (b || c)) ≡ ((b || a) || c)
or_swap true true c = refl
or_swap true false c = refl
or_swap false true c = refl
or_swap false false c = refl

contains-with_started :
    (circuit_name : String) (ds : List Circuits.ServiceDefinition)
    (running : List ServiceDefinition) (d : ServiceDefinition)
    → contains (with_started circuit_name ds running) d
      ≡ (starts_as circuit_name d ds || contains running d)
unfolding any
contains-with_started circuit_name [] running d = refl
contains-with_started circuit_name (x ∷ ds) running d =
    contains-with_started circuit_name ds (Sets.insert (started_as circuit_name x) running) d
    ∙ ap (λ b. starts_as circuit_name d ds || b)
        (contains-insert (started_as circuit_name x) d running)
    ∙ or_swap (starts_as circuit_name d ds) (d == started_as circuit_name x) (contains running d)

module _ (orchestrator : Orchestrator)
    (starts : (running : List ServiceDefinition) (d : ServiceDefinition)
        (arguments : List (String × String))
      → orchestrator.initialize_service running d arguments ≡ true) where
  -- the services that this node may run of a circuit
  abbrev pub runs_of : String → String × Circuits.Circuit → List Circuits.ServiceDefinition
  runs_of node_id c = keep (may_start orchestrator node_id) (roster_list c.1.roster)

  restart_each_ok :
      (circuit_name : String) (ds : List Circuits.ServiceDefinition) (s : ReadyState)
      → restart_each orchestrator circuit_name ds s
        ≡ (ok tt, record s { running_services = with_started circuit_name ds s.running_services })
  unfolding restart_each start_service
  restart_each_ok circuit_name [] s = refl
  restart_each_ok circuit_name (d ∷ ds) s =
      rw (starts s.running_services (started_as circuit_name d) d.arguments)
        (restart_each_ok circuit_name ds _)

  restart_services_ok :
      (cs : List (String × Circuits.Circuit)) (s : ReadyState)
      → (running : List ServiceDefinition) × (restart_services orchestrator cs s
          ≡ (ok tt, record s { running_services = running }))
        × ((d : ServiceDefinition)
            → contains running d ≡ (
                any (λ c. starts_as c.0 d (runs_of s.node_id c)) cs
                || contains s.running_services d))
  unfolding restart_services any
  restart_services_ok [] s = (s.running_services, refl, λ d. refl)
  restart_services_ok (c ∷ cs) s =
      let first = restart_each_ok c.0 (runs_of s.node_id c) s in
      let s₁ : ReadyState = record s {
        running_services = with_started c.0 (runs_of s.node_id c) s.running_services;
      } in
      let (running, e, h) = restart_services_ok cs s₁ in
      (
        running,
        bind_ok (restart_circuit orchestrator c.0 c.1) (λ u. restart_services orchestrator cs) s
              first
            ∙ e,
        λ d.
            h d
            ∙ ap (λ b. any (λ c. starts_as c.0 d (runs_of s.node_id c)) cs || b)
                (contains-with_started c.0 (runs_of s.node_id c) s.running_services d)
            ∙ or_swap (any (λ c. starts_as c.0 d (runs_of s.node_id c)) cs)
                (starts_as c.0 d (runs_of s.node_id c)) (contains s.running_services d),
      )

or_false : (b : Bool) → (b || false) ≡ b
or_false true = refl
or_false false = refl

-- the roster entry may run at the node, is of a supported type, and is the definition's service
abbrev pub runs_at :
    List String → String → String → ServiceDefinition → Circuits.ServiceDefinition → Bool
runs_at supported node_id circuit_name d x =
    (contains x.allowed_nodes node_id && contains supported x.service_type)
    && d
      == record { circuit = circuit_name; service_id = x.service_id; service_type = x.service_type }

any-keep :
    {A : Type 0} (p q : A → Bool) (xs : List A) → any p (keep q xs) ≡ any (λ x. q x && p x) xs
unfolding any keep
any-keep p q [] = refl
any-keep p q (x ∷ xs) = elim (Bool-cases (q x)) [
  | inl e ↦ rw e (ap (λ b. p x || b) (any-keep p q xs))
  | inr e ↦ rw e (any-keep p q xs)
]

-- over all circuits
circuits_runs_at :
    (orchestrator : Orchestrator) (node_id : String) (d : ServiceDefinition)
    (cs : List (String × Circuits.Circuit))
    → any
        (λ (c : String × Circuits.Circuit).
          starts_as c.0 d (keep (may_start orchestrator node_id) (roster_list c.1.roster)))
        cs
      ≡ any
          (λ (c : String × Circuits.Circuit).
            any
              (runs_at orchestrator.supported_service_types node_id c.0 d)
              (roster_list c.1.roster))
          cs
unfolding any
circuits_runs_at orchestrator node_id d [] = refl
circuits_runs_at orchestrator node_id d (c ∷ cs) =
    rw
      (any-keep (λ x. d == started_as c.0 x) (may_start orchestrator node_id)
        (roster_list c.1.roster))
      (rw (circuits_runs_at orchestrator node_id d cs) refl)

-- If every service starts, a restart after a stop succeeds, and exactly the services run that some
-- circuit of the state has in its roster with this node among the allowed ones and a type that the
-- orchestrator supports.
pub stop-restart_services :
    (orchestrator : Orchestrator) (shutdown_service : ServiceDefinition → Bool)
    (cs : List (String × Circuits.Circuit)) (s : ReadyState)
    → ((running : List ServiceDefinition) (d : ServiceDefinition)
          (arguments : List (String × String))
        → orchestrator.initialize_service running d arguments ≡ true)
    → (s' : ReadyState) × (restart_services orchestrator cs (stop_services shutdown_service s).1
        ≡ (ok tt, s'))
      × ((d : ServiceDefinition)
          → contains s'.running_services d
            ≡ any
                (λ c.
                  any
                    (runs_at orchestrator.supported_service_types s.node_id c.0 d)
                    (roster_list c.1.roster))
                cs)
unfolding stop_services contains
stop-restart_services orchestrator shutdown_service cs s starts =
    let (running, e, h) =
      restart_services_ok orchestrator starts cs (stop_services shutdown_service s).1 in
    (
      record s { running_services = running },
      e,
      λ d. h d ∙ or_false _ ∙ circuits_runs_at orchestrator s.node_id d cs,
    )
