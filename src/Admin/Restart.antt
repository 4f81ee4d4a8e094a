-- ===== src/Admin/Restart.antt =====
-- The stop and the restart of services in libsplinter/src/admin/service/shared.rs: `stop_services`,
-- `restart_services` and `add_services_to_directory`.
use splinter.Prelude.{
  String, Bool, not, ◌&&◌, Option, none, some, List, [], ◌∷◌, ◌==◌, string_eq, any, keep,
  if◌then◌else◌,
}
use splinter.Prelude.Exec.{Result, ok, err, ◌>>◌, pure}
use splinter.Prelude.Sets.{contains}
use splinter.Circuit.Service
use splinter.Circuit.Circuits
use splinter.Circuit.Circuits.{roster_list}
use splinter.Circuit.State.{node, add_service}
use splinter.Admin.Update.{Update, no_allowed_node, panicked}
use splinter.Admin.Ready.{
  ServiceDefinition, ReadyState, Orchestrator, Method, start_service, definition_eq,
}

-- the services that do not shut down
unfoldable pub stop_services :
    (ServiceDefinition → Bool)
    → ReadyState
    → Result (List ServiceDefinition) (Unit {0}) × ReadyState
stop_services shutdown_service s =
    let errors = keep (λ d. not (shutdown_service d)) s.running_services in
    (elim errors [ [] ↦ ok tt | e ∷ es ↦ err (e ∷ es) ], record s { running_services = [] })

abbrev pub started_as : String → Circuits.ServiceDefinition → ServiceDefinition
started_as circuit_name d = record {
  circuit = circuit_name;
  service_id = d.service_id;
  service_type = d.service_type;
}

module _ (orchestrator : Orchestrator) where
  abbrev pub may_start : String → Circuits.ServiceDefinition → Bool
  may_start node_id d =
      contains d.allowed_nodes node_id
      && contains orchestrator.supported_service_types d.service_type

  unfoldable pub restart_each : String → List Circuits.ServiceDefinition → Method (Unit {0})
  restart_each circuit_name [] = pure tt
  restart_each circuit_name (d ∷ ds) = do
    start_service orchestrator (started_as circuit_name d) d.arguments
    restart_each circuit_name ds

  abbrev pub restart_circuit : String → Circuits.Circuit → Method (Unit {0})
  restart_circuit circuit_name c s =
      restart_each circuit_name (keep (may_start s.node_id) (roster_list c.roster)) s

  unfoldable pub restart_services : List (String × Circuits.Circuit) → Method (Unit {0})
  restart_services [] = pure tt
  restart_services (c ∷ cs) = do restart_circuit c.0 c.1; restart_services cs

module _ (self : String) where
  -- the node is rebuilt with the id
  abbrev pub restore_at :
      String → Circuits.ServiceDefinition → String → Option Service.SplinterNode → Update (Unit {0})
  restore_at circuit_id d allowed none s = (err no_allowed_node, s)
  restore_at circuit_id d allowed (some n) s = (
    ok tt,
    add_service (record { circuit_name = circuit_id; service_id = d.service_id })
        (record {
          service_id = d.service_id;
          peer_id = none;
          node = record { id = allowed; endpoints = n.endpoints };
        })
        s,
  )

  abbrev pub restore_remote : String → Circuits.ServiceDefinition → List String → Update (Unit {0})
  restore_remote circuit_id d [] s = (err panicked, s)
  restore_remote circuit_id d (n ∷ ns) s = restore_at circuit_id d n (node n s) s

  unfoldable pub restore_service : String → Circuits.ServiceDefinition → Update (Unit {0})
  restore_service circuit_id d s =
      if any (λ n. n == self) d.allowed_nodes
      then (ok tt, s)
      else restore_remote circuit_id d d.allowed_nodes s

  unfoldable pub restore_services : String → List Circuits.ServiceDefinition → Update (Unit {0})
  restore_services circuit_id [] = pure tt
  restore_services circuit_id (d ∷ ds) = do
    restore_service circuit_id d
    restore_services circuit_id ds

  unfoldable pub restore_circuits : List (String × Circuits.Circuit) → Update (Unit {0})
  restore_circuits [] = pure tt
  restore_circuits (c ∷ cs) = do restore_services c.0 (roster_list c.1.roster); restore_circuits cs

  unfoldable pub add_services_to_directory : Update (Unit {0})
  add_services_to_directory s = restore_circuits s.circuit_directory.circuits s
