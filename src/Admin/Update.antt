-- ===== src/Admin/Update.antt =====
-- `update_splinter_state` of libsplinter/src/admin/service/shared.rs: an accepted circuit becomes part
-- of the state of the node.
use splinter.Prelude.{
  String, Bool, Option, none, some, List, [], ◌∷◌, ◌==◌, string_eq, any, map, if◌then◌else◌,
}
use splinter.Prelude.Exec.{Result, ok, err, Exec, ◌>>=◌, ◌>>◌, pure}
use splinter.Circuit.Service
use splinter.Circuit.Circuits
use splinter.Circuit.Circuits.{CircuitBuildError, build, build_definition}
use splinter.Circuit.State.{
  CircuitDirectory, SplinterState, WriteError, add_node, add_circuit, add_service, node,
}
use splinter.Admin.Proto
use splinter.Admin.Validation.{node_ids}

-- `panicked` is the index of an empty list
pub data CommitError : Type 0 where
  missing_authorization missing_persistence missing_durability missing_route : CommitError
  circuit_not_built : CircuitBuildError → CommitError
  node_not_added circuit_not_added no_allowed_node panicked : CommitError

abbrev pub Update : Type 0 → Type 0
Update A = Exec SplinterState CommitError A

abbrev pub state_authorization :
    Proto.AuthorizationType → Result CommitError Circuits.AuthorizationType
state_authorization Proto.trust_authorization = ok Circuits.trust
state_authorization Proto.unset_authorization_type = err missing_authorization

abbrev pub state_persistence : Proto.PersistenceType → Result CommitError Circuits.PersistenceType
state_persistence Proto.any_persistence = ok Circuits.any_persistence
state_persistence Proto.unset_persistence_type = err missing_persistence

abbrev pub state_durability : Proto.DurabilityType → Result CommitError Circuits.DurabilityType
state_durability Proto.no_durability = ok Circuits.no_durability
state_durability Proto.unset_durability_type = err missing_durability

abbrev pub state_route : Proto.RouteType → Result CommitError Circuits.RouteType
state_route Proto.any_route = ok Circuits.any_route
state_route Proto.unset_route_type = err missing_route

abbrev pub state_node : Proto.SplinterNode → Service.SplinterNode
state_node n = record { id = n.node_id; endpoints = n.endpoint ∷ [] }

abbrev pub state_definition : Proto.SplinterService → Circuits.ServiceDefinition
state_definition s =
    build_definition s.service_id s.service_type s.allowed_nodes
      (map (λ (a : Proto.Argument). (a.key, a.value)) s.arguments)

abbrev pub lift : {A : Type 0} → Result CommitError A → Update A
lift r s = (r, s)

-- `.map_err(...)?` of a method of the state
abbrev pub or_commit_error : {E A : Type 0} → (E → CommitError) → Exec SplinterState E A → Update A
or_commit_error f m s = (elim (m s).0 [ ok a ↦ ok a | err e ↦ err (f e) ], (m s).1)

abbrev pub builder :
    Proto.Circuit
    → Circuits.AuthorizationType
    → Circuits.PersistenceType
    → Circuits.DurabilityType
    → Circuits.RouteType
    → Circuits.CircuitBuilder
builder c auth persistence durability routes = record {
  id = some c.circuit_id;
  auth = some auth;
  members = node_ids c.members;
  roster = map state_definition c.roster;
  persistence = some persistence;
  durability = some durability;
  routes = some routes;
  circuit_management_type = some c.circuit_management_type;
}

module _ (can_store : CircuitDirectory → Bool) (self : String) where
  abbrev pub add_member : Proto.SplinterNode → Update (Unit {0})
  add_member m =
      or_commit_error (λ (e : WriteError). node_not_added)
        (add_node can_store m.node_id (state_node m))

  unfoldable pub add_nodes : List Proto.SplinterNode → Update (Unit {0})
  add_nodes [] = pure tt
  add_nodes (m ∷ ms) = do add_member m; add_nodes ms

  -- the service at a node of the state
  abbrev pub add_service_at :
      String → Circuits.ServiceDefinition → Option Service.SplinterNode → Update (Unit {0})
  add_service_at circuit_id d none s = (err no_allowed_node, s)
  add_service_at circuit_id d (some n) s = (
    ok tt,
    add_service (record { circuit_name = circuit_id; service_id = d.service_id })
        (record { service_id = d.service_id; peer_id = none; node = n }) s,
  )

  -- `allowed_nodes()[0]`
  abbrev pub add_remote_service :
      String → Circuits.ServiceDefinition → List String → Update (Unit {0})
  add_remote_service circuit_id d [] s = (err panicked, s)
  add_remote_service circuit_id d (n ∷ ns) s = add_service_at circuit_id d (node n s) s

  unfoldable pub add_service_of : String → Circuits.ServiceDefinition → Update (Unit {0})
  add_service_of circuit_id d s =
      if any (λ n. n == self) d.allowed_nodes
      then (ok tt, s)
      else add_remote_service circuit_id d d.allowed_nodes s

  unfoldable pub add_services : String → List Circuits.ServiceDefinition → Update (Unit {0})
  add_services circuit_id [] = pure tt
  add_services circuit_id (d ∷ ds) = do add_service_of circuit_id d; add_services circuit_id ds

  abbrev pub store_circuit : Circuits.Circuit → Update (Unit {0})
  store_circuit new_circuit =
      or_commit_error (λ (e : WriteError). circuit_not_added)
        (add_circuit can_store new_circuit.id new_circuit)

  -- what changes the state
  abbrev pub finish_update : Proto.Circuit → Circuits.Circuit → Update (Unit {0})
  finish_update c new_circuit = do
    add_nodes c.members
    store_circuit new_circuit
    add_services c.circuit_id (map state_definition c.roster)

  unfoldable pub update_splinter_state : Proto.Circuit → Update (Unit {0})
  update_splinter_state c = do
    auth ← lift (state_authorization c.authorization_type)
    persistence ← lift (state_persistence c.persistence)
    durability ← lift (state_durability c.durability)
    routes ← lift (state_route c.routes)
    new_circuit ←
        or_commit_error circuit_not_built
          (λ s. (build (builder c auth persistence durability routes), s))
    finish_update c new_circuit
