-- ===== src/Circuit/State.antt =====
-- `CircuitDirectory` of libsplinter/src/circuit/directory.rs and `SplinterState` of
-- libsplinter/src/circuit/mod.rs. Whether the storage takes a directory is a parameter.
use splinter.Prelude.{String, Bool, Option, some, List, [], ◌==◌, string_eq, if◌then◌else◌}
use splinter.Prelude.Exec.{ok, err, Exec}
use splinter.Prelude.Map
use splinter.Prelude.Map.{lookup, contains_key}
use splinter.Circuit.Service.{ServiceId, SplinterNode, Service, service_id_eq}
use splinter.Circuit.Circuits.{Circuit, new_admin}

pub record CircuitDirectory : Type 0 where
  pub nodes : List (String × SplinterNode)
  pub circuits : List (String × Circuit)
  pub admin_circuit : Circuit

abbrev pub new_directory : CircuitDirectory
new_directory = record { nodes = []; circuits = []; admin_circuit = new_admin }

-- the admin circuit hides a stored circuit of its name
unfoldable pub directory_circuit : String → CircuitDirectory → Option Circuit
directory_circuit name d =
    if name == d.admin_circuit.id then some d.admin_circuit else lookup name d.circuits

unfoldable pub directory_has_circuit : String → CircuitDirectory → Bool
directory_has_circuit name d = contains_key name d.circuits

pub record SplinterState : Type 0 where
  pub circuit_directory : CircuitDirectory
  pub service_directory : List (ServiceId × Service)

abbrev pub new_state : CircuitDirectory → SplinterState
new_state directory = record { circuit_directory = directory; service_directory = [] }

pub data WriteError : Type 0 where
  get_storage_error : WriteError

unfoldable pub add_service : ServiceId → Service → SplinterState → SplinterState
add_service id service s = record s {
  service_directory = Map.insert id service s.service_directory;
}

unfoldable pub remove_service : ServiceId → SplinterState → SplinterState
remove_service id s = record s { service_directory = Map.remove id s.service_directory }

abbrev pub node : String → SplinterState → Option SplinterNode
node id s = lookup id s.circuit_directory.nodes

abbrev pub circuit : String → SplinterState → Option Circuit
circuit name s = directory_circuit name s.circuit_directory

abbrev pub has_circuit : String → SplinterState → Bool
has_circuit name s = directory_has_circuit name s.circuit_directory

abbrev pub get_service : ServiceId → SplinterState → Option Service
get_service id s = lookup id s.service_directory

module _ (can_store : CircuitDirectory → Bool) where
  -- the change stays in memory if the storage fails
  abbrev pub with_directory : CircuitDirectory → Exec SplinterState WriteError (Unit {0})
  with_directory d s =
      (if can_store d then ok tt else err get_storage_error, record s { circuit_directory = d })

  unfoldable pub add_node : String → SplinterNode → Exec SplinterState WriteError (Unit {0})
  add_node id n s =
      let d = s.circuit_directory in with_directory (record d { nodes = Map.insert id n d.nodes }) s

  unfoldable pub add_circuit : String → Circuit → Exec SplinterState WriteError (Unit {0})
  add_circuit name c s =
      let d = s.circuit_directory in
      with_directory (record d { circuits = Map.insert name c d.circuits }) s

  unfoldable pub remove_node : String → Exec SplinterState WriteError (Unit {0})
  remove_node id s =
      let d = s.circuit_directory in with_directory (record d { nodes = Map.remove id d.nodes }) s

  unfoldable pub remove_circuit : String → Exec SplinterState WriteError (Unit {0})
  remove_circuit name s =
      let d = s.circuit_directory in
      with_directory (record d { circuits = Map.remove name d.circuits }) s
