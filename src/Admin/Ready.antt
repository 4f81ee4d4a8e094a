-- ===== src/Admin/Ready.antt =====
-- The members' readiness in libsplinter/src/admin/service/shared.rs: circuits that are committed,
-- or announced by a member, and wait until the services of every member may start. This is the
-- part of `AdminServiceShared` that these operations touch. The orchestrator is a parameter.
use mathlib.Core.Path.{subst}
use text.Mathlib.TextEquality.{eq_iff}
use splinter.Prelude.{
  String, ◌≡◌, Bool, true, false, ◌&&◌, Option, none, some, List, [], ◌∷◌, ◌==◌, string_eq, Eq,
  if◌then◌else◌, map, keep, arith, and-true, eq_self,
}
use splinter.Prelude.Exec.{ok, err, Exec, ◌>>◌, pure}
use splinter.Prelude.Sets
use splinter.Prelude.Sets.{contains, from_list, is_subset}
use splinter.Prelude.Map
use splinter.Prelude.Map.{lookup}
use splinter.Admin.Proto.{SplinterService, Argument, Circuit, CircuitProposal}
use splinter.Admin.Messages.{is_convertible}
use splinter.Admin.Validation.{node_ids}

pub record UninitializedCircuit : Type 0 where
  pub circuit : Option CircuitProposal
  pub ready_members : List String

pub record ServiceDefinition : Type 0 where
  pub circuit : String
  pub service_id : String
  pub service_type : String

abbrev pub definition_beq : ServiceDefinition → ServiceDefinition → Bool
definition_beq a b =
    a.circuit == b.circuit && a.service_id == b.service_id && a.service_type == b.service_type

pub definition_beq_sound : (a b : ServiceDefinition) → definition_beq a b ≡ true → a ≡ b
definition_beq_sound a b h =
    let (h', h₃) =
      and-true (a.circuit == b.circuit && a.service_id == b.service_id)
        (a.service_type == b.service_type) h in
    let (h₁, h₂) = and-true (a.circuit == b.circuit) (a.service_id == b.service_id) h' in
    λ i. record {
      circuit = (eq_iff a.circuit b.circuit).0 h₁ i;
      service_id = (eq_iff a.service_id b.service_id).0 h₂ i;
      service_type = (eq_iff a.service_type b.service_type).0 h₃ i;
    }

pub definition_beq_refl : (a : ServiceDefinition) → definition_beq a a ≡ true
definition_beq_refl a =
    ground (arith, eq_self a.circuit, eq_self a.service_id, eq_self a.service_type)

instance abbrev pub definition_eq : Eq ServiceDefinition
definition_eq = record {
  eqb = definition_beq;
  eqb_iff = λ a b. (
    definition_beq_sound a b,
    λ h. subst (λ x. definition_beq a x ≡ true) h (definition_beq_refl a),
  );
}

pub data ReadyError : Type 0 where
  service_failed : ServiceDefinition → ReadyError
  message_invalid : ReadyError

-- The circuits that are reported as ready, the newest first, with the state.
pub record ReadyState : Type 0 where
  pub node_id : String
  pub uninitialized_circuits : List (String × UninitializedCircuit)
  pub running_services : List ServiceDefinition
  pub circuit_ready : List CircuitProposal

pub record Orchestrator : Type 0 where
  pub supported_service_types : List String
  -- whether a service starts, beside those that run
  pub initialize_service :
      List ServiceDefinition → ServiceDefinition → List (String × String) → Bool

abbrev pub Method : Type 0 → Type 0
Method A = Exec ReadyState ReadyError A

abbrev pub definition_of : String → SplinterService → ServiceDefinition
definition_of circuit_id service = record {
  circuit = circuit_id;
  service_id = service.service_id;
  service_type = service.service_type;
}

abbrev pub arguments_of : SplinterService → List (String × String)
arguments_of service = map (λ (a : Argument). (a.key, a.value)) service.arguments

-- Every member has reported. The circuit may not be known yet.
unfoldable pub is_ready : UninitializedCircuit → Bool
is_ready u = elim u.circuit [
  | none ↦ false
  | some p ↦ is_subset (from_list (node_ids p.circuit_proposal.members)) u.ready_members
]

abbrev pub entry_of : Option UninitializedCircuit → UninitializedCircuit
entry_of none = record { circuit = none; ready_members = [] }
entry_of (some u) = u

abbrev pub put_entry : String → UninitializedCircuit → ReadyState → ReadyState
put_entry circuit_id u s = record s {
  uninitialized_circuits = Map.insert circuit_id u s.uninitialized_circuits;
}

module _ (orchestrator : Orchestrator) where
  unfoldable pub start_service : ServiceDefinition → List (String × String) → Method (Unit {0})
  start_service definition arguments s =
      if orchestrator.initialize_service s.running_services definition arguments
      then (ok tt, record s { running_services = Sets.insert definition s.running_services })
      else (err (service_failed definition), s)

  -- the services that this node may run and the orchestrator supports
  abbrev pub runs_here : String → SplinterService → Bool
  runs_here node service =
      contains service.allowed_nodes node
      && contains orchestrator.supported_service_types service.service_type

  unfoldable pub start_services : String → List SplinterService → Method (Unit {0})
  start_services circuit_id [] = pure tt
  start_services circuit_id (service ∷ services) = do
    start_service (definition_of circuit_id service) (arguments_of service)
    start_services circuit_id services

  unfoldable pub initialize_services : Circuit → Method (Unit {0})
  initialize_services circuit s =
      start_services circuit.circuit_id (keep (runs_here s.node_id) circuit.roster) s

  -- the event of a circuit that is ready
  unfoldable pub send_circuit_ready : CircuitProposal → Method (Unit {0})
  send_circuit_ready p s =
      if is_convertible p
      then (ok tt, record s { circuit_ready = p ∷ s.circuit_ready })
      else (err message_invalid, s)

  abbrev pub start_circuit : CircuitProposal → Method (Unit {0})
  start_circuit p = do initialize_services p.circuit_proposal; send_circuit_ready p

  -- the entry's circuit, which is known where the entry is ready
  abbrev pub start_known : Option CircuitProposal → Method (Unit {0})
  start_known none = pure tt
  start_known (some p) = start_circuit p

  abbrev pub start_if_ready : String → Option UninitializedCircuit → Method (Unit {0})
  start_if_ready circuit_id none s = (ok tt, s)
  start_if_ready circuit_id (some u) s =
      if is_ready u
      then start_known u.circuit
          (record s { uninitialized_circuits = Map.remove circuit_id s.uninitialized_circuits })
      else (ok tt, s)

  unfoldable pub initialize_services_if_members_ready : String → Method (Unit {0})
  initialize_services_if_members_ready circuit_id s =
      start_if_ready circuit_id (lookup circuit_id s.uninitialized_circuits) s

  unfoldable pub add_ready_member : String → String → Method (Unit {0})
  add_ready_member circuit_id member s =
      let u = entry_of (lookup circuit_id s.uninitialized_circuits) in
      initialize_services_if_members_ready circuit_id
        (put_entry circuit_id (record u { ready_members = Sets.insert member u.ready_members }) s)

  -- the node itself is ready
  unfoldable pub add_uninitialized_circuit : CircuitProposal → Method (Unit {0})
  add_uninitialized_circuit p s =
      let u = entry_of (lookup p.circuit_id s.uninitialized_circuits) in
      initialize_services_if_members_ready p.circuit_id (
        put_entry p.circuit_id
          (record { circuit = some p; ready_members = Sets.insert s.node_id u.ready_members }) s)

-- What makes circuits ready: a member reports, or the node commits the circuit.
pub data ReadyStep : Type 0 where
  reported : String → String → ReadyStep
  committed : CircuitProposal → ReadyStep

abbrev pub ready_step : Orchestrator → ReadyStep → ReadyState → ReadyState
ready_step orchestrator (reported circuit_id member) s =
    (add_ready_member orchestrator circuit_id member s).1
ready_step orchestrator (committed p) s = (add_uninitialized_circuit orchestrator p s).1

abbrev pub ready_steps : Orchestrator → List ReadyStep → ReadyState → ReadyState
ready_steps orchestrator [] s = s
ready_steps orchestrator (x ∷ xs) s = ready_steps orchestrator xs (ready_step orchestrator x s)
