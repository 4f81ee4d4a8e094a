-- ===== src/Circuit/Connections.antt =====
-- libsplinter/src/circuit/handlers/service_handlers.rs: services connect to this node and disconnect.
use splinter.Prelude.{
  String, ◌&&◌, not, Option, none, some, List, [], ◌∷◌, ◌==◌, string_eq, any, if◌then◌else◌,
}
use splinter.Prelude.Results.{◌>>=◌}
use splinter.Prelude.Texts.{format, starts_with, is_some}
use splinter.Circuit.Service.{ServiceId, Service}
use splinter.Circuit.Circuits.{
  ServiceDefinition, Roster, Circuit, roster_contains, roster_list, build_definition,
}
use splinter.Circuit.State.{SplinterState, circuit, get_service, add_service, remove_service}
use splinter.Circuit.Wire.{
  Wire, ServiceRequest, ServiceResponse, ConnectStatus, DisconnectStatus, MessageContext,
  SendRequest, Handled, written, create_message, send, connected, connect_without_circuit,
  connect_not_in_registry, already_registered, not_an_allowed_node, disconnected,
  disconnect_without_circuit, disconnect_not_in_registry, not_registered, service_connect_response,
  service_disconnect_response,
}

abbrev pub unique_id : ServiceRequest → ServiceId
unique_id msg = record { circuit_name = msg.circuit; service_id = msg.service_id }

abbrev pub response_of :
    {Status : Type 0} → ServiceRequest → Status → String → ServiceResponse Status
response_of msg status text = record {
  circuit = msg.circuit;
  service_id = msg.service_id;
  status = status;
  error_message = text;
  correlation_id = msg.correlation_id;
}

-- the response with the state after it
abbrev pub Answer : Type 0 → Type 0
Answer Status = ServiceResponse Status × SplinterState

unfoldable pub find_service : String → List ServiceDefinition → Option ServiceDefinition
find_service id [] = none
find_service id (d ∷ ds) =
    let rest = find_service id ds in if d.service_id == id then some d else rest

-- the definition of an admin service is made up
abbrev pub definition_in : String → ServiceRequest → Roster → Option ServiceDefinition
definition_in node_id msg roster =
    if not (starts_with "admin::" msg.service_id)
    then find_service msg.service_id (roster_list roster)
    else some (build_definition msg.service_id "admin" (node_id ∷ []) [])

module _ (node_id endpoint : String) where
  abbrev pub service_at : ServiceRequest → MessageContext → Service
  service_at msg context = record {
    service_id = msg.service_id;
    peer_id = some context.source_peer_id;
    node = record { id = node_id; endpoints = endpoint ∷ [] };
  }

  -- `none` where `expect` panics
  abbrev pub connect_defined :
      SplinterState
      → ServiceRequest
      → MessageContext
      → Option ServiceDefinition
      → Option (Answer ConnectStatus)
  connect_defined s msg context none = none
  connect_defined s msg context (some d) = some (
      if any (λ n. n == node_id) d.allowed_nodes
      then (response_of msg connected "", add_service (unique_id msg) (service_at msg context) s)
      else (
        response_of msg not_an_allowed_node
            (format (msg.circuit ∷ "::" ∷ msg.service_id ∷ " is not allowed on this node" ∷ [])),
        s,
      ))

  abbrev pub connect_to :
      SplinterState
      → ServiceRequest
      → MessageContext
      → Option Circuit
      → Option (Answer ConnectStatus)
  connect_to s msg context none = some (
    response_of msg connect_without_circuit
        (format ("Circuit does not exist: " ∷ msg.circuit ∷ [])),
    s,
  )
  connect_to s msg context (some c) =
      let registered = is_some (get_service (unique_id msg) s) in
      if roster_contains c.roster msg.service_id && not registered
      then connect_defined s msg context (definition_in node_id msg c.roster)
      else if roster_contains c.roster msg.service_id && registered
      then some (
        response_of msg already_registered
            (format ("Service is already registered: " ∷ msg.service_id ∷ [])),
        s,
      )
      else some (
        response_of msg connect_not_in_registry (
            format (
              "Service is not allowed in the circuit: " ∷ msg.circuit ∷ ":" ∷ msg.service_id ∷ [])),
        s,
      )

  unfoldable pub connect :
      SplinterState → ServiceRequest → MessageContext → Option (Answer ConnectStatus)
  connect s msg context = connect_to s msg context (circuit msg.circuit s)

abbrev pub disconnect_from :
    SplinterState → ServiceRequest → Option Circuit → Answer DisconnectStatus
disconnect_from s msg none = (
  response_of msg disconnect_without_circuit
      (format ("Circuit does not exist: " ∷ msg.circuit ∷ [])),
  s,
)
disconnect_from s msg (some c) =
    let registered = is_some (get_service (unique_id msg) s) in
    if roster_contains c.roster msg.service_id && registered
    then (response_of msg disconnected "", remove_service (unique_id msg) s)
    else if roster_contains c.roster msg.service_id && not registered
    then (
      response_of msg not_registered (format ("Service is not registered: " ∷ msg.service_id ∷ [])),
      s,
    )
    else (
      response_of msg disconnect_not_in_registry (
          format
            ("Service is not allowed in the circuit: " ∷ msg.circuit ∷ ":" ∷ msg.service_id ∷ [])),
      s,
    )

unfoldable pub disconnect : SplinterState → ServiceRequest → Answer DisconnectStatus
disconnect s msg = disconnect_from s msg (circuit msg.circuit s)

module _ (w : Wire) where
  abbrev pub connect_answered :
      MessageContext
      → Option (Answer ConnectStatus)
      → Option (Handled (Option SendRequest) × SplinterState)
  connect_answered context none = none
  connect_answered context (some (response, s)) = some (
    (do
      response_bytes ← written (w.write_connect_response response)
      network_msg_bytes ← create_message w response_bytes service_connect_response
      send w (some (network_msg_bytes, context.source_peer_id))),
    s,
  )

  -- `ServiceConnectRequestHandler::handle`
  unfoldable pub handle_connect :
      String
      → String
      → SplinterState
      → ServiceRequest
      → MessageContext
      → Option (Handled (Option SendRequest) × SplinterState)
  handle_connect node_id endpoint s msg context =
      connect_answered context (connect node_id endpoint s msg context)

  abbrev pub disconnect_answered :
      MessageContext → Answer DisconnectStatus → Handled (Option SendRequest) × SplinterState
  disconnect_answered context (response, s) = (
    (do
      response_bytes ← written (w.write_disconnect_response response)
      network_msg_bytes ← create_message w response_bytes service_disconnect_response
      send w (some (network_msg_bytes, context.source_peer_id))),
    s,
  )

  -- `ServiceDisconnectRequestHandler::handle`
  unfoldable pub handle_disconnect :
      SplinterState → ServiceRequest → MessageContext → Handled (Option SendRequest) × SplinterState
  handle_disconnect s msg context = disconnect_answered context (disconnect s msg)
