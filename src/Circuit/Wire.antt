-- ===== src/Circuit/Wire.antt =====
-- The messages of protos/circuit.proto that the handlers of libsplinter/src/circuit/handlers exchange, and
-- `create_message` of mod.rs there. Their protobuf writers, and whether the network takes a request,
-- are parameters.
use splinter.Prelude.{String, Bool, Option, none, some, Bytes, if◌then◌else◌}
use splinter.Prelude.Exec.{Result, ok, err}
use splinter.Prelude.Results.{◌>>=◌}

pub data CircuitMessageType : Type 0 where
  circuit_error_message circuit_direct_message : CircuitMessageType
  service_connect_response service_disconnect_response admin_direct_message : CircuitMessageType

-- `CircuitError_Error`
pub data ErrorCode : Type 0 where
  circuit_does_not_exist recipient_not_in_circuit_roster sender_not_in_circuit_roster : ErrorCode
  recipient_not_in_directory sender_not_in_directory : ErrorCode

pub record CircuitError : Type 0 where
  pub correlation_id : String
  pub service_id : String
  pub circuit_name : String
  pub error : ErrorCode
  pub error_message : String

-- `CircuitDirectMessage` and `AdminDirectMessage`, whose payloads are only in the bytes of the context
pub record DirectMessage : Type 0 where
  pub circuit : String
  pub sender : String
  pub recipient : String
  pub correlation_id : String

-- `ServiceConnectRequest` and `ServiceDisconnectRequest`
pub record ServiceRequest : Type 0 where
  pub circuit : String
  pub service_id : String
  pub correlation_id : String

pub data ConnectStatus : Type 0 where
  connected connect_without_circuit connect_not_in_registry : ConnectStatus
  already_registered not_an_allowed_node : ConnectStatus

pub data DisconnectStatus : Type 0 where
  disconnected disconnect_without_circuit disconnect_not_in_registry not_registered :
      DisconnectStatus

-- `ServiceConnectResponse` and `ServiceDisconnectResponse`, by their status
pub record ServiceResponse (Status : Type 0) : Type 0 where
  pub circuit : String
  pub service_id : String
  pub status : Status
  pub error_message : String
  pub correlation_id : String

-- the message's type is that of the handler
pub record MessageContext : Type 0 where
  pub source_peer_id : String
  pub message_bytes : Bytes

pub record SendRequest : Type 0 where
  pub recipient : String
  pub payload : Bytes

pub data DispatchError : Type 0 where
  serialization_error network_send_error : DispatchError

pub record Wire : Type 0 where
  pub write_error : CircuitError → Option Bytes
  pub write_connect_response : ServiceResponse ConnectStatus → Option Bytes
  pub write_disconnect_response : ServiceResponse DisconnectStatus → Option Bytes
  pub write_circuit_message : CircuitMessageType → Bytes → Option Bytes
  -- a message of type `CIRCUIT`
  pub write_network_message : Bytes → Option Bytes
  pub can_send : SendRequest → Bool

abbrev pub Handled : Type 0 → Type 0
Handled A = Result DispatchError A

abbrev pub written : Option Bytes → Handled Bytes
written none = err serialization_error
written (some bytes) = ok bytes

module _ (w : Wire) where
  unfoldable pub create_message : Bytes → CircuitMessageType → Handled Bytes
  create_message payload message_type = do
    circuit_bytes ← written (w.write_circuit_message message_type payload)
    written (w.write_network_message circuit_bytes)

  -- `none` where the handler returns without a message
  abbrev pub send : Option (Bytes × String) → Handled (Option SendRequest)
  send none = ok none
  send (some (bytes, recipient)) =
      let r : SendRequest = record { recipient = recipient; payload = bytes } in
      if w.can_send r then ok (some r) else err network_send_error
