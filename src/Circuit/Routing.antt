-- ===== src/Circuit/Routing.antt =====
-- The handlers of libsplinter/src/circuit/handlers that pass messages on: direct_message.rs,
-- admin_message.rs and circuit_error.rs.
use splinter.Prelude.{String, Option, none, some, [], ◌∷◌, ◌==◌, string_eq, Bytes, if◌then◌else◌}
use splinter.Prelude.Exec.{ok}
use splinter.Prelude.Results.{◌>>=◌}
use splinter.Prelude.Texts.{format, starts_with, strip_prefix}
use splinter.Circuit.Service.{ServiceId, Service}
use splinter.Circuit.Circuits.{Circuit, roster_contains}
use splinter.Circuit.State.{SplinterState, circuit, get_service}
use splinter.Circuit.Wire.{
  Wire, ErrorCode, CircuitError, DirectMessage, MessageContext, SendRequest, Handled, written,
  create_message, send, circuit_error_message, circuit_direct_message, admin_direct_message,
  circuit_does_not_exist, recipient_not_in_circuit_roster, sender_not_in_circuit_roster,
  recipient_not_in_directory, sender_not_in_directory,
}

-- the bytes to send and their recipient
abbrev pub Response : Type 0
Response = Handled (Option (Bytes × String))

abbrev pub error_of : DirectMessage → ErrorCode → String → CircuitError
error_of msg code text = record {
  correlation_id = msg.correlation_id;
  service_id = msg.sender;
  circuit_name = msg.circuit;
  error = code;
  error_message = text;
}

abbrev pub sender_of : DirectMessage → ServiceId
sender_of msg = record { circuit_name = msg.circuit; service_id = msg.sender }

abbrev pub recipient_of : DirectMessage → ServiceId
recipient_of msg = record { circuit_name = msg.circuit; service_id = msg.recipient }

module _ (w : Wire) (node_id : String) where
  -- an error message to the peer that the message is from
  abbrev pub refuse : DirectMessage → MessageContext → ErrorCode → String → Response
  refuse msg context code text = do
    msg_bytes ← written (w.write_error (error_of msg code text))
    network_msg_bytes ← create_message w msg_bytes circuit_error_message
    ok (some (network_msg_bytes, context.source_peer_id))

  -- to the peer of a service that is connected to this node
  abbrev pub to_peer : Bytes → Option String → Option (Bytes × String)
  to_peer bytes none = none
  to_peer bytes (some peer_id) = some (bytes, peer_id)

  abbrev pub forward : MessageContext → Service → Response
  forward context service = do
    network_msg_bytes ← create_message w context.message_bytes circuit_direct_message
    ok (
        if service.node.id == node_id
        then to_peer network_msg_bytes service.peer_id
        else some (network_msg_bytes, service.node.id))

  abbrev pub to_service : DirectMessage → MessageContext → Option Service → Response
  to_service msg context none =
      refuse msg context recipient_not_in_directory
        (format ("Recipient is not in the service directory: " ∷ msg.recipient ∷ []))
  to_service msg context (some service) = forward context service

  abbrev pub to_recipient : SplinterState → DirectMessage → MessageContext → Circuit → Response
  to_recipient s msg context c =
      if roster_contains c.roster msg.recipient
      then to_service msg context (get_service (recipient_of msg) s)
      else refuse msg context recipient_not_in_circuit_roster
          (format ("Recipient is not allowed in the Circuit: " ∷ msg.recipient ∷ []))

  -- the text names the recipient
  abbrev pub from_service :
      SplinterState → DirectMessage → MessageContext → Circuit → Option Service → Response
  from_service s msg context c none =
      refuse msg context sender_not_in_directory
        (format ("Sender is not in the service directory: " ∷ msg.recipient ∷ []))
  from_service s msg context c (some service) = to_recipient s msg context c

  abbrev pub on_circuit : SplinterState → DirectMessage → MessageContext → Option Circuit → Response
  on_circuit s msg context none =
      refuse msg context circuit_does_not_exist
        (format ("Circuit does not exist: " ∷ msg.circuit ∷ []))
  on_circuit s msg context (some c) =
      if roster_contains c.roster msg.sender
      then from_service s msg context c (get_service (sender_of msg) s)
      else refuse msg context sender_not_in_circuit_roster
          (format ("Sender is not allowed in the Circuit: " ∷ msg.sender ∷ []))

  -- `CircuitDirectMessageHandler::handle`
  unfoldable pub handle_direct_message :
      SplinterState → DirectMessage → MessageContext → Handled (Option SendRequest)
  handle_direct_message s msg context = on_circuit s msg context (circuit msg.circuit s) >>= send w

  -- `CircuitErrorHandler::handle`
  abbrev pub error_recipient : Option Service → Option String
  error_recipient none = none
  error_recipient (some service) =
      if service.node.id == node_id then service.peer_id else some service.node.id

  abbrev pub return_error : MessageContext → Option String → Handled (Option SendRequest)
  return_error context none = ok none
  return_error context (some recipient) = do
    network_msg_bytes ← create_message w context.message_bytes circuit_error_message
    send w (some (network_msg_bytes, recipient))

  unfoldable pub handle_circuit_error :
      SplinterState → CircuitError → MessageContext → Handled (Option SendRequest)
  handle_circuit_error s msg context = return_error context (
      error_recipient
        (get_service (record { circuit_name = msg.circuit_name; service_id = msg.service_id }) s))

  -- `AdminDirectMessageHandler::create_response`, where the recipient is an admin service of a node
  abbrev pub to_admin : DirectMessage → MessageContext → String → Option Circuit → Response
  to_admin msg context target none =
      refuse msg context circuit_does_not_exist
        (format ("Circuit does not exist: " ∷ msg.circuit ∷ []))
  to_admin msg context target (some c) = do
    network_msg_bytes ← create_message w context.message_bytes admin_direct_message
    ok (some (network_msg_bytes, if target == node_id then msg.recipient else target))

  abbrev pub to_admin_of : SplinterState → DirectMessage → MessageContext → Option String → Response
  to_admin_of s msg context none =
      refuse msg context recipient_not_in_circuit_roster
        (format ("Recipient is not allowed to receive admin messages: " ∷ msg.recipient ∷ []))
  to_admin_of s msg context (some target) = to_admin msg context target (circuit msg.circuit s)

  unfoldable pub create_response : SplinterState → DirectMessage → MessageContext → Response
  create_response s msg context =
      if starts_with "admin::" msg.sender
      then to_admin_of s msg context (strip_prefix "admin::" msg.recipient)
      else refuse msg context sender_not_in_circuit_roster
          (format ("Sender is not allowed to send admin messages: " ∷ msg.sender ∷ []))

  unfoldable pub handle_admin_message :
      SplinterState → DirectMessage → MessageContext → Handled (Option SendRequest)
  handle_admin_message s msg context = create_response s msg context >>= send w
