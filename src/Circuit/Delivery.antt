-- ===== src/Circuit/Delivery.antt =====
-- What becomes of the direct messages of libsplinter/src/circuit/handlers/direct_message.rs.
use splinter.Prelude.{
  String, ◌≡◌, ◌⊎◌, refl, ap, ◌∙◌, true, some, List, ◌==◌, string_eq, Bytes, if◌then◌else◌, arith,
  Bool-cases, inl, inr, eq_self,
}
use splinter.Prelude.Exec.{ok}
use splinter.Prelude.Results.{◌>>=◌, ok_of_bind}
use splinter.Prelude.Map
use splinter.Prelude.Map.{lookup, lookup-insert}
use splinter.Circuit.Service.{ServiceId, Service, service_id_eq, service_id_beq_refl}
use splinter.Circuit.Circuits.{roster_contains}
use splinter.Circuit.State.{SplinterState, circuit, get_service, add_service}
use splinter.Circuit.Wire.{
  Wire, DirectMessage, MessageContext, SendRequest, create_message, send, circuit_direct_message,
  ServiceRequest, connected,
}
use splinter.Circuit.Connections.{unique_id, response_of, service_at, connect}
use splinter.Circuit.Connected.{MayConnect, connect-IsAnswer}
use splinter.Circuit.Routing.{sender_of, recipient_of, on_circuit, handle_direct_message}
use splinter.Circuit.Passing.{
  IsAllowed, IsForwarded, IsRefused, next_hop, sent_of, next_hop-pair, on_circuit-IsSent,
}

-- Whatever the handler of a direct message sends is the message itself, for a circuit that has both
-- services on its roster and in the directory, to the next hop of the recipient, or an error about
-- the message, to the peer that it is from.
pub handle_direct_message-IsSent :
    (w : Wire) (node_id : String) (s : SplinterState) (msg : DirectMessage)
    (context : MessageContext) (r : SendRequest)
    → handle_direct_message w node_id s msg context ≡ ok (some r)
    → IsForwarded w node_id s msg context r ⊎ IsRefused w node_id s msg context r
unfolding handle_direct_message
handle_direct_message-IsSent w node_id s msg context r h =
    let (o, e, h') =
      ok_of_bind (on_circuit w node_id s msg context (circuit msg.circuit s)) (send w) h in
    on_circuit-IsSent w node_id s msg context r (e ∙ ap (λ x. ok x) (sent_of w o r h'))

-- A direct message that the circuit lets pass is sent on to the next hop of its recipient, if it can be
-- wrapped and the network takes it.
pub handle_direct_message-IsAllowed :
    (w : Wire) (node_id : String) (s : SplinterState) (msg : DirectMessage)
    (context : MessageContext) (x : Service) (r : SendRequest)
    → IsAllowed s msg x
    → next_hop node_id x ≡ some r.recipient
    → create_message w context.message_bytes circuit_direct_message ≡ ok r.payload
    → w.can_send r ≡ true
    → handle_direct_message w node_id s msg context ≡ ok (some r)
unfolding handle_direct_message
handle_direct_message-IsAllowed w node_id s msg context x r a hop wrapped taken =
    rw
      (
        a.exists, a.sender_on_roster, a.sender_registered, a.recipient_on_roster, a.registered,
        wrapped,
      )
      (ap (λ o. ok o >>= send w)
          (next_hop-pair w node_id (x.node.id == node_id) x.peer_id x.node.id r hop)
        ∙ rw taken refl)

still_registered :
    (u id : ServiceId) (x y : Service) (services : List (ServiceId × Service))
    → lookup id services ≡ some y
    → (z : Service) × (lookup id (Map.insert u x services) ≡ some z)
still_registered u id x y services h = elim (Bool-cases (u == id)) [
  | inl e ↦ (x, lookup-insert u id x services ∙ rw e refl)
  | inr e ↦ (y, lookup-insert u id x services ∙ rw e h)
]

-- A service that connects to a node is reached there: a direct message on its circuit that comes from a
-- registered service of the roster is sent to the peer that it connected from, if the message can
-- be wrapped for the network and the network takes it.
pub connect-handle_direct_message :
    (w : Wire) (node_id endpoint : String) (s : SplinterState) (msg : ServiceRequest)
    (from : MessageContext) (m : MayConnect node_id msg s) (direct : DirectMessage)
    (context : MessageContext) (sender : Service) (payload : Bytes)
    → recipient_of direct ≡ unique_id msg
    → roster_contains m.found.roster direct.sender ≡ true
    → get_service (sender_of direct) s ≡ some sender
    → create_message w context.message_bytes circuit_direct_message ≡ ok payload
    → w.can_send (record { recipient = from.source_peer_id; payload = payload }) ≡ true
    → (s' : SplinterState) × (connect node_id endpoint s msg from
        ≡ some (response_of msg connected "", s'))
      × (handle_direct_message w node_id s' direct context
          ≡ ok (some (record { recipient = from.source_peer_id; payload = payload })))
unfolding add_service
connect-handle_direct_message w node_id endpoint s msg from m direct context sender payload same
      on_roster registered wrapped taken =
    let x = service_at node_id endpoint msg from in
    let u = unique_id msg in
    let s' = add_service u x s in
    let (answer, e, a) = connect-IsAnswer node_id endpoint msg from s in
    let circuit_same : direct.circuit ≡ msg.circuit = ap (λ (i : ServiceId). i.circuit_name) same in
    let recipient_same : direct.recipient ≡ msg.service_id =
      ap (λ (i : ServiceId). i.service_id) same in
    let (y, known) =
      still_registered u (sender_of direct) x sender s.service_directory registered in
    let allowed : IsAllowed s' direct x = record {
      found = m.found;
      exists = ap (λ n. circuit n s) circuit_same ∙ m.exists;
      sender_on_roster = on_roster;
      sender_service = y;
      sender_registered = known;
      recipient_on_roster = ap (roster_contains m.found.roster) recipient_same ∙ m.on_roster;
      registered =
          lookup-insert u (recipient_of direct) x s.service_directory
          ∙ ap (λ i. if u == i then some x else lookup i s.service_directory) same
          ∙ ground (arith, service_id_beq_refl u);
    } in
    (
      s',
      e ∙ ap (λ r. some r) (a.accepted m),
      handle_direct_message-IsAllowed w node_id s' direct context x
          (record { recipient = from.source_peer_id; payload = payload }) allowed
          (rw (eq_self node_id) refl) wrapped taken,
    )
