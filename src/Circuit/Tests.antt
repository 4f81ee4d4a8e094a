-- ===== src/Circuit/Tests.antt =====
-- A circuit of two services: a000 is connected to this node, alpha, and b000 runs at beta.
use splinter.Prelude.{inr, ◌≡◌, ◌⊎◌, refl, String, true, none, some, [], ◌∷◌, string_eq, any}
use splinter.Prelude.Exec.{ok}
use splinter.Prelude.Map.{lookup}
use splinter.Prelude.Texts.{starts_with, strip_prefix}
use splinter.Circuit.Service.{ServiceId, Service}
use splinter.Circuit.Circuits.{
  Circuit, ServiceDefinition, trust, standard, any_persistence, no_durability, any_route, new_admin,
  roster_contains,
}
use splinter.Circuit.State.{SplinterState, get_service, directory_circuit}
use splinter.Circuit.Wire.{
  Wire, DirectMessage, MessageContext, SendRequest, ServiceRequest, create_message, connected,
  disconnected, ConnectStatus,
}
use splinter.Circuit.Routing.{handle_direct_message}
use splinter.Circuit.Connections.{Answer, connect, disconnect, unique_id, response_of, find_service}
use splinter.Circuit.Connected.{
  MayConnect, IsAnswer, registered_at, connect-IsAnswer, connect-disconnect,
}
use splinter.Circuit.Passing.{IsAllowed, IsForwarded, IsRefused}
use splinter.Circuit.Delivery.{
  handle_direct_message-IsSent, handle_direct_message-IsAllowed, connect-handle_direct_message,
}

abbrev plain_wire : Wire
plain_wire = record {
  write_error = λ e. some (1 ∷ []);
  write_connect_response = λ r. some (2 ∷ []);
  write_disconnect_response = λ r. some (3 ∷ []);
  write_circuit_message = λ t bytes. some (4 ∷ bytes);
  write_network_message = λ bytes. some (5 ∷ bytes);
  can_send = λ r. true;
}

abbrev definition : String → String → ServiceDefinition
definition id node = record {
  service_id = id;
  service_type = "scabbard";
  allowed_nodes = node ∷ [];
  arguments = [];
}

abbrev two_services : Circuit
two_services = record {
  id = "circuit";
  auth = trust;
  members = "alpha" ∷ "beta" ∷ [];
  roster = standard (definition "a000" "alpha" ∷ definition "b000" "beta" ∷ []);
  persistence = any_persistence;
  durability = no_durability;
  routes = any_route;
  circuit_management_type = "gameroom";
}

abbrev id_of : String → ServiceId
id_of id = record { circuit_name = "circuit"; service_id = id }

abbrev remote : Service
remote = record {
  service_id = "b000";
  peer_id = none;
  node = record { id = "beta"; endpoints = "tcp://beta" ∷ [] };
}

-- b000 is known from the commit
abbrev committed : SplinterState
committed = record {
  circuit_directory = record {
    nodes = [];
    circuits = ("circuit", two_services) ∷ [];
    admin_circuit = new_admin;
  };
  service_directory = (id_of "b000", remote) ∷ [];
}

abbrev local : Service
local = record {
  service_id = "a000";
  peer_id = some "peer";
  node = record { id = "alpha"; endpoints = "tcp://alpha" ∷ [] };
}

abbrev running : SplinterState
running = record committed {
  service_directory = (id_of "b000", remote) ∷ (id_of "a000", local) ∷ [];
}

abbrev to_remote : DirectMessage
to_remote = record {
  circuit = "circuit";
  sender = "a000";
  recipient = "b000";
  correlation_id = "1";
}

abbrev from_peer : MessageContext
from_peer = record { source_peer_id = "peer"; message_bytes = 9 ∷ [] }

abbrev to_beta : SendRequest
to_beta = record { recipient = "beta"; payload = 5 ∷ 4 ∷ 9 ∷ [] }

to_remote_sent :
    handle_direct_message plain_wire "alpha" running to_remote from_peer ≡ ok (some to_beta)
unfolding handle_direct_message directory_circuit lookup roster_contains any create_message
to_remote_sent = refl

handle_direct_message-IsSent_example :
    IsForwarded plain_wire "alpha" running to_remote from_peer to_beta
    ⊎ IsRefused plain_wire "alpha" running to_remote from_peer to_beta
handle_direct_message-IsSent_example =
    handle_direct_message-IsSent plain_wire "alpha" running to_remote from_peer to_beta
      to_remote_sent

to_remote-IsAllowed : IsAllowed running to_remote remote
unfolding directory_circuit lookup roster_contains any
to_remote-IsAllowed = record {
  found = two_services;
  exists = refl;
  sender_on_roster = refl;
  sender_service = local;
  sender_registered = refl;
  recipient_on_roster = refl;
  registered = refl;
}

handle_direct_message-IsAllowed_example :
    handle_direct_message plain_wire "alpha" running to_remote from_peer ≡ ok (some to_beta)
unfolding create_message
handle_direct_message-IsAllowed_example =
    handle_direct_message-IsAllowed plain_wire "alpha" running to_remote from_peer remote to_beta
      to_remote-IsAllowed refl refl refl

abbrev connect_request : ServiceRequest
connect_request = record { circuit = "circuit"; service_id = "a000"; correlation_id = "2" }

sample_MayConnect : MayConnect "alpha" connect_request committed
unfolding directory_circuit lookup roster_contains any find_service starts_with strip_prefix
sample_MayConnect = record {
  found = two_services;
  exists = refl;
  on_roster = refl;
  unregistered = refl;
  permitted = inr (
    refl,
    record {
      before = [];
      after = definition "b000" "beta" ∷ [];
      entry = definition "a000" "alpha";
      listed = refl;
      passed_over = refl;
      named = refl;
      allowed = refl;
    },
  );
}

connect-IsAnswer_example :
    (answer : Answer ConnectStatus) × (connect "alpha" "tcp://alpha" committed connect_request
        from_peer
      ≡ some answer)
    × IsAnswer "alpha" "tcp://alpha" connect_request from_peer committed answer
connect-IsAnswer_example =
    connect-IsAnswer "alpha" "tcp://alpha" connect_request from_peer committed

connect-disconnect_example :
    (s' : SplinterState) × (connect "alpha" "tcp://alpha" committed connect_request from_peer
      ≡ some (response_of connect_request connected "", s'))
    × (get_service (unique_id connect_request) s'
        ≡ some (registered_at "alpha" "tcp://alpha" connect_request from_peer))
    × ((disconnect s' connect_request).0 ≡ response_of connect_request disconnected "")
    × ((id : ServiceId)
        → get_service id (disconnect s' connect_request).1 ≡ get_service id committed)
connect-disconnect_example =
    connect-disconnect "alpha" "tcp://alpha" connect_request from_peer committed sample_MayConnect

abbrev to_local : DirectMessage
to_local = record { circuit = "circuit"; sender = "b000"; recipient = "a000"; correlation_id = "3" }

abbrev from_beta : MessageContext
from_beta = record { source_peer_id = "beta"; message_bytes = 8 ∷ [] }

connect-handle_direct_message_example :
    (s' : SplinterState) × (connect "alpha" "tcp://alpha" committed connect_request from_peer
      ≡ some (response_of connect_request connected "", s'))
    × (handle_direct_message plain_wire "alpha" s' to_local from_beta
        ≡ ok (some (record { recipient = "peer"; payload = 5 ∷ 4 ∷ 8 ∷ [] })))
unfolding directory_circuit lookup roster_contains any create_message sample_MayConnect
connect-handle_direct_message_example =
    connect-handle_direct_message plain_wire "alpha" "tcp://alpha" committed connect_request
      from_peer sample_MayConnect to_local from_beta remote (5 ∷ 4 ∷ 8 ∷ []) refl refl refl refl
      refl
