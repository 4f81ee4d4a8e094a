-- ===== src/Auth/Model.antt =====
-- The `AuthorizationManager` of libsplinter/src/network/auth/mod.rs: its states, the transitions,
-- and the calls it makes. The network's answers are parameters that may depend on the whole history.
use splinter.Prelude.{
  String, Bool, true, false, Option, none, some, List, [], ◌∷◌, ◌++◌, string_eq, if◌then◌else◌, ℕ,
}
use splinter.Prelude.Exec.{ok, err, Exec, raise}
use splinter.Prelude.Map
use splinter.Prelude.Map.{lookup}

pub data AuthorizationState : Type 0 where
  unknown connecting authorized unauthorized internal : AuthorizationState

pub data AuthorizationAction : Type 0 where
  connect : AuthorizationAction
  trust_identifying : String → AuthorizationAction
  unauthorizing : AuthorizationAction

pub data AuthorizationActionError : Type 0 where
  already_connecting : AuthorizationActionError
  invalid_message_order : AuthorizationState → AuthorizationAction → AuthorizationActionError
  connection_lost : AuthorizationActionError

-- What a callback is told.
pub data PeerAuthorizationState : Type 0 where
  peer_authorized peer_unauthorized : PeerAuthorizationState

-- What happened, seen from outside: answers of the network, and calls of callbacks, which are
-- numbered. `dropped` is a disconnection that the manager took from its channel.
pub data Event : Type 0 where
  asked : String → Option String → Event
  removed : String → Bool → Event
  updated : String → String → Bool → Event
  called : ℕ → String → PeerAuthorizationState → Event
  dropped : String → Event

pub record Network : Type 0 where
  pub get_peer_endpoint : List Event → String → Option String
  pub remove_connection : List Event → String → Bool
  pub update_peer_id : List Event → String → String → Bool
  -- `endpoint.contains("inproc")`
  pub is_inproc : String → Bool

-- The events are the newest first.
pub record ManagedAuthorizations : Type 0 where
  pub states : List (String × AuthorizationState)
  pub callbacks : List ℕ
  pub disconnect_receiver : List String
  pub events : List Event

abbrev pub new_authorizations : ManagedAuthorizations
new_authorizations = record { states = []; callbacks = []; disconnect_receiver = []; events = [] }

abbrev pub Method : Type 0 → Type 0
Method A = Exec ManagedAuthorizations AuthorizationActionError A

unfoldable pub remove_state : String → ManagedAuthorizations → ManagedAuthorizations
remove_state peer s = record s { states = Map.remove peer s.states }

unfoldable pub insert_state :
    String → AuthorizationState → ManagedAuthorizations → ManagedAuthorizations
insert_state peer state s = record s { states = Map.insert peer state s.states }

unfoldable pub record_event : Event → ManagedAuthorizations → ManagedAuthorizations
record_event e s = record s { events = e ∷ s.events }

-- `for peer_id in removals`
unfoldable pub drain_removals : List String → ManagedAuthorizations → ManagedAuthorizations
drain_removals [] s = s
drain_removals (p ∷ ps) s = drain_removals ps (record_event (dropped p) (remove_state p s))

unfoldable pub drain : ManagedAuthorizations → ManagedAuthorizations
drain s = drain_removals s.disconnect_receiver (record s { disconnect_receiver = [] })

-- an error of a callback is only logged
unfoldable pub notify :
    List ℕ → String → PeerAuthorizationState → ManagedAuthorizations → ManagedAuthorizations
notify [] peer state s = s
notify (c ∷ cs) peer state s = notify cs peer state (record_event (called c peer state) s)

abbrev pub notify_callbacks :
    String → PeerAuthorizationState → ManagedAuthorizations → ManagedAuthorizations
notify_callbacks peer state s = notify s.callbacks peer state s

abbrev pub current : String → ManagedAuthorizations → AuthorizationState
current peer s = elim (lookup peer s.states) [ none ↦ unknown | some state ↦ state ]

module _ (network : Network) where
  abbrev pub is_inproc_endpoint : Option String → Bool
  is_inproc_endpoint none = false
  is_inproc_endpoint (some endpoint) = network.is_inproc endpoint

  -- a connection of a peer that is not known
  unfoldable pub start_connecting : String → Method AuthorizationState
  start_connecting peer s =
      let endpoint = network.get_peer_endpoint s.events peer in
      let s₁ = record_event (asked peer endpoint) s in
      if is_inproc_endpoint endpoint
      then (ok internal, notify_callbacks peer peer_authorized (insert_state peer internal s₁))
      else (ok connecting, insert_state peer connecting s₁)

  -- `self.network.remove_connection(...)?`, then the rest
  unfoldable pub after_removal :
      String → (ManagedAuthorizations → ManagedAuthorizations) → Method AuthorizationState
  after_removal peer rest s =
      let success = network.remove_connection s.events peer in
      let s₁ = record_event (removed peer success) s in
      if success then (ok unauthorized, rest s₁) else (err connection_lost, s₁)

  unfoldable pub unauthorize : String → Method AuthorizationState
  unauthorize peer s =
      after_removal peer (notify_callbacks peer peer_unauthorized) (remove_state peer s)

  unfoldable pub identify : String → String → Method AuthorizationState
  identify peer new_peer s =
      let s₀ = remove_state peer s in
      let success = network.update_peer_id s₀.events peer new_peer in
      let s₁ = record_event (updated peer new_peer success) s₀ in
      if success
      then (
        ok authorized,
        notify_callbacks new_peer peer_authorized (insert_state new_peer authorized s₁),
      )
      else (err connection_lost, s₁)

  abbrev pub transition :
      String → AuthorizationState → AuthorizationAction → Method AuthorizationState
  transition peer unknown connect = start_connecting peer
  transition peer unknown unauthorizing = after_removal peer (λ s. s)
  transition peer unknown (trust_identifying new_peer) =
      raise (invalid_message_order unknown (trust_identifying new_peer))
  transition peer connecting connect = raise already_connecting
  transition peer connecting (trust_identifying new_peer) = identify peer new_peer
  transition peer connecting unauthorizing = unauthorize peer
  transition peer authorized unauthorizing = unauthorize peer
  transition peer authorized action = raise (invalid_message_order authorized action)
  transition peer unauthorized action = raise (invalid_message_order unauthorized action)
  transition peer internal action = raise (invalid_message_order internal action)

  unfoldable pub next_state : String → AuthorizationAction → Method AuthorizationState
  next_state peer action s = let s₁ = drain s in transition peer (current peer s₁) action s₁

abbrev pub is_granted_state : AuthorizationState → Bool
is_granted_state authorized = true
is_granted_state internal = true
is_granted_state unknown = false
is_granted_state connecting = false
is_granted_state unauthorized = false

unfoldable pub is_authorized : String → ManagedAuthorizations → Bool × ManagedAuthorizations
is_authorized peer s = let s₁ = drain s in (is_granted_state (current peer s₁), s₁)

unfoldable pub register_callback : ℕ → ManagedAuthorizations → ManagedAuthorizations
register_callback c s = record s { callbacks = s.callbacks ++ c ∷ [] }

-- the listener that `AuthorizationManager::new` gives to the network
unfoldable pub on_disconnect : String → ManagedAuthorizations → ManagedAuthorizations
on_disconnect peer s = record s { disconnect_receiver = s.disconnect_receiver ++ peer ∷ [] }

-- The calls that the manager receives.
pub data Operation : Type 0 where
  transitioning : String → AuthorizationAction → Operation
  asking : String → Operation
  registering : ℕ → Operation
  disconnecting : String → Operation

abbrev pub perform : Network → Operation → ManagedAuthorizations → ManagedAuthorizations
perform network (transitioning peer action) s = (next_state network peer action s).1
perform network (asking peer) s = (is_authorized peer s).1
perform network (registering c) s = register_callback c s
perform network (disconnecting peer) s = on_disconnect peer s

abbrev pub perform_all : Network → List Operation → ManagedAuthorizations → ManagedAuthorizations
perform_all network [] s = s
perform_all network (o ∷ os) s = perform_all network os (perform network o s)
