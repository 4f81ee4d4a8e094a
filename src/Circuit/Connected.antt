-- ===== src/Circuit/Connected.antt =====
-- What connecting and disconnecting do, in libsplinter/src/circuit/handlers/service_handlers.rs.
use mathlib.Core.Path.{subst}
use splinter.Prelude.{
  String, ◌≡◌, ◌≢◌, refl, sym, ap, ◌∙◌, Bool, true, false, Option, none, some, [], ◌∷◌, ◌==◌,
  string_eq, any, if◌then◌else◌, arith, Bool-cases, Option-cases, inl, inr, eq_self,
}
use splinter.Prelude.Map
use splinter.Prelude.Map.{lookup, lookup-insert, lookup-remove}
use splinter.Prelude.Texts.{format}
use splinter.Circuit.Service.{ServiceId, Service, service_id_eq, service_id_beq_sound}
use splinter.Circuit.Circuits.{ServiceDefinition, Circuit, roster_contains}
use splinter.Circuit.State.{SplinterState, circuit, get_service, add_service, remove_service}
use splinter.Circuit.Wire.{
  ServiceRequest, ServiceResponse, ConnectStatus, MessageContext, connected, disconnected,
  connect_without_circuit, connect_not_in_registry, already_registered, not_an_allowed_node,
}
use splinter.Circuit.Permitted.{IsPermitted, definition_in-IsPermitted, permitted_allowed}
use splinter.Circuit.Connections.{
  Answer, unique_id, response_of, definition_in, service_at, connect_defined, connect_to, connect,
  disconnect,
}

-- The services of a circuit that may connect at this node.
pub record MayConnect (node_id : String) (msg : ServiceRequest) (s : SplinterState) : Type 0 where
  pub found : Circuit
  pub exists : circuit msg.circuit s ≡ some found
  pub on_roster : roster_contains found.roster msg.service_id ≡ true
  pub unregistered :
      lookup
        (record { circuit_name = msg.circuit; service_id = msg.service_id })
        s.service_directory
      ≡ none
  pub permitted : IsPermitted node_id msg.service_id found.roster

-- the service as it is registered
abbrev pub registered_at : String → String → ServiceRequest → MessageContext → Service
registered_at node_id endpoint msg context = record {
  service_id = msg.service_id;
  peer_id = some context.source_peer_id;
  node = record { id = node_id; endpoints = endpoint ∷ [] };
}

-- What the answer to a request says, and the state that it leaves.
pub record IsAnswer (node_id endpoint : String) (msg : ServiceRequest) (context : MessageContext)
    (s : SplinterState) (answer : Answer ConnectStatus) : Type 0 where
  pub accepted :
      MayConnect node_id msg s
      → ◌≡◌ {A = Answer ConnectStatus} answer (
        record {
          circuit = msg.circuit;
          service_id = msg.service_id;
          status = connected;
          error_message = "";
          correlation_id = msg.correlation_id;
        },
        record s {
          service_directory =
              Map.insert
                (record { circuit_name = msg.circuit; service_id = msg.service_id })
                (registered_at node_id endpoint msg context)
                s.service_directory;
        },
      )
  pub justified : answer.0.status ≡ connected → MayConnect node_id msg s
  pub kept : answer.0.status ≢ connected → answer.1 ≡ s

module _ (node_id endpoint : String) (msg : ServiceRequest) (context : MessageContext)
    (s : SplinterState) where
  abbrev Answered : Option (Answer ConnectStatus) → Type 0
  Answered o =
      (answer : Answer ConnectStatus) × (o ≡ some answer)
      × IsAnswer node_id endpoint msg context s answer

  -- an answer that refuses what may not connect
  refused :
      (response : ServiceResponse ConnectStatus)
      → response.status ≢ connected
      → ¬ (MayConnect node_id msg s)
      → Answered (some (response, s))
  refused response n never = (
    (response, s),
    refl,
    record { accepted = λ m. absurd (never m); justified = λ h. absurd (n h); kept = λ h. refl },
  )

  connect_defined-Answered :
      (c : Circuit) (d : ServiceDefinition)
      → circuit msg.circuit s ≡ some c
      → roster_contains c.roster msg.service_id ≡ true
      → get_service (unique_id msg) s ≡ none
      → definition_in node_id msg c.roster ≡ some d
      → (any (λ n. n == node_id) d.allowed_nodes ≡ true
          → IsPermitted node_id msg.service_id c.roster)
      → Answered (connect_defined node_id endpoint s msg context (some d))
  unfolding add_service
  connect_defined-Answered c d exists on_roster unregistered defined permitted =
      let answer : Answer ConnectStatus = (
        response_of msg connected "",
        add_service (unique_id msg) (service_at node_id endpoint msg context) s,
      ) in
      elim (Bool-cases (any (λ n. n == node_id) d.allowed_nodes)) [
        | inl e ↦ rw e (
          answer,
          refl,
          record {
            accepted = λ m. refl;
            justified = λ h. record {
              found = c;
              exists = exists;
              on_roster = on_roster;
              unregistered = unregistered;
              permitted = permitted e;
            };
            kept = λ h. absurd (h refl);
          },
        )
        | inr e ↦ rw e (
            refused
              (response_of msg not_an_allowed_node (
                format (msg.circuit ∷ "::" ∷ msg.service_id ∷ " is not allowed on this node" ∷ [])))
              (λ h. cc h)
              (λ m.
                let same : m.found ≡ c = ground (arith, m.exists, exists) in
                let p =
                  subst (λ (x : Circuit). IsPermitted node_id msg.service_id x.roster) same
                    m.permitted in
                cc (permitted_allowed node_id msg c.roster d p defined, e)))
      ]

  connect_to-Answered :
      (c : Circuit)
      → circuit msg.circuit s ≡ some c
      → Answered (connect_to node_id endpoint s msg context (some c))
  connect_to-Answered c exists = elim (Bool-cases (roster_contains c.roster msg.service_id)) [
    | inr e ↦ rw e (
        refused
          (response_of msg connect_not_in_registry (
            format (
              "Service is not allowed in the circuit: " ∷ msg.circuit ∷ ":" ∷ msg.service_id ∷ [])))
          (λ h. cc h) (λ m. cc (m.exists, exists, m.on_roster, e)))
    | inl e ↦ (elim (Option-cases (get_service (unique_id msg) s)) [
      | inr (x, f) ↦
          rw (e, f)
            (refused
              (response_of msg already_registered
                (format ("Service is already registered: " ∷ msg.service_id ∷ [])))
              (λ h. cc h) (λ m. cc (m.unregistered, f)))
      | inl f ↦
          (let (d, g, permitted) = definition_in-IsPermitted node_id msg c.roster e in
            rw (e, f, g) (connect_defined-Answered c d exists e f g permitted))
    ])
  ]

  -- Every request to connect is answered. The answer is CONNECTED exactly where the service may
  -- connect: its circuit exists, has it on the roster and not yet in the service directory, and it
  -- is an admin service or the first entry of its id in the roster allows this node. Then it is
  -- registered at this node with the peer that asked; any other answer leaves the state.
  pub connect-IsAnswer :
      (answer : Answer ConnectStatus) × (connect node_id endpoint s msg context ≡ some answer)
      × IsAnswer node_id endpoint msg context s answer
  unfolding connect
  connect-IsAnswer = elim (Option-cases (circuit msg.circuit s)) [
    | inl e ↦ rw e (
        refused
          (response_of msg connect_without_circuit
            (format ("Circuit does not exist: " ∷ msg.circuit ∷ [])))
          (λ h. cc h) (λ m. cc (e, m.exists)))
    | inr (c, e) ↦ rw e (connect_to-Answered c e)
  ]

restored_case :
    (b : Bool) (x : Service) (o : Option Service)
    → (b ≡ true → o ≡ none)
    → (if b then none else if b then some x else o) ≡ o
restored_case true x o h = sym (h refl)
restored_case false x o h = refl

-- A service that may connect is connected, and its disconnection is accepted then and leaves every
-- service as it was found before.
pub connect-disconnect :
    (node_id endpoint : String) (msg : ServiceRequest) (context : MessageContext)
    (s : SplinterState)
    → MayConnect node_id msg s
    → (s' : SplinterState) × (connect node_id endpoint s msg context
        ≡ some (response_of msg connected "", s'))
      × (get_service (unique_id msg) s' ≡ some (registered_at node_id endpoint msg context))
      × ((disconnect s' msg).0 ≡ response_of msg disconnected "")
      × ((id : ServiceId) → get_service id (disconnect s' msg).1 ≡ get_service id s)
unfolding disconnect add_service remove_service
connect-disconnect node_id endpoint msg context s m =
    let x = registered_at node_id endpoint msg context in
    let u = unique_id msg in
    let s' = add_service u x s in
    let (answer, e, a) = connect-IsAnswer node_id endpoint msg context s in
    let stored : lookup u (Map.insert u x s.service_directory) ≡ some x =
      lookup-insert u u x s.service_directory ∙ ground (arith, eq_self u) in
    let restored = λ (id : ServiceId).
      lookup-remove u id (Map.insert u x s.service_directory)
      ∙ ap (λ o. if u == id then none else o) (lookup-insert u id x s.service_directory)
      ∙ restored_case (u == id) x (lookup id s.service_directory) (λ h.
        subst (λ k. lookup k s.service_directory ≡ none) (service_id_beq_sound u id h)
          m.unregistered) in
    (
      s',
      e ∙ ap (λ r. some r) (a.accepted m),
      stored,
      rw (m.exists, m.on_roster, stored) refl,
      λ id. rw (m.exists, m.on_roster, stored) (restored id),
    )
