-- ===== src/Circuit/Passing.antt =====
-- Where the direct messages of libsplinter/src/circuit/handlers/direct_message.rs go.
use splinter.Prelude.{
  String, ◌≡◌, ◌⊎◌, sym, ap, ◌∙◌, Bool, true, false, Option, none, some, ◌==◌, string_eq, Bytes,
  if◌then◌else◌, arith, Bool-cases, Option-cases, inl, inr,
}
use splinter.Prelude.Exec.{ok}
use splinter.Prelude.Results.{ok_of_bind}
use splinter.Circuit.Service.{Service, service_id_eq}
use splinter.Circuit.Circuits.{Circuit, roster_contains}
use splinter.Circuit.State.{SplinterState, circuit, get_service}
use splinter.Circuit.Wire.{
  Wire, ErrorCode, DirectMessage, MessageContext, SendRequest, written, create_message, send,
  circuit_error_message, circuit_direct_message,
}
use splinter.Circuit.Routing.{
  Response, error_of, sender_of, recipient_of, refuse, forward, to_peer, to_recipient, on_circuit,
}

-- The circuit lets the message pass to the service.
pub record IsAllowed (s : SplinterState) (msg : DirectMessage) (service : Service) : Type 0 where
  pub found : Circuit
  pub exists : circuit msg.circuit s ≡ some found
  pub sender_on_roster : roster_contains found.roster msg.sender ≡ true
  pub sender_service : Service
  pub sender_registered : get_service (sender_of msg) s ≡ some sender_service
  pub recipient_on_roster : roster_contains found.roster msg.recipient ≡ true
  pub registered : get_service (recipient_of msg) s ≡ some service

-- the peer that a message to the service goes to
abbrev pub next_hop : String → Service → Option String
next_hop node_id x = if x.node.id == node_id then x.peer_id else some x.node.id

pub pair_of :
    (b : Bytes) (t : String) (b' : Bytes) (t' : String)
    → ◌≡◌ {A = Response} (ok (some (b, t))) (ok (some (b', t')))
    → (b ≡ b') × (t ≡ t')
pair_of b t b' t' h = (ground (arith, h), ground (arith, h))

pub written_ok : (o : Option Bytes) (b : Bytes) → written o ≡ ok b → o ≡ some b
written_ok none b h = cc
written_ok (some x) b h = ground (arith, h)

pub sent_of :
    (w : Wire) (o : Option (Bytes × String)) (r : SendRequest)
    → send w o ≡ ok (some r)
    → o ≡ some (r.payload, r.recipient)
sent_of w none r h = cc
sent_of w (some (b, t)) r h =
    let q : SendRequest = record { recipient = t; payload = b } in
    elim (Bool-cases (w.can_send q)) [
      | inl e ↦
          (let h' = rw e at h in
            let same : q ≡ r = ground (arith, h') in
            ap (λ (x : SendRequest). some (x.payload, x.recipient)) same)
      | inr e ↦ (let h' = rw e at h in cc h')
    ]

pub hop_of :
    (w : Wire) (node_id : String) (here : Bool) (peer : Option String) (id : String) (bytes : Bytes)
    (r : SendRequest)
    → ◌≡◌ {A = Response}
        (ok (if here then to_peer w node_id bytes peer else some (bytes, id)))
        (ok (some (r.payload, r.recipient)))
    → (bytes ≡ r.payload) × ((if here then peer else some id) ≡ some r.recipient)
hop_of w node_id true none id bytes r h = cc
hop_of w node_id true (some p) id bytes r h =
    let (same, to) = pair_of bytes p r.payload r.recipient h in (same, ap (λ t. some t) to)
hop_of w node_id false peer id bytes r h =
    let (same, to) = pair_of bytes id r.payload r.recipient h in (same, ap (λ t. some t) to)

pub next_hop-pair :
    (w : Wire) (node_id : String) (here : Bool) (peer : Option String) (id : String)
    (r : SendRequest)
    → (if here then peer else some id) ≡ some r.recipient
    → (if here then to_peer w node_id r.payload peer else some (r.payload, id))
      ≡ some (r.payload, r.recipient)
next_hop-pair w node_id true none id r h = cc
next_hop-pair w node_id true (some p) id r h =
    let to : p ≡ r.recipient = ground (arith, h) in ap (λ t. some (r.payload, t)) to
next_hop-pair w node_id false peer id r h =
    let to : id ≡ r.recipient = ground (arith, h) in ap (λ t. some (r.payload, t)) to

module _ (w : Wire) (node_id : String) (s : SplinterState) (msg : DirectMessage)
    (context : MessageContext) where
  -- The message itself goes on to its recipient.
  pub record IsForwarded (r : SendRequest) : Type 0 where
    pub service : Service
    pub allowed : IsAllowed s msg service
    pub hop : next_hop node_id service ≡ some r.recipient
    pub wrapped : create_message w context.message_bytes circuit_direct_message ≡ ok r.payload

  -- An error about the message goes back to the peer that it is from.
  pub record IsRefused (r : SendRequest) : Type 0 where
    pub back : r.recipient ≡ context.source_peer_id
    pub code : ErrorCode
    pub text : String
    pub bytes : Bytes
    pub error_bytes : w.write_error (error_of msg code text) ≡ some bytes
    pub wrapped : create_message w bytes circuit_error_message ≡ ok r.payload

  abbrev pub IsSent : SendRequest → Type 0
  IsSent r = IsForwarded r ⊎ IsRefused r

  pub refuse-IsRefused :
      (code : ErrorCode) (text : String) (r : SendRequest)
      → refuse w node_id msg context code text ≡ ok (some (r.payload, r.recipient))
      → IsRefused r
  refuse-IsRefused code text r h =
      let (bytes, e, h₁) = ok_of_bind (written (w.write_error (error_of msg code text))) _ h in
      let (wrapped, e₁, h₂) = ok_of_bind (create_message w bytes circuit_error_message) _ h₁ in
      let (same, back) = pair_of wrapped context.source_peer_id r.payload r.recipient h₂ in
      record {
        back = sym back;
        code = code;
        text = text;
        bytes = bytes;
        error_bytes = written_ok (w.write_error (error_of msg code text)) bytes e;
        wrapped = e₁ ∙ ap (λ b. ok b) same;
      }

  pub forward-IsForwarded :
      (x : Service) (r : SendRequest)
      → IsAllowed s msg x
      → forward w node_id context x ≡ ok (some (r.payload, r.recipient))
      → IsForwarded r
  forward-IsForwarded x r a h =
      let (bytes, e, h₁) =
        ok_of_bind (create_message w context.message_bytes circuit_direct_message) _ h in
      let (same, hop) = hop_of w node_id (x.node.id == node_id) x.peer_id x.node.id bytes r h₁ in
      record { service = x; allowed = a; hop = hop; wrapped = e ∙ ap (λ b. ok b) same }

  pub to_recipient-IsSent :
      (c : Circuit) (x : Service) (r : SendRequest)
      → circuit msg.circuit s ≡ some c
      → roster_contains c.roster msg.sender ≡ true
      → get_service (sender_of msg) s ≡ some x
      → to_recipient w node_id s msg context c ≡ ok (some (r.payload, r.recipient))
      → IsSent r
  to_recipient-IsSent c x r e f g h = elim (Bool-cases (roster_contains c.roster msg.recipient)) [
    | inr i ↦ (let h' = rw i at h in inr (refuse-IsRefused _ _ r h'))
    | inl i ↦
        (let h' = rw i at h in
          elim (Option-cases (get_service (recipient_of msg) s)) [
            | inl j ↦ (let k = rw j at h' in inr (refuse-IsRefused _ _ r k))
            | inr (y, j) ↦
                (let k = rw j at h' in
                  inl (
                    forward-IsForwarded y r
                      (record {
                        found = c;
                        exists = e;
                        sender_on_roster = f;
                        sender_service = x;
                        sender_registered = g;
                        recipient_on_roster = i;
                        registered = j;
                      })
                      k))
          ])
  ]

  pub on_circuit-IsSent :
      (r : SendRequest)
      → on_circuit w node_id s msg context (circuit msg.circuit s)
        ≡ ok (some (r.payload, r.recipient))
      → IsSent r
  on_circuit-IsSent r h = elim (Option-cases (circuit msg.circuit s)) [
    | inl e ↦ (let h' = rw e at h in inr (refuse-IsRefused _ _ r h'))
    | inr (c, e) ↦
        (let h' = rw e at h in
          elim (Bool-cases (roster_contains c.roster msg.sender)) [
            | inr f ↦ (let k = rw f at h' in inr (refuse-IsRefused _ _ r k))
            | inl f ↦
                (let k = rw f at h' in
                  elim (Option-cases (get_service (sender_of msg) s)) [
                    | inl g ↦ (let l = rw g at k in inr (refuse-IsRefused _ _ r l))
                    | inr (x, g) ↦ (let l = rw g at k in to_recipient-IsSent c x r e f g l)
                  ])
          ])
  ]
