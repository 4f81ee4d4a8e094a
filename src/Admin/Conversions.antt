-- ===== src/Admin/Conversions.antt =====
-- The conversions of libsplinter/src/admin/service/messages.rs, each with its inverse.
use splinter.Prelude.{◌≡◌, refl, ◌↔◌, List, [], ◌∷◌, map, String, arith}
use splinter.Prelude.Exec.{ok}
use splinter.Prelude.Results.{◌>>=◌, collect, collect-map, map-collect, ok_of_bind}
use splinter.Admin.Proto
use splinter.Admin.Messages.{
  SplinterNode, SplinterService, CreateCircuit, VoteRecord, CircuitProposal, trust, any_persistence,
  no_durability, any_route, authorization_from_proto, persistence_from_proto, durability_from_proto,
  route_from_proto, node_from_proto, service_from_proto, circuit_from_proto, vote_from_proto,
  vote_record_from_proto, proposal_type_from_proto, proposal_from_proto, node_into_proto,
  argument_into_proto, service_into_proto, circuit_into_proto, vote_into_proto,
  vote_record_into_proto, proposal_type_into_proto, proposal_into_proto, Vote, accept, reject,
  ProposalType, create, update_roster, add_node, remove_node, destroy, AuthorizationType,
  PersistenceType, DurabilityType, RouteType, authorization_into_proto, persistence_into_proto,
  durability_into_proto, route_into_proto,
}

arguments-into_proto :
    (xs : List (String × String))
    → map (λ (a : Proto.Argument). (a.key, a.value)) (map argument_into_proto xs) ≡ xs
arguments-into_proto [] = refl
arguments-into_proto (x ∷ xs) = cc (arguments-into_proto xs)

arguments-from_proto :
    (xs : List Proto.Argument)
    → map argument_into_proto (map (λ (a : Proto.Argument). (a.key, a.value)) xs) ≡ xs
arguments-from_proto [] = refl
arguments-from_proto (x ∷ xs) = cc (arguments-from_proto xs)

node_from-into : (n : SplinterNode) → node_from_proto (node_into_proto n) ≡ ok n
unfolding node_from_proto node_into_proto
node_from-into n = refl

service_from-into : (s : SplinterService) → service_from_proto (service_into_proto s) ≡ ok s
unfolding service_from_proto service_into_proto
service_from-into s = rw (arguments-into_proto s.arguments)

vote_record_from-into : (r : VoteRecord) → vote_record_from_proto (vote_record_into_proto r) ≡ ok r
unfolding vote_record_from_proto vote_record_into_proto
vote_record_from-into r = vote r.vote
  where
    vote :
        (v : Vote)
        → (vote_from_proto (vote_into_proto v) >>= λ w. ok (record r { vote = w }))
          ≡ ok (record r { vote = v })
    vote accept = refl
    vote reject = refl

authorization_from-into :
    (a : AuthorizationType) → authorization_from_proto (authorization_into_proto a) ≡ ok a
authorization_from-into trust = refl

persistence_from-into :
    (a : PersistenceType) → persistence_from_proto (persistence_into_proto a) ≡ ok a
persistence_from-into any_persistence = refl

durability_from-into : (a : DurabilityType) → durability_from_proto (durability_into_proto a) ≡ ok a
durability_from-into no_durability = refl

route_from-into : (a : RouteType) → route_from_proto (route_into_proto a) ≡ ok a
route_from-into any_route = refl

proposal_type_from-into :
    (a : ProposalType) → proposal_type_from_proto (proposal_type_into_proto a) ≡ ok a
proposal_type_from-into create = refl
proposal_type_from-into update_roster = refl
proposal_type_from-into add_node = refl
proposal_type_from-into remove_node = refl
proposal_type_from-into destroy = refl

circuit_from-into : (c : CreateCircuit) → (circuit_into_proto c >>= circuit_from_proto) ≡ ok c
unfolding circuit_into_proto circuit_from_proto
circuit_from-into c = rw (authorization_from-into c.authorization_type) (
    rw (persistence_from-into c.persistence) (
      rw (durability_from-into c.durability) (
        rw (route_from-into c.routes) (
          rw (collect-map service_from_proto service_into_proto service_from-into c.roster)
            (rw (collect-map node_from_proto node_into_proto node_from-into c.members))))))

proposal_from-into : (p : CircuitProposal) → (proposal_into_proto p >>= proposal_from_proto) ≡ ok p
unfolding proposal_into_proto proposal_from_proto circuit_into_proto
proposal_from-into p = rw (proposal_type_from-into p.proposal_type) (
    rw (collect-map vote_record_from_proto vote_record_into_proto vote_record_from-into p.votes)
      (rw (circuit_from-into p.circuit)))

-- the other way
node_into-from :
    (n : Proto.SplinterNode) (x : SplinterNode) → node_from_proto n ≡ ok x → node_into_proto x ≡ n
unfolding node_from_proto node_into_proto
node_into-from n x h = ground (arith, h)

service_into-from :
    (s : Proto.SplinterService) (x : SplinterService)
    → service_from_proto s ≡ ok x
    → service_into_proto x ≡ s
unfolding service_from_proto service_into_proto
service_into-from s x h = ground (arith, h, arguments-from_proto s.arguments)

vote_record_into-from :
    (r : Proto.VoteRecord) (x : VoteRecord)
    → vote_record_from_proto r ≡ ok x
    → vote_record_into_proto x ≡ r
unfolding vote_record_from_proto vote_record_into_proto
vote_record_into-from r x h = ground (arith, h)

circuit_into-from :
    (c : Proto.Circuit) (x : CreateCircuit)
    → circuit_from_proto c ≡ ok x
    → circuit_into_proto x ≡ ok c
unfolding circuit_from_proto circuit_into_proto
circuit_into-from c x h =
    let (a, ea, h₁) = ok_of_bind (authorization_from_proto c.authorization_type) _ h in
    let (b, eb, h₂) = ok_of_bind (persistence_from_proto c.persistence) _ h₁ in
    let (d, ed, h₃) = ok_of_bind (durability_from_proto c.durability) _ h₂ in
    let (r, er, h₄) = ok_of_bind (route_from_proto c.routes) _ h₃ in
    let (ss, es, h₅) = ok_of_bind (collect service_from_proto c.roster) _ h₄ in
    let (ms, em, h₆) = ok_of_bind (collect node_from_proto c.members) _ h₅ in
    let roster =
      map-collect service_from_proto service_into_proto service_into-from c.roster ss es in
    let members = map-collect node_from_proto node_into_proto node_into-from c.members ms em in
    ground (arith, h₆, roster, members, ea, eb, ed, er)

proposal_into-from :
    (p : Proto.CircuitProposal) (x : CircuitProposal)
    → proposal_from_proto p ≡ ok x
    → proposal_into_proto x ≡ ok p
unfolding proposal_from_proto proposal_into_proto
proposal_into-from p x h =
    let (t, et, h₁) = ok_of_bind (proposal_type_from_proto p.proposal_type) _ h in
    let (vs, ev, h₂) = ok_of_bind (collect vote_record_from_proto p.votes) _ h₁ in
    let (c, ec, h₃) = ok_of_bind (circuit_from_proto p.circuit_proposal) _ h₂ in
    let votes =
      map-collect vote_record_from_proto vote_record_into_proto vote_record_into-from p.votes vs
        ev in
    let circuit = circuit_into-from p.circuit_proposal c ec in
    ground (arith, h₃, votes, circuit, et)

-- A protobuf proposal is read as a message exactly when that message is written as it.
pub proposal_from_proto_iff :
    (p : Proto.CircuitProposal) (x : CircuitProposal)
    → (proposal_from_proto p ≡ ok x) ↔ (proposal_into_proto x ≡ ok p)
proposal_from_proto_iff p x =
    (proposal_into-from p x, (λ h. let back = proposal_from-into x in rw h at back))
