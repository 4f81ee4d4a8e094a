-- ===== src/Admin/Committed.antt =====
-- What `update_splinter_state` of libsplinter/src/admin/service/shared.rs makes of the state, for a circuit
-- that passed the validation.
use mathlib.Core.Path.{subst}
use splinter.Prelude.{
  String, ◌≡◌, ◌≢◌, refl, sym, ap, ◌∙◌, Bool, true, false, some, List, [], ◌∷◌, ◌==◌, string_eq,
  map, All, arith, eq_self,
}
use splinter.Prelude.Exec.{ok, bind_ok}
use splinter.Prelude.Map
use splinter.Prelude.Map.{lookup, lookup-insert}
use splinter.Prelude.Sets.{contains}
use splinter.Circuit.Service.{service_id_eq}
use splinter.Circuit.Circuits
use splinter.Circuit.Circuits.{build, build_definition, has_none}
use splinter.Circuit.State.{CircuitDirectory, SplinterState, add_circuit, node}
use splinter.Admin.Proto
use splinter.Admin.Validation.{node_ids, service_ids, validate_circuit}
use splinter.Admin.Circuits.{AllDistinct, IsPlaced, IsValidCircuit, validate_circuit_iff}
use splinter.Admin.Update.{
  state_node, state_definition, add_nodes, update_splinter_state, finish_update, store_circuit,
  state_authorization, state_persistence, state_durability, state_route, builder,
}
use splinter.Admin.UpdateLoops.{
  put_nodes, with_nodes, put_nodes-other, put_nodes-members, put_nodes-found, add_nodes-put_nodes,
  Nodes, runs_on, HasNode, IsConnected, definition_ids, add_services-IsConnected,
}

-- The circuit of the state that an accepted circuit becomes.
abbrev pub built : Proto.Circuit → Circuits.Circuit
built c = record {
  id = c.circuit_id;
  auth = Circuits.trust;
  members = node_ids c.members;
  roster = Circuits.standard (map state_definition c.roster);
  persistence = Circuits.any_persistence;
  durability = Circuits.no_durability;
  routes = Circuits.any_route;
  circuit_management_type = c.circuit_management_type;
}

-- What a commit of the circuit leaves of the state.
pub record IsCommitted (self : String) (c : Proto.Circuit) (s s' : SplinterState) : Type 0 where
  pub stored : lookup c.circuit_id s'.circuit_directory.circuits ≡ some (built c)
  pub others_kept :
      (name : String)
      → (c.circuit_id == name) ≡ false
      → lookup name s'.circuit_directory.circuits ≡ lookup name s.circuit_directory.circuits
  pub members_known :
      All (λ (m : Proto.SplinterNode). node m.node_id s' ≡ some (state_node m)) c.members
  pub nodes_kept : (id : String) → contains (node_ids c.members) id ≡ false → node id s' ≡ node id s
  pub services :
      IsConnected self c.circuit_id s'.circuit_directory.nodes
        (map state_definition c.roster)
        s.service_directory
        s'.service_directory

authorization_set :
    (a : Proto.AuthorizationType)
    → a ≢ Proto.unset_authorization_type
    → state_authorization a ≡ ok Circuits.trust
authorization_set Proto.trust_authorization n = refl
authorization_set Proto.unset_authorization_type n = absurd (n refl)

persistence_set :
    (a : Proto.PersistenceType)
    → a ≢ Proto.unset_persistence_type
    → state_persistence a ≡ ok Circuits.any_persistence
persistence_set Proto.any_persistence n = refl
persistence_set Proto.unset_persistence_type n = absurd (n refl)

durability_set :
    (a : Proto.DurabilityType)
    → a ≢ Proto.unset_durability_type
    → state_durability a ≡ ok Circuits.no_durability
durability_set Proto.no_durability n = refl
durability_set Proto.unset_durability_type n = absurd (n refl)

route_set :
    (a : Proto.RouteType) → a ≢ Proto.unset_route_type → state_route a ≡ ok Circuits.any_route
route_set Proto.any_route n = refl
route_set Proto.unset_route_type n = absurd (n refl)

has_members : (xs : List String) (a : String) → contains xs a ≡ true → has_none xs ≡ false
unfolding contains
has_members [] a h = cc
has_members (x ∷ xs) a h = refl

build_ok :
    (c : Proto.Circuit) (self : String)
    → contains (node_ids c.members) self ≡ true
    → build (
        builder c Circuits.trust Circuits.any_persistence Circuits.no_durability Circuits.any_route)
      ≡ ok (built c)
unfolding build
build_ok c self h = rw (has_members (node_ids c.members) self h)

definition_ids-state_definition :
    (ss : List Proto.SplinterService) → definition_ids (map state_definition ss) ≡ service_ids ss
unfolding build_definition
definition_ids-state_definition [] = refl
definition_ids-state_definition (s ∷ ss) = cc (definition_ids-state_definition ss)

-- A service that the circuit places elsewhere has a known node.
placed-HasNode :
    (self : String) (ms : List Proto.SplinterNode) (ns : Nodes) (ss : List Proto.SplinterService)
    → AllDistinct (node_ids ms)
    → All (IsPlaced (node_ids ms)) ss
    → All
        (λ (d : Circuits.ServiceDefinition). runs_on self d ≡ false → HasNode (put_nodes ms ns) d)
        (map state_definition ss)
unfolding build_definition
placed-HasNode self ms ns [] d p = tt
placed-HasNode self ms ns (s ∷ ss) d p = (
  (λ away.
      let (x, found) = put_nodes-found p.0.node ms ns p.0.member d in
      record { name = p.0.node; others = []; node = x; allowed = p.0.only; found = found }),
  placed-HasNode self ms ns ss d p.1,
)

module _ (can_store : CircuitDirectory → Bool)
    (stores : (d : CircuitDirectory) → can_store d ≡ true) (self : String) (c : Proto.Circuit) where
  store_circuit_ok :
      (s : SplinterState)
      → store_circuit can_store self (built c) s ≡ (
        ok tt,
        record s {
          circuit_directory = record s.circuit_directory {
            circuits = Map.insert c.circuit_id (built c) s.circuit_directory.circuits;
          };
        },
      )
  unfolding add_circuit
  store_circuit_ok s =
      let d = record s.circuit_directory {
        circuits = Map.insert c.circuit_id (built c) s.circuit_directory.circuits;
      } in
      ground (arith, stores d)

  finish_update-IsCommitted :
      (s : SplinterState)
      → IsValidCircuit self c
      → (s' : SplinterState) × (finish_update can_store self c (built c) s ≡ (ok tt, s'))
        × IsCommitted self c s s'
  finish_update-IsCommitted s v =
      let ns = put_nodes c.members s.circuit_directory.nodes in
      let s₁ = with_nodes ns s in
      let s₂ : SplinterState = record s₁ {
        circuit_directory = record s₁.circuit_directory {
          circuits = Map.insert c.circuit_id (built c) s.circuit_directory.circuits;
        };
      } in
      let ds = map state_definition c.roster in
      let distinct : AllDistinct (definition_ids ds) =
        subst AllDistinct (sym (definition_ids-state_definition c.roster)) v.services_distinct in
      let placed =
        placed-HasNode self c.members s.circuit_directory.nodes c.roster v.members_distinct
          v.services_placed in
      let (s₃, e, same, connected) =
        add_services-IsConnected can_store self c.circuit_id ds s₂ placed distinct in
      let inserted =
        λ (name : String). lookup-insert c.circuit_id name (built c) s.circuit_directory.circuits in
      (
        s₃,
        bind_ok (add_nodes can_store self c.members) _ s
              (add_nodes-put_nodes can_store stores self c.members s)
            ∙ bind_ok (store_circuit can_store self (built c)) _ s₁ (store_circuit_ok s₁)
            ∙ e,
        record {
          stored =
              ap (λ (d : CircuitDirectory). lookup c.circuit_id d.circuits) same
              ∙ inserted c.circuit_id
              ∙ ground (arith, eq_self c.circuit_id);
          others_kept = λ name ne.
              ap (λ (d : CircuitDirectory). lookup name d.circuits) same
              ∙ inserted name
              ∙ ground (arith, ne);
          members_known =
              subst
                (λ (d : CircuitDirectory).
                  All (λ (m : Proto.SplinterNode). lookup m.node_id d.nodes ≡ some (state_node m))
                    c.members)
                (sym same)
                (put_nodes-members c.members s.circuit_directory.nodes v.members_distinct);
          nodes_kept = λ id out.
              ap (λ (d : CircuitDirectory). lookup id d.nodes) same
              ∙ put_nodes-other id c.members s.circuit_directory.nodes out;
          services =
              subst
                (λ (d : CircuitDirectory).
                  IsConnected self c.circuit_id d.nodes ds s.service_directory s₃.service_directory)
                (sym same) connected;
        },
      )

-- If the storage takes every directory, a circuit that passes the validation on this node is
-- committed without an error: it is stored and no other circuit changes, its members are known with
-- their endpoints, and each service that does not run here is in the directory at some node,
-- without a peer; the services of other ids are untouched.
pub update_splinter_state-IsCommitted :
    (can_store : CircuitDirectory → Bool) (self : String) (c : Proto.Circuit) (s : SplinterState)
    → ((d : CircuitDirectory) → can_store d ≡ true)
    → validate_circuit self c ≡ ok tt
    → (s' : SplinterState) × (update_splinter_state can_store self c s ≡ (ok tt, s'))
      × IsCommitted self c s s'
unfolding update_splinter_state
update_splinter_state-IsCommitted can_store self c s stores h =
    let v = (validate_circuit_iff self c).0 h in
    let (s', e, committed) = finish_update-IsCommitted can_store stores self c s v in
    (
      s',
      rw (authorization_set c.authorization_type v.authorization) (
          rw (persistence_set c.persistence v.persistence) (
            rw (durability_set c.durability v.durability)
              (rw (route_set c.routes v.route) (rw (build_ok c self v.this_node) e)))),
      committed,
    )
