-- ===== src/Admin/Named.antt =====
-- The nodes that `update_splinter_state` of libsplinter/src/admin/service/shared.rs stores.
use splinter.Prelude.{
  String, ◌≡◌, refl, sym, ap, ◌∙◌, Bool, true, false, Option, none, some, List, [], ◌∷◌, ◌==◌,
  string_eq, any, if◌then◌else◌, arith,
}
use text.Mathlib.TextEquality.{eq_iff}
use splinter.Prelude.Exec.{Result, ok, Preserves, Preserves-bind, Preserves-pure, kept_if}
use splinter.Prelude.Map.{lookup, lookup-insert}
use splinter.Circuit.Service
use splinter.Circuit.Circuits
use splinter.Circuit.Circuits.{CircuitBuildError, build}
use splinter.Circuit.State.{
  CircuitDirectory, SplinterState, add_node, add_circuit, add_service, node,
}
use splinter.Admin.Proto
use splinter.Admin.Update.{
  CommitError, circuit_not_built, state_node, add_member, add_nodes, add_service_at,
  add_remote_service, add_service_of, add_services, store_circuit, update_splinter_state, lift,
  or_commit_error,
}

-- each node is stored under its id
abbrev pub IsNamed : CircuitDirectory → Type 0
IsNamed d = (id : String) (n : Service.SplinterNode) → lookup id d.nodes ≡ some n → n.id ≡ id

abbrev Named : SplinterState → Type 0
Named s = IsNamed s.circuit_directory

named_case :
    (b : Bool) (id : String) (n x : Service.SplinterNode) (o : Option Service.SplinterNode)
    → (b ≡ true → x.id ≡ id)
    → (o ≡ some n → n.id ≡ id)
    → (if b then some x else o) ≡ some n
    → n.id ≡ id
named_case true id n x o h g e =
    let same : x ≡ n = ground (arith, e) in
    sym (ap (λ (y : Service.SplinterNode). y.id) same) ∙ h refl
named_case false id n x o h g e = g e

add_member-Preserves :
    (can_store : CircuitDirectory → Bool) (self : String) (m : Proto.SplinterNode)
    → Preserves Named (add_member can_store self m)
unfolding add_node
add_member-Preserves can_store self m = record {
  at = λ s h id n e.
      named_case (m.node_id == id) id n (state_node m) (lookup id s.circuit_directory.nodes)
        (λ t. (eq_iff m.node_id id).0 t) (h id n)
        (sym (lookup-insert m.node_id id (state_node m) s.circuit_directory.nodes) ∙ e);
}

store_circuit-Preserves :
    (can_store : CircuitDirectory → Bool) (self : String) (c : Circuits.Circuit)
    → Preserves Named (store_circuit can_store self c)
unfolding add_circuit
store_circuit-Preserves can_store self c = record { at = λ s h. h }

lift-Preserves : {A : Type 0} (r : Result CommitError A) → Preserves Named (lift r)
lift-Preserves r = record { at = λ s h. h }

module _ (can_store : CircuitDirectory → Bool) (self : String) where
  add_nodes-Preserves :
      (ms : List Proto.SplinterNode) → Preserves Named (add_nodes can_store self ms)
  unfolding add_nodes
  add_nodes-Preserves [] = Preserves-pure tt
  add_nodes-Preserves (m ∷ ms) =
      Preserves-bind (add_member can_store self m) (λ u. add_nodes can_store self ms)
        (add_member-Preserves can_store self m) (λ u. add_nodes-Preserves ms)

  add_service_at-kept :
      (circuit_id : String) (d : Circuits.ServiceDefinition) (o : Option Service.SplinterNode)
      (s : SplinterState)
      → Named s
      → Named (add_service_at can_store self circuit_id d o s).1
  unfolding add_service
  add_service_at-kept circuit_id d none s h = h
  add_service_at-kept circuit_id d (some n) s h = h

  add_remote_service-kept :
      (circuit_id : String) (d : Circuits.ServiceDefinition) (ns : List String) (s : SplinterState)
      → Named s
      → Named (add_remote_service can_store self circuit_id d ns s).1
  add_remote_service-kept circuit_id d [] s h = h
  add_remote_service-kept circuit_id d (n ∷ ns) s h =
      add_service_at-kept circuit_id d (node n s) s h

  add_service_of-Preserves :
      (circuit_id : String) (d : Circuits.ServiceDefinition)
      → Preserves Named (add_service_of can_store self circuit_id d)
  unfolding add_service_of
  add_service_of-Preserves circuit_id d = record {
    at = λ s h.
        kept_if Named (any (λ n. n == self) d.allowed_nodes) (ok tt, s)
          (add_remote_service can_store self circuit_id d d.allowed_nodes s) h
          (add_remote_service-kept circuit_id d d.allowed_nodes s h);
  }

  add_services-Preserves :
      (circuit_id : String) (ds : List Circuits.ServiceDefinition)
      → Preserves Named (add_services can_store self circuit_id ds)
  unfolding add_services
  add_services-Preserves circuit_id [] = Preserves-pure tt
  add_services-Preserves circuit_id (d ∷ ds) =
      Preserves-bind (add_service_of can_store self circuit_id d)
        (λ u. add_services can_store self circuit_id ds) (add_service_of-Preserves circuit_id d)
        (λ u. add_services-Preserves circuit_id ds)

  build-Preserves :
      (b : Circuits.CircuitBuilder)
      → Preserves Named (or_commit_error circuit_not_built (λ s. (build b, s)))
  build-Preserves b = record { at = λ s h. h }

  ruleset named_rules = (
    Preserves-bind, lift-Preserves, build-Preserves, add_nodes-Preserves, store_circuit-Preserves,
    add_services-Preserves,
  )

  update_splinter_state-Preserves :
      (c : Proto.Circuit) → Preserves Named (update_splinter_state can_store self c)
  unfolding update_splinter_state
  update_splinter_state-Preserves c = search named_rules depth 12

-- Whatever the storage answers, the update of the state for a circuit keeps each node stored under
-- its id.
pub update_splinter_state-IsNamed :
    (can_store : CircuitDirectory → Bool) (self : String) (c : Proto.Circuit) (s : SplinterState)
    → IsNamed s.circuit_directory
    → IsNamed (update_splinter_state can_store self c s).1.circuit_directory
update_splinter_state-IsNamed can_store self c s h =
    (update_splinter_state-Preserves can_store self c).at s h
