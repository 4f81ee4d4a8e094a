-- ===== src/Admin/UpdateLoops.antt =====
-- The loops of `update_splinter_state` of libsplinter/src/admin/service/shared.rs.
use mathlib.Core.Path.{subst}
use text.Mathlib.TextEquality.{eq_iff}
use splinter.Prelude.{
  String, ◌≡◌, refl, sym, ◌∙◌, Bool, true, false, none, some, List, [], ◌∷◌, ◌==◌, string_eq, any,
  map, All, arith, eq_self, eq_comm, Bool-cases, inl, inr,
}
use splinter.Prelude.Exec.{ok, bind_ok}
use splinter.Prelude.Map
use splinter.Prelude.Map.{lookup, lookup-insert}
use splinter.Prelude.Sets.{contains}
use splinter.Circuit.Service
use splinter.Circuit.Service.{ServiceId, service_id_eq}
use splinter.Circuit.Circuits
use splinter.Circuit.State.{CircuitDirectory, SplinterState, add_node, add_service}
use splinter.Admin.Proto
use splinter.Admin.Validation.{node_ids}
use splinter.Admin.Circuits.{AllDistinct}
use splinter.Admin.Update.{state_node, add_nodes, add_service_of, add_services, add_member}

-- the nodes, as they are added when the storage takes them
abbrev pub put_nodes :
    List Proto.SplinterNode
    → List (String × Service.SplinterNode)
    → List (String × Service.SplinterNode)
put_nodes [] ns = ns
put_nodes (m ∷ ms) ns = put_nodes ms (Map.insert m.node_id (state_node m) ns)

abbrev pub with_nodes : List (String × Service.SplinterNode) → SplinterState → SplinterState
with_nodes ns s = record s { circuit_directory = record s.circuit_directory { nodes = ns } }

pub put_nodes-other :
    (n : String) (ms : List Proto.SplinterNode) (ns : List (String × Service.SplinterNode))
    → contains (node_ids ms) n ≡ false
    → lookup n (put_nodes ms ns) ≡ lookup n ns
unfolding contains
put_nodes-other n [] ns h = refl
put_nodes-other n (m ∷ ms) ns h =
    put_nodes-other n ms (Map.insert m.node_id (state_node m) ns) (ground (arith, h))
    ∙ lookup-insert m.node_id n (state_node m) ns
    ∙ ground (arith, h, eq_comm m.node_id n)

pub put_nodes-members :
    (ms : List Proto.SplinterNode) (ns : List (String × Service.SplinterNode))
    → AllDistinct (node_ids ms)
    → All (λ (m : Proto.SplinterNode). lookup m.node_id (put_nodes ms ns) ≡ some (state_node m)) ms
put_nodes-members [] ns d = tt
put_nodes-members (m ∷ ms) ns d = (
  put_nodes-other m.node_id ms (Map.insert m.node_id (state_node m) ns) d.0
      ∙ lookup-insert m.node_id m.node_id (state_node m) ns
      ∙ ground (arith, eq_self m.node_id),
  put_nodes-members ms (Map.insert m.node_id (state_node m) ns) d.1,
)

pub put_nodes-found :
    (n : String) (ms : List Proto.SplinterNode) (ns : List (String × Service.SplinterNode))
    → contains (node_ids ms) n ≡ true
    → AllDistinct (node_ids ms)
    → (x : Service.SplinterNode) × (lookup n (put_nodes ms ns) ≡ some x)
unfolding contains
put_nodes-found n [] ns h d = cc
put_nodes-found n (m ∷ ms) ns h d = elim (Bool-cases (n == m.node_id)) [
  | inl e ↦ (
    state_node m,
    subst (λ x. lookup x (put_nodes (m ∷ ms) ns) ≡ some (state_node m))
        (sym ((eq_iff n m.node_id).0 e)) (put_nodes-members (m ∷ ms) ns d).0,
  )
  | inr e ↦ put_nodes-found n ms (Map.insert m.node_id (state_node m) ns) (ground (arith, h, e)) d.1
]

module _ (can_store : CircuitDirectory → Bool)
    (stores : (d : CircuitDirectory) → can_store d ≡ true) (self : String) where
  add_member_ok :
      (m : Proto.SplinterNode) (s : SplinterState)
      → add_member can_store self m s
        ≡ (ok tt, with_nodes (Map.insert m.node_id (state_node m) s.circuit_directory.nodes) s)
  unfolding add_node
  add_member_ok m s =
      let d = record s.circuit_directory {
        nodes = Map.insert m.node_id (state_node m) s.circuit_directory.nodes;
      } in
      ground (arith, stores d)

  pub add_nodes-put_nodes :
      (ms : List Proto.SplinterNode) (s : SplinterState)
      → add_nodes can_store self ms s
        ≡ (ok tt, with_nodes (put_nodes ms s.circuit_directory.nodes) s)
  unfolding add_nodes
  add_nodes-put_nodes [] s = refl
  add_nodes-put_nodes (m ∷ ms) s =
      bind_ok (add_member can_store self m) (λ _. add_nodes can_store self ms) s (add_member_ok m s)
      ∙ add_nodes-put_nodes ms
          (with_nodes (Map.insert m.node_id (state_node m) s.circuit_directory.nodes) s)

abbrev pub Nodes : Type 0
Nodes = List (String × Service.SplinterNode)

abbrev pub Services : Type 0
Services = List (ServiceId × Service.Service)

abbrev pub id_of : String → Circuits.ServiceDefinition → ServiceId
id_of circuit_id d = record { circuit_name = circuit_id; service_id = d.service_id }

-- a service that is not connected yet, at a node
abbrev pub remote_service : Circuits.ServiceDefinition → Service.SplinterNode → Service.Service
remote_service d n = record { service_id = d.service_id; peer_id = none; node = n }

abbrev pub runs_on : String → Circuits.ServiceDefinition → Bool
runs_on self d = any (λ n. n == self) d.allowed_nodes

-- A service that does not run here has a node of the state as its first.
pub record HasNode (nodes : Nodes) (d : Circuits.ServiceDefinition) : Type 0 where
  pub name : String
  pub others : List String
  pub node : Service.SplinterNode
  pub allowed : d.allowed_nodes ≡ name ∷ others
  pub found : lookup name nodes ≡ some node

-- What the loop over the services leaves of the directory.
pub record IsConnected (self circuit_id : String) (nodes : Nodes)
    (ds : List Circuits.ServiceDefinition) (before after : Services) : Type 0 where
  pub remote :
      All
        (λ (d : Circuits.ServiceDefinition).
          runs_on self d ≡ false
          → (x : Service.SplinterNode) × (lookup (id_of circuit_id d) after
              ≡ some (remote_service d x)))
        ds
  pub untouched :
      (id : ServiceId)
      → any (λ d. id_of circuit_id d == id) ds ≡ false
      → lookup id after ≡ lookup id before

-- One service of the loop.
record IsStep (self circuit_id : String) (d : Circuits.ServiceDefinition) (s s' : SplinterState)
    : Type 0 where
  same_directory : s'.circuit_directory ≡ s.circuit_directory
  remote :
      runs_on self d ≡ false
      → (x : Service.SplinterNode) × (lookup (id_of circuit_id d) s'.service_directory
          ≡ some (remote_service d x))
  untouched :
      (id : ServiceId)
      → (id_of circuit_id d == id) ≡ false
      → lookup id s'.service_directory ≡ lookup id s.service_directory

module _ (can_store : CircuitDirectory → Bool) (self circuit_id : String) where
  add_service_of-IsStep :
      (d : Circuits.ServiceDefinition) (s : SplinterState)
      → (runs_on self d ≡ false → HasNode s.circuit_directory.nodes d)
      → (s' : SplinterState) × (add_service_of can_store self circuit_id d s ≡ (ok tt, s'))
        × IsStep self circuit_id d s s'
  unfolding add_service_of add_service
  add_service_of-IsStep d s h = elim (Bool-cases (runs_on self d)) [
    | inl e ↦ (
      s,
      rw e refl,
      record { same_directory = refl; remote = λ no_run. cc; untouched = λ id ne. refl },
    )
    | inr e ↦
        let p = h e in
        let id = id_of circuit_id d in
        let service = remote_service d p.node in
        (
          add_service id service s,
          rw e (rw p.allowed (rw p.found refl)),
          record {
            same_directory = refl;
            remote = λ _. (
              p.node,
              lookup-insert id id service s.service_directory ∙ ground (arith, eq_self id),
            );
            untouched =
                λ other ne. lookup-insert id other service s.service_directory ∙ ground (arith, ne);
          },
        )
  ]

abbrev pub definition_ids : List Circuits.ServiceDefinition → List String
definition_ids = map (λ (d : Circuits.ServiceDefinition). d.service_id)

not_named :
    (circuit_id : String) (d : Circuits.ServiceDefinition) (ds : List Circuits.ServiceDefinition)
    → contains (definition_ids ds) d.service_id ≡ false
    → any (λ x. id_of circuit_id x == id_of circuit_id d) ds ≡ false
unfolding any contains
not_named circuit_id d [] h = refl
not_named circuit_id d (x ∷ ds) h =
    ground (arith, not_named circuit_id d ds, h, eq_comm x.service_id d.service_id)

module _ (can_store : CircuitDirectory → Bool) (self circuit_id : String) where
  pub add_services-IsConnected :
      (ds : List Circuits.ServiceDefinition) (s : SplinterState)
      → All
          (λ (d : Circuits.ServiceDefinition).
            runs_on self d ≡ false → HasNode s.circuit_directory.nodes d)
          ds
      → AllDistinct (definition_ids ds)
      → (s' : SplinterState) × (add_services can_store self circuit_id ds s ≡ (ok tt, s'))
        × (s'.circuit_directory ≡ s.circuit_directory)
        × IsConnected self circuit_id s.circuit_directory.nodes ds s.service_directory
            s'.service_directory
  unfolding add_services any
  add_services-IsConnected [] s h d =
      (s, refl, refl, record { remote = tt; untouched = λ id n. refl })
  add_services-IsConnected (x ∷ ds) s h d =
      let (s₁, e₁, step) = add_service_of-IsStep can_store self circuit_id x s h.0 in
      let placed : All
          (λ (d : Circuits.ServiceDefinition).
            runs_on self d ≡ false → HasNode s₁.circuit_directory.nodes d)
          ds =
        subst
          (λ dir.
            All (λ (d : Circuits.ServiceDefinition). runs_on self d ≡ false → HasNode dir.nodes d)
              ds)
          (sym step.same_directory) h.1 in
      let (s₂, e₂, same, rest) = add_services-IsConnected ds s₁ placed d.1 in
      (
        s₂,
        bind_ok (add_service_of can_store self circuit_id x)
              (λ _. add_services can_store self circuit_id ds) s e₁
            ∙ e₂,
        same ∙ step.same_directory,
        record {
          remote = (
            (λ away.
                let (n, found) = step.remote away in
                (n, rest.untouched (id_of circuit_id x) (not_named circuit_id x ds d.0) ∙ found)),
            rest.remote,
          );
          untouched =
              λ id n. rest.untouched id (ground (arith, n)) ∙ step.untouched id (ground (arith, n));
        },
      )
