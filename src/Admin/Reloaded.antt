-- ===== src/Admin/Reloaded.antt =====
-- The services that `add_services_to_directory` of libsplinter/src/admin/service/shared.rs adds, beside those
-- of commits.
use text.Mathlib.TextEquality.{eq_iff}
use splinter.Prelude.{
  String, ◌≡◌, refl, ap, ◌∙◌, Bool, Option, none, some, List, [], ◌∷◌, ◌==◌, string_eq, any,
  Bool-cases, inl, inr,
}
use splinter.Prelude.Exec.{Result, ok, err, ◌>>◌, pure, resume}
use splinter.Prelude.Map.{lookup}
use splinter.Circuit.Service
use splinter.Circuit.Circuits
use splinter.Circuit.Circuits.{roster_list}
use splinter.Circuit.State.{CircuitDirectory, SplinterState, node, add_service}
use splinter.Admin.Update.{
  Update, CommitError, add_service_at, add_remote_service, add_service_of, add_services,
}
use splinter.Admin.Ready.{definition_eq}
use splinter.Admin.Restart.{
  restore_at, restore_remote, restore_service, restore_services, restore_circuits,
}

-- The nodes as a reload finds them carry no id of their own: each gets its key.
abbrev pub with_ids : List (String × Service.SplinterNode) → List (String × Service.SplinterNode)
with_ids [] = []
with_ids ((id, n) ∷ nodes) = (id, record { id = id; endpoints = n.endpoints }) ∷ with_ids nodes

abbrev pub with_named_nodes : SplinterState → SplinterState
with_named_nodes s = record s {
  circuit_directory = record s.circuit_directory { nodes = with_ids s.circuit_directory.nodes };
}

abbrev with_id : String → Option Service.SplinterNode → Option Service.SplinterNode
with_id id none = none
with_id id (some n) = some (record { id = id; endpoints = n.endpoints })

lookup-with_ids :
    (id : String) (nodes : List (String × Service.SplinterNode))
    → lookup id (with_ids nodes) ≡ with_id id (lookup id nodes)
unfolding lookup
lookup-with_ids id [] = refl
lookup-with_ids id ((k, n) ∷ nodes) = elim (Bool-cases (k == id)) [
  | inl e ↦
      rw e
        (ap (λ (x : String). some (record { id = x; endpoints = n.endpoints })) ((eq_iff k id).0 e))
  | inr e ↦ rw e (lookup-with_ids id nodes)
]

-- the services of the circuits as commits add them
unfoldable pub add_circuits :
    (CircuitDirectory → Bool) → String → List (String × Circuits.Circuit) → Update (Unit {0})
add_circuits can_store self [] = pure tt
add_circuits can_store self (c ∷ cs) = do
  add_services can_store self c.0 (roster_list c.1.roster)
  add_circuits can_store self cs

-- the result of one method in a state, as from another
abbrev reached : Update (Unit {0}) → SplinterState → Result CommitError (Unit {0}) × SplinterState
reached m s = ((m s).0, with_named_nodes (m s).1)

-- the second does among nodes with ids what the first does, which leaves the directory
abbrev IsSame : Update (Unit {0}) → Update (Unit {0}) → SplinterState → Type 0
IsSame m m' s =
    (m' (with_named_nodes s) ≡ reached m s) × ((m s).1.circuit_directory ≡ s.circuit_directory)

resumed_IsSame :
    (q : Result CommitError (Unit {0})) (r r' : Update (Unit {0})) (s : SplinterState)
    → IsSame r r' s
    → (resume q (λ u. r') (with_named_nodes s) ≡ reached (λ s₁. resume q (λ u. r) s₁) s)
      × ((resume q (λ u. r) s).1.circuit_directory ≡ s.circuit_directory)
resumed_IsSame (ok u) r r' s h = h
resumed_IsSame (err e) r r' s h = (refl, refl)

then_IsSame :
    (m m' r r' : Update (Unit {0})) (s : SplinterState)
    → IsSame m m' s
    → ((s₁ : SplinterState) → IsSame r r' s₁)
    → IsSame (m >> r) (m' >> r') s
then_IsSame m m' r r' s (e, f) h =
    let (g, k) = resumed_IsSame (m s).0 r r' (m s).1 (h (m s).1) in
    (
      ap (λ (x : Result CommitError (Unit {0}) × SplinterState). resume x.0 (λ u. r') x.1) e ∙ g,
      k ∙ f,
    )

module _ (can_store : CircuitDirectory → Bool) (self : String) where
  add_service_at-restore_at :
      (circuit_id : String) (d : Circuits.ServiceDefinition) (allowed : String)
      (o : Option Service.SplinterNode) (s : SplinterState)
      → add_service_at can_store self circuit_id d (with_id allowed o) (with_named_nodes s)
        ≡ reached (restore_at self circuit_id d allowed o) s
  unfolding add_service
  add_service_at-restore_at circuit_id d allowed none s = refl
  add_service_at-restore_at circuit_id d allowed (some n) s = refl

  restore_at-kept :
      (circuit_id : String) (d : Circuits.ServiceDefinition) (allowed : String)
      (o : Option Service.SplinterNode) (s : SplinterState)
      → (restore_at self circuit_id d allowed o s).1.circuit_directory ≡ s.circuit_directory
  unfolding add_service
  restore_at-kept circuit_id d allowed none s = refl
  restore_at-kept circuit_id d allowed (some n) s = refl

  restore_remote-IsSame :
      (circuit_id : String) (d : Circuits.ServiceDefinition) (ns : List String) (s : SplinterState)
      → IsSame
          (restore_remote self circuit_id d ns)
          (add_remote_service can_store self circuit_id d ns)
          s
  restore_remote-IsSame circuit_id d [] s = (refl, refl)
  restore_remote-IsSame circuit_id d (n ∷ ns) s = (
    ap (λ o. add_service_at can_store self circuit_id d o (with_named_nodes s))
          (lookup-with_ids n s.circuit_directory.nodes)
        ∙ add_service_at-restore_at circuit_id d n (node n s) s,
    restore_at-kept circuit_id d n (node n s) s,
  )

  restore_service-IsSame :
      (circuit_id : String) (d : Circuits.ServiceDefinition) (s : SplinterState)
      → IsSame (restore_service self circuit_id d) (add_service_of can_store self circuit_id d) s
  unfolding restore_service add_service_of
  restore_service-IsSame circuit_id d s = elim (Bool-cases (any (λ n. n == self) d.allowed_nodes)) [
    | inl e ↦ rw e (refl, refl)
    | inr e ↦ rw e (restore_remote-IsSame circuit_id d d.allowed_nodes s)
  ]

  restore_services-IsSame :
      (circuit_id : String) (ds : List Circuits.ServiceDefinition) (s : SplinterState)
      → IsSame (restore_services self circuit_id ds) (add_services can_store self circuit_id ds) s
  unfolding restore_services add_services
  restore_services-IsSame circuit_id [] s = (refl, refl)
  restore_services-IsSame circuit_id (d ∷ ds) s =
      then_IsSame (restore_service self circuit_id d) (add_service_of can_store self circuit_id d)
        (restore_services self circuit_id ds) (add_services can_store self circuit_id ds) s
        (restore_service-IsSame circuit_id d s) (restore_services-IsSame circuit_id ds)

  pub restore_circuits-IsSame :
      (cs : List (String × Circuits.Circuit)) (s : SplinterState)
      → IsSame (restore_circuits self cs) (add_circuits can_store self cs) s
  unfolding restore_circuits add_circuits
  restore_circuits-IsSame [] s = (refl, refl)
  restore_circuits-IsSame (c ∷ cs) s =
      then_IsSame (restore_services self c.0 (roster_list c.1.roster))
        (add_services can_store self c.0 (roster_list c.1.roster)) (restore_circuits self cs)
        (add_circuits can_store self cs) s (restore_services-IsSame c.0 (roster_list c.1.roster) s)
        (restore_circuits-IsSame cs)
