-- ===== src/Admin/Circuits.antt =====
-- What `validate_circuit` of libsplinter/src/admin/service/shared.rs accepts.
use text.Mathlib.TextEquality.{eq_iff}
use splinter.Prelude.{
  String, ◌≡◌, refl, ◌↔◌, ◌≢◌, true, false, List, [], ◌∷◌, arith, ◌==◌, string_eq, All, not,
  eq_self,
}
use splinter.Prelude.Exec.{ok}
use splinter.Prelude.Results.{reject_if, ok_of_then, false_of_reject_if}
use splinter.Prelude.Sets.{contains}
use splinter.Admin.Proto.{
  SplinterNode, SplinterService, unset_authorization_type, unset_persistence_type,
  unset_durability_type, unset_route_type, Circuit,
}
use splinter.Admin.Validation.{
  is_unset_authorization, is_unset_persistence, is_unset_durability, is_unset_route, is_empty,
  check_members, check_allowed, check_services, validate_circuit, node_ids, endpoints_of,
  service_ids,
}

-- No text occurs twice.
abbrev pub AllDistinct : List String → Type 0
AllDistinct [] = Unit {0}
AllDistinct (x ∷ xs) = (contains xs x ≡ false) × AllDistinct xs

abbrev pub IsNonempty : String → Type 0
IsNonempty x = (x == "") ≡ false

-- The service may run on exactly one node, a member.
pub record IsPlaced (members : List String) (s : SplinterService) : Type 0 where
  pub node : String
  pub only : s.allowed_nodes ≡ node ∷ []
  pub member : contains members node ≡ true

-- A circuit that may be proposed on the node `self`.
pub record IsValidCircuit (self : String) (c : Circuit) : Type 0 where
  pub authorization : c.authorization_type ≢ unset_authorization_type
  pub persistence : c.persistence ≢ unset_persistence_type
  pub durability : c.durability ≢ unset_durability_type
  pub route : c.routes ≢ unset_route_type
  pub id : IsNonempty c.circuit_id
  pub management_type : IsNonempty c.circuit_management_type
  pub members_named : All IsNonempty (node_ids c.members)
  pub members_distinct : AllDistinct (node_ids c.members)
  pub endpoints_named : All IsNonempty (endpoints_of c.members)
  pub endpoints_distinct : AllDistinct (endpoints_of c.members)
  pub this_node : contains (node_ids c.members) self ≡ true
  pub some_service : c.roster ≢ []
  pub services_placed : All (IsPlaced (node_ids c.members)) c.roster
  pub services_named : All IsNonempty (service_ids c.roster)
  pub services_distinct : AllDistinct (service_ids c.roster)

-- What a loop that collects texts checks: nonempty, and not seen before.
abbrev pub Unseen : List String → List String → Type 0
Unseen [] seen = Unit {0}
Unseen (x ∷ xs) seen = IsNonempty x × (contains seen x ≡ false) × Unseen xs (x ∷ seen)

-- nothing of `seen` occurs
abbrev Apart : List String → List String → Type 0
Apart xs seen = (a : String) → contains seen a ≡ true → contains xs a ≡ false

distinct_of_Unseen :
    (xs seen : List String) → Unseen xs seen → All IsNonempty xs × AllDistinct xs × Apart xs seen
unfolding contains
distinct_of_Unseen [] seen u = (tt, tt, λ a m. refl)
distinct_of_Unseen (x ∷ xs) seen u =
    let (named, distinct, apart) = distinct_of_Unseen xs (x ∷ seen) u.2 in
    (
      (u.0, named),
      (ground (arith, apart x, eq_self x), distinct),
      λ a m. ground (arith, apart a, eq_iff a x),
    )

Unseen-of_distinct :
    (xs seen : List String) → All IsNonempty xs → AllDistinct xs → Apart xs seen → Unseen xs seen
unfolding contains
Unseen-of_distinct [] seen n d a = tt
Unseen-of_distinct (x ∷ xs) seen n d a = (
  n.0,
  ground (arith, a x, eq_self x),
  Unseen-of_distinct xs (x ∷ seen) n.1 d.1 (λ b m. ground (arith, a b, eq_iff b x)),
)

check_members_sound :
    (ms : List SplinterNode) (ns es : List String)
    → check_members ms ns es ≡ ok tt
    → Unseen (node_ids ms) ns × Unseen (endpoints_of ms) es
unfolding check_members
check_members_sound [] ns es h = (tt, tt)
check_members_sound (m ∷ ms) ns es h =
    ground (arith, check_members_sound ms (m.node_id ∷ ns) (m.endpoint ∷ es))

check_members_complete :
    (ms : List SplinterNode) (ns es : List String)
    → Unseen (node_ids ms) ns
    → Unseen (endpoints_of ms) es
    → check_members ms ns es ≡ ok tt
unfolding check_members
check_members_complete [] ns es u v = refl
check_members_complete (m ∷ ms) ns es u v =
    ground (arith, check_members_complete ms (m.node_id ∷ ns) (m.endpoint ∷ es) u.2 v.2)

check_allowed_sound :
    (members : List String) (s : SplinterService) (allowed : List String)
    → s.allowed_nodes ≡ allowed
    → check_allowed members allowed ≡ ok tt
    → IsPlaced members s
check_allowed_sound members s [] e h = cc
check_allowed_sound members s (n ∷ []) e h = record { node = n; only = e; member = ground arith }
check_allowed_sound members s (n ∷ m ∷ ns) e h = cc

check_services_sound :
    (members : List String) (ss : List SplinterService) (seen : List String)
    → check_services members ss seen ≡ ok tt
    → All (IsPlaced members) ss × Unseen (service_ids ss) seen
unfolding check_services
check_services_sound members [] seen h = (tt, tt)
check_services_sound members (s ∷ ss) seen h =
    let (a, h₁) = ok_of_then (check_allowed members s.allowed_nodes) _ h in
    let (b, h₂) = ok_of_then (reject_if (s.service_id == "") _) _ h₁ in
    let (c, h₃) = ok_of_then (reject_if (contains seen s.service_id) _) _ h₂ in
    let (placed, unseen) = check_services_sound members ss (s.service_id ∷ seen) h₃ in
    (
      (check_allowed_sound members s s.allowed_nodes refl a, placed),
      (false_of_reject_if _ _ b, false_of_reject_if _ _ c, unseen),
    )

check_services_complete :
    (members : List String) (ss : List SplinterService) (seen : List String)
    → All (IsPlaced members) ss
    → Unseen (service_ids ss) seen
    → check_services members ss seen ≡ ok tt
unfolding check_services
check_services_complete members [] seen p u = refl
check_services_complete members (s ∷ ss) seen p u =
    rw p.0.only
      (ground (arith, p.0.member, check_services_complete members ss (s.service_id ∷ seen) p.1 u.2))

validate_circuit_sound :
    (self : String) (c : Circuit) → validate_circuit self c ≡ ok tt → IsValidCircuit self c
unfolding validate_circuit
validate_circuit_sound self c h =
    let (a, h₁) = ok_of_then (reject_if (is_unset_authorization c.authorization_type) _) _ h in
    let (b, h₂) = ok_of_then (reject_if (is_unset_persistence c.persistence) _) _ h₁ in
    let (d, h₃) = ok_of_then (reject_if (is_unset_durability c.durability) _) _ h₂ in
    let (e, h₄) = ok_of_then (reject_if (is_unset_route c.routes) _) _ h₃ in
    let (f, h₅) = ok_of_then (reject_if (c.circuit_id == "") _) _ h₄ in
    let (g, h₆) = ok_of_then (reject_if (c.circuit_management_type == "") _) _ h₅ in
    let (i, h₇) = ok_of_then (check_members c.members [] []) _ h₆ in
    let (j, h₈) = ok_of_then (reject_if (is_empty c.members) _) _ h₇ in
    let (k, h₉) = ok_of_then (reject_if (not (contains (node_ids c.members) self)) _) _ h₈ in
    let (l, h₀) = ok_of_then (reject_if (is_empty c.roster) _) _ h₉ in
    let (m, _) = ok_of_then (check_services (node_ids c.members) c.roster []) _ h₀ in
    let (ids, ends) = check_members_sound c.members [] [] i in
    let (placed, services) = check_services_sound (node_ids c.members) c.roster [] m in
    let ids' = distinct_of_Unseen (node_ids c.members) [] ids in
    let ends' = distinct_of_Unseen (endpoints_of c.members) [] ends in
    let services' = distinct_of_Unseen (service_ids c.roster) [] services in
    record {
      authorization = ground (arith, a);
      persistence = ground (arith, b);
      durability = ground (arith, d);
      route = ground (arith, e);
      id = false_of_reject_if _ _ f;
      management_type = false_of_reject_if _ _ g;
      members_named = ids'.0;
      members_distinct = ids'.1;
      endpoints_named = ends'.0;
      endpoints_distinct = ends'.1;
      this_node = ground (arith, k);
      some_service = ground (arith, l);
      services_placed = placed;
      services_named = services'.0;
      services_distinct = services'.1;
    }

validate_circuit_complete :
    (self : String) (c : Circuit) → IsValidCircuit self c → validate_circuit self c ≡ ok tt
unfolding validate_circuit contains
validate_circuit_complete self c v =
    let ids =
      Unseen-of_distinct (node_ids c.members) [] v.members_named v.members_distinct (λ a m. cc) in
    let ends =
      Unseen-of_distinct (endpoints_of c.members) [] v.endpoints_named v.endpoints_distinct
        (λ a m. cc) in
    let services =
      Unseen-of_distinct (service_ids c.roster) [] v.services_named v.services_distinct
        (λ a m. cc) in
    ground (
      arith,
      check_members_complete c.members [] [] ids ends,
      check_services_complete (node_ids c.members) c.roster [] v.services_placed services,
    )

-- A node accepts a circuit for proposal exactly when every type is set, the ids are nonempty, the
-- members' ids and endpoints are nonempty and distinct, the node is one of the members, there are
-- services, their ids are nonempty and distinct, and each may run on exactly one node, a member.
pub validate_circuit_iff :
    (self : String) (c : Circuit) → (validate_circuit self c ≡ ok tt) ↔ IsValidCircuit self c
validate_circuit_iff self c = (validate_circuit_sound self c, validate_circuit_complete self c)
