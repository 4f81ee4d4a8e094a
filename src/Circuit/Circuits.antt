-- ===== src/Circuit/Circuits.antt =====
-- The circuits of libsplinter/src/circuit/mod.rs: service definitions, rosters, and the builders.
use splinter.Prelude.{String, Bool, false, Option, none, some, List, [], ◌∷◌, ◌==◌, string_eq, any}
use splinter.Prelude.Exec.{Result, ok, err}
use splinter.Prelude.Results.{◌>>=◌, ◌>>◌, reject_if}
use splinter.Prelude.Map
use splinter.Prelude.Texts.{starts_with}

pub data AuthorizationType : Type 0 where
  trust : AuthorizationType

pub data PersistenceType : Type 0 where
  any_persistence : PersistenceType

pub data DurabilityType : Type 0 where
  no_durability : DurabilityType

pub data RouteType : Type 0 where
  any_route : RouteType

-- the arguments are a `BTreeMap`
pub record ServiceDefinition : Type 0 where
  pub service_id : String
  pub service_type : String
  pub allowed_nodes : List String
  pub arguments : List (String × String)

-- `extend` of a map, and the builder of a definition
unfoldable pub extend_arguments :
    List (String × String) → List (String × String) → List (String × String)
extend_arguments [] arguments = arguments
extend_arguments ((k, v) ∷ more) arguments = extend_arguments more (Map.insert k v arguments)

unfoldable pub build_definition :
    String → String → List String → List (String × String) → ServiceDefinition
build_definition service_id service_type allowed_nodes arguments = record {
  service_id = service_id;
  service_type = service_type;
  allowed_nodes = allowed_nodes;
  arguments = extend_arguments arguments [];
}

pub data Roster : Type 0 where
  standard : List ServiceDefinition → Roster
  admin : Roster

unfoldable pub roster_contains : Roster → String → Bool
unfolding any
roster_contains (standard roster) name =
    any (λ (d : ServiceDefinition). d.service_id == name) roster
roster_contains admin name = starts_with "admin::" name

-- `iter()` and `to_vec()`
abbrev pub roster_list : Roster → List ServiceDefinition
roster_list (standard roster) = roster
roster_list admin = []

pub record Circuit : Type 0 where
  pub id : String
  pub auth : AuthorizationType
  pub members : List String
  pub roster : Roster
  pub persistence : PersistenceType
  pub durability : DurabilityType
  pub routes : RouteType
  pub circuit_management_type : String

abbrev pub new_admin : Circuit
new_admin = record {
  id = "admin";
  auth = trust;
  members = [];
  roster = admin;
  persistence = any_persistence;
  durability = no_durability;
  routes = any_route;
  circuit_management_type = "";
}

pub record CircuitBuilder : Type 0 where
  pub id : Option String
  pub auth : Option AuthorizationType
  pub members : List String
  pub roster : List ServiceDefinition
  pub persistence : Option PersistenceType
  pub durability : Option DurabilityType
  pub routes : Option RouteType
  pub circuit_management_type : Option String

pub data CircuitBuildError : Type 0 where
  no_members no_id no_auth no_persistence no_durability_setting no_routes : CircuitBuildError

abbrev pub required : {A : Type 0} → CircuitBuildError → Option A → Result CircuitBuildError A
required e none = err e
required e (some a) = ok a

abbrev pub default_management_type : String
default_management_type = "default"

abbrev pub management_type_or_default : Option String → String
management_type_or_default none = default_management_type
management_type_or_default (some t) = t

abbrev pub has_none : List String → Bool
has_none [] = Bool.true
has_none (x ∷ xs) = false

unfoldable pub build : CircuitBuilder → Result CircuitBuildError Circuit
build b = do
  reject_if (has_none b.members) no_members
  id ← required no_id b.id
  auth ← required no_auth b.auth
  persistence ← required no_persistence b.persistence
  routes ← required no_routes b.routes
  durability ← required no_durability_setting b.durability
  ok (record {
    id = id;
    auth = auth;
    members = b.members;
    roster = standard b.roster;
    persistence = persistence;
    durability = durability;
    routes = routes;
    circuit_management_type = management_type_or_default b.circuit_management_type;
  })
