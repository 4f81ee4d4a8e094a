-- ===== src/Circuit/Service.antt =====
-- libsplinter/src/circuit/service.rs: services and the nodes they are connected to.
use mathlib.Core.Path.{subst}
use text.Mathlib.TextEquality.{eq_iff}
use splinter.Prelude.{
  String, Bool, true, ◌&&◌, Option, List, ◌≡◌, ◌==◌, Eq, string_eq, and-true, eq_self, arith,
}

pub record ServiceId : Type 0 where
  pub circuit_name : String
  pub service_id : String

-- The id is not written to the storage: a stored node is read back with an empty one, under its key.
pub record SplinterNode : Type 0 where
  pub id : String
  pub endpoints : List String

pub record Service : Type 0 where
  pub service_id : String
  pub peer_id : Option String
  pub node : SplinterNode

abbrev pub service_id_beq : ServiceId → ServiceId → Bool
service_id_beq a b = a.circuit_name == b.circuit_name && a.service_id == b.service_id

pub service_id_beq_sound : (a b : ServiceId) → service_id_beq a b ≡ true → a ≡ b
service_id_beq_sound a b h =
    let (h₁, h₂) = and-true (a.circuit_name == b.circuit_name) (a.service_id == b.service_id) h in
    λ i. record {
      circuit_name = (eq_iff a.circuit_name b.circuit_name).0 h₁ i;
      service_id = (eq_iff a.service_id b.service_id).0 h₂ i;
    }

pub service_id_beq_refl : (a : ServiceId) → service_id_beq a a ≡ true
service_id_beq_refl a = ground (arith, eq_self a.circuit_name, eq_self a.service_id)

instance abbrev pub service_id_eq : Eq ServiceId
service_id_eq = record {
  eqb = service_id_beq;
  eqb_iff = λ a b. (
    service_id_beq_sound a b,
    λ h. subst (λ x. service_id_beq a x ≡ true) h (service_id_beq_refl a),
  );
}
