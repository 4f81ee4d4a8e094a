-- ===== src/Circuit/Permitted.antt =====
-- The services that `handle_service_connect_request`'s check of the allowed nodes lets through, in
-- libsplinter/src/circuit/handlers/service_handlers.rs.
use mathlib.Core.Path.{subst}
use splinter.Prelude.{
  String, ◌≡◌, refl, sym, ap, ◌∙◌, true, false, some, List, [], ◌∷◌, ◌==◌, string_eq, any, arith,
  Bool-cases, inl, inr, eq_self, ◌++◌, ◌⊎◌,
}
use splinter.Prelude.Texts.{starts_with}
use splinter.Circuit.Service.{service_id_eq}
use splinter.Circuit.Circuits.{
  ServiceDefinition, Roster, standard, admin, roster_contains, build_definition,
}
use splinter.Circuit.Wire.{ServiceRequest}
use splinter.Circuit.Connections.{find_service, definition_in}

-- The first entry of that id in a standard roster allows the node.
pub record IsFirstEntry (node_id id : String) (roster : Roster) : Type 0 where
  pub before : List ServiceDefinition
  pub after : List ServiceDefinition
  pub entry : ServiceDefinition
  pub listed : roster ≡ standard (before ++ entry ∷ after)
  pub passed_over : any (λ (d : ServiceDefinition). d.service_id == id) before ≡ false
  pub named : (entry.service_id == id) ≡ true
  pub allowed : any (λ n. n == node_id) entry.allowed_nodes ≡ true

-- An admin service may run at every node, another one where its entry says so.
abbrev pub IsPermitted : String → String → Roster → Type 0
IsPermitted node_id id roster =
    (starts_with "admin::" id ≡ true)
    ⊎ ((starts_with "admin::" id ≡ false) × IsFirstEntry node_id id roster)

-- a list, split at the first entry of the id
record IsSplit (id : String) (ds : List ServiceDefinition) : Type 0 where
  before : List ServiceDefinition
  after : List ServiceDefinition
  entry : ServiceDefinition
  listed : ds ≡ before ++ entry ∷ after
  passed_over : any (λ (d : ServiceDefinition). d.service_id == id) before ≡ false
  named : (entry.service_id == id) ≡ true

IsSplit-first :
    (id : String) (ds : List ServiceDefinition)
    → any (λ (d : ServiceDefinition). d.service_id == id) ds ≡ true
    → IsSplit id ds
unfolding any
IsSplit-first id [] h = cc h
IsSplit-first id (d ∷ ds) h = elim (Bool-cases (d.service_id == id)) [
  | inl e ↦ record {
    before = [];
    after = ds;
    entry = d;
    listed = refl;
    passed_over = refl;
    named = e;
  }
  | inr e ↦
      (let r = IsSplit-first id ds (ground (arith, h, e)) in
        record {
          before = d ∷ r.before;
          after = r.after;
          entry = r.entry;
          listed = ap (λ xs. d ∷ xs) r.listed;
          passed_over = ground (arith, e, r.passed_over);
          named = r.named;
        })
]

find_service-append :
    (id : String) (before after : List ServiceDefinition) (d : ServiceDefinition)
    → any (λ (x : ServiceDefinition). x.service_id == id) before ≡ false
    → (d.service_id == id) ≡ true
    → find_service id (before ++ d ∷ after) ≡ some d
unfolding any find_service
find_service-append id [] after d h e = rw e refl
find_service-append id (x ∷ xs) after d h e =
    ground (arith, h, e, find_service-append id xs after d)

-- The definition that the code checks allows the node exactly where the service is permitted.
pub definition_in-IsPermitted :
    (node_id : String) (msg : ServiceRequest) (roster : Roster)
    → roster_contains roster msg.service_id ≡ true
    → (d : ServiceDefinition) × (definition_in node_id msg roster ≡ some d)
      × (any (λ n. n == node_id) d.allowed_nodes ≡ true → IsPermitted node_id msg.service_id roster)
unfolding roster_contains
definition_in-IsPermitted node_id msg (standard ds) h =
    elim (Bool-cases (starts_with "admin::" msg.service_id)) [
      | inl e ↦ (build_definition msg.service_id "admin" (node_id ∷ []) [], rw e refl, λ a. inl e)
      | inr e ↦
          (let r = IsSplit-first msg.service_id ds h in
            (
              r.entry,
              rw e (
                  ap (find_service msg.service_id) r.listed
                  ∙ find_service-append msg.service_id r.before r.after r.entry r.passed_over
                      r.named),
              λ a. inr (
                e,
                record {
                  before = r.before;
                  after = r.after;
                  entry = r.entry;
                  listed = ap standard r.listed;
                  passed_over = r.passed_over;
                  named = r.named;
                  allowed = a;
                },
              ),
            ))
    ]
definition_in-IsPermitted node_id msg admin h =
    (build_definition msg.service_id "admin" (node_id ∷ []) [], rw h refl, λ a. inl h)

pub permitted_allowed :
    (node_id : String) (msg : ServiceRequest) (roster : Roster) (d : ServiceDefinition)
    → IsPermitted node_id msg.service_id roster
    → definition_in node_id msg roster ≡ some d
    → any (λ n. n == node_id) d.allowed_nodes ≡ true
unfolding build_definition any
permitted_allowed node_id msg roster d (inl e) h =
    let h' = rw e at h in
    let same : build_definition msg.service_id "admin" (node_id ∷ []) [] ≡ d = ground (arith, h') in
    subst (λ (x : ServiceDefinition). any (λ n. n == node_id) x.allowed_nodes ≡ true) same
      (ground (arith, eq_self node_id))
permitted_allowed node_id msg roster d (inr (e, f)) h =
    let h' = rw (e, f.listed) at h in
    let found : some f.entry ≡ some d =
      sym (find_service-append msg.service_id f.before f.after f.entry f.passed_over f.named)
      ∙ h' in
    let same : f.entry ≡ d = ground (arith, found) in
    subst (λ (x : ServiceDefinition). any (λ n. n == node_id) x.allowed_nodes ≡ true) same f.allowed
