-- ===== src/Admin/OpenMap.antt =====
-- The map from circuit ids to protobuf proposals that the open proposals of
-- libsplinter/src/admin/service/open_proposals.rs stand for.
use splinter.Prelude.{
  String, ◌≡◌, refl, ap, ◌∙◌, Bool, true, false, Option, none, some, ◌==◌, string_eq, if◌then◌else◌,
}
use splinter.Prelude.Exec.{ok, err}
use splinter.Prelude.Map
use splinter.Prelude.Map.{lookup, lookup-insert, lookup-remove}
use splinter.Admin.Proto
use splinter.Admin.Messages
use splinter.Admin.Messages.{
  MarshallingError, proposal_from_proto, proposal_into_proto, circuit_into_proto,
}
use splinter.Admin.Conversions.{proposal_from_proto_iff}
use splinter.Admin.OpenProposals.{
  ProposalRegistry, invalid_message, stored_as_proto, registry_add, registry_remove, get_proposal,
  add_proposal, remove_proposal,
}

-- What the registry stands for.
abbrev pub proto_of : Messages.CircuitProposal → Option Proto.CircuitProposal
proto_of x = elim (proposal_into_proto x) [ ok p ↦ some p | err e ↦ none ]

abbrev pub abstract_of : Option Messages.CircuitProposal → Option Proto.CircuitProposal
abstract_of none = none
abstract_of (some x) = proto_of x

abbrev pub abstract_map : ProposalRegistry → String → Option Proto.CircuitProposal
abstract_map r id = abstract_of (lookup id r)

into_proto_ok :
    (x : Messages.CircuitProposal) → (p : Proto.CircuitProposal) × (proposal_into_proto x ≡ ok p)
unfolding proposal_into_proto circuit_into_proto
into_proto_ok x = (_, refl)

pub stored-abstract_map :
    (o : Option Messages.CircuitProposal) → stored_as_proto o ≡ ok (abstract_of o)
unfolding proposal_into_proto circuit_into_proto
stored-abstract_map none = refl
stored-abstract_map (some x) = refl

pub get_proposal-abstract_map :
    (id : String) (r : ProposalRegistry) → get_proposal id r ≡ ok (abstract_map r id)
unfolding get_proposal
get_proposal-abstract_map id r = stored-abstract_map (lookup id r)

-- What adding a proposal does to the map.
abbrev pub added :
    Proto.CircuitProposal
    → (String → Option Proto.CircuitProposal)
    → String
    → Option Proto.CircuitProposal
added p f id = if p.circuit_id == id then some p else f id

abbrev pub removed :
    String → (String → Option Proto.CircuitProposal) → String → Option Proto.CircuitProposal
removed id f other = if id == other then none else f other

insert_case :
    (b : Bool) (x : Messages.CircuitProposal) (p : Proto.CircuitProposal)
    (o : Option Messages.CircuitProposal)
    → proto_of x ≡ some p
    → abstract_of (if b then some x else o) ≡ (if b then some p else abstract_of o)
insert_case true x p o h = h
insert_case false x p o h = refl

pub abstract_map-insert :
    (p : Proto.CircuitProposal) (x : Messages.CircuitProposal) (r : ProposalRegistry) (id : String)
    → proposal_into_proto x ≡ ok p
    → abstract_map (Map.insert p.circuit_id x r) id ≡ added p (abstract_map r) id
abstract_map-insert p x r id e =
    ap abstract_of (lookup-insert p.circuit_id id x r)
    ∙ insert_case (p.circuit_id == id) x p (lookup id r) (rw (e, proto_of) refl)

remove_case :
    (b : Bool) (o : Option Messages.CircuitProposal)
    → abstract_of (if b then none else o) ≡ (if b then none else abstract_of o)
remove_case true o = refl
remove_case false o = refl

pub abstract_map-remove :
    (id other : String) (r : ProposalRegistry)
    → abstract_map (Map.remove id r) other ≡ removed id (abstract_map r) other
abstract_map-remove id other r =
    ap abstract_of (lookup-remove id other r) ∙ remove_case (id == other) (lookup other r)

-- what adding returns and leaves
abbrev pub IsAdded : (ProposalRegistry → Bool) → Proto.CircuitProposal → ProposalRegistry → Type 0
IsAdded can_write p r =
    ((add_proposal can_write p r).0 ≡ ok (abstract_map r p.circuit_id))
    × ((id : String) → abstract_map (add_proposal can_write p r).1 id ≡ added p (abstract_map r) id)

module _ (can_write : ProposalRegistry → Bool)
    (writes : (r : ProposalRegistry) → can_write r ≡ true) where
  add_proposal-IsAdded :
      (p : Proto.CircuitProposal) (x : Messages.CircuitProposal) (r : ProposalRegistry)
      → proposal_from_proto p ≡ ok x
      → IsAdded can_write p r
  unfolding add_proposal registry_add
  add_proposal-IsAdded p x r e =
      let back = (proposal_from_proto_iff p x).0 e in
      (
        rw e (
            rw (writes (Map.insert p.circuit_id x r))
              (stored-abstract_map (lookup p.circuit_id r))),
        λ id. rw e (abstract_map-insert p x r id back),
      )

  remove_proposal_lem :
      (id : String) (r : ProposalRegistry)
      → ((remove_proposal can_write id r).0 ≡ ok (abstract_map r id))
        × ((other : String)
            → abstract_map (remove_proposal can_write id r).1 other
              ≡ removed id (abstract_map r) other)
  unfolding remove_proposal registry_remove
  remove_proposal_lem id r = (
    rw (writes (Map.remove id r)) (stored-abstract_map (lookup id r)),
    λ other. abstract_map-remove id other r,
  )

-- If the storage takes every registry, the operations on the registry are those on the map that it
-- stands for: reading, adding a proposal that converts into a message, and removing; each returns
-- what the map held. A proposal that does not convert is refused and changes nothing.
pub open_proposals-refine :
    (can_write : ProposalRegistry → Bool) (r : ProposalRegistry)
    → ((s : ProposalRegistry) → can_write s ≡ true)
    → ((id : String) → get_proposal id r ≡ ok (abstract_map r id))
      × ((p : Proto.CircuitProposal) (x : Messages.CircuitProposal)
          → proposal_from_proto p ≡ ok x
          → IsAdded can_write p r)
      × ((p : Proto.CircuitProposal) (e : MarshallingError)
          → proposal_from_proto p ≡ err e
          → add_proposal can_write p r ≡ (err (invalid_message e), r))
      × ((id : String)
          → ((remove_proposal can_write id r).0 ≡ ok (abstract_map r id))
            × ((other : String)
                → abstract_map (remove_proposal can_write id r).1 other
                  ≡ removed id (abstract_map r) other))
unfolding add_proposal registry_add
open_proposals-refine can_write r writes = (
  λ id. get_proposal-abstract_map id r,
  λ p x h. add_proposal-IsAdded can_write writes p x r h,
  λ p e h. rw h (rw (writes r) refl),
  λ id. remove_proposal_lem can_write writes id r,
)
