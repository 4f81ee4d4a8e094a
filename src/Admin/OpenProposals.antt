-- ===== src/Admin/OpenProposals.antt =====
-- libsplinter/src/admin/service/open_proposals.rs: the circuit proposals that are voted on, kept as
-- messages. Whether the storage takes a registry is a parameter.
use splinter.Prelude.{String, Bool, Option, none, some, List, string_eq, if◌then◌else◌}
use splinter.Prelude.Exec.{Result, ok, err}
use splinter.Prelude.Map
use splinter.Prelude.Map.{lookup, contains_key}
use splinter.Admin.Proto
use splinter.Admin.Messages
use splinter.Admin.Messages.{MarshallingError, Converted, proposal_from_proto, proposal_into_proto}

-- `ProposalRegistry`, a `BTreeMap` by circuit id
abbrev pub ProposalRegistry : Type 0
ProposalRegistry = List (String × Messages.CircuitProposal)

pub data OpenProposalError : Type 0 where
  write_error : OpenProposalError
  invalid_message : MarshallingError → OpenProposalError

abbrev pub Opened : Type 0
Opened = Result OpenProposalError (Option Proto.CircuitProposal)

-- a message read back
abbrev pub opened : Converted Proto.CircuitProposal → Opened
opened (ok p) = ok (some p)
opened (err e) = err (invalid_message e)

abbrev pub stored_as_proto : Option Messages.CircuitProposal → Opened
stored_as_proto none = ok none
stored_as_proto (some x) = opened (proposal_into_proto x)

-- a converted proposal is inserted
abbrev pub registry_insert :
    String → Converted Messages.CircuitProposal → ProposalRegistry → Opened × ProposalRegistry
registry_insert id (err e) r = (err (invalid_message e), r)
registry_insert id (ok x) r = (stored_as_proto (lookup id r), Map.insert id x r)

unfoldable pub registry_add : Proto.CircuitProposal → ProposalRegistry → Opened × ProposalRegistry
registry_add p r = registry_insert p.circuit_id (proposal_from_proto p) r

unfoldable pub registry_remove : String → ProposalRegistry → Opened × ProposalRegistry
registry_remove id r = (stored_as_proto (lookup id r), Map.remove id r)

unfoldable pub get_proposal : String → ProposalRegistry → Opened
get_proposal id r = stored_as_proto (lookup id r)

unfoldable pub has_proposal : String → ProposalRegistry → Bool
has_proposal id r = contains_key id r

module _ (can_write : ProposalRegistry → Bool) where
  -- `write_open_proposals()?`, then the result
  abbrev pub write_then : Opened × ProposalRegistry → Opened × ProposalRegistry
  write_then (result, r) = (if can_write r then result else err write_error, r)

  unfoldable pub add_proposal : Proto.CircuitProposal → ProposalRegistry → Opened × ProposalRegistry
  add_proposal p r = write_then (registry_add p r)

  unfoldable pub remove_proposal : String → ProposalRegistry → Opened × ProposalRegistry
  remove_proposal id r = write_then (registry_remove id r)
