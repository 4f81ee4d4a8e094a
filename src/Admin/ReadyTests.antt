-- ===== src/Admin/ReadyTests.antt =====
-- Members that become ready, at the sample circuit.
use splinter.Prelude.{◌↔◌, inl, some, arith, ◌≡◌, refl, true, List, [], ◌∷◌, string_eq, all, keep}
use splinter.Prelude.Sets
use splinter.Prelude.Sets.{contains, from_list, is_subset}
use splinter.Prelude.Map
use splinter.Prelude.Map.{lookup}
use splinter.Admin.Ready.{
  Orchestrator, ReadyState, ReadyStep, reported, committed, ready_steps, add_ready_member,
  add_uninitialized_circuit, initialize_services_if_members_ready, initialize_services,
  start_services, start_service, send_circuit_ready, is_ready,
}
use splinter.Prelude.{All}
use splinter.Admin.ReadyHistory.{IsJustReady}
use splinter.Admin.ReadyCauses.{past, ready_steps-IsJustReady}
use splinter.Prelude.Results.{collect}
use splinter.Admin.Messages.{
  proposal_from_proto, vote_record_from_proto, circuit_from_proto, service_from_proto,
  node_from_proto,
}
use splinter.Admin.Informed.{IsMissing}
use splinter.Admin.Waiting.{IsAwaited, ready_steps-IsMissing}
use splinter.Admin.Tests.{sample_proposal}

abbrev pub sample_orchestrator : Orchestrator
sample_orchestrator = record {
  supported_service_types = "scabbard" ∷ [];
  initialize_service = λ running definition arguments. true;
}

abbrev pub sample_ready : ReadyState
sample_ready = record {
  node_id = "alpha";
  uninitialized_circuits = [];
  running_services = [];
  circuit_ready = [];
}

abbrev sample_steps : List ReadyStep
sample_steps = reported "circuit" "beta" ∷ committed sample_proposal ∷ []

-- gamma reports, which is no member, and beta does not.
abbrev waiting_steps : List ReadyStep
waiting_steps = reported "circuit" "gamma" ∷ committed sample_proposal ∷ []

circuit_waits :
    IsAwaited sample_proposal (ready_steps sample_orchestrator waiting_steps sample_ready)
unfolding add_ready_member add_uninitialized_circuit initialize_services_if_members_ready is_ready
    lookup Map.insert Sets.insert contains from_list is_subset all
circuit_waits =
    (record { circuit = some sample_proposal; ready_members = "alpha" ∷ "gamma" ∷ [] }, refl, refl)

ready_steps-IsMissing_example :
    IsAwaited sample_proposal (ready_steps sample_orchestrator waiting_steps sample_ready)
    ↔ IsMissing "alpha" (past waiting_steps []) "circuit" sample_proposal
unfolding lookup
ready_steps-IsMissing_example =
    ready_steps-IsMissing sample_orchestrator waiting_steps sample_ready sample_proposal refl
      (inl refl) (omega arith)

-- After both steps the node runs its service, and the circuit waits no more.
sample_running :
    ((ready_steps sample_orchestrator sample_steps sample_ready).running_services
      ≡ record { circuit = "circuit"; service_id = "a000"; service_type = "scabbard" } ∷ [])
    × ((ready_steps sample_orchestrator sample_steps sample_ready).uninitialized_circuits ≡ [])
unfolding add_ready_member add_uninitialized_circuit initialize_services_if_members_ready
    initialize_services start_services start_service send_circuit_ready is_ready lookup Map.insert
    Map.remove Sets.insert contains from_list is_subset all keep proposal_from_proto collect
    vote_record_from_proto circuit_from_proto service_from_proto node_from_proto
sample_running = (refl, refl)

ready_steps-IsJustReady_example :
    All
      (IsJustReady "alpha" (past sample_steps []))
      (ready_steps sample_orchestrator sample_steps sample_ready).circuit_ready
ready_steps-IsJustReady_example =
    ready_steps-IsJustReady sample_orchestrator sample_steps sample_ready refl refl
