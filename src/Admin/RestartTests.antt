-- ===== src/Admin/RestartTests.antt =====
-- A restart of the node alpha with one circuit, whose other service runs at beta.
use text.Mathlib.TextEquality.{eq_iff}
use splinter.Prelude.{
  none, ◌≡◌, refl, sym, ap, ◌∙◌, String, true, [], ◌∷◌, ◌==◌, string_eq, any, arith, Bool-cases,
  inl, inr,
}
use splinter.Prelude.Exec.{ok}
use splinter.Prelude.Map.{lookup, insert}
use splinter.Prelude.Sets.{contains}
use splinter.Circuit.Service
use splinter.Circuit.Circuits
use splinter.Circuit.Circuits.{new_admin, roster_list}
use splinter.Circuit.State.{SplinterState, add_service}
use splinter.Admin.Ready.{ServiceDefinition, ReadyState, definition_eq}
use splinter.Admin.Committed.{built}
use splinter.Admin.Restart.{
  restore_circuits, restore_services, restore_service, stop_services, restart_services,
  add_services_to_directory,
}
use splinter.Admin.Reloaded.{with_named_nodes, add_circuits}
use splinter.Admin.Restarted.{
  runs_at, add_services_to_directory-add_circuits, stop-restart_services,
}
use splinter.Admin.Update.{update_splinter_state}
use splinter.Admin.Named.{IsNamed, update_splinter_state-IsNamed}
use splinter.Admin.Tests.{sample_circuit}
use splinter.Admin.ReadyTests.{sample_orchestrator, sample_ready}

abbrev beta : Service.SplinterNode
beta = record { id = "beta"; endpoints = "tcp://beta" ∷ [] }

abbrev stored_state : SplinterState
stored_state = record {
  circuit_directory = record {
    nodes = ("beta", beta) ∷ [];
    circuits = ("circuit", built sample_circuit) ∷ [];
    admin_circuit = new_admin;
  };
  service_directory = [];
}

stored_state-IsNamed : IsNamed stored_state.circuit_directory
unfolding lookup
stored_state-IsNamed id n h = elim (Bool-cases ("beta" == id)) [
  | inl e ↦
      (let h' = rw e at h in
        let same : beta ≡ n = ground (arith, h') in
        sym (ap (λ (x : Service.SplinterNode). x.id) same) ∙ (eq_iff "beta" id).0 e)
  | inr e ↦ (let h' = rw e at h in cc h')
]

-- the state as a restart reads it: the node has no id of its own
abbrev reloaded_state : SplinterState
reloaded_state = record {
  circuit_directory = record {
    nodes = ("beta", record { id = ""; endpoints = "tcp://beta" ∷ [] }) ∷ [];
    circuits = ("circuit", built sample_circuit) ∷ [];
    admin_circuit = new_admin;
  };
  service_directory = [];
}

-- The service at beta is added with beta's id.
reloaded_services :
    (add_services_to_directory "alpha" reloaded_state).1.service_directory
    ≡ (
      record { circuit_name = "circuit"; service_id = "b000" },
      record { service_id = "b000"; peer_id = none; node = beta },
    )
      ∷ []
unfolding add_services_to_directory restore_circuits restore_services restore_service any lookup
    add_service insert Circuits.build_definition
reloaded_services = refl

add_services_to_directory-add_circuits_example :
    (add_circuits
        (λ d. true)
        "alpha"
        (("circuit", built sample_circuit) ∷ [])
        (with_named_nodes reloaded_state)
      ≡ (
        (add_services_to_directory "alpha" reloaded_state).0,
        with_named_nodes (add_services_to_directory "alpha" reloaded_state).1,
      ))
    × ((add_services_to_directory "alpha" reloaded_state).1.circuit_directory
        ≡ reloaded_state.circuit_directory)
add_services_to_directory-add_circuits_example =
    add_services_to_directory-add_circuits (λ d. true) "alpha" reloaded_state

stop-restart_services_example :
    (s' : ReadyState) × (restart_services sample_orchestrator
        (("circuit", built sample_circuit) ∷ [])
        (stop_services (λ d. true) sample_ready).1
      ≡ (ok tt, s'))
    × ((d : ServiceDefinition)
        → contains s'.running_services d
          ≡ any
              (λ (c : String × Circuits.Circuit).
                any
                  (runs_at sample_orchestrator.supported_service_types "alpha" c.0 d)
                  (roster_list c.1.roster))
              (("circuit", built sample_circuit) ∷ []))
stop-restart_services_example =
    stop-restart_services sample_orchestrator (λ d. true) (("circuit", built sample_circuit) ∷ [])
      sample_ready (λ running d arguments. refl)

update_splinter_state-IsNamed_example :
    IsNamed
      (update_splinter_state (λ d. true) "alpha" sample_circuit stored_state).1.circuit_directory
update_splinter_state-IsNamed_example =
    update_splinter_state-IsNamed (λ d. true) "alpha" sample_circuit stored_state
      stored_state-IsNamed
