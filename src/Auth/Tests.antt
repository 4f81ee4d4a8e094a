-- ===== src/Auth/Tests.antt =====
-- Calls of the authorization manager at concrete peers.
use splinter.Prelude.{◌≡◌, refl, true, false, some, List, [], ◌∷◌, string_eq}
use splinter.Prelude.Map
use splinter.Prelude.Map.{lookup}
use splinter.Auth.Model.{
  current, new_authorizations, connect, trust_identifying, Network, Operation, transitioning,
  is_authorized, drain, drain_removals, next_state, start_connecting, identify, insert_state,
  remove_state, record_event, notify, register_callback,
}
use splinter.Auth.Grants.{is_granted, told_authorized}
use splinter.Auth.Others.{next_state-others}
use splinter.Auth.Calls.{after_calls, perform_all-grants}

-- A network that answers every call, with endpoints out of the process.
abbrev sample_network : Network
sample_network = record {
  get_peer_endpoint = λ es peer. some "tcp://beta";
  remove_connection = λ es peer. true;
  update_peer_id = λ es old new_peer. true;
  is_inproc = λ endpoint. false;
}

abbrev sample_calls : List Operation
sample_calls = transitioning "temp" connect ∷ transitioning "temp" (trust_identifying "beta") ∷ []

perform_all-grants_example :
    (is_granted sample_network "beta"
        (is_authorized "beta" (after_calls sample_network 0 sample_calls)).1.events
      ≡ true)
    × (told_authorized 0 "beta"
          (is_authorized "beta" (after_calls sample_network 0 sample_calls)).1.events
        ≡ true)
unfolding is_authorized drain drain_removals next_state start_connecting identify insert_state
    remove_state record_event notify register_callback lookup Map.insert Map.remove
perform_all-grants_example = perform_all-grants sample_network 0 "beta" sample_calls refl

next_state-others_example :
    current "gamma" (next_state sample_network "temp" connect new_authorizations).1
    ≡ current "gamma" (drain new_authorizations)
next_state-others_example =
    next_state-others sample_network "gamma" "temp" connect new_authorizations refl
