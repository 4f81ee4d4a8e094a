-- ===== src/Lib.antt =====
-- A model of splinter (https://github.com/zapplebee/splinter), a platform for circuits of nodes
-- that run shared services. Paths below are those of the repository.
--
-- The parts and how they interact. A request to the admin service of a node is checked
-- (`submit`) and waits until the circuit's members are authorized peers; the authorization
-- manager tells it of each change. Then it is proposed (`propose_change`) to the admin services of
-- the members, and the two-phase commit engine of each node agrees with the others to accept or to
-- reject the proposal. Votes on an open circuit proposal take the same way. An accepted change is
-- carried out (`commit`): a proposal that is still voted on is kept open, one that is approved
-- becomes a circuit of the node's state and starts its services once all members are ready; each
-- change is an event in the mailbox. Services connect to a node and send messages on their
-- circuits, which the handlers route by the circuits and services that the node knows.
--
-- What each file models:
--   Prelude: tests with decidable equality, lists, sets and maps as lists read through
--     `contains` and `lookup`, and methods that change a state and may fail (`Exec`).
--   Collections/BiHashMap: `BiHashMap` of libsplinter/src/collections/mod.rs, two maps by key and
--     by value. Collections/Bijection: the proofs.
--   TwoPhase: libsplinter/src/consensus/two_phase/mod.rs and timing.rs, with the types of
--     libsplinter/src/consensus/mod.rs and protos/two_phase.proto. Timing: `Timeout`. Model: the
--     engine's state, the world with its log, and the environment. Coordination:
--     `start_coordination`, `complete_coordination`, `abort_proposal_if_timed_out`. Messages:
--     `handle_consensus_msg`. Updates: `handle_proposal`, `handle_proposal_update`. Run:
--     `handle_backlogged_verification_request`, `get_next_proposal` and `run`. The others hold
--     proofs: what a log justifies (History), what the engine keeps (Backlog, Kept, Invariant,
--     Handlers, Rounds, Loop, Safety), and courses of a coordination (Commit, Timeouts).
--   Network/Peers: `PeerMap` of libsplinter/src/network/mod.rs. Network/Redirects: the proofs.
--   Auth/Model: libsplinter/src/network/auth/mod.rs, `AuthorizationManager` with `next_state`,
--     `is_authorized`, `register_callback` and the listener of disconnections. Auth/Grants,
--     Auth/Calls and Auth/Others: the proofs.
--   Admin: libsplinter/src/admin/service/shared.rs with the messages of protos/admin.proto (Proto).
--     Validation: `validate_circuit`, `validate_create_circuit`, `validate_circuit_vote`,
--     `validate_circuit_management_payload`, `check_approved`. Shared: `submit`,
--     `propose_circuit`, `propose_vote`, `on_authorization_change`, `propose_change`, `rollback`.
--     Ready: `add_uninitialized_circuit`, `add_ready_member`, `initialize_services`, over the
--     part of the state that they touch. Commit: `commit`, over its part of the state. Update:
--     `update_splinter_state`. Restart: `stop_services`, `restart_services` and
--     `add_services_to_directory`. Messages and Events: libsplinter/src/admin/service/messages.rs.
--     OpenProposals: libsplinter/src/admin/service/open_proposals.rs. Mailbox:
--     libsplinter/src/admin/service/mailbox.rs with `get_events_since`. MailboxPages, MailboxEvents,
--     Reloaded, Restarted, Named, Conversions, OpenMap, UpdateLoops, Committed, Untouched, Undecided,
--     Accepted, Circuits, Approval, Peering, Allowed, Proposals, Signatures, Informed, Settled,
--     Waiting, ReadyHistory and ReadyCauses hold proofs.
--   Circuit: Service, Circuits and State, the circuits, nodes and services that a node knows, of
--     libsplinter/src/circuit/service.rs, mod.rs and directory.rs. Wire, Routing and Connections:
--     the handlers of libsplinter/src/circuit/handlers. Permitted, Connected, Passing and
--     Delivery: the proofs.
--   Storage/Sets: libsplinter/src/storage/sets/mem.rs. Ascending, Bounded, Recent and Pages: the
--     proofs.
--   Hex/Text: libsplinter/src/hex.rs. Hex/Pairs and Hex/RoundTrip: the proofs.
--   Each Tests or Examples file runs its component on concrete inputs.
--
-- What is a parameter. The proposal manager, the network sender and the protobuf reader of the
-- engine, and the network of the authorization manager: their answers may depend on all that
-- happened before. The key registry, the key permissions, the signature verifier, the hashes, the
-- peer connector and the orchestrator, for the admin service. Whether the files of the open
-- proposals and of the circuit directory can be written. The protobuf writers and the network, for
-- the handlers of circuit messages; the clock, for the mailbox.
--
-- Bounds. Time is a native natural number of milliseconds that the environment gives to each
-- round. The engine's loop recurses on the list of the rounds it is given, so there is no fuel:
-- every other loop of the source is over a finite collection and recurses on it, but
-- for the iterator of the mailbox: it is read with fuel, and fuel above the bound of the mailbox is
-- shown to be enough.
--
-- What is not modelled. Log output; poisoned locks; the texts of most error messages (one
-- constructor for each); errors when the stored open proposals are read, and the reading of
-- stored circuits and nodes, after which each node has an empty id until it is rebuilt with its
-- key. Of the admin service: the subscribers of events, and the consensus manager that connects
-- the service to the engine. Of the network: its methods over the mesh. Not modelled at all: the
-- mesh and the transports, the dispatch of messages to their handlers, the service processor,
-- scabbard, the daemon, the command lines and the example applications.
pub mod Prelude
pub mod Hex
pub mod Collections
pub mod Circuit
pub mod Storage
pub mod TwoPhase
pub mod Network
pub mod Auth
pub mod Admin
