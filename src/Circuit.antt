-- ===== src/Circuit.antt =====
-- libsplinter/src/circuit: the circuits of a node, its services, and the messages between them.
pub mod Service
pub mod Circuits
pub mod State
pub mod Wire
pub mod Routing
pub mod Connections
pub mod Connected
pub mod Permitted
pub mod Passing
pub mod Delivery
pub mod Tests
