-- ===== src/Network.antt =====
-- libsplinter/src/network: the peers of a node.
pub mod Peers
pub mod Redirects
pub mod Tests
