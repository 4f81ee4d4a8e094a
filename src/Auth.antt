-- ===== src/Auth.antt =====
-- libsplinter/src/network/auth/mod.rs: the authorization of the peers of a node.
pub mod Model
pub mod Grants
pub mod Calls
pub mod Others
pub mod Tests
