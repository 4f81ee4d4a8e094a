-- ===== src/Hex.antt =====
-- libsplinter/src/hex.rs: bytes as text in base 16.
pub mod Text
pub mod Pairs
pub mod RoundTrip
pub mod Examples
