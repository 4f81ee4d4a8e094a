-- ===== src/Collections.antt =====
-- libsplinter/src/collections: the collections of the library.
pub mod BiHashMap
pub mod Bijection
pub mod Tests
