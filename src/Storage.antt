-- ===== src/Storage.antt =====
-- libsplinter/src/storage/sets: the ordered sets behind the event mailbox.
pub mod Sets
pub mod Ascending
pub mod Bounded
pub mod Recent
pub mod Pages
