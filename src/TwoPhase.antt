-- ===== src/TwoPhase.antt =====
-- libsplinter/src/consensus/two_phase: the two-phase commit consensus engine.
pub mod Order
pub mod Timing
pub mod Model
pub mod Coordination
pub mod Messages
pub mod Updates
pub mod Run
pub mod Backlog
pub mod History
pub mod Kept
pub mod Invariant
pub mod Handlers
pub mod Rounds
pub mod Loop
pub mod Safety
pub mod Commit
pub mod Timeouts
pub mod Tests
