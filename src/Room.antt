-- ===== src/Room.antt =====
-- The event-sourced room aggregate of crates/foundation/domain/src/lib.rs.
pub mod Model
pub mod History
pub mod Decide
pub mod Apply
pub mod Members
pub mod Allowed
pub mod Staff
pub mod Execute
pub mod Invariant
pub mod Replay
pub mod Idempotence
pub mod Gifts
pub mod Snapshot
pub mod RoundTrip
pub mod Authority
mod Tests
