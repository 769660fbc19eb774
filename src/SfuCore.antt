-- ===== src/SfuCore.antt =====
-- The forwarding unit, crates/webrtc/sfu-core: its data, the down-tracks and the room that holds them.
pub mod Model
pub mod DownTrack
pub mod Forward
pub mod Outputs
pub mod Room
pub mod Routing
pub mod Consistency
pub mod Tracks
pub mod Subscribers
pub mod Unchanged
pub mod Handled
pub mod Reached
pub mod Throttle
mod RoomTests
pub mod Forwarding
pub mod Keyframes
pub mod Timestamps
mod Tests
