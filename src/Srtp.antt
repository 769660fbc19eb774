-- ===== src/Srtp.antt =====
-- SRTP, crates/webrtc/srtp: packet indexes, replay protection, and the protection of RTP and RTCP.
pub mod Errors
pub mod Keys
pub mod Replay
pub mod Context
pub mod Control
pub mod Crypt
pub mod Media
pub mod Paired
pub mod Exchange
pub mod Indexed
pub mod ControlExchange
pub mod Session
pub mod Authentic
mod SessionTests
pub mod Window
pub mod Index
mod Tests
