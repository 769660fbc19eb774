-- ===== src/Rtp.antt =====
-- The RTP crate, crates/webrtc/rtp: sequence extension, header extensions and packets.
pub mod Sequence
pub mod Errors
pub mod Extension
pub mod ExtensionRoundTrip
pub mod Packet
pub mod HeaderLength
pub mod Prefix
pub mod Build
pub mod Rewrite
pub mod Kept
pub mod RewriteParse
mod Tests
pub mod Spelled
