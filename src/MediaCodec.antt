-- ===== src/MediaCodec.antt =====
-- Payload inspection, crates/webrtc/media-codec.
pub mod Inspect
pub mod Facts
mod Tests
