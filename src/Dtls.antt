-- ===== src/Dtls.antt =====
-- The DTLS adapter, crates/webrtc/dtls-adapter: what it hands to SRTP, and certificate fingerprints.
pub mod Errors
pub mod Keying
pub mod Mirrored
pub mod Fingerprint
pub mod Printed
mod Tests
