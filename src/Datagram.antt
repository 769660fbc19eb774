-- ===== src/Datagram.antt =====
-- The classification of datagrams on a shared socket: crates/webrtc/rtc-datagram.
pub mod Classify
pub mod Mux
mod Tests
