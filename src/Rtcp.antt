-- ===== src/Rtcp.antt =====
-- RTCP, crates/webrtc/rtcp: compound packets, reports, descriptions and feedback.
pub mod Model
pub mod Twcc
pub mod Parse
pub mod Encode
pub mod Fits
pub mod Reports
pub mod Descriptions
pub mod Feedback
pub mod Statuses
pub mod Compound
mod Loops
mod Tests
