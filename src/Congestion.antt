-- ===== src/Congestion.antt =====
-- Congestion control, crates/webrtc/congestion-control: the choice of a layer and the bandwidth estimate.
pub mod Selector
pub mod Signed
pub mod Estimator
pub mod Bounds
pub mod Best
pub mod Hysteresis
mod EstimatorTests
mod Tests
