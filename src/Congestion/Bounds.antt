-- ===== src/Congestion/Bounds.antt =====
-- The bounds of `BandwidthEstimator`: crates/webrtc/congestion-control/src/estimator.rs.
use fluvora.Prelude.{
  ℕ, zero, suc, ◌≤◌, ◌<◌, ◌≡◌, refl, true, false, none, some, List, [], ◌∷◌, ◌++◌, length, ltb, leb,
  arith, length-append, Bool-cases, inl, inr,
}
use fluvora.Rtcp.Model.{TransportWideFeedback}
use fluvora.Congestion.Estimator.{
  SentPacket, BandwidthEstimator, clamp, pop_front, drop_oldest, expire_packets, expire_history,
  register_sent, update_target, process_feedback,
}

-- The target stays between the floor and the ceiling, and the history is bounded.
pub record WithinBounds (e : BandwidthEstimator) : Type 0 where
  pub above : e.configuration.minimum_bitrate_bps ≤ e.target_bitrate_bps
  pub below : e.target_bitrate_bps ≤ e.configuration.maximum_bitrate_bps
  pub few : length e.history ≤ e.configuration.history_packets

clamp-bounds : (low high v : ℕ) → low ≤ high → (low ≤ clamp low high v) × (clamp low high v ≤ high)
clamp-bounds low high v h = (ground arith, ground arith)

length-expire_packets :
    (now age : ℕ) (ps : List SentPacket) → length (expire_packets now age ps) ≤ length ps
unfolding expire_packets
length-expire_packets now age [] = omega arith
length-expire_packets now age (p ∷ ps) = ground (arith, length-expire_packets now age ps)

-- Feedback keeps the bounds, whatever it reports and whenever it comes, where the floor is not above
-- the ceiling, as `clamp` requires; and the estimate that it returns carries the new target.
pub process_feedback-WithinBounds :
    (e : BandwidthEstimator) (now : ℕ) (feedback : TransportWideFeedback)
    → e.configuration.minimum_bitrate_bps ≤ e.configuration.maximum_bitrate_bps
    → WithinBounds e
    → WithinBounds (process_feedback e now feedback).0
      × ((process_feedback e now feedback).1.target_bitrate_bps
          ≡ (process_feedback e now feedback).0.target_bitrate_bps)
unfolding process_feedback update_target expire_history
process_feedback-WithinBounds e now feedback order b =
    let (low, high) =
      clamp-bounds e.configuration.minimum_bitrate_bps e.configuration.maximum_bitrate_bps _
        order in
    let shorter = length-expire_packets now e.configuration.history_age e.history in
    (record { above = low; below = high; few = omega (arith, shorter, b.few) }, refl)

drop_oldest-ends :
    (fuel bound : ℕ) (history : List SentPacket)
    → 1 ≤ bound
    → length history < fuel
    → (left : List SentPacket) × (drop_oldest fuel bound history ≡ some left)
      × (length left < bound)
unfolding drop_oldest
drop_oldest-ends zero bound history pos enough = absurd (omega arith)
drop_oldest-ends (suc fuel) bound [] pos enough =
    let test : leb bound 0 ≡ false = ground arith in ([], rw test refl, omega arith)
drop_oldest-ends (suc fuel) bound (p ∷ ps) pos enough =
    elim (Bool-cases (leb bound (suc (length ps)))) [
      | inl e ↦
          let (left, ends, few) = drop_oldest-ends fuel bound ps pos (omega arith) in
          (left, rw e ends, few)
      | inr e ↦ (p ∷ ps, rw e refl, ground arith)
    ]

-- With a history of at least one packet, recording a packet ends within one round more than there are
-- packets in the history, and keeps the bounds.
pub register_sent-WithinBounds :
    (e : BandwidthEstimator) (packet : SentPacket) (fuel : ℕ)
    → 1 ≤ e.configuration.history_packets
    → length e.history < fuel
    → WithinBounds e
    → (e' : BandwidthEstimator) × (register_sent fuel e packet ≡ some e') × WithinBounds e'
unfolding register_sent expire_history
register_sent-WithinBounds e packet fuel room enough b =
    let shorter = length-expire_packets packet.sent_at e.configuration.history_age e.history in
    let history = expire_packets packet.sent_at e.configuration.history_age e.history in
    let (left, ends, few) =
      drop_oldest-ends fuel e.configuration.history_packets history room (omega (arith, shorter)) in
    let test : ltb 0 e.configuration.history_packets ≡ true = ground arith in
    (
      record e { history = left ++ (packet ∷ []) },
      rw (ends, test) refl,
      record {
        above = b.above;
        below = b.below;
        few = omega (arith, length-append left (packet ∷ []), few);
      },
    )

drop_oldest-runs : (fuel : ℕ) (history : List SentPacket) → drop_oldest fuel 0 history ≡ none
unfolding drop_oldest
drop_oldest-runs zero history = refl
drop_oldest-runs (suc fuel) history =
    let test : leb 0 (length history) ≡ true = ground arith in
    rw test (drop_oldest-runs fuel (pop_front history))

-- With a history of no packets, which the code tests for behind the loop, recording a packet never
-- ends: after any number of rounds the loop still runs.
pub register_sent-runs :
    (e : BandwidthEstimator) (packet : SentPacket) (fuel : ℕ)
    → e.configuration.history_packets ≡ 0
    → register_sent fuel e packet ≡ none
unfolding register_sent expire_history
register_sent-runs e packet fuel h =
    rw
      (
        h,
        drop_oldest-runs fuel (expire_packets packet.sent_at e.configuration.history_age e.history),
      )
      refl
