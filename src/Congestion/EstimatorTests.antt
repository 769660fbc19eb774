-- ===== src/Congestion/EstimatorTests.antt =====
-- Runs of the bandwidth estimator, and its theorems at concrete inputs.
use fluvora.Prelude.{◌≡◌, refl, none, some, [], ◌∷◌, arith}
use fluvora.Prelude.Int.{pos}
use fluvora.Rtcp.Model.{TransportWideFeedback, not_received, received_small_delta}
use fluvora.Congestion.Estimator.{
  SentPacket, BandwidthEstimatorConfig, BandwidthEstimator, register_sent, process_feedback,
  expire_packets, match_statuses, delivery_rate, delay_sample, moved_target,
}
use fluvora.Congestion.Bounds.{
  WithinBounds, process_feedback-WithinBounds, register_sent-WithinBounds, register_sent-runs,
}

abbrev limits : BandwidthEstimatorConfig
limits = record {
  initial_bitrate_bps = 800000;
  minimum_bitrate_bps = 50000;
  maximum_bitrate_bps = 20000000;
  history_packets = 2;
  history_age = 10000000000;
}

abbrev sent : SentPacket
sent = record { sequence_number = 7; sent_at = 1000; size_bytes = 1200 }

abbrev estimator : BandwidthEstimator
estimator = record {
  configuration = limits;
  history = sent ∷ [];
  target_bitrate_bps = 800000;
  delay_trend_micros = pos 0;
  last_update = none;
}

abbrev report : TransportWideFeedback
report = record {
  sender_ssrc = 1;
  media_ssrc = 2;
  base_sequence_number = 7;
  reference_time = pos 0;
  feedback_packet_count = 0;
  statuses = not_received ∷ received_small_delta 4 ∷ [];
}

estimator-WithinBounds : WithinBounds estimator
estimator-WithinBounds = record { above = omega arith; below = omega arith; few = omega arith }

-- The only matched packet is lost, so that the target falls by 15 per cent.
process_lost : (process_feedback estimator 2000 report).0.target_bitrate_bps ≡ 680000
unfolding process_feedback expire_packets match_statuses delivery_rate delay_sample moved_target
process_lost = refl

process_feedback-WithinBounds_example :
    WithinBounds (process_feedback estimator 2000 report).0
    × ((process_feedback estimator 2000 report).1.target_bitrate_bps
        ≡ (process_feedback estimator 2000 report).0.target_bitrate_bps)
process_feedback-WithinBounds_example =
    process_feedback-WithinBounds estimator 2000 report (omega arith) estimator-WithinBounds

register_sent-WithinBounds_example :
    (e' : BandwidthEstimator) × (register_sent 2 estimator sent ≡ some e') × WithinBounds e'
register_sent-WithinBounds_example =
    register_sent-WithinBounds estimator sent 2 (omega arith) (omega arith) estimator-WithinBounds

abbrev unremembering : BandwidthEstimator
unremembering = record estimator {
  configuration = record limits { history_packets = 0 };
  history = [];
}

register_sent-runs_example : register_sent 1000 unremembering sent ≡ none
register_sent-runs_example = register_sent-runs unremembering sent 1000 refl
