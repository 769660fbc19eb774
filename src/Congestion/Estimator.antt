-- ===== src/Congestion/Estimator.antt =====
-- `BandwidthEstimator`: crates/webrtc/congestion-control/src/estimator.rs. A `Duration` is a number of
-- nanoseconds.
use fluvora.Prelude.{
  ℕ, zero, suc, ◌+◌, ◌-◌, ◌/◌, ◌%◌, ◌^◌, min, max, ◌&&◌, ◌||◌, Option, none, some, List, [], ◌∷◌,
  ◌++◌, filter_map, length, is_empty, get_last?, head?, ltb, leb, ◌==◌, if◌then◌else◌,
}
use fluvora.Prelude.Int.{ℤ, pos}
use fluvora.Prelude.Words.{saturating_add, saturating_mul}
use fluvora.Rtcp.Model.{
  TwccStatus, not_received, received_small_delta, received_large_delta, TransportWideFeedback,
}
use fluvora.Congestion.Signed

pub record SentPacket : Type 0 where
  pub sequence_number : ℕ
  pub sent_at : ℕ
  pub size_bytes : ℕ

pub data BandwidthUsage : Type 0 where
  underusing normal overusing : BandwidthUsage

pub record Estimate : Type 0 where
  pub target_bitrate_bps : ℕ
  pub delivery_rate_bps : ℕ
  pub loss_per_mille : ℕ
  pub delay_trend_micros : ℤ
  pub usage : BandwidthUsage
  pub matched_packets : ℕ

pub record BandwidthEstimatorConfig : Type 0 where
  pub initial_bitrate_bps : ℕ
  pub minimum_bitrate_bps : ℕ
  pub maximum_bitrate_bps : ℕ
  pub history_packets : ℕ
  pub history_age : ℕ

pub record BandwidthEstimator : Type 0 where
  pub configuration : BandwidthEstimatorConfig
  pub history : List SentPacket
  pub target_bitrate_bps : ℕ
  pub delay_trend_micros : ℤ
  pub last_update : Option ℕ

-- `Ord::clamp`, which panics where the bounds are in the wrong order.
abbrev pub clamp : ℕ → ℕ → ℕ → ℕ
clamp low high value = if ltb value low then low else if ltb high value then high else value

unfoldable pub new_estimator : BandwidthEstimatorConfig → BandwidthEstimator
new_estimator c = record {
  configuration = c;
  history = [];
  target_bitrate_bps = clamp c.minimum_bitrate_bps c.maximum_bitrate_bps c.initial_bitrate_bps;
  delay_trend_micros = pos 0;
  last_update = none;
}

unfoldable pub expire_packets : ℕ → ℕ → List SentPacket → List SentPacket
expire_packets now age [] = []
expire_packets now age (p ∷ ps) =
    let rest = expire_packets now age ps in if ltb age (now - p.sent_at) then rest else p ∷ ps

abbrev pub pop_front : List SentPacket → List SentPacket
pop_front [] = []
pop_front (p ∷ ps) = ps

-- `while len >= bound { pop_front }`, as far as `fuel` rounds go: none where it still runs.
unfoldable pub drop_oldest : ℕ → ℕ → List SentPacket → Option (List SentPacket)
drop_oldest zero bound history = none
drop_oldest (suc fuel) bound history =
    let rest = drop_oldest fuel bound (pop_front history) in
    if leb bound (length history) then rest else some history

unfoldable pub expire_history : ℕ → BandwidthEstimator → BandwidthEstimator
unfolding expire_packets
expire_history now e = record e {
  history = expire_packets now e.configuration.history_age e.history;
}

abbrev pub record_sent :
    SentPacket → BandwidthEstimator → Option (List SentPacket) → Option BandwidthEstimator
record_sent packet e none = none
record_sent packet e (some history) = some (record e {
  history = if ltb 0 e.configuration.history_packets then history ++ (packet ∷ []) else history;
})

-- None where the loop has not ended after `fuel` rounds.
unfoldable pub register_sent : ℕ → BandwidthEstimator → SentPacket → Option BandwidthEstimator
unfolding expire_history
register_sent fuel e packet =
    let e' = expire_history packet.sent_at e in
    record_sent packet e' (drop_oldest fuel e'.configuration.history_packets e'.history)

pub record Observation : Type 0 where
  pub sent_at : ℕ
  pub size_bytes : ℕ
  pub received_at_micros : Option ℤ

-- The newest packet of the history with the sequence number.
abbrev pub find_last : ℕ → List SentPacket → Option SentPacket
find_last sequence_number [] = none
find_last sequence_number (p ∷ ps) = elim (find_last sequence_number ps) [
  | some q ↦ some q
  | none ↦ if p.sequence_number == sequence_number then some p else none
]

abbrev pub observe : Option SentPacket → Option ℤ → List Observation → List Observation
observe none ticks rest = rest
observe (some p) none rest =
    record { sent_at = p.sent_at; size_bytes = p.size_bytes; received_at_micros = none } ∷ rest
observe (some p) (some t) rest =
    record {
      sent_at = p.sent_at;
      size_bytes = p.size_bytes;
      received_at_micros = some (Signed.scale 250 t);
    }
    ∷ rest

-- The loop over the statuses, from an offset and a receive time on. There are at most 65,535
-- statuses on the wire; a larger offset counts as 0.
unfoldable pub match_statuses : List SentPacket → ℕ → ℕ → ℤ → List TwccStatus → List Observation
match_statuses history base offset ticks [] = []
match_statuses history base offset ticks (status ∷ statuses) =
    let sequence_number = (base + (if ltb offset (2 ^ 16) then offset else 0)) % 2 ^ 16 in
    let sent = find_last sequence_number history in
    elim status [
      | not_received ↦ observe sent none (match_statuses history base (offset + 1) ticks statuses)
      | received_small_delta delta ↦
          let ticks' = Signed.add ticks (pos delta) in
          observe sent (some ticks') (match_statuses history base (offset + 1) ticks' statuses)
      | received_large_delta delta ↦
          let ticks' = Signed.add ticks delta in
          observe sent (some ticks') (match_statuses history base (offset + 1) ticks' statuses)
    ]

unfoldable pub match_feedback : BandwidthEstimator → TransportWideFeedback → List Observation
unfolding match_statuses
match_feedback e feedback =
    match_statuses e.history feedback.base_sequence_number 0 (pos 0) feedback.statuses

pub record Metrics : Type 0 where
  pub delivery_rate_bps : ℕ
  pub loss_per_mille : ℕ
  pub delay_sample_micros : Option ℤ

-- A received observation with its time.
pub record Arrival : Type 0 where
  pub sent_at : ℕ
  pub size_bytes : ℕ
  pub received_at : ℤ

abbrev pub arrival : Observation → Option Arrival
arrival o = elim o.received_at_micros [
  | none ↦ none
  | some t ↦ some (record { sent_at = o.sent_at; size_bytes = o.size_bytes; received_at = t })
]

-- `i64::try_from(later.saturating_sub(earlier).as_micros()).unwrap_or(i64::MAX)`
abbrev pub span_micros : ℕ → ℕ → ℕ
span_micros later earlier = min ((later - earlier) / 1000) (2 ^ 63 - 1)

abbrev pub total_bytes : List Arrival → ℕ
total_bytes [] = 0
total_bytes (a ∷ rest) = a.size_bytes + total_bytes rest

abbrev pub rate_between : Option Arrival → Option Arrival → ℕ → ℕ
rate_between none last bytes = 0
rate_between (some first) none bytes = 0
rate_between (some first) (some last) bytes =
    let receive_span = Signed.saturating_sub last.received_at first.received_at in
    let span = max (Signed.max_with (span_micros last.sent_at first.sent_at) receive_span) 1 in
    min (saturating_mul 128 bytes 8000000 / span) (2 ^ 64 - 1)

unfoldable pub delivery_rate : List Arrival → ℕ
delivery_rate received = rate_between (head? received) (get_last? received) (total_bytes received)

-- The sum over the neighbours.
abbrev pub delay_sum : ℤ → List Arrival → ℤ
delay_sum sum [] = sum
delay_sum sum (a ∷ []) = sum
delay_sum sum (a ∷ b ∷ rest) =
    delay_sum
      (Signed.saturating_add sum (
        Signed.saturating_sub (Signed.saturating_sub b.received_at a.received_at)
          (pos (span_micros b.sent_at a.sent_at))))
      (b ∷ rest)

unfoldable pub delay_sample : List Arrival → Option ℤ
delay_sample received =
    if ltb 1 (length received)
    then some (Signed.divide (delay_sum (pos 0) received) (length received - 1))
    else none

unfoldable pub calculate_metrics : List Observation → Metrics
unfolding delivery_rate delay_sample
calculate_metrics observations =
    let received = filter_map arrival observations in
    let lost = length observations - length received in
    if is_empty observations
    then record { delivery_rate_bps = 0; loss_per_mille = 0; delay_sample_micros = none }
    else record {
      delivery_rate_bps = delivery_rate received;
      loss_per_mille = min (saturating_mul 64 lost 1000 / length observations) 65535;
      delay_sample_micros = delay_sample received;
    }

unfoldable pub classify : ℕ → ℤ → BandwidthUsage
classify loss_per_mille delay_trend_micros =
    if ltb 100 loss_per_mille || Signed.above delay_trend_micros 15000
    then overusing
    else if ltb loss_per_mille 20 && Signed.below delay_trend_micros 5000
    then underusing
    else normal

abbrev pub elapsed_millis : ℕ → Option ℕ → ℕ
elapsed_millis now none = 1000
elapsed_millis now (some last) = clamp 1 5000 ((now - last) / 1000000)

-- The target before it is clamped.
unfoldable pub moved_target : BandwidthEstimator → ℕ → ℕ → BandwidthUsage → ℕ
moved_target e now rate overusing =
    saturating_mul 64 (if ltb 0 rate then min e.target_bitrate_bps rate else e.target_bitrate_bps)
      85
    / 100
moved_target e now rate underusing =
    let per_second = max (e.target_bitrate_bps / 20) 10000 in
    let increase =
      min (saturating_mul 128 per_second (elapsed_millis now e.last_update) / 1000) (2 ^ 64 - 1) in
    let raised = saturating_add 64 e.target_bitrate_bps increase in
    if ltb 0 rate then min raised (saturating_mul 64 rate 11 / 10) else raised
moved_target e now rate normal = e.target_bitrate_bps

unfoldable pub update_target : ℕ → ℕ → BandwidthUsage → BandwidthEstimator → BandwidthEstimator
unfolding moved_target
update_target now rate usage e = record e {
  target_bitrate_bps =
      clamp e.configuration.minimum_bitrate_bps e.configuration.maximum_bitrate_bps
        (moved_target e now rate usage);
}

-- `(trend * 7 + sample) / 8`, the sum as an `i64`.
abbrev pub smooth : ℤ → Option ℤ → ℤ
smooth trend none = trend
smooth trend (some sample) =
    Signed.divide (Signed.wrap (Signed.add (Signed.scale 7 trend) sample)) 8

unfoldable pub process_feedback :
    BandwidthEstimator → ℕ → TransportWideFeedback → BandwidthEstimator × Estimate
unfolding expire_history match_feedback calculate_metrics classify update_target
process_feedback e now feedback =
    let e1 = expire_history now e in
    let observations = match_feedback e1 feedback in
    let metrics = calculate_metrics observations in
    let trend = smooth e1.delay_trend_micros metrics.delay_sample_micros in
    let usage = classify metrics.loss_per_mille trend in
    let e2 =
      update_target now metrics.delivery_rate_bps usage
        (record e1 { delay_trend_micros = trend }) in
    (
      record e2 { last_update = some now },
      record {
        target_bitrate_bps = e2.target_bitrate_bps;
        delivery_rate_bps = metrics.delivery_rate_bps;
        loss_per_mille = metrics.loss_per_mille;
        delay_trend_micros = trend;
        usage = usage;
        matched_packets = length observations;
      },
    )
