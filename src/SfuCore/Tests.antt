-- ===== src/SfuCore/Tests.antt =====
-- Runs of a down-track, and its theorems at concrete inputs.
use fluvora.Prelude.{ℕ, ◌+◌, ◌%◌, ◌^◌, ◌≡◌, refl, true, false, none, some, List, [], ◌∷◌, ok, arith}
use fluvora.SfuCore.Model.{
  vp8, video, PayloadInfo, PublishedTrack, Layer, SubscriptionConfig, ForwardedPacket,
  LayerSwitched,
}
use fluvora.SfuCore.DownTrack.{DownTrack, forwarded, new_down_track, rewrite_timestamp, retransmit}
use fluvora.SfuCore.Forward.{forward}
use fluvora.SfuCore.Forwarding.{Bounded, forward-Bounded}
use fluvora.SfuCore.Keyframes.{Allowed, Sent, forward-Sent}
use fluvora.SfuCore.Timestamps.{rewrite_timestamp-difference}

abbrev low_layer : Layer
low_layer = record { spatial = 0; temporal = 2 }

abbrev camera : PublishedTrack
camera = record {
  id = 1;
  owner = 10;
  kind = video;
  codec = vp8;
  clock_rate = 90000;
  payload_type = 96;
  encodings = record { ssrc = 3; rid = none; spatial_layer = 0; max_bitrate_bps = 300000 } ∷ [];
}

abbrev subscription : SubscriptionConfig
subscription = record {
  id = 5;
  subscriber = 20;
  track_id = 1;
  output_ssrc = 77;
  output_payload_type = 97;
  initial_layer = low_layer;
  initial_sequence_number = 65535;
  initial_timestamp = 1000;
  extension_rewrites = [];
}

abbrev keyframe : PayloadInfo
keyframe = record {
  start_of_frame = true;
  end_of_frame = true;
  keyframe = true;
  temporal_id = none;
  spatial_id = none;
}

abbrev fresh : DownTrack
fresh = new_down_track subscription camera 2 1000

abbrev input_packet : List ℕ
input_packet = 0x80 ∷ 96 ∷ 0 ∷ 1 ∷ 0 ∷ 0 ∷ 0 ∷ 2 ∷ 0 ∷ 0 ∷ 0 ∷ 3 ∷ 9 ∷ []

abbrev output_packet : ForwardedPacket
output_packet = record {
  subscriber = 20;
  subscription_id = 5;
  packet = 0x80 ∷ 97 ∷ 0xff ∷ 0xff ∷ 0 ∷ 0 ∷ 3 ∷ 0xe8 ∷ 0 ∷ 0 ∷ 0 ∷ 77 ∷ 9 ∷ [];
  layer = record { spatial = 0; temporal = 0 };
  keyframe = true;
  retransmission = false;
}

abbrev switch_event : LayerSwitched
switch_event = record { subscription_id = 5; switched_from = none; switched_to = 0 }

forward_run :
    (forward 0 camera 0 keyframe input_packet fresh).0
    ≡ ok (forwarded output_packet (some switch_event))
unfolding forward new_down_track
forward_run = refl

forward-Sent_example :
    Allowed camera 0 keyframe fresh
    × Sent 0 output_packet fresh (forward 0 camera 0 keyframe input_packet fresh).1
forward-Sent_example =
    forward-Sent 0 0 camera keyframe input_packet fresh output_packet (some switch_event)
      forward_run

fresh-Bounded : Bounded fresh
unfolding Bounded new_down_track
fresh-Bounded = omega arith

forward-Bounded_example :
    Bounded (forward 0 camera 0 keyframe input_packet fresh).1
    × Bounded (retransmit 5 (1 ∷ []) fresh).1
forward-Bounded_example =
    forward-Bounded 0 5 0 camera keyframe input_packet (1 ∷ []) fresh fresh-Bounded

abbrev running : DownTrack
running = record {
  configuration = subscription;
  target_layer = low_layer;
  selected_spatial = some 0;
  current_input_ssrc = some 3;
  input_timestamp_base = 4294967000;
  output_timestamp_base = 1000;
  last_output_timestamp = none;
  timestamp_step = 3000;
  next_sequence_number = 0;
  cache = [];
  cache_capacity = 2;
  cache_age = 1000;
}

rewrite_timestamp-difference_example :
    ((rewrite_timestamp 4294967200 false running).0 + 104) % 2 ^ 32
    ≡ ((rewrite_timestamp 104 false (rewrite_timestamp 4294967200 false running).1).0 + 4294967200)
      % 2 ^ 32
rewrite_timestamp-difference_example =
    rewrite_timestamp-difference running 3 4294967200 104 refl (omega arith) (omega arith)
      (omega arith)
