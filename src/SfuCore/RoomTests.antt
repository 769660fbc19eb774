-- ===== src/SfuCore/RoomTests.antt =====
-- Runs of the forwarding room, and its theorems at concrete inputs.
use fluvora.Prelude.{nat_eq}
use fluvora.Prelude.{ℕ, ◌≡◌, refl, map, List, [], ◌∷◌, none, ok, err}
use fluvora.Prelude.Maps.{lookup, insert, remove}
use fluvora.Prelude.Sets
use fluvora.SfuCore.Model.{opus, audio, PublishedTrack, SubscriptionConfig}
use fluvora.SfuCore.DownTrack.{DownTrack}
use fluvora.SfuCore.Outputs.{RoomConfig, duplicate_track}
use fluvora.SfuCore.Room.{
  Room, new, publish, unpublish, unpublish_found, remove_all, remove_keys, subscribe, maybe_pli,
  check_publish, check_subscribe, index_encodings, encoding, validate_track, subscribe_to,
}
use fluvora.SfuCore.Routing.{handle_rtp, handle_rtcp, expand_nack}
use fluvora.SfuCore.Consistency.{Consistent}
use fluvora.SfuCore.Reached.{
  Reached, Isolated, created, published, subscribed, rtp_handled, Reached-Consistent,
  handle_rtcp-Isolated,
}
use fluvora.SfuCore.Throttle.{
  Request, Call, ask, withdraw, offer, sent, gone, requested, Spaced, requested-Spaced,
}

abbrev small : RoomConfig
small = record {
  max_tracks = 1;
  max_subscriptions = 2;
  retransmission_cache_packets = 4;
  retransmission_cache_age = 1000;
  pli_throttle = 500;
}

abbrev camera : PublishedTrack
camera = record {
  id = 1;
  owner = 10;
  kind = audio;
  codec = opus;
  clock_rate = 48000;
  payload_type = 111;
  encodings = record { ssrc = 77; rid = none; spatial_layer = 0; max_bitrate_bps = 1 } ∷ [];
}

abbrev viewer : SubscriptionConfig
viewer = record {
  id = 5;
  subscriber = 20;
  track_id = 1;
  output_ssrc = 99;
  output_payload_type = 111;
  initial_layer = record { spatial = 0; temporal = 0 };
  initial_sequence_number = 1;
  initial_timestamp = 0;
  extension_rewrites = [];
}

abbrev seconds : List (ℕ × DownTrack) → List DownTrack
seconds entries = map (λ e. e.1) entries

abbrev packet : List ℕ
packet = 0x80 ∷ 111 ∷ 0 ∷ 9 ∷ 0 ∷ 0 ∷ 0 ∷ 1 ∷ 0 ∷ 0 ∷ 0 ∷ 77 ∷ 42 ∷ []

abbrev watched : Room
watched = (subscribe (publish (new small) camera).0 viewer).0

publish_again : (publish (publish (new small) camera).0 camera).1 ≡ err (duplicate_track 1)
unfolding publish check_publish new index_encodings insert lookup Sets.contains Sets.insert
    validate_track
publish_again = refl

subscribe_once : (subscribe (publish (new small) camera).0 viewer).1 ≡ ok tt
unfolding publish check_publish subscribe check_subscribe new index_encodings insert lookup encoding
    Sets.contains Sets.insert validate_track subscribe_to
subscribe_once = refl

watched-Reached : Reached seconds small watched
watched-Reached = subscribed _ viewer (published _ camera created)

Reached-Consistent_example : Consistent (handle_rtp seconds watched 3 10 packet).0
Reached-Consistent_example =
    Reached-Consistent seconds small (handle_rtp seconds watched 3 10 packet).0
      (rtp_handled watched 3 10 packet watched-Reached)

handle_rtcp-Isolated_example : Isolated 21 watched (handle_rtcp watched 3 21 packet).0
handle_rtcp-Isolated_example =
    handle_rtcp-Isolated watched 3 21 packet
      (Reached-Consistent seconds small watched watched-Reached)

abbrev at : ℕ → Request
at now = record { now = now; track_id = 1; media_ssrc = 77 }

-- The request at 1400 is too early. Between 1500 and 1600 the track goes and comes back.
abbrev asked : List Call
asked =
    offer camera
    ∷ ask (at 1000)
    ∷ ask (at 1400)
    ∷ ask (at 1500)
    ∷ withdraw 1
    ∷ offer camera
    ∷ ask (at 1600)
    ∷ []

spaced_run :
    requested (new small) asked
    ≡ sent (at 1000) ∷ sent (at 1500) ∷ gone (77 ∷ []) ∷ sent (at 1600) ∷ []
unfolding requested maybe_pli new lookup insert remove publish unpublish remove_all remove_keys
    check_publish validate_track index_encodings Sets.insert Sets.contains unpublish_found
spaced_run = refl

requested-Spaced_example :
    Spaced (new small).configuration.pli_throttle (requested (new small) asked)
requested-Spaced_example = requested-Spaced asked (new small)

-- An entry that names the next four packets, and one that repeats a packet.
expand_nack_run :
    expand_nack (
      record { packet_id = 65534; lost_packet_bitmask = 5 }
      ∷ record { packet_id = 1; lost_packet_bitmask = 0 }
      ∷ [])
    ≡ 65534 ∷ 65535 ∷ 1 ∷ []
unfolding expand_nack Sets.contains
expand_nack_run = refl
