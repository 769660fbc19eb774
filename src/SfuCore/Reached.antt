-- ===== src/SfuCore/Reached.antt =====
-- The rooms that the operations of crates/webrtc/sfu-core/src/room.rs reach.
use fluvora.Prelude.{nat_eq}
use fluvora.Prelude.{
  ℕ, ◌≡◌, ◌≢◌, refl, sym, ap, ◌∙◌, Option, none, some, List, [], ◌∷◌, ◌==◌, ==_iff, Result, ok, err,
  arith, Bool-cases, inl, inr,
}
use fluvora.Prelude.Maps.{lookup}
use fluvora.Rtcp.Model.{RtcpPacket, RtcpError}
use fluvora.Rtcp.Parse.{parse_compound}
use fluvora.SfuCore.Model.{PublishedTrack, Layer, SubscriptionConfig}
use fluvora.SfuCore.Outputs.{RoomConfig}
use fluvora.SfuCore.DownTrack.{DownTrack, retransmit}
use fluvora.SfuCore.Room.{
  Room, maybe_pli, set_target_layer, publish, unpublish, subscribe, unsubscribe, new, throttled,
}
use fluvora.SfuCore.Routing.{
  handle_rtp, if_subscriber, authorized_at, authorized_down_track, expand_nack, handle_nack,
  handle_pli, handle_packet, handle_packets, handle_parsed, handle_rtcp,
}
use fluvora.SfuCore.Consistency.{Consistent, some-injective, insert-same}
use fluvora.SfuCore.Tracks.{publish-Consistent}
use fluvora.SfuCore.Subscribers.{
  replace-Consistent, remove_subscription-Consistent, unpublish-Consistent, subscribe-Consistent,
}
use fluvora.SfuCore.Unchanged.{retransmit-configuration}
use fluvora.SfuCore.Handled.{
  maybe_pli-Consistent, set_target_layer-Consistent, handle_rtp-Consistent,
}

-- A down-track of the subscriber, where it stands in the room.
abbrev Owned : Room → ℕ → Option (ℕ × DownTrack) → Type 0
Owned room subscriber none = Unit {0}
Owned room subscriber (some (id, d)) =
    (lookup id room.subscriptions ≡ some d) × (d.configuration.subscriber ≡ subscriber)

if_subscriber-Owned :
    (room : Room) (subscriber id : ℕ) (o : Option DownTrack)
    → lookup id room.subscriptions ≡ o
    → Owned room subscriber (if_subscriber subscriber id o)
if_subscriber-Owned room subscriber id none h = tt
if_subscriber-Owned room subscriber id (some d) h =
    elim (Bool-cases (d.configuration.subscriber == subscriber)) [
      | inl e ↦ rw e (h, (==_iff d.configuration.subscriber subscriber).0 e)
      | inr e ↦ rw e tt
    ]

authorized_at-Owned :
    (room : Room) (subscriber : ℕ) (o : Option ℕ)
    → Owned room subscriber (authorized_at room subscriber o)
authorized_at-Owned room subscriber none = tt
authorized_at-Owned room subscriber (some id) =
    if_subscriber-Owned room subscriber id (lookup id room.subscriptions) refl

-- What a subscriber's feedback leaves alone: the down-tracks of the others.
abbrev pub Isolated : ℕ → Room → Room → Type 0
Isolated subscriber room room' =
    (id : ℕ) (d : DownTrack)
    → lookup id room.subscriptions ≡ some d
    → d.configuration.subscriber ≢ subscriber
    → lookup id room'.subscriptions ≡ some d

-- Consistency is kept, and the others' down-tracks are.
abbrev Fine : ℕ → Room → Room → Type 0
Fine subscriber room room' = Consistent room' × Isolated subscriber room room'

handle_nack-Fine :
    (room : Room) (now subscriber : ℕ) (requested : List ℕ) (o : Option (ℕ × DownTrack))
    → Consistent room
    → Owned room subscriber o
    → Fine subscriber room (handle_nack room now requested o).0
handle_nack-Fine room now subscriber requested none c h = (c, λ id d found other. found)
handle_nack-Fine room now subscriber requested (some (id, d)) c h = (
  replace-Consistent room id d (retransmit now requested d).1 c h.0
      (retransmit-configuration now requested d),
  λ j e found other.
      insert-same id j (retransmit now requested d).1 room.subscriptions (λ same. other (
        ap (λ (x : DownTrack). x.configuration.subscriber)
          (some-injective
            (sym found ∙ ap (λ (i : ℕ). lookup i room.subscriptions) (sym same) ∙ h.0))
        ∙ h.1))
      ∙ found,
)

maybe_pli-Isolated :
    (subscriber : ℕ) (room : Room) (now track_id ssrc : ℕ)
    → Isolated subscriber room (maybe_pli room now track_id ssrc).0
unfolding maybe_pli
maybe_pli-Isolated subscriber room now track_id ssrc id d found other =
    elim (Bool-cases (throttled now room.configuration.pli_throttle (lookup ssrc room.last_pli))) [
      | inl e ↦ rw e found
      | inr e ↦ rw e found
    ]

handle_pli-Fine :
    (room : Room) (now subscriber : ℕ) (o : Option (ℕ × ℕ))
    → Consistent room
    → Fine subscriber room (handle_pli room now o).0
handle_pli-Fine room now subscriber none c = (c, λ id d found other. found)
handle_pli-Fine room now subscriber (some (track_id, ssrc)) c = (
  maybe_pli-Consistent room now track_id ssrc c,
  maybe_pli-Isolated subscriber room now track_id ssrc,
)

handle_packet-Fine :
    (room : Room) (now subscriber : ℕ) (packet : RtcpPacket)
    → Consistent room
    → Fine subscriber room (handle_packet room now subscriber packet).0
unfolding handle_packet authorized_down_track
handle_packet-Fine room now subscriber (RtcpPacket.generic_nack nack) c =
    handle_nack-Fine room now subscriber (expand_nack nack.entries) _ c
      (authorized_at-Owned room subscriber (lookup nack.media_ssrc room.output_ssrc_index))
handle_packet-Fine room now subscriber (RtcpPacket.picture_loss_indication pli) c =
    handle_pli-Fine room now subscriber _ c
handle_packet-Fine room now subscriber (RtcpPacket.transport_wide_feedback feedback) c =
    (c, λ id d found other. found)
handle_packet-Fine room now subscriber (RtcpPacket.sender_report report) c =
    (c, λ id d found other. found)
handle_packet-Fine room now subscriber (RtcpPacket.receiver_report report) c =
    (c, λ id d found other. found)
handle_packet-Fine room now subscriber (RtcpPacket.source_description description) c =
    (c, λ id d found other. found)
handle_packet-Fine room now subscriber (RtcpPacket.raw packet) c = (c, λ id d found other. found)

handle_packets-Fine :
    (packets : List RtcpPacket) (room : Room) (now subscriber : ℕ)
    → Consistent room
    → Fine subscriber room (handle_packets room now subscriber packets).0
unfolding handle_packets
handle_packets-Fine [] room now subscriber c = (c, λ id d found other. found)
handle_packets-Fine (packet ∷ packets) room now subscriber c =
    let (c1, i1) = handle_packet-Fine room now subscriber packet c in
    let (c2, i2) =
      handle_packets-Fine packets (handle_packet room now subscriber packet).0 now subscriber c1 in
    (c2, λ id d found other. i2 id d (i1 id d found other) other)

handle_parsed-Fine :
    (room : Room) (now subscriber : ℕ) (r : Result RtcpError (List RtcpPacket))
    → Consistent room
    → Fine subscriber room (handle_parsed room now subscriber r).0
handle_parsed-Fine room now subscriber (err e) c = (c, λ id d found other. found)
handle_parsed-Fine room now subscriber (ok packets) c =
    handle_packets-Fine packets room now subscriber c

-- Feedback of one subscriber, whatever it holds and whoever's SSRC it names, changes no down-track of
-- another subscriber: neither its cache nor its layers nor its numbering.
pub handle_rtcp-Isolated :
    (room : Room) (now subscriber : ℕ) (input : List ℕ)
    → Consistent room
    → Isolated subscriber room (handle_rtcp room now subscriber input).0
unfolding handle_rtcp
handle_rtcp-Isolated room now subscriber input c =
    (handle_parsed-Fine room now subscriber (parse_compound input) c).1

handle_rtcp-Consistent :
    (room : Room) (now subscriber : ℕ) (input : List ℕ)
    → Consistent room
    → Consistent (handle_rtcp room now subscriber input).0
unfolding handle_rtcp
handle_rtcp-Consistent room now subscriber input c =
    (handle_parsed-Fine room now subscriber (parse_compound input) c).0

-- The rooms that a sequence of operations leads to.
pub data Reached (values : List (ℕ × DownTrack) → List DownTrack) (configuration : RoomConfig)
    : Room → Type 0 where
  created : Reached values configuration (new configuration)
  published :
      (room : Room) (track : PublishedTrack)
      → Reached values configuration room
      → Reached values configuration (publish room track).0
  unpublished :
      (room : Room) (track_id : ℕ)
      → Reached values configuration room
      → Reached values configuration (unpublish room track_id).0
  subscribed :
      (room : Room) (c : SubscriptionConfig)
      → Reached values configuration room
      → Reached values configuration (subscribe room c).0
  unsubscribed :
      (room : Room) (id : ℕ)
      → Reached values configuration room
      → Reached values configuration (unsubscribe room id).0
  targeted :
      (room : Room) (now subscriber id : ℕ) (layer : Layer)
      → Reached values configuration room
      → Reached values configuration (set_target_layer room now subscriber id layer).0
  rtp_handled :
      (room : Room) (now publisher : ℕ) (input : List ℕ)
      → Reached values configuration room
      → Reached values configuration (handle_rtp values room now publisher input).0
  rtcp_handled :
      (room : Room) (now subscriber : ℕ) (input : List ℕ)
      → Reached values configuration room
      → Reached values configuration (handle_rtcp room now subscriber input).0

new-Consistent : (configuration : RoomConfig) → Consistent (new configuration)
unfolding new lookup
new-Consistent configuration = record {
  sourced = λ ssrc s h. absurd (ground arith);
  routed = λ id d h. absurd (ground arith);
  few_tracks = omega arith;
  few_subscriptions = omega arith;
}

-- In every room that any sequence of operations reaches, each indexed SSRC is one of a published
-- track's encodings, each subscription is the one that its output SSRC is routed to, and tracks and
-- subscriptions stay within the limits of the configuration.
pub Reached-Consistent :
    (values : List (ℕ × DownTrack) → List DownTrack) (configuration : RoomConfig) (room : Room)
    → Reached values configuration room
    → Consistent room
unfolding unsubscribe
Reached-Consistent values configuration _ created = new-Consistent configuration
Reached-Consistent values configuration _ (published room track h) =
    publish-Consistent room track (Reached-Consistent values configuration room h)
Reached-Consistent values configuration _ (unpublished room track_id h) =
    unpublish-Consistent room track_id (Reached-Consistent values configuration room h)
Reached-Consistent values configuration _ (subscribed room c h) =
    subscribe-Consistent room c (Reached-Consistent values configuration room h)
Reached-Consistent values configuration _ (unsubscribed room id h) =
    remove_subscription-Consistent room id (Reached-Consistent values configuration room h)
Reached-Consistent values configuration _ (targeted room now subscriber id layer h) =
    set_target_layer-Consistent room now subscriber id layer
      (Reached-Consistent values configuration room h)
Reached-Consistent values configuration _ (rtp_handled room now publisher input h) =
    handle_rtp-Consistent values room now publisher input
      (Reached-Consistent values configuration room h)
Reached-Consistent values configuration _ (rtcp_handled room now subscriber input h) =
    handle_rtcp-Consistent room now subscriber input
      (Reached-Consistent values configuration room h)
