-- ===== src/SfuCore/Routing.antt =====
-- `handle_rtp` and `handle_rtcp` of crates/webrtc/sfu-core/src/room.rs. The order in which the hash
-- map of subscriptions lists its values is not specified, and `handle_rtp` reads it to choose a
-- down-track to ask a keyframe for; `values` stands for it.
use Prim.Native.Nat.{bit_and}
use fluvora.Prelude.{nat_eq}
use fluvora.Prelude.{
  ℕ, zero, suc, ◌+◌, ◌%◌, ◌^◌, Bool, false, not, ◌&&◌, ◌||◌, Option, none, some, List, [], ◌∷◌,
  ◌++◌, find, ◌==◌, if◌then◌else◌, Result, ok, err, ◌>>=◌, ◌>>◌, fail_if, ok_or,
}
use fluvora.Prelude.Sets
use fluvora.Prelude.Maps
use fluvora.Rtp.Errors.{RtpError}
use fluvora.Rtp.Packet.{parse}
use fluvora.Rtcp.Model.{NackEntry, RtcpPacket, RtcpError}
use fluvora.Rtcp.Parse.{parse_compound}
use fluvora.MediaCodec.Inspect.{inspect_payload}
use fluvora.SfuCore.Model.{PayloadInfo, PublishedTrack, LayerSwitched, ForwardedPacket}
use fluvora.SfuCore.Outputs.{
  SfuEvent, ForwardOutcome, ControlOutput, SfuError, unknown_track, unknown_ssrc,
  unauthorized_participant, invalid_payload_type, rtp, rtcp, payload,
}
use fluvora.SfuCore.DownTrack.{
  DownTrack, ForwardDecision, forwarded, dropped, is_some_of, unwrap_or, retransmit,
}
use fluvora.SfuCore.Forward.{forward}
use fluvora.SfuCore.Room.{Room, encoding, or_empty, maybe_pli, collect}

abbrev pub map_err {ℓ κ} :
    {E : Type ℓ} {A : Type κ} → (E → SfuError) → Result E A → Result SfuError A
map_err f (ok a) = ok a
map_err f (err e) = err (f e)

-- What `handle_rtp` knows before it forwards.
pub record Route : Type 0 where
  pub track_id : ℕ
  pub track : PublishedTrack
  pub spatial_layer : ℕ
  pub info : PayloadInfo

unfoldable pub route : Room → ℕ → List ℕ → Result SfuError Route
route room publisher input = do
  parsed ← map_err rtp (parse input)
  source ← ok_or (Maps.lookup parsed.header.ssrc room.ssrc_index) (unknown_ssrc parsed.header.ssrc)
  track ← ok_or (Maps.lookup source.track_id room.tracks) (unknown_track source.track_id)
  fail_if (not (track.owner == publisher)) (unauthorized_participant publisher)
  fail_if (not (parsed.header.payload_type == track.payload_type))
      (invalid_payload_type parsed.header.payload_type)
  info ← map_err payload (inspect_payload track.codec parsed.payload parsed.header.marker)
  ok (record {
    track_id = source.track_id;
    track = track;
    spatial_layer = source.spatial_layer;
    info = info;
  })

-- The output of the loop, and whether a keyframe is waited for.
pub record Forwarded : Type 0 where
  pub packets : List ForwardedPacket
  pub events : List SfuEvent
  pub needs_pli : Bool

abbrev pub switch_events : Option LayerSwitched → List SfuEvent
switch_events none = []
switch_events (some event) = SfuEvent.layer_switched event ∷ []

abbrev pub add_decision : Forwarded → ForwardDecision → Forwarded
add_decision out (forwarded packet event) = record out {
  packets = out.packets ++ (packet ∷ []);
  events = out.events ++ switch_events event;
}
add_decision out (dropped waiting_for_keyframe) = record out {
  needs_pli = out.needs_pli || waiting_for_keyframe;
}

abbrev pub Subscriptions : Type 0
Subscriptions = List (ℕ × DownTrack)

-- After one `forward`, whose error ends the loop.
abbrev pub after_forward :
    ℕ
    → Subscriptions
    → Forwarded
    → Result RtpError ForwardDecision × DownTrack
    → (Subscriptions → Forwarded → Subscriptions × Result SfuError Forwarded)
    → Subscriptions × Result SfuError Forwarded
after_forward id subscriptions out (ok decision, d) rest =
    rest (Maps.insert id d subscriptions) (add_decision out decision)
after_forward id subscriptions out (err e, d) rest = (Maps.insert id d subscriptions, err (rtp e))

abbrev pub forward_to :
    ℕ
    → Route
    → List ℕ
    → ℕ
    → Subscriptions
    → Forwarded
    → Option DownTrack
    → (Subscriptions → Forwarded → Subscriptions × Result SfuError Forwarded)
    → Subscriptions × Result SfuError Forwarded
forward_to now r input id subscriptions out none rest = rest subscriptions out
forward_to now r input id subscriptions out (some d) rest =
    after_forward id subscriptions out (forward now r.track r.spatial_layer r.info input d) rest

unfoldable pub forward_all :
    ℕ
    → Route
    → List ℕ
    → List ℕ
    → Subscriptions
    → Forwarded
    → Subscriptions × Result SfuError Forwarded
forward_all now r input [] subscriptions out = (subscriptions, ok out)
forward_all now r input (id ∷ ids) subscriptions out =
    forward_to now r input id subscriptions out (Maps.lookup id subscriptions)
      (λ subscriptions' out'. forward_all now r input ids subscriptions' out')

abbrev pub event_of : Room × Option SfuEvent → List SfuEvent
event_of t = collect t.1

module _ (values : List (ℕ × DownTrack) → List DownTrack) where
  -- The SSRC of the encoding that a down-track of the track waits for.
  unfoldable pub pli_target : Room → Route → Option ℕ
  unfolding encoding
  pli_target room r =
      elim (find
        (λ d.
          d.configuration.track_id == r.track_id
          && not (is_some_of d.target_layer.spatial d.selected_spatial))
        (values room.subscriptions)) [
          | none ↦ none
          | some d ↦ elim (encoding r.track d.target_layer.spatial) [
            | none ↦ none
            | some e ↦ some e.ssrc
          ]
        ]

  abbrev pub ask_keyframe : Room → ℕ → ℕ → Option ℕ → Room × Option SfuEvent
  ask_keyframe room now track_id none = (room, none)
  ask_keyframe room now track_id (some ssrc) = maybe_pli room now track_id ssrc

  -- The end of `handle_rtp`, with the subscriptions as the loop leaves them.
  unfoldable pub finish_rtp :
      Room → ℕ → Route → Result SfuError Forwarded → Room × Result SfuError ForwardOutcome
  unfolding pli_target
  finish_rtp room now r (err e) = (room, err e)
  finish_rtp room now r (ok out) =
      let asked =
        ask_keyframe room now r.track_id (if out.needs_pli then pli_target room r else none) in
      (asked.0, ok (record { packets = out.packets; events = out.events ++ event_of asked }))

  unfoldable pub forward_routed :
      Room → ℕ → List ℕ → Result SfuError Route → Room × Result SfuError ForwardOutcome
  unfolding finish_rtp forward_all
  forward_routed room now input (err e) = (room, err e)
  forward_routed room now input (ok r) =
      let ids = or_empty (Maps.lookup r.track_id room.track_subscriptions) in
      let empty : Forwarded = record { packets = []; events = []; needs_pli = false } in
      let looped = forward_all now r input ids room.subscriptions empty in
      finish_rtp (record room { subscriptions = looped.0 }) now r looped.1

  unfoldable pub handle_rtp : Room → ℕ → ℕ → List ℕ → Room × Result SfuError ForwardOutcome
  unfolding route forward_routed
  handle_rtp room now publisher input = forward_routed room now input (route room publisher input)

-- `seen.insert(sequence)` and the push, the set having the elements of the list.
abbrev pub push_new : ℕ → List ℕ → List ℕ
push_new sequence requested =
    if Sets.contains sequence requested then requested else requested ++ (sequence ∷ [])

-- The loop over the bits from `bit` on.
unfoldable pub expand_bits : ℕ → ℕ → NackEntry → List ℕ → List ℕ
expand_bits zero bit entry requested = requested
expand_bits (suc n) bit entry requested =
    let sequence = (entry.packet_id + (bit + 1)) % 2 ^ 16 in
    expand_bits n (bit + 1) entry (
      if bit_and entry.lost_packet_bitmask (2 ^ bit) == 0
      then requested
      else push_new sequence requested)

unfoldable pub expand_from : List NackEntry → List ℕ → List ℕ
unfolding expand_bits
expand_from [] requested = requested
expand_from (entry ∷ entries) requested =
    expand_from entries (expand_bits 16 0 entry (push_new entry.packet_id requested))

unfoldable pub expand_nack : List NackEntry → List ℕ
unfolding expand_from
expand_nack entries = expand_from entries []

-- The down-track of the SSRC, where it is the subscriber's, with its identifier.
abbrev pub if_subscriber : ℕ → ℕ → Option DownTrack → Option (ℕ × DownTrack)
if_subscriber subscriber id none = none
if_subscriber subscriber id (some d) =
    if d.configuration.subscriber == subscriber then some (id, d) else none

abbrev pub authorized_at : Room → ℕ → Option ℕ → Option (ℕ × DownTrack)
authorized_at room subscriber none = none
authorized_at room subscriber (some id) =
    if_subscriber subscriber id (Maps.lookup id room.subscriptions)

unfoldable pub authorized_down_track : Room → ℕ → ℕ → Option (ℕ × DownTrack)
authorized_down_track room subscriber output_ssrc =
    authorized_at room subscriber (Maps.lookup output_ssrc room.output_ssrc_index)

abbrev pub handle_nack : Room → ℕ → List ℕ → Option (ℕ × DownTrack) → Room × List ForwardedPacket
handle_nack room now requested none = (room, [])
handle_nack room now requested (some (id, d)) =
    let sent = retransmit now requested d in
    (record room { subscriptions = Maps.insert id sent.1 room.subscriptions }, sent.0)

-- The track and the SSRC of the encoding that the down-track sends, or aims at.
unfoldable pub upstream : Room → Option (ℕ × DownTrack) → Option (ℕ × ℕ)
unfolding encoding
upstream room none = none
upstream room (some (id, d)) = elim (Maps.lookup d.configuration.track_id room.tracks) [
  | none ↦ none
  | some track ↦ elim (encoding track (unwrap_or d.target_layer.spatial d.selected_spatial)) [
    | none ↦ none
    | some e ↦ some (track.id, e.ssrc)
  ]
]

abbrev pub handle_pli : Room → ℕ → Option (ℕ × ℕ) → Room × Option SfuEvent
handle_pli room now none = (room, none)
handle_pli room now (some (track_id, media_ssrc)) = maybe_pli room now track_id media_ssrc

-- One packet of the compound: the room after it, and what it adds to the output.
unfoldable pub handle_packet : Room → ℕ → ℕ → RtcpPacket → Room × ControlOutput
handle_packet room now subscriber (RtcpPacket.generic_nack nack) =
    let done =
      handle_nack room now (expand_nack nack.entries)
        (authorized_down_track room subscriber nack.media_ssrc) in
    (done.0, record { retransmissions = done.1; events = [] })
handle_packet room now subscriber (RtcpPacket.picture_loss_indication pli) =
    let done =
      handle_pli room now (upstream room (authorized_down_track room subscriber pli.media_ssrc)) in
    (done.0, record { retransmissions = []; events = event_of done })
handle_packet room now subscriber (RtcpPacket.transport_wide_feedback feedback) = (
  room,
  record { retransmissions = []; events = SfuEvent.transport_feedback subscriber feedback ∷ [] },
)
handle_packet room now subscriber other = (room, record { retransmissions = []; events = [] })

unfoldable pub handle_packets : Room → ℕ → ℕ → List RtcpPacket → Room × ControlOutput
handle_packets room now subscriber [] = (room, record { retransmissions = []; events = [] })
handle_packets room now subscriber (packet ∷ packets) =
    let first = handle_packet room now subscriber packet in
    let rest = handle_packets first.0 now subscriber packets in
    (
      rest.0,
      record {
        retransmissions = first.1.retransmissions ++ rest.1.retransmissions;
        events = first.1.events ++ rest.1.events;
      },
    )

abbrev pub handle_parsed :
    Room → ℕ → ℕ → Result RtcpError (List RtcpPacket) → Room × Result SfuError ControlOutput
handle_parsed room now subscriber (err e) = (room, err (rtcp e))
handle_parsed room now subscriber (ok packets) =
    let done = handle_packets room now subscriber packets in (done.0, ok done.1)

unfoldable pub handle_rtcp : Room → ℕ → ℕ → List ℕ → Room × Result SfuError ControlOutput
handle_rtcp room now subscriber input = handle_parsed room now subscriber (parse_compound input)
