-- ===== src/SfuCore/Forward.antt =====
-- `DownTrack::forward` of crates/webrtc/sfu-core/src/down_track.rs.
use fluvora.Prelude.{
  ℕ, ◌+◌, ◌%◌, ◌^◌, true, false, not, ◌&&◌, Option, none, some, List, ltb, ◌==◌, if◌then◌else◌,
  Result, ok, err, ◌>>=◌,
}
use fluvora.Rtp.Errors.{RtpError}
use fluvora.Rtp.Packet.{Packet, parse}
use fluvora.Rtp.Rewrite.{apply, rewrite_header_extensions}
use fluvora.SfuCore.Model.{
  PayloadInfo, is_video, PublishedTrack, SubscriptionConfig, ForwardedPacket, LayerSwitched,
}
use fluvora.SfuCore.DownTrack.{
  DownTrack, ForwardDecision, forwarded, dropped, is_some_of, unwrap_or, rewrite_timestamp, store,
}

-- The answer of the three early returns of `forward`, if any.
unfoldable pub drop_decision : PublishedTrack → ℕ → PayloadInfo → DownTrack → Option ForwardDecision
drop_decision track spatial_layer info d =
    let continuing = is_some_of spatial_layer d.selected_spatial in
    let switching = not continuing && spatial_layer == d.target_layer.spatial in
    if not continuing && not switching
    then some (dropped (not (is_some_of d.target_layer.spatial d.selected_spatial)))
    else if is_video track.kind && not continuing && not (info.keyframe && info.start_of_frame)
    then some (dropped true)
    else elim info.temporal_id [
      | none ↦ none
      | some temporal ↦ if ltb d.target_layer.temporal temporal then some (dropped false) else none
    ]

-- The down-track after the fields of `forward` are set, before the packet is rewritten, with the
-- output timestamp.
unfoldable pub advance_state : ℕ → Packet → DownTrack → ℕ × DownTrack
unfolding rewrite_timestamp
advance_state spatial_layer parsed d =
    let ssrc = parsed.header.ssrc in
    let switched = not (is_some_of ssrc d.current_input_ssrc) in
    let (output, d1) = rewrite_timestamp parsed.header.timestamp switched d in
    let d2 = record d1 { next_sequence_number = (d1.next_sequence_number + 1) % 2 ^ 16 } in
    (
      output,
      if switched
          then record d2 { current_input_ssrc = some ssrc; selected_spatial = some spatial_layer }
          else d2,
    )

-- The bytes that the subscriber gets.
unfoldable pub rewrite_packet : SubscriptionConfig → ℕ → ℕ → List ℕ → Result RtpError (List ℕ)
unfolding apply rewrite_header_extensions
rewrite_packet c sequence_number timestamp input = do
  packet ←
      apply
        (record {
          marker = none;
          payload_type = some c.output_payload_type;
          sequence_number = some sequence_number;
          timestamp = some timestamp;
          ssrc = some c.output_ssrc;
        })
        input
  rewrite_header_extensions packet c.extension_rewrites

-- The end of `forward`: the packet is stored and returned, or the error is.
unfoldable pub finish :
    ℕ
    → ℕ
    → PayloadInfo
    → Option LayerSwitched
    → Result RtpError (List ℕ)
    → DownTrack
    → Result RtpError ForwardDecision × DownTrack
unfolding store
finish now spatial_layer info event (err e) d = (err e, d)
finish now spatial_layer info event (ok bytes) d =
    let packet : ForwardedPacket = record {
      subscriber = d.configuration.subscriber;
      subscription_id = d.configuration.id;
      packet = bytes;
      layer = record { spatial = spatial_layer; temporal = unwrap_or 0 info.temporal_id };
      keyframe = info.keyframe;
      retransmission = false;
    } in
    (ok (forwarded packet event), store now packet d)

unfoldable pub forward_parsed :
    ℕ
    → ℕ
    → PayloadInfo
    → List ℕ
    → Result RtpError Packet
    → DownTrack
    → Result RtpError ForwardDecision × DownTrack
unfolding advance_state rewrite_packet finish
forward_parsed now spatial_layer info input (err e) d = (err e, d)
forward_parsed now spatial_layer info input (ok parsed) d =
    let (output, d') = advance_state spatial_layer parsed d in
    let event : LayerSwitched = record {
      subscription_id = d.configuration.id;
      switched_from = d.selected_spatial;
      switched_to = spatial_layer;
    } in
    finish now spatial_layer info
      (if is_some_of parsed.header.ssrc d.current_input_ssrc then none else some event)
      (rewrite_packet d.configuration d.next_sequence_number output input) d'

unfoldable pub forward_decided :
    ℕ
    → ℕ
    → PayloadInfo
    → List ℕ
    → Option ForwardDecision
    → DownTrack
    → Result RtpError ForwardDecision × DownTrack
unfolding parse forward_parsed
forward_decided now spatial_layer info input (some decision) d = (ok decision, d)
forward_decided now spatial_layer info input none d =
    forward_parsed now spatial_layer info input (parse input) d

unfoldable pub forward :
    ℕ
    → PublishedTrack
    → ℕ
    → PayloadInfo
    → List ℕ
    → DownTrack
    → Result RtpError ForwardDecision × DownTrack
unfolding drop_decision forward_decided
forward now track spatial_layer info input d =
    forward_decided now spatial_layer info input (drop_decision track spatial_layer info d) d
