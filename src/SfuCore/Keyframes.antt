-- ===== src/SfuCore/Keyframes.antt =====
-- When `forward` of crates/webrtc/sfu-core/src/down_track.rs lets a packet through, and what it sends.
use fluvora.Prelude.{
  ℕ, ◌+◌, ◌%◌, ◌^◌, ◌≤◌, ◌≡◌, refl, sym, ap, ◌∙◌, ok-injective, ◌⊎◌, Bool, true, false, Option,
  none, some, List, Result, ok, err, arith, bind-inv, ==_iff,
}
use fluvora.Rtp.Errors.{RtpError}
use fluvora.Rtp.Packet.{Packet, parse}
use fluvora.Rtp.Rewrite.{Rewrite, apply}
use fluvora.Rtp.Spelled.{Carries, rewritten-Carries}
use fluvora.SfuCore.Model.{
  SubscriptionConfig, PayloadInfo, is_video, PublishedTrack, ForwardedPacket, LayerSwitched,
}
use fluvora.SfuCore.DownTrack.{
  DownTrack, ForwardDecision, forwarded, dropped, is_some_of, unwrap_or, store, expire_cache,
}
use fluvora.SfuCore.Forward.{
  drop_decision, advance_state, rewrite_packet, finish, forward_parsed, forward_decided, forward,
}
use fluvora.SfuCore.Forwarding.{advance_state-cache}

-- What may pass: the selected layer, or the target layer from its keyframe on for video.
pub Allowed : PublishedTrack → ℕ → PayloadInfo → DownTrack → Type 0
Allowed track layer info d =
    ((is_some_of layer d.selected_spatial ≡ true)
      ⊎ ((layer ≡ d.target_layer.spatial)
          × ((is_video track.kind ≡ false)
              ⊎ ((info.keyframe ≡ true) × (info.start_of_frame ≡ true)))))
    × (unwrap_or 0 info.temporal_id ≤ d.target_layer.temporal)

drop_decision-none :
    (track : PublishedTrack) (layer : ℕ) (info : PayloadInfo) (d : DownTrack)
    → drop_decision track layer info d ≡ none
    → Allowed track layer info d
unfolding drop_decision Allowed
drop_decision-none track layer info d h = ground (arith, ==_iff layer d.target_layer.spatial)

-- What a forwarded packet tells of the state before and after: its bytes carry the sequence number
-- that was next and the SSRC of the subscription.
pub Sent : ℕ → ForwardedPacket → DownTrack → DownTrack → Type 0
Sent layer p d e =
    (p.layer.spatial ≡ layer)
    × (p.subscriber ≡ d.configuration.subscriber)
    × Carries d.next_sequence_number d.configuration.output_ssrc p.packet
    × (e.next_sequence_number ≡ (d.next_sequence_number + 1) % 2 ^ 16)

is_dropped : ForwardDecision → Bool
is_dropped (forwarded p event) = false
is_dropped (dropped waiting) = true

drop_decision-some :
    (track : PublishedTrack) (layer : ℕ) (info : PayloadInfo) (d : DownTrack) (x : ForwardDecision)
    → drop_decision track layer info d ≡ some x
    → is_dropped x ≡ true
unfolding drop_decision is_dropped
drop_decision-some track layer info d x h = ground arith

store-next :
    (now : ℕ) (p : ForwardedPacket) (d : DownTrack)
    → (store now p d).next_sequence_number ≡ d.next_sequence_number
unfolding store expire_cache
store-next now p d = ground arith

packet_or : ForwardedPacket → ForwardDecision → ForwardedPacket
packet_or p (forwarded q event) = q
packet_or p (dropped waiting) = p

finish-packet :
    (now layer : ℕ) (info : PayloadInfo) (ev : Option LayerSwitched) (r : Result RtpError (List ℕ))
    (d : DownTrack) (p : ForwardedPacket) (event : Option LayerSwitched)
    → (finish now layer info ev r d).0 ≡ ok (forwarded p event)
    → (p.layer.spatial ≡ layer)
      × (p.subscriber ≡ d.configuration.subscriber)
      × (r ≡ ok p.packet)
      × ((finish now layer info ev r d).1.next_sequence_number ≡ d.next_sequence_number)
unfolding finish packet_or
finish-packet now layer info ev (err e) d p event h = absurd (ground arith)
finish-packet now layer info ev (ok bytes) d p event h =
    let same = ap (packet_or p) (ok-injective h) in
    (
      ap (λ (q : ForwardedPacket). q.layer.spatial) (sym same),
      ap (λ (q : ForwardedPacket). q.subscriber) (sym same),
      ap (λ (q : ForwardedPacket). ok q.packet) same,
      store-next now _ d,
    )

rewrite_packet-Carries :
    (c : SubscriptionConfig) (sequence_number timestamp : ℕ) (input out : List ℕ)
    → rewrite_packet c sequence_number timestamp input ≡ ok out
    → Carries sequence_number c.output_ssrc out
unfolding rewrite_packet
rewrite_packet-Carries c sequence_number timestamp input out h =
    let rewrite : Rewrite = record {
      marker = none;
      payload_type = some c.output_payload_type;
      sequence_number = some sequence_number;
      timestamp = some timestamp;
      ssrc = some c.output_ssrc;
    } in
    let (middle, e, h') = bind-inv (apply rewrite input) _ out h in
    rewritten-Carries c.output_payload_type sequence_number timestamp c.output_ssrc
      c.extension_rewrites input middle out e h'

forward_parsed-Sent :
    (now layer : ℕ) (info : PayloadInfo) (input : List ℕ) (r : Result RtpError Packet)
    (d : DownTrack) (p : ForwardedPacket) (event : Option LayerSwitched)
    → (forward_parsed now layer info input r d).0 ≡ ok (forwarded p event)
    → Sent layer p d (forward_parsed now layer info input r d).1
unfolding forward_parsed Sent
forward_parsed-Sent now layer info input (err e) d p event h = absurd (ground arith)
forward_parsed-Sent now layer info input (ok parsed) d p event h =
    let (same, capacity, next, conf) = advance_state-cache layer parsed d in
    let (output, after) = advance_state layer parsed d in
    let (spatial, subscriber, bytes, number) =
      finish-packet now layer info _
        (rewrite_packet d.configuration d.next_sequence_number output input) after p event h in
    (
      spatial,
      subscriber ∙ ap (λ (c : SubscriptionConfig). c.subscriber) conf,
      rewrite_packet-Carries d.configuration d.next_sequence_number output input p.packet bytes,
      number ∙ next,
    )

forward_decided-Sent :
    (now layer : ℕ) (track : PublishedTrack) (info : PayloadInfo) (input : List ℕ)
    (o : Option ForwardDecision) (d : DownTrack) (p : ForwardedPacket)
    (event : Option LayerSwitched)
    → drop_decision track layer info d ≡ o
    → (forward_decided now layer info input o d).0 ≡ ok (forwarded p event)
    → Allowed track layer info d × Sent layer p d (forward_decided now layer info input o d).1
unfolding forward_decided is_dropped
forward_decided-Sent now layer track info input (some x) d p event e h =
    absurd
      (ground (arith, drop_decision-some track layer info d x e, ap is_dropped (ok-injective h)))
forward_decided-Sent now layer track info input none d p event e h = (
  drop_decision-none track layer info d e,
  forward_parsed-Sent now layer info input (parse input) d p event h,
)

-- A packet that `forward` lets through is of the selected layer or starts a switch to the target
-- layer, which for video needs a keyframe at the start of a frame; its temporal layer is within
-- the target. It goes to the subscriber of the subscription, and a parser reads in its bytes the
-- sequence number that was next, modulo 2 ^ 16, and the output SSRC of the subscription, modulo
-- 2 ^ 32, whichever extensions are rewritten. The next sequence number is one more, modulo 2 ^ 16.
pub forward-Sent :
    (now layer : ℕ) (track : PublishedTrack) (info : PayloadInfo) (input : List ℕ) (d : DownTrack)
    (p : ForwardedPacket) (event : Option LayerSwitched)
    → (forward now track layer info input d).0 ≡ ok (forwarded p event)
    → Allowed track layer info d × Sent layer p d (forward now track layer info input d).1
unfolding forward
forward-Sent now layer track info input d p event h =
    forward_decided-Sent now layer track info input (drop_decision track layer info d) d p event
      refl h
