-- ===== src/SfuCore/Handled.antt =====
-- The handlers of crates/webrtc/sfu-core/src/room.rs keep the room consistent, and what is reached.
use fluvora.Prelude.{nat_eq}
use fluvora.Prelude.{
  ℕ, ◌≡◌, refl, ◌∙◌, Bool, ◌&&◌, Option, none, some, List, [], ◌∷◌, length, ◌==◌, Result, ok, err,
  arith, Bool-cases, inl, inr,
}
use fluvora.Prelude.Maps.{lookup, insert}
use fluvora.Rtp.Errors.{RtpError}
use fluvora.SfuCore.Model.{PublishedTrack, Encoding, Layer, is_video}
use fluvora.SfuCore.Outputs.{SfuError}
use fluvora.SfuCore.DownTrack
use fluvora.SfuCore.DownTrack.{DownTrack, ForwardDecision, retransmit}
use fluvora.SfuCore.Forward.{forward}
use fluvora.SfuCore.Room.{
  Room, encoding, maybe_pli, throttled, request_encoding, request_target, set_target_found,
  set_target_layer, or_empty,
}
use fluvora.SfuCore.Routing.{
  Route, Forwarded, Subscriptions, after_forward, forward_to, forward_all, add_decision,
  ask_keyframe, finish_rtp, forward_routed, route, handle_rtp,
}
use fluvora.SfuCore.Consistency.{Routed, Consistent}
use fluvora.SfuCore.Subscribers.{replace-Routed, replace-Consistent}
use fluvora.SfuCore.Unchanged.{forward-configuration, set_target_layer-configuration}

pub maybe_pli-Consistent :
    (room : Room) (now track_id ssrc : ℕ)
    → Consistent room
    → Consistent (maybe_pli room now track_id ssrc).0
unfolding maybe_pli
maybe_pli-Consistent room now track_id ssrc c =
    elim (Bool-cases (throttled now room.configuration.pli_throttle (lookup ssrc room.last_pli))) [
      | inl e ↦ rw e c
      | inr e ↦ rw e (record {
        sourced = c.sourced;
        routed = c.routed;
        few_tracks = c.few_tracks;
        few_subscriptions = c.few_subscriptions;
      })
    ]

request_encoding-Consistent :
    (room : Room) (now : ℕ) (changed : Bool) (track : PublishedTrack) (track_id : ℕ) (layer : Layer)
    (o : Option Encoding)
    → Consistent room
    → Consistent (request_encoding room now changed track track_id layer o).0
unfolding request_encoding
request_encoding-Consistent room now changed track track_id layer none c = c
request_encoding-Consistent room now changed track track_id layer (some e) c =
    elim (Bool-cases (changed && is_video track.kind)) [
      | inl h ↦ rw h (maybe_pli-Consistent room now track_id e.ssrc c)
      | inr h ↦ rw h c
    ]

request_target-Consistent :
    (room : Room) (now : ℕ) (changed : Bool) (track_id : ℕ) (layer : Layer)
    (o : Option PublishedTrack)
    → Consistent room
    → Consistent (request_target room now changed track_id layer o).0
unfolding request_target
request_target-Consistent room now changed track_id layer none c = c
request_target-Consistent room now changed track_id layer (some track) c =
    request_encoding-Consistent room now changed track track_id layer (encoding track layer.spatial)
      c

set_target_found-Consistent :
    (room : Room) (now subscriber id : ℕ) (layer : Layer) (o : Option DownTrack)
    → Consistent room
    → lookup id room.subscriptions ≡ o
    → Consistent (set_target_found room now subscriber id layer o).0
unfolding set_target_found
set_target_found-Consistent room now subscriber id layer none c h = c
set_target_found-Consistent room now subscriber id layer (some d) c h =
    elim (Bool-cases (d.configuration.subscriber == subscriber)) [
      | inl e ↦ rw e (
          request_target-Consistent _ now (DownTrack.set_target_layer layer d).0
            d.configuration.track_id layer (lookup d.configuration.track_id room.tracks)
            (replace-Consistent room id d (DownTrack.set_target_layer layer d).1 c h
              (set_target_layer-configuration layer d)))
      | inr e ↦ rw e c
    ]

pub set_target_layer-Consistent :
    (room : Room) (now subscriber id : ℕ) (layer : Layer)
    → Consistent room
    → Consistent (set_target_layer room now subscriber id layer).0
unfolding set_target_layer
set_target_layer-Consistent room now subscriber id layer c =
    set_target_found-Consistent room now subscriber id layer (lookup id room.subscriptions) c refl

-- What the loop over the subscriptions keeps.
abbrev Kept : List (ℕ × ℕ) → ℕ → Subscriptions → Type 0
Kept index size subscriptions = Routed subscriptions index × (length subscriptions ≡ size)

module _ (index : List (ℕ × ℕ)) (size now : ℕ) (r : Route) (input : List ℕ) where
  after_forward-Kept :
      (id : ℕ) (subs : Subscriptions) (out : Forwarded) (d : DownTrack)
      (t : Result RtpError ForwardDecision × DownTrack)
      (rest : Subscriptions → Forwarded → Subscriptions × Result SfuError Forwarded)
      → Kept index size subs
      → lookup id subs ≡ some d
      → t.1.configuration ≡ d.configuration
      → ((subs : Subscriptions) (out : Forwarded)
          → Kept index size subs
          → Kept index size (rest subs out).0)
      → Kept index size (after_forward id subs out t rest).0
  after_forward-Kept id subs out d (ok decision, d') rest k found same next =
      let (routed, len) = replace-Routed id d d' subs index k.0 found same in
      next (insert id d' subs) (add_decision out decision) (routed, len ∙ k.1)
  after_forward-Kept id subs out d (err e, d') rest k found same next =
      let (routed, len) = replace-Routed id d d' subs index k.0 found same in (routed, len ∙ k.1)

  forward_to-Kept :
      (id : ℕ) (subs : Subscriptions) (out : Forwarded) (o : Option DownTrack)
      (rest : Subscriptions → Forwarded → Subscriptions × Result SfuError Forwarded)
      → Kept index size subs
      → lookup id subs ≡ o
      → ((subs : Subscriptions) (out : Forwarded)
          → Kept index size subs
          → Kept index size (rest subs out).0)
      → Kept index size (forward_to now r input id subs out o rest).0
  forward_to-Kept id subs out none rest k found next = next subs out k
  forward_to-Kept id subs out (some d) rest k found next =
      after_forward-Kept id subs out d (forward now r.track r.spatial_layer r.info input d) rest k
        found (forward-configuration now r.spatial_layer r.track r.info input d) next

  forward_all-Kept :
      (ids : List ℕ) (subs : Subscriptions) (out : Forwarded)
      → Kept index size subs
      → Kept index size (forward_all now r input ids subs out).0
  unfolding forward_all
  forward_all-Kept [] subs out k = k
  forward_all-Kept (id ∷ ids) subs out k =
      forward_to-Kept id subs out (lookup id subs)
        (λ subs' out'. forward_all now r input ids subs' out') k refl
        (λ subs' out' k'. forward_all-Kept ids subs' out' k')

module _ (values : List (ℕ × DownTrack) → List DownTrack) where
  ask_keyframe-Consistent :
      (room : Room) (now track_id : ℕ) (o : Option ℕ)
      → Consistent room
      → Consistent (ask_keyframe values room now track_id o).0
  ask_keyframe-Consistent room now track_id none c = c
  ask_keyframe-Consistent room now track_id (some ssrc) c =
      maybe_pli-Consistent room now track_id ssrc c

  finish_rtp-Consistent :
      (room : Room) (now : ℕ) (r : Route) (out : Result SfuError Forwarded)
      → Consistent room
      → Consistent (finish_rtp values room now r out).0
  unfolding finish_rtp
  finish_rtp-Consistent room now r (err e) c = c
  finish_rtp-Consistent room now r (ok out) c = ask_keyframe-Consistent room now r.track_id _ c

  forward_routed-Consistent :
      (room : Room) (now : ℕ) (input : List ℕ) (r : Result SfuError Route)
      → Consistent room
      → Consistent (forward_routed values room now input r).0
  unfolding forward_routed
  forward_routed-Consistent room now input (err e) c = c
  forward_routed-Consistent room now input (ok r) c =
      let kept =
        forward_all-Kept room.output_ssrc_index (length room.subscriptions) now r input
          (or_empty (lookup r.track_id room.track_subscriptions)) room.subscriptions _
          (c.routed, refl) in
      finish_rtp-Consistent _ now r _ (record {
        sourced = c.sourced;
        routed = kept.0;
        few_tracks = c.few_tracks;
        few_subscriptions = omega (arith, kept.1, c.few_subscriptions);
      })

  pub handle_rtp-Consistent :
      (room : Room) (now publisher : ℕ) (input : List ℕ)
      → Consistent room
      → Consistent (handle_rtp values room now publisher input).0
  unfolding handle_rtp
  handle_rtp-Consistent room now publisher input c =
      forward_routed-Consistent room now input (route room publisher input) c
