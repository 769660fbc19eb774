-- ===== src/SfuCore/Unchanged.antt =====
-- The operations of a down-track (crates/webrtc/sfu-core/src/down_track.rs) keep its configuration.
use fluvora.Prelude.{
  ℕ, ◌≡◌, refl, ◌∙◌, ◌&&◌, Option, none, some, List, Result, ok, err, ◌==◌, Bool-cases, inl, inr,
}
use fluvora.Rtp.Errors.{RtpError}
use fluvora.Rtp.Packet.{Packet, parse}
use fluvora.SfuCore.Model.{PayloadInfo, PublishedTrack, ForwardedPacket, LayerSwitched, Layer}
use fluvora.SfuCore.DownTrack.{
  DownTrack, ForwardDecision, store, expire_cache, retransmit, set_target_layer,
}
use fluvora.SfuCore.Forward.{
  drop_decision, advance_state, finish, forward_parsed, forward_decided, forward,
}
use fluvora.SfuCore.Forwarding.{advance_state-cache}

store-configuration :
    (now : ℕ) (p : ForwardedPacket) (d : DownTrack)
    → (store now p d).configuration ≡ d.configuration
unfolding store expire_cache
store-configuration now p d = elim (Bool-cases (d.cache_capacity == 0)) [
  | inl e ↦ rw e refl
  | inr e ↦ rw e refl
]

finish-configuration :
    (now layer : ℕ) (info : PayloadInfo) (event : Option LayerSwitched)
    (r : Result RtpError (List ℕ)) (d : DownTrack)
    → (finish now layer info event r d).1.configuration ≡ d.configuration
unfolding finish
finish-configuration now layer info event (err e) d = refl
finish-configuration now layer info event (ok bytes) d = store-configuration now _ d

forward_parsed-configuration :
    (now layer : ℕ) (info : PayloadInfo) (input : List ℕ) (r : Result RtpError Packet)
    (d : DownTrack)
    → (forward_parsed now layer info input r d).1.configuration ≡ d.configuration
unfolding forward_parsed
forward_parsed-configuration now layer info input (err e) d = refl
forward_parsed-configuration now layer info input (ok parsed) d =
    let (same, capacity, next, conf) = advance_state-cache layer parsed d in
    finish-configuration now layer info _ _ (advance_state layer parsed d).1 ∙ conf

forward_decided-configuration :
    (now layer : ℕ) (info : PayloadInfo) (input : List ℕ) (o : Option ForwardDecision)
    (d : DownTrack)
    → (forward_decided now layer info input o d).1.configuration ≡ d.configuration
unfolding forward_decided
forward_decided-configuration now layer info input (some decision) d = refl
forward_decided-configuration now layer info input none d =
    forward_parsed-configuration now layer info input (parse input) d

pub forward-configuration :
    (now layer : ℕ) (track : PublishedTrack) (info : PayloadInfo) (input : List ℕ) (d : DownTrack)
    → (forward now track layer info input d).1.configuration ≡ d.configuration
unfolding forward
forward-configuration now layer track info input d =
    forward_decided-configuration now layer info input (drop_decision track layer info d) d

pub retransmit-configuration :
    (now : ℕ) (requested : List ℕ) (d : DownTrack)
    → (retransmit now requested d).1.configuration ≡ d.configuration
unfolding retransmit expire_cache
retransmit-configuration now requested d = refl

pub set_target_layer-configuration :
    (layer : Layer) (d : DownTrack) → (set_target_layer layer d).1.configuration ≡ d.configuration
unfolding set_target_layer
set_target_layer-configuration layer d =
    elim (Bool-cases
      (d.target_layer.spatial == layer.spatial && d.target_layer.temporal == layer.temporal)) [
        | inl e ↦ rw e refl
        | inr e ↦ rw e refl
      ]
