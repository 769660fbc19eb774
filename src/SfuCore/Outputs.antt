-- ===== src/SfuCore/Outputs.antt =====
-- What the forwarding room answers: the rest of crates/webrtc/sfu-core/src/model.rs, and
-- crates/webrtc/sfu-core/src/error.rs.
use fluvora.Prelude.{ℕ, List}
use fluvora.Rtp.Errors.{RtpError}
use fluvora.Rtcp.Model.{RtcpError, TransportWideFeedback}
use fluvora.MediaCodec.Inspect.{PayloadError}
use fluvora.SfuCore.Model.{ForwardedPacket, LayerSwitched}

pub record RoomConfig : Type 0 where
  pub max_tracks : ℕ
  pub max_subscriptions : ℕ
  pub retransmission_cache_packets : ℕ
  pub retransmission_cache_age : ℕ
  pub pli_throttle : ℕ

pub data SfuEvent : Type 0 where
  layer_switched : LayerSwitched → SfuEvent
  -- The track and the SSRC of its encoding.
  picture_loss_indication : ℕ → ℕ → SfuEvent
  transport_feedback : ℕ → TransportWideFeedback → SfuEvent

pub record ForwardOutcome : Type 0 where
  pub packets : List ForwardedPacket
  pub events : List SfuEvent

pub record ControlOutput : Type 0 where
  pub retransmissions : List ForwardedPacket
  pub events : List SfuEvent

-- The resources that `ResourceLimit` names.
pub data Resource : Type 0 where
  published_track subscription : Resource

pub data SfuError : Type 0 where
  duplicate_track : ℕ → SfuError
  duplicate_subscription : ℕ → SfuError
  unknown_track : ℕ → SfuError
  unknown_subscription : ℕ → SfuError
  unknown_ssrc : ℕ → SfuError
  unauthorized_participant : ℕ → SfuError
  invalid_encodings : SfuError
  invalid_payload_type : ℕ → SfuError
  unknown_spatial_layer : ℕ → SfuError
  resource_limit : Resource → SfuError
  rtp : RtpError → SfuError
  rtcp : RtcpError → SfuError
  payload : PayloadError → SfuError
