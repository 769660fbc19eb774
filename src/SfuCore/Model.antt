-- ===== src/SfuCore/Model.antt =====
-- The data of crates/webrtc/sfu-core/src/model.rs, with `Codec` and `PayloadInfo` of
-- crates/webrtc/media-codec/src/lib.rs. A `Duration` is a number of nanoseconds.
use fluvora.Prelude.{ℕ, Bool, true, false, Option, List}
use fluvora.Rtp.Rewrite.{ExtensionRewrite}

pub data Codec : Type 0 where
  opus vp8 vp9 h264 av1 unknown : Codec

pub record PayloadInfo : Type 0 where
  pub start_of_frame : Bool
  pub end_of_frame : Bool
  pub keyframe : Bool
  pub temporal_id : Option ℕ
  pub spatial_id : Option ℕ

pub data MediaKind : Type 0 where
  audio video : MediaKind

abbrev pub is_video : MediaKind → Bool
is_video audio = false
is_video video = true

pub record Encoding : Type 0 where
  pub ssrc : ℕ
  pub rid : Option (List ℕ)
  pub spatial_layer : ℕ
  pub max_bitrate_bps : ℕ

pub record PublishedTrack : Type 0 where
  pub id : ℕ
  pub owner : ℕ
  pub kind : MediaKind
  pub codec : Codec
  pub clock_rate : ℕ
  pub payload_type : ℕ
  pub encodings : List Encoding

pub record Layer : Type 0 where
  pub spatial : ℕ
  pub temporal : ℕ

pub record SubscriptionConfig : Type 0 where
  pub id : ℕ
  pub subscriber : ℕ
  pub track_id : ℕ
  pub output_ssrc : ℕ
  pub output_payload_type : ℕ
  pub initial_layer : Layer
  pub initial_sequence_number : ℕ
  pub initial_timestamp : ℕ
  pub extension_rewrites : List ExtensionRewrite

pub record ForwardedPacket : Type 0 where
  pub subscriber : ℕ
  pub subscription_id : ℕ
  pub packet : List ℕ
  pub layer : Layer
  pub keyframe : Bool
  pub retransmission : Bool

-- `SfuEvent::LayerSwitched`, the only event of a down-track.
pub record LayerSwitched : Type 0 where
  pub subscription_id : ℕ
  pub switched_from : Option ℕ
  pub switched_to : ℕ
