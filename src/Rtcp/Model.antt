-- ===== src/Rtcp/Model.antt =====
-- The packets of crates/webrtc/rtcp/src/model.rs and the errors of crates/webrtc/rtcp/src/error.rs.
use fluvora.Prelude.{ℕ, List}
use fluvora.Prelude.Int.{ℤ}

pub record ReportBlock : Type 0 where
  pub ssrc : ℕ
  pub fraction_lost : ℕ
  pub cumulative_lost : ℤ
  pub extended_highest_sequence : ℕ
  pub jitter : ℕ
  pub last_sender_report : ℕ
  pub delay_since_last_sender_report : ℕ

pub record SenderReport : Type 0 where
  pub sender_ssrc : ℕ
  pub ntp_timestamp : ℕ
  pub rtp_timestamp : ℕ
  pub sender_packet_count : ℕ
  pub sender_octet_count : ℕ
  pub reports : List ReportBlock

pub record ReceiverReport : Type 0 where
  pub sender_ssrc : ℕ
  pub reports : List ReportBlock

pub record SdesItem : Type 0 where
  pub item_type : ℕ
  pub value : List ℕ

pub record SdesChunk : Type 0 where
  pub ssrc : ℕ
  pub items : List SdesItem

pub record SourceDescription : Type 0 where
  pub chunks : List SdesChunk

pub record NackEntry : Type 0 where
  pub packet_id : ℕ
  pub lost_packet_bitmask : ℕ

pub record GenericNack : Type 0 where
  pub sender_ssrc : ℕ
  pub media_ssrc : ℕ
  pub entries : List NackEntry

pub record PictureLossIndication : Type 0 where
  pub sender_ssrc : ℕ
  pub media_ssrc : ℕ

pub data TwccStatus : Type 0 where
  not_received : TwccStatus
  received_small_delta : ℕ → TwccStatus
  received_large_delta : ℤ → TwccStatus

pub record TransportWideFeedback : Type 0 where
  pub sender_ssrc : ℕ
  pub media_ssrc : ℕ
  pub base_sequence_number : ℕ
  pub reference_time : ℤ
  pub feedback_packet_count : ℕ
  pub statuses : List TwccStatus

pub record RawPacket : Type 0 where
  pub count : ℕ
  pub packet_type : ℕ
  pub body : List ℕ

pub data RtcpPacket : Type 0 where
  sender_report : SenderReport → RtcpPacket
  receiver_report : ReceiverReport → RtcpPacket
  source_description : SourceDescription → RtcpPacket
  generic_nack : GenericNack → RtcpPacket
  picture_loss_indication : PictureLossIndication → RtcpPacket
  transport_wide_feedback : TransportWideFeedback → RtcpPacket
  raw : RawPacket → RtcpPacket

pub data RtcpError : Type 0 where
  packet_too_short : ℕ → RtcpError
  unsupported_version : ℕ → RtcpError
  -- declared, remaining
  invalid_packet_length : ℕ → ℕ → RtcpError
  truncated_packet : RtcpError
  invalid_padding : ℕ → RtcpError
  -- packet type, length
  invalid_body_length : ℕ → ℕ → RtcpError
  invalid_cumulative_loss : ℤ → RtcpError
  count_too_large : ℕ → RtcpError
  sdes_item_too_large : ℕ → RtcpError
  reserved_twcc_status : ℕ → RtcpError
  invalid_twcc_status_count : RtcpError
  invalid_twcc_deltas : RtcpError
  invalid_reference_time : ℤ → RtcpError
  packet_too_large : RtcpError
