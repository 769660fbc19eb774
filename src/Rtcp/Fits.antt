-- ===== src/Rtcp/Fits.antt =====
-- Packets whose fields fit their widths in the source's types.
use fluvora.Prelude.{ℕ, ◌%◌, ◌^◌, ◌<◌, ◌≤◌, ◌≡◌, Bool, true, false, length, All, ◌==◌, ◌&&◌, ◌||◌}
use fluvora.Prelude.Int.{fits_signed}
use fluvora.Rtcp.Model.{
  ReportBlock, SenderReport, SdesItem, SdesChunk, NackEntry, RtcpPacket, sender_report,
  receiver_report, source_description, generic_nack, picture_loss_indication,
  transport_wide_feedback, raw, TwccStatus, not_received, received_small_delta,
  received_large_delta, TransportWideFeedback,
}

abbrev pub Word32 : ℕ → Type 0
Word32 n = n < 256 ^ 4

pub record BlockFits (r : ReportBlock) : Type 0 where
  pub ssrc : Word32 r.ssrc
  pub highest : Word32 r.extended_highest_sequence
  pub jitter : Word32 r.jitter
  pub last : Word32 r.last_sender_report
  pub delay : Word32 r.delay_since_last_sender_report

pub record SenderFits (r : SenderReport) : Type 0 where
  pub sender : Word32 r.sender_ssrc
  pub ntp : r.ntp_timestamp < 256 ^ 8
  pub rtp : Word32 r.rtp_timestamp
  pub packets : Word32 r.sender_packet_count
  pub octets : Word32 r.sender_octet_count
  pub reports : All BlockFits r.reports

-- An item type of zero would be read as the END marker.
abbrev pub ItemFits : SdesItem → Type 0
ItemFits x = 1 ≤ x.item_type

abbrev pub ChunkFits : SdesChunk → Type 0
ChunkFits c = Word32 c.ssrc × All ItemFits c.items

abbrev pub EntryFits : NackEntry → Type 0
EntryFits x = (x.packet_id < 256 ^ 2) × (x.lost_packet_bitmask < 256 ^ 2)

abbrev pub StatusFits : TwccStatus → Type 0
StatusFits not_received = Unit {0}
StatusFits (received_small_delta delta) = delta < 256
StatusFits (received_large_delta delta) = fits_signed 15 delta ≡ true

pub record FeedbackFits (f : TransportWideFeedback) : Type 0 where
  pub sender : Word32 f.sender_ssrc
  pub media : Word32 f.media_ssrc
  pub base : f.base_sequence_number < 256 ^ 2
  pub statuses : All StatusFits f.statuses

-- The packet types and formats that have a parser of their own.
abbrev pub is_known : ℕ → ℕ → Bool
is_known count packet_type =
    packet_type == 200
    || packet_type == 201
    || packet_type == 202
    || (packet_type == 205 && (count == 1 || count == 15))
    || (packet_type == 206 && count == 1)

-- A raw packet is of no known type, and its body is a whole number of words.
abbrev pub Fits : RtcpPacket → Type 0
Fits (sender_report r) = SenderFits r
Fits (receiver_report r) = Word32 r.sender_ssrc × All BlockFits r.reports
Fits (source_description d) = All ChunkFits d.chunks
Fits (generic_nack n) = Word32 n.sender_ssrc × Word32 n.media_ssrc × All EntryFits n.entries
Fits (picture_loss_indication p) = Word32 p.sender_ssrc × Word32 p.media_ssrc
Fits (transport_wide_feedback f) = FeedbackFits f
Fits (raw p) = (is_known p.count p.packet_type ≡ false) × (length p.body % 4 ≡ 0)
