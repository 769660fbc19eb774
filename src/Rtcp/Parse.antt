-- ===== src/Rtcp/Parse.antt =====
-- Compound packets read: crates/webrtc/rtcp/src/codec.rs, `parse_compound` and what it calls. A
-- position in the input or in a body is the list of the bytes from there on.
use Prim.Native.Nat.{bit_and}
use mathlib.Core.Option
use fluvora.Prelude.{
  ℕ, zero, suc, ◌+◌, ◌-◌, ◌*◌, ◌/◌, ◌%◌, Bool, true, false, not, ◌&&◌, ◌||◌, List, [], ◌∷◌, ltb,
  leb, ◌==◌, if◌then◌else◌, Option, none, some, length, take, drop, any, is_empty, get_range,
  get_last?, Result, ok, err, ◌>>=◌, ◌>>◌, fail_if, ok_or, map_ok,
}
use fluvora.Prelude.Int.{of_word}
use fluvora.Prelude.Fields.{read_field}
use fluvora.Prelude.Words.{usize_bits, checked_add, checked_mul}
use fluvora.Rtcp.Model.{
  ReportBlock, SenderReport, ReceiverReport, SdesItem, SdesChunk, SourceDescription, NackEntry,
  GenericNack, PictureLossIndication, RtcpPacket, sender_report, receiver_report,
  source_description, generic_nack, picture_loss_indication, transport_wide_feedback, raw,
  RtcpError, packet_too_short, unsupported_version, invalid_packet_length, truncated_packet,
  invalid_padding, invalid_body_length, packet_too_large,
}
use fluvora.Rtcp.Twcc

abbrev pub header_len : ℕ
header_len = 4

abbrev pub report_block_len : ℕ
report_block_len = 24

-- `read_u16`, `read_u32` and `read_u64` through `read_array`.
abbrev pub read_at : ℕ → List ℕ → ℕ → Result RtcpError ℕ
read_at width body position = read_field truncated_packet width body position

unfoldable pub require_body_len : ℕ → List ℕ → ℕ → Result RtcpError (Unit {0})
require_body_len packet_type body expected =
    fail_if (not (length body == expected)) (invalid_body_length packet_type (length body))

unfoldable pub parse_report_block : List ℕ → Result RtcpError ReportBlock
parse_report_block body = do
  ssrc ← read_at 4 body 0
  fraction_lost ← read_at 1 body 4
  cumulative_lost ← read_at 3 body 5
  extended_highest_sequence ← read_at 4 body 8
  jitter ← read_at 4 body 12
  last_sender_report ← read_at 4 body 16
  delay_since_last_sender_report ← read_at 4 body 20
  ok (record {
    ssrc = ssrc;
    fraction_lost = fraction_lost;
    cumulative_lost = of_word 23 cumulative_lost;
    extended_highest_sequence = extended_highest_sequence;
    jitter = jitter;
    last_sender_report = last_sender_report;
    delay_since_last_sender_report = delay_since_last_sender_report;
  })

unfoldable pub parse_report_blocks : ℕ → List ℕ → Result RtcpError (List ReportBlock)
unfolding parse_report_block
parse_report_blocks zero body = ok []
parse_report_blocks (suc count) body = do
  report ← parse_report_block body
  reports ← parse_report_blocks count (drop report_block_len body)
  ok (report ∷ reports)

unfoldable pub parse_sender_report : ℕ → List ℕ → Result RtcpError SenderReport
unfolding require_body_len parse_report_blocks
parse_sender_report count body = do
  require_body_len 200 body (24 + count * report_block_len)
  sender_ssrc ← read_at 4 body 0
  ntp_timestamp ← read_at 8 body 4
  rtp_timestamp ← read_at 4 body 12
  sender_packet_count ← read_at 4 body 16
  sender_octet_count ← read_at 4 body 20
  reports ← parse_report_blocks count (drop 24 body)
  ok (record {
    sender_ssrc = sender_ssrc;
    ntp_timestamp = ntp_timestamp;
    rtp_timestamp = rtp_timestamp;
    sender_packet_count = sender_packet_count;
    sender_octet_count = sender_octet_count;
    reports = reports;
  })

unfoldable pub parse_receiver_report : ℕ → List ℕ → Result RtcpError ReceiverReport
unfolding require_body_len parse_report_blocks
parse_receiver_report count body = do
  require_body_len 201 body (4 + count * report_block_len)
  sender_ssrc ← read_at 4 body 0
  reports ← parse_report_blocks count (drop 4 body)
  ok (record { sender_ssrc = sender_ssrc; reports = reports })

-- The items of a chunk up to the END marker, with the bytes behind it. Each item takes two bytes at
-- least, so the length of the body is enough fuel, and the clause for no fuel is not reached.
unfoldable pub parse_items : ℕ → List ℕ → Result RtcpError (List SdesItem × List ℕ)
parse_items fuel [] = err truncated_packet
parse_items zero (item_type ∷ body) = err truncated_packet
parse_items (suc fuel) (item_type ∷ []) =
    if item_type == 0 then ok ([], []) else err truncated_packet
parse_items (suc fuel) (item_type ∷ length' ∷ body) =
    let more = do
      items ← parse_items fuel (drop length' body)
      ok (record { item_type = item_type; value = take length' body } ∷ items.0, items.1)
    in if item_type == 0
      then ok ([], length' ∷ body)
      else if leb length' (length body)
      then more
      else err truncated_packet

-- `n` zero bytes of alignment.
unfoldable pub skip_zeros : ℕ → List ℕ → Result RtcpError (List ℕ)
skip_zeros zero body = ok body
skip_zeros (suc n) [] = err truncated_packet
skip_zeros (suc n) (byte ∷ body) =
    let rest = skip_zeros n body in if byte == 0 then rest else err (invalid_padding 0)

-- One chunk, with the bytes behind it. The alignment makes the bytes taken a multiple of four.
unfoldable pub parse_chunk : List ℕ → Result RtcpError (SdesChunk × List ℕ)
unfolding parse_items skip_zeros
parse_chunk body = do
  ssrc ← read_at 4 body 0
  items ← parse_items (length body) (drop 4 body)
  let taken = length body - length items.1
  rest ← skip_zeros ((4 - taken % 4) % 4) items.1
  ok (record { ssrc = ssrc; items = items.0 }, rest)

unfoldable pub parse_chunks : ℕ → List ℕ → Result RtcpError (List SdesChunk × List ℕ)
unfolding parse_chunk
parse_chunks zero body = ok ([], body)
parse_chunks (suc count) body = do
  chunk ← parse_chunk body
  chunks ← parse_chunks count chunk.1
  ok (chunk.0 ∷ chunks.0, chunks.1)

unfoldable pub parse_source_description : ℕ → List ℕ → Result RtcpError SourceDescription
unfolding parse_chunks
parse_source_description count body = do
  chunks ← parse_chunks count body
  fail_if (not (is_empty chunks.1)) (invalid_body_length 202 (length body))
  ok (record { chunks = chunks.0 })

-- `rounds` entries.
unfoldable pub parse_entries : ℕ → List ℕ → Result RtcpError (List NackEntry)
parse_entries zero body = ok []
parse_entries (suc rounds) body = do
  packet_id ← read_at 2 body 0
  lost_packet_bitmask ← read_at 2 body 2
  entries ← parse_entries rounds (drop 4 body)
  ok (record { packet_id = packet_id; lost_packet_bitmask = lost_packet_bitmask } ∷ entries)

-- The loop runs while four bytes are left, which are `(length - 8) / 4` rounds.
unfoldable pub parse_nack : List ℕ → Result RtcpError GenericNack
unfolding parse_entries
parse_nack body = do
  fail_if (ltb (length body) 8 || not ((length body - 8) % 4 == 0))
      (invalid_body_length 205 (length body))
  entries ← parse_entries ((length body - 8) / 4) (drop 8 body)
  sender_ssrc ← read_at 4 body 0
  media_ssrc ← read_at 4 body 4
  ok (record { sender_ssrc = sender_ssrc; media_ssrc = media_ssrc; entries = entries })

unfoldable pub parse_pli : List ℕ → Result RtcpError PictureLossIndication
unfolding require_body_len
parse_pli body = do
  require_body_len 206 body 8
  sender_ssrc ← read_at 4 body 0
  media_ssrc ← read_at 4 body 4
  ok (record { sender_ssrc = sender_ssrc; media_ssrc = media_ssrc })

unfoldable pub parse_packet : ℕ → ℕ → List ℕ → Result RtcpError RtcpPacket
unfolding parse_sender_report parse_receiver_report parse_source_description parse_nack parse_pli
    Twcc.parse
parse_packet count packet_type body =
    if packet_type == 200
    then map_ok sender_report (parse_sender_report count body)
    else if packet_type == 201
    then map_ok receiver_report (parse_receiver_report count body)
    else if packet_type == 202
    then map_ok source_description (parse_source_description count body)
    else if packet_type == 205 && count == 1
    then map_ok generic_nack (parse_nack body)
    else if packet_type == 205 && count == 15
    then map_ok transport_wide_feedback (Twcc.parse body)
    else if packet_type == 206 && count == 1
    then map_ok picture_loss_indication (parse_pli body)
    else ok (raw (record { count = count; packet_type = packet_type; body = body }))

-- The trailing padding: its last byte counts it, the others are zero.
unfoldable pub strip_padding : Bool → List ℕ → Result RtcpError (List ℕ)
strip_padding false body = ok body
strip_padding true body = do
  padding_len ← ok_or (get_last? body) (invalid_padding 0)
  fail_if (padding_len == 0 || ltb (length body) padding_len) (invalid_padding padding_len)
  let content_len = length body - padding_len
  padding ← ok_or (get_range body content_len (length body - 1)) (invalid_padding padding_len)
  fail_if (any (λ byte. not (byte == 0)) padding) (invalid_padding padding_len)
  ok (take content_len body)

-- The packet in front of the remaining bytes, with its length.
unfoldable pub parse_one : List ℕ → Result RtcpError (RtcpPacket × ℕ)
unfolding strip_padding parse_packet
parse_one remaining = do
  fail_if (ltb (length remaining) header_len) (packet_too_short (length remaining))
  first ← read_at 1 remaining 0
  packet_type ← read_at 1 remaining 1
  words_minus_one ← read_at 2 remaining 2
  fail_if (not (first / 64 == 2)) (unsupported_version (first / 64))
  words ← ok_or (checked_add usize_bits words_minus_one 1) packet_too_large
  packet_len ← ok_or (checked_mul usize_bits words 4) packet_too_large
  packet_bytes ←
      ok_or (get_range remaining 0 packet_len) (invalid_packet_length packet_len (length remaining))
  body ← strip_padding (not (bit_and first 0x20 == 0)) (drop header_len packet_bytes)
  packet ← parse_packet (bit_and first 0x1f) packet_type body
  ok (packet, packet_len)

-- A round of the loop, where `rest` is what follows a packet of the given length.
unfoldable pub compound_round :
    Result RtcpError (RtcpPacket × ℕ)
    → (ℕ → Option (Result RtcpError (List RtcpPacket)))
    → Option (Result RtcpError (List RtcpPacket))
compound_round (err e) rest = some (err e)
compound_round (ok one) rest = Option.map (map_ok (λ packets. one.0 ∷ packets)) (rest one.1)

-- The loop over the input: none where the fuel is out and the loop has not ended.
unfoldable pub compound_loop : ℕ → List ℕ → Option (Result RtcpError (List RtcpPacket))
unfolding parse_one compound_round
compound_loop fuel [] = some (ok [])
compound_loop zero (b ∷ input) = none
compound_loop (suc fuel) (b ∷ input) =
    compound_round (parse_one (b ∷ input)) λ n. compound_loop fuel (drop n (b ∷ input))

-- What follows the loop. It ends within as many rounds as the input has bytes, so that the answer of
-- the first clause is never given.
unfoldable pub finish_compound :
    Option (Result RtcpError (List RtcpPacket)) → Result RtcpError (List RtcpPacket)
finish_compound none = err (packet_too_short 0)
finish_compound (some answer) = do
  packets ← answer
  fail_if (is_empty packets) (packet_too_short 0)
  ok packets

unfoldable pub parse_compound : List ℕ → Result RtcpError (List RtcpPacket)
unfolding compound_loop finish_compound
parse_compound input = finish_compound (compound_loop (length input) input)
