-- ===== src/Rtcp/Encode.antt =====
-- Compound packets written: crates/webrtc/rtcp/src/codec.rs, `encode_compound` and what it calls.
use Prim.Native.Nat.{bit_or}
use fluvora.Prelude.{
  ℕ, ◌-◌, ◌/◌, not, List, [], ◌∷◌, ◌++◌, ltb, leb, if◌then◌else◌, length, Result, ok, err, ◌>>=◌,
  ◌>>◌, fail_if, ok_or, map_ok,
}
use fluvora.Prelude.Bytes.{to_be}
use fluvora.Prelude.Int.{fits_signed, to_word}
use fluvora.Prelude.Words.{usize_bits, checked_add}
use fluvora.Rtcp.Model.{
  ReportBlock, SenderReport, ReceiverReport, SdesItem, SdesChunk, SourceDescription, NackEntry,
  GenericNack, PictureLossIndication, RtcpPacket, sender_report, receiver_report,
  source_description, generic_nack, picture_loss_indication, transport_wide_feedback, raw,
  RtcpError, invalid_cumulative_loss, count_too_large, sdes_item_too_large, packet_too_large,
}
use fluvora.Rtcp.Twcc
use fluvora.Rtcp.Twcc.{pad_words}
use fluvora.Rtcp.Parse.{header_len}

abbrev pub max_packet_len : ℕ
max_packet_len = 262144

unfoldable pub checked_count : ℕ → Result RtcpError ℕ
checked_count count = if ltb 31 count then err (count_too_large count) else ok count

unfoldable pub report_block_bytes : ReportBlock → List ℕ
report_block_bytes r =
    to_be 4 r.ssrc
    ++ (r.fraction_lost
        ∷ (to_be 3 (to_word 24 r.cumulative_lost)
            ++ (to_be 4 r.extended_highest_sequence
                ++ (to_be 4 r.jitter
                    ++ (to_be 4 r.last_sender_report
                        ++ to_be 4 r.delay_since_last_sender_report)))))

unfoldable pub encode_report_blocks : List ReportBlock → Result RtcpError (List ℕ)
unfolding report_block_bytes
encode_report_blocks [] = ok []
encode_report_blocks (r ∷ rs) =
    let rest = encode_report_blocks rs in
    if not (fits_signed 23 r.cumulative_lost)
    then err (invalid_cumulative_loss r.cumulative_lost)
    else map_ok (λ bytes. report_block_bytes r ++ bytes) rest

-- The count, the packet type and the body.
abbrev pub Encoded : Type 0
Encoded = ℕ × ℕ × List ℕ

unfoldable pub encode_sender_report : SenderReport → Result RtcpError Encoded
unfolding checked_count encode_report_blocks
encode_sender_report r = do
  count ← checked_count (length r.reports)
  blocks ← encode_report_blocks r.reports
  ok (
    count,
    200,
    to_be 4 r.sender_ssrc
        ++ (to_be 8 r.ntp_timestamp
            ++ (to_be 4 r.rtp_timestamp
                ++ (to_be 4 r.sender_packet_count ++ (to_be 4 r.sender_octet_count ++ blocks)))),
  )

unfoldable pub encode_receiver_report : ReceiverReport → Result RtcpError Encoded
unfolding checked_count encode_report_blocks
encode_receiver_report r = do
  count ← checked_count (length r.reports)
  blocks ← encode_report_blocks r.reports
  ok (count, 201, to_be 4 r.sender_ssrc ++ blocks)

unfoldable pub encode_items : List SdesItem → Result RtcpError (List ℕ)
encode_items [] = ok []
encode_items (x ∷ xs) =
    let rest = encode_items xs in
    if ltb 255 (length x.value)
    then err (sdes_item_too_large (length x.value))
    else map_ok (λ bytes. x.item_type ∷ length x.value ∷ (x.value ++ bytes)) rest

-- A chunk starts at a multiple of four, so its own length is padded to one.
unfoldable pub encode_chunk : SdesChunk → Result RtcpError (List ℕ)
unfolding encode_items pad_words
encode_chunk c =
    map_ok (λ items. pad_words (to_be 4 c.ssrc ++ (items ++ (0 ∷ [])))) (encode_items c.items)

unfoldable pub encode_chunks : List SdesChunk → Result RtcpError (List ℕ)
unfolding encode_chunk
encode_chunks [] = ok []
encode_chunks (c ∷ cs) = do chunk ← encode_chunk c; chunks ← encode_chunks cs; ok (chunk ++ chunks)

unfoldable pub encode_sdes : SourceDescription → Result RtcpError Encoded
unfolding checked_count encode_chunks
encode_sdes d = do
  count ← checked_count (length d.chunks)
  chunks ← encode_chunks d.chunks
  ok (count, 202, chunks)

unfoldable pub entry_bytes : List NackEntry → List ℕ
entry_bytes [] = []
entry_bytes (x ∷ xs) = to_be 2 x.packet_id ++ (to_be 2 x.lost_packet_bitmask ++ entry_bytes xs)

unfoldable pub encode_nack : GenericNack → List ℕ
unfolding entry_bytes
encode_nack n = to_be 4 n.sender_ssrc ++ (to_be 4 n.media_ssrc ++ entry_bytes n.entries)

unfoldable pub encode_pli : PictureLossIndication → List ℕ
encode_pli p = to_be 4 p.sender_ssrc ++ to_be 4 p.media_ssrc

unfoldable pub encode_packet : RtcpPacket → Result RtcpError Encoded
unfolding encode_sender_report encode_receiver_report encode_sdes encode_nack encode_pli Twcc.encode
encode_packet (sender_report report) = encode_sender_report report
encode_packet (receiver_report report) = encode_receiver_report report
encode_packet (source_description description) = encode_sdes description
encode_packet (generic_nack nack) = ok (1, 205, encode_nack nack)
encode_packet (picture_loss_indication pli) = ok (1, 206, encode_pli pli)
encode_packet (transport_wide_feedback feedback) =
    map_ok (λ body. (15, 205, body)) (Twcc.encode feedback)
encode_packet (raw packet) = ok (packet.count, packet.packet_type, packet.body)

-- The header and the padded body of what `encode_packet` gave.
unfoldable pub frame : Encoded → Result RtcpError (List ℕ)
frame (count, packet_type, body) = do
  let padded = pad_words body
  complete_len ← ok_or (checked_add usize_bits (length padded) header_len) packet_too_large
  let words_minus_one = complete_len / 4 - 1
  fail_if (leb 65536 words_minus_one) packet_too_large
  fail_if (ltb 31 count) (count_too_large count)
  ok (bit_or 0x80 count ∷ packet_type ∷ (to_be 2 words_minus_one ++ padded))

-- The loop, with the bytes written so far.
unfoldable pub encode_loop : List ℕ → List RtcpPacket → Result RtcpError (List ℕ)
unfolding encode_packet frame
encode_loop output [] = ok output
encode_loop output (p ∷ ps) = do
  encoded ← encode_packet p
  bytes ← frame encoded
  fail_if (ltb max_packet_len (length (output ++ bytes))) packet_too_large
  encode_loop (output ++ bytes) ps

unfoldable pub encode_compound : List RtcpPacket → Result RtcpError (List ℕ)
unfolding encode_loop
encode_compound packets = encode_loop [] packets
