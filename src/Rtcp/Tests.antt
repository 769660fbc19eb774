-- ===== src/Rtcp/Tests.antt =====
-- Runs of the RTCP codec, and its theorems at concrete inputs.
use fluvora.Prelude.{
  ℕ, ◌≡◌, refl, List, [], ◌∷◌, Result, some, none, ok, err, arith, is_empty, fail_if, ◌>>=◌, ◌>>◌,
}
use fluvora.Prelude.Int.{negsuc}
use fluvora.Prelude.Fields.{read_field}
use fluvora.Rtcp.Model.{
  ReportBlock, TransportWideFeedback, RtcpPacket, RtcpError, receiver_report, source_description,
  generic_nack, transport_wide_feedback, not_received, received_small_delta, received_large_delta,
  invalid_packet_length, invalid_padding, packet_too_short,
}
use fluvora.Rtcp.Twcc.{
  chunk_symbols, decode_chunk, decode_chunks, decode_deltas, chunk_bits, encode_deltas, pad_words,
}
use fluvora.Rtcp.Twcc
use fluvora.Rtcp.Parse.{parse_one, compound_loop, parse_compound, parse_entries}
use fluvora.Rtcp.Encode.{encode_compound, report_block_bytes, entry_bytes}
use fluvora.Rtcp.Fits.{BlockFits, FeedbackFits}
use fluvora.Rtcp.Compound.{parse_compound-encode_compound}
use fluvora.Rtcp.Loops.{parse_compound-terminates}

abbrev block : ReportBlock
block = record {
  ssrc = 9;
  fraction_lost = 3;
  cumulative_lost = negsuc 1;
  extended_highest_sequence = 65540;
  jitter = 12;
  last_sender_report = 1;
  delay_since_last_sender_report = 2;
}

abbrev report : RtcpPacket
report = receiver_report (record { sender_ssrc = 7; reports = block ∷ [] })

abbrev names : RtcpPacket
names = source_description (record {
  chunks = record { ssrc = 7; items = record { item_type = 1; value = 97 ∷ 98 ∷ [] } ∷ [] } ∷ [];
})

abbrev lost : RtcpPacket
lost = generic_nack (record {
  sender_ssrc = 7;
  media_ssrc = 9;
  entries = record { packet_id = 40; lost_packet_bitmask = 5 } ∷ [];
})

abbrev deltas : TransportWideFeedback
deltas = record {
  sender_ssrc = 7;
  media_ssrc = 9;
  base_sequence_number = 100;
  reference_time = negsuc 4;
  feedback_packet_count = 1;
  statuses = received_small_delta 8 ∷ not_received ∷ received_large_delta (negsuc 99) ∷ [];
}

abbrev feedback : RtcpPacket
feedback = transport_wide_feedback deltas

abbrev lost_bytes : List ℕ
lost_bytes = 0x81 ∷ 205 ∷ 0 ∷ 3 ∷ 0 ∷ 0 ∷ 0 ∷ 7 ∷ 0 ∷ 0 ∷ 0 ∷ 9 ∷ 0 ∷ 40 ∷ 0 ∷ 5 ∷ []

encode_lost : encode_compound (lost ∷ []) ≡ ok lost_bytes
unfolding encode_compound pad_words entry_bytes
encode_lost = refl

parse_lost : parse_compound lost_bytes ≡ ok (lost ∷ [])
unfolding parse_compound compound_loop parse_one parse_entries read_field
parse_lost = refl

-- A declared length beyond the datagram.
parse_short : parse_compound (0x81 ∷ 205 ∷ 0 ∷ 3 ∷ 0 ∷ 0 ∷ []) ≡ err (invalid_packet_length 16 6)
unfolding parse_compound compound_loop parse_one read_field
parse_short = refl

-- A padding that is longer than the body.
parse_padded : parse_compound (0xa0 ∷ 204 ∷ 0 ∷ 1 ∷ 0 ∷ 0 ∷ 0 ∷ 9 ∷ []) ≡ err (invalid_padding 9)
unfolding parse_compound compound_loop parse_one read_field
parse_padded = refl

abbrev compound : List ℕ
compound =
    0x81 ∷ 201 ∷ 0 ∷ 7 ∷ 0 ∷ 0 ∷ 0 ∷ 7 ∷ 0 ∷ 0 ∷ 0 ∷ 9 ∷ 3 ∷ 255 ∷ 255 ∷ 254 ∷ 0 ∷ 1 ∷ 0 ∷ 4 ∷ 0 ∷ 0
    ∷ 0 ∷ 12 ∷ 0 ∷ 0 ∷ 0 ∷ 1 ∷ 0 ∷ 0 ∷ 0 ∷ 2 ∷ 0x81 ∷ 202 ∷ 0 ∷ 3 ∷ 0 ∷ 0 ∷ 0 ∷ 7 ∷ 1 ∷ 2 ∷ 97 ∷ 98
    ∷ 0 ∷ 0 ∷ 0 ∷ 0 ∷ 0x8f ∷ 205 ∷ 0 ∷ 6 ∷ 0 ∷ 0 ∷ 0 ∷ 7 ∷ 0 ∷ 0 ∷ 0 ∷ 9 ∷ 0 ∷ 100 ∷ 0 ∷ 3 ∷ 255
    ∷ 255 ∷ 251 ∷ 1 ∷ 0xd2 ∷ 0 ∷ 8 ∷ 255 ∷ 156 ∷ 0 ∷ 0 ∷ 0 ∷ lost_bytes

block_fits : BlockFits block
block_fits = record {
  ssrc = omega arith;
  highest = omega arith;
  jitter = omega arith;
  last = omega arith;
  delay = omega arith;
}

feedback_fits : FeedbackFits deltas
feedback_fits = record {
  sender = omega arith;
  media = omega arith;
  base = omega arith;
  statuses = (omega arith, (tt, (refl, tt)));
}

parse_compound-encode_compound_example :
    parse_compound compound ≡ ok (report ∷ names ∷ feedback ∷ lost ∷ [])
unfolding encode_compound pad_words entry_bytes report_block_bytes chunk_bits encode_deltas
    Twcc.encode_chunks
parse_compound-encode_compound_example =
    parse_compound-encode_compound report (names ∷ feedback ∷ lost ∷ []) compound
      (
        (omega arith, (block_fits, tt)),
        (
          ((omega arith, (omega arith, tt)), tt),
          (feedback_fits, ((omega arith, omega arith, ((omega arith, omega arith), tt)), tt)),
        ),
      )
      refl

parse_compound-terminates_example :
    (answer : Result RtcpError (List RtcpPacket)) × (compound_loop 40 lost_bytes ≡ some answer)
    × (parse_compound lost_bytes
        ≡ (do packets ← answer; fail_if (is_empty packets) (packet_too_short 0); ok packets))
parse_compound-terminates_example = parse_compound-terminates lost_bytes 40 (omega arith)

-- Too little fuel is no answer.
loop_short : compound_loop 0 lost_bytes ≡ none
unfolding compound_loop
loop_short = refl
