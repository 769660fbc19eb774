-- ===== src/Rtp/Tests.antt =====
-- Runs of the RTP modules, and their theorems at concrete inputs.
use fluvora.Prelude.{
  ℕ, ◌^◌, ◌%◌, ◌≡◌, refl, inl, true, none, some, List, [], ◌∷◌, ◌++◌, map, ok, arith,
}
use fluvora.Prelude.Bytes.{zeros}
use fluvora.Rtp.Errors.{one_byte}
use fluvora.Rtp.Extension.{HeaderExtension, parse_extensions, encode_one_byte, encode_extensions}
use fluvora.Rtp.ExtensionRoundTrip.{parse_extensions-encode_extensions}
use fluvora.Rtp.Rewrite.{Rewrite, apply}
use fluvora.Rtp.RewriteParse.{parse-apply}
use fluvora.Rtp.Packet.{Header, Packet, parse, parse_header_length}
use fluvora.Rtp.Prefix.{parse_header_length-replaced}
use fluvora.Rtp.Build.{set_extensions, set_marker, new_builder, build}
use fluvora.Rtp.Sequence.{
  extend_all, extend_sequence, extend_timestamp, new_extender, extend_all-sequence,
  extend_all-timestamp,
}

extend_all-sequence_example :
    extend_all extend_sequence new_extender (map (λ i. i % 2 ^ 16) (65_000 ∷ 65_600 ∷ 65_535 ∷ []))
    ≡ 65_000 ∷ 65_600 ∷ 65_535 ∷ []
extend_all-sequence_example =
    extend_all-sequence 65_000 (65_600 ∷ 65_535 ∷ []) (omega arith) (omega arith)

extend_all-timestamp_example :
    extend_all extend_timestamp new_extender
      (map (λ i. i % 2 ^ 32) (4_294_967_000 ∷ 4_294_970_000 ∷ []))
    ≡ 4_294_967_000 ∷ 4_294_970_000 ∷ []
extend_all-timestamp_example =
    extend_all-timestamp 4_294_967_000 (4_294_970_000 ∷ []) (omega arith) (omega arith)

abbrev two_extensions : List HeaderExtension
two_extensions = record { id = 3; value = 7 ∷ 8 ∷ [] } ∷ record { id = 14; value = 9 ∷ [] } ∷ []

abbrev two_extensions_bytes : List ℕ
two_extensions_bytes = 0x31 ∷ 7 ∷ 8 ∷ 0xe0 ∷ 9 ∷ []

two_extensions_encode : encode_extensions one_byte two_extensions ≡ ok two_extensions_bytes
unfolding encode_extensions encode_one_byte
two_extensions_encode = refl

parse_extensions-encode_extensions_example :
    parse_extensions one_byte (two_extensions_bytes ++ zeros 3) ≡ ok two_extensions
parse_extensions-encode_extensions_example =
    parse_extensions-encode_extensions one_byte two_extensions two_extensions_bytes 3 (inl refl)
      two_extensions_encode

-- A packet of version 2 with an extension block of one word and two bytes of payload.
abbrev small_packet : List ℕ
small_packet =
    0x90 ∷ 0xef ∷ 0 ∷ 1 ∷ 0 ∷ 0 ∷ 0 ∷ 2 ∷ 0 ∷ 0 ∷ 0 ∷ 3 ∷ 0xbe ∷ 0xde ∷ 0 ∷ 1 ∷ 0x10 ∷ 7 ∷ 0 ∷ 0 ∷ 1
    ∷ 2 ∷ []

abbrev small_parsed : Packet
small_parsed = record {
  header = record {
    marker = true;
    payload_type = 111;
    sequence_number = 1;
    timestamp = 2;
    ssrc = 3;
    csrcs = [];
  };
  header_len = 20;
  extension_format = some one_byte;
  extension_data = some (0x10 ∷ 7 ∷ 0 ∷ 0 ∷ []);
  extensions = record { id = 1; value = 7 ∷ [] } ∷ [];
  payload = 1 ∷ 2 ∷ [];
  padding_len = 0;
}

small_packet-parse : parse small_packet ≡ ok small_parsed
unfolding parse
small_packet-parse = refl

-- The payload is replaced, by bytes of the same length.
parse_header_length-replaced_example :
    parse_header_length (
      0x90 ∷ 0xef ∷ 0 ∷ 1 ∷ 0 ∷ 0 ∷ 0 ∷ 2 ∷ 0 ∷ 0 ∷ 0 ∷ 3 ∷ 0xbe ∷ 0xde ∷ 0 ∷ 1 ∷ 0x10 ∷ 7 ∷ 0 ∷ 0
      ∷ 200 ∷ 201 ∷ [])
    ≡ ok 20
parse_header_length-replaced_example =
    parse_header_length-replaced small_packet small_parsed (200 ∷ 201 ∷ []) small_packet-parse refl

small_packet-build :
    build (
      set_extensions one_byte
        (record { id = 1; value = 7 ∷ [] } ∷ [])
        (set_marker true (new_builder 111 1 2 3 (1 ∷ 2 ∷ []))))
    ≡ ok small_packet
unfolding build set_extensions set_marker new_builder
small_packet-build = refl

abbrev renumber : Rewrite
renumber = record {
  marker = none;
  payload_type = some 100;
  sequence_number = some 9;
  timestamp = none;
  ssrc = none;
}

abbrev renumbered_packet : List ℕ
renumbered_packet =
    0x90 ∷ 0xe4 ∷ 0 ∷ 9 ∷ 0 ∷ 0 ∷ 0 ∷ 2 ∷ 0 ∷ 0 ∷ 0 ∷ 3 ∷ 0xbe ∷ 0xde ∷ 0 ∷ 1 ∷ 0x10 ∷ 7 ∷ 0 ∷ 0 ∷ 1
    ∷ 2 ∷ []

renumber_run : apply renumber small_packet ≡ ok renumbered_packet
unfolding apply
renumber_run = refl

parse-apply_example :
    (h : Header) × (parse renumbered_packet ≡ ok (record small_parsed { header = h }))
    × (h.csrcs ≡ [])
parse-apply_example =
    parse-apply renumber small_packet renumbered_packet small_parsed small_packet-parse renumber_run
