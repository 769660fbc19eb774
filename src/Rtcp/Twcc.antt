-- ===== src/Rtcp/Twcc.antt =====
-- Transport-wide feedback: crates/webrtc/rtcp/src/twcc.rs. A position in the body is the list of
-- the bytes from there on.
use Prim.Native.Nat.{bit_and, bit_or}
use fluvora.Prelude.{
  ℕ, zero, suc, ◌-◌, ◌*◌, ◌/◌, ◌%◌, ◌^◌, min, not, ◌||◌, List, [], ◌∷◌, ◌++◌, ltb, ◌==◌,
  if◌then◌else◌, length, take, drop, any, Result, ok, err, ◌>>=◌, ◌>>◌, fail_if, map_ok,
}
use fluvora.Prelude.Bytes.{to_be, zeros}
use fluvora.Prelude.Int.{fits_signed, to_word, of_word}
use fluvora.Prelude.Fields.{read_field}
use fluvora.Rtcp.Model.{
  TwccStatus, not_received, received_small_delta, received_large_delta, TransportWideFeedback,
  RtcpError, truncated_packet, invalid_body_length, reserved_twcc_status, invalid_twcc_status_count,
  invalid_twcc_deltas, invalid_reference_time,
}

abbrev pub fixed_body_len : ℕ
fixed_body_len = 16

-- `count` symbols of a chunk: `width` bits each, the first one `shift` bits from the right. At
-- most `wanted` of them are taken.
unfoldable pub chunk_symbols : ℕ → ℕ → ℕ → ℕ → ℕ → Result RtcpError (List ℕ)
chunk_symbols zero width shift wanted chunk = ok []
chunk_symbols (suc count) width shift wanted chunk =
    let symbol = bit_and (chunk / 2 ^ shift) (2 ^ width - 1) in
    let rest = chunk_symbols count width (shift - width) (wanted - 1) chunk in
    if wanted == 0
    then ok []
    else if symbol == 3
    then err (reserved_twcc_status symbol)
    else map_ok (◌∷◌ symbol) rest

abbrev repeat : ℕ → ℕ → List ℕ
repeat zero symbol = []
repeat (suc n) symbol = symbol ∷ repeat n symbol

-- `decode_chunk`: the symbols that the chunk adds, where `remaining` are still wanted.
unfoldable pub decode_chunk : ℕ → ℕ → Result RtcpError (List ℕ)
unfolding chunk_symbols
decode_chunk chunk remaining =
    let symbol = bit_and (chunk / 2 ^ 13) 0x03 in
    let run_length = bit_and chunk 0x1fff in
    if bit_and chunk 0x8000 == 0
    then if symbol == 3
      then err (reserved_twcc_status symbol)
      else if run_length == 0
      then err invalid_twcc_status_count
      else ok (repeat (min run_length remaining) symbol)
    else if not (bit_and chunk 0x4000 == 0)
    then chunk_symbols 7 2 12 remaining chunk
    else chunk_symbols 14 1 13 remaining chunk

-- The loop over the chunks: the symbols, and the bytes behind the chunks. Each chunk yields one
-- symbol at least, so `wanted` rounds are enough, and the clause for no fuel is not reached.
unfoldable pub decode_chunks : ℕ → ℕ → List ℕ → Result RtcpError (List ℕ × List ℕ)
decode_chunks zero wanted body =
    if wanted == 0 then ok ([], body) else err invalid_twcc_status_count
decode_chunks (suc fuel) wanted body =
    let more = do
      chunk ← read_field truncated_packet 2 body 0
      symbols ← decode_chunk chunk wanted
      rest ← decode_chunks fuel (wanted - length symbols) (drop 2 body)
      ok (symbols ++ rest.0, rest.1)
    in if wanted == 0 then ok ([], body) else more

-- The deltas of the symbols: the statuses, and the bytes behind the deltas.
unfoldable pub decode_deltas : List ℕ → List ℕ → Result RtcpError (List TwccStatus × List ℕ)
decode_deltas [] body = ok ([], body)
decode_deltas (symbol ∷ symbols) body =
    let none_follows = do rest ← decode_deltas symbols body; ok (not_received ∷ rest.0, rest.1)
    in let small = do
      delta ← read_field invalid_twcc_deltas 1 body 0
      rest ← decode_deltas symbols (drop 1 body)
      ok (received_small_delta delta ∷ rest.0, rest.1)
      in let large = do
        delta ← read_field invalid_twcc_deltas 2 body 0
        rest ← decode_deltas symbols (drop 2 body)
        ok (received_large_delta (of_word 15 delta) ∷ rest.0, rest.1)
        in if symbol == 0
          then none_follows
          else if symbol == 1
          then small
          else if symbol == 2
          then large
          else err (reserved_twcc_status symbol)

unfoldable pub parse : List ℕ → Result RtcpError TransportWideFeedback
parse body = do
  fail_if (ltb (length body) fixed_body_len) (invalid_body_length 205 (length body))
  sender_ssrc ← read_field truncated_packet 4 body 0
  media_ssrc ← read_field truncated_packet 4 body 4
  base_sequence_number ← read_field truncated_packet 2 body 8
  status_count ← read_field truncated_packet 2 body 10
  reference_time ← read_field truncated_packet 3 body 12
  feedback_packet_count ← read_field truncated_packet 1 body 15
  chunks ← decode_chunks status_count status_count (drop fixed_body_len body)
  deltas ← decode_deltas chunks.0 chunks.1
  fail_if (any (λ byte. not (byte == 0)) deltas.1 || ltb 3 (length deltas.1)) invalid_twcc_deltas
  ok (record {
    sender_ssrc = sender_ssrc;
    media_ssrc = media_ssrc;
    base_sequence_number = base_sequence_number;
    reference_time = of_word 23 reference_time;
    feedback_packet_count = feedback_packet_count;
    statuses = deltas.0;
  })

abbrev pub symbol_of : TwccStatus → ℕ
symbol_of not_received = 0
symbol_of (received_small_delta delta) = 1
symbol_of (received_large_delta delta) = 2

-- The symbols of one chunk of seven, the next one going `shift` bits to the left.
unfoldable pub chunk_bits : ℕ → ℕ → List TwccStatus → ℕ
chunk_bits chunk shift [] = chunk
chunk_bits chunk shift (status ∷ statuses) =
    chunk_bits (bit_or chunk (symbol_of status * 2 ^ shift)) (shift - 2) statuses

-- `chunks(7)`, each as a big-endian word; the fuel bounds the number of chunks.
unfoldable pub encode_chunks : ℕ → List TwccStatus → List ℕ
encode_chunks fuel [] = []
encode_chunks zero (s ∷ ss) = []
encode_chunks (suc fuel) (s ∷ ss) =
    to_be 2 (chunk_bits 0xc000 12 (take 7 (s ∷ ss))) ++ encode_chunks fuel (drop 7 (s ∷ ss))

unfoldable pub encode_deltas : List TwccStatus → List ℕ
encode_deltas [] = []
encode_deltas (not_received ∷ ss) = encode_deltas ss
encode_deltas (received_small_delta delta ∷ ss) = delta ∷ encode_deltas ss
encode_deltas (received_large_delta delta ∷ ss) = to_be 2 (to_word 16 delta) ++ encode_deltas ss

-- `while output.len() % 4 != 0 { output.push(0) }`
unfoldable pub pad_words : List ℕ → List ℕ
pad_words bytes = bytes ++ zeros ((4 - length bytes % 4) % 4)

unfoldable pub encode : TransportWideFeedback → Result RtcpError (List ℕ)
encode f = do
  fail_if (ltb 65535 (length f.statuses)) invalid_twcc_status_count
  fail_if (not (fits_signed 23 f.reference_time)) (invalid_reference_time f.reference_time)
  ok (
      pad_words (
        to_be 4 f.sender_ssrc
        ++ (to_be 4 f.media_ssrc
            ++ (to_be 2 f.base_sequence_number
                ++ (to_be 2 (length f.statuses)
                    ++ (to_be 3 (to_word 24 f.reference_time)
                        ++ (f.feedback_packet_count
                            ∷ (encode_chunks (length f.statuses) f.statuses
                                ++ encode_deltas f.statuses))))))))
