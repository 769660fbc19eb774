-- ===== src/Rtcp/Statuses.antt =====
-- The chunks and the deltas of transport-wide feedback: what is encoded is parsed.
use fluvora.Prelude.{
  ℕ, zero, suc, ◌-◌, ◌%◌, ◌^◌, ◌≤◌, ◌<◌, ◌≡◌, refl, sym, ap, ◌∙◌, subst, true, false, ◌||◌, List,
  [], ◌∷◌, ◌++◌, map, length, take, drop, All, arith, ok, ◌==◌, ltb, not, any, length-take,
  length-drop, take-append-drop, ◌⊎◌, inl, inr, fail_if-inv, ok-injective,
}
use native.Mathlib.Decide.{dec_le}
use mathlib.Core.List.{append_assoc, map-append}
use fluvora.Prelude.Bytes.{to_be, zeros, length-zeros}
use fluvora.Prelude.Int.{
  to_word, to_word-lt-16, to_word-lt-24, of_word-to_word-16, of_word-to_word-24, fits_signed,
}
use fluvora.Prelude.Fields.{read_field-at, read_byte-at}
use fluvora.Rtcp.Model.{
  TwccStatus, not_received, received_small_delta, received_large_delta, TransportWideFeedback,
  truncated_packet, invalid_twcc_deltas, invalid_twcc_status_count, invalid_reference_time,
}
use fluvora.Rtcp.Fits.{StatusFits, FeedbackFits}
use fluvora.Rtcp.Twcc.{
  symbol_of, chunk_bits, decode_chunk, decode_chunks, decode_deltas, encode_chunks, encode_deltas,
  pad_words, parse, encode,
}
use fluvora.Rtcp.Feedback.{Symbol, chunk_bits-symbols, decode_chunk-symbols}
use fluvora.Rtcp.Descriptions.{length-pad_words}

length-map : (ss : List TwccStatus) → length (map symbol_of ss) ≡ length ss
length-map [] = refl
length-map (s ∷ ss) = ap suc (length-map ss)

map-Symbol : (ss : List TwccStatus) → All Symbol (map symbol_of ss)
map-Symbol [] = tt
map-Symbol (not_received ∷ ss) = (omega arith, map-Symbol ss)
map-Symbol (received_small_delta d ∷ ss) = (omega arith, map-Symbol ss)
map-Symbol (received_large_delta d ∷ ss) = (omega arith, map-Symbol ss)

-- The first seven statuses, or all that there are, decoded from their chunk.
front_chunk :
    (ss : List TwccStatus)
    → (decode_chunk (chunk_bits 0xc000 12 (take 7 ss)) (length ss) ≡ ok (map symbol_of (take 7 ss)))
      × (chunk_bits 0xc000 12 (take 7 ss) < 256 ^ 2)
front_chunk ss =
    let front = take 7 ss in
    let size = length-take 7 ss in
    let same = length-map front in
    let full : ((length (map symbol_of front) ≡ 7) × (7 ≤ length ss))
        ⊎ (length (map symbol_of front) ≡ length ss) =
      elim (dec_le 7 (length ss)) [
        | yes long ↦ inl (omega (arith, size, same), long)
        | no short ↦ inr (omega (arith, size, same))
      ] in
    rw (chunk_bits-symbols 0xc000 12 front) (
      decode_chunk-symbols (map symbol_of front) (length ss) (map-Symbol front)
        (omega (arith, size, same)) full)

decode_chunks-encode :
    (fuel fuel' : ℕ) (ss : List TwccStatus) (tail : List ℕ)
    → length ss ≤ fuel
    → length ss ≤ fuel'
    → decode_chunks fuel (length ss) (encode_chunks fuel' ss ++ tail) ≡ ok (map symbol_of ss, tail)
unfolding decode_chunks encode_chunks
decode_chunks-encode zero fuel' [] tail h h' = refl
decode_chunks-encode (suc fuel) fuel' [] tail h h' = refl
decode_chunks-encode zero fuel' (s ∷ ss) tail h h' = absurd (omega arith)
decode_chunks-encode (suc fuel) zero (s ∷ ss) tail h h' = absurd (omega arith)
decode_chunks-encode (suc fuel) (suc fuel') (s ∷ ss) tail h h' =
    let front = take 7 (s ∷ ss) in
    let back = drop 7 (s ∷ ss) in
    let chunk = chunk_bits 0xc000 12 front in
    let rest = encode_chunks fuel' back ++ tail in
    let (decoded, small) = front_chunk (s ∷ ss) in
    let left = length-drop 7 (s ∷ ss) in
    let taken = length-take 7 (s ∷ ss) in
    let word = read_field-at truncated_packet 2 chunk [] rest 0 refl small (omega arith) in
    let more : (length (s ∷ ss) == 0) ≡ false = ground arith in
    let wanted : length (s ∷ ss) - length (map symbol_of front) ≡ length back =
      omega (arith, left, taken, length-map front) in
    let others =
      decode_chunks-encode fuel fuel' back tail (omega (arith, left)) (omega (arith, left)) in
    let whole : map symbol_of front ++ map symbol_of back ≡ map symbol_of (s ∷ ss) =
      sym (map-append symbol_of front back) ∙ ap (map symbol_of) (take-append-drop 7 (s ∷ ss)) in
    rw (more, word, decoded, wanted, others, whole) refl

decode_deltas-encode :
    (ss : List TwccStatus) (tail : List ℕ)
    → All StatusFits ss
    → decode_deltas (map symbol_of ss) (encode_deltas ss ++ tail) ≡ ok (ss, tail)
unfolding decode_deltas encode_deltas
decode_deltas-encode [] tail f = refl
decode_deltas-encode (not_received ∷ ss) tail f = rw (decode_deltas-encode ss tail f.1) refl
decode_deltas-encode (received_small_delta d ∷ ss) tail f =
    let byte =
      read_byte-at invalid_twcc_deltas d [] (encode_deltas ss ++ tail) 0 refl (omega arith) in
    rw (byte, decode_deltas-encode ss tail f.1) refl
decode_deltas-encode (received_large_delta z ∷ ss) tail f =
    let word =
      read_field-at invalid_twcc_deltas 2 (to_word 16 z) [] (encode_deltas ss ++ tail) 0 refl
        (to_word-lt-16 z) (omega arith) in
    rw (word, decode_deltas-encode ss tail f.1, of_word-to_word-16 z f.0) refl

any-zeros : (k : ℕ) → any (λ byte. not (byte == 0)) (zeros k) ≡ false
any-zeros zero = refl
any-zeros (suc k) = any-zeros k

-- The zeros that pad the feedback.
end_padding :
    (k : ℕ) → k < 4 → (any (λ byte. not (byte == 0)) (zeros k) || ltb 3 (length (zeros k))) ≡ false
end_padding k h = ground (arith, any-zeros k, length-zeros k)

-- The fixed fields of the feedback, and what follows.
feedback_bytes : TransportWideFeedback → List ℕ → List ℕ
feedback_bytes f tail =
    to_be 4 f.sender_ssrc
    ++ (to_be 4 f.media_ssrc
        ++ (to_be 2 f.base_sequence_number
            ++ (to_be 2 (length f.statuses)
                ++ (to_be 3 (to_word 24 f.reference_time) ++ (f.feedback_packet_count ∷ tail)))))

parse-feedback_bytes :
    (f : TransportWideFeedback) (k : ℕ)
    → FeedbackFits f
    → length f.statuses < 256 ^ 2
    → fits_signed 23 f.reference_time ≡ true
    → k < 4
    → parse (
        feedback_bytes f
          (encode_chunks (length f.statuses) f.statuses ++ (encode_deltas f.statuses ++ zeros k)))
      ≡ ok f
unfolding parse feedback_bytes
parse-feedback_bytes f k fits few time small =
    let word = to_word 24 f.reference_time in
    let deltas = encode_deltas f.statuses ++ zeros k in
    let q6 = encode_chunks (length f.statuses) f.statuses ++ deltas in
    let q5 = f.feedback_packet_count ∷ q6 in
    let q4 = to_be 3 word ++ q5 in
    let q3 = to_be 2 (length f.statuses) ++ q4 in
    let q2 = to_be 2 f.base_sequence_number ++ q3 in
    let q1 = to_be 4 f.media_ssrc ++ q2 in
    let p1 = to_be 4 f.sender_ssrc in
    let p2 = p1 ++ to_be 4 f.media_ssrc in
    let p3 = p2 ++ to_be 2 f.base_sequence_number in
    let p4 = p3 ++ to_be 2 (length f.statuses) in
    let p5 = p4 ++ to_be 3 word in
    let a = read_field-at truncated_packet 4 f.sender_ssrc [] q1 0 refl fits.sender (omega arith) in
    let b = read_field-at truncated_packet 4 f.media_ssrc p1 q2 4 refl fits.media (omega arith) in
    let c =
      read_field-at truncated_packet 2 f.base_sequence_number p2 q3 8 refl fits.base
        (omega arith) in
    let d = read_field-at truncated_packet 2 (length f.statuses) p3 q4 10 refl few (omega arith) in
    let e =
      read_field-at truncated_packet 3 word p4 q5 12 refl (to_word-lt-24 f.reference_time)
        (omega arith) in
    let g = read_byte-at truncated_packet f.feedback_packet_count p5 q6 15 refl (omega arith) in
    let long : ltb (length (to_be 4 f.sender_ssrc ++ q1)) 16 ≡ false = ground arith in
    let chunks =
      decode_chunks-encode (length f.statuses) (length f.statuses) f.statuses deltas (omega arith)
        (omega arith) in
    rw
      (
        long,
        a,
        b,
        c,
        d,
        e,
        g,
        chunks,
        decode_deltas-encode f.statuses (zeros k) fits.statuses,
        end_padding k small,
        of_word-to_word-24 f.reference_time time,
      )
      refl

pub parse-encode :
    (f : TransportWideFeedback) (body : List ℕ)
    → FeedbackFits f
    → encode f ≡ ok body
    → (parse body ≡ ok f) × (length body % 4 ≡ 0)
unfolding encode feedback_bytes
parse-encode f body fits h =
    let (few, h1) =
      fail_if-inv (ltb 65535 (length f.statuses)) invalid_twcc_status_count _ body h in
    let (short, h2) =
      fail_if-inv (not (fits_signed 23 f.reference_time)) (invalid_reference_time f.reference_time)
        _ body h1 in
    let tail = encode_chunks (length f.statuses) f.statuses ++ encode_deltas f.statuses in
    let whole = feedback_bytes f tail in
    let k = (4 - length whole % 4) % 4 in
    let eq : pad_words whole ≡ body = ok-injective h2 in
    let shape : pad_words whole
        ≡ feedback_bytes f (
            encode_chunks (length f.statuses) f.statuses ++ (encode_deltas f.statuses ++ zeros k)) =
      unfold pad_words in simp (append_assoc) in
    let read =
      parse-feedback_bytes f k fits (ground (arith, few)) (ground (arith, short)) (omega arith) in
    (
      subst (λ (b : List ℕ). parse b ≡ ok f) (sym shape ∙ eq) read,
      subst (λ (b : List ℕ). length b % 4 ≡ 0) eq (length-pad_words whole),
    )
