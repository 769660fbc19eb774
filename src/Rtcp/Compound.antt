-- ===== src/Rtcp/Compound.antt =====
-- Compound packets: what `encode_compound` writes, `parse_compound` reads.
use Prim.Native.Nat.{bit_and, bit_or}
use fluvora.Prelude.{
  ℕ, zero, suc, ◌+◌, ◌-◌, ◌*◌, ◌/◌, ◌%◌, ◌^◌, ◌≤◌, ◌<◌, ◌≡◌, refl, sym, ap, ◌∙◌, subst, Bool, true,
  false, ◌&&◌, List, [], ◌∷◌, ◌++◌, length, All, arith, Result, ok, ok_or, ◌==◌, leb, ltb,
  length-append, drop-length_append, ◌>>◌, fail_if, bind-inv, fail_if-inv, map_ok-inv, ok-injective,
  all_below, of_all_below, &&-inv, ==_iff, some,
}
use mathlib.Core.List.{append_assoc, append-nil}
use fluvora.Prelude.Bytes.{to_be}
use fluvora.Prelude.Words.{usize_bits, checked_add, checked_mul, checked_add-some, checked_mul-some}
use fluvora.Prelude.Fields.{read_field-at, read_byte-at, get_range-middle}
use fluvora.Rtcp.Model.{
  RtcpPacket, sender_report, receiver_report, source_description, generic_nack,
  picture_loss_indication, transport_wide_feedback, raw, RtcpError, truncated_packet,
  packet_too_large, count_too_large,
}
use fluvora.Rtcp.Fits.{Fits}
use fluvora.Rtcp.Twcc
use fluvora.Rtcp.Twcc.{pad_words}
use fluvora.Rtcp.Parse.{
  header_len, parse_packet, strip_padding, parse_one, compound_loop, parse_compound,
}
use fluvora.Rtcp.Encode.{
  encode_packet, encode_pli, frame, encode_loop, encode_compound, max_packet_len,
}
use fluvora.Rtcp.Reports.{
  Reads, parse_pli-encode_pli, parse_nack-encode_nack, parse_sender_report-encode,
  parse_receiver_report-encode,
}
use fluvora.Rtcp.Descriptions.{parse_source_description-encode, pad_words-whole}
use fluvora.Rtcp.Statuses.{parse-encode}

-- What the encoding of a packet is good for: framing, and reading the packet back.
Decodes : RtcpPacket → ℕ × ℕ × List ℕ → Type 0
Decodes p t = (parse_packet t.0 t.1 t.2 ≡ ok p) × (length t.2 % 4 ≡ 0)

parse_packet-encode_packet :
    (p : RtcpPacket) (t : ℕ × ℕ × List ℕ) → Fits p → encode_packet p ≡ ok t → Decodes p t
unfolding encode_packet parse_packet Decodes Reads
parse_packet-encode_packet (sender_report r) t f h =
    let (read, type, small, whole) = parse_sender_report-encode r t f h in
    (rw (type, read) refl, whole)
parse_packet-encode_packet (receiver_report r) t f h =
    let (read, type, small, whole) = parse_receiver_report-encode r t f.0 f.1 h in
    (rw (type, read) refl, whole)
parse_packet-encode_packet (source_description d) t f h =
    let (read, type, small, whole) = parse_source_description-encode d t f h in
    (rw (type, read) refl, whole)
parse_packet-encode_packet (generic_nack n) t f h =
    let (read, whole) = parse_nack-encode_nack n f.0 f.1 f.2 in
    subst (Decodes (generic_nack n)) (ok-injective h) (rw read refl, whole)
parse_packet-encode_packet (picture_loss_indication p) t f h =
    subst (Decodes (picture_loss_indication p)) (ok-injective h)
      (rw (parse_pli-encode_pli p f.0 f.1) refl, unfold encode_pli in refl)
parse_packet-encode_packet (transport_wide_feedback w) t f h =
    let (body, e, eq) = map_ok-inv _ (Twcc.encode w) t h in
    let (read, whole) = parse-encode w body f e in
    subst (Decodes (transport_wide_feedback w)) eq (rw read refl, whole)
parse_packet-encode_packet (raw p) t f h =
    subst (Decodes (raw p)) (ok-injective h) (ground (arith, f.0), f.1)

-- The first byte of a header, over the 32 counts.
count_test : ℕ → Bool
count_test count =
    (bit_or 0x80 count / 64 == 2)
    && ((bit_and (bit_or 0x80 count) 0x20 == 0) && (bit_and (bit_or 0x80 count) 0x1f == count))

count_table : all_below 32 count_test ≡ true
unfolding all_below count_test
count_table = refl

complete_len :
    (n complete : ℕ)
    → ok_or (checked_add usize_bits n header_len) packet_too_large ≡ ok complete
    → complete ≡ n + 4
complete_len n complete h = ground arith

-- The bytes of a packet in a compound.
framed : ℕ × ℕ × List ℕ → List ℕ
framed (count, packet_type, body) =
    bit_or 0x80 count ∷ packet_type ∷ (to_be 2 ((length body + 4) / 4 - 1) ++ body)

frame-inv :
    (count packet_type : ℕ) (body bytes : List ℕ)
    → length body % 4 ≡ 0
    → frame (count, packet_type, body) ≡ ok bytes
    → (framed (count, packet_type, body) ≡ bytes)
      × (count ≤ 31)
      × ((length body + 4) / 4 - 1 < 256 ^ 2)
unfolding frame framed
frame-inv count packet_type body bytes whole h =
    let same = pad_words-whole body whole in
    let size = ap (λ (b : List ℕ). length b) same in
    let (complete, e1, h1) =
      bind-inv
        (ok_or (checked_add usize_bits (length (pad_words body)) header_len) packet_too_large) _
        bytes h in
    let value : complete ≡ length body + 4 =
      complete_len (length (pad_words body)) complete e1 ∙ omega (arith, size) in
    let words = complete / 4 - 1 in
    let output : Result RtcpError (List ℕ) =
      ok (bit_or 0x80 count ∷ packet_type ∷ (to_be 2 words ++ pad_words body)) in
    let (few, h2) =
      fail_if-inv (leb 65536 words) packet_too_large
        (fail_if (ltb 31 count) (count_too_large count) >> output) bytes h1 in
    let (small, h3) = fail_if-inv (ltb 31 count) (count_too_large count) output bytes h2 in
    let same_words : (length body + 4) / 4 - 1 ≡ words = omega (arith, value) in
    (
      rw (same_words, sym same) (ok-injective h3),
      ground (arith, small),
      rw same_words (ground (arith, few)),
    )

parse_one-framed :
    (p : RtcpPacket) (count packet_type : ℕ) (body rest : List ℕ)
    → Decodes p (count, packet_type, body)
    → count ≤ 31
    → (length body + 4) / 4 - 1 < 256 ^ 2
    → parse_one (framed (count, packet_type, body) ++ rest)
      ≡ ok (p, length (framed (count, packet_type, body)))
unfolding parse_one framed Decodes count_test strip_padding
parse_one-framed p count packet_type body rest d small few =
    let words = (length body + 4) / 4 - 1 in
    let first = bit_or 0x80 count in
    let q2 = to_be 2 words ++ (body ++ rest) in
    let test = of_all_below 32 count_test count_table count (omega arith) in
    let (version, others) = &&-inv (first / 64 == 2) _ test in
    let (padding, counted) = &&-inv (bit_and first 0x20 == 0) _ others in
    let count_same = (==_iff (bit_and first 0x1f) count).0 counted in
    let a = read_byte-at truncated_packet first [] (packet_type ∷ q2) 0 refl (omega arith) in
    let b = read_byte-at truncated_packet packet_type (first ∷ []) q2 1 refl (omega arith) in
    let c =
      read_field-at truncated_packet 2 words (first ∷ packet_type ∷ []) (body ++ rest) 2 refl few
        (omega arith) in
    let long : ltb (length (first ∷ packet_type ∷ q2)) 4 ≡ false = ground arith in
    let add = checked_add-some words 1 (omega arith) in
    let product : (words + 1) * 4 ≡ length body + 4 = omega (arith, d.1) in
    let mul : checked_mul usize_bits (words + 1) 4 ≡ some (length body + 4) =
      checked_mul-some (words + 1) 4 (omega (arith, product)) ∙ ap some product in
    let range =
      get_range-middle [] (first ∷ packet_type ∷ (to_be 2 words ++ body)) rest 0 (length body + 4)
        refl (omega arith) in
    rw (long, a, b, c, version, add, mul, range, padding, count_same, d.0)
      (ap (λ (n : ℕ). ok (p, n)) (omega arith))

compound_loop-framed :
    (p : RtcpPacket) (ps : List RtcpPacket) (count packet_type : ℕ) (body tail : List ℕ) (fuel : ℕ)
    → Decodes p (count, packet_type, body)
    → count ≤ 31
    → (length body + 4) / 4 - 1 < 256 ^ 2
    → length (framed (count, packet_type, body) ++ tail) ≤ fuel
    → ((fuel : ℕ) → length tail ≤ fuel → compound_loop fuel tail ≡ some (ok ps))
    → compound_loop fuel (framed (count, packet_type, body) ++ tail) ≡ some (ok (p ∷ ps))
unfolding compound_loop framed
compound_loop-framed p ps count packet_type body tail zero d small few long read =
    absurd (omega arith)
compound_loop-framed p ps count packet_type body tail (suc fuel) d small few long read =
    let bytes = framed (count, packet_type, body) in
    let one = parse_one-framed p count packet_type body tail d small few in
    let others = read fuel (omega (arith, length-append body tail)) in
    rw (one, drop-length_append bytes tail, others) refl

-- Behind the bytes written so far stands what the loop reads as the packets.
compound_loop-encode_loop :
    (ps : List RtcpPacket) (output out : List ℕ)
    → All Fits ps
    → encode_loop output ps ≡ ok out
    → (tail : List ℕ) × (output ++ tail ≡ out)
      × ((fuel : ℕ) → length tail ≤ fuel → compound_loop fuel tail ≡ some (ok ps))
unfolding encode_loop Decodes
compound_loop-encode_loop [] output out f h =
    ([], append-nil output ∙ ok-injective h, λ fuel long. unfold compound_loop in refl)
compound_loop-encode_loop (p ∷ ps) output out f h =
    let (t, e1, h1) = bind-inv (encode_packet p) _ out h in
    let (bytes, e2, h2) = bind-inv (frame t) _ out h1 in
    let (small, h3) =
      fail_if-inv (ltb max_packet_len (length (output ++ bytes))) packet_too_large _ out h2 in
    let decodes = parse_packet-encode_packet p t f.0 e1 in
    let (eq, count, words) = frame-inv t.0 t.1 t.2 bytes decodes.1 e2 in
    let (tail, shape, read) = compound_loop-encode_loop ps (output ++ bytes) out f.1 h3 in
    (
      bytes ++ tail,
      sym (append_assoc output bytes tail) ∙ shape,
      λ fuel long.
          subst (λ (b : List ℕ). compound_loop fuel (b ++ tail) ≡ some (ok (p ∷ ps))) eq
            (compound_loop-framed p ps t.0 t.1 t.2 tail fuel decodes count words
              (subst (λ (b : List ℕ). length (b ++ tail) ≤ fuel) (sym eq) long) read),
    )

-- A compound of packets whose fields fit their types, as far as it is encoded, is parsed back to
-- the same packets, in order: reports, descriptions, negative acknowledgements, picture loss,
-- transport feedback and raw packets. SDES item types must not be zero, and a raw packet must be of
-- no known type with a body of whole words.
pub parse_compound-encode_compound :
    (p : RtcpPacket) (ps : List RtcpPacket) (bytes : List ℕ)
    → All Fits (p ∷ ps)
    → encode_compound (p ∷ ps) ≡ ok bytes
    → parse_compound bytes ≡ ok (p ∷ ps)
unfolding encode_compound parse_compound
parse_compound-encode_compound p ps bytes f h =
    let (tail, eq, read) = compound_loop-encode_loop (p ∷ ps) [] bytes f h in
    rw (sym eq, read (length tail) (omega arith)) refl
