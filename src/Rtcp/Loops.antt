-- ===== src/Rtcp/Loops.antt =====
-- How far the loop of `parse_compound` in crates/webrtc/rtcp/src/codec.rs runs.
use Prim.Native.Nat.{bit_and}
use fluvora.Prelude.{
  ℕ, zero, suc, ◌/◌, ◌≤◌, ◌≡◌, refl, subst, List, [], ◌∷◌, length, drop, arith, Result, ok, err,
  map_ok, some, Result-cases, inl, inr, ok_or, ◌==◌, ltb, not, ◌>>=◌, ◌>>◌, fail_if, bind-inv,
  is_empty, fail_if-inv, ok-injective, length-drop, get_range,
}
use fluvora.Prelude.Words.{usize_bits, checked_add, checked_mul}
use fluvora.Rtcp.Model.{
  RtcpPacket, RtcpError, packet_too_large, packet_too_short, invalid_packet_length,
}
use fluvora.Rtcp.Parse.{
  header_len, read_at, strip_padding, parse_packet, parse_one, compound_loop, parse_compound,
}

words_len :
    (w words len : ℕ)
    → ok_or (checked_add usize_bits w 1) packet_too_large ≡ ok words
    → ok_or (checked_mul usize_bits words 4) packet_too_large ≡ ok len
    → 4 ≤ len
words_len w words len a b = ground arith

get_range-stop :
    (input : List ℕ) (len : ℕ) (bytes : List ℕ)
    → ok_or (get_range input 0 len) (invalid_packet_length len (length input)) ≡ ok bytes
    → len ≤ length input
get_range-stop input len bytes h = ground arith

-- A packet takes at least its header, and no more than there is.
parse_one-advances :
    (input : List ℕ) (one : RtcpPacket × ℕ)
    → parse_one input ≡ ok one
    → (4 ≤ one.1) × (one.1 ≤ length input)
unfolding parse_one
parse_one-advances input one h =
    let (long, h1) = fail_if-inv (ltb (length input) header_len) _ _ one h in
    let (first, e1, h2) = bind-inv (read_at 1 input 0) _ one h1 in
    let (packet_type, e2, h3) = bind-inv (read_at 1 input 1) _ one h2 in
    let (w, e3, h4) = bind-inv (read_at 2 input 2) _ one h3 in
    let (version, h5) = fail_if-inv (not (first / 64 == 2)) _ _ one h4 in
    let (words, e4, h6) = bind-inv (ok_or (checked_add usize_bits w 1) packet_too_large) _ one h5 in
    let (len, e5, h7) =
      bind-inv (ok_or (checked_mul usize_bits words 4) packet_too_large) _ one h6 in
    let (bytes, e6, h8) =
      bind-inv (ok_or (get_range input 0 len) (invalid_packet_length len (length input))) _ one
        h7 in
    let (body, e7, h9) =
      bind-inv (strip_padding (not (bit_and first 0x20 == 0)) (drop header_len bytes)) _ one h8 in
    let (packet, e8, h10) =
      bind-inv (parse_packet (bit_and first 0x1f) packet_type body) _ one h9 in
    subst (λ (t : RtcpPacket × ℕ). (4 ≤ t.1) × (t.1 ≤ length input)) (ok-injective h10)
      (words_len w words len e4 e5, get_range-stop input len bytes e6)

-- The loop has ended, and a run with the other fuel ends with the same answer.
Ends : ℕ → ℕ → List ℕ → Type 0
Ends a b input =
    (answer : Result RtcpError (List RtcpPacket)) × (compound_loop a input ≡ some answer)
    × (compound_loop b input ≡ some answer)

both_enough : (a b : ℕ) (input : List ℕ) → length input ≤ a → length input ≤ b → Ends a b input
unfolding compound_loop Ends
both_enough a b [] ha hb = (ok [], refl, refl)
both_enough zero b (x ∷ xs) ha hb = absurd (omega arith)
both_enough (suc a) zero (x ∷ xs) ha hb = absurd (omega arith)
both_enough (suc a) (suc b) (x ∷ xs) ha hb = elim (Result-cases (parse_one (x ∷ xs))) [
  | inl (one, e) ↦
      let moved = parse_one-advances (x ∷ xs) one e in
      let left = length-drop one.1 (x ∷ xs) in
      let (rest, e1, e2) =
        both_enough a b (drop one.1 (x ∷ xs)) (omega (arith, left, moved.0))
          (omega (arith, left, moved.0)) in
      (map_ok (λ packets. one.0 ∷ packets) rest, rw (e, e1) refl, rw (e, e2) refl)
  | inr (failure, e) ↦ (err failure, rw e refl, rw e refl)
]

-- The loop of the parser ends: with at least as many rounds as there are bytes it yields an answer
-- and never runs out, and the answer of `parse_compound` is that one, where a datagram without packets
-- is an error.
pub parse_compound-terminates :
    (input : List ℕ) (fuel : ℕ)
    → length input ≤ fuel
    → (answer : Result RtcpError (List RtcpPacket)) × (compound_loop fuel input ≡ some answer)
      × (parse_compound input
          ≡ (do packets ← answer; fail_if (is_empty packets) (packet_too_short 0); ok packets))
unfolding parse_compound Ends
parse_compound-terminates input fuel long =
    let (answer, own, longer) = both_enough (length input) fuel input (omega arith) long in
    (answer, longer, rw own refl)
