-- ===== src/Datagram/Mux.antt =====
-- RTP and RTCP on one socket: what `is_rtcp_mux_safe_payload_type` promises of `classify`.
use fluvora.Prelude.{ℕ, ◌+◌, ◌≤◌, ◌≡◌, ◌↔◌, true, List, ◌∷◌, arith}
use fluvora.Datagram.Classify.{rtp, classify, is_rtcp_mux_safe_payload_type}

-- For a payload type of seven bits, the mux-safe ones are exactly those with which every version-2
-- packet (first byte 128 to 191) is classified as RTP, whether its marker bit is set or not.
pub is_rtcp_mux_safe_payload_type-classify :
    (first payload_type : ℕ) (rest : List ℕ)
    → 128 ≤ first
    → first ≤ 191
    → payload_type ≤ 127
    → (is_rtcp_mux_safe_payload_type payload_type ≡ true) ↔ (
        (classify (first ∷ payload_type ∷ rest) ≡ rtp)
        × (classify (first ∷ (128 + payload_type) ∷ rest) ≡ rtp))
unfolding is_rtcp_mux_safe_payload_type classify
is_rtcp_mux_safe_payload_type-classify first payload_type rest lo hi pt = ground arith
