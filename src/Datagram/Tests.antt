-- ===== src/Datagram/Tests.antt =====
-- The tests of crates/webrtc/rtc-datagram/src/lib.rs, and the properties at concrete inputs.
use fluvora.Prelude.{◌≡◌, ◌↔◌, refl, true, [], ◌∷◌, arith}
use fluvora.Datagram.Classify.{
  turn_channel_data, dtls, rtp, rtcp, unknown, classify, is_rtcp_mux_safe_payload_type,
}
use fluvora.Datagram.Mux.{is_rtcp_mux_safe_payload_type-classify}

classifies_channel_data : classify (0x40 ∷ 0x01 ∷ 0 ∷ 3 ∷ 1 ∷ 2 ∷ 3 ∷ []) ≡ turn_channel_data
unfolding classify
classifies_channel_data = refl

classifies_dtls : classify (22 ∷ 0xfe ∷ 0xfd ∷ []) ≡ dtls
unfolding classify
classifies_dtls = refl

classifies_rtp : classify (0x80 ∷ 111 ∷ []) ≡ rtp
unfolding classify
classifies_rtp = refl

classifies_rtcp : classify (0x80 ∷ 200 ∷ []) ≡ rtcp
unfolding classify
classifies_rtcp = refl

classifies_truncated : classify (0x80 ∷ []) ≡ unknown
unfolding classify
classifies_truncated = refl

is_rtcp_mux_safe_payload_type-classify_example :
    (is_rtcp_mux_safe_payload_type 111 ≡ true)
    ↔ ((classify (0x80 ∷ 111 ∷ 0 ∷ []) ≡ rtp) × (classify (0x80 ∷ 239 ∷ 0 ∷ []) ≡ rtp))
is_rtcp_mux_safe_payload_type-classify_example =
    is_rtcp_mux_safe_payload_type-classify 0x80 111 (0 ∷ []) (omega arith) (omega arith)
      (omega arith)
