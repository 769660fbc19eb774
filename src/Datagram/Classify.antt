-- ===== src/Datagram/Classify.antt =====
-- RFC 7983 demultiplexing: crates/webrtc/rtc-datagram/src/lib.rs.
use fluvora.Prelude.{
  ℕ, Bool, false, not, ◌&&◌, List, [], ◌∷◌, leb, none, some, if◌then◌else◌, length, get_range,
  list_beq,
}
use fluvora.Prelude.Bytes.{of_be}

pub data DatagramKind : Type 0 where
  stun turn_channel_data dtls rtp rtcp unknown : DatagramKind

-- A range pattern `lo..=hi`.
abbrev pub between : ℕ → ℕ → ℕ → Bool
between lo hi n = leb lo n && leb n hi

unfoldable pub is_stun : List ℕ → Bool
is_stun input = leb 20 (length input) && elim (get_range input 4 8) [
  | none ↦ false
  | some cookie ↦ list_beq cookie (0x21 ∷ 0x12 ∷ 0xa4 ∷ 0x42 ∷ [])
]

unfoldable pub is_turn_channel_data : List ℕ → Bool
is_turn_channel_data input = elim (get_range input 0 2) [
  | none ↦ false
  | some channel_bytes ↦ between 0x4000 0x7fff (of_be channel_bytes)
]

-- `input[1]` of an input that has two bytes.
abbrev second_kind : List ℕ → DatagramKind
second_kind [] = unknown
second_kind (second ∷ rest) = if between 192 223 second then rtcp else rtp

unfoldable pub classify : List ℕ → DatagramKind
unfolding is_stun is_turn_channel_data
classify [] = unknown
classify (first ∷ rest) =
    if leb first 3 && is_stun (first ∷ rest)
    then stun
    else if between 64 79 first && is_turn_channel_data (first ∷ rest)
    then turn_channel_data
    else if between 20 63 first
    then dtls
    else if between 128 191 first
    then second_kind rest
    else unknown

unfoldable pub is_rtcp_mux_safe_payload_type : ℕ → Bool
is_rtcp_mux_safe_payload_type payload_type =
    leb payload_type 127 && not (leb 64 payload_type && leb payload_type 95)
