-- ===== src/Rtp/Rewrite.antt =====
-- RTP packets: crates/webrtc/rtp/src/packet.rs, the rewrites of extensions and of fixed fields.
use Prim.Native.Nat.{bit_and, bit_or}
use fluvora.Prelude.{
  ℕ, ◌+◌, ◌*◌, Bool, Option, none, some, List, [], ◌∷◌, ◌++◌, ltb, ◌==◌, if◌then◌else◌, length,
  take, drop, find, filter_map, Result, ok, err, ◌>>=◌, ok_or,
}
use fluvora.Prelude.Bytes.{to_be}
use fluvora.Rtp.Errors.{
  ExtensionFormat, one_byte, two_byte, opaque, RtpError, invalid_payload_type,
  unsupported_extension_rewrite,
}
use fluvora.Rtp.Extension.{HeaderExtension}
use fluvora.Rtp.Packet.{byte_at, parse}
use fluvora.Rtp.Build.{
  new_builder, set_marker, set_csrcs, set_extensions, set_padding, build, bit_of,
}

pub record ExtensionRewrite : Type 0 where
  pub source_id : ℕ
  pub destination_id : Option ℕ
  pub replacement : Option (List ℕ)

-- One extension after the first rewrite of its identifier: none where it is removed.
unfoldable pub rewrite_extension : List ExtensionRewrite → HeaderExtension → Option HeaderExtension
rewrite_extension rewrites x = elim (find (λ r. r.source_id == x.id) rewrites) [
  | none ↦ some x
  | some r ↦ elim r.destination_id [
    | none ↦ none
    | some id ↦
        some
          (record { id = id; value = elim r.replacement [ none ↦ x.value | some value ↦ value ] })
  ]
]

-- The format, filtered: an opaque profile has none.
unfoldable pub known_format : Option ExtensionFormat → Option ExtensionFormat
known_format none = none
known_format (some one_byte) = some one_byte
known_format (some two_byte) = some two_byte
known_format (some (opaque value)) = none

unfoldable pub rewrite_header_extensions : List ℕ → List ExtensionRewrite → Result RtpError (List ℕ)
unfolding parse build known_format rewrite_extension new_builder set_marker set_csrcs set_extensions
    set_padding
rewrite_header_extensions input [] = ok input
rewrite_header_extensions input (r ∷ rs) = do
  packet ← parse input
  format ← ok_or (known_format packet.extension_format) unsupported_extension_rewrite
  let header = packet.header
  build (
      set_padding packet.padding_len (
        set_extensions format (filter_map (rewrite_extension (r ∷ rs)) packet.extensions) (
          set_csrcs header.csrcs (
            set_marker header.marker (
              new_builder header.payload_type header.sequence_number header.timestamp header.ssrc
                packet.payload)))))

pub record Rewrite : Type 0 where
  pub marker : Option Bool
  pub payload_type : Option ℕ
  pub sequence_number : Option ℕ
  pub timestamp : Option ℕ
  pub ssrc : Option ℕ

-- `packet[position..position + bytes.len()].copy_from_slice(bytes)`
abbrev pub overwrite : ℕ → List ℕ → List ℕ → List ℕ
overwrite position bytes packet =
    take position packet ++ (bytes ++ drop (position + length bytes) packet)

abbrev pub overwrite_if : ℕ → ℕ → Option ℕ → List ℕ → List ℕ
overwrite_if position width none packet = packet
overwrite_if position width (some value) packet = overwrite position (to_be width value) packet

unfoldable pub apply_payload_type : Option ℕ → List ℕ → Result RtpError (List ℕ)
apply_payload_type none packet = ok packet
apply_payload_type (some payload_type) packet =
    if ltb 127 payload_type
    then err (invalid_payload_type payload_type)
    else ok (overwrite 1 (bit_or (bit_and (byte_at packet 1) 0x80) payload_type ∷ []) packet)

unfoldable pub apply_marker : Option Bool → List ℕ → List ℕ
apply_marker none packet = packet
apply_marker (some marker) packet =
    overwrite 1 (bit_or (bit_and (byte_at packet 1) 0x7f) (bit_of marker * 128) ∷ []) packet

-- The packet after the call; an error leaves it as it was.
unfoldable pub apply : Rewrite → List ℕ → Result RtpError (List ℕ)
unfolding parse apply_payload_type apply_marker
apply r packet = do
  parsed ← parse packet
  typed ← apply_payload_type r.payload_type packet
  ok (
      overwrite_if 8 4 r.ssrc (
        overwrite_if 4 4 r.timestamp
          (overwrite_if 2 2 r.sequence_number (apply_marker r.marker typed))))
