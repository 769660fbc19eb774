-- ===== src/Rtp/Build.antt =====
-- RTP packets: crates/webrtc/rtp/src/packet.rs, the builder and the rewrites.
use Prim.Native.Nat.{bit_or}
use fluvora.Prelude.{
  ℕ, zero, suc, ◌+◌, ◌-◌, ◌*◌, ◌/◌, ◌%◌, Bool, true, false, Option, none, some, List, [], ◌∷◌, ◌++◌,
  ltb, leb, if◌then◌else◌, length, Result, ok, err, ◌>>=◌, ◌>>◌, fail_if, ok_or, map_ok,
}
use fluvora.Prelude.Bytes.{to_be, zeros}
use fluvora.Prelude.Words.{usize_bits, checked_add}
use fluvora.Rtp.Errors.{
  ExtensionFormat, RtpError, too_many_csrcs, invalid_payload_type, extension_block_too_large,
  padding_too_large, packet_too_large,
}
use fluvora.Rtp.Extension.{HeaderExtension, profile, encode_extensions}
use fluvora.Rtp.Packet.{Header, fixed_header_len, max_packet_len}

-- `u8::from(flag)`
abbrev pub bit_of : Bool → ℕ
bit_of true = 1
bit_of false = 0

pub record PacketBuilder : Type 0 where
  pub header : Header
  pub payload : List ℕ
  pub extension_format : Option ExtensionFormat
  pub extensions : List HeaderExtension
  pub padding_len : ℕ

-- `PacketBuilder::new`, `marker`, `csrcs`, `extensions` and `padding`.
unfoldable pub new_builder : ℕ → ℕ → ℕ → ℕ → List ℕ → PacketBuilder
new_builder payload_type sequence_number timestamp ssrc payload = record {
  header = record {
    marker = false;
    payload_type = payload_type;
    sequence_number = sequence_number;
    timestamp = timestamp;
    ssrc = ssrc;
    csrcs = [];
  };
  payload = payload;
  extension_format = none;
  extensions = [];
  padding_len = 0;
}

unfoldable pub set_marker : Bool → PacketBuilder → PacketBuilder
set_marker marker b = record b { header = record b.header { marker = marker } }

unfoldable pub set_csrcs : List ℕ → PacketBuilder → PacketBuilder
set_csrcs csrcs b = record b { header = record b.header { csrcs = csrcs } }

unfoldable pub set_extensions :
    ExtensionFormat → List HeaderExtension → PacketBuilder → PacketBuilder
set_extensions format xs b = record b { extension_format = some format; extensions = xs }

unfoldable pub set_padding : ℕ → PacketBuilder → PacketBuilder
set_padding padding_len b = record b { padding_len = padding_len }

unfoldable pub validate_builder : PacketBuilder → Result RtpError (Unit {0})
validate_builder b = do
  fail_if (ltb 127 b.header.payload_type) (invalid_payload_type b.header.payload_type)
  fail_if (ltb 15 (length b.header.csrcs)) (too_many_csrcs (length b.header.csrcs))
  fail_if (ltb 255 b.padding_len) (padding_too_large b.padding_len)

unfoldable pub encode_fixed_header : Header → Bool → ℕ → List ℕ
encode_fixed_header header has_extension padding_len =
    let csrc_count = if ltb (length header.csrcs) 256 then length header.csrcs else 0 in
    bit_or (bit_or (bit_or 128 (bit_of (ltb 0 padding_len) * 32)) (bit_of has_extension * 16))
        csrc_count
      ∷ bit_or (bit_of header.marker * 128) header.payload_type
      ∷ to_be 2 header.sequence_number
    ++ to_be 4 header.timestamp
    ++ to_be 4 header.ssrc

unfoldable pub csrc_bytes : List ℕ → List ℕ
csrc_bytes [] = []
csrc_bytes (csrc ∷ csrcs) = to_be 4 csrc ++ csrc_bytes csrcs

-- `option.map(...).transpose()?`
unfoldable pub extension_data :
    Option ExtensionFormat → List HeaderExtension → Result RtpError (Option (List ℕ))
unfolding encode_extensions
extension_data none xs = ok none
extension_data (some format) xs = map_ok some (encode_extensions format xs)

abbrev pub data_len : Option (List ℕ) → ℕ
data_len none = 0
data_len (some bytes) = length bytes

abbrev pub is_some {ℓ} : {A : Type ℓ} → Option A → Bool
is_some none = false
is_some (some a) = true

-- `n` filled up to a whole number of words.
abbrev pub padded : ℕ → ℕ
padded n = n + (4 - n % 4) % 4

-- The block of a format and its data: profile, words, data, and zeros up to a whole word.
unfoldable pub extension_block : Option ExtensionFormat → Option (List ℕ) → List ℕ
unfolding profile
extension_block none data' = []
extension_block (some format) none = []
extension_block (some format) (some bytes) =
    to_be 2 (profile format)
    ++ to_be 2 (padded (length bytes) / 4)
    ++ bytes
    ++ zeros (padded (length bytes) - length bytes)

-- Trailing padding: zeros, the last byte being their number. `validate_builder` has made sure that
-- it is a byte, so the conversion does not fail.
unfoldable pub padding_bytes : ℕ → List ℕ
padding_bytes zero = []
padding_bytes (suc n) = zeros n ++ (suc n ∷ [])

-- The sum of the parts' lengths by `checked_add`, at most `max_packet_len`.
unfoldable pub checked_total : ℕ → ℕ → ℕ → ℕ → Result RtpError ℕ
checked_total csrc_len extension_len payload_len padding_len = do
  a ← ok_or (checked_add usize_bits fixed_header_len csrc_len) packet_too_large
  b ← ok_or (checked_add usize_bits a extension_len) packet_too_large
  c ← ok_or (checked_add usize_bits b payload_len) packet_too_large
  total ← ok_or (checked_add usize_bits c padding_len) packet_too_large
  if ltb max_packet_len total then err packet_too_large else ok total

-- `checked_add` of the padding and `u16::try_from` of the words.
unfoldable pub checked_words : ℕ → Result RtpError (Unit {0})
checked_words extension_len = do
  padded_len ←
      ok_or (checked_add usize_bits extension_len ((4 - extension_len % 4) % 4))
        extension_block_too_large
  fail_if (leb 65536 (padded_len / 4)) extension_block_too_large

unfoldable pub build : PacketBuilder → Result RtpError (List ℕ)
unfolding validate_builder extension_data checked_words checked_total encode_fixed_header csrc_bytes
    extension_block padding_bytes
build b = do
  validate_builder b
  bytes ← extension_data b.extension_format b.extensions
  checked_words (data_len bytes)
  total ←
      checked_total (length b.header.csrcs * 4)
        (if is_some bytes then 4 + padded (data_len bytes) else 0) (length b.payload) b.padding_len
  ok (
      encode_fixed_header b.header (is_some bytes) b.padding_len
      ++ csrc_bytes b.header.csrcs
      ++ extension_block b.extension_format bytes
      ++ b.payload
      ++ padding_bytes b.padding_len)
