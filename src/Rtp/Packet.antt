-- ===== src/Rtp/Packet.antt =====
-- RTP packets: crates/webrtc/rtp/src/packet.rs, the parser and its accessors (the record fields).
use Prim.Native.Nat.{bit_and}
use fluvora.Prelude.{
  ℕ, zero, suc, ◌+◌, ◌-◌, ◌*◌, ◌/◌, Bool, true, false, not, ◌||◌, Option, none, some, List, [], ◌∷◌,
  ltb, leb, ◌==◌, if◌then◌else◌, length, get_elem?, get_range, get_last?, Result, ok, err, ◌>>=◌,
  ok_or, map_ok,
}
use fluvora.Prelude.Bytes.{of_be}
use fluvora.Prelude.Words.{usize_bits, checked_add, checked_mul, saturating_add}
use fluvora.Rtp.Errors.{
  ExtensionFormat, RtpError, packet_too_short, unsupported_version, truncated_header,
  invalid_padding,
}
use fluvora.Rtp.Extension.{HeaderExtension, from_profile, parse_extensions}

abbrev pub fixed_header_len : ℕ
fixed_header_len = 12

abbrev pub max_packet_len : ℕ
max_packet_len = 65535

unfoldable pub read_u16 : List ℕ → ℕ → Result RtpError ℕ
read_u16 input position =
    map_ok of_be
      (ok_or (get_range input position (saturating_add usize_bits position 2)) truncated_header)

unfoldable pub read_u32 : List ℕ → ℕ → Result RtpError ℕ
read_u32 input position =
    map_ok of_be
      (ok_or (get_range input position (saturating_add usize_bits position 4)) truncated_header)

-- `input[i]`, which is only read below the length of `input`.
abbrev pub byte_at : List ℕ → ℕ → ℕ
byte_at input i = elim (get_elem? input i) [ none ↦ 0 | some b ↦ b ]

abbrev pub has_bits : ℕ → ℕ → Bool
has_bits mask b = not (bit_and b mask == 0)

-- The check that `input.get(..end)` makes.
unfoldable pub check_end : List ℕ → ℕ → Result RtpError ℕ
check_end input stop = if leb stop (length input) then ok stop else err truncated_header

-- The length check and the version check, which both parsers begin with: the first byte.
unfoldable pub parse_first : List ℕ → Result RtpError ℕ
parse_first input =
    if ltb (length input) fixed_header_len
    then err (packet_too_short (length input))
    else if byte_at input 0 / 64 == 2
    then ok (byte_at input 0)
    else err (unsupported_version (byte_at input 0 / 64))

unfoldable pub extension_end : List ℕ → ℕ → Result RtpError ℕ
unfolding read_u16 check_end
extension_end input position = do
  words ← read_u16 input (position + 2)
  after ← ok_or (checked_add usize_bits position 4) truncated_header
  stop ← ok_or (checked_add usize_bits after (words * 4)) truncated_header
  check_end input stop

unfoldable pub parse_header_length : List ℕ → Result RtpError ℕ
unfolding parse_first check_end extension_end
parse_header_length input = do
  first ← parse_first input
  position ←
      ok_or (checked_add usize_bits fixed_header_len (bit_and first 0x0f * 4)) truncated_header
  position ← check_end input position
  if has_bits 0x10 first then extension_end input position else ok position

pub record Header : Type 0 where
  pub marker : Bool
  pub payload_type : ℕ
  pub sequence_number : ℕ
  pub timestamp : ℕ
  pub ssrc : ℕ
  pub csrcs : List ℕ

pub record Packet : Type 0 where
  pub header : Header
  pub header_len : ℕ
  pub extension_format : Option ExtensionFormat
  pub extension_data : Option (List ℕ)
  pub extensions : List HeaderExtension
  pub payload : List ℕ
  pub padding_len : ℕ

unfoldable pub parse_csrcs : ℕ → List ℕ → ℕ → Result RtpError (List ℕ)
unfolding read_u32
parse_csrcs zero input position = ok []
parse_csrcs (suc count) input position = do
  csrc ← read_u32 input position
  csrcs ← parse_csrcs count input (position + 4)
  ok (csrc ∷ csrcs)

-- What `parse` knows after the extension block: the position is the header's length.
pub record ExtensionBlock : Type 0 where
  pub stop : ℕ
  pub format : Option ExtensionFormat
  pub bytes : Option (List ℕ)
  pub elements : List HeaderExtension

unfoldable pub parse_extension_block : Bool → List ℕ → ℕ → Result RtpError ExtensionBlock
unfolding read_u16 from_profile parse_extensions
parse_extension_block false input position =
    ok (record { stop = position; format = none; bytes = none; elements = [] })
parse_extension_block true input position = do
  profile ← read_u16 input position
  words ← read_u16 input (position + 2)
  byte_len ← ok_or (checked_mul usize_bits words 4) truncated_header
  stop ← ok_or (checked_add usize_bits (position + 4) byte_len) truncated_header
  block ← ok_or (get_range input (position + 4) stop) truncated_header
  parsed ← parse_extensions (from_profile profile) block
  ok (record {
    stop = stop;
    format = some (from_profile profile);
    bytes = some block;
    elements = parsed;
  })

unfoldable pub parse_padding : Bool → List ℕ → Result RtpError ℕ
parse_padding false payload = ok 0
parse_padding true payload = do
  padding_len ← ok_or (get_last? payload) (invalid_padding 0)
  if padding_len == 0 || ltb (length payload) padding_len
      then err (invalid_padding padding_len)
      else ok padding_len

-- `input.get(position..)`
abbrev pub get_from : List ℕ → ℕ → Option (List ℕ)
get_from input position = get_range input position (length input)

-- `input.get(..n.checked_sub(padding_len)?)`
abbrev pub without_padding : List ℕ → ℕ → Option (List ℕ)
without_padding bytes padding_len =
    if ltb (length bytes) padding_len then none else get_range bytes 0 (length bytes - padding_len)

unfoldable pub parse_header : List ℕ → List ℕ → Result RtpError Header
unfolding read_u16 read_u32
parse_header input csrcs = do
  sequence_number ← read_u16 input 2
  timestamp ← read_u32 input 4
  ssrc ← read_u32 input 8
  ok (record {
    marker = has_bits 0x80 (byte_at input 1);
    payload_type = bit_and (byte_at input 1) 0x7f;
    sequence_number = sequence_number;
    timestamp = timestamp;
    ssrc = ssrc;
    csrcs = csrcs;
  })

unfoldable pub parse : List ℕ → Result RtpError Packet
unfolding parse_first parse_csrcs parse_extension_block parse_padding parse_header
parse input = do
  first ← parse_first input
  csrcs ← parse_csrcs (bit_and first 0x0f) input fixed_header_len
  block ←
      parse_extension_block (has_bits 0x10 first) input (fixed_header_len + bit_and first 0x0f * 4)
  payload_and_padding ← ok_or (get_from input block.stop) truncated_header
  padding_len ← parse_padding (has_bits 0x20 first) payload_and_padding
  payload ← ok_or (without_padding payload_and_padding padding_len) (invalid_padding padding_len)
  header ← parse_header input csrcs
  ok (record {
    header = header;
    header_len = block.stop;
    extension_format = block.format;
    extension_data = block.bytes;
    extensions = block.elements;
    payload = payload;
    padding_len = padding_len;
  })
