-- ===== src/Rtp/Errors.antt =====
-- `RtpError` and `ExtensionFormat` (crates/webrtc/rtp/src/error.rs, crates/webrtc/rtp/src/extension.rs).
use fluvora.Prelude.{ℕ}

pub data ExtensionFormat : Type 0 where
  one_byte two_byte : ExtensionFormat
  opaque : ℕ → ExtensionFormat

pub data RtpError : Type 0 where
  packet_too_short : ℕ → RtpError
  unsupported_version : ℕ → RtpError
  truncated_header : RtpError
  invalid_padding : ℕ → RtpError
  too_many_csrcs : ℕ → RtpError
  invalid_payload_type : ℕ → RtpError
  truncated_extension : RtpError
  -- format, id
  invalid_extension_id : ExtensionFormat → ℕ → RtpError
  -- format, length
  invalid_extension_length : ExtensionFormat → ℕ → RtpError
  extension_block_too_large : RtpError
  padding_too_large : ℕ → RtpError
  packet_too_large : RtpError
  unsupported_extension_rewrite : RtpError
