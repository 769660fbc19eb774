-- ===== src/Srtp/Errors.antt =====
-- `SrtpError`: crates/webrtc/srtp/src/error.rs.
use fluvora.Prelude.{ℕ}
use fluvora.Rtp.Errors.{RtpError}
use fluvora.Rtcp.Model.{RtcpError}

pub data SrtpError : Type 0 where
  invalid_master_key_length : ℕ → SrtpError
  invalid_master_salt_length : ℕ → SrtpError
  authentication_failed : SrtpError
  replay_detected : SrtpError
  packet_too_old : SrtpError
  non_monotonic_sequence : SrtpError
  packet_index_exhausted : SrtpError
  srtcp_packet_too_short : ℕ → SrtpError
  rtp : RtpError → SrtpError
  rtcp : RtcpError → SrtpError
