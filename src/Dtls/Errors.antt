-- ===== src/Dtls/Errors.antt =====
-- `DtlsError` without the OpenSSL backend: crates/webrtc/dtls-adapter/src/error.rs.
use fluvora.Prelude.{ℕ}
use fluvora.Prelude.Text.{Text}
use fluvora.Srtp.Errors.{SrtpError}

pub data DtlsError : Type 0 where
  unsupported_fingerprint_algorithm : Text → DtlsError
  invalid_fingerprint : DtlsError
  -- expected, actual
  invalid_exporter_length : ℕ → ℕ → DtlsError
  unsupported_srtp_profile : Text → DtlsError
  fingerprint_mismatch : DtlsError
  missing_peer_certificate : DtlsError
  srtp : SrtpError → DtlsError
