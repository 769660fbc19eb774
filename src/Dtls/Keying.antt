-- ===== src/Dtls/Keying.antt =====
-- Exported keying material: crates/webrtc/dtls-adapter/src/keying.rs.
use fluvora.Prelude.{
  ℕ, ◌-◌, ◌*◌, ◌+◌, not, List, [], ◌∷◌, length, list_beq, if◌then◌else◌, take, drop, ◌==◌, Result,
  ok, err, ◌>>=◌, ◌>>◌, fail_if,
}
use fluvora.Prelude.Text.{Text}
use fluvora.Srtp.Errors.{SrtpError}
use fluvora.Srtp.Keys.{
  ProtectionProfile, aes128_cm_sha1_80, aes128_cm_sha1_32, KeyingMaterial, new_material,
}
use fluvora.Dtls.Errors.{DtlsError, invalid_exporter_length, unsupported_srtp_profile, srtp}

abbrev pub exporter_len : ℕ
exporter_len = 2 * (16 + 14)

pub data DtlsRole : Type 0 where
  client : DtlsRole
  server : DtlsRole

pub data DtlsSrtpProfile : Type 0 where
  srtp_aes128_cm_sha1_80 : DtlsSrtpProfile
  srtp_aes128_cm_sha1_32 : DtlsSrtpProfile

-- The two names that `parse_name` knows.
abbrev pub name_80 : Text
name_80 =
    83 ∷ 82 ∷ 84 ∷ 80 ∷ 95 ∷ 65 ∷ 69 ∷ 83 ∷ 49 ∷ 50 ∷ 56 ∷ 95 ∷ 67 ∷ 77 ∷ 95 ∷ 83 ∷ 72 ∷ 65 ∷ 49
    ∷ 95 ∷ 56 ∷ 48 ∷ []

abbrev pub name_32 : Text
name_32 =
    83 ∷ 82 ∷ 84 ∷ 80 ∷ 95 ∷ 65 ∷ 69 ∷ 83 ∷ 49 ∷ 50 ∷ 56 ∷ 95 ∷ 67 ∷ 77 ∷ 95 ∷ 83 ∷ 72 ∷ 65 ∷ 49
    ∷ 95 ∷ 51 ∷ 50 ∷ []

unfoldable pub parse_name : Text → Result DtlsError DtlsSrtpProfile
parse_name name =
    if list_beq name name_80
    then ok srtp_aes128_cm_sha1_80
    else if list_beq name name_32
    then ok srtp_aes128_cm_sha1_32
    else err (unsupported_srtp_profile name)

abbrev pub protection_profile : DtlsSrtpProfile → ProtectionProfile
protection_profile srtp_aes128_cm_sha1_80 = aes128_cm_sha1_80
protection_profile srtp_aes128_cm_sha1_32 = aes128_cm_sha1_32

pub record DirectionalKeyingMaterial : Type 0 where
  pub profile : ProtectionProfile
  pub outbound : KeyingMaterial
  pub inbound : KeyingMaterial

abbrev pub map_err {ℓ} : {A : Type ℓ} → Result SrtpError A → Result DtlsError A
map_err (ok a) = ok a
map_err (err e) = err (srtp e)

-- The match on the local role, with the client's and the server's material.
abbrev pub directed :
    ProtectionProfile → DtlsRole → KeyingMaterial → KeyingMaterial → DirectionalKeyingMaterial
directed profile client c s = record { profile = profile; outbound = c; inbound = s }
directed profile server c s = record { profile = profile; outbound = s; inbound = c }

-- `exported[from..to]`, which is only taken within the length.
abbrev pub slice : List ℕ → ℕ → ℕ → List ℕ
slice exported from to = take (to - from) (drop from exported)

unfoldable pub split_srtp_exporter :
    DtlsSrtpProfile → DtlsRole → List ℕ → Result DtlsError DirectionalKeyingMaterial
split_srtp_exporter profile local_role exported = do
  fail_if (not (length exported == exporter_len))
      (invalid_exporter_length exporter_len (length exported))
  c ← map_err (new_material (slice exported 0 16) (slice exported 32 46))
  s ← map_err (new_material (slice exported 16 32) (slice exported 46 60))
  ok (directed (protection_profile profile) local_role c s)
