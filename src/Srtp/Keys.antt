-- ===== src/Srtp/Keys.antt =====
-- Profiles and session keys: crates/webrtc/srtp/src/keys.rs, over the cipher and the MAC that the
-- crates `aes`, `ctr`, `hmac` and `sha1` provide.
use Prim.Native.Nat.{bit_xor}
use fluvora.Prelude.{
  ℕ, ◌≡◌, Option, some, List, [], ◌∷◌, ◌++◌, length, take, drop, ◌==◌, not, Result, ok, ◌>>◌,
  fail_if,
}
use fluvora.Prelude.Bytes.{zeros}
use fluvora.Srtp.Errors.{SrtpError, invalid_master_key_length, invalid_master_salt_length}

-- `Ctr128BE<Aes128>::apply_keystream` by key, initial counter block and data, and the tag of
-- `Hmac<Sha1>` by key and message, where a key may be refused.
pub record Primitives : Type 0 where
  pub apply_keystream : List ℕ → List ℕ → List ℕ → List ℕ
  pub hmac_sha1 : List ℕ → List ℕ → Option (List ℕ)

-- A key stream is added bit by bit, so that adding it twice is nothing; an HMAC takes a key of any
-- length and has 20 bytes.
pub record Lawful (p : Primitives) : Type 0 where
  pub applied_twice :
      (key iv bytes : List ℕ) → p.apply_keystream key iv (p.apply_keystream key iv bytes) ≡ bytes
  pub length_kept : (key iv bytes : List ℕ) → length (p.apply_keystream key iv bytes) ≡ length bytes
  pub tagged :
      (key message : List ℕ)
      → (tag : List ℕ) × (p.hmac_sha1 key message ≡ some tag) × (length tag ≡ 20)

pub data ProtectionProfile : Type 0 where
  aes128_cm_sha1_80 : ProtectionProfile
  aes128_cm_sha1_32 : ProtectionProfile

abbrev pub rtp_tag_len : ProtectionProfile → ℕ
rtp_tag_len aes128_cm_sha1_80 = 10
rtp_tag_len aes128_cm_sha1_32 = 4

abbrev pub rtcp_tag_len : ProtectionProfile → ℕ
rtcp_tag_len aes128_cm_sha1_80 = 10
rtcp_tag_len aes128_cm_sha1_32 = 10

pub record KeyingMaterial : Type 0 where
  pub master_key : List ℕ
  pub master_salt : List ℕ

unfoldable pub new_material : List ℕ → List ℕ → Result SrtpError KeyingMaterial
new_material master_key master_salt = do
  fail_if (not (length master_key == 16)) (invalid_master_key_length (length master_key))
  fail_if (not (length master_salt == 14)) (invalid_master_salt_length (length master_salt))
  ok (record { master_key = master_key; master_salt = master_salt })

pub record SessionKeys : Type 0 where
  pub encryption : List ℕ
  pub authentication : List ℕ
  pub salt : List ℕ

-- `a ^= b`, byte by byte, as far as both go.
abbrev pub xor_bytes : List ℕ → List ℕ → List ℕ
xor_bytes [] bs = []
xor_bytes (a ∷ rest) [] = a ∷ rest
xor_bytes (a ∷ rest) (b ∷ bs) = bit_xor a b ∷ xor_bytes rest bs

module _ (p : Primitives) where
  unfoldable pub derive_key : ℕ → KeyingMaterial → ℕ → List ℕ
  derive_key len material label =
      let salt = material.master_salt in
      let iv =
        take 7 salt
        ++ (xor_bytes (take 1 (drop 7 salt)) (label ∷ []) ++ (drop 8 salt ++ zeros 2)) in
      p.apply_keystream material.master_key iv (zeros len)

  unfoldable pub derive : KeyingMaterial → ℕ → ℕ → ℕ → SessionKeys
  unfolding derive_key
  derive material encryption_label authentication_label salt_label = record {
    encryption = derive_key 16 material encryption_label;
    authentication = derive_key 20 material authentication_label;
    salt = derive_key 14 material salt_label;
  }

  unfoldable pub derive_srtp : KeyingMaterial → SessionKeys
  unfolding derive
  derive_srtp material = derive material 0 1 2

  unfoldable pub derive_srtcp : KeyingMaterial → SessionKeys
  unfolding derive
  derive_srtcp material = derive material 3 4 5
