-- ===== src/Srtp/SessionTests.antt =====
-- Runs of the SRTP context over stand-ins for the cipher and the MAC, and its theorems at concrete
-- inputs.
use fluvora.Prelude.{nat_eq}
use fluvora.Prelude.{
  ℕ, suc, ◌+◌, ◌-◌, ◌%◌, ◌≡◌, refl, ap, List, [], ◌∷◌, map, length, some, ok, ◌==◌, if◌then◌else◌,
  arith,
}
use fluvora.Prelude.Bytes.{to_be, length-to_be}
use fluvora.Srtp.Keys.{Primitives, Lawful, KeyingMaterial, aes128_cm_sha1_32}
use fluvora.Srtp.Context.{
  new, unprotect_rtp, protect_rtp, protect_parsed, encrypt_rtp, crypt_from, seal_rtp,
  authenticate_rtp,
}
use fluvora.Rtp.Packet.{parse}
use fluvora.Srtp.Replay.{advance, estimate_index}
use fluvora.Prelude.Maps.{lookup, insert}
use fluvora.Srtp.Session.{Traffic, media, control, exchange, accepted, exchange-new}
use fluvora.Srtp.Authentic.{Answered, unprotect_rtp-Answered}

flip : ℕ → ℕ
flip b = if b % 2 == 0 then b + 1 else b - 1

flip-flip : (b : ℕ) → flip (flip b) ≡ b
unfolding flip
flip-flip b = ground arith

flip_all : List ℕ → List ℕ
flip_all bytes = map flip bytes

flip_all-flip_all : (bytes : List ℕ) → flip_all (flip_all bytes) ≡ bytes
unfolding flip_all
flip_all-flip_all [] = refl
flip_all-flip_all (b ∷ bytes) = rw (flip-flip b, flip_all-flip_all bytes) refl

length-flip_all : (bytes : List ℕ) → length (flip_all bytes) ≡ length bytes
unfolding flip_all
length-flip_all [] = refl
length-flip_all (b ∷ bytes) = ap suc (length-flip_all bytes)

abbrev flipping : Primitives
flipping = record {
  apply_keystream = λ key iv bytes. flip_all bytes;
  hmac_sha1 = λ key message. some (to_be 20 (length message));
}

flipping-Lawful : Lawful flipping
flipping-Lawful = record {
  applied_twice = λ key iv bytes. flip_all-flip_all bytes;
  length_kept = λ key iv bytes. length-flip_all bytes;
  tagged = λ key message. (to_be 20 (length message), refl, length-to_be 20 (length message));
}

abbrev material : KeyingMaterial
material = record { master_key = to_be 16 5; master_salt = to_be 14 9 }

abbrev first_packet : List ℕ
first_packet = 0x80 ∷ 96 ∷ 0 ∷ 9 ∷ 0 ∷ 0 ∷ 0 ∷ 1 ∷ 0 ∷ 0 ∷ 0 ∷ 7 ∷ 42 ∷ 43 ∷ []

abbrev feedback : List ℕ
feedback = 0x81 ∷ 205 ∷ 0 ∷ 3 ∷ 0 ∷ 0 ∷ 0 ∷ 7 ∷ 0 ∷ 0 ∷ 0 ∷ 9 ∷ 0 ∷ 40 ∷ 0 ∷ 5 ∷ []

abbrev traffic : List Traffic
traffic = media first_packet ∷ control feedback ∷ media first_packet ∷ []

exchange-new_example :
    exchange flipping
      (new flipping aes128_cm_sha1_32 material material)
      (new flipping aes128_cm_sha1_32 material material)
      traffic
    ≡ map ok (accepted flipping (new flipping aes128_cm_sha1_32 material material) traffic)
exchange-new_example =
    exchange-new flipping flipping-Lawful aes128_cm_sha1_32 material material traffic
      (omega arith, (omega arith, (omega arith, tt)))

unprotect_rtp-Answered_example :
    Answered flipping
      (new flipping aes128_cm_sha1_32 material material)
      first_packet
      (unprotect_rtp flipping (new flipping aes128_cm_sha1_32 material material) first_packet)
unprotect_rtp-Answered_example =
    unprotect_rtp-Answered flipping (new flipping aes128_cm_sha1_32 material material) first_packet

-- The second packet repeats a sequence number and is refused.
accepted_media :
    accepted flipping
      (new flipping aes128_cm_sha1_32 material material)
      (media first_packet ∷ media first_packet ∷ [])
    ≡ first_packet ∷ []
unfolding accepted new protect_rtp protect_parsed encrypt_rtp crypt_from seal_rtp authenticate_rtp
    parse advance lookup insert estimate_index flip_all flip
accepted_media = refl
