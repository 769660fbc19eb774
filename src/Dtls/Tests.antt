-- ===== src/Dtls/Tests.antt =====
-- Runs of the DTLS adapter, and its theorems at concrete inputs.
use fluvora.Prelude.{◌≡◌, refl, List, [], ◌∷◌, length, some, ok, err, arith}
use fluvora.Prelude.Bytes.{to_be, length-to_be, to_be-IsByte}
use fluvora.Prelude.Text.{as_bytes}
use fluvora.Srtp.Keys.{Primitives, Lawful}
use fluvora.Srtp.Session.{Traffic, media}
use fluvora.Dtls.Errors.{invalid_exporter_length}
use fluvora.Dtls.Keying.{
  client, server, srtp_aes128_cm_sha1_80, DirectionalKeyingMaterial, parse_name, name_32,
  srtp_aes128_cm_sha1_32, split_srtp_exporter,
}
use fluvora.Dtls.Mirrored.{Understood, split_srtp_exporter-Understood}
use fluvora.Dtls.Fingerprint.{parse, parse_octet, display, sha_256}
use fluvora.Dtls.Printed.{parse-display}

abbrev plain : Primitives
plain = record {
  apply_keystream = λ key iv bytes. bytes;
  hmac_sha1 = λ key message. some (to_be 20 (length message));
}

plain-Lawful : Lawful plain
plain-Lawful = record {
  applied_twice = λ key iv bytes. refl;
  length_kept = λ key iv bytes. refl;
  tagged = λ key message. (to_be 20 (length message), refl, length-to_be 20 (length message));
}

abbrev one_packet : List Traffic
one_packet = media (0x80 ∷ 96 ∷ 0 ∷ 9 ∷ 0 ∷ 0 ∷ 0 ∷ 1 ∷ 0 ∷ 0 ∷ 0 ∷ 7 ∷ 42 ∷ []) ∷ []

split_srtp_exporter-Understood_example :
    (c : DirectionalKeyingMaterial) × (s : DirectionalKeyingMaterial) × (split_srtp_exporter
        srtp_aes128_cm_sha1_80 client
        (to_be 60 77)
      ≡ ok c)
    × (split_srtp_exporter srtp_aes128_cm_sha1_80 server (to_be 60 77) ≡ ok s)
    × Understood plain c s one_packet
    × Understood plain s c one_packet
split_srtp_exporter-Understood_example =
    split_srtp_exporter-Understood plain plain-Lawful srtp_aes128_cm_sha1_80 (to_be 60 77)
      one_packet refl (omega arith, tt)

split_short :
    split_srtp_exporter srtp_aes128_cm_sha1_80 client (1 ∷ 2 ∷ [])
    ≡ err (invalid_exporter_length 60 2)
unfolding split_srtp_exporter
split_short = refl

parse_name_32 : parse_name name_32 ≡ ok srtp_aes128_cm_sha1_32
unfolding parse_name
parse_name_32 = refl

parse-display_example : parse sha_256 (display (to_be 32 0xab12)) ≡ ok (to_be 32 0xab12)
parse-display_example = parse-display (to_be 32 0xab12) refl (to_be-IsByte 32 0xab12)

-- The octet `+F`, which `u8::from_str_radix` takes.
plus_octet : parse_octet (43 ∷ 70 ∷ []) ≡ ok 15
unfolding parse_octet as_bytes
plus_octet = refl
