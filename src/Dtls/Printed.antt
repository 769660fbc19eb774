-- ===== src/Dtls/Printed.antt =====
-- A fingerprint that is printed is parsed again: crates/webrtc/dtls-adapter/src/fingerprint.rs.
use fluvora.Prelude.{
  ℕ, suc, ◌/◌, ◌%◌, ◌≡◌, ◌<◌, refl, ap, subst, Bool, true, false, not, ◌&&◌, List, [], ◌∷◌, ◌++◌,
  length, All, ◌==◌, ==_iff, Result, ok, err, arith, all_below, of_all_below, &&-inv, not-inv,
}
use fluvora.Prelude.Bytes.{IsByte}
use fluvora.Prelude.Text.{Text, as_bytes}
use fluvora.Dtls.Errors.{DtlsError}
use fluvora.Dtls.Fingerprint.{
  sha_256, split_colon, parse_octet, parse_octets, parse, hex_digit, hex_octet, display,
}

abbrev is_this : ℕ → Result DtlsError ℕ → Bool
is_this b (ok c) = c == b
is_this b (err e) = false

octet_test : ℕ → Bool
unfolding parse_octet as_bytes
octet_test b =
    not (hex_digit (b / 16) == 58)
    && (not (hex_digit (b % 16) == 58) && is_this b (parse_octet (hex_octet b)))

octet_table : all_below 256 octet_test ≡ true
unfolding all_below octet_test
octet_table = refl

is_this-ok : (b : ℕ) (r : Result DtlsError ℕ) → is_this b r ≡ true → r ≡ ok b
is_this-ok b (ok c) h = ap ok ((==_iff c b).0 h)
is_this-ok b (err e) h = absurd (ground arith)

split_colon-last : (b : ℕ) → b < 256 → split_colon (hex_octet b) ≡ hex_octet b ∷ []
unfolding split_colon octet_test
split_colon-last b h =
    let test = of_all_below 256 octet_test octet_table b h in
    let (x, rest) = &&-inv (not (hex_digit (b / 16) == 58)) _ test in
    let (y, z) = &&-inv (not (hex_digit (b % 16) == 58)) _ rest in
    rw (not-inv _ x, not-inv _ y) refl

split_colon-next :
    (b : ℕ) (rest : Text)
    → b < 256
    → split_colon (hex_octet b ++ (58 ∷ rest)) ≡ hex_octet b ∷ split_colon rest
unfolding split_colon octet_test
split_colon-next b rest h =
    let test = of_all_below 256 octet_test octet_table b h in
    let (x, others) = &&-inv (not (hex_digit (b / 16) == 58)) _ test in
    let (y, z) = &&-inv (not (hex_digit (b % 16) == 58)) _ others in
    rw (not-inv _ x, not-inv _ y) refl

parse_octet-hex : (b : ℕ) → b < 256 → parse_octet (hex_octet b) ≡ ok b
unfolding octet_test
parse_octet-hex b h =
    let test = of_all_below 256 octet_test octet_table b h in
    let (x, others) = &&-inv (not (hex_digit (b / 16) == 58)) _ test in
    let (y, z) = &&-inv (not (hex_digit (b % 16) == 58)) _ others in
    is_this-ok b (parse_octet (hex_octet b)) z

parse_octets-display :
    (b : ℕ) (bytes : List ℕ)
    → All IsByte (b ∷ bytes)
    → parse_octets (suc (length bytes)) (split_colon (display (b ∷ bytes))) ≡ ok (b ∷ bytes, [])
unfolding parse_octets display
parse_octets-display b [] h = rw (split_colon-last b h.0, parse_octet-hex b h.0) refl
parse_octets-display b (c ∷ bytes) h =
    rw
      (
        split_colon-next b (display (c ∷ bytes)) h.0,
        parse_octet-hex b h.0,
        parse_octets-display c bytes h.1,
      )
      refl

-- A fingerprint of 32 bytes that is printed is parsed as the same bytes.
pub parse-display :
    (bytes : List ℕ)
    → length bytes ≡ 32
    → All IsByte bytes
    → parse sha_256 (display bytes) ≡ ok bytes
unfolding parse
parse-display [] h f = absurd (omega arith)
parse-display (b ∷ bytes) h f =
    let read =
      subst (λ (n : ℕ). parse_octets n (split_colon (display (b ∷ bytes))) ≡ ok (b ∷ bytes, [])) h
        (parse_octets-display b bytes f) in
    rw read refl
