-- ===== src/Dtls/Fingerprint.antt =====
-- Certificate fingerprints: `parse` and `Display` of crates/webrtc/dtls-adapter/src/fingerprint.rs.
use fluvora.Prelude.{
  ℕ, zero, suc, ◌+◌, ◌-◌, ◌*◌, ◌/◌, ◌%◌, not, ◌&&◌, Bool, Option, none, some, List, [], ◌∷◌, ◌++◌,
  map, length, is_empty, ltb, leb, ◌==◌, list_beq, if◌then◌else◌, Result, ok, err, ◌>>=◌, ◌>>◌,
  fail_if, ok_or,
}
use fluvora.Prelude.Text.{Text, as_bytes}
use fluvora.Dtls.Errors.{DtlsError, unsupported_fingerprint_algorithm, invalid_fingerprint}

abbrev pub to_lower : ℕ → ℕ
to_lower c = if leb 65 c && leb c 90 then c + 32 else c

-- `str::eq_ignore_ascii_case`
abbrev pub eq_ignore_ascii_case : Text → Text → Bool
eq_ignore_ascii_case a b = list_beq (map to_lower a) (map to_lower b)

abbrev pub sha_256 : Text
sha_256 = 115 ∷ 104 ∷ 97 ∷ 45 ∷ 50 ∷ 53 ∷ 54 ∷ []

abbrev pub push_head : ℕ → List Text → List Text
push_head c [] = (c ∷ []) ∷ []
push_head c (part ∷ parts) = (c ∷ part) ∷ parts

-- `str::split(':')`
unfoldable pub split_colon : Text → List Text
split_colon [] = [] ∷ []
split_colon (c ∷ cs) = let rest = split_colon cs in if c == 58 then [] ∷ rest else push_head c rest

abbrev pub hex_value : ℕ → Option ℕ
hex_value c =
    if leb 48 c && leb c 57
    then some (c - 48)
    else if leb 65 c && leb c 70
    then some (c - 55)
    else if leb 97 c && leb c 102
    then some (c - 87)
    else none

-- The digits of `u8::from_str_radix(part, 16)`, of which there are two at most here, so that the
-- value stays below 256.
abbrev pub radix_digits : ℕ → Text → Option ℕ
radix_digits acc [] = some acc
radix_digits acc (c ∷ cs) = elim (hex_value c) [
  | none ↦ none
  | some d ↦ radix_digits (acc * 16 + d) cs
]

-- A leading plus sign is taken, if digits follow.
abbrev pub from_str_radix : Text → Option ℕ
from_str_radix [] = none
from_str_radix (c ∷ []) = radix_digits 0 (c ∷ [])
from_str_radix (c ∷ d ∷ cs) =
    if c == 43 then radix_digits 0 (d ∷ cs) else radix_digits 0 (c ∷ d ∷ cs)

unfoldable pub parse_octet : Text → Result DtlsError ℕ
parse_octet part = do
  fail_if (not (length (as_bytes part) == 2)) invalid_fingerprint
  ok_or (from_str_radix part) invalid_fingerprint

-- The loop over the bytes: the bytes and the parts that are left.
unfoldable pub parse_octets : ℕ → List Text → Result DtlsError (List ℕ × List Text)
parse_octets zero parts = ok ([], parts)
parse_octets (suc n) [] = err invalid_fingerprint
parse_octets (suc n) (part ∷ parts) = do
  byte ← parse_octet part
  rest ← parse_octets n parts
  ok (byte ∷ rest.0, rest.1)

unfoldable pub parse : Text → Text → Result DtlsError (List ℕ)
parse algorithm value = do
  fail_if (not (eq_ignore_ascii_case algorithm sha_256))
      (unsupported_fingerprint_algorithm algorithm)
  octets ← parse_octets 32 (split_colon value)
  fail_if (not (is_empty octets.1)) invalid_fingerprint
  ok octets.0

abbrev pub hex_digit : ℕ → ℕ
hex_digit d = if ltb d 10 then 48 + d else 55 + d

-- `{byte:02X}`
abbrev pub hex_octet : ℕ → Text
hex_octet byte = hex_digit (byte / 16) ∷ hex_digit (byte % 16) ∷ []

-- `Display`: the bytes with colons between them.
unfoldable pub display : List ℕ → Text
display [] = []
display (b ∷ []) = hex_octet b
display (b ∷ c ∷ bytes) = hex_octet b ++ (58 ∷ display (c ∷ bytes))
