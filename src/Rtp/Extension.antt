-- ===== src/Rtp/Extension.antt =====
-- RFC 8285 header extensions: crates/webrtc/rtp/src/extension.rs.
use Prim.Native.Nat.{bit_and, bit_or}
use fluvora.Prelude.{
  ℕ, zero, suc, ◌+◌, ◌-◌, ◌*◌, ◌/◌, Bool, not, ◌&&◌, List, [], ◌∷◌, ◌++◌, leb, ◌==◌, if◌then◌else◌,
  length, take, drop, is_empty, Result, ok, err, map_ok,
}
use fluvora.Rtp.Errors.{
  ExtensionFormat, one_byte, two_byte, opaque, RtpError, truncated_extension, invalid_extension_id,
  invalid_extension_length,
}

unfoldable pub from_profile : ℕ → ExtensionFormat
from_profile profile =
    if profile == 0xbede
    then one_byte
    else if bit_and profile 0xfff0 == 0x1000
    then two_byte
    else opaque profile

unfoldable pub profile : ExtensionFormat → ℕ
profile one_byte = 0xbede
profile two_byte = 0x1000
profile (opaque value) = value

-- `HeaderExtension` and `OwnedHeaderExtension`, which differ in who owns the bytes.
pub record HeaderExtension : Type 0 where
  pub id : ℕ
  pub value : List ℕ

-- The loops read from the position on; `fuel` bounds the bytes that are left, and each round takes
-- one at least. The clause for no fuel is not reached from `parse_one_byte` and `parse_two_byte`.
unfoldable pub one_byte_loop : ℕ → List ℕ → Result RtpError (List HeaderExtension)
one_byte_loop fuel [] = ok []
one_byte_loop zero (header ∷ rest) = err truncated_extension
one_byte_loop (suc fuel) (header ∷ rest) =
    let skipped = one_byte_loop fuel rest in
    let id = header / 16 in
    let length' = bit_and header 0x0f + 1 in
    let others = one_byte_loop fuel (drop length' rest) in
    if header == 0
    then skipped
    else if id == 15
    then ok []
    else if leb length' (length rest)
    then map_ok (◌∷◌ (record { id = id; value = take length' rest })) others
    else err truncated_extension

unfoldable pub parse_one_byte : List ℕ → Result RtpError (List HeaderExtension)
unfolding one_byte_loop
parse_one_byte bytes = one_byte_loop (length bytes) bytes

unfoldable pub two_byte_loop : ℕ → List ℕ → Result RtpError (List HeaderExtension)
two_byte_loop fuel [] = ok []
two_byte_loop zero (id ∷ rest) = err truncated_extension
two_byte_loop (suc fuel) (id ∷ []) = if id == 0 then ok [] else err truncated_extension
two_byte_loop (suc fuel) (id ∷ length' ∷ rest) =
    let skipped = two_byte_loop fuel (length' ∷ rest) in
    let others = two_byte_loop fuel (drop length' rest) in
    if id == 0
    then skipped
    else if leb length' (length rest)
    then map_ok (◌∷◌ (record { id = id; value = take length' rest })) others
    else err truncated_extension

unfoldable pub parse_two_byte : List ℕ → Result RtpError (List HeaderExtension)
unfolding two_byte_loop
parse_two_byte bytes = two_byte_loop (length bytes) bytes

unfoldable pub parse_extensions : ExtensionFormat → List ℕ → Result RtpError (List HeaderExtension)
unfolding parse_one_byte parse_two_byte
parse_extensions one_byte bytes = parse_one_byte bytes
parse_extensions two_byte bytes = parse_two_byte bytes
parse_extensions (opaque value) bytes = ok []

-- `(lo..=hi).contains(&n)`
abbrev within : ℕ → ℕ → ℕ → Bool
within lo hi n = leb lo n && leb n hi

unfoldable pub encode_one_byte : List HeaderExtension → Result RtpError (List ℕ)
encode_one_byte [] = ok []
encode_one_byte (x ∷ xs) =
    let rest = encode_one_byte xs in
    if not (within 1 14 x.id)
    then err (invalid_extension_id one_byte x.id)
    else if not (within 1 16 (length x.value))
    then err (invalid_extension_length one_byte (length x.value))
    else map_ok (λ bytes. bit_or (x.id * 16) (length x.value - 1) ∷ x.value ++ bytes) rest

unfoldable pub encode_two_byte : List HeaderExtension → Result RtpError (List ℕ)
encode_two_byte [] = ok []
encode_two_byte (x ∷ xs) =
    let rest = encode_two_byte xs in
    if x.id == 0
    then err (invalid_extension_id two_byte x.id)
    else if not (leb (length x.value) 255)
    then err (invalid_extension_length two_byte (length x.value))
    else map_ok (λ bytes. x.id ∷ length x.value ∷ x.value ++ bytes) rest

unfoldable pub encode_extensions : ExtensionFormat → List HeaderExtension → Result RtpError (List ℕ)
unfolding encode_one_byte encode_two_byte
encode_extensions one_byte xs = encode_one_byte xs
encode_extensions two_byte xs = encode_two_byte xs
encode_extensions (opaque value) xs =
    if is_empty xs then ok [] else err (invalid_extension_id (opaque value) 0)
