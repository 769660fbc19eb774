-- ===== src/Rtp/ExtensionRoundTrip.antt =====
-- What `encode_extensions` writes, `parse_extensions` reads, whatever word padding follows.
use Prim.Native.Nat.{bit_and, bit_or}
use fluvora.Prelude.{
  inl, inr, ◌⊎◌, ℕ, zero, suc, ◌+◌, ◌-◌, ◌*◌, ◌/◌, ◌≤◌, ◌<◌, ◌≡◌, refl, sym, ap, ◌∙◌, Bool, true,
  false, ◌&&◌, List, [], ◌∷◌, ◌++◌, leb, ◌==◌, arith, Result-cases, length, ok, map_ok,
  length-append, take-length_append, drop-length_append, ==_iff, all_below, of_all_below,
}
use fluvora.Prelude.Bytes.{zeros, length-zeros}
use mathlib.Core.List.{append_assoc}
use fluvora.Rtp.Errors.{ExtensionFormat, one_byte, two_byte, opaque}
use fluvora.Rtp.Extension.{
  HeaderExtension, one_byte_loop, parse_one_byte, two_byte_loop, parse_two_byte, parse_extensions,
  encode_one_byte, encode_two_byte, encode_extensions,
}

one_byte_loop-zeros : (fuel n : ℕ) → n ≤ fuel → one_byte_loop fuel (zeros n) ≡ ok []
unfolding one_byte_loop
one_byte_loop-zeros fuel zero h = refl
one_byte_loop-zeros zero (suc n) h = absurd (omega arith)
one_byte_loop-zeros (suc fuel) (suc n) h = one_byte_loop-zeros fuel n (omega arith)

abbrev header_test : ℕ → ℕ → Bool
header_test i n = bit_or (i * 16) n == i * 16 + n && bit_and (i * 16 + n) 0x0f == n

-- The header byte of an element, over its 14 identifiers and 16 lengths.
header_table : all_below 16 (λ i. all_below 16 (header_test i)) ≡ true
unfolding all_below
header_table = refl

header_byte :
    (i n : ℕ) → i < 16 → n < 16 → (bit_or (i * 16) n ≡ i * 16 + n) × (bit_and (i * 16 + n) 0x0f ≡ n)
header_byte i n hi hn =
    let row = of_all_below 16 (λ i. all_below 16 (header_test i)) header_table i hi in
    let cell = of_all_below 16 (header_test i) row n hn in
    ground
      (arith, cell, ==_iff (bit_or (i * 16) n) (i * 16 + n), ==_iff (bit_and (i * 16 + n) 0x0f) n)

OneByteParts : HeaderExtension → List ℕ → List ℕ → Type 0
OneByteParts x rest bytes =
    (1 ≤ x.id)
    × (x.id ≤ 14)
    × (1 ≤ length x.value)
    × (length x.value ≤ 16)
    × (bytes ≡ bit_or (x.id * 16) (length x.value - 1) ∷ x.value ++ rest)

encode_one_byte-inv :
    (x : HeaderExtension) (xs : List HeaderExtension) (bytes : List ℕ)
    → encode_one_byte (x ∷ xs) ≡ ok bytes
    → (rest : List ℕ) × (encode_one_byte xs ≡ ok rest) × OneByteParts x rest bytes
unfolding encode_one_byte OneByteParts
encode_one_byte-inv x xs bytes h = elim (Result-cases (encode_one_byte xs)) [
  | inl (rest, e) ↦ (rest, e, ground (arith, e))
  | inr (e', e) ↦ absurd (ground (arith, e))
]

one_byte_loop-step :
    (fuel i n : ℕ) (value tail : List ℕ)
    → 1 ≤ i
    → i ≤ 14
    → n < 16
    → length value ≡ n + 1
    → one_byte_loop (suc fuel) (bit_or (i * 16) n ∷ value ++ tail)
      ≡ map_ok (◌∷◌ (record { id = i; value = value })) (one_byte_loop fuel tail)
unfolding one_byte_loop
one_byte_loop-step fuel i n value tail i1 i14 n16 len =
    let byte = header_byte i n (omega arith) n16 in
    let id : (i * 16 + n) / 16 ≡ i = omega arith in
    let nonzero : (i * 16 + n == 0) ≡ false = ground arith in
    let not15 : (i == 15) ≡ false = ground arith in
    let fits : leb (length value) (length (value ++ tail)) ≡ true =
      ground (arith, length-append value tail) in
    rw
      (
        byte.0,
        byte.1,
        id,
        sym len,
        take-length_append value tail,
        drop-length_append value tail,
        nonzero,
        not15,
        fits,
      )
      refl

-- No element: what is left is padding.
one_byte_loop-pad :
    (fuel n : ℕ) (bytes : List ℕ)
    → encode_one_byte [] ≡ ok bytes
    → length (bytes ++ zeros n) ≤ fuel
    → one_byte_loop fuel (bytes ++ zeros n) ≡ ok []
unfolding encode_one_byte
one_byte_loop-pad fuel n [] e h = one_byte_loop-zeros fuel n (omega (arith, length-zeros n))
one_byte_loop-pad fuel n (b ∷ bytes) e h = absurd (ground arith)

one_byte_loop-encode :
    (fuel n : ℕ) (xs : List HeaderExtension) (bytes : List ℕ)
    → encode_one_byte xs ≡ ok bytes
    → length (bytes ++ zeros n) ≤ fuel
    → one_byte_loop fuel (bytes ++ zeros n) ≡ ok xs
unfolding OneByteParts
one_byte_loop-encode fuel n [] bytes e h = one_byte_loop-pad fuel n bytes e h
one_byte_loop-encode zero n (x ∷ xs) bytes e h =
    let (rest, er, (i1, i14, l1, l16, eq)) = encode_one_byte-inv x xs bytes e in
    let size = ap (λ (b : List ℕ). length (b ++ zeros n)) eq in absurd (omega (arith, size))
one_byte_loop-encode (suc fuel) n (x ∷ xs) bytes e h =
    let (rest, er, (i1, i14, l1, l16, eq)) = encode_one_byte-inv x xs bytes e in
    let size = ap (λ (b : List ℕ). length (b ++ zeros n)) eq in
    let assoc = append_assoc x.value rest (zeros n) in
    let parts = ap (λ (b : List ℕ). length b) assoc ∙ length-append x.value (rest ++ zeros n) in
    let others = one_byte_loop-encode fuel n xs rest er (omega (arith, size, parts)) in
    let step =
      one_byte_loop-step fuel x.id (length x.value - 1) x.value (rest ++ zeros n) i1 i14
        (omega arith) (omega arith) in
    rw (eq, assoc, step, others) refl

two_byte_loop-zeros : (fuel n : ℕ) → n ≤ fuel → two_byte_loop fuel (zeros n) ≡ ok []
unfolding two_byte_loop
two_byte_loop-zeros fuel zero h = refl
two_byte_loop-zeros zero (suc n) h = absurd (omega arith)
two_byte_loop-zeros (suc fuel) (suc zero) h = refl
two_byte_loop-zeros (suc fuel) (suc (suc n)) h = two_byte_loop-zeros fuel (suc n) (omega arith)

TwoByteParts : HeaderExtension → List ℕ → List ℕ → Type 0
TwoByteParts x rest bytes = (1 ≤ x.id) × (bytes ≡ x.id ∷ length x.value ∷ x.value ++ rest)

encode_two_byte-inv :
    (x : HeaderExtension) (xs : List HeaderExtension) (bytes : List ℕ)
    → encode_two_byte (x ∷ xs) ≡ ok bytes
    → (rest : List ℕ) × (encode_two_byte xs ≡ ok rest) × TwoByteParts x rest bytes
unfolding encode_two_byte TwoByteParts
encode_two_byte-inv x xs bytes h = elim (Result-cases (encode_two_byte xs)) [
  | inl (rest, e) ↦ (rest, e, ground (arith, e))
  | inr (e', e) ↦ absurd (ground (arith, e))
]

two_byte_loop-step :
    (fuel i : ℕ) (value tail : List ℕ)
    → 1 ≤ i
    → two_byte_loop (suc fuel) (i ∷ length value ∷ value ++ tail)
      ≡ map_ok (◌∷◌ (record { id = i; value = value })) (two_byte_loop fuel tail)
unfolding two_byte_loop
two_byte_loop-step fuel i value tail i1 =
    let nonzero : (i == 0) ≡ false = ground arith in
    let fits : leb (length value) (length (value ++ tail)) ≡ true =
      ground (arith, length-append value tail) in
    rw (take-length_append value tail, drop-length_append value tail, nonzero, fits) refl

two_byte_loop-pad :
    (fuel n : ℕ) (bytes : List ℕ)
    → encode_two_byte [] ≡ ok bytes
    → length (bytes ++ zeros n) ≤ fuel
    → two_byte_loop fuel (bytes ++ zeros n) ≡ ok []
unfolding encode_two_byte
two_byte_loop-pad fuel n [] e h = two_byte_loop-zeros fuel n (omega (arith, length-zeros n))
two_byte_loop-pad fuel n (b ∷ bytes) e h = absurd (ground arith)

two_byte_loop-encode :
    (fuel n : ℕ) (xs : List HeaderExtension) (bytes : List ℕ)
    → encode_two_byte xs ≡ ok bytes
    → length (bytes ++ zeros n) ≤ fuel
    → two_byte_loop fuel (bytes ++ zeros n) ≡ ok xs
unfolding TwoByteParts
two_byte_loop-encode fuel n [] bytes e h = two_byte_loop-pad fuel n bytes e h
two_byte_loop-encode zero n (x ∷ xs) bytes e h =
    let (rest, er, (i1, eq)) = encode_two_byte-inv x xs bytes e in
    let size = ap (λ (b : List ℕ). length (b ++ zeros n)) eq in absurd (omega (arith, size))
two_byte_loop-encode (suc fuel) n (x ∷ xs) bytes e h =
    let (rest, er, (i1, eq)) = encode_two_byte-inv x xs bytes e in
    let size = ap (λ (b : List ℕ). length (b ++ zeros n)) eq in
    let assoc = append_assoc x.value rest (zeros n) in
    let parts = ap (λ (b : List ℕ). length b) assoc ∙ length-append x.value (rest ++ zeros n) in
    let others = two_byte_loop-encode fuel n xs rest er (omega (arith, size, parts)) in
    let step = two_byte_loop-step fuel x.id x.value (rest ++ zeros n) i1 in
    rw (eq, assoc, step, others) refl

-- What `encode_extensions` accepts in a format that has elements, `parse_extensions` reads back
-- as the same elements, after any number of zero bytes of padding: identifiers, values, their
-- order, and nothing more.
pub parse_extensions-encode_extensions :
    (format : ExtensionFormat) (xs : List HeaderExtension) (bytes : List ℕ) (n : ℕ)
    → (format ≡ one_byte) ⊎ (format ≡ two_byte)
    → encode_extensions format xs ≡ ok bytes
    → parse_extensions format (bytes ++ zeros n) ≡ ok xs
unfolding parse_extensions encode_extensions parse_one_byte parse_two_byte
parse_extensions-encode_extensions one_byte xs bytes n f h =
    one_byte_loop-encode (length (bytes ++ zeros n)) n xs bytes h (omega arith)
parse_extensions-encode_extensions two_byte xs bytes n f h =
    two_byte_loop-encode (length (bytes ++ zeros n)) n xs bytes h (omega arith)
parse_extensions-encode_extensions (opaque value) xs bytes n f h = absurd (ground arith)
