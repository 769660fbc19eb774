-- ===== src/BytesCodec/Writer.antt =====
-- `WriteBuffer` (crates/foundation/bytes-codec/src/lib.rs).
use fluvora.Prelude.{
  ℕ, ◌+◌, ◌^◌, ◌≤◌, ◌<◌, ◌≡◌, refl, sym, ap, ◌∙◌, List, [], ◌∷◌, ◌++◌, none, some, arith, ltb, leb,
  if◌then◌else◌, length, take, drop, Result, ok, err, length-take, length-drop, length-append,
  drop-drop, Bool-cases, inl, inr, ◌⊎◌, take-length_append, drop-length_append,
}
use fluvora.Prelude.Words.{checked_add, usize_bits}
use fluvora.Prelude.Bytes.{to_be}

pub record EncodeError : Type 0 where
  pub current : ℕ
  pub additional : ℕ
  pub limit : ℕ

pub record WriteBuffer : Type 0 where
  pub bytes : List ℕ
  pub limit : ℕ

unfoldable pub with_limit : ℕ → WriteBuffer
with_limit limit = record { bytes = []; limit = limit }

unfoldable pub error : WriteBuffer → ℕ → EncodeError
error w additional = record { current = length w.bytes; additional = additional; limit = w.limit }

unfoldable pub extend_from_slice :
    WriteBuffer → List ℕ → WriteBuffer × Result EncodeError (Unit {0})
unfolding error
extend_from_slice w value = elim (checked_add usize_bits (length w.bytes) (length value)) [
  | none ↦ (w, err (error w (length value)))
  | some new_len ↦
      if ltb w.limit new_len
      then (w, err (error w (length value)))
      else (record w { bytes = w.bytes ++ value }, ok tt)
]

unfoldable pub write_u8 : WriteBuffer → ℕ → WriteBuffer × Result EncodeError (Unit {0})
unfolding extend_from_slice
write_u8 w value = extend_from_slice w (value ∷ [])

unfoldable pub write_u16 : WriteBuffer → ℕ → WriteBuffer × Result EncodeError (Unit {0})
unfolding extend_from_slice
write_u16 w value = extend_from_slice w (to_be 2 value)

unfoldable pub write_u32 : WriteBuffer → ℕ → WriteBuffer × Result EncodeError (Unit {0})
unfolding extend_from_slice
write_u32 w value = extend_from_slice w (to_be 4 value)

unfoldable pub write_u64 : WriteBuffer → ℕ → WriteBuffer × Result EncodeError (Unit {0})
unfolding extend_from_slice
write_u64 w value = extend_from_slice w (to_be 8 value)

-- `bytes.get_mut(offset..end)` is `None` where `end` is past the bytes.
unfoldable pub set_slice : WriteBuffer → ℕ → List ℕ → WriteBuffer × Result EncodeError (Unit {0})
unfolding error
set_slice w offset value = elim (checked_add usize_bits offset (length value)) [
  | none ↦ (w, err (error w (length value)))
  | some end ↦
      if leb end (length w.bytes)
      then (record w { bytes = take offset w.bytes ++ (value ++ drop end w.bytes) }, ok tt)
      else (w, err (error w (length value)))
]

unfoldable pub set_u16 : WriteBuffer → ℕ → ℕ → WriteBuffer × Result EncodeError (Unit {0})
unfolding set_slice
set_u16 w offset value = set_slice w offset (to_be 2 value)

unfoldable pub set_u32 : WriteBuffer → ℕ → ℕ → WriteBuffer × Result EncodeError (Unit {0})
unfolding set_slice
set_u32 w offset value = set_slice w offset (to_be 4 value)

-- The limit is a `usize`, and the bytes are within it.
pub record IsValid (w : WriteBuffer) : Type 0 where
  pub bounded : length w.bytes ≤ w.limit
  pub limit_fits : w.limit < 2 ^ usize_bits

-- What a write of `value` can do: it appends exactly those bytes, or it changes nothing because
-- they would pass the limit.
abbrev pub Writes : WriteBuffer → List ℕ → WriteBuffer × Result EncodeError (Unit {0}) → Type 0
Writes w value (w', r) =
    ((length w.bytes + length value ≤ w.limit)
      × (w' ≡ record w { bytes = w.bytes ++ value })
      × (r ≡ ok tt))
    ⊎ ((w.limit < length w.bytes + length value)
        × (w' ≡ w)
        × (r
            ≡ err
                (record { current = length w.bytes; additional = length value; limit = w.limit })))

pub extend-Writes :
    (w : WriteBuffer) (value : List ℕ) → IsValid w → Writes w value (extend_from_slice w value)
unfolding extend_from_slice
extend-Writes w value v = elim (Bool-cases (ltb (length w.bytes + length value) (2 ^ usize_bits))) [
  | inl fits ↦ elim (Bool-cases (ltb w.limit (length w.bytes + length value))) [
    | inl past ↦ rw (fits, extend_from_slice, past) (inr (ground arith, refl, refl))
    | inr within ↦ rw (fits, extend_from_slice, within) (inl (ground arith, refl, refl))
  ]
  | inr over ↦ rw (over, extend_from_slice) (inr (ground (arith, v.limit_fits), refl, refl))
]

-- Each write of a valid buffer appends its big-endian bytes, or changes nothing and reports the
-- length, the request and the limit; it fails exactly when the limit would be passed.
pub write-Writes :
    (w : WriteBuffer) (value : ℕ)
    → IsValid w
    → Writes w (value ∷ []) (write_u8 w value)
      × Writes w (to_be 2 value) (write_u16 w value)
      × Writes w (to_be 4 value) (write_u32 w value)
      × Writes w (to_be 8 value) (write_u64 w value)
unfolding write_u8 write_u16 write_u32 write_u64
write-Writes w value v = (
  extend-Writes w (value ∷ []) v,
  extend-Writes w (to_be 2 value) v,
  extend-Writes w (to_be 4 value) v,
  extend-Writes w (to_be 8 value) v,
)

-- A patch in range: the bytes keep their number, the patched ones are `value`, and those before and
-- after it stay. Out of range nothing changes.
abbrev pub Patches : WriteBuffer → ℕ → List ℕ → WriteBuffer × Result EncodeError (Unit {0}) → Type 0
Patches w offset value (w', r) =
    ((offset + length value ≤ length w.bytes)
      × (r ≡ ok tt)
      × (length w'.bytes ≡ length w.bytes)
      × (w'.limit ≡ w.limit)
      × (take offset w'.bytes ≡ take offset w.bytes)
      × (take (length value) (drop offset w'.bytes) ≡ value)
      × (drop (offset + length value) w'.bytes ≡ drop (offset + length value) w.bytes))
    ⊎ ((length w.bytes < offset + length value)
        × (w' ≡ w)
        × (r
            ≡ err
                (record { current = length w.bytes; additional = length value; limit = w.limit })))

-- Cutting a list that is given in three parts.
splice :
    (a b c : List ℕ) (n : ℕ)
    → length a ≡ n
    → (take n (a ++ (b ++ c)) ≡ a)
      × (take (length b) (drop n (a ++ (b ++ c))) ≡ b)
      × (drop (n + length b) (a ++ (b ++ c)) ≡ c)
splice a b c n e = rw (← e) (
  take-length_append a (b ++ c),
  ap (take (length b)) (drop-length_append a (b ++ c)) ∙ take-length_append b c,
  sym (drop-drop (length a) (length b) (a ++ (b ++ c)))
      ∙ ap (drop (length b)) (drop-length_append a (b ++ c))
      ∙ drop-length_append b c,
)

patched :
    (w : WriteBuffer) (offset : ℕ) (value : List ℕ)
    → offset + length value ≤ length w.bytes
    → Patches w offset value (
      record w { bytes = take offset w.bytes ++ (value ++ drop (offset + length value) w.bytes) },
      ok tt,
    )
patched w offset value fits =
    let before : length (take offset w.bytes) ≡ offset =
      omega (arith, length-take offset w.bytes) in
    let after = drop (offset + length value) w.bytes in
    let (p, q, r) = splice (take offset w.bytes) value after offset before in
    let whole : length (take offset w.bytes ++ (value ++ after)) ≡ length w.bytes = omega (
      arith,
      length-append (take offset w.bytes) (value ++ after),
      length-append value after,
      length-drop (offset + length value) w.bytes,
    ) in
    inl (fits, refl, whole, refl, p, q, r)

set_slice-Patches :
    (w : WriteBuffer) (offset : ℕ) (value : List ℕ)
    → IsValid w
    → Patches w offset value (set_slice w offset value)
unfolding set_slice
set_slice-Patches w offset value v =
    elim (Bool-cases (ltb (offset + length value) (2 ^ usize_bits))) [
      | inl fits ↦ elim (Bool-cases (leb (offset + length value) (length w.bytes))) [
        | inl within ↦ rw (fits, set_slice, within) (patched w offset value (ground arith))
        | inr past ↦ rw (fits, set_slice, past) (inr (ground arith, refl, refl))
      ]
      | inr over ↦ rw (over, set_slice) (inr (ground (arith, v.bounded, v.limit_fits), refl, refl))
    ]

-- A patch, also of `set_u16` and `set_u32`, overwrites its bytes and no others, keeps the length and
-- the limit, and fails without an effect exactly when it would reach past the encoded bytes.
pub set-Patches :
    (w : WriteBuffer) (offset : ℕ)
    → IsValid w
    → ((value : List ℕ) → Patches w offset value (set_slice w offset value))
      × ((value : ℕ) → Patches w offset (to_be 2 value) (set_u16 w offset value))
      × ((value : ℕ) → Patches w offset (to_be 4 value) (set_u32 w offset value))
unfolding set_u16 set_u32
set-Patches w offset v = (
  λ value. set_slice-Patches w offset value v,
  λ value. set_slice-Patches w offset (to_be 2 value) v,
  λ value. set_slice-Patches w offset (to_be 4 value) v,
)
