-- ===== src/BytesCodec/Fields.antt =====
-- Messages as sequences of fields: what the writes of `WriteBuffer` produce, the reads of
-- `ReadCursor` give back (crates/foundation/bytes-codec/src/lib.rs).
use fluvora.Prelude.{
  ℕ, ◌+◌, ◌^◌, ◌≤◌, ◌<◌, ◌≡◌, refl, sym, ap, ◌∙◌, List, [], ◌∷◌, ◌++◌, map, arith, length, Result,
  ok, ◌>>=◌, map_ok, All, inl, inr, length-append,
}
use fluvora.Prelude.Bytes.{of_be, to_be, length-to_be, of_be-to_be}
use fluvora.BytesCodec.Reader.{
  ReadCursor, DecodeError, new, rest, remaining, length-rest, read_u8, read_u16, read_u32, read_u64,
  take_bytes, Reads, read-Reads,
}
use fluvora.BytesCodec.Reader
use fluvora.BytesCodec.Writer.{
  WriteBuffer, EncodeError, with_limit, write_u8, write_u16, write_u32, write_u64,
  extend_from_slice, Writes, write-Writes, extend-Writes,
}
use fluvora.BytesCodec.Writer
use mathlib.Core.List.{append_assoc, append-nil}

-- One field of a message, and how it is asked for when it is read.
pub data Field : Type 0 where
  u8 u16 u32 u64 : ℕ → Field
  raw : List ℕ → Field

pub data Shape : Type 0 where
  u8 u16 u32 u64 : Shape
  raw : ℕ → Shape

abbrev pub shape : Field → Shape
shape (Field.u8 v) = Shape.u8
shape (Field.u16 v) = Shape.u16
shape (Field.u32 v) = Shape.u32
shape (Field.u64 v) = Shape.u64
shape (Field.raw bytes) = Shape.raw (length bytes)

-- The value fits the width of its field.
abbrev pub Fits : Field → Type 0
Fits (Field.u8 v) = v < 256
Fits (Field.u16 v) = v < 2 ^ 16
Fits (Field.u32 v) = v < 2 ^ 32
Fits (Field.u64 v) = v < 2 ^ 64
Fits (Field.raw bytes) = Unit {0}

abbrev pub encoding : Field → List ℕ
encoding (Field.u8 v) = v ∷ []
encoding (Field.u16 v) = to_be 2 v
encoding (Field.u32 v) = to_be 4 v
encoding (Field.u64 v) = to_be 8 v
encoding (Field.raw bytes) = bytes

unfoldable pub write_field : WriteBuffer → Field → WriteBuffer × Result EncodeError (Unit {0})
write_field w (Field.u8 v) = write_u8 w v
write_field w (Field.u16 v) = write_u16 w v
write_field w (Field.u32 v) = write_u32 w v
write_field w (Field.u64 v) = write_u64 w v
write_field w (Field.raw bytes) = extend_from_slice w bytes

unfoldable pub read_field : ReadCursor → Shape → ReadCursor × Result DecodeError Field
read_field c Shape.u8 = let (c', v) = read_u8 c in (c', map_ok Field.u8 v)
read_field c Shape.u16 = let (c', v) = read_u16 c in (c', map_ok Field.u16 v)
read_field c Shape.u32 = let (c', v) = read_u32 c in (c', map_ok Field.u32 v)
read_field c Shape.u64 = let (c', v) = read_u64 c in (c', map_ok Field.u64 v)
read_field c (Shape.raw n) = let (c', v) = take_bytes c n in (c', map_ok Field.raw v)

-- A caller that chains its calls by `?` stops at the first error.
unfoldable pub write_all : WriteBuffer → List Field → Result EncodeError WriteBuffer
write_all w [] = ok w
write_all w (f ∷ fs) = let (w', r) = write_field w f in r >>= λ _. write_all w' fs

unfoldable pub read_all : ReadCursor → List Shape → Result DecodeError (List Field × ReadCursor)
read_all c [] = ok ([], c)
read_all c (s ∷ ss) = do
  let (c', r) = read_field c s
  f ← r
  (fs, last) ← read_all c' ss
  ok (f ∷ fs, last)

field-Writes :
    (w : WriteBuffer) (f : Field) → Writer.IsValid w → Writes w (encoding f) (write_field w f)
unfolding write_field
field-Writes w (Field.u8 v) h = (write-Writes w v h).0
field-Writes w (Field.u16 v) h = (write-Writes w v h).1
field-Writes w (Field.u32 v) h = (write-Writes w v h).2
field-Writes w (Field.u64 v) h = (write-Writes w v h).3
field-Writes w (Field.raw bytes) h = extend-Writes w bytes h

append_cancel : (a b c d : List ℕ) → length a ≡ length b → a ++ c ≡ b ++ d → (a ≡ b) × (c ≡ d)
append_cancel [] [] c d h e = (refl, e)
append_cancel [] (y ∷ b) c d h e = absurd (omega arith)
append_cancel (x ∷ a) [] c d h e = absurd (omega arith)
append_cancel (x ∷ a) (y ∷ b) c d h e =
    ground (arith, append_cancel a b c d (omega arith) (ground arith))

-- A read that finds its bytes at the front of the unread suffix.
finds {ℓ} :
    {A : Type ℓ} (c : ReadCursor) (n : ℕ) (value : List ℕ → A)
    (t : ReadCursor × Result DecodeError A) (front more : List ℕ)
    → rest c ≡ front ++ more
    → length front ≡ n
    → Reads c n value t
    → (t.1 ≡ ok (value front)) × (rest t.0 ≡ more) × Reader.IsValid t.0
finds c n value (c', r) front more e len (inl (bytes, split, l, _, valid, res)) =
    let (p, q) = append_cancel bytes front (rest c') more (omega arith) (sym split ∙ e) in
    (res ∙ ap (λ b. ok (value b)) p, q, valid)
finds c n value (c', r) front more e len (inr (few, stay, res)) =
    absurd (omega (arith, ap length e, length-append front more, length-rest c))

-- A field that was read: it is `f`, and the cursor stands before `more`.
abbrev Found : Field → List ℕ → ReadCursor × Result DecodeError Field → Type 0
Found f more (c', r) = (r ≡ ok f) × (rest c' ≡ more) × Reader.IsValid c'

read_field-encoding :
    (f : Field) (c : ReadCursor) (more : List ℕ)
    → Fits f
    → Reader.IsValid c
    → rest c ≡ encoding f ++ more
    → Found f more (read_field c (shape f))
unfolding read_field
read_field-encoding (Field.u8 v) c more h valid e =
    let (p, q, k) = finds c 1 of_be (read_u8 c) (v ∷ []) more e refl (read-Reads c valid).0 in
    (ap (map_ok Field.u8) p ∙ ap (λ (n : ℕ). ok (Field.u8 n)) (omega arith), q, k)
read_field-encoding (Field.u16 v) c more h valid e =
    let (p, q, k) =
      finds c 2 of_be (read_u16 c) (to_be 2 v) more e (length-to_be 2 v) (read-Reads c valid).1 in
    (ap (map_ok Field.u16) p ∙ ap (λ n. ok (Field.u16 n)) (of_be-to_be 2 v h), q, k)
read_field-encoding (Field.u32 v) c more h valid e =
    let (p, q, k) =
      finds c 4 of_be (read_u32 c) (to_be 4 v) more e (length-to_be 4 v) (read-Reads c valid).2 in
    (ap (map_ok Field.u32) p ∙ ap (λ n. ok (Field.u32 n)) (of_be-to_be 4 v h), q, k)
read_field-encoding (Field.u64 v) c more h valid e =
    let (p, q, k) =
      finds c 8 of_be (read_u64 c) (to_be 8 v) more e (length-to_be 8 v) (read-Reads c valid).3 in
    (ap (map_ok Field.u64) p ∙ ap (λ n. ok (Field.u64 n)) (of_be-to_be 8 v h), q, k)
read_field-encoding (Field.raw bytes) c more h valid e =
    let (p, q, k) =
      finds c (length bytes) (λ b. b) (take_bytes c (length bytes)) bytes more e refl
        ((read-Reads c valid).4 (length bytes)) in
    (ap (map_ok Field.raw) p, q, k)

abbrev encodings : List Field → List ℕ
encodings [] = []
encodings (f ∷ fs) = encoding f ++ encodings fs

read_all-encodings :
    (fs : List Field) (c : ReadCursor) (more : List ℕ)
    → All Fits fs
    → Reader.IsValid c
    → rest c ≡ encodings fs ++ more
    → (last : ReadCursor) × (read_all c (map shape fs) ≡ ok (fs, last)) × (rest last ≡ more)
unfolding read_all
read_all-encodings [] c more h valid e = (c, refl, e)
read_all-encodings (f ∷ fs) c more h valid e =
    let (p, q, k) =
      read_field-encoding f c (encodings fs ++ more) h.0 valid
        (e ∙ append_assoc (encoding f) (encodings fs) more) in
    let (last, r, s) = read_all-encodings fs (read_field c (shape f)).0 more h.1 k q in
    (last, ground (arith, p, r), s)

written :
    (w : WriteBuffer) (f : Field) (fs : List Field)
    (t : WriteBuffer × Result EncodeError (Unit {0}))
    → Writer.IsValid w
    → length w.bytes + length (encodings (f ∷ fs)) ≤ w.limit
    → Writes w (encoding f) t
    → ((w' : WriteBuffer)
        → Writer.IsValid w'
        → length w'.bytes + length (encodings fs) ≤ w'.limit
        → write_all w' fs ≡ ok (record w' { bytes = w'.bytes ++ encodings fs }))
    → (t.1 >>= λ _. write_all t.0 fs) ≡ ok (record w { bytes = w.bytes ++ encodings (f ∷ fs) })
written w f fs (w', r) v room (inr (past, _, _)) ih =
    absurd (omega (arith, length-append (encoding f) (encodings fs)))
written w f fs (w', r) v room (inl (fits, stay, e)) ih =
    let w'' : WriteBuffer = record w { bytes = w.bytes ++ encoding f } in
    let len : length (w.bytes ++ encoding f) ≡ length w.bytes + length (encoding f) =
      length-append w.bytes (encoding f) in
    rw (e, stay)
      (ih w'' (record { bounded = omega arith; limit_fits = v.limit_fits })
          (omega (arith, length-append (encoding f) (encodings fs)))
        ∙ ap (λ b. ok (record w { bytes = b })) (append_assoc w.bytes (encoding f) (encodings fs)))

-- A message that fits the limit is written whole.
write_all-encodings :
    (fs : List Field) (w : WriteBuffer)
    → Writer.IsValid w
    → length w.bytes + length (encodings fs) ≤ w.limit
    → write_all w fs ≡ ok (record w { bytes = w.bytes ++ encodings fs })
unfolding write_all
write_all-encodings [] w v room = ap (λ b. ok (record w { bytes = b })) (sym (append-nil w.bytes))
write_all-encodings (f ∷ fs) w v room =
    written w f fs (write_field w f) v room (field-Writes w f v) (write_all-encodings fs)

-- A message of fields in range that fits the limit is written without an error, takes no more than
-- the limit, and is read back field by field, whatever bytes follow it; these are left unread.
pub read_all-write_all :
    (limit : ℕ) (fs : List Field) (more : List ℕ)
    → limit < 2 ^ 64
    → All Fits fs
    → length (encodings fs) ≤ limit
    → (w : WriteBuffer) × (c : ReadCursor) × (write_all (with_limit limit) fs ≡ ok w)
      × (length w.bytes ≤ limit)
      × (read_all (new (w.bytes ++ more)) (map shape fs) ≡ ok (fs, c))
      × (rest c ≡ more)
unfolding with_limit new rest
read_all-write_all limit fs more small fits room =
    let (c, r, s) =
      read_all-encodings fs (new (encodings fs ++ more)) more fits (omega arith) refl in
    (
      record { bytes = encodings fs; limit = limit },
      c,
      write_all-encodings fs (with_limit limit)
          (record { bounded = omega arith; limit_fits = small }) (omega arith),
      room,
      r,
      s,
    )
