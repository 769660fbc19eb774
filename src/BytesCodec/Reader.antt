-- ===== src/BytesCodec/Reader.antt =====
-- `ReadCursor` (crates/foundation/bytes-codec/src/lib.rs). A method that takes `&mut self` returns
-- the cursor after it and its result.
use fluvora.Prelude.{
  ℕ, ◌+◌, ◌-◌, ◌≤◌, ◌<◌, ◌≡◌, refl, sym, ap, ◌∙◌, List, [], ◌∷◌, ◌++◌, arith, Bool, ltb, ◌==◌,
  if◌then◌else◌, length, take, drop, head?, Result, ok, err, ◌>>=◌, map_ok, ok_or, take-append-drop,
  length-take, length-drop, drop-drop, Bool-cases, inl, inr, ◌⊎◌,
}
use fluvora.Prelude.Bytes.{of_be}

pub record DecodeError : Type 0 where
  pub offset : ℕ
  pub needed : ℕ
  pub remaining : ℕ

pub record ReadCursor : Type 0 where
  pub input : List ℕ
  pub offset : ℕ

unfoldable pub new : List ℕ → ReadCursor
new input = record { input = input; offset = 0 }

unfoldable pub remaining : ReadCursor → ℕ
remaining c = length c.input - c.offset

unfoldable pub is_empty : ReadCursor → Bool
unfolding remaining
is_empty c = remaining c == 0

unfoldable pub rest : ReadCursor → List ℕ
rest c = drop c.offset c.input

unfoldable pub take_bytes : ReadCursor → ℕ → ReadCursor × Result DecodeError (List ℕ)
unfolding remaining
take_bytes c length =
    if ltb (remaining c) length
    then (c, err (record { offset = c.offset; needed = length; remaining = remaining c }))
    else (record c { offset = c.offset + length }, ok (take length (drop c.offset c.input)))

-- `bytes.try_into()` for an array of `n` bytes.
abbrev to_array : ℕ → ReadCursor → List ℕ → Result DecodeError (List ℕ)
to_array n c bytes =
    if length bytes == n
    then ok bytes
    else err (record { offset = c.offset; needed = n; remaining = length bytes })

unfoldable pub read_u8 : ReadCursor → ReadCursor × Result DecodeError ℕ
unfolding take_bytes
read_u8 c =
    let (c', bytes) = take_bytes c 1 in
    (c', bytes >>= λ b. ok_or (head? b) (record { offset = c.offset; needed = 1; remaining = 0 }))

-- The common body of `read_u16`, `read_u32` and `read_u64`, which differ in the width alone.
unfoldable pub read_be : ℕ → ReadCursor → ReadCursor × Result DecodeError ℕ
unfolding take_bytes
read_be n c = let (c', bytes) = take_bytes c n in (c', bytes >>= λ b. map_ok of_be (to_array n c b))

unfoldable pub read_u16 : ReadCursor → ReadCursor × Result DecodeError ℕ
unfolding read_be
read_u16 c = read_be 2 c

unfoldable pub read_u32 : ReadCursor → ReadCursor × Result DecodeError ℕ
unfolding read_be
read_u32 c = read_be 4 c

unfoldable pub read_u64 : ReadCursor → ReadCursor × Result DecodeError ℕ
unfolding read_be
read_u64 c = read_be 8 c

-- The cursor stands within its input, so that `remaining` does not underflow.
abbrev pub IsValid : ReadCursor → Type 0
IsValid c = c.offset ≤ length c.input

-- What a read of `n` bytes can do to a cursor: it splits `n` bytes off the unread suffix, or it
-- leaves the cursor where it is because fewer than `n` bytes remain, and says so.
abbrev pub Reads {ℓ} :
    {A : Type ℓ} → ReadCursor → ℕ → (List ℕ → A) → ReadCursor × Result DecodeError A → Type ℓ
Reads c n value (c', r) =
    ((bytes : List ℕ) × (rest c ≡ bytes ++ rest c')
      × (length bytes ≡ n)
      × (c'.input ≡ c.input)
      × IsValid c'
      × (r ≡ ok (value bytes)))
    ⊎ ((remaining c < n)
        × (c' ≡ c)
        × (r ≡ err (record { offset = c.offset; needed = n; remaining = remaining c })))

pub length-rest : (c : ReadCursor) → length (rest c) ≡ remaining c
unfolding rest remaining
length-rest c = length-drop c.offset c.input

-- `take` splits the unread bytes, or fails in place.
pub take_bytes-Reads : (c : ReadCursor) (n : ℕ) → IsValid c → Reads c n (λ b. b) (take_bytes c n)
unfolding take_bytes rest
take_bytes-Reads c n v = elim (Bool-cases (ltb (length c.input - c.offset) n)) [
  | inl few ↦ rw few (inr (ground arith, refl, refl))
  | inr enough ↦ rw enough (
      inl (
        take n (drop c.offset c.input),
        sym (take-append-drop n (drop c.offset c.input))
            ∙ ap (◌++◌ (take n (drop c.offset c.input))) (drop-drop c.offset n c.input),
        ground (arith, length-take n (drop c.offset c.input), length-drop c.offset c.input),
        refl,
        ground arith,
        refl,
      ))
]

-- What the fixed-width reads add to `take`.
read_array-Reads : (c : ReadCursor) (n : ℕ) → IsValid c → Reads c n of_be (read_be n c)
unfolding read_be
read_array-Reads c n v = go (take_bytes c n) (take_bytes-Reads c n v)
  where
    go :
        (t : ReadCursor × Result DecodeError (List ℕ))
        → Reads c n (λ b. b) t
        → Reads c n of_be (t.0, t.1 >>= λ b. map_ok of_be (to_array n c b))
    go (c', r) (inl (bytes, split, len, same, valid, e)) =
        inl (bytes, split, len, same, valid, ground arith)
    go (c', r) (inr (few, stay, e)) = inr (few, stay, ground arith)

read_u8-Reads : (c : ReadCursor) → IsValid c → Reads c 1 of_be (read_u8 c)
unfolding read_u8
read_u8-Reads c v = go (take_bytes c 1) (take_bytes-Reads c 1 v)
  where
    go :
        (t : ReadCursor × Result DecodeError (List ℕ))
        → Reads c 1 (λ b. b) t
        → Reads c 1 of_be (
          t.0,
          t.1 >>= λ b. ok_or (head? b) (record { offset = c.offset; needed = 1; remaining = 0 }),
        )
    go (c', r) (inl ([], split, len, same, valid, e)) = absurd (omega arith)
    go (c', r) (inl (b ∷ [], split, len, same, valid, e)) =
        inl (b ∷ [], split, len, same, valid, ground arith)
    go (c', r) (inl (b ∷ b' ∷ bytes, split, len, same, valid, e)) = absurd (omega arith)
    go (c', r) (inr (few, stay, e)) = inr (few, stay, ground arith)

-- Every read of the cursor, `take` included, either splits off its bytes and yields the big-endian
-- number that they spell, or fails, with the place and the counts in the error, and does not move.
pub read-Reads :
    (c : ReadCursor)
    → IsValid c
    → Reads c 1 of_be (read_u8 c)
      × Reads c 2 of_be (read_u16 c)
      × Reads c 4 of_be (read_u32 c)
      × Reads c 8 of_be (read_u64 c)
      × ((n : ℕ) → Reads c n (λ b. b) (take_bytes c n))
unfolding read_u16 read_u32 read_u64
read-Reads c v = (
  read_u8-Reads c v,
  read_array-Reads c 2 v,
  read_array-Reads c 4 v,
  read_array-Reads c 8 v,
  λ n. take_bytes-Reads c n v,
)
