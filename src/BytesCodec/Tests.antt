-- ===== src/BytesCodec/Tests.antt =====
-- Runs of the byte codec, and its theorems at concrete inputs.
use fluvora.Prelude.{ℕ, ◌≡◌, ◌≤◌, refl, List, [], ◌∷◌, ◌++◌, map, arith, ok, err, length}
use fluvora.Prelude.Bytes.{of_be, to_be}
use fluvora.BytesCodec.Reader.{
  ReadCursor, Reads, read_u8, read_u16, read_u32, read_u64, take_bytes, read-Reads, new, rest,
}
use fluvora.BytesCodec.Writer.{
  WriteBuffer, Writes, Patches, write_u8, write_u16, write_u32, write_u64, set_slice, set_u16,
  set_u32, with_limit, write-Writes, set-Patches,
}
use fluvora.BytesCodec.Fields.{Field, shape, write_all, read_all, read_all-write_all}

abbrev cursor : ReadCursor
cursor = record { input = 0x12 ∷ 0x34 ∷ 0x56 ∷ 0x78 ∷ 0x9a ∷ []; offset = 1 }

abbrev buffer : WriteBuffer
buffer = record { bytes = 0 ∷ 0 ∷ 7 ∷ 8 ∷ []; limit = 6 }

read_big_endian : (read_u32 cursor).1 ≡ ok 0x3456_789a
unfolding read_u32
read_big_endian = refl

read_short : read_u64 cursor ≡ (cursor, err (record { offset = 1; needed = 8; remaining = 4 }))
unfolding read_u64
read_short = refl

read-Reads_example :
    Reads cursor 1 of_be (read_u8 cursor)
    × Reads cursor 2 of_be (read_u16 cursor)
    × Reads cursor 4 of_be (read_u32 cursor)
    × Reads cursor 8 of_be (read_u64 cursor)
    × ((n : ℕ) → Reads cursor n (λ b. b) (take_bytes cursor n))
read-Reads_example = read-Reads cursor (omega arith)

write-Writes_example :
    Writes buffer (5 ∷ []) (write_u8 buffer 5)
    × Writes buffer (to_be 2 5) (write_u16 buffer 5)
    × Writes buffer (to_be 4 5) (write_u32 buffer 5)
    × Writes buffer (to_be 8 5) (write_u64 buffer 5)
write-Writes_example = write-Writes buffer 5 (omega arith)

set-Patches_example :
    ((value : List ℕ) → Patches buffer 1 value (set_slice buffer 1 value))
    × ((value : ℕ) → Patches buffer 1 (to_be 2 value) (set_u16 buffer 1 value))
    × ((value : ℕ) → Patches buffer 1 (to_be 4 value) (set_u32 buffer 1 value))
set-Patches_example = set-Patches buffer 1 (omega arith)

abbrev message : List Field
message = Field.u16 0xbede ∷ Field.u8 7 ∷ Field.raw (1 ∷ 2 ∷ 3 ∷ []) ∷ Field.u32 0x0102_0304 ∷ []

read_all-write_all_example :
    (w : WriteBuffer) × (c : ReadCursor) × (write_all (with_limit 12) message ≡ ok w)
    × (length w.bytes ≤ 12)
    × (read_all (new (w.bytes ++ 9 ∷ [])) (map shape message) ≡ ok (message, c))
    × (rest c ≡ 9 ∷ [])
read_all-write_all_example =
    read_all-write_all 12 message (9 ∷ []) (omega arith) (omega arith) (omega arith)
