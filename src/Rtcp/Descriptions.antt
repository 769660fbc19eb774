-- ===== src/Rtcp/Descriptions.antt =====
-- Source descriptions: what is encoded is parsed.
use fluvora.Prelude.{
  ℕ, zero, suc, ◌+◌, ◌-◌, ◌%◌, ◌≤◌, ◌≡◌, refl, sym, ap, ◌∙◌, subst, true, false, List, [], ◌∷◌,
  ◌++◌, length, All, arith, ok, map_ok, bind-inv, map_ok-inv, ok-injective, length-append,
  take-length_append, drop-length_append, Bool-cases, inl, inr, ltb, leb, ◌==◌,
}
use mathlib.Core.List.{append_assoc, append-nil}
use fluvora.Prelude.Bytes.{to_be, zeros, length-zeros}
use fluvora.Prelude.Fields.{read_field-at}
use fluvora.Rtcp.Model.{SdesItem, SdesChunk, SourceDescription, truncated_packet}
use fluvora.Rtcp.Fits.{ItemFits, ChunkFits}
use fluvora.Rtcp.Twcc.{pad_words}
use fluvora.Rtcp.Parse.{
  parse_items, skip_zeros, parse_chunk, parse_chunks, parse_source_description,
}
use fluvora.Rtcp.Encode.{encode_items, encode_chunk, encode_chunks, encode_sdes, checked_count}
use fluvora.Rtcp.Reports.{Reads, checked_count-inv}

parse_items-end : (fuel : ℕ) (post : List ℕ) → parse_items (suc fuel) (0 ∷ post) ≡ ok ([], post)
unfolding parse_items
parse_items-end fuel [] = refl
parse_items-end fuel (p ∷ post) = refl

parse_items-step :
    (fuel : ℕ) (x : SdesItem) (tail : List ℕ) (items : List SdesItem) (post : List ℕ)
    → ItemFits x
    → parse_items fuel tail ≡ ok (items, post)
    → parse_items (suc fuel) (x.item_type ∷ length x.value ∷ (x.value ++ tail))
      ≡ ok (x ∷ items, post)
unfolding parse_items
parse_items-step fuel x tail items post f h =
    let nonzero : (x.item_type == 0) ≡ false = ground arith in
    let fits : leb (length x.value) (length (x.value ++ tail)) ≡ true =
      ground (arith, length-append x.value tail) in
    rw (nonzero, fits, take-length_append x.value tail, drop-length_append x.value tail, h) refl

encode_items-inv :
    (x : SdesItem) (xs : List SdesItem) (bytes : List ℕ)
    → encode_items (x ∷ xs) ≡ ok bytes
    → (rest : List ℕ) × (encode_items xs ≡ ok rest)
      × ((x.item_type ∷ length x.value ∷ (x.value ++ rest)) ≡ bytes)
unfolding encode_items
encode_items-inv x xs bytes h = elim (Bool-cases (ltb 255 (length x.value))) [
  | inl wide ↦ absurd (ground (arith, wide))
  | inr fits ↦
      let step : map_ok (λ tail. x.item_type ∷ length x.value ∷ (x.value ++ tail)) (encode_items xs)
          ≡ ok bytes =
        ground (arith, fits) in
      map_ok-inv (λ tail. x.item_type ∷ length x.value ∷ (x.value ++ tail)) (encode_items xs) bytes
        step
]

parse_items-encode :
    (fuel : ℕ) (xs : List SdesItem) (bytes post : List ℕ)
    → All ItemFits xs
    → encode_items xs ≡ ok bytes
    → length (bytes ++ (0 ∷ post)) ≤ fuel
    → parse_items fuel (bytes ++ (0 ∷ post)) ≡ ok (xs, post)
parse_items-encode zero xs bytes post f e long =
    absurd (omega (arith, length-append bytes (0 ∷ post)))
parse_items-encode (suc fuel) [] bytes post f e long =
    let nil : [] ≡ bytes = unfold encode_items in ok-injective e in
    rw (sym nil) (parse_items-end fuel post)
parse_items-encode (suc fuel) (x ∷ xs) bytes post f e long =
    let (rest, er, eq) = encode_items-inv x xs bytes e in
    let size = ap (λ (b : List ℕ). length (b ++ (0 ∷ post))) eq in
    let assoc = append_assoc x.value rest (0 ∷ post) in
    let parts = ap (λ (b : List ℕ). length b) assoc ∙ length-append x.value (rest ++ (0 ∷ post)) in
    let others = parse_items-encode fuel xs rest post f.1 er (omega (arith, size, parts)) in
    rw (sym eq, assoc) (parse_items-step fuel x (rest ++ (0 ∷ post)) xs post f.0 others)

skip_zeros-zeros : (n : ℕ) (post : List ℕ) → skip_zeros n (zeros n ++ post) ≡ ok post
unfolding skip_zeros
skip_zeros-zeros zero post = refl
skip_zeros-zeros (suc n) post = skip_zeros-zeros n post

-- A chunk's bytes: the source, its items, the END marker, and zeros up to a whole word.
chunk_bytes : SdesChunk → List ℕ → List ℕ → List ℕ
chunk_bytes c items tail = to_be 4 c.ssrc ++ (items ++ (0 ∷ tail))

parse_chunk-bytes :
    (c : SdesChunk) (items post : List ℕ) (k : ℕ)
    → ChunkFits c
    → encode_items c.items ≡ ok items
    → k ≡ (4 - (5 + length items) % 4) % 4
    → parse_chunk (chunk_bytes c items (zeros k ++ post)) ≡ ok (c, post)
unfolding parse_chunk chunk_bytes
parse_chunk-bytes c items post k f e hk =
    let tail = zeros k ++ post in
    let rest = items ++ (0 ∷ tail) in
    let source = read_field-at truncated_packet 4 c.ssrc [] rest 0 refl f.0 (omega arith) in
    let read =
      parse_items-encode (length (to_be 4 c.ssrc ++ rest)) c.items items tail f.1 e (omega arith) in
    let taken : length (to_be 4 c.ssrc ++ rest) - length tail ≡ 5 + length items =
      omega (arith, length-append items (0 ∷ tail)) in
    rw (source, read, taken, sym hk, skip_zeros-zeros k post) refl

encode_chunk-inv :
    (c : SdesChunk) (bytes : List ℕ)
    → encode_chunk c ≡ ok bytes
    → (items : List ℕ) × (encode_items c.items ≡ ok items)
      × (pad_words (to_be 4 c.ssrc ++ (items ++ (0 ∷ []))) ≡ bytes)
unfolding encode_chunk
encode_chunk-inv c bytes h = map_ok-inv _ (encode_items c.items) bytes h

-- A padded list is a whole number of words.
pub length-pad_words : (bytes : List ℕ) → length (pad_words bytes) % 4 ≡ 0
unfolding pad_words
length-pad_words bytes =
    let k = (4 - length bytes % 4) % 4 in
    omega (arith, length-append bytes (zeros k), length-zeros k)

-- Whole words are not padded.
pub pad_words-whole : (bytes : List ℕ) → length bytes % 4 ≡ 0 → pad_words bytes ≡ bytes
unfolding pad_words
pad_words-whole bytes h =
    let none_missing : (4 - length bytes % 4) % 4 ≡ 0 = omega arith in
    rw none_missing (append-nil bytes)

parse_chunk-encode_chunk :
    (c : SdesChunk) (bytes post : List ℕ)
    → ChunkFits c
    → encode_chunk c ≡ ok bytes
    → (parse_chunk (bytes ++ post) ≡ ok (c, post)) × (length bytes % 4 ≡ 0)
parse_chunk-encode_chunk c bytes post f h =
    let (items, e, eq) = encode_chunk-inv c bytes h in
    let whole = to_be 4 c.ssrc ++ (items ++ (0 ∷ [])) in
    let k = (4 - length whole % 4) % 4 in
    let size : k ≡ (4 - (5 + length items) % 4) % 4 = omega (arith, length-append items (0 ∷ [])) in
    let shape : pad_words whole ++ post ≡ chunk_bytes c items (zeros k ++ post) =
      unfold pad_words chunk_bytes in simp (append_assoc) in
    (
      rw (sym eq, shape) (parse_chunk-bytes c items post k f e size),
      rw (sym eq) (length-pad_words whole),
    )

parse_chunks-encode :
    (cs : List SdesChunk) (bytes : List ℕ)
    → All ChunkFits cs
    → encode_chunks cs ≡ ok bytes
    → (parse_chunks (length cs) bytes ≡ ok (cs, [])) × (length bytes % 4 ≡ 0)
unfolding parse_chunks encode_chunks
parse_chunks-encode [] bytes f h =
    let nil : [] ≡ bytes = ok-injective h in (rw (sym nil) refl, rw (sym nil) refl)
parse_chunks-encode (c ∷ cs) bytes f h =
    let (chunk, e1, h1) = bind-inv (encode_chunk c) _ bytes h in
    let (chunks, e2, h2) = bind-inv (encode_chunks cs) _ bytes h1 in
    let eq = ok-injective h2 in
    let one = parse_chunk-encode_chunk c chunk chunks f.0 e1 in
    let others = parse_chunks-encode cs chunks f.1 e2 in
    let whole : length (chunk ++ chunks) % 4 ≡ 0 =
      omega (arith, length-append chunk chunks, one.1, others.1) in
    (rw (sym eq, one.0, others.0) refl, rw (sym eq) whole)

pub parse_source_description-encode :
    (d : SourceDescription) (t : ℕ × ℕ × List ℕ)
    → All ChunkFits d.chunks
    → encode_sdes d ≡ ok t
    → Reads 202 parse_source_description d t
unfolding encode_sdes parse_source_description Reads
parse_source_description-encode d t f h =
    let (n, e1, h1) = bind-inv (checked_count (length d.chunks)) _ t h in
    let (chunks, e2, h2) = bind-inv (encode_chunks d.chunks) _ t h1 in
    let (counted, small) = checked_count-inv (length d.chunks) n e1 in
    let (read, whole) = parse_chunks-encode d.chunks chunks f e2 in
    subst (Reads 202 parse_source_description d) (ok-injective h2)
      (rw (sym counted, read) refl, refl, omega (arith, counted, small), whole)
