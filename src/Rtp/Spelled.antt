-- ===== src/Rtp/Spelled.antt =====
-- The sequence number and the SSRC that the rewrites of crates/webrtc/rtp/src/packet.rs put into the
-- bytes of a packet.
use fluvora.Prelude.{
  ℕ, ◌+◌, ◌*◌, ◌%◌, ◌^◌, ◌≤◌, ◌≡◌, refl, sym, ap, ◌∙◌, subst, none, some, List, [], ◌∷◌, ◌++◌,
  length, take, drop, length-take, take-append-drop, take-length_append, drop-length_append, ok,
  ok_or, map_ok, bind-inv, ok-injective, arith, filter_map, if◌then◌else◌,
}
use fluvora.Prelude.Bytes.{to_be, of_be}
use fluvora.Rtp.Errors.{truncated_header, unsupported_extension_rewrite}
use fluvora.Rtp.Packet.{parse, parse_first, read_u16, read_u32}
use fluvora.Rtp.HeaderLength.{parse_first-bound}
use fluvora.Rtp.Prefix.{drop-front, parse-Header12}
use fluvora.Rtp.Kept.{Kept, overwrite-length, apply_payload_type-Kept}
use fluvora.Rtp.RewriteParse.{read_range}
use fluvora.Rtp.Build.{
  PacketBuilder, validate_builder, extension_data, checked_words, checked_total, data_len, is_some,
  padded, encode_fixed_header, build, new_builder, set_marker, set_csrcs, set_extensions,
  set_padding,
}
use fluvora.Rtp.Rewrite.{
  ExtensionRewrite, overwrite, apply_payload_type, apply_marker, apply, known_format,
  rewrite_extension, rewrite_header_extensions,
}

-- What a parser reads of a packet: the low bits of the two numbers, at their places.
unfoldable pub Carries : ℕ → ℕ → List ℕ → Type 0
Carries sequence_number ssrc bytes =
    (read_u16 bytes 2 ≡ ok (sequence_number % 2 ^ 16)) × (read_u32 bytes 8 ≡ ok (ssrc % 2 ^ 32))

-- The same of the bytes.
Spells : ℕ → ℕ → List ℕ → Type 0
Spells sequence_number ssrc bytes =
    (12 ≤ length bytes)
    × (take 2 (drop 2 bytes) ≡ to_be 2 sequence_number)
    × (take 4 (drop 8 bytes) ≡ to_be 4 ssrc)

low_two : (v : ℕ) → of_be (to_be 2 v) ≡ v % 2 ^ 16
low_two v = omega arith

low_four : (v : ℕ) → of_be (to_be 4 v) ≡ v % 2 ^ 32
low_four v = omega arith

Spells-Carries :
    (sequence_number ssrc : ℕ) (bytes : List ℕ)
    → Spells sequence_number ssrc bytes
    → Carries sequence_number ssrc bytes
unfolding Spells Carries read_u16 read_u32
Spells-Carries sequence_number ssrc bytes (long, two, eight) = (
  ap (map_ok of_be) (read_range bytes 2 2 truncated_header (omega arith) long)
      ∙ ap (λ (b : List ℕ). ok (of_be b)) two
      ∙ ap (λ (v : ℕ). ok v) (low_two sequence_number),
  ap (map_ok of_be) (read_range bytes 8 4 truncated_header (omega arith) long)
      ∙ ap (λ (b : List ℕ). ok (of_be b)) eight
      ∙ ap (λ (v : ℕ). ok v) (low_four ssrc),
)

overwrite-at :
    (position : ℕ) (bytes packet : List ℕ)
    → position ≤ length packet
    → take (length bytes) (drop position (overwrite position bytes packet)) ≡ bytes
overwrite-at position bytes packet fits =
    let front : length (take position packet) ≡ position =
      omega (arith, length-take position packet) in
    let after = bytes ++ drop (position + length bytes) packet in
    ap (λ (n : ℕ). take (length bytes) (drop n (take position packet ++ after))) (sym front)
    ∙ ap (take (length bytes)) (drop-length_append (take position packet) after)
    ∙ take-length_append bytes (drop (position + length bytes) packet)

overwrite-before :
    (i n position : ℕ) (bytes packet : List ℕ)
    → i + n ≤ position
    → position ≤ length packet
    → take n (drop i (overwrite position bytes packet)) ≡ take n (drop i packet)
overwrite-before i n position bytes packet le fits =
    drop-front i n (take position packet) (bytes ++ drop (position + length bytes) packet)
      (drop position packet) (omega (arith, length-take position packet))
    ∙ ap (λ (xs : List ℕ). take n (drop i xs)) (take-append-drop position packet)

apply-Spells :
    (payload_type sequence_number timestamp ssrc : ℕ) (packet out : List ℕ)
    → apply
        (record {
          marker = none;
          payload_type = some payload_type;
          sequence_number = some sequence_number;
          timestamp = some timestamp;
          ssrc = some ssrc;
        })
        packet
      ≡ ok out
    → Spells sequence_number ssrc out
unfolding apply apply_marker parse Kept Spells
apply-Spells payload_type sequence_number timestamp ssrc packet out h =
    let (p, e1, h1) = bind-inv (parse packet) _ out h in
    let (first, e0, h0) = bind-inv (parse_first packet) _ p e1 in
    let (m, e2, h2) = bind-inv (apply_payload_type (some payload_type) packet) _ out h1 in
    let kept =
      apply_payload_type-Kept (some payload_type) packet m (parse_first-bound packet first e0) e2 in
    let long = parse_first-bound packet first e0 in
    let x1 = overwrite 2 (to_be 2 sequence_number) m in
    let x2 = overwrite 4 (to_be 4 timestamp) x1 in
    let l1 = overwrite-length 2 (to_be 2 sequence_number) m (omega (arith, kept.0, long)) in
    let l2 = overwrite-length 4 (to_be 4 timestamp) x1 (omega (arith, l1, kept.0, long)) in
    let l3 = overwrite-length 8 (to_be 4 ssrc) x2 (omega (arith, l2, l1, kept.0, long)) in
    subst (λ (xs : List ℕ). Spells sequence_number ssrc xs) (ok-injective h2)
      (
        omega (arith, l3, l2, l1, kept.0, long),
        overwrite-before 2 2 8 (to_be 4 ssrc) x2 (omega arith) (omega (arith, l2, l1, kept.0, long))
            ∙ overwrite-before 2 2 4 (to_be 4 timestamp) x1 (omega arith)
                (omega (arith, l1, kept.0, long))
            ∙ overwrite-at 2 (to_be 2 sequence_number) m (omega (arith, kept.0, long)),
        overwrite-at 8 (to_be 4 ssrc) x2 (omega (arith, l2, l1, kept.0, long)),
      )

build-Spells :
    (b : PacketBuilder) (out : List ℕ)
    → build b ≡ ok out
    → Spells b.header.sequence_number b.header.ssrc out
unfolding build encode_fixed_header Spells
build-Spells b out h =
    let (valid, e1, h1) = bind-inv (validate_builder b) _ out h in
    let (bytes, e2, h2) = bind-inv (extension_data b.extension_format b.extensions) _ out h1 in
    let (words, e3, h3) = bind-inv (checked_words (data_len bytes)) _ out h2 in
    let (total, e4, h4) =
      bind-inv
        (checked_total (length b.header.csrcs * 4)
          (if is_some bytes then 4 + padded (data_len bytes) else 0) (length b.payload)
          b.padding_len)
        _ out h3 in
    subst (λ (xs : List ℕ). Spells b.header.sequence_number b.header.ssrc xs) (ok-injective h4)
      (omega arith, refl, refl)

-- The rewrite of the extensions keeps the two numbers.
rewrite_header_extensions-Carries :
    (rewrites : List ExtensionRewrite) (packet out : List ℕ) (sequence_number ssrc : ℕ)
    → Carries sequence_number ssrc packet
    → rewrite_header_extensions packet rewrites ≡ ok out
    → Carries sequence_number ssrc out
unfolding rewrite_header_extensions Carries new_builder set_marker set_csrcs set_extensions
    set_padding
rewrite_header_extensions-Carries [] packet out sequence_number ssrc c h =
    subst (λ (xs : List ℕ). Carries sequence_number ssrc xs) (ok-injective h) c
rewrite_header_extensions-Carries (r ∷ rs) packet out sequence_number ssrc c h =
    let (q, e1, h1) = bind-inv (parse packet) _ out h in
    let (format, e2, h2) =
      bind-inv (ok_or (known_format q.extension_format) unsupported_extension_rewrite) _ out h1 in
    let k = parse-Header12 packet q e1 in
    let number = ok-injective (sym k.sequence ∙ c.0) in
    let source = ok-injective (sym k.source ∙ c.1) in
    let header = q.header in
    let builder = set_padding q.padding_len (
      set_extensions format (filter_map (rewrite_extension (r ∷ rs)) q.extensions) (
        set_csrcs header.csrcs (
          set_marker header.marker (
            new_builder header.payload_type header.sequence_number header.timestamp header.ssrc
              q.payload)))) in
    let built =
      Spells-Carries header.sequence_number header.ssrc out (build-Spells builder out h2) in
    (
      built.0 ∙ ap (λ (v : ℕ). ok v) (omega (arith, number)),
      built.1 ∙ ap (λ (v : ℕ). ok v) (omega (arith, source)),
    )

-- Both rewrites in turn, as a down-track applies them.
pub rewritten-Carries :
    (payload_type sequence_number timestamp ssrc : ℕ) (rewrites : List ExtensionRewrite)
    (packet middle out : List ℕ)
    → apply
        (record {
          marker = none;
          payload_type = some payload_type;
          sequence_number = some sequence_number;
          timestamp = some timestamp;
          ssrc = some ssrc;
        })
        packet
      ≡ ok middle
    → rewrite_header_extensions middle rewrites ≡ ok out
    → Carries sequence_number ssrc out
rewritten-Carries payload_type sequence_number timestamp ssrc rewrites packet middle out a h =
    rewrite_header_extensions-Carries rewrites middle out sequence_number ssrc
      (Spells-Carries sequence_number ssrc middle
        (apply-Spells payload_type sequence_number timestamp ssrc packet middle a))
      h
