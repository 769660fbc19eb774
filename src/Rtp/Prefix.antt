-- ===== src/Rtp/Prefix.antt =====
-- `parse_header_length` (crates/webrtc/rtp/src/packet.rs) reads the header only.
use Prim.Native.Nat.{bit_and}
use fluvora.Prelude.{
  ℕ, zero, suc, ◌+◌, ◌-◌, ◌*◌, ◌≤◌, ◌<◌, ◌^◌, ◌≡◌, refl, sym, ap, Bool, true, false, List, [], ◌∷◌,
  ◌++◌, length, take, drop, get_range, ok, ok_or, bind-inv, ok-injective, subst, arith,
  length-append, length-take, length-drop, take-append-drop, ◌∙◌, leb, ◌&&◌,
}
use fluvora.Prelude.Words.{usize_bits, checked_add, saturating_add}
use fluvora.Prelude.Fields.{read_field}
use fluvora.Rtp.Errors.{truncated_header, invalid_padding}
use fluvora.Rtp.HeaderLength.{checked_add-inv, get_range-bound, measured, parse_header_length-parse}
use fluvora.Rtp.RewriteParse.{parse_extension_block-after}
use fluvora.Rtp.Packet.{
  Header, Packet, read_u16, read_u32, parse, parse_csrcs, parse_extension_block, parse_padding,
  parse_header, get_from, without_padding, check_end, parse_first, extension_end,
  parse_header_length, has_bits, fixed_header_len, byte_at,
}

take-front : (n : ℕ) (h x y : List ℕ) → n ≤ length h → take n (h ++ x) ≡ take n (h ++ y)
take-front zero h x y s = refl
take-front (suc n) [] x y s = absurd (omega arith)
take-front (suc n) (b ∷ h) x y s = ap (◌∷◌ b) (take-front n h x y (omega arith))

pub drop-front :
    (i n : ℕ) (h x y : List ℕ)
    → i + n ≤ length h
    → take n (drop i (h ++ x)) ≡ take n (drop i (h ++ y))
drop-front zero n h x y s = take-front n h x y (omega arith)
drop-front (suc i) n [] x y s = absurd (omega arith)
drop-front (suc i) n (b ∷ h) x y s = drop-front i n h x y (omega arith)

pub get_range-front :
    (h x y : List ℕ) (i j : ℕ)
    → i ≤ j
    → j ≤ length h
    → get_range (h ++ x) i j ≡ get_range (h ++ y) i j
get_range-front h x y i j le s =
    let a : (leb i j && leb j (length (h ++ x))) ≡ true = ground (arith, length-append h x) in
    let b : (leb i j && leb j (length (h ++ y))) ≡ true = ground (arith, length-append h y) in
    rw (a, b, drop-front i (j - i) h x y (omega arith)) refl

pub read_field-front {ℓ} :
    {E : Type ℓ} (h x y : List ℕ) (e : E) (width position : ℕ)
    → position + width ≤ length h
    → position + width < 2 ^ 64
    → read_field e width (h ++ x) position ≡ read_field e width (h ++ y) position
unfolding read_field
read_field-front h x y e width position s small =
    rw
      (get_range-front h x y position (saturating_add usize_bits position width) (omega arith)
        (omega arith))
      refl

-- Two inputs of one length that begin with the same bytes.
module _ (h x y : List ℕ) (same : length x ≡ length y) where
  whole : length (h ++ x) ≡ length (h ++ y)
  whole = omega (arith, same, length-append h x, length-append h y)

  byte_at-front : 1 ≤ length h → byte_at (h ++ x) 0 ≡ byte_at (h ++ y) 0
  byte_at-front = first h
    where
      first : (h : List ℕ) → 1 ≤ length h → byte_at (h ++ x) 0 ≡ byte_at (h ++ y) 0
      first [] s = absurd (omega arith)
      first (b ∷ h) s = refl

  parse_first-front : 12 ≤ length h → parse_first (h ++ x) ≡ parse_first (h ++ y)
  unfolding parse_first
  parse_first-front s = rw (whole, byte_at-front (omega arith)) refl

  check_end-front : (stop : ℕ) → check_end (h ++ x) stop ≡ check_end (h ++ y) stop
  unfolding check_end
  check_end-front stop = rw whole refl

  read_u16-front :
      (position : ℕ)
      → position + 2 ≤ length h
      → position + 2 < 2 ^ 64
      → read_u16 (h ++ x) position ≡ read_u16 (h ++ y) position
  unfolding read_u16
  read_u16-front position s small =
      rw
        (get_range-front h x y position (saturating_add usize_bits position 2) (omega arith)
          (omega arith))
        refl

  check_end-value :
      (stop v : ℕ) → check_end (h ++ x) stop ≡ ok v → (v ≡ stop) × (check_end (h ++ y) stop ≡ ok v)
  unfolding check_end
  check_end-value stop v e = (ground (arith, whole), ground (arith, whole))

  extension_end-front :
      (position : ℕ)
      → extension_end (h ++ x) position ≡ ok (length h)
      → (extension_end (h ++ y) position ≡ ok (length h)) × (position ≤ length h)
  unfolding extension_end
  extension_end-front position e =
      let stop = length h in
      let (words, e1, h1) = bind-inv (read_u16 (h ++ x) (position + 2)) _ stop e in
      let (after, e2, h2) =
        bind-inv (ok_or (checked_add usize_bits position 4) truncated_header) _ stop h1 in
      let (sum, e3, h3) =
        bind-inv (ok_or (checked_add usize_bits after (words * 4)) truncated_header) _ stop h2 in
      let (same_stop, there) = check_end-value sum stop h3 in
      let a = checked_add-inv position 4 after _ e2 in
      let b = checked_add-inv after (words * 4) sum _ e3 in
      let read =
        read_u16-front (position + 2) (omega (arith, a, b, same_stop)) (omega (arith, a, b)) in
      (rw (sym read, e1, e2, e3) there, omega (arith, a, b, same_stop))

  measured-front :
      (flag : Bool) (position : ℕ)
      → measured flag (h ++ x) position ≡ ok (length h)
      → (measured flag (h ++ y) position ≡ ok (length h)) × (position ≤ length h)
  measured-front true position e = extension_end-front position e
  measured-front false position e = let same = ok-injective e in (e, omega (arith, same))

  -- A header that the length was measured of is measured alike with other bytes behind it.
  pub parse_header_length-front :
      parse_header_length (h ++ x) ≡ ok (length h) → parse_header_length (h ++ y) ≡ ok (length h)
  unfolding parse_header_length
  parse_header_length-front e =
      let stop = length h in
      let (first, e1, h1) = bind-inv (parse_first (h ++ x)) _ stop e in
      let (position, e2, h2) =
        bind-inv
          (ok_or (checked_add usize_bits fixed_header_len (bit_and first 0x0f * 4))
            truncated_header)
          _ stop h1 in
      let (position', e3, h3) = bind-inv (check_end (h ++ x) position) _ stop h2 in
      let (start, there) = check_end-value position position' e3 in
      let begin = checked_add-inv fixed_header_len (bit_and first 0x0f * 4) position _ e2 in
      let (m, inside) = measured-front (has_bits 0x10 first) position' h3 in
      rw (sym (parse_first-front (omega (arith, inside, start, begin))), e1, e2, there) m

-- What a parsed packet tells of its bytes.
pub record Header12 (input : List ℕ) (q : Packet) : Type 0 where
  pub above : 12 ≤ q.header_len
  pub within : q.header_len ≤ length input
  pub sequence : read_u16 input 2 ≡ ok q.header.sequence_number
  pub source : read_u32 input 8 ≡ ok q.header.ssrc

pub parse-Header12 : (input : List ℕ) (q : Packet) → parse input ≡ ok q → Header12 input q
unfolding parse parse_header
parse-Header12 input p h =
    let (first, e1, h1) = bind-inv (parse_first input) _ p h in
    let position = fixed_header_len + bit_and first 0x0f * 4 in
    let (csrcs, e2, h2) =
      bind-inv (parse_csrcs (bit_and first 0x0f) input fixed_header_len) _ p h1 in
    let (block, e3, h3) =
      bind-inv (parse_extension_block (has_bits 0x10 first) input position) _ p h2 in
    let (payload', e4, h4) = bind-inv (ok_or (get_from input block.stop) truncated_header) _ p h3 in
    let (padding_len, e5, h5) = bind-inv (parse_padding (has_bits 0x20 first) payload') _ p h4 in
    let (payload, e6, h6) =
      bind-inv (ok_or (without_padding payload' padding_len) (invalid_padding padding_len)) _ p
        h5 in
    let (header, e7, h7) = bind-inv (parse_header input csrcs) _ p h6 in
    let (seq, e8, h8) = bind-inv (read_u16 input 2) _ header e7 in
    let (time, e9, h9) = bind-inv (read_u32 input 4) _ header h8 in
    let (source, e10, h10) = bind-inv (read_u32 input 8) _ header h9 in
    let after = parse_extension_block-after (has_bits 0x10 first) input position block e3 in
    let within = get_range-bound input block.stop (length input) payload' _ e4 in
    subst (Header12 input) (ok-injective h7) (
      subst
        (λ (x : Header). Header12 input (record {
          header = x;
          header_len = block.stop;
          extension_format = block.format;
          extension_data = block.bytes;
          extensions = block.elements;
          payload = payload;
          padding_len = padding_len;
        }))
        (ok-injective h10)
        (record { above = omega (arith, after); within = within.0; sequence = e8; source = e10 }))

-- Where `parse` accepts a packet, `parse_header_length` measures the header to the length that `parse`
-- found, whatever bytes of the same length stand in place of what follows the header: payload and
-- padding, which encryption replaces.
pub parse_header_length-replaced :
    (input : List ℕ) (p : Packet) (body : List ℕ)
    → parse input ≡ ok p
    → length body ≡ length input - p.header_len
    → parse_header_length (take p.header_len input ++ body) ≡ ok p.header_len
parse_header_length-replaced input p body parsed size =
    let hl = p.header_len in
    let front = take hl input in
    let within = (parse-Header12 input p parsed).within in
    let len : length front ≡ hl = omega (arith, length-take hl input, within) in
    let split =
      subst (λ (xs : List ℕ). parse_header_length xs ≡ ok hl) (sym (take-append-drop hl input))
        (parse_header_length-parse input p parsed) in
    parse_header_length-front front (drop hl input) body (length-drop hl input ∙ sym size)
      (split ∙ ap ok (sym len))
    ∙ ap ok len
