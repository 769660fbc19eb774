-- ===== src/Rtp/RewriteParse.antt =====
-- A packet whose fixed fields `Rewrite::apply` has replaced parses as the packet that it was.
use Prim.Native.Nat.{bit_and}
use fluvora.Prelude.{
  ◌&&◌, leb, ℕ, zero, suc, ◌+◌, ◌-◌, ◌*◌, ◌≤◌, ◌≡◌, refl, sym, ap, subst, ◌∙◌, Bool, true, false,
  Option, some, List, length, take, drop, drop-drop, get_range, Result, ok, ◌>>=◌, bind-inv,
  ok-injective, ok_or, arith,
}
use mathlib.Core.Path.{fun_ext}
use fluvora.Prelude.Bytes.{of_be}
use fluvora.Prelude.Words.{usize_bits, checked_add, checked_mul, saturating_add}
use fluvora.Rtp.Errors.{RtpError, truncated_header, invalid_padding}
use fluvora.Rtp.HeaderLength.{parse_first-bound, checked_add-inv}
use fluvora.Rtp.Packet.{
  Header, Packet, ExtensionBlock, byte_at, has_bits, get_from, without_padding, fixed_header_len,
  read_u16, read_u32, parse, parse_first, parse_csrcs, parse_extension_block, parse_padding,
  parse_header,
}
use fluvora.Rtp.Extension.{from_profile, parse_extensions}
use fluvora.Rtp.Rewrite.{Rewrite, apply}
use fluvora.Rtp.Kept.{Kept, apply-Kept}

pub parse_extension_block-after :
    (flag : Bool) (input : List ℕ) (position : ℕ) (b : ExtensionBlock)
    → parse_extension_block flag input position ≡ ok b
    → position ≤ b.stop
unfolding parse_extension_block
parse_extension_block-after false input position b h =
    let same = ap (λ (c : ExtensionBlock). c.stop) (ok-injective h) in omega (arith, same)
parse_extension_block-after true input position b h =
    let (profile, e1, h1) = bind-inv (read_u16 input position) _ b h in
    let (words, e2, h2) = bind-inv (read_u16 input (position + 2)) _ b h1 in
    let (byte_len, e3, h3) =
      bind-inv (ok_or (checked_mul usize_bits words 4) truncated_header) _ b h2 in
    let (stop, e4, h4) =
      bind-inv (ok_or (checked_add usize_bits (position + 4) byte_len) truncated_header) _ b h3 in
    let (block, e5, h5) =
      bind-inv (ok_or (get_range input (position + 4) stop) truncated_header) _ b h4 in
    let (parsed, e6, h6) = bind-inv (parse_extensions (from_profile profile) block) _ b h5 in
    let same : stop ≡ b.stop = ap (λ (c : ExtensionBlock). c.stop) (ok-injective h6) in
    let sum = checked_add-inv (position + 4) byte_len stop _ e4 in omega (arith, same, sum)

parse_header-csrcs :
    (input csrcs : List ℕ) (h : Header) → parse_header input csrcs ≡ ok h → h.csrcs ≡ csrcs
unfolding parse_header
parse_header-csrcs input csrcs h e =
    let (s, e1, h1) = bind-inv (read_u16 input 2) _ h e in
    let (t, e2, h2) = bind-inv (read_u32 input 4) _ h h1 in
    let (c, e3, h3) = bind-inv (read_u32 input 8) _ h h2 in
    sym (ap (λ (x : Header). x.csrcs) (ok-injective h3))

-- The block of an extension, by what reads its data up to an end.
abbrev block_by : List ℕ → ℕ → (ℕ → Option (List ℕ)) → Result RtpError ExtensionBlock
block_by input position get = do
  profile ← read_u16 input position
  words ← read_u16 input (position + 2)
  byte_len ← ok_or (checked_mul usize_bits words 4) truncated_header
  stop ← ok_or (checked_add usize_bits (position + 4) byte_len) truncated_header
  block ← ok_or (get stop) truncated_header
  parsed ← parse_extensions (from_profile profile) block
  ok (record {
    stop = stop;
    format = some (from_profile profile);
    bytes = some block;
    elements = parsed;
  })

module _ (out packet : List ℕ) (k : Kept out packet) where
  drop-kept : (i : ℕ) → 12 ≤ i → drop i out ≡ drop i packet
  unfolding Kept
  drop-kept i h =
      ap (λ (n : ℕ). drop n out) {y = 12 + (i - 12)} (omega arith)
      ∙ sym (drop-drop 12 (i - 12) out)
      ∙ ap (λ (xs : List ℕ). drop (i - 12) xs) k.1
      ∙ drop-drop 12 (i - 12) packet
      ∙ ap (λ (n : ℕ). drop n packet) {y = i} (omega arith)

  get_range-kept : (i j : ℕ) → 12 ≤ i → get_range out i j ≡ get_range packet i j
  unfolding Kept
  get_range-kept i j h = rw (drop-kept i h, k.0) refl

  read_u16-kept : (i : ℕ) → 12 ≤ i → read_u16 out i ≡ read_u16 packet i
  unfolding read_u16
  read_u16-kept i h = rw (get_range-kept i (saturating_add usize_bits i 2) h) refl

  read_u32-kept : (i : ℕ) → 12 ≤ i → read_u32 out i ≡ read_u32 packet i
  unfolding read_u32
  read_u32-kept i h = rw (get_range-kept i (saturating_add usize_bits i 4) h) refl

  parse_first-kept : parse_first out ≡ parse_first packet
  unfolding parse_first Kept
  parse_first-kept = rw (k.0, k.2) refl

  parse_csrcs-kept : (count i : ℕ) → 12 ≤ i → parse_csrcs count out i ≡ parse_csrcs count packet i
  unfolding parse_csrcs
  parse_csrcs-kept zero i h = refl
  parse_csrcs-kept (suc count) i h =
      rw (read_u32-kept i h, parse_csrcs-kept count (i + 4) (omega arith)) refl

  parse_extension_block-kept :
      (flag : Bool) (i : ℕ)
      → 12 ≤ i
      → parse_extension_block flag out i ≡ parse_extension_block flag packet i
  unfolding parse_extension_block
  parse_extension_block-kept false i h = refl
  parse_extension_block-kept true i h =
      rw (read_u16-kept i h, read_u16-kept (i + 2) (omega arith))
        (ap (block_by packet i) (fun_ext (λ stop. get_range-kept (i + 4) stop (omega arith))))

  get_from-kept : (i : ℕ) → 12 ≤ i → get_from out i ≡ get_from packet i
  unfolding Kept
  get_from-kept i h = get_range-kept i (length out) h ∙ ap (λ (n : ℕ). get_range packet i n) k.0

  -- The parse of the other packet, once its fixed fields are read.
  pub parse-kept :
      (p : Packet) (h : Header)
      → parse packet ≡ ok p
      → parse_header out p.header.csrcs ≡ ok h
      → parse out ≡ ok (record p { header = h })
  unfolding parse
  parse-kept p h e eh =
      let (first, e1, h1) = bind-inv (parse_first packet) _ p e in
      let count = bit_and first 0x0f in
      let (csrcs, e2, h2) = bind-inv (parse_csrcs count packet fixed_header_len) _ p h1 in
      let position = fixed_header_len + count * 4 in
      let flag = has_bits 0x10 first in
      let (block, e3, h3) = bind-inv (parse_extension_block flag packet position) _ p h2 in
      let (rest, e4, h4) = bind-inv (ok_or (get_from packet block.stop) truncated_header) _ p h3 in
      let (padding_len, e5, h5) = bind-inv (parse_padding (has_bits 0x20 first) rest) _ p h4 in
      let (payload, e6, h6) =
        bind-inv (ok_or (without_padding rest padding_len) (invalid_padding padding_len)) _ p h5 in
      let (header, e7, h7) = bind-inv (parse_header packet csrcs) _ p h6 in
      let same = ok-injective h7 in
      let csrcs_same : p.header.csrcs ≡ csrcs =
        ap (λ (q : Packet). q.header.csrcs) (sym same)
        ∙ parse_header-csrcs packet csrcs header e7 in
      let read : parse_header out csrcs ≡ ok h =
        subst (λ (c : List ℕ). parse_header out c ≡ ok h) csrcs_same eh in
      let after = parse_extension_block-after flag packet position block e3 in
      let from = get_from-kept block.stop (omega (arith, after)) in
      rw
        (
          parse_first-kept,
          e1,
          parse_csrcs-kept count fixed_header_len (omega arith),
          e2,
          parse_extension_block-kept flag position (omega arith),
          e3,
          from,
          e4,
          e5,
          e6,
          read,
        )
        (ap (λ (q : Packet). ok (record q { header = h })) same)

pub read_range :
    (xs : List ℕ) (i n : ℕ) (e : RtpError)
    → i + n ≤ 12
    → 12 ≤ length xs
    → ok_or (get_range xs i (i + n)) e ≡ ok (take n (drop i xs))
read_range xs i n e small long =
    let width : i + n - i ≡ n = omega arith in
    let test : (leb i (i + n) && leb (i + n) (length xs)) ≡ true = ground arith in
    rw (test, width) refl

-- The fixed fields of a packet of twelve bytes and more can be read.
-- The header that twelve bytes spell.
abbrev header_of : List ℕ → List ℕ → Header
header_of input csrcs = record {
  marker = has_bits 0x80 (byte_at input 1);
  payload_type = bit_and (byte_at input 1) 0x7f;
  sequence_number = of_be (take 2 (drop 2 input));
  timestamp = of_be (take 4 (drop 4 input));
  ssrc = of_be (take 4 (drop 8 input));
  csrcs = csrcs;
}

parse_header-ok :
    (input csrcs : List ℕ)
    → 12 ≤ length input
    → parse_header input csrcs ≡ ok (header_of input csrcs)
unfolding parse_header read_u16 read_u32
parse_header-ok input csrcs long =
    let two = read_range input 2 2 truncated_header (omega arith) long in
    let four = read_range input 4 4 truncated_header (omega arith) long in
    let eight = read_range input 8 4 truncated_header (omega arith) long in
    rw (two, four, eight) refl

-- A packet that parses still does after `Rewrite::apply` has replaced any of its fixed fields, and
-- parses as the same packet with another header, which has the same contributing sources: header
-- length, extensions, payload and padding are untouched.
pub parse-apply :
    (r : Rewrite) (packet out : List ℕ) (p : Packet)
    → parse packet ≡ ok p
    → apply r packet ≡ ok out
    → (h : Header) × (parse out ≡ ok (record p { header = h })) × (h.csrcs ≡ p.header.csrcs)
unfolding parse Kept
parse-apply r packet out p e a =
    let (first, e1, h1) = bind-inv (parse_first packet) _ p e in
    let long = parse_first-bound packet first e1 in
    let k : Kept out packet = apply-Kept r packet out long a in
    let h = header_of out p.header.csrcs in
    let eh = parse_header-ok out p.header.csrcs (omega (arith, k.0)) in
    (h, parse-kept out packet k p h e eh, parse_header-csrcs out p.header.csrcs h eh)
