-- ===== src/Rtp/HeaderLength.antt =====
-- The two parsers of crates/webrtc/rtp/src/packet.rs agree on where the header ends.
use Prim.Native.Nat.{bit_and}
use fluvora.Prelude.{
  ℕ, zero, suc, ◌+◌, ◌*◌, ◌<◌, ◌^◌, ◌≤◌, ◌≡◌, ap, subst, Bool, true, false, List, length, Result,
  ok, arith, bind-inv, ok-injective, get_range, if◌then◌else◌, ok_or,
}
use fluvora.Prelude.Bits.{bit_and_le}
use fluvora.Prelude.Words.{usize_bits, checked_add, checked_mul, checked_add-some}
use fluvora.Rtp.Extension.{from_profile, parse_extensions}
use fluvora.Rtp.Errors.{RtpError, invalid_padding, truncated_header}
use fluvora.Rtp.Packet.{
  Packet, ExtensionBlock, read_u16, read_u32, check_end, parse_first, extension_end,
  parse_header_length, parse_csrcs, parse_extension_block, parse_padding, parse_header, parse,
  get_from, without_padding, has_bits, fixed_header_len,
}

read_u32-bound :
    (input : List ℕ) (position v : ℕ)
    → position ≤ 1000
    → read_u32 input position ≡ ok v
    → position + 4 ≤ length input
unfolding read_u32
read_u32-bound input position v small h = ground arith

pub parse_first-bound :
    (input : List ℕ) (first : ℕ) → parse_first input ≡ ok first → 12 ≤ length input
unfolding parse_first
parse_first-bound input first h = ground arith

parse_csrcs-bound :
    (count : ℕ) (input : List ℕ) (position : ℕ) (csrcs : List ℕ)
    → position + count * 4 ≤ 1000
    → position ≤ length input
    → parse_csrcs count input position ≡ ok csrcs
    → position + count * 4 ≤ length input
unfolding parse_csrcs
parse_csrcs-bound zero input position csrcs small h0 h = omega arith
parse_csrcs-bound (suc count) input position csrcs small h0 h =
    let (csrc, e, h') = bind-inv (read_u32 input position) _ csrcs h in
    let (rest, e', h'') = bind-inv (parse_csrcs count input (position + 4)) _ csrcs h' in
    let here = read_u32-bound input position csrc (omega arith) e in
    let there = parse_csrcs-bound count input (position + 4) rest (omega arith) here e' in
    omega (arith, there)

pub checked_add-inv :
    (a b v : ℕ) (e : RtpError)
    → ok_or (checked_add usize_bits a b) e ≡ ok v
    → (v ≡ a + b) × (a + b < 2 ^ 64)
checked_add-inv a b v e h = ground arith

pub checked_mul-inv :
    (a b v : ℕ) (e : RtpError) → ok_or (checked_mul usize_bits a b) e ≡ ok v → v ≡ a * b
checked_mul-inv a b v e h = ground arith

pub get_range-bound :
    (xs : List ℕ) (i j : ℕ) (ys : List ℕ) (e : RtpError)
    → ok_or (get_range xs i j) e ≡ ok ys
    → (i ≤ j) × (j ≤ length xs)
get_range-bound xs i j ys e h = ground arith

check_end-ok : (input : List ℕ) (stop : ℕ) → stop ≤ length input → check_end input stop ≡ ok stop
unfolding check_end
check_end-ok input stop h = ground arith

extension_end-value :
    (input : List ℕ) (position words : ℕ)
    → read_u16 input (position + 2) ≡ ok words
    → position + 4 + words * 4 < 2 ^ 64
    → position + 4 + words * 4 ≤ length input
    → extension_end input position ≡ ok (position + 4 + words * 4)
unfolding extension_end
extension_end-value input position words e small fits =
    rw
      (
        e,
        checked_add-some position 4 (omega arith),
        checked_add-some (position + 4) (words * 4) small,
      )
      (check_end-ok input (position + 4 + words * 4) fits)

parse_extension_block-end :
    (input : List ℕ) (position : ℕ) (b : ExtensionBlock)
    → parse_extension_block true input position ≡ ok b
    → extension_end input position ≡ ok b.stop
unfolding parse_extension_block
parse_extension_block-end input position b h =
    let (profile, e1, h1) = bind-inv (read_u16 input position) _ b h in
    let (words, e2, h2) = bind-inv (read_u16 input (position + 2)) _ b h1 in
    let (byte_len, e3, h3) =
      bind-inv (ok_or (checked_mul usize_bits words 4) truncated_header) _ b h2 in
    let (stop, e4, h4) =
      bind-inv (ok_or (checked_add usize_bits (position + 4) byte_len) truncated_header) _ b h3 in
    let (block, e5, h5) =
      bind-inv (ok_or (get_range input (position + 4) stop) truncated_header) _ b h4 in
    let (parsed, e6, h6) = bind-inv (parse_extensions (from_profile profile) block) _ b h5 in
    let len = checked_mul-inv words 4 byte_len _ e3 in
    let sum = checked_add-inv (position + 4) byte_len stop _ e4 in
    let fits = get_range-bound input (position + 4) stop block _ e5 in
    let same : stop ≡ b.stop = ap (λ (c : ExtensionBlock). c.stop) (ok-injective h6) in
    let value : position + 4 + words * 4 ≡ b.stop = omega (arith, len, sum, same) in
    subst (λ (v : ℕ). extension_end input position ≡ ok v) value
      (extension_end-value input position words e2 (omega (arith, len, sum))
        (omega (arith, len, sum, fits)))

abbrev pub measured : Bool → List ℕ → ℕ → Result RtpError ℕ
measured flag input position = if flag then extension_end input position else ok position

measured-stop :
    (flag : Bool) (input : List ℕ) (position : ℕ) (b : ExtensionBlock)
    → parse_extension_block flag input position ≡ ok b
    → measured flag input position ≡ ok b.stop
unfolding parse_extension_block
measured-stop true input position b h = parse_extension_block-end input position b h
measured-stop false input position b h = ap (λ (c : ExtensionBlock). ok c.stop) (ok-injective h)

-- A packet that `parse` accepts is one whose header `parse_header_length` measures to the same length.
pub parse_header_length-parse :
    (input : List ℕ) (p : Packet) → parse input ≡ ok p → parse_header_length input ≡ ok p.header_len
unfolding parse parse_header_length
parse_header_length-parse input p h =
    let (first, e1, h1) = bind-inv (parse_first input) _ p h in
    let position = fixed_header_len + bit_and first 0x0f * 4 in
    let (csrcs, e2, h2) =
      bind-inv (parse_csrcs (bit_and first 0x0f) input fixed_header_len) _ p h1 in
    let (block, e3, h3) =
      bind-inv (parse_extension_block (has_bits 0x10 first) input position) _ p h2 in
    let (payload', e4, h4) = bind-inv (ok_or (get_from input block.stop) truncated_header) _ p h3 in
    let (padding_len, e5, h5) = bind-inv (parse_padding (has_bits 0x20 first) payload') _ p h4 in
    let (payload, e6, h6) =
      bind-inv (ok_or (without_padding payload' padding_len) (invalid_padding padding_len)) _ p
        h5 in
    let (header, e7, h7) = bind-inv (parse_header input csrcs) _ p h6 in
    let same : block.stop ≡ p.header_len = ap (λ (q : Packet). q.header_len) (ok-injective h7) in
    let few = bit_and_le first 0x0f in
    let bound =
      parse_csrcs-bound (bit_and first 0x0f) input fixed_header_len csrcs (omega (arith, few))
        (parse_first-bound input first e1) e2 in
    rw
      (
        e1,
        checked_add-some fixed_header_len (bit_and first 0x0f * 4) (omega (arith, few)),
        check_end-ok input position bound,
      )
      (subst (λ (stop : ℕ). measured (has_bits 0x10 first) input position ≡ ok stop) same
        (measured-stop (has_bits 0x10 first) input position block e3))
