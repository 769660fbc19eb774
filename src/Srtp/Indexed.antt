-- ===== src/Srtp/Indexed.antt =====
-- RTCP under SRTP: what `protect_rtcp` sends, `unprotect_rtcp` opens
-- (crates/webrtc/srtp/src/context.rs).
use Prim.Native.Nat.{bit_and, bit_or}
use fluvora.Prelude.{nat_eq}
use fluvora.Prelude.{
  ℕ, ◌+◌, ◌-◌, ◌^◌, ◌≤◌, ◌<◌, ◌≡◌, refl, sym, ◌∙◌, subst, some, true, false, not, List, [], ◌++◌,
  length, take, drop, leb, ltb, ◌==◌, ok, arith, length-append, length-take, take-append-drop,
}
use mathlib.Core.List.{append-nil, append_assoc}
use fluvora.Prelude.Fields.{read_field, read_field-at}
use fluvora.Prelude.Bytes.{to_be, of_be}
use fluvora.Prelude.Bits.{bit, bit-bit_or, bit-pow, bit_and-pow}
use fluvora.Prelude.Masks.{bit_and-mask, bit_or-high}
use fluvora.Rtcp.Model.{RtcpPacket}
use fluvora.Rtcp.Parse.{parse_compound}
use fluvora.Rtp.Prefix.{read_field-front}
use fluvora.Srtp.Errors.{authentication_failed, srtcp_packet_too_short}
use fluvora.Srtp.Keys.{
  Primitives, Lawful, rtcp_tag_len, ProtectionProfile, aes128_cm_sha1_80, aes128_cm_sha1_32,
}
use fluvora.Srtp.Replay.{check}
use fluvora.Srtp.Context.{SrtpContext, window_of, max_srtcp_index, crypt, authenticate}
use fluvora.Srtp.Control.{open_rtcp}
use fluvora.Srtp.Crypt.{
  take-split, drop-split, verify_tag-same, encrypted, front_len, length-encrypted, crypt_from-twice,
}

pub rtcp_tag_len-value : (profile : ProtectionProfile) → rtcp_tag_len profile ≡ 10
rtcp_tag_len-value aes128_cm_sha1_80 = refl
rtcp_tag_len-value aes128_cm_sha1_32 = refl

-- The index word: the index below the bit that says that the packet is encrypted.
word_value : (index : ℕ) → index ≤ max_srtcp_index → bit_or index 0x8000_0000 ≡ index + 2 ^ 31
word_value index h = bit_or-high 31 index (omega arith)

word_index :
    (index : ℕ)
    → index ≤ max_srtcp_index
    → bit_and (bit_or index 0x8000_0000) max_srtcp_index ≡ index
word_index index h = bit_and-mask 31 (bit_or index 0x8000_0000) ∙ omega (arith, word_value index h)

word_flag : (index : ℕ) → not (bit_and (bit_or index 0x8000_0000) 0x8000_0000 == 0) ≡ true
word_flag index =
    let set : bit (bit_or index (2 ^ 31)) 31 ≡ true =
      bit-bit_or 31 index (2 ^ 31) ∙ ground (arith, bit-pow 31 31) in
    ground (arith, bit_and-pow 31 (bit_or index 0x8000_0000), set)

-- The source of a packet that is long enough.
pub source_of :
    (packet : List ℕ)
    → 8 ≤ length packet
    → (v : ℕ) × (read_field authentication_failed 4 packet 4 ≡ ok v)
unfolding read_field
source_of packet h =
    let test : leb 8 (length packet) ≡ true = ground arith in
    rw test (of_be (take 4 (drop 4 packet)), refl)

module _ (p : Primitives) (l : Lawful p) (r : SrtpContext) (packet : List ℕ)
    (packets : List RtcpPacket) (ssrc index : ℕ) (long : 8 ≤ length packet)
    (short : length packet < 2 ^ 63) (fits : index ≤ max_srtcp_index)
    (parsed : parse_compound packet ≡ ok packets)
    (source : read_field authentication_failed 4 packet 4 ≡ ok ssrc) where
  abbrev pub sealed : List ℕ
  sealed = encrypted p l 8 packet r.inbound_rtcp_keys ssrc index long

  abbrev pub indexed : List ℕ
  indexed = sealed ++ to_be 4 (bit_or index 0x8000_0000)

  sealed_len : length sealed ≡ length packet
  sealed_len = length-encrypted p l 8 packet r.inbound_rtcp_keys ssrc index long

  source_kept : read_field authentication_failed 4 indexed 4 ≡ ok ssrc
  source_kept =
      let front = take 8 packet in
      let body = crypt p (drop 8 packet) r.inbound_rtcp_keys ssrc index in
      let word = to_be 4 (bit_or index 0x8000_0000) in
      let len = front_len p l 8 packet r.inbound_rtcp_keys ssrc index long in
      let before =
        subst (λ (xs : List ℕ). read_field authentication_failed 4 xs 4 ≡ ok ssrc)
          (sym (take-append-drop 8 packet)) source in
      subst (λ (xs : List ℕ). read_field authentication_failed 4 xs 4 ≡ ok ssrc)
        (sym (append_assoc front body word))
        (read_field-front front (body ++ word) (drop 8 packet) authentication_failed 4 4
            (omega (arith, len)) (omega arith)
          ∙ before)

  word_kept :
      read_field authentication_failed 4 indexed (length sealed) ≡ ok (bit_or index 0x8000_0000)
  word_kept =
      let word = bit_or index 0x8000_0000 in
      subst
        (λ (xs : List ℕ).
          read_field authentication_failed 4 (sealed ++ xs) (length sealed) ≡ ok word)
        (append-nil (to_be 4 word))
        (read_field-at authentication_failed 4 word sealed [] (length sealed) refl
          (omega (arith, word_value index fits)) (omega (arith, sealed_len)))

  pub open_rtcp-sealed :
      (tag : List ℕ)
      → check (window_of r.inbound_rtcp ssrc) index ≡ ok tt
      → p.hmac_sha1 r.inbound_rtcp_keys.authentication indexed ≡ some tag
      → length tag ≡ 20
      → open_rtcp p r (indexed ++ take (rtcp_tag_len r.profile) tag) ≡ ok (ssrc, index, packet)
  unfolding open_rtcp authenticate
  open_rtcp-sealed tag passes mac len =
      let n = rtcp_tag_len r.profile in
      let out = indexed ++ take n tag in
      let ten = rtcp_tag_len-value r.profile in
      let size = length-append indexed (take n tag) in
      let tag_size = length-take n tag in
      let word_size = length-append sealed (to_be 4 (bit_or index 0x8000_0000)) in
      let at : length out - n ≡ length indexed = omega (arith, size, tag_size, ten, len) in
      let offset : length out - n - 4 ≡ length sealed = omega (arith, at, word_size) in
      let enough : ltb (length out) n ≡ false = ground (arith, size, tag_size, ten, len) in
      let twelve : ltb (length out - n) 12 ≡ false = ground (arith, at, word_size, sealed_len) in
      let clear =
        take-split (length out - n - 4) sealed (to_be 4 (bit_or index 0x8000_0000)) offset in
      rw
        (
          enough,
          twelve,
          take-split (length out - n) indexed (take n tag) at,
          clear,
          offset,
          word_kept,
          word_flag index,
          word_index index fits,
          source_kept,
          passes,
          mac,
          drop-split (length out - n) indexed (take n tag) at,
          verify_tag-same (take n tag),
          crypt_from-twice p l 8 packet r.inbound_rtcp_keys ssrc index long
              (srtcp_packet_too_short (length sealed)),
          parsed,
        )
        refl
