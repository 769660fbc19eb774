-- ===== src/Srtp/Media.antt =====
-- RTP under SRTP: what `protect_rtp` sends, `unprotect_rtp` opens (crates/webrtc/srtp/src/context.rs).
use fluvora.Prelude.{nat_eq}
use fluvora.Prelude.{
  ℕ, ◌-◌, ◌/◌, ◌^◌, ◌≤◌, ◌≡◌, refl, sym, ap, ◌∙◌, subst, Option, none, some, false, List, ◌++◌,
  length, take, drop, get_range, ltb, ok, ok_or, map_ok, arith, length-append, length-take,
  take-append-drop,
}
use fluvora.Prelude.Fields.{read_field}
use fluvora.Prelude.Words.{usize_bits, saturating_add}
use fluvora.Prelude.Bytes.{to_be, of_be}
use fluvora.Rtp.Errors.{truncated_header}
use fluvora.Rtp.Packet.{Packet, parse, parse_header_length, read_u16, read_u32}
use fluvora.Rtp.HeaderLength.{parse_header_length-parse}
use fluvora.Rtp.Prefix.{parse_header_length-front, read_field-front, parse-Header12}
use fluvora.Srtp.Errors.{authentication_failed}
use fluvora.Srtp.Keys.{
  Primitives, Lawful, rtp_tag_len, ProtectionProfile, aes128_cm_sha1_80, aes128_cm_sha1_32,
}
use fluvora.Srtp.Replay.{estimate_index, check, max_srtp_index}
use fluvora.Srtp.Context.{
  SrtpContext, window_of, rollover_counter, crypt, authenticate_rtp, open_rtp,
}
use fluvora.Srtp.Crypt.{
  take-split, drop-split, verify_tag-same, encrypted, front_len, length-crypt, crypt_from-twice,
}

-- A field that one parser reads, the other reads with its own error.
reads_alike {ℓ κ} :
    {E : Type ℓ} {F : Type κ} (e : E) (f : F) (o : Option (List ℕ)) (v : ℕ)
    → map_ok of_be (ok_or o e) ≡ ok v
    → map_ok of_be (ok_or o f) ≡ ok v
reads_alike e f none v h = absurd (ground arith)
reads_alike e f (some b) v h = ground arith

read_field-u16 :
    (input : List ℕ) (v : ℕ)
    → read_u16 input 2 ≡ ok v
    → read_field authentication_failed 2 input 2 ≡ ok v
unfolding read_field read_u16
read_field-u16 input v h =
    reads_alike truncated_header authentication_failed
      (get_range input 2 (saturating_add usize_bits 2 2)) v h

read_field-u32 :
    (input : List ℕ) (v : ℕ)
    → read_u32 input 8 ≡ ok v
    → read_field authentication_failed 4 input 8 ≡ ok v
unfolding read_field read_u32
read_field-u32 input v h =
    reads_alike truncated_header authentication_failed
      (get_range input 8 (saturating_add usize_bits 8 4)) v h

pub rollover_counter-fits :
    (index : ℕ) → index ≤ max_srtp_index → rollover_counter index ≡ ok (index / 2 ^ 16)
rollover_counter-fits index h = ground arith

pub rtp_tag_len-le : (profile : ProtectionProfile) → rtp_tag_len profile ≤ 20
rtp_tag_len-le aes128_cm_sha1_80 = omega arith
rtp_tag_len-le aes128_cm_sha1_32 = omega arith

module _ (p : Primitives) (l : Lawful p) (r : SrtpContext) (packet : List ℕ) (q : Packet)
    (parsed : parse packet ≡ ok q) where
  abbrev pub sent : ℕ → List ℕ
  sent index =
      encrypted p l q.header_len packet r.inbound_rtp_keys q.header.ssrc index
        (parse-Header12 packet q parsed).within

  abbrev pub message : ℕ → List ℕ
  message index = sent index ++ to_be 4 (index / 2 ^ 16)

  -- The encrypted packet is read like the packet, as far as its header goes.
  record Alike (index : ℕ) : Type 0 where
    measured : parse_header_length (sent index) ≡ ok q.header_len
    sequence : read_field authentication_failed 2 (sent index) 2 ≡ ok q.header.sequence_number
    source : read_field authentication_failed 4 (sent index) 8 ≡ ok q.header.ssrc

  sent-Alike : (index : ℕ) → Alike index
  sent-Alike index =
      let k = parse-Header12 packet q parsed in
      let hl = q.header_len in
      let ssrc = q.header.ssrc in
      let keys = r.inbound_rtp_keys in
      let front = take hl packet in
      let body = crypt p (drop hl packet) keys ssrc index in
      let len = front_len p l hl packet keys ssrc index k.within in
      let size = sym (length-crypt p l hl packet keys ssrc index k.within) in
      let split = sym (take-append-drop hl packet) in
      let measured =
        subst (λ (xs : List ℕ). parse_header_length xs ≡ ok hl) split
          (parse_header_length-parse packet q parsed) in
      let sequence =
        subst
          (λ (xs : List ℕ). read_field authentication_failed 2 xs 2 ≡ ok q.header.sequence_number)
          split (read_field-u16 packet q.header.sequence_number k.sequence) in
      let source =
        subst (λ (xs : List ℕ). read_field authentication_failed 4 xs 8 ≡ ok ssrc) split
          (read_field-u32 packet ssrc k.source) in
      record {
        measured =
            parse_header_length-front front (drop hl packet) body size (measured ∙ ap ok (sym len))
            ∙ ap ok len;
        sequence =
            sym (
              read_field-front front (drop hl packet) body authentication_failed 2 2
                (omega (arith, len, k.above)) (omega arith))
            ∙ sequence;
        source =
            sym (
              read_field-front front (drop hl packet) body authentication_failed 4 8
                (omega (arith, len, k.above)) (omega arith))
            ∙ source;
      }

  -- With its tag behind it the packet is opened, where the receiver estimates the index that the
  -- sender used and has not accepted it.
  pub open_rtp-sent :
      (index : ℕ) (tag : List ℕ)
      → let w = window_of r.inbound_rtp q.header.ssrc in
        estimate_index w.maximum q.header.sequence_number ≡ index
        → check w index ≡ ok tt
        → index ≤ max_srtp_index
        → p.hmac_sha1 r.inbound_rtp_keys.authentication (message index) ≡ some tag
        → length tag ≡ 20
        → open_rtp p r (sent index ++ take (rtp_tag_len r.profile) tag)
          ≡ ok (q.header.ssrc, index, packet)
  unfolding open_rtp authenticate_rtp
  open_rtp-sent index tag estimate passes fits mac len =
      let k = parse-Header12 packet q parsed in
      let a = sent-Alike index in
      let n = rtp_tag_len r.profile in
      let enc = sent index in
      let out = enc ++ take n tag in
      let few = rtp_tag_len-le r.profile in
      let size = length-append enc (take n tag) in
      let tag_size = length-take n tag in
      let at : length out - n ≡ length enc = omega (arith, size, tag_size, few, len) in
      let enough : ltb (length out) n ≡ false = ground (arith, size, tag_size, few, len) in
      rw
        (
          enough,
          take-split (length out - n) enc (take n tag) at,
          a.measured,
          a.sequence,
          a.source,
          estimate,
          passes,
          rollover_counter-fits index fits,
          mac,
          drop-split (length out - n) enc (take n tag) at,
          verify_tag-same (take n tag),
          crypt_from-twice p l q.header_len packet r.inbound_rtp_keys q.header.ssrc index k.within
              authentication_failed,
          parsed,
        )
        refl
