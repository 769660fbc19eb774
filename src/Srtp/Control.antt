-- ===== src/Srtp/Control.antt =====
-- `protect_rtcp` and `unprotect_rtcp` of `SrtpContext`: crates/webrtc/srtp/src/context.rs.
use Prim.Native.Nat.{bit_and, bit_or}
use fluvora.Prelude.{nat_eq}
use fluvora.Prelude.{
  ℕ, ◌-◌, not, List, ◌++◌, length, take, drop, ltb, ◌==◌, if◌then◌else◌, Result, ok, err, ◌>>=◌,
  ◌>>◌, fail_if, ok_or,
}
use fluvora.Prelude.Bytes.{to_be}
use fluvora.Prelude.Fields.{read_field}
use fluvora.Prelude.Words.{checked_add}
use fluvora.Prelude.Maps
use fluvora.Rtcp.Parse.{parse_compound}
use fluvora.Srtp.Errors.{
  SrtpError, authentication_failed, packet_index_exhausted, srtcp_packet_too_short, rtcp,
}
use fluvora.Srtp.Keys.{Primitives, rtcp_tag_len}
use fluvora.Srtp.Replay.{check, accept}
use fluvora.Srtp.Context.{
  SrtpContext, Protected, map_err, settle, window_of, max_srtcp_index, crypt_from, authenticate,
  verify_tag,
}

module _ (p : Primitives) where
  -- The index word and the tag behind the encrypted packet.
  unfoldable pub seal_rtcp : SrtpContext → List ℕ → ℕ → Protected
  seal_rtcp ctx packet index =
      let indexed = packet ++ to_be 4 (bit_or index 0x8000_0000) in
      settle ctx indexed (authenticate p ctx.outbound_rtcp_keys indexed)
        (λ tag. (ctx, indexed ++ take (rtcp_tag_len ctx.profile) tag, ok tt))

  unfoldable pub encrypt_rtcp : SrtpContext → List ℕ → ℕ → Protected
  encrypt_rtcp ctx packet index =
      let encrypted = do
        ssrc ← read_field authentication_failed 4 packet 4
        crypt_from p 8 packet (srtcp_packet_too_short (length packet)) ctx.outbound_rtcp_keys ssrc
            index
      in settle ctx packet encrypted (λ bytes. seal_rtcp ctx bytes index)

  -- The checks before the index is taken: the next index.
  unfoldable pub next_rtcp_index : SrtpContext → List ℕ → Result SrtpError ℕ
  next_rtcp_index ctx packet = do
    packets ← map_err rtcp (parse_compound packet)
    fail_if (ltb (length packet) 8) (srtcp_packet_too_short (length packet))
    fail_if (ltb max_srtcp_index ctx.outbound_rtcp_index) packet_index_exhausted
    ok_or (checked_add 32 ctx.outbound_rtcp_index 1) packet_index_exhausted

  unfoldable pub protect_rtcp : SrtpContext → List ℕ → Protected
  protect_rtcp ctx packet = settle ctx packet (next_rtcp_index ctx packet) (λ next.
      encrypt_rtcp (record ctx { outbound_rtcp_index = next }) packet ctx.outbound_rtcp_index)

  -- All of `unprotect_rtcp` but for the change of the state: the source, the index and the
  -- plaintext.
  unfoldable pub open_rtcp : SrtpContext → List ℕ → Result SrtpError (ℕ × ℕ × List ℕ)
  open_rtcp ctx packet = do
    let tag_len = rtcp_tag_len ctx.profile
    fail_if (ltb (length packet) tag_len) (srtcp_packet_too_short (length packet))
    let authenticated_len = length packet - tag_len
    fail_if (ltb authenticated_len 12) (srtcp_packet_too_short (length packet))
    let authenticated = take authenticated_len packet
    let index_offset = authenticated_len - 4
    index_word ← read_field authentication_failed 4 authenticated index_offset
    let encrypted = not (bit_and index_word 0x8000_0000 == 0)
    let index = bit_and index_word max_srtcp_index
    ssrc ← read_field authentication_failed 4 authenticated 4
    check (window_of ctx.inbound_rtcp ssrc) index
    expected ← authenticate p ctx.inbound_rtcp_keys authenticated
    verify_tag (take tag_len expected) (drop authenticated_len packet)
    let clear = take index_offset authenticated
    plaintext ←
        if encrypted
        then crypt_from p 8 clear (srtcp_packet_too_short (length clear)) ctx.inbound_rtcp_keys ssrc
            index
        else ok clear
    packets ← map_err rtcp (parse_compound plaintext)
    ok (ssrc, index, plaintext)

  -- The change of the state after `open_rtcp`.
  abbrev pub accept_rtcp :
      SrtpContext → Result SrtpError (ℕ × ℕ × List ℕ) → SrtpContext × Result SrtpError (List ℕ)
  accept_rtcp ctx (ok (ssrc, index, plaintext)) = (
    record ctx {
      inbound_rtcp =
          Maps.insert ssrc (accept (window_of ctx.inbound_rtcp ssrc) index) ctx.inbound_rtcp;
    },
    ok plaintext,
  )
  accept_rtcp ctx (err e) = (ctx, err e)

  unfoldable pub unprotect_rtcp : SrtpContext → List ℕ → SrtpContext × Result SrtpError (List ℕ)
  unprotect_rtcp ctx packet = accept_rtcp ctx (open_rtcp ctx packet)
