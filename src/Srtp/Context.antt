-- ===== src/Srtp/Context.antt =====
-- `SrtpContext`: crates/webrtc/srtp/src/context.rs, over the cipher and the MAC of Srtp.Keys. The
-- packet that `protect_rtp` and `protect_rtcp` change in place is an argument and a part of the
-- answer.
use fluvora.Prelude.{nat_eq}
use fluvora.Prelude.{
  ℕ, ◌-◌, ◌/◌, ◌^◌, Option, none, some, ◌&&◌, List, [], ◌++◌, length, take, drop, ltb, ◌==◌,
  if◌then◌else◌, Result, ok, err, ◌>>=◌, ◌>>◌, fail_if, ok_or, list_beq,
}
use fluvora.Prelude.Bytes.{to_be, zeros}
use fluvora.Prelude.Fields.{read_field}
use fluvora.Prelude.Maps
use fluvora.Rtp.Packet.{Packet, get_from, parse, parse_header_length}
use fluvora.Srtp.Errors.{SrtpError, authentication_failed, packet_index_exhausted, rtp}
use fluvora.Srtp.Keys.{
  Primitives, ProtectionProfile, rtp_tag_len, KeyingMaterial, SessionKeys, xor_bytes, derive_srtp,
  derive_srtcp,
}
use fluvora.Srtp.Replay.{ReplayWindow, empty_window, check, accept, estimate_index, advance}

abbrev pub max_srtcp_index : ℕ
max_srtcp_index = 0x7fff_ffff

-- The state of an outbound RTP stream is its highest index.
pub record SrtpContext : Type 0 where
  pub profile : ProtectionProfile
  pub outbound_rtp_keys : SessionKeys
  pub inbound_rtp_keys : SessionKeys
  pub outbound_rtcp_keys : SessionKeys
  pub inbound_rtcp_keys : SessionKeys
  pub outbound_rtp : List (ℕ × Option ℕ)
  pub inbound_rtp : List (ℕ × ReplayWindow)
  pub outbound_rtcp_index : ℕ
  pub inbound_rtcp : List (ℕ × ReplayWindow)

-- `?` on the error of another crate.
abbrev pub map_err {ℓ} : {E A : Type ℓ} → (E → SrtpError) → Result E A → Result SrtpError A
map_err f (ok a) = ok a
map_err f (err e) = err (f e)

abbrev pub or_default {ℓ} : {A : Type ℓ} → A → Option A → A
or_default a none = a
or_default a (some b) = b

-- The window or the highest index of a source, which a new source starts with.
abbrev pub window_of : List (ℕ × ReplayWindow) → ℕ → ReplayWindow
window_of windows ssrc = or_default empty_window (Maps.lookup ssrc windows)

abbrev pub highest_of : List (ℕ × Option ℕ) → ℕ → Option ℕ
highest_of streams ssrc = or_default none (Maps.lookup ssrc streams)

unfoldable pub make_iv : List ℕ → ℕ → ℕ → List ℕ
make_iv salt ssrc index =
    take 4 salt
    ++ (xor_bytes (take 4 (drop 4 salt)) (to_be 4 ssrc)
        ++ (xor_bytes (take 6 (drop 8 salt)) (to_be 6 index) ++ zeros 2))

unfoldable pub verify_tag : List ℕ → List ℕ → Result SrtpError (Unit {0})
verify_tag expected received =
    if length expected == length received && list_beq expected received
    then ok tt
    else err authentication_failed

-- `u32::try_from(index >> 16)`
abbrev pub rollover_counter : ℕ → Result SrtpError ℕ
rollover_counter index =
    if ltb (index / 2 ^ 16) (2 ^ 32) then ok (index / 2 ^ 16) else err packet_index_exhausted

-- The context, the packet and the answer of a call that changes the packet in place.
abbrev pub Protected : Type 0
Protected = SrtpContext × List ℕ × Result SrtpError (Unit {0})

-- `?` in such a call: an error leaves the context and the packet as they are by then.
abbrev pub settle {ℓ} :
    {A : Type ℓ} → SrtpContext → List ℕ → Result SrtpError A → (A → Protected) → Protected
settle ctx packet (ok a) next = next a
settle ctx packet (err e) next = (ctx, packet, err e)

module _ (p : Primitives) where
  unfoldable pub new : ProtectionProfile → KeyingMaterial → KeyingMaterial → SrtpContext
  unfolding derive_srtp derive_srtcp
  new profile outbound inbound = record {
    profile = profile;
    outbound_rtp_keys = derive_srtp p outbound;
    inbound_rtp_keys = derive_srtp p inbound;
    outbound_rtcp_keys = derive_srtcp p outbound;
    inbound_rtcp_keys = derive_srtcp p inbound;
    outbound_rtp = [];
    inbound_rtp = [];
    outbound_rtcp_index = 0;
    inbound_rtcp = [];
  }

  unfoldable pub crypt : List ℕ → SessionKeys → ℕ → ℕ → List ℕ
  unfolding make_iv
  crypt payload keys ssrc index =
      p.apply_keystream keys.encryption (make_iv keys.salt ssrc index) payload

  -- `crypt` on the bytes from `start`, where there are that many.
  unfoldable pub crypt_from :
      ℕ → List ℕ → SrtpError → SessionKeys → ℕ → ℕ → Result SrtpError (List ℕ)
  crypt_from start packet e keys ssrc index = do
    payload ← ok_or (get_from packet start) e
    ok (take start packet ++ crypt payload keys ssrc index)

  unfoldable pub authenticate : SessionKeys → List ℕ → Result SrtpError (List ℕ)
  authenticate keys packet = ok_or (p.hmac_sha1 keys.authentication packet) authentication_failed

  -- The MAC is updated with the packet and then with the counter.
  unfoldable pub authenticate_rtp : SessionKeys → List ℕ → ℕ → Result SrtpError (List ℕ)
  authenticate_rtp keys packet counter =
      ok_or (p.hmac_sha1 keys.authentication (packet ++ to_be 4 counter)) authentication_failed

  -- The tag behind the encrypted packet.
  unfoldable pub seal_rtp : SrtpContext → List ℕ → ℕ → Protected
  seal_rtp ctx packet index =
      let tagged = do
        roc ← rollover_counter index
        authenticate_rtp ctx.outbound_rtp_keys packet roc
      in settle ctx packet tagged
        (λ tag. (ctx, packet ++ take (rtp_tag_len ctx.profile) tag, ok tt))

  unfoldable pub encrypt_rtp : SrtpContext → List ℕ → ℕ → ℕ → ℕ → Protected
  encrypt_rtp ctx packet header_len ssrc index =
      settle ctx packet
        (crypt_from header_len packet authentication_failed ctx.outbound_rtp_keys ssrc index)
        (λ encrypted. seal_rtp ctx encrypted index)

  -- After `advance`: its state is stored for the source, also where the index does not advance.
  unfoldable pub protect_at :
      SrtpContext → List ℕ → Packet → Option ℕ × Result SrtpError ℕ → Protected
  protect_at ctx packet parsed (highest, answer) =
      let ssrc = parsed.header.ssrc in
      let ctx' = record ctx { outbound_rtp = Maps.insert ssrc highest ctx.outbound_rtp } in
      settle ctx' packet answer (λ index. encrypt_rtp ctx' packet parsed.header_len ssrc index)

  unfoldable pub protect_parsed : SrtpContext → List ℕ → Packet → Protected
  unfolding protect_at
  protect_parsed ctx packet parsed =
      let highest = highest_of ctx.outbound_rtp parsed.header.ssrc in
      protect_at ctx packet parsed (advance highest parsed.header.sequence_number)

  unfoldable pub protect_rtp : SrtpContext → List ℕ → Protected
  protect_rtp ctx packet =
      settle ctx packet (map_err rtp (parse packet)) (λ parsed. protect_parsed ctx packet parsed)

  -- All of `unprotect_rtp` but for the change of the state: the source, the index and the plaintext.
  unfoldable pub open_rtp : SrtpContext → List ℕ → Result SrtpError (ℕ × ℕ × List ℕ)
  open_rtp ctx packet = do
    let tag_len = rtp_tag_len ctx.profile
    fail_if (ltb (length packet) tag_len) authentication_failed
    let encrypted_len = length packet - tag_len
    let encrypted = take encrypted_len packet
    header_len ← map_err rtp (parse_header_length encrypted)
    sequence_number ← read_field authentication_failed 2 encrypted 2
    ssrc ← read_field authentication_failed 4 encrypted 8
    let replay = window_of ctx.inbound_rtp ssrc
    let index = estimate_index replay.maximum sequence_number
    check replay index
    roc ← rollover_counter index
    expected ← authenticate_rtp ctx.inbound_rtp_keys encrypted roc
    verify_tag (take tag_len expected) (drop encrypted_len packet)
    plaintext ←
        crypt_from header_len encrypted authentication_failed ctx.inbound_rtp_keys ssrc index
    parsed ← map_err rtp (parse plaintext)
    ok (ssrc, index, plaintext)

  -- The change of the state after `open_rtp`.
  abbrev pub accept_rtp :
      SrtpContext → Result SrtpError (ℕ × ℕ × List ℕ) → SrtpContext × Result SrtpError (List ℕ)
  accept_rtp ctx (ok (ssrc, index, plaintext)) = (
    record ctx {
      inbound_rtp =
          Maps.insert ssrc (accept (window_of ctx.inbound_rtp ssrc) index) ctx.inbound_rtp;
    },
    ok plaintext,
  )
  accept_rtp ctx (err e) = (ctx, err e)

  unfoldable pub unprotect_rtp : SrtpContext → List ℕ → SrtpContext × Result SrtpError (List ℕ)
  unprotect_rtp ctx packet = accept_rtp ctx (open_rtp ctx packet)
