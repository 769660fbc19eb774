-- ===== src/Srtp/ControlExchange.antt =====
-- A sender and a receiver of RTCP in step: crates/webrtc/srtp/src/context.rs.
use fluvora.Prelude.{nat_eq}
use fluvora.Prelude.{
  ℕ, ◌+◌, ◌^◌, ◌≤◌, ◌<◌, ◌≡◌, refl, sym, ap, subst, Option, none, some, Bool, true, false, List,
  ◌++◌, take, length, ltb, Result, ok, err, arith, if◌then◌else◌, ◌==◌, inl, inr, Result-cases,
  bind-inv, fail_if-inv,
}
use fluvora.Prelude.Maps
use fluvora.Rtcp.Model.{RtcpPacket}
use fluvora.Rtcp.Parse.{parse_compound}
use fluvora.Srtp.Errors.{SrtpError, packet_index_exhausted, srtcp_packet_too_short, rtcp}
use fluvora.Srtp.Keys.{Primitives, Lawful, rtcp_tag_len}
use fluvora.Srtp.Replay.{ReplayWindow, accept}
use fluvora.Srtp.Index.{Above}
use fluvora.Srtp.Context.{SrtpContext, map_err, window_of, max_srtcp_index, authenticate}
use fluvora.Srtp.Control.{seal_rtcp, encrypt_rtcp, next_rtcp_index, protect_rtcp, unprotect_rtcp}
use fluvora.Srtp.Crypt.{crypt_from-encrypted}
use fluvora.Srtp.Indexed.{source_of, indexed, open_rtcp-sealed}
use fluvora.Srtp.Paired.{Paired, Exchanged, check-Above, accept-maximum, window_of-insert}

Above-next : (o : Option ℕ) (i : ℕ) → Above o i → Above o (i + 1)
Above-next none i h = tt
Above-next (some m) i h = omega arith

map_err-inv {ℓ} :
    {E A : Type ℓ} (f : E → SrtpError) (m : Result E A) (a : A) → map_err f m ≡ ok a → m ≡ ok a
map_err-inv f (ok b) a h = ground arith
map_err-inv f (err e) a h = absurd (ground arith)

-- The index is taken, where the packet parses, has its header, and an index is left.
record Taken (p : Primitives) (s : SrtpContext) (packet : List ℕ) (next : ℕ) : Type 0 where
  packets : List RtcpPacket
  parsed : parse_compound packet ≡ ok packets
  long : 8 ≤ length packet
  left : s.outbound_rtcp_index ≤ max_srtcp_index
  succeeds : next ≡ s.outbound_rtcp_index + 1

next_rtcp_index-Taken :
    (p : Primitives) (s : SrtpContext) (packet : List ℕ) (next : ℕ)
    → next_rtcp_index p s packet ≡ ok next
    → Taken p s packet next
unfolding next_rtcp_index
next_rtcp_index-Taken p s packet next h =
    let (packets, e, h1) = bind-inv (map_err rtcp (parse_compound packet)) _ next h in
    let (long, h2) =
      fail_if-inv (ltb (length packet) 8) (srtcp_packet_too_short (length packet)) _ next h1 in
    let (left, h3) =
      fail_if-inv (ltb max_srtcp_index s.outbound_rtcp_index) packet_index_exhausted _ next h2 in
    record {
      packets = packets;
      parsed = map_err-inv rtcp (parse_compound packet) packets e;
      long = ground arith;
      left = ground arith;
      succeeds = ground arith;
    }

module _ (p : Primitives) (l : Lawful p) (s r : SrtpContext) (paired : Paired s r) where
  next-Paired :
      (ssrc : ℕ)
      → Paired
          (record s { outbound_rtcp_index = s.outbound_rtcp_index + 1 })
          (record r {
            inbound_rtcp =
                Maps.insert ssrc
                  (accept (window_of r.inbound_rtcp ssrc) s.outbound_rtcp_index)
                  r.inbound_rtcp;
          })
  next-Paired ssrc = record {
    profile = paired.profile;
    rtp_keys = paired.rtp_keys;
    rtcp_keys = paired.rtcp_keys;
    streams = paired.streams;
    control = λ j.
        subst (λ (w : ReplayWindow). Above w.maximum (i + 1))
          (sym (window_of-insert r.inbound_rtcp ssrc j (accept (window_of r.inbound_rtcp ssrc) i)))
          (either j (ssrc == j));
  }
    where
      i : ℕ
      i = s.outbound_rtcp_index

      either :
          (j : ℕ) (b : Bool)
          → Above
              (if b
                then accept (window_of r.inbound_rtcp ssrc) i
                else window_of r.inbound_rtcp j).maximum
              (i + 1)
      either j true =
          subst (λ (o : Option ℕ). Above o (i + 1))
            (sym (accept-maximum (window_of r.inbound_rtcp ssrc) i (paired.control ssrc)))
            (omega arith)
      either j false = Above-next (window_of r.inbound_rtcp j).maximum i (paired.control j)

  Taken-Exchanged :
      (packet : List ℕ) (next : ℕ)
      → length packet < 2 ^ 63
      → Taken p s packet next
      → Exchanged r
          (unprotect_rtcp p r)
          packet
          (encrypt_rtcp p (record s { outbound_rtcp_index = next }) packet s.outbound_rtcp_index)
  unfolding encrypt_rtcp seal_rtcp authenticate unprotect_rtcp
  Taken-Exchanged packet next short t =
      let i = s.outbound_rtcp_index in
      let (ssrc, source) = source_of packet t.long in
      let word = indexed p l r packet t.packets ssrc i t.long short t.left t.parsed source in
      let (tag, mac, len) = l.tagged r.inbound_rtcp_keys.authentication word in
      let w = window_of r.inbound_rtcp ssrc in
      let passes = check-Above w i (paired.control ssrc) in
      let opened =
        open_rtcp-sealed p l r packet t.packets ssrc i t.long short t.left t.parsed source tag
          passes mac len in
      let out = word ++ take (rtcp_tag_len r.profile) tag in
      let s' = record s { outbound_rtcp_index = i + 1 } in
      let sent_as : encrypt_rtcp p (record s { outbound_rtcp_index = next }) packet i
          ≡ (s', out, ok tt) =
        rw
          (
            t.succeeds,
            source,
            paired.rtcp_keys,
            crypt_from-encrypted p l 8 packet r.inbound_rtcp_keys ssrc i t.long
                (srtcp_packet_too_short (length packet)),
            mac,
            paired.profile,
          )
          refl in
      let opened_as : unprotect_rtcp p r out
          ≡ (record r { inbound_rtcp = Maps.insert ssrc (accept w i) r.inbound_rtcp }, ok packet) =
        rw opened refl in
      subst (Exchanged r (unprotect_rtcp p r) packet) (sym sent_as) (
        ap (λ (t : SrtpContext × Result SrtpError (List ℕ)). t.1) opened_as,
        subst (λ (t : SrtpContext × Result SrtpError (List ℕ)). Paired s' t.0) (sym opened_as)
            (next-Paired ssrc),
      )

  -- The same of RTCP: what a sender protects, a receiver that is in step opens as the packet, and
  -- they stay in step. The packet is shorter than half the address space, as a slice is.
  pub protect_rtcp-Exchanged :
      (packet : List ℕ)
      → length packet < 2 ^ 63
      → Exchanged r (unprotect_rtcp p r) packet (protect_rtcp p s packet)
  unfolding protect_rtcp
  protect_rtcp-Exchanged packet short = elim (Result-cases (next_rtcp_index p s packet)) [
    | inl (next, e) ↦
        rw e (Taken-Exchanged packet next short (next_rtcp_index-Taken p s packet next e))
    | inr (x, e) ↦ rw e paired
  ]
