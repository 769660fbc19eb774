-- ===== src/Srtp/Exchange.antt =====
-- A sender and a receiver of RTP in step: crates/webrtc/srtp/src/context.rs.
use fluvora.Prelude.{nat_eq}
use fluvora.Prelude.{
  ℕ, ◌≤◌, ◌≡◌, refl, sym, ap, ◌∙◌, subst, Option, some, Bool, true, false, List, ◌++◌, take, Result,
  ok, err, if◌then◌else◌, ◌==◌, ==_iff, ◌⊎◌, inl, inr, Bool-cases, Result-cases,
}
use fluvora.Prelude.Maps
use fluvora.Rtp.Packet.{Packet, parse}
use fluvora.Rtp.Prefix.{parse-Header12}
use fluvora.Srtp.Errors.{SrtpError, authentication_failed}
use fluvora.Srtp.Keys.{Primitives, Lawful, rtp_tag_len}
use fluvora.Srtp.Replay.{max_srtp_index, estimate_index, advance, accept}
use fluvora.Srtp.Index.{Above, advance_cases}
use fluvora.Srtp.Context.{
  SrtpContext, window_of, highest_of, authenticate_rtp, seal_rtp, encrypt_rtp, protect_parsed,
  protect_rtp, unprotect_rtp,
}
use fluvora.Srtp.Crypt.{crypt_from-encrypted}
use fluvora.Srtp.Media.{sent, message, open_rtp-sent, rollover_counter-fits}
use fluvora.Srtp.Paired.{
  Paired, Exchanged, check-Above, accept-maximum, window_of-insert, highest_of-insert,
}

module _ (p : Primitives) (l : Lawful p) (s r : SrtpContext) (paired : Paired s r) where
  -- Other changes of the sender's stream leave the pair in step, if its highest index is the same.
  refused-Paired :
      (ssrc : ℕ)
      → Paired
          (record s {
            outbound_rtp = Maps.insert ssrc (highest_of s.outbound_rtp ssrc) s.outbound_rtp;
          })
          r
  refused-Paired ssrc = record {
    profile = paired.profile;
    rtp_keys = paired.rtp_keys;
    rtcp_keys = paired.rtcp_keys;
    streams = λ j.
        paired.streams j
        ∙ sym (
            highest_of-insert s.outbound_rtp ssrc j (highest_of s.outbound_rtp ssrc)
            ∙ same j (Bool-cases (ssrc == j)));
    control = paired.control;
  }
    where
      same :
          (j : ℕ)
          → ((ssrc == j) ≡ true) ⊎ ((ssrc == j) ≡ false)
          → (if ssrc == j then highest_of s.outbound_rtp ssrc else highest_of s.outbound_rtp j)
            ≡ highest_of s.outbound_rtp j
      same j (inl e) = rw e (ap (λ (k : ℕ). highest_of s.outbound_rtp k) ((==_iff ssrc j).0 e))
      same j (inr e) = rw e refl

  accepted-Paired :
      (ssrc index : ℕ)
      → Above (highest_of s.outbound_rtp ssrc) index
      → Paired
          (record s { outbound_rtp = Maps.insert ssrc (some index) s.outbound_rtp })
          (record r {
            inbound_rtp =
                Maps.insert ssrc (accept (window_of r.inbound_rtp ssrc) index) r.inbound_rtp;
          })
  accepted-Paired ssrc index above = record {
    profile = paired.profile;
    rtp_keys = paired.rtp_keys;
    rtcp_keys = paired.rtcp_keys;
    streams = λ j.
        rw
          (
            window_of-insert r.inbound_rtp ssrc j (accept (window_of r.inbound_rtp ssrc) index),
            highest_of-insert s.outbound_rtp ssrc j (some index),
          )
          (same j (ssrc == j));
    control = paired.control;
  }
    where
      same :
          (j : ℕ) (b : Bool)
          → (if b
              then accept (window_of r.inbound_rtp ssrc) index
              else window_of r.inbound_rtp j).maximum
            ≡ (if b then some index else highest_of s.outbound_rtp j)
      same j true =
          accept-maximum (window_of r.inbound_rtp ssrc) index
            (subst (λ (o : Option ℕ). Above o index) (sym (paired.streams ssrc)) above)
      same j false = paired.streams j

  -- A packet that parses and whose index advances is sent and opened.
  protected-Exchanged :
      (packet : List ℕ) (q : Packet) (index : ℕ)
      → parse packet ≡ ok q
      → advance (highest_of s.outbound_rtp q.header.ssrc) q.header.sequence_number
        ≡ (some index, ok index)
      → index ≤ max_srtp_index
      → Above (highest_of s.outbound_rtp q.header.ssrc) index
      → estimate_index (highest_of s.outbound_rtp q.header.ssrc) q.header.sequence_number ≡ index
      → Exchanged r (unprotect_rtp p r) packet (protect_parsed p s packet q)
  unfolding protect_parsed encrypt_rtp seal_rtp authenticate_rtp unprotect_rtp
  protected-Exchanged packet q index parsed advanced fits above estimate =
      let ssrc = q.header.ssrc in
      let within = (parse-Header12 packet q parsed).within in
      let (tag, mac, len) =
        l.tagged r.inbound_rtp_keys.authentication (message p l r packet q parsed index) in
      let w = window_of r.inbound_rtp ssrc in
      let passes =
        check-Above w index
          (subst (λ (o : Option ℕ). Above o index) (sym (paired.streams ssrc)) above) in
      let same =
        ap (λ (o : Option ℕ). estimate_index o q.header.sequence_number) (paired.streams ssrc)
        ∙ estimate in
      let opened = open_rtp-sent p l r packet q parsed index tag same passes fits mac len in
      let n = rtp_tag_len r.profile in
      let out = sent p l r packet q parsed index ++ take n tag in
      let s' = record s { outbound_rtp = Maps.insert ssrc (some index) s.outbound_rtp } in
      let sent_as : protect_parsed p s packet q ≡ (s', out, ok tt) =
        rw
          (
            advanced,
            paired.rtp_keys,
            crypt_from-encrypted p l q.header_len packet r.inbound_rtp_keys ssrc index within
                authentication_failed,
            rollover_counter-fits index fits,
            mac,
            paired.profile,
          )
          refl in
      let opened_as : unprotect_rtp p r out ≡ (
        record r { inbound_rtp = Maps.insert ssrc (accept w index) r.inbound_rtp },
        ok packet,
      ) =
        rw opened refl in
      subst (Exchanged r (unprotect_rtp p r) packet) (sym sent_as) (
        ap (λ (t : SrtpContext × Result SrtpError (List ℕ)). t.1) opened_as,
        subst (λ (t : SrtpContext × Result SrtpError (List ℕ)). Paired s' t.0) (sym opened_as)
            (accepted-Paired ssrc index above),
      )

  refused-Exchanged :
      (packet : List ℕ) (q : Packet) (x : SrtpError)
      → advance (highest_of s.outbound_rtp q.header.ssrc) q.header.sequence_number
        ≡ (highest_of s.outbound_rtp q.header.ssrc, err x)
      → Exchanged r (unprotect_rtp p r) packet (protect_parsed p s packet q)
  unfolding protect_parsed
  refused-Exchanged packet q x e = rw e (refused-Paired q.header.ssrc)

  parsed-Exchanged :
      (packet : List ℕ) (q : Packet)
      → parse packet ≡ ok q
      → Exchanged r (unprotect_rtp p r) packet (protect_parsed p s packet q)
  parsed-Exchanged packet q parsed =
      let ssrc = q.header.ssrc in
      elim (advance_cases (highest_of s.outbound_rtp ssrc) q.header.sequence_number) [
        | inl (index, e, fits, above, same) ↦
            protected-Exchanged packet q index parsed e fits above same
        | inr (x, e) ↦ refused-Exchanged packet q x e
      ]

  -- Whatever a sender is asked to protect, a receiver that is in step with it opens what was sent
  -- as the packet itself and stays in step; what the sender refuses leaves them in step.
  pub protect_rtp-Exchanged :
      (packet : List ℕ) → Exchanged r (unprotect_rtp p r) packet (protect_rtp p s packet)
  unfolding protect_rtp
  protect_rtp-Exchanged packet = elim (Result-cases (parse packet)) [
    | inl (q, e) ↦ rw e (parsed-Exchanged packet q e)
    | inr (x, e) ↦ rw e paired
  ]
