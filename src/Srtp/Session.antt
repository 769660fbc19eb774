-- ===== src/Srtp/Session.antt =====
-- A whole session of two contexts: crates/webrtc/srtp/src/context.rs.
use fluvora.Prelude.{ℕ, ◌^◌, ◌<◌, ◌≡◌, refl, List, [], ◌∷◌, map, length, All, Result, ok, err}
use fluvora.Srtp.Errors.{SrtpError}
use fluvora.Srtp.Keys.{Primitives, Lawful, KeyingMaterial, ProtectionProfile}
use fluvora.Srtp.Context.{SrtpContext, Protected, new, protect_rtp, unprotect_rtp}
use fluvora.Srtp.Control.{protect_rtcp, unprotect_rtcp}
use fluvora.Srtp.Paired.{Paired, Exchanged, new-Paired}
use fluvora.Srtp.Exchange.{protect_rtp-Exchanged}
use fluvora.Srtp.ControlExchange.{protect_rtcp-Exchanged}

pub data Traffic : Type 0 where
  media : List ℕ → Traffic
  control : List ℕ → Traffic

abbrev pub packet_of : Traffic → List ℕ
packet_of (media packet) = packet
packet_of (control packet) = packet

abbrev pub IsSlice : Traffic → Type 0
IsSlice t = length (packet_of t) < 2 ^ 63

module _ (p : Primitives) where
  abbrev pub send : SrtpContext → Traffic → Protected
  send s (media packet) = protect_rtp p s packet
  send s (control packet) = protect_rtcp p s packet

  abbrev pub deliver : SrtpContext → Traffic → List ℕ → SrtpContext × Result SrtpError (List ℕ)
  deliver r (media packet) out = unprotect_rtp p r out
  deliver r (control packet) out = unprotect_rtcp p r out

  -- What was sent is delivered, and its answer is recorded; then the rest follows.
  abbrev pub arrive :
      SrtpContext
      → Traffic
      → Protected
      → (SrtpContext → SrtpContext → List (Result SrtpError (List ℕ)))
      → List (Result SrtpError (List ℕ))
  arrive r t (s', out, ok _) rest = (deliver r t out).1 ∷ rest s' (deliver r t out).0
  arrive r t (s', out, err e) rest = rest s' r

  -- The answers of the receiver to all that the sender sent.
  unfoldable pub exchange :
      SrtpContext → SrtpContext → List Traffic → List (Result SrtpError (List ℕ))
  exchange s r [] = []
  exchange s r (t ∷ ts) = arrive r t (send s t) (λ s' r'. exchange s' r' ts)

  abbrev pub keep : Traffic → Protected → (SrtpContext → List (List ℕ)) → List (List ℕ)
  keep t (s', out, ok _) rest = packet_of t ∷ rest s'
  keep t (s', out, err e) rest = rest s'

  -- The packets that the sender did not refuse.
  unfoldable pub accepted : SrtpContext → List Traffic → List (List ℕ)
  accepted s [] = []
  accepted s (t ∷ ts) = keep t (send s t) (λ s'. accepted s' ts)

  arrive-keep :
      (r : SrtpContext) (t : Traffic) (sent : Protected)
      (rest : SrtpContext → SrtpContext → List (Result SrtpError (List ℕ)))
      (rest' : SrtpContext → List (List ℕ))
      → Exchanged r (deliver r t) (packet_of t) sent
      → ((s r : SrtpContext) → Paired s r → rest s r ≡ map ok (rest' s))
      → arrive r t sent rest ≡ map ok (keep t sent rest')
  arrive-keep r t (s', out, ok _) rest rest' x h = rw (x.0, h s' (deliver r t out).0 x.1) refl
  arrive-keep r t (s', out, err e) rest rest' x h = h s' r x

  send-Exchanged :
      (l : Lawful p) (s r : SrtpContext)
      → Paired s r
      → (t : Traffic) → IsSlice t
      → Exchanged r (deliver r t) (packet_of t) (send s t)
  send-Exchanged l s r paired (media packet) short = protect_rtp-Exchanged p l s r paired packet
  send-Exchanged l s r paired (control packet) short =
      protect_rtcp-Exchanged p l s r paired packet short

  exchange-accepted :
      (l : Lawful p) (ts : List Traffic) (s r : SrtpContext)
      → Paired s r
      → All IsSlice ts
      → exchange s r ts ≡ map ok (accepted s ts)
  unfolding exchange accepted
  exchange-accepted l [] s r paired short = refl
  exchange-accepted l (t ∷ ts) s r paired short =
      arrive-keep r t (send s t) _ _ (send-Exchanged l s r paired t short.0)
        λ s' r' paired'. exchange-accepted l ts s' r' paired' short.1

  -- Two contexts made from the same keying material, each with the other's outbound as its inbound:
  -- any sequence of RTP and RTCP packets that one is asked to protect, the other opens, each as the
  -- packet itself and in order, save those that the sender refuses. The cipher is to be undone by
  -- applying it again and to keep lengths, the MAC to take any key and give 20 bytes, and packets are
  -- shorter than half the address space.
  pub exchange-new :
      (l : Lawful p) (profile : ProtectionProfile) (a b : KeyingMaterial) (ts : List Traffic)
      → All IsSlice ts
      → exchange (new p profile a b) (new p profile b a) ts
        ≡ map ok (accepted (new p profile a b) ts)
  exchange-new l profile a b ts short =
      exchange-accepted l ts (new p profile a b) (new p profile b a) (new-Paired p profile a b)
        short
