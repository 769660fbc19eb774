-- ===== src/Srtp/Paired.antt =====
-- Two contexts whose streams run in step: crates/webrtc/srtp/src/context.rs and replay.rs.
use fluvora.Prelude.{nat_eq}
use fluvora.Prelude.{
  ℕ, ◌≡◌, refl, Option, none, some, Bool, true, false, List, ltb, Result, ok, err, arith,
  if◌then◌else◌, ◌==◌,
}
use fluvora.Prelude.Maps
use fluvora.Prelude.Maps.{lookup-insert}
use fluvora.Srtp.Errors.{SrtpError}
use fluvora.Srtp.Keys.{Primitives, KeyingMaterial, ProtectionProfile}
use fluvora.Srtp.Replay.{
  ReplayWindow, empty_window, check, check_at, check_below, accept, accept_at, accept_below,
}
use fluvora.Srtp.Index.{Above}
use fluvora.Srtp.Context.{SrtpContext, Protected, new, window_of, highest_of, or_default}

-- A receiver that has opened all that the sender sent.
pub record Paired (s r : SrtpContext) : Type 0 where
  pub profile : s.profile ≡ r.profile
  pub rtp_keys : s.outbound_rtp_keys ≡ r.inbound_rtp_keys
  pub rtcp_keys : s.outbound_rtcp_keys ≡ r.inbound_rtcp_keys
  pub streams : (ssrc : ℕ) → (window_of r.inbound_rtp ssrc).maximum ≡ highest_of s.outbound_rtp ssrc
  pub control : (ssrc : ℕ) → Above (window_of r.inbound_rtcp ssrc).maximum s.outbound_rtcp_index

pub new-Paired :
    (p : Primitives) (profile : ProtectionProfile) (a b : KeyingMaterial)
    → Paired (new p profile a b) (new p profile b a)
unfolding new empty_window Maps.lookup
new-Paired p profile a b = record {
  profile = refl;
  rtp_keys = refl;
  rtcp_keys = refl;
  streams = λ ssrc. refl;
  control = λ ssrc. tt;
}

check_at-Above : (o : Option ℕ) (w : ReplayWindow) (i : ℕ) → Above o i → check_at o w i ≡ ok tt
unfolding check_at check_below
check_at-Above none w i h = refl
check_at-Above (some m) w i h = ground arith

pub check-Above : (w : ReplayWindow) (i : ℕ) → Above w.maximum i → check w i ≡ ok tt
unfolding check
check-Above w i h = check_at-Above w.maximum w i h

accept_at-maximum :
    (o : Option ℕ) (w : ReplayWindow) (i : ℕ) → Above o i → (accept_at o w i).maximum ≡ some i
unfolding accept_at accept_below
accept_at-maximum none w i h = refl
accept_at-maximum (some m) w i h = let test : ltb m i ≡ true = ground arith in rw test refl

pub accept-maximum : (w : ReplayWindow) (i : ℕ) → Above w.maximum i → (accept w i).maximum ≡ some i
unfolding accept
accept-maximum w i h = accept_at-maximum w.maximum w i h

or_default-if {ℓ} :
    {A : Type ℓ} (b : Bool) (d v : A) (o : Option A)
    → or_default d (if b then some v else o) ≡ (if b then v else or_default d o)
or_default-if true d v o = refl
or_default-if false d v o = refl

pub window_of-insert :
    (m : List (ℕ × ReplayWindow)) (k j : ℕ) (w : ReplayWindow)
    → window_of (Maps.insert k w m) j ≡ (if k == j then w else window_of m j)
window_of-insert m k j w =
    rw (lookup-insert k j w m) (or_default-if (k == j) empty_window w (Maps.lookup j m))

pub highest_of-insert :
    (m : List (ℕ × Option ℕ)) (k j : ℕ) (o : Option ℕ)
    → highest_of (Maps.insert k o m) j ≡ (if k == j then o else highest_of m j)
highest_of-insert m k j o =
    rw (lookup-insert k j o m) (or_default-if (k == j) none o (Maps.lookup j m))

-- A protected packet is opened as the packet, and the two stay in step; one that is refused leaves
-- them in step.
abbrev pub Exchanged :
    SrtpContext → (List ℕ → SrtpContext × Result SrtpError (List ℕ)) → List ℕ → Protected → Type 0
Exchanged r unprotect packet (s', out, ok _) =
    ((unprotect out).1 ≡ ok packet) × Paired s' (unprotect out).0
Exchanged r unprotect packet (s', out, err e) = Paired s' r
