-- ===== src/Dtls/Mirrored.antt =====
-- The two ends of a DTLS handshake get SRTP contexts that understand each other:
-- crates/webrtc/dtls-adapter/src/keying.rs with crates/webrtc/srtp/src/context.rs.
use fluvora.Prelude.{
  ℕ, ◌+◌, ◌-◌, ◌≡◌, ◌≤◌, refl, ap, ◌∙◌, List, length, drop, map, All, ok, arith, length-take,
  length-drop,
}
use fluvora.Srtp.Keys.{Primitives, Lawful, KeyingMaterial, new_material}
use fluvora.Srtp.Context.{new}
use fluvora.Srtp.Session.{Traffic, IsSlice, exchange, accepted, exchange-new}
use fluvora.Dtls.Keying.{
  DtlsRole, client, server, DtlsSrtpProfile, protection_profile, DirectionalKeyingMaterial,
  directed, slice, split_srtp_exporter,
}

length-slice :
    (xs : List ℕ) (from to : ℕ) → from ≤ to → to ≤ length xs → length (slice xs from to) ≡ to - from
length-slice xs from to a b =
    length-take (to - from) (drop from xs) ∙ omega (arith, length-drop from xs, a, b)

new_material-ok :
    (key salt : List ℕ)
    → length key ≡ 16
    → length salt ≡ 14
    → new_material key salt ≡ ok (record { master_key = key; master_salt = salt })
unfolding new_material
new_material-ok key salt a b = rw (a, b) refl

abbrev material : List ℕ → ℕ → ℕ → ℕ → ℕ → KeyingMaterial
material xs k k' s s' = record { master_key = slice xs k k'; master_salt = slice xs s s' }

-- The split of the 60 exported bytes for a role.
abbrev halves : DtlsSrtpProfile → DtlsRole → List ℕ → DirectionalKeyingMaterial
halves profile client xs = record {
  profile = protection_profile profile;
  outbound = material xs 0 16 32 46;
  inbound = material xs 16 32 46 60;
}
halves profile server xs = record {
  profile = protection_profile profile;
  outbound = material xs 16 32 46 60;
  inbound = material xs 0 16 32 46;
}

directed-halves :
    (profile : DtlsSrtpProfile) (role : DtlsRole) (xs : List ℕ)
    → directed (protection_profile profile) role (material xs 0 16 32 46) (material xs 16 32 46 60)
      ≡ halves profile role xs
directed-halves profile client xs = refl
directed-halves profile server xs = refl

material-ok :
    (xs : List ℕ) (k k' s s' : ℕ)
    → k' ≡ k + 16
    → s' ≡ s + 14
    → s' ≤ length xs
    → k' ≤ length xs
    → new_material (slice xs k k') (slice xs s s') ≡ ok (material xs k k' s s')
material-ok xs k k' s s' a b c d =
    new_material-ok (slice xs k k') (slice xs s s')
      (length-slice xs k k' (omega arith) d ∙ omega arith)
      (length-slice xs s s' (omega arith) c ∙ omega arith)

split_srtp_exporter-halves :
    (profile : DtlsSrtpProfile) (role : DtlsRole) (xs : List ℕ)
    → length xs ≡ 60
    → split_srtp_exporter profile role xs ≡ ok (halves profile role xs)
unfolding split_srtp_exporter
split_srtp_exporter-halves profile role xs h =
    let c = material-ok xs 0 16 32 46 (omega arith) (omega arith) (omega arith) (omega arith) in
    let s = material-ok xs 16 32 46 60 (omega arith) (omega arith) (omega arith) (omega arith) in
    rw (h, c, s) (ap ok (directed-halves profile role xs))

-- What an endpoint sends under its split, the other endpoint opens under its own.
abbrev pub Understood :
    Primitives → DirectionalKeyingMaterial → DirectionalKeyingMaterial → List Traffic → Type 0
Understood p a b ts =
    let s = new p a.profile a.outbound a.inbound in
    exchange p s (new p b.profile b.outbound b.inbound) ts ≡ map ok (accepted p s ts)

-- From the same 60 exported bytes the client and the server of a handshake each get a split, and the
-- SRTP contexts that they make of them understand each other in both directions: whatever one sends
-- and does not refuse, the other opens as it was.
pub split_srtp_exporter-Understood :
    (p : Primitives) (l : Lawful p) (profile : DtlsSrtpProfile) (exported : List ℕ)
    (ts : List Traffic)
    → length exported ≡ 60
    → All IsSlice ts
    → (c : DirectionalKeyingMaterial) × (s : DirectionalKeyingMaterial) × (split_srtp_exporter
          profile client exported
        ≡ ok c)
      × (split_srtp_exporter profile server exported ≡ ok s)
      × Understood p c s ts
      × Understood p s c ts
split_srtp_exporter-Understood p l profile exported ts h short =
    let c = halves profile client exported in
    (
      c,
      halves profile server exported,
      split_srtp_exporter-halves profile client exported h,
      split_srtp_exporter-halves profile server exported h,
      exchange-new p l (protection_profile profile) c.outbound c.inbound ts short,
      exchange-new p l (protection_profile profile) c.inbound c.outbound ts short,
    )
