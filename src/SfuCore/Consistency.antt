-- ===== src/SfuCore/Consistency.antt =====
-- The indexes of the forwarding room (crates/webrtc/sfu-core/src/room.rs) agree with its tracks and
-- subscriptions: the invariant, and the maps that it is about.
use fluvora.Prelude.{nat_eq}
use fluvora.Prelude.{
  ℕ, ◌≤◌, ◌≡◌, ◌≢◌, refl, sym, ap, ◌∙◌, subst, Bool, true, false, Option, none, some, List, length,
  ◌==◌, ==_iff, if◌then◌else◌, arith, Bool-cases, ◌⊎◌, inl, inr,
}
use fluvora.Prelude.Sets.{contains}
use fluvora.Prelude.Maps.{lookup, insert, remove, lookup-insert, lookup-remove}
use fluvora.SfuCore.Model.{PublishedTrack}
use fluvora.SfuCore.DownTrack.{DownTrack}
use fluvora.SfuCore.Room.{Room, IndexedLayer, ssrcs}

-- Every indexed SSRC is one of a published track.
abbrev pub Sourced : List (ℕ × IndexedLayer) → List (ℕ × PublishedTrack) → Type 0
Sourced index tracks =
    (ssrc : ℕ) (s : IndexedLayer)
    → lookup ssrc index ≡ some s
    → (t : PublishedTrack) × (lookup s.track_id tracks ≡ some t)
      × (contains ssrc (ssrcs t.encodings) ≡ true)

-- Every subscription is found by its output SSRC, so that no two share one.
abbrev pub Routed : List (ℕ × DownTrack) → List (ℕ × ℕ) → Type 0
Routed subscriptions index =
    (id : ℕ) (d : DownTrack)
    → lookup id subscriptions ≡ some d
    → lookup d.configuration.output_ssrc index ≡ some id

pub record Consistent (room : Room) : Type 0 where
  pub sourced : Sourced room.ssrc_index room.tracks
  pub routed : Routed room.subscriptions room.output_ssrc_index
  pub few_tracks : length room.tracks ≤ room.configuration.max_tracks
  pub few_subscriptions : length room.subscriptions ≤ room.configuration.max_subscriptions

pub some-injective {ℓ} : {A : Type ℓ} {a b : A} → Path (Option A) (some a) (some b) → a ≡ b
some-injective {A = A} {a = a} h = ap (or_this a) h
  where
    or_this : A → Option A → A
    or_this a none = a
    or_this a (some b) = b

-- A lookup behind an insertion or a removal.
pub found-insert {ℓ} :
    {V : Type ℓ} (k j : ℕ) (v w : V) (m : List (ℕ × V))
    → lookup j (insert k v m) ≡ some w
    → ((k ≡ j) × (v ≡ w)) ⊎ ((k ≢ j) × (lookup j m ≡ some w))
found-insert k j v w m h =
    let h' = sym (lookup-insert k j v m) ∙ h in
    elim (Bool-cases (k == j)) [
      | inl e ↦ inl (
        (==_iff k j).0 e,
        some-injective (subst (λ (b : Bool). (if b then some v else lookup j m) ≡ some w) e h'),
      )
      | inr e ↦
          inr (ground arith, subst (λ (b : Bool). (if b then some v else lookup j m) ≡ some w) e h')
    ]

pub found-remove {ℓ} :
    {V : Type ℓ} (k j : ℕ) (w : V) (m : List (ℕ × V))
    → lookup j (remove k m) ≡ some w
    → (k ≢ j) × (lookup j m ≡ some w)
found-remove k j w m h =
    let h' = sym (lookup-remove k j m) ∙ h in
    elim (Bool-cases (k == j)) [
      | inl e ↦ absurd (missing e h')
      | inr e ↦ (ground arith, subst (λ (b : Bool). (if b then none else lookup j m) ≡ some w) e h')
    ]
  where
    missing : (k == j) ≡ true → (if k == j then none else lookup j m) ≡ some w → ⊥
    missing e h = ground arith

pub insert-same {ℓ} :
    {V : Type ℓ} (k j : ℕ) (v : V) (m : List (ℕ × V)) → k ≢ j → lookup j (insert k v m) ≡ lookup j m
insert-same k j v m h = let e : (k == j) ≡ false = ground arith in lookup-insert k j v m ∙ rw e refl

pub insert-here {ℓ} :
    {V : Type ℓ} (k : ℕ) (v : V) (m : List (ℕ × V)) → lookup k (insert k v m) ≡ some v
insert-here k v m = let e : (k == k) ≡ true = ground arith in lookup-insert k k v m ∙ rw e refl

pub remove-same {ℓ} :
    {V : Type ℓ} (k j : ℕ) (m : List (ℕ × V)) → k ≢ j → lookup j (remove k m) ≡ lookup j m
remove-same k j m h = let e : (k == j) ≡ false = ground arith in lookup-remove k j m ∙ rw e refl
