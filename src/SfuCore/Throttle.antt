-- ===== src/SfuCore/Throttle.antt =====
-- Keyframe requests are spaced: `maybe_pli` of crates/webrtc/sfu-core/src/room.rs, among the calls
-- that publish and unpublish tracks.
use fluvora.Prelude.{nat_eq}
use fluvora.Prelude.{
  ℕ, ◌-◌, ◌≤◌, ◌≡◌, ◌≢◌, refl, ap, ◌∙◌, subst, false, Option, none, some, List, [], ◌∷◌, ◌==◌,
  ==_iff, if◌then◌else◌, arith, Bool-cases, Result-cases, inl, inr,
}
use fluvora.Prelude.Maps.{lookup, insert, remove}
use fluvora.Prelude.Sets.{contains}
use fluvora.SfuCore.Model.{PublishedTrack}
use fluvora.SfuCore.Outputs.{SfuEvent, RoomConfig}
use fluvora.SfuCore.DownTrack.{DownTrack}
use fluvora.SfuCore.Room.{
  Room, maybe_pli, throttled, ssrcs, publish, check_publish, unpublish, unpublish_found,
  remove_keys, remove_all, remove_found, remove_subscription, or_empty,
}
use fluvora.SfuCore.Consistency.{insert-same, insert-here, remove-same}

-- A call of `maybe_pli`.
pub record Request : Type 0 where
  pub now : ℕ
  pub track_id : ℕ
  pub media_ssrc : ℕ

pub data Call : Type 0 where
  ask : Request → Call
  withdraw : ℕ → Call
  offer : PublishedTrack → Call

-- What a call does that matters here: a request goes upstream, or a track with these SSRCs goes.
pub data Outcome : Type 0 where
  sent : Request → Outcome
  gone : List ℕ → Outcome

abbrev pub emit : Request → Option SfuEvent → List Outcome → List Outcome
emit r none rest = rest
emit r (some event) rest = sent r ∷ rest

abbrev pub ssrcs_of : Option PublishedTrack → List ℕ
ssrcs_of none = []
ssrcs_of (some track) = ssrcs track.encodings

-- The outcomes of a sequence of calls.
unfoldable pub requested : Room → List Call → List Outcome
requested room [] = []
requested room (ask r ∷ calls) =
    let done = maybe_pli room r.now r.track_id r.media_ssrc in
    emit r done.1 (requested done.0 calls)
requested room (withdraw track_id ∷ calls) =
    gone (ssrcs_of (lookup track_id room.tracks)) ∷ requested (unpublish room track_id).0 calls
requested room (offer track ∷ calls) = requested (publish room track).0 calls

-- What comes is the throttle later, up to the point where a track with the SSRC goes.
abbrev pub Apart : ℕ → ℕ → ℕ → List Outcome → Type 0
Apart throttle ssrc last [] = Unit {0}
Apart throttle ssrc last (sent r ∷ rest) =
    (r.media_ssrc ≡ ssrc → throttle ≤ r.now - last) × Apart throttle ssrc last rest
Apart throttle ssrc last (gone others ∷ rest) =
    if contains ssrc others then Unit {0} else Apart throttle ssrc last rest

-- Any two requests for one SSRC are the throttle apart, where no track with it goes in between.
abbrev pub Spaced : ℕ → List Outcome → Type 0
Spaced throttle [] = Unit {0}
Spaced throttle (sent r ∷ rest) = Apart throttle r.media_ssrc r.now rest × Spaced throttle rest
Spaced throttle (gone others ∷ rest) = Spaced throttle rest

-- The other calls keep the configuration, and the times of the SSRCs that stay.
remove_found-kept :
    (room : Room) (id : ℕ) (o : Option DownTrack)
    → ((remove_found room id o).0.last_pli ≡ room.last_pli)
      × ((remove_found room id o).0.configuration ≡ room.configuration)
unfolding remove_found
remove_found-kept room id none = (refl, refl)
remove_found-kept room id (some d) = (refl, refl)

remove_all-kept :
    (ids : List ℕ) (room : Room)
    → ((remove_all ids room).last_pli ≡ room.last_pli)
      × ((remove_all ids room).configuration ≡ room.configuration)
unfolding remove_all remove_subscription
remove_all-kept [] room = (refl, refl)
remove_all-kept (id ∷ ids) room =
    let first = remove_found-kept room id (lookup id room.subscriptions) in
    let others = remove_all-kept ids (remove_subscription room id).0 in
    (others.0 ∙ first.0, others.1 ∙ first.1)

lookup-remove_keys :
    (ks : List ℕ) (m : List (ℕ × ℕ)) (j : ℕ)
    → contains j ks ≡ false
    → lookup j (remove_keys ks m) ≡ lookup j m
unfolding remove_keys contains
lookup-remove_keys [] m j h = refl
lookup-remove_keys (k ∷ ks) m j h =
    lookup-remove_keys ks (remove k m) j (ground (arith, h)) ∙ remove-same k j m (ground (arith, h))

unpublish_found-kept :
    (room : Room) (track_id ssrc : ℕ) (o : Option PublishedTrack)
    → contains ssrc (ssrcs_of o) ≡ false
    → lookup ssrc (unpublish_found room track_id o).0.last_pli ≡ lookup ssrc room.last_pli
unfolding unpublish_found
unpublish_found-kept room track_id ssrc none h = refl
unpublish_found-kept room track_id ssrc (some track) h =
    ap (λ (m : List (ℕ × ℕ)). lookup ssrc m)
      (remove_all-kept (or_empty (lookup track_id room.track_subscriptions)) _).0
    ∙ lookup-remove_keys (ssrcs track.encodings) room.last_pli ssrc h

unpublish_found-configuration :
    (room : Room) (track_id : ℕ) (o : Option PublishedTrack)
    → (unpublish_found room track_id o).0.configuration ≡ room.configuration
unfolding unpublish_found
unpublish_found-configuration room track_id none = refl
unpublish_found-configuration room track_id (some track) =
    (remove_all-kept (or_empty (lookup track_id room.track_subscriptions)) _).1

publish-kept :
    (room : Room) (track : PublishedTrack)
    → ((publish room track).0.last_pli ≡ room.last_pli)
      × ((publish room track).0.configuration ≡ room.configuration)
unfolding publish
publish-kept room track = elim (Result-cases (check_publish room track)) [
  | inl (u, e) ↦ rw e (refl, refl)
  | inr (x, e) ↦ rw e (refl, refl)
]

Apart-later :
    (throttle ssrc last now : ℕ) (rest : List Outcome)
    → throttle ≤ now - last
    → Apart throttle ssrc now rest
    → Apart throttle ssrc last rest
Apart-later throttle ssrc last now [] h a = tt
Apart-later throttle ssrc last now (sent r ∷ rest) h a = (
  (λ e. let later = a.0 e in omega (arith, later, h)),
  Apart-later throttle ssrc last now rest h a.1,
)
Apart-later throttle ssrc last now (gone others ∷ rest) h a =
    elim (Bool-cases (contains ssrc others)) [
      | inl e ↦ rw e tt
      | inr e ↦ rw e (
          Apart-later throttle ssrc last now rest h
            (subst (λ b. if b then Unit {0} else Apart throttle ssrc now rest) e a))
    ]

-- After a request for the SSRC at `last`.
requested-Apart :
    (c : RoomConfig) (calls : List Call) (room : Room) (ssrc last : ℕ)
    → room.configuration ≡ c
    → lookup ssrc room.last_pli ≡ some last
    → Apart c.pli_throttle ssrc last (requested room calls)
unfolding requested maybe_pli unpublish
requested-Apart c [] room ssrc last same h = tt
requested-Apart c (offer track ∷ calls) room ssrc last same h =
    let kept = publish-kept room track in
    requested-Apart c calls (publish room track).0 ssrc last (kept.1 ∙ same)
      (ap (λ (m : List (ℕ × ℕ)). lookup ssrc m) kept.0 ∙ h)
requested-Apart c (withdraw track_id ∷ calls) room ssrc last same h =
    let o = lookup track_id room.tracks in
    elim (Bool-cases (contains ssrc (ssrcs_of o))) [
      | inl e ↦ rw e tt
      | inr e ↦ rw e (
          requested-Apart c calls (unpublish room track_id).0 ssrc last
            (unpublish_found-configuration room track_id o ∙ same)
            (unpublish_found-kept room track_id ssrc o e ∙ h))
    ]
requested-Apart c (ask r ∷ calls) room ssrc last same h =
    let throttle = room.configuration.pli_throttle in
    let room' = record room { last_pli = insert r.media_ssrc r.now room.last_pli } in
    elim (Bool-cases (throttled r.now throttle (lookup r.media_ssrc room.last_pli))) [
      | inl e ↦ rw e (requested-Apart c calls room ssrc last same h)
      | inr e ↦ rw e (elim (Bool-cases (r.media_ssrc == ssrc)) [
        | inl this ↦
            let eq = (==_iff r.media_ssrc ssrc).0 this in
            let here = insert-here r.media_ssrc r.now room.last_pli in
            let wait : throttled r.now throttle (some last) ≡ false =
              subst (λ (o : Option ℕ). throttled r.now throttle o ≡ false)
                (ap (λ (s : ℕ). lookup s room.last_pli) eq ∙ h) e in
            let value = ap (λ (d : RoomConfig). d.pli_throttle) same in
            let far : c.pli_throttle ≤ r.now - last = ground (arith, value, wait) in
            (
              (λ _. far),
              Apart-later c.pli_throttle ssrc last r.now (requested room' calls) far (
                  requested-Apart c calls room' ssrc r.now same (
                    subst
                      (λ (s : ℕ). lookup s (insert r.media_ssrc r.now room.last_pli) ≡ some r.now)
                      eq here)),
            )
        | inr other ↦
            let ne : r.media_ssrc ≢ ssrc = ground arith in
            (
              (λ eq. absurd (ne eq)),
              requested-Apart c calls room' ssrc last same
                  (insert-same r.media_ssrc ssrc r.now room.last_pli ne ∙ h),
            )
      ])
    ]

requested-Spaced_from :
    (c : RoomConfig) (calls : List Call) (room : Room)
    → room.configuration ≡ c
    → Spaced c.pli_throttle (requested room calls)
unfolding requested maybe_pli unpublish
requested-Spaced_from c [] room same = tt
requested-Spaced_from c (offer track ∷ calls) room same =
    requested-Spaced_from c calls (publish room track).0 ((publish-kept room track).1 ∙ same)
requested-Spaced_from c (withdraw track_id ∷ calls) room same =
    requested-Spaced_from c calls (unpublish room track_id).0
      (unpublish_found-configuration room track_id (lookup track_id room.tracks) ∙ same)
requested-Spaced_from c (ask r ∷ calls) room same =
    let room' = record room { last_pli = insert r.media_ssrc r.now room.last_pli } in
    elim (Bool-cases
      (throttled r.now room.configuration.pli_throttle (lookup r.media_ssrc room.last_pli))) [
        | inl e ↦ rw e (requested-Spaced_from c calls room same)
        | inr e ↦ rw e (
          requested-Apart c calls room' r.media_ssrc r.now same
              (insert-here r.media_ssrc r.now room.last_pli),
          requested-Spaced_from c calls room' same,
        )
      ]

-- In any sequence of calls that ask for keyframes at whatever times, publish tracks and unpublish
-- them: any two requests that go upstream for one SSRC are at least the throttle of the room apart,
-- unless a track that has this SSRC was unpublished in between.
pub requested-Spaced :
    (calls : List Call) (room : Room)
    → Spaced room.configuration.pli_throttle (requested room calls)
requested-Spaced calls room = requested-Spaced_from room.configuration calls room refl
