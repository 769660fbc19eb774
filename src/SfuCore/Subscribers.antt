-- ===== src/SfuCore/Subscribers.antt =====
-- `subscribe`, `unsubscribe` and `unpublish` of crates/webrtc/sfu-core/src/room.rs keep the room
-- consistent, and so does a change of a down-track that keeps its configuration.
use fluvora.Prelude.{nat_eq}
use fluvora.Prelude.{
  ℕ, ◌<◌, ◌≡◌, refl, sym, ap, ◌∙◌, subst, true, false, not, Option, none, some, List, [], ◌∷◌,
  length, leb, arith, inl, inr, Result, ok, err, fail_if-inv,
}
use fluvora.Prelude.Sets.{contains}
use fluvora.Prelude.Maps.{lookup, insert, remove, length-insert, length-remove-le, is_some}
use fluvora.Datagram.Classify.{is_rtcp_mux_safe_payload_type}
use fluvora.SfuCore.Model.{PublishedTrack, SubscriptionConfig}
use fluvora.SfuCore.DownTrack.{DownTrack, new_down_track}
use fluvora.SfuCore.Outputs.{
  SfuError, duplicate_subscription, invalid_encodings, invalid_payload_type, resource_limit,
  subscription,
}
use fluvora.SfuCore.Room.{
  Room, IndexedLayer, ssrcs, remove_keys, remove_found, remove_subscription, remove_all, or_empty,
  unpublish, unpublish_found, check_subscribe, subscribe, subscribe_to,
}
use fluvora.SfuCore.Consistency.{
  Sourced, Routed, Consistent, found-insert, found-remove, insert-same, insert-here, remove-same,
  some-injective,
}

-- A down-track that is put back with its configuration.
pub replace-Routed :
    (id : ℕ) (d d' : DownTrack) (subscriptions : List (ℕ × DownTrack)) (index : List (ℕ × ℕ))
    → Routed subscriptions index
    → lookup id subscriptions ≡ some d
    → d'.configuration ≡ d.configuration
    → Routed (insert id d' subscriptions) index
      × (length (insert id d' subscriptions) ≡ length subscriptions)
replace-Routed id d d' subscriptions index old found same = (
  λ j e h. elim (found-insert id j d' e subscriptions h) [
    | inl (k, v) ↦
        subst (λ (x : DownTrack). lookup x.configuration.output_ssrc index ≡ some j) v
          (rw same (
            subst (λ (i : ℕ). lookup d.configuration.output_ssrc index ≡ some i) k
              (old id d found)))
    | inr (k, v) ↦ old j e v
  ],
  length-insert id d' subscriptions ∙ rw found refl,
)

pub replace-Consistent :
    (room : Room) (id : ℕ) (d d' : DownTrack)
    → Consistent room
    → lookup id room.subscriptions ≡ some d
    → d'.configuration ≡ d.configuration
    → Consistent (record room { subscriptions = insert id d' room.subscriptions })
replace-Consistent room id d d' c found same =
    let (routed, size) =
      replace-Routed id d d' room.subscriptions room.output_ssrc_index c.routed found same in
    record {
      sourced = c.sourced;
      routed = routed;
      few_tracks = c.few_tracks;
      few_subscriptions = omega (arith, size, c.few_subscriptions);
    }

-- Two subscriptions of one output SSRC are one.
removed-Routed :
    (id : ℕ) (d : DownTrack) (subscriptions : List (ℕ × DownTrack)) (index : List (ℕ × ℕ))
    → Routed subscriptions index
    → lookup id subscriptions ≡ some d
    → Routed (remove id subscriptions) (remove d.configuration.output_ssrc index)
removed-Routed id d subscriptions index old found j e h =
    let (other, before) = found-remove id j e subscriptions h in
    let mine = old id d found in
    let its = old j e before in
    remove-same d.configuration.output_ssrc e.configuration.output_ssrc index
      (λ same. other (some-injective (sym mine ∙ ap (λ (s : ℕ). lookup s index) same ∙ its)))
    ∙ its

remove_found-Consistent :
    (room : Room) (id : ℕ) (o : Option DownTrack)
    → Consistent room
    → lookup id room.subscriptions ≡ o
    → Consistent (remove_found room id o).0
unfolding remove_found
remove_found-Consistent room id none c h = c
remove_found-Consistent room id (some d) c h = record {
  sourced = c.sourced;
  routed = removed-Routed id d room.subscriptions room.output_ssrc_index c.routed h;
  few_tracks = c.few_tracks;
  few_subscriptions = omega (arith, length-remove-le id room.subscriptions, c.few_subscriptions);
}

pub remove_subscription-Consistent :
    (room : Room) (id : ℕ) → Consistent room → Consistent (remove_subscription room id).0
unfolding remove_subscription
remove_subscription-Consistent room id c =
    remove_found-Consistent room id (lookup id room.subscriptions) c refl

remove_all-Consistent :
    (ids : List ℕ) (room : Room) → Consistent room → Consistent (remove_all ids room)
unfolding remove_all
remove_all-Consistent [] room c = c
remove_all-Consistent (id ∷ ids) room c =
    remove_all-Consistent ids (remove_subscription room id).0
      (remove_subscription-Consistent room id c)

found-remove_keys :
    (ks : List ℕ) (m : List (ℕ × IndexedLayer)) (j : ℕ) (s : IndexedLayer)
    → lookup j (remove_keys ks m) ≡ some s
    → (contains j ks ≡ false) × (lookup j m ≡ some s)
unfolding remove_keys contains
found-remove_keys [] m j s h = (refl, h)
found-remove_keys (k ∷ ks) m j s h =
    let (a, h1) = found-remove_keys ks (remove k m) j s h in
    let (b, h2) = found-remove k j s m h1 in (ground (arith, a, b), h2)

unpublished-Sourced :
    (room : Room) (track_id : ℕ) (track : PublishedTrack)
    → Sourced room.ssrc_index room.tracks
    → lookup track_id room.tracks ≡ some track
    → Sourced (remove_keys (ssrcs track.encodings) room.ssrc_index) (remove track_id room.tracks)
unpublished-Sourced room track_id track old found ssrc s h =
    let (outside, before) = found-remove_keys (ssrcs track.encodings) room.ssrc_index ssrc s h in
    let (t, its, inside) = old ssrc s before in
    (
      t,
      remove-same track_id s.track_id room.tracks (λ same. clash outside (
            subst (λ (x : PublishedTrack). contains ssrc (ssrcs x.encodings) ≡ true)
              (some-injective (sym its ∙ ap (λ (i : ℕ). lookup i room.tracks) (sym same) ∙ found))
              inside))
          ∙ its,
      inside,
    )
  where
    clash :
        contains ssrc (ssrcs track.encodings) ≡ false
        → contains ssrc (ssrcs track.encodings) ≡ true
        → ⊥
    clash a b = ground arith

unpublish_found-Consistent :
    (room : Room) (track_id : ℕ) (o : Option PublishedTrack)
    → Consistent room
    → lookup track_id room.tracks ≡ o
    → Consistent (unpublish_found room track_id o).0
unfolding unpublish_found
unpublish_found-Consistent room track_id none c h = c
unpublish_found-Consistent room track_id (some track) c h =
    remove_all-Consistent (or_empty (lookup track_id room.track_subscriptions)) _ (record {
      sourced = unpublished-Sourced room track_id track c.sourced h;
      routed = c.routed;
      few_tracks = omega (arith, length-remove-le track_id room.tracks, c.few_tracks);
      few_subscriptions = c.few_subscriptions;
    })

pub unpublish-Consistent :
    (room : Room) (track_id : ℕ) → Consistent room → Consistent (unpublish room track_id).0
unfolding unpublish
unpublish-Consistent room track_id c =
    unpublish_found-Consistent room track_id (lookup track_id room.tracks) c refl

checked_subscribe :
    (room : Room) (c : SubscriptionConfig) (track : PublishedTrack)
    → check_subscribe room c ≡ ok track
    → (is_some (lookup c.id room.subscriptions) ≡ false)
      × (is_some (lookup c.output_ssrc room.output_ssrc_index) ≡ false)
      × (length room.subscriptions < room.configuration.max_subscriptions)
unfolding check_subscribe
checked_subscribe room c track h =
    let (a, h1) =
      fail_if-inv (is_some (lookup c.id room.subscriptions)) (duplicate_subscription c.id) _ track
        h in
    let (b, h2) =
      fail_if-inv (is_some (lookup c.output_ssrc room.output_ssrc_index)) invalid_encodings _ track
        h1 in
    let (safe, h3) =
      fail_if-inv (not (is_rtcp_mux_safe_payload_type c.output_payload_type))
        (invalid_payload_type c.output_payload_type) _ track h2 in
    let (few, h4) =
      fail_if-inv (leb room.configuration.max_subscriptions (length room.subscriptions))
        (resource_limit subscription) _ track h3 in
    (a, b, ground arith)

added-Routed :
    (c : SubscriptionConfig) (d : DownTrack) (subscriptions : List (ℕ × DownTrack))
    (index : List (ℕ × ℕ))
    → Routed subscriptions index
    → is_some (lookup c.output_ssrc index) ≡ false
    → d.configuration ≡ c
    → Routed (insert c.id d subscriptions) (insert c.output_ssrc c.id index)
added-Routed c d subscriptions index old free conf j e h =
    elim (found-insert c.id j d e subscriptions h) [
      | inl (k, v) ↦
          subst
            (λ (x : DownTrack).
              lookup x.configuration.output_ssrc (insert c.output_ssrc c.id index) ≡ some j)
            v (rw (conf, sym k) (insert-here c.output_ssrc c.id index))
      | inr (k, v) ↦
          let found = old j e v in
          insert-same c.output_ssrc e.configuration.output_ssrc c.id index
            (λ same. taken (subst (λ (s : ℕ). lookup s index ≡ some j) (sym same) found))
          ∙ found
    ]
  where
    taken : lookup c.output_ssrc index ≡ some j → ⊥
    taken found = ground arith

subscribe_to-Consistent :
    (room : Room) (c : SubscriptionConfig) (r : Result SfuError PublishedTrack)
    → Consistent room
    → check_subscribe room c ≡ r
    → Consistent (subscribe_to room c r).0
unfolding subscribe_to new_down_track
subscribe_to-Consistent room c (err e) k h = k
subscribe_to-Consistent room c (ok track) k h =
    let (new, free, few) = checked_subscribe room c track h in
    let d =
      new_down_track c track room.configuration.retransmission_cache_packets
        room.configuration.retransmission_cache_age in
    record {
      sourced = k.sourced;
      routed = added-Routed c d room.subscriptions room.output_ssrc_index k.routed free refl;
      few_tracks = k.few_tracks;
      few_subscriptions = ground (arith, length-insert c.id d room.subscriptions, new, few);
    }

pub subscribe-Consistent :
    (room : Room) (c : SubscriptionConfig) → Consistent room → Consistent (subscribe room c).0
unfolding subscribe
subscribe-Consistent room c k = subscribe_to-Consistent room c (check_subscribe room c) k refl
