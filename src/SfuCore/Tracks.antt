-- ===== src/SfuCore/Tracks.antt =====
-- `publish` and `unpublish` of crates/webrtc/sfu-core/src/room.rs keep the room consistent.
use fluvora.Prelude.{nat_eq}
use fluvora.Prelude.{
  ℕ, ◌<◌, ◌≡◌, ◌≢◌, sym, ap, ◌∙◌, subst, true, false, some, List, [], ◌∷◌, length, leb, arith, ◌⊎◌,
  inl, inr, ok, Result-cases, bind-inv, fail_if-inv,
}
use fluvora.Prelude.Sets.{contains}
use fluvora.Prelude.Maps.{lookup, insert, length-insert, is_some}
use fluvora.SfuCore.Model.{PublishedTrack, Encoding}
use fluvora.SfuCore.Outputs.{duplicate_track, resource_limit, published_track}
use fluvora.SfuCore.Room.{
  Room, IndexedLayer, ssrcs, index_encodings, validate_track, check_publish, publish,
}
use fluvora.SfuCore.Consistency.{Sourced, Consistent, found-insert, insert-same, insert-here}

-- What is found after the encodings of a track are indexed.
index_encodings-found :
    (track_id : ℕ) (es : List Encoding) (index : List (ℕ × IndexedLayer)) (ssrc : ℕ)
    (s : IndexedLayer)
    → lookup ssrc (index_encodings track_id es index) ≡ some s
    → ((s.track_id ≡ track_id) × (contains ssrc (ssrcs es) ≡ true)) ⊎ (lookup ssrc index ≡ some s)
unfolding index_encodings contains
index_encodings-found track_id [] index ssrc s h = inr h
index_encodings-found track_id (e ∷ es) index ssrc s h =
    let one : IndexedLayer = record { track_id = track_id; spatial_layer = e.spatial_layer } in
    elim (index_encodings-found track_id es (insert e.ssrc one index) ssrc s h) [
      | inl (a, b) ↦ inl (a, ground (arith, b))
      | inr g ↦ elim (found-insert e.ssrc ssrc one s index g) [
        | inl (k, v) ↦ inl (sym (ap (λ (x : IndexedLayer). x.track_id) v), ground (arith, k))
        | inr (k, v) ↦ inr v
      ]
    ]

absent :
    {V : Type 0} (k : ℕ) (m : List (ℕ × V)) (j : ℕ) (v : V)
    → is_some (lookup k m) ≡ false
    → lookup j m ≡ some v
    → k ≢ j
absent k m j v a b = λ e. missing (subst (λ (i : ℕ). is_some (lookup i m) ≡ false) e a)
  where
    missing : is_some (lookup j m) ≡ false → ⊥
    missing c = ground arith

publish-Sourced :
    (room : Room) (track : PublishedTrack)
    → Sourced room.ssrc_index room.tracks
    → is_some (lookup track.id room.tracks) ≡ false
    → Sourced
        (index_encodings track.id track.encodings room.ssrc_index)
        (insert track.id track room.tracks)
publish-Sourced room track old fresh ssrc s h =
    elim (index_encodings-found track.id track.encodings room.ssrc_index ssrc s h) [
      | inl (same, inside) ↦ (
        track,
        subst (λ (i : ℕ). lookup i (insert track.id track room.tracks) ≡ some track) (sym same)
            (insert-here track.id track room.tracks),
        inside,
      )
      | inr before ↦
          let (t, found, inside) = old ssrc s before in
          (
            t,
            insert-same track.id s.track_id track room.tracks
                  (absent track.id room.tracks s.track_id t fresh found)
                ∙ found,
            inside,
          )
    ]

checked_publish :
    (room : Room) (track : PublishedTrack) (u : Unit {0})
    → check_publish room track ≡ ok u
    → (is_some (lookup track.id room.tracks) ≡ false)
      × (length room.tracks < room.configuration.max_tracks)
unfolding check_publish
checked_publish room track u h =
    let (v, e1, h1) = bind-inv (validate_track track) _ u h in
    let (a, h2) =
      fail_if-inv (is_some (lookup track.id room.tracks)) (duplicate_track track.id) _ u h1 in
    let (b, h3) =
      fail_if-inv (leb room.configuration.max_tracks (length room.tracks))
        (resource_limit published_track) _ u h2 in
    (a, ground arith)

pub publish-Consistent :
    (room : Room) (track : PublishedTrack) → Consistent room → Consistent (publish room track).0
unfolding publish
publish-Consistent room track c = elim (Result-cases (check_publish room track)) [
  | inr (x, e) ↦ rw e c
  | inl (u, e) ↦
      let (new, few) = checked_publish room track u e in
      rw e (record {
        sourced = publish-Sourced room track c.sourced new;
        routed = c.routed;
        few_tracks = ground (arith, length-insert track.id track room.tracks, new, few);
        few_subscriptions = c.few_subscriptions;
      })
]
