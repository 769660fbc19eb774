-- ===== src/SfuCore/Room.antt =====
-- `Room` of crates/webrtc/sfu-core/src/room.rs: tracks and subscriptions. Each operation returns
-- the room as it leaves it.
use fluvora.Prelude.{nat_eq}
use fluvora.Prelude.{
  ℕ, ◌-◌, Bool, true, false, not, ◌&&◌, ◌||◌, Option, none, some, List, [], ◌∷◌, ◌++◌, map, any,
  find, is_empty, length, ltb, leb, ◌==◌, if◌then◌else◌, Result, ok, err, ◌>>=◌, ◌>>◌, fail_if,
  ok_or,
}
use fluvora.Prelude.Sets
use fluvora.Prelude.Maps
use fluvora.Prelude.Maps.{is_some}
use fluvora.Datagram.Classify.{is_rtcp_mux_safe_payload_type}
use fluvora.SfuCore.Model.{is_video, Encoding, PublishedTrack, Layer, SubscriptionConfig}
use fluvora.SfuCore.Outputs.{
  RoomConfig, SfuEvent, published_track, subscription, SfuError, duplicate_track,
  duplicate_subscription, unknown_track, unknown_subscription, unauthorized_participant,
  invalid_encodings, invalid_payload_type, unknown_spatial_layer, resource_limit,
}
use fluvora.SfuCore.DownTrack
use fluvora.SfuCore.DownTrack.{DownTrack, new_down_track}

-- A value of `ssrc_index`.
pub record IndexedLayer : Type 0 where
  pub track_id : ℕ
  pub spatial_layer : ℕ

pub record Room : Type 0 where
  pub configuration : RoomConfig
  pub tracks : List (ℕ × PublishedTrack)
  pub ssrc_index : List (ℕ × IndexedLayer)
  pub subscriptions : List (ℕ × DownTrack)
  pub track_subscriptions : List (ℕ × List ℕ)
  pub output_ssrc_index : List (ℕ × ℕ)
  pub last_pli : List (ℕ × ℕ)

unfoldable pub new : RoomConfig → Room
new configuration = record {
  configuration = configuration;
  tracks = [];
  ssrc_index = [];
  subscriptions = [];
  track_subscriptions = [];
  output_ssrc_index = [];
  last_pli = [];
}

-- `PublishedTrack::encoding`
unfoldable pub encoding : PublishedTrack → ℕ → Option Encoding
encoding track spatial_layer = find (λ e. e.spatial_layer == spatial_layer) track.encodings

abbrev pub ssrcs : List Encoding → List ℕ
ssrcs encodings = map (λ e. e.ssrc) encodings

-- The members of a list, each once.
abbrev pub set_of : List ℕ → List ℕ
set_of [] = []
set_of (x ∷ xs) = Sets.insert x (set_of xs)

unfoldable pub validate_track : PublishedTrack → Result SfuError (Unit {0})
unfolding is_rtcp_mux_safe_payload_type
validate_track track = do
  fail_if (is_empty track.encodings || track.clock_rate == 0) invalid_encodings
  fail_if (not (is_rtcp_mux_safe_payload_type track.payload_type))
      (invalid_payload_type track.payload_type)
  let unique_ssrcs = set_of (ssrcs track.encodings)
  let unique_layers = set_of (map (λ e. e.spatial_layer) track.encodings)
  fail_if
      (not (length unique_ssrcs == length track.encodings)
        || not (length unique_layers == length track.encodings))
      invalid_encodings

unfoldable pub index_encodings :
    ℕ → List Encoding → List (ℕ × IndexedLayer) → List (ℕ × IndexedLayer)
index_encodings track_id [] index = index
index_encodings track_id (e ∷ es) index =
    index_encodings track_id es
      (Maps.insert e.ssrc (record { track_id = track_id; spatial_layer = e.spatial_layer }) index)

unfoldable pub check_publish : Room → PublishedTrack → Result SfuError (Unit {0})
check_publish room track = do
  validate_track track
  fail_if (is_some (Maps.lookup track.id room.tracks)) (duplicate_track track.id)
  fail_if (leb room.configuration.max_tracks (length room.tracks)) (resource_limit published_track)
  fail_if (any (λ e. is_some (Maps.lookup e.ssrc room.ssrc_index)) track.encodings)
      invalid_encodings

-- The change of the room after the checks of an operation.
abbrev pub commit :
    Room → Result SfuError (Unit {0}) → (Unit {0} → Room) → Room × Result SfuError (Unit {0})
commit room (ok u) change = (change u, ok tt)
commit room (err e) change = (room, err e)

unfoldable pub publish : Room → PublishedTrack → Room × Result SfuError (Unit {0})
publish room track = commit room (check_publish room track) λ u. record room {
  ssrc_index = index_encodings track.id track.encodings room.ssrc_index;
  tracks = Maps.insert track.id track room.tracks;
}

-- The subscriptions of a track without one; an empty list is dropped.
unfoldable pub forget : ℕ → ℕ → Option (List ℕ) → List (ℕ × List ℕ) → List (ℕ × List ℕ)
forget id track_id none subscriptions = subscriptions
forget id track_id (some ids) subscriptions =
    let left = Sets.remove id ids in
    if is_empty left
    then Maps.remove track_id subscriptions
    else Maps.insert track_id left subscriptions

unfoldable pub remove_found : Room → ℕ → Option DownTrack → Room × Bool
unfolding forget
remove_found room id none = (room, false)
remove_found room id (some d) =
    let track_id = d.configuration.track_id in
    (
      record room {
        subscriptions = Maps.remove id room.subscriptions;
        output_ssrc_index = Maps.remove d.configuration.output_ssrc room.output_ssrc_index;
        track_subscriptions =
            forget id track_id (Maps.lookup track_id room.track_subscriptions)
              room.track_subscriptions;
      },
      true,
    )

unfoldable pub remove_subscription : Room → ℕ → Room × Bool
remove_subscription room id = remove_found room id (Maps.lookup id room.subscriptions)

unfoldable pub unsubscribe : Room → ℕ → Room × Bool
unsubscribe room id = remove_subscription room id

unfoldable pub remove_keys {ℓ} : {V : Type ℓ} → List ℕ → List (ℕ × V) → List (ℕ × V)
remove_keys [] entries = entries
remove_keys (k ∷ ks) entries = remove_keys ks (Maps.remove k entries)

unfoldable pub remove_all : List ℕ → Room → Room
remove_all [] room = room
remove_all (id ∷ ids) room = remove_all ids (remove_subscription room id).0

abbrev pub or_empty : Option (List ℕ) → List ℕ
or_empty none = []
or_empty (some ids) = ids

unfoldable pub unpublish_found : Room → ℕ → Option PublishedTrack → Room × Bool
unpublish_found room track_id none = (room, false)
unpublish_found room track_id (some track) = (
  remove_all (or_empty (Maps.lookup track_id room.track_subscriptions)) (record room {
    tracks = Maps.remove track_id room.tracks;
    ssrc_index = remove_keys (ssrcs track.encodings) room.ssrc_index;
    last_pli = remove_keys (ssrcs track.encodings) room.last_pli;
    track_subscriptions = Maps.remove track_id room.track_subscriptions;
  }),
  true,
)

unfoldable pub unpublish : Room → ℕ → Room × Bool
unpublish room track_id = unpublish_found room track_id (Maps.lookup track_id room.tracks)

-- The checks of `subscribe`, which find the track.
unfoldable pub check_subscribe : Room → SubscriptionConfig → Result SfuError PublishedTrack
unfolding is_rtcp_mux_safe_payload_type
check_subscribe room c = do
  fail_if (is_some (Maps.lookup c.id room.subscriptions)) (duplicate_subscription c.id)
  fail_if (is_some (Maps.lookup c.output_ssrc room.output_ssrc_index)) invalid_encodings
  fail_if (not (is_rtcp_mux_safe_payload_type c.output_payload_type))
      (invalid_payload_type c.output_payload_type)
  fail_if (leb room.configuration.max_subscriptions (length room.subscriptions))
      (resource_limit subscription)
  track ← ok_or (Maps.lookup c.track_id room.tracks) (unknown_track c.track_id)
  fail_if (not (is_some (encoding track c.initial_layer.spatial)))
      (unknown_spatial_layer c.initial_layer.spatial)
  ok track

unfoldable pub subscribe_to :
    Room → SubscriptionConfig → Result SfuError PublishedTrack → Room × Result SfuError (Unit {0})
subscribe_to room c (err e) = (room, err e)
subscribe_to room c (ok track) =
    let d =
      new_down_track c track room.configuration.retransmission_cache_packets
        room.configuration.retransmission_cache_age in
    (
      record room {
        output_ssrc_index = Maps.insert c.output_ssrc c.id room.output_ssrc_index;
        track_subscriptions =
            Maps.insert c.track_id
              (or_empty (Maps.lookup c.track_id room.track_subscriptions) ++ (c.id ∷ []))
              room.track_subscriptions;
        subscriptions = Maps.insert c.id d room.subscriptions;
      },
      ok tt,
    )

unfoldable pub subscribe : Room → SubscriptionConfig → Room × Result SfuError (Unit {0})
subscribe room c = subscribe_to room c (check_subscribe room c)

-- `is_some_and(|last| now.saturating_sub(last) < throttle)`
abbrev pub throttled : ℕ → ℕ → Option ℕ → Bool
throttled now throttle none = false
throttled now throttle (some last) = ltb (now - last) throttle

unfoldable pub maybe_pli : Room → ℕ → ℕ → ℕ → Room × Option SfuEvent
maybe_pli room now track_id media_ssrc =
    if throttled now room.configuration.pli_throttle (Maps.lookup media_ssrc room.last_pli)
    then (room, none)
    else (
      record room { last_pli = Maps.insert media_ssrc now room.last_pli },
      some (SfuEvent.picture_loss_indication track_id media_ssrc),
    )

abbrev pub collect : Option SfuEvent → List SfuEvent
collect none = []
collect (some event) = event ∷ []

-- The part of `set_target_layer` behind the change of the down-track, by the track and by its
-- encoding.
unfoldable pub request_encoding :
    Room
    → ℕ
    → Bool
    → PublishedTrack
    → ℕ
    → Layer
    → Option Encoding
    → Room × Result SfuError (List SfuEvent)
unfolding maybe_pli
request_encoding room now changed track track_id layer none =
    (room, err (unknown_spatial_layer layer.spatial))
request_encoding room now changed track track_id layer (some e) =
    let (room', event) = maybe_pli room now track_id e.ssrc in
    if changed && is_video track.kind then (room', ok (collect event)) else (room, ok [])

unfoldable pub request_target :
    Room → ℕ → Bool → ℕ → Layer → Option PublishedTrack → Room × Result SfuError (List SfuEvent)
unfolding request_encoding encoding
request_target room now changed track_id layer none = (room, err (unknown_track track_id))
request_target room now changed track_id layer (some track) =
    request_encoding room now changed track track_id layer (encoding track layer.spatial)

unfoldable pub set_target_found :
    Room → ℕ → ℕ → ℕ → Layer → Option DownTrack → Room × Result SfuError (List SfuEvent)
unfolding request_target DownTrack.set_target_layer
set_target_found room now subscriber id layer none = (room, err (unknown_subscription id))
set_target_found room now subscriber id layer (some d) =
    let (changed, d') = DownTrack.set_target_layer layer d in
    if d.configuration.subscriber == subscriber
    then request_target (record room { subscriptions = Maps.insert id d' room.subscriptions }) now
        changed d.configuration.track_id layer (Maps.lookup d.configuration.track_id room.tracks)
    else (room, err (unauthorized_participant subscriber))

unfoldable pub set_target_layer : Room → ℕ → ℕ → ℕ → Layer → Room × Result SfuError (List SfuEvent)
unfolding set_target_found
set_target_layer room now subscriber id layer =
    set_target_found room now subscriber id layer (Maps.lookup id room.subscriptions)
