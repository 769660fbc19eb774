-- ===== src/SfuCore/DownTrack.antt =====
-- One subscriber's copy of a track: crates/webrtc/sfu-core/src/down_track.rs. Each operation
-- returns its answer with the down-track as it leaves it, after an error too.
use fluvora.Prelude.{
  ℕ, ◌+◌, ◌-◌, ◌/◌, ◌%◌, ◌^◌, max, Bool, true, false, ◌&&◌, Option, none, some, List, [], ◌∷◌, ◌++◌,
  ltb, leb, ◌==◌, if◌then◌else◌, length, filter_map, Result, ok, err,
}
use fluvora.Rtp.Errors.{RtpError}
use fluvora.Rtp.Packet.{Packet, parse}
use fluvora.SfuCore.Model.{
  MediaKind, audio, video, PublishedTrack, Layer, SubscriptionConfig, ForwardedPacket,
  LayerSwitched,
}

pub record CachedPacket : Type 0 where
  pub inserted_at : ℕ
  pub packet : ForwardedPacket

pub record DownTrack : Type 0 where
  pub configuration : SubscriptionConfig
  pub target_layer : Layer
  pub selected_spatial : Option ℕ
  pub current_input_ssrc : Option ℕ
  pub input_timestamp_base : ℕ
  pub output_timestamp_base : ℕ
  pub last_output_timestamp : Option ℕ
  pub timestamp_step : ℕ
  pub next_sequence_number : ℕ
  pub cache : List CachedPacket
  pub cache_capacity : ℕ
  pub cache_age : ℕ

pub data ForwardDecision : Type 0 where
  forwarded : ForwardedPacket → Option LayerSwitched → ForwardDecision
  -- Whether it waits for a keyframe.
  dropped : Bool → ForwardDecision

-- `option == Some(n)`
abbrev pub is_some_of : ℕ → Option ℕ → Bool
is_some_of n none = false
is_some_of n (some m) = m == n

abbrev pub cadence : MediaKind → ℕ
cadence audio = 50
cadence video = 30

unfoldable pub new_down_track : SubscriptionConfig → PublishedTrack → ℕ → ℕ → DownTrack
new_down_track configuration track cache_capacity cache_age = record {
  configuration = configuration;
  target_layer = configuration.initial_layer;
  selected_spatial = none;
  current_input_ssrc = none;
  input_timestamp_base = 0;
  output_timestamp_base = configuration.initial_timestamp;
  last_output_timestamp = none;
  timestamp_step = max (track.clock_rate / cadence track.kind) 1;
  next_sequence_number = configuration.initial_sequence_number;
  cache = [];
  cache_capacity = cache_capacity;
  cache_age = cache_age;
}

unfoldable pub set_target_layer : Layer → DownTrack → Bool × DownTrack
set_target_layer layer d =
    if d.target_layer.spatial == layer.spatial && d.target_layer.temporal == layer.temporal
    then (false, d)
    else (true, record d { target_layer = layer })

abbrev pub wrapping_add32 : ℕ → ℕ → ℕ
wrapping_add32 a b = (a + b) % 2 ^ 32

-- On two values below `2 ^ 32`.
abbrev pub wrapping_sub32 : ℕ → ℕ → ℕ
wrapping_sub32 a b = (a + 2 ^ 32 - b) % 2 ^ 32

abbrev pub unwrap_or {ℓ} : {A : Type ℓ} → A → Option A → A
unwrap_or a none = a
unwrap_or a (some b) = b

-- The two bases after the switch test of `rewrite_timestamp`, and the output timestamp.
unfoldable pub rebase : ℕ → Bool → Option ℕ → DownTrack → ℕ × DownTrack
rebase input switched none d = (d.output_timestamp_base, record d { input_timestamp_base = input })
rebase input true (some ssrc) d =
    let base =
      wrapping_add32 (unwrap_or d.output_timestamp_base d.last_output_timestamp) d.timestamp_step in
    (base, record d { input_timestamp_base = input; output_timestamp_base = base })
rebase input false (some ssrc) d =
    (wrapping_add32 d.output_timestamp_base (wrapping_sub32 input d.input_timestamp_base), d)

unfoldable pub next_step : ℕ → Option ℕ → ℕ → ℕ
next_step output none old = old
next_step output (some previous) old =
    let step = wrapping_sub32 output previous in if ltb 0 step && ltb step 900000 then step else old

unfoldable pub rewrite_timestamp : ℕ → Bool → DownTrack → ℕ × DownTrack
unfolding rebase next_step
rewrite_timestamp input switched d =
    let (output, d') = rebase input switched d.current_input_ssrc d in
    (
      output,
      record d' {
        timestamp_step = next_step output d'.last_output_timestamp d'.timestamp_step;
        last_output_timestamp = some output;
      },
    )

unfoldable pub expire : ℕ → ℕ → List CachedPacket → List CachedPacket
expire now age [] = []
expire now age (c ∷ cs) = if ltb age (now - c.inserted_at) then expire now age cs else c ∷ cs

unfoldable pub trim : ℕ → List CachedPacket → List CachedPacket
trim capacity [] = []
trim capacity (c ∷ cs) = if leb capacity (length (c ∷ cs)) then trim capacity cs else c ∷ cs

unfoldable pub expire_cache : ℕ → DownTrack → DownTrack
unfolding expire
expire_cache now d = record d { cache = expire now d.cache_age d.cache }

unfoldable pub store : ℕ → ForwardedPacket → DownTrack → DownTrack
unfolding trim expire_cache
store now packet d =
    let e = expire_cache now d in
    if e.cache_capacity == 0 then e else record e {
      cache = trim e.cache_capacity e.cache ++ record { inserted_at = now; packet = packet } ∷ [];
    }

-- The last cached packet with the sequence number, as a retransmission; a packet that does not
-- parse is passed over.
abbrev pub sequence_of : Result RtpError Packet → Option ℕ
sequence_of (ok p) = some p.header.sequence_number
sequence_of (err e) = none

unfoldable pub cached : List CachedPacket → ℕ → Option ForwardedPacket
unfolding parse
cached [] requested = none
cached (c ∷ cs) requested = elim (cached cs requested) [
  | some p ↦ some p
  | none ↦
      if is_some_of requested (sequence_of (parse c.packet.packet))
      then some (record c.packet { retransmission = true })
      else none
]

unfoldable pub retransmit : ℕ → List ℕ → DownTrack → List ForwardedPacket × DownTrack
unfolding expire_cache cached
retransmit now sequence_numbers d =
    let e = expire_cache now d in (filter_map (cached e.cache) sequence_numbers, e)
