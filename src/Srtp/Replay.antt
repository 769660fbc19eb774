-- ===== src/Srtp/Replay.antt =====
-- `ReplayWindow` and `estimate_index` (crates/webrtc/srtp/src/replay.rs), and `OutboundRtpState`
-- (crates/webrtc/srtp/src/context.rs).
use Prim.Native.Nat.{bit_and, bit_or}
use fluvora.Prelude.{
  ℕ, ◌+◌, ◌-◌, ◌*◌, ◌/◌, ◌%◌, ◌^◌, Option, none, some, Bool, false, not, ◌&&◌, ltb, leb, ◌==◌,
  if◌then◌else◌, Result, ok, err,
}
use fluvora.Prelude.Words.{saturating_add}
use fluvora.Srtp.Errors.{
  SrtpError, replay_detected, packet_too_old, non_monotonic_sequence, packet_index_exhausted,
}

pub record ReplayWindow : Type 0 where
  pub maximum : Option ℕ
  pub bitmap : ℕ

unfoldable pub empty_window : ReplayWindow
empty_window = record { maximum = none; bitmap = 0 }

unfoldable pub check_below : ReplayWindow → ℕ → ℕ → Result SrtpError (Unit {0})
check_below w maximum index =
    if ltb maximum index
    then ok tt
    else if leb 64 (maximum - index)
    then err packet_too_old
    else if not (bit_and w.bitmap (2 ^ (maximum - index)) == 0)
    then err replay_detected
    else ok tt

-- The match on `self.maximum`.
unfoldable pub check_at : Option ℕ → ReplayWindow → ℕ → Result SrtpError (Unit {0})
unfolding check_below
check_at none w index = ok tt
check_at (some maximum) w index = check_below w maximum index

unfoldable pub check : ReplayWindow → ℕ → Result SrtpError (Unit {0})
unfolding check_at
check w index = check_at w.maximum w index

-- A shift of a `u64` takes its distance modulo 64 and drops the high bits.
unfoldable pub accept_below : ReplayWindow → ℕ → ℕ → ReplayWindow
accept_below w maximum index =
    if ltb maximum index
    then record {
      maximum = some index;
      bitmap =
          if leb 64 (index - maximum)
          then 1
          else bit_or (w.bitmap * 2 ^ (index - maximum) % 2 ^ 64) 1;
    }
    else record w { bitmap = bit_or w.bitmap (2 ^ ((maximum - index) % 64)) }

unfoldable pub accept_at : Option ℕ → ReplayWindow → ℕ → ReplayWindow
unfolding accept_below
accept_at none w index = record { maximum = some index; bitmap = 1 }
accept_at (some maximum) w index = accept_below w maximum index

unfoldable pub accept : ReplayWindow → ℕ → ReplayWindow
unfolding accept_at
accept w index = accept_at w.maximum w index

unfoldable pub estimate_index : Option ℕ → ℕ → ℕ
estimate_index none sequence_number = sequence_number
estimate_index (some highest) sequence_number =
    let modulus : ℕ = 2 ^ 16 in
    let half = modulus / 2 in
    let base = highest - highest % modulus in
    let candidate = base + sequence_number in
    if ltb (saturating_add 64 candidate half) highest
    then saturating_add 64 candidate modulus
    else if ltb (saturating_add 64 highest half) candidate && leb modulus candidate
    then candidate - modulus
    else candidate

abbrev pub max_srtp_index : ℕ
max_srtp_index = 2 ^ 48 - 1

-- `self.highest_index.is_some_and(|highest| index <= highest)`
abbrev pub at_most : Option ℕ → ℕ → Bool
at_most none index = false
at_most (some highest) index = leb index highest

-- `OutboundRtpState::advance`, the state being its one field `highest_index`.
unfoldable pub advance : Option ℕ → ℕ → Option ℕ × Result SrtpError ℕ
advance highest_index sequence_number =
    let index = estimate_index highest_index sequence_number in
    if at_most highest_index index
    then (highest_index, err non_monotonic_sequence)
    else if ltb max_srtp_index index
    then (highest_index, err packet_index_exhausted)
    else (some index, ok index)
