-- ===== src/Congestion/Selector.antt =====
-- `LayerSelector`: crates/webrtc/congestion-control/src/layer.rs. `sort_unstable_by_key` is a
-- stable sort here, one of the orders that it may give options of the same bitrate.
use fluvora.Prelude.{
  ℕ, ◌-◌, ◌*◌, ◌/◌, ◌^◌, Bool, ◌&&◌, Option, none, some, List, [], ◌∷◌, ltb, leb, ◌==◌,
  if◌then◌else◌, find, head?,
}
use fluvora.Prelude.Words.{saturating_mul}
use fluvora.Prelude.Sorting.{sort_by_key}
use fluvora.SfuCore.Model.{Layer}

pub record LayerOption : Type 0 where
  pub layer : Layer
  pub minimum_bitrate_bps : ℕ

pub record LayerSelector : Type 0 where
  pub current : Option Layer
  -- The candidate with the time since which it is one.
  pub upgrade_candidate : Option (Layer × ℕ)
  pub upgrade_hold : ℕ
  pub upgrade_headroom_percent : ℕ

-- Two seconds are `2 * 10 ^ 9` nanoseconds.
abbrev pub default_selector : LayerSelector
default_selector = record {
  current = none;
  upgrade_candidate = none;
  upgrade_hold = 2 * 10 ^ 9;
  upgrade_headroom_percent = 120;
}

abbrev pub layer_beq : Layer → Layer → Bool
layer_beq a b = a.spatial == b.spatial && a.temporal == b.temporal

unfoldable pub layer_rate : List LayerOption → Layer → Option ℕ
layer_rate options layer = elim (find (λ o. layer_beq o.layer layer) options) [
  | none ↦ none
  | some o ↦ some o.minimum_bitrate_bps
]

-- The last option of a list that the target affords, so of the highest bitrate when sorted.
unfoldable pub last_affordable : ℕ → List LayerOption → Option LayerOption
last_affordable target [] = none
last_affordable target (o ∷ os) = elim (last_affordable target os) [
  | some best ↦ some best
  | none ↦ if leb o.minimum_bitrate_bps target then some o else none
]

-- The best affordable option of a sorted list, or else the cheapest.
unfoldable pub affordable : ℕ → List LayerOption → Option LayerOption
unfolding last_affordable
affordable target options = elim (last_affordable target options) [
  | some o ↦ some o
  | none ↦ head? options
]

abbrev pub rate_or_max : Option ℕ → ℕ
rate_or_max none = 2 ^ 64 - 1
rate_or_max (some rate) = rate

-- The upgrade candidate after it was seen again: committed when it is held for long enough.
unfoldable pub hold : ℕ → Layer → Option (Layer × ℕ) → LayerSelector → LayerSelector
hold now layer none s = record s { upgrade_candidate = some (layer, now) }
hold now layer (some (candidate, since)) s =
    if layer_beq candidate layer && leb s.upgrade_hold (now - since)
    then record s { current = some layer; upgrade_candidate = none }
    else if layer_beq candidate layer
    then s
    else record s { upgrade_candidate = some (layer, now) }

-- With a current layer of rate `current_rate`.
unfoldable pub adjust : ℕ → LayerOption → ℕ → ℕ → LayerSelector → LayerSelector
unfolding hold
adjust now best current_rate target s =
    if ltb best.minimum_bitrate_bps current_rate
    then record s { current = some best.layer; upgrade_candidate = none }
    else if best.minimum_bitrate_bps == current_rate
    then record s { upgrade_candidate = none }
    else if ltb target (saturating_mul 64 best.minimum_bitrate_bps s.upgrade_headroom_percent / 100)
    then record s { upgrade_candidate = none }
    else hold now best.layer s.upgrade_candidate s

unfoldable pub select_best :
    ℕ
    → List LayerOption
    → ℕ
    → Option LayerOption
    → Option Layer
    → LayerSelector
    → Option Layer × LayerSelector
unfolding adjust layer_rate
select_best now sorted target none current s = (none, s)
select_best now sorted target (some best) none s =
    (some best.layer, record s { current = some best.layer })
select_best now sorted target (some best) (some layer) s =
    let after = adjust now best (rate_or_max (layer_rate sorted layer)) target s in
    (after.current, after)

-- The answer, and the selector after the call.
unfoldable pub select : ℕ → List LayerOption → ℕ → LayerSelector → Option Layer × LayerSelector
unfolding select_best affordable
select now options target s =
    let sorted = sort_by_key (λ o. o.minimum_bitrate_bps) options in
    select_best now sorted target (affordable target sorted) s.current s
