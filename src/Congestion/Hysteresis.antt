-- ===== src/Congestion/Hysteresis.antt =====
-- Downgrades are immediate, upgrades wait: what `LayerSelector::select` promises.
use fluvora.Prelude.{ℕ, ◌-◌, ◌/◌, ◌<◌, ◌≤◌, ◌≡◌, ◌⊎◌, true, false, Option, none, some}
use fluvora.Prelude.Words.{saturating_mul}
use fluvora.SfuCore.Model.{Layer}
use fluvora.Congestion.Best.{Best}
use fluvora.Congestion.Selector.{LayerOption, LayerSelector, layer_beq}

-- The layer has been the candidate for as long as an upgrade is held.
pub Held : ℕ → Layer → Option (Layer × ℕ) → LayerSelector → Type 0
Held now layer none s = true ≡ false
Held now layer (some (candidate, since)) s =
    (layer_beq candidate layer ≡ true) × (s.upgrade_hold ≤ now - since)

-- Why a selection moves to the best option: it is cheaper than the current one, or it is dearer,
-- the target has the headroom, and it was the candidate for long enough.
pub Justified : ℕ → LayerOption → ℕ → ℕ → LayerSelector → Type 0
Justified now best current_rate target s =
    (best.minimum_bitrate_bps < current_rate)
    ⊎ ((current_rate < best.minimum_bitrate_bps)
        × (saturating_mul 64 best.minimum_bitrate_bps s.upgrade_headroom_percent / 100 ≤ target)
        × Held now best.layer s.upgrade_candidate s)
