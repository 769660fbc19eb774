-- ===== src/Congestion/Tests.antt =====
-- Runs of the layer selector, and its theorem at a concrete input.
use fluvora.Prelude.{◌*◌, ◌^◌, ◌≡◌, refl, some, [], ◌∷◌}
use fluvora.Prelude.Sorting.{sort_by_key, place}
use fluvora.SfuCore.Model.{Layer}
use fluvora.Congestion.Selector.{LayerOption, LayerSelector, default_selector, affordable, select}
use fluvora.Congestion.Best.{by_bitrate, Best}

abbrev low_layer : Layer
low_layer = record { spatial = 0; temporal = 2 }

abbrev high_layer : Layer
high_layer = record { spatial = 1; temporal = 2 }

abbrev low_option : LayerOption
low_option = record { layer = low_layer; minimum_bitrate_bps = 300 }

abbrev high_option : LayerOption
high_option = record { layer = high_layer; minimum_bitrate_bps = 1000 }

abbrev waiting : LayerSelector
waiting = record default_selector {
  current = some low_layer;
  upgrade_candidate = some (high_layer, 0);
}

upgrade_run : (select (2 * 10 ^ 9) (high_option ∷ low_option ∷ []) 1200 waiting).0 ≡ some high_layer
unfolding select sort_by_key place
upgrade_run = refl

downgrade_run :
    (select 0
      (high_option ∷ low_option ∷ [])
      500
      (record default_selector { current = some high_layer })).0
    ≡ some low_layer
unfolding select sort_by_key place
downgrade_run = refl

high_affordable : affordable 1200 (by_bitrate (high_option ∷ low_option ∷ [])) ≡ some high_option
unfolding affordable sort_by_key place
high_affordable = refl
