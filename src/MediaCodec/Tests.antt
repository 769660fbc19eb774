-- ===== src/MediaCodec/Tests.antt =====
-- Runs of payload inspection, and its theorem at a concrete input.
use fluvora.Prelude.{ℕ, ◌≡◌, refl, true, false, none, some, List, [], ◌∷◌, ok, err, arith}
use fluvora.Prelude.Fields.{read_field}
use fluvora.SfuCore.Model.{vp8, vp9, h264, PayloadInfo}
use fluvora.MediaCodec.Inspect.{
  inspect_payload, inspect_vp8, vp8_keyframe, inspect_vp9, inspect_h264, stap_a_units,
  invalid_aggregation_unit,
}
use fluvora.MediaCodec.Facts.{StartsFrame, inspect_payload-StartsFrame}

abbrev vp8_payload : List ℕ
vp8_payload = 0x90 ∷ 0x20 ∷ 0x80 ∷ 0x00 ∷ []

abbrev vp8_info : PayloadInfo
vp8_info = record {
  start_of_frame = true;
  end_of_frame = true;
  keyframe = true;
  temporal_id = some 2;
  spatial_id = none;
}

inspect_vp8_keyframe : inspect_payload vp8 vp8_payload true ≡ ok vp8_info
unfolding inspect_payload inspect_vp8 vp8_keyframe
inspect_vp8_keyframe = refl

-- An IDR unit inside an aggregation packet.
inspect_stap_a :
    inspect_payload h264 (24 ∷ 0 ∷ 2 ∷ 0x67 ∷ 1 ∷ 0 ∷ 2 ∷ 0x65 ∷ 2 ∷ []) true
    ≡ ok (record {
      start_of_frame = true;
      end_of_frame = true;
      keyframe = true;
      temporal_id = none;
      spatial_id = none;
    })
unfolding inspect_payload inspect_h264 stap_a_units read_field
inspect_stap_a = refl

inspect_stap_a_empty : inspect_payload h264 (24 ∷ []) true ≡ err invalid_aggregation_unit
unfolding inspect_payload inspect_h264 stap_a_units
inspect_stap_a_empty = refl

inspect_inter_frame :
    inspect_payload vp9 (0x7c ∷ 0x64 ∷ 0x80 ∷ 0 ∷ []) false
    ≡ ok (record {
      start_of_frame = true;
      end_of_frame = true;
      keyframe = false;
      temporal_id = some 3;
      spatial_id = some 2;
    })
unfolding inspect_payload inspect_vp9
inspect_inter_frame = refl

inspect_payload-StartsFrame_example : StartsFrame vp8_info
unfolding inspect_payload inspect_vp8 vp8_keyframe
inspect_payload-StartsFrame_example =
    inspect_payload-StartsFrame vp8 vp8_payload true vp8_info (λ e. ground arith) refl
