-- ===== src/MediaCodec/Inspect.antt =====
-- Payload descriptors: crates/webrtc/media-codec/src/lib.rs. A position is threaded through the
-- steps that move it.
use Prim.Native.Nat.{bit_and}
use fluvora.Prelude.{
  ℕ, zero, suc, ◌+◌, ◌*◌, ◌/◌, Bool, true, false, not, ◌&&◌, ◌||◌, Option, none, some, List, [],
  ◌∷◌, ltb, leb, ◌==◌, if◌then◌else◌, length, get_elem?, get_range, drop, Result, ok, err, ◌>>=◌,
  ◌>>◌, fail_if, ok_or,
}
use fluvora.Prelude.Fields.{read_field}
use fluvora.Prelude.Words.{usize_bits, checked_add}
use fluvora.SfuCore.Model.{Codec, opus, vp8, vp9, h264, av1, unknown, PayloadInfo}

pub data PayloadError : Type 0 where
  empty_payload : PayloadError
  truncated_descriptor : PayloadError
  unsupported_h264_nal_type : ℕ → PayloadError
  invalid_aggregation_unit : PayloadError

-- `byte & mask != 0`
abbrev pub has : ℕ → ℕ → Bool
has byte mask = not (bit_and byte mask == 0)

abbrev pub read_byte : List ℕ → ℕ → Result PayloadError ℕ
read_byte payload position = ok_or (get_elem? payload position) truncated_descriptor

abbrev pub require_position : List ℕ → ℕ → Result PayloadError (Unit {0})
require_position payload position =
    if ltb position (length payload) then ok tt else err truncated_descriptor

abbrev pub first_byte : List ℕ → Result PayloadError ℕ
first_byte payload = ok_or (get_elem? payload 0) empty_payload

-- A picture identifier of one or two bytes, where its flag is set: the position behind it.
unfoldable pub skip_picture_id : Bool → List ℕ → ℕ → Result PayloadError ℕ
skip_picture_id false payload position = ok position
skip_picture_id true payload position = do
  picture_id ← read_byte payload position
  let position' = position + (if has picture_id 0x80 then 2 else 1)
  require_position payload position'
  ok position'

-- One byte to skip, where its flag is set.
unfoldable pub skip_byte : Bool → List ℕ → ℕ → Result PayloadError ℕ
skip_byte false payload position = ok position
skip_byte true payload position = do require_position payload (position + 1); ok (position + 1)

-- The layer byte of VP8, where one of its flags is set: the temporal layer, and the position
-- behind it.
unfoldable pub vp8_layer : ℕ → List ℕ → ℕ → Result PayloadError (Option ℕ × ℕ)
vp8_layer extension payload position =
    let read = do
      layer ← read_byte payload position
      ok ((if has extension 0x20 then some (layer / 64) else none), position + 1)
    in if has extension 0x30 then read else ok (none, position)

-- The extension of the VP8 descriptor.
unfoldable pub vp8_extension : Bool → List ℕ → Result PayloadError (Option ℕ × ℕ)
unfolding skip_picture_id skip_byte vp8_layer
vp8_extension false payload = ok (none, 1)
vp8_extension true payload = do
  extension ← read_byte payload 1
  position ← skip_picture_id (has extension 0x80) payload 2
  position ← skip_byte (has extension 0x40) payload position
  vp8_layer extension payload position

-- `first_partition_payload && read_byte(payload, position)? & 0x01 == 0`
unfoldable pub vp8_keyframe : Bool → List ℕ → ℕ → Result PayloadError Bool
vp8_keyframe false payload position = ok false
vp8_keyframe true payload position = do
  byte ← read_byte payload position
  ok (bit_and byte 0x01 == 0)

unfoldable pub inspect_vp8 : List ℕ → Bool → Result PayloadError PayloadInfo
unfolding vp8_extension
inspect_vp8 payload marker = do
  descriptor ← first_byte payload
  extension ← vp8_extension (has descriptor 0x80) payload
  let first_partition_payload = has descriptor 0x10 && bit_and descriptor 0x0f == 0
  keyframe ← vp8_keyframe first_partition_payload payload extension.1
  ok (record {
    start_of_frame = first_partition_payload;
    end_of_frame = marker;
    keyframe = keyframe;
    temporal_id = extension.0;
    spatial_id = none;
  })

-- The layer bytes of VP9, where the flag is set: the temporal and the spatial layer, and the
-- position behind them.
unfoldable pub vp9_layers : Bool → Bool → List ℕ → ℕ → Result PayloadError (Option ℕ × Option ℕ × ℕ)
unfolding skip_byte
vp9_layers false flexible payload position = ok (none, none, position)
vp9_layers true flexible payload position = do
  layer ← read_byte payload position
  position' ← skip_byte (not flexible) payload (position + 1)
  ok (some (layer / 32), some (bit_and (layer / 2) 0x07), position')

-- The loop over the references. Each round reads a byte, so the length of the payload is enough fuel,
-- and the clause for no fuel is not reached.
unfoldable pub skip_references : ℕ → List ℕ → ℕ → Result PayloadError ℕ
skip_references zero payload position = err truncated_descriptor
skip_references (suc fuel) payload position =
    let rest = skip_references fuel payload (position + 1) in
    let next = do
      reference ← read_byte payload position
      if bit_and reference 0x01 == 0 then ok (position + 1) else rest
    in next

-- The loop over the picture groups of the scalability structure.
unfoldable pub skip_groups : ℕ → List ℕ → ℕ → Result PayloadError ℕ
skip_groups zero payload position = ok position
skip_groups (suc groups) payload position = do
  group ← read_byte payload position
  let position' = position + (1 + bit_and group 0x03)
  require_position payload position'
  skip_groups groups payload position'

-- The resolutions of the spatial layers, where the flag is set.
unfoldable pub skip_resolutions : Bool → ℕ → List ℕ → ℕ → Result PayloadError ℕ
skip_resolutions false spatial_layers payload position = ok position
skip_resolutions true spatial_layers payload position = do
  position' ← ok_or (checked_add usize_bits position (spatial_layers * 4)) truncated_descriptor
  require_position payload position'
  ok position'

unfoldable pub parse_vp9_scalability_structure : List ℕ → ℕ → Result PayloadError ℕ
unfolding skip_groups skip_resolutions
parse_vp9_scalability_structure payload position = do
  header ← read_byte payload position
  position' ← skip_resolutions (has header 0x10) (header / 32 + 1) payload (position + 1)
  let with_groups = do
    groups ← read_byte payload position'
    skip_groups groups payload (position' + 1)
  if has header 0x08 then with_groups else ok position'

unfoldable pub inspect_vp9 : List ℕ → Bool → Result PayloadError PayloadInfo
unfolding skip_picture_id vp9_layers skip_references parse_vp9_scalability_structure
inspect_vp9 payload marker = do
  descriptor ← first_byte payload
  let inter_picture = has descriptor 0x40
  let flexible = has descriptor 0x10
  let begins_frame = has descriptor 0x08
  let ends_frame = has descriptor 0x04
  position ← skip_picture_id (has descriptor 0x80) payload 1
  layers ← vp9_layers (has descriptor 0x20) flexible payload position
  position ←
      if flexible && inter_picture
      then skip_references (length payload) payload layers.2
      else ok layers.2
  position ←
      if has descriptor 0x02 then parse_vp9_scalability_structure payload position else ok position
  require_position payload position
  ok (record {
    start_of_frame = begins_frame;
    end_of_frame = ends_frame || marker;
    keyframe = begins_frame && not inter_picture;
    temporal_id = layers.0;
    spatial_id = layers.1;
  })

-- The loop over the units, whose bytes are `rest`: whether one is a keyframe's, and how many there
-- are. Each unit takes a byte at least, so the length of the bytes is enough fuel, and the clause for
-- no fuel is not reached.
unfoldable pub stap_a_units : ℕ → Bool → ℕ → List ℕ → Result PayloadError (Bool × ℕ)
stap_a_units fuel keyframe units [] = ok (keyframe, units)
stap_a_units zero keyframe units (b ∷ rest) = err invalid_aggregation_unit
stap_a_units (suc fuel) keyframe units (b ∷ rest) = do
  len ← read_field truncated_descriptor 2 (b ∷ rest) 0
  fail_if (len == 0) invalid_aggregation_unit
  unit ← ok_or (get_range (b ∷ rest) 2 (2 + len)) invalid_aggregation_unit
  head ← ok_or (get_elem? unit 0) invalid_aggregation_unit
  stap_a_units fuel (keyframe || bit_and head 0x1f == 5) (units + 1) (drop (2 + len) (b ∷ rest))

unfoldable pub inspect_h264_stap_a : List ℕ → Bool → Result PayloadError PayloadInfo
inspect_h264_stap_a payload marker = do
  units ← stap_a_units (length payload) false 0 (drop 1 payload)
  fail_if (units.1 == 0) invalid_aggregation_unit
  ok (record {
    start_of_frame = true;
    end_of_frame = marker;
    keyframe = units.0;
    temporal_id = none;
    spatial_id = none;
  })

unfoldable pub inspect_h264 : List ℕ → Bool → Result PayloadError PayloadInfo
unfolding inspect_h264_stap_a
inspect_h264 payload marker = do
  nal_header ← first_byte payload
  let nal_type = bit_and nal_header 0x1f
  let single : PayloadInfo = record {
    start_of_frame = true;
    end_of_frame = marker;
    keyframe = nal_type == 5;
    temporal_id = none;
    spatial_id = none;
  }
  let fragment = do
    fu_header ← read_byte payload 1
    ok (record {
      start_of_frame = has fu_header 0x80;
      end_of_frame = has fu_header 0x40 || marker;
      keyframe = bit_and fu_header 0x1f == 5;
      temporal_id = none;
      spatial_id = none;
    })
  if leb 1 nal_type && leb nal_type 23
      then ok single
      else if nal_type == 24
      then inspect_h264_stap_a payload marker
      else if nal_type == 28
      then fragment
      else err (unsupported_h264_nal_type nal_type)

unfoldable pub inspect_av1 : List ℕ → Bool → Result PayloadError PayloadInfo
inspect_av1 payload marker = do
  aggregation ← first_byte payload
  let continues_previous = has aggregation 0x80
  let continues_next = has aggregation 0x40
  let new_coded_sequence = has aggregation 0x08
  fail_if (length payload == 1) truncated_descriptor
  ok (record {
    start_of_frame = not continues_previous;
    end_of_frame = not continues_next || marker;
    keyframe = not continues_previous && new_coded_sequence;
    temporal_id = none;
    spatial_id = none;
  })

unfoldable pub inspect_payload : Codec → List ℕ → Bool → Result PayloadError PayloadInfo
inspect_payload opus payload marker = ok (record {
  start_of_frame = true;
  end_of_frame = true;
  keyframe = true;
  temporal_id = none;
  spatial_id = none;
})
inspect_payload vp8 payload marker = inspect_vp8 payload marker
inspect_payload vp9 payload marker = inspect_vp9 payload marker
inspect_payload h264 payload marker = inspect_h264 payload marker
inspect_payload av1 payload marker = inspect_av1 payload marker
inspect_payload unknown payload marker = ok (record {
  start_of_frame = false;
  end_of_frame = marker;
  keyframe = false;
  temporal_id = none;
  spatial_id = none;
})
