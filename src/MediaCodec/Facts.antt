-- ===== src/MediaCodec/Facts.antt =====
-- What `inspect_payload` (crates/webrtc/media-codec/src/lib.rs) promises of keyframes.
use Prim.Native.Nat.{bit_and}
use fluvora.Prelude.{
  ℕ, ◌≡◌, ◌≢◌, refl, ◌∙◌, subst, Bool, true, false, not, ◌&&◌, List, ◌==◌, if◌then◌else◌, length,
  ok, bind-inv, fail_if-inv, ok-injective, &&-inv,
}
use fluvora.SfuCore.Model.{Codec, opus, vp8, vp9, h264, av1, unknown, PayloadInfo}
use fluvora.MediaCodec.Inspect.{
  has, first_byte, truncated_descriptor, skip_picture_id, vp8_extension, vp8_keyframe, inspect_vp8,
  vp9_layers, skip_references, parse_vp9_scalability_structure, require_position, inspect_vp9,
  inspect_av1, inspect_payload,
}

-- A packet of a keyframe that a switch may start at begins its frame.
abbrev pub StartsFrame : PayloadInfo → Type 0
StartsFrame info = info.keyframe ≡ true → info.start_of_frame ≡ true

vp8_keyframe-starts :
    (b : Bool) (payload : List ℕ) (position : ℕ) (k : Bool)
    → vp8_keyframe b payload position ≡ ok k
    → k ≡ true
    → b ≡ true
unfolding vp8_keyframe
vp8_keyframe-starts true payload position k h e = refl
vp8_keyframe-starts false payload position k h e = ok-injective h ∙ e

inspect_vp8-StartsFrame :
    (payload : List ℕ) (marker : Bool) (info : PayloadInfo)
    → inspect_vp8 payload marker ≡ ok info
    → StartsFrame info
unfolding inspect_vp8
inspect_vp8-StartsFrame payload marker info h =
    let (descriptor, e1, h1) = bind-inv (first_byte payload) _ info h in
    let (extension, e2, h2) = bind-inv (vp8_extension (has descriptor 0x80) payload) _ info h1 in
    let first = has descriptor 0x10 && bit_and descriptor 0x0f == 0 in
    let (keyframe, e3, h3) = bind-inv (vp8_keyframe first payload extension.1) _ info h2 in
    subst StartsFrame (ok-injective h3) (vp8_keyframe-starts first payload extension.1 keyframe e3)

inspect_av1-StartsFrame :
    (payload : List ℕ) (marker : Bool) (info : PayloadInfo)
    → inspect_av1 payload marker ≡ ok info
    → StartsFrame info
unfolding inspect_av1
inspect_av1-StartsFrame payload marker info h =
    let (aggregation, e1, h1) = bind-inv (first_byte payload) _ info h in
    let (few, h2) = fail_if-inv (length payload == 1) truncated_descriptor _ info h1 in
    subst StartsFrame (ok-injective h2)
      λ k. (&&-inv (not (has aggregation 0x80)) (has aggregation 0x08) k).0

inspect_vp9-StartsFrame :
    (payload : List ℕ) (marker : Bool) (info : PayloadInfo)
    → inspect_vp9 payload marker ≡ ok info
    → StartsFrame info
unfolding inspect_vp9
inspect_vp9-StartsFrame payload marker info h =
    let (d, e1, h1) = bind-inv (first_byte payload) _ info h in
    let (p1, e2, h2) = bind-inv (skip_picture_id (has d 0x80) payload 1) _ info h1 in
    let (layers, e3, h3) = bind-inv (vp9_layers (has d 0x20) (has d 0x10) payload p1) _ info h2 in
    let (p2, e4, h4) =
      bind-inv
        (if has d 0x10 && has d 0x40
          then skip_references (length payload) payload layers.2
          else ok layers.2)
        _ info h3 in
    let (p3, e5, h5) =
      bind-inv (if has d 0x02 then parse_vp9_scalability_structure payload p2 else ok p2) _ info
        h4 in
    let (u, e6, h6) = bind-inv (require_position payload p3) _ info h5 in
    subst StartsFrame (ok-injective h6) λ k. (&&-inv (has d 0x08) (not (has d 0x40)) k).0

-- Except for H.264, whose fragments carry the type of the unit in every packet, a payload that is
-- said to be of a keyframe is also said to start a frame: a forwarder that waits for a keyframe of
-- these codecs starts at the beginning of one. A payload that starts no frame, as in the later packets
-- of a keyframe, is therefore not said to be of one.
pub inspect_payload-StartsFrame :
    (codec : Codec) (payload : List ℕ) (marker : Bool) (info : PayloadInfo)
    → codec ≢ h264
    → inspect_payload codec payload marker ≡ ok info
    → StartsFrame info
unfolding inspect_payload
inspect_payload-StartsFrame opus payload marker info other h =
    subst StartsFrame (ok-injective h) λ k. refl
inspect_payload-StartsFrame vp8 payload marker info other h =
    inspect_vp8-StartsFrame payload marker info h
inspect_payload-StartsFrame vp9 payload marker info other h =
    inspect_vp9-StartsFrame payload marker info h
inspect_payload-StartsFrame h264 payload marker info other h = absurd (other refl)
inspect_payload-StartsFrame av1 payload marker info other h =
    inspect_av1-StartsFrame payload marker info h
inspect_payload-StartsFrame unknown payload marker info other h =
    subst StartsFrame (ok-injective h) λ k. k
