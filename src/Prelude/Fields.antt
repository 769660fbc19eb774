-- ===== src/Prelude/Fields.antt =====
-- Fields of fixed width read by position, as the parsers' `read_u16`, `read_u32` and `read_array` do.
use Prim.Native.Nat.{ℕ, ◌*◌, ◌+◌, ◌-◌, ◌^◌, ◌<◌}
use mathlib.Core.Path.{◌≡◌, refl, ap}
use mathlib.Core.Bool.{◌&&◌, true}
use mathlib.Core.Option.{some}
use mathlib.Core.List.{List, [], ◌∷◌, ◌++◌}
use native.Mathlib.Omega.{arith}
use fluvora.Prelude.Tests.{leb}
use fluvora.Prelude.Lists.{length, get_range, length-append, take-length_append, drop-length_append}
use fluvora.Prelude.Errors.{Result, ok, ok_or, map_ok}
use fluvora.Prelude.Words.{usize_bits, saturating_add}
use fluvora.Prelude.Bytes.{of_be, to_be, length-to_be, of_be-to_be}

-- `from_be_bytes(input.get(position..position.saturating_add(width)).ok_or(e)?)`
unfoldable pub read_field {ℓ} : {E : Type ℓ} → E → ℕ → List ℕ → ℕ → Result E ℕ
read_field e width input position =
    map_ok of_be (ok_or (get_range input position (saturating_add usize_bits position width)) e)

pub get_range-middle :
    (pre mid post : List ℕ) (i j : ℕ)
    → i ≡ length pre
    → j ≡ i + length mid
    → get_range (pre ++ (mid ++ post)) i j ≡ some mid
get_range-middle pre mid post i j hi hj =
    let test : (leb i j && leb j (length (pre ++ (mid ++ post)))) ≡ true =
      ground (arith, length-append pre (mid ++ post), length-append mid post) in
    let width : j - i ≡ length mid = omega arith in
    rw (test, width, hi, drop-length_append pre (mid ++ post), take-length_append mid post) refl

-- A field that stands behind `pre`.
pub read_field-at {ℓ} :
    {E : Type ℓ} (e : E) (width v : ℕ) (pre post : List ℕ) (i : ℕ)
    → i ≡ length pre
    → v < 256 ^ width
    → i + width < 2 ^ 64
    → read_field e width (pre ++ (to_be width v ++ post)) i ≡ ok v
unfolding read_field
read_field-at e width v pre post i hi hv small =
    let stop : saturating_add usize_bits i width ≡ i + length (to_be width v) =
      omega (arith, length-to_be width v) in
    let found = get_range-middle pre (to_be width v) post i (i + length (to_be width v)) hi refl in
    rw (stop, found) (ap ok (of_be-to_be width v hv))

-- A byte that stands behind `pre`.
pub read_byte-at {ℓ} :
    {E : Type ℓ} (e : E) (v : ℕ) (pre post : List ℕ) (i : ℕ)
    → i ≡ length pre
    → i + 1 < 2 ^ 64
    → read_field e 1 (pre ++ (v ∷ post)) i ≡ ok v
unfolding read_field
read_byte-at e v pre post i hi small =
    let stop : saturating_add usize_bits i 1 ≡ i + 1 = omega arith in
    let found = get_range-middle pre (v ∷ []) post i (i + 1) hi refl in
    let value : 0 * 256 + v ≡ v = omega arith in rw (stop, found) (ap ok value)
