-- ===== src/Prelude/Masks.antt =====
-- Masks of low bits, and a bit set above a number.
use Prim.Native.Nat.{ℕ, zero, suc, ◌+◌, ◌-◌, ◌*◌, ◌/◌, ◌%◌, ◌^◌, ◌<◌, bit_and, bit_or}
use mathlib.Core.Path.{◌≡◌, refl, ◌∙◌}
use native.Mathlib.Omega.{arith}
use native.Mathlib.Nat.{div-add-mod}
use fluvora.Prelude.Bits.{
  bit_and-halves, bit_or-halves, pow_double, pow_pos, mod_half, mod_parity, bit_and_zero_within,
}

-- `a & ((1 << w) - 1)` is the remainder.
pub bit_and-mask : (w a : ℕ) → bit_and a (2 ^ w - 1) ≡ a % 2 ^ w
bit_and-mask zero a = bit_and_zero_within a a (omega arith) ∙ omega arith
bit_and-mask (suc w) a =
    let p = pow_double w in
    let pos = pow_pos w in
    let half : (2 ^ suc w - 1) / 2 ≡ 2 ^ w - 1 = omega arith in
    let digits = div-add-mod (a % (2 * 2 ^ w)) 2 in
    let rest = bit_and-mask w (a / 2) in
    rw (bit_and-halves a (2 ^ suc w - 1), half, rest, p)
      (omega (arith, digits, pos, mod_half (2 ^ w) a pos, mod_parity (2 ^ w) a))

zero_below : (a : ℕ) → a < 2 ^ 0 → a ≡ 0
zero_below a h = omega arith

-- `a | (1 << w)` for `a` below the bit.
pub bit_or-high : (w a : ℕ) → a < 2 ^ w → bit_or a (2 ^ w) ≡ a + 2 ^ w
bit_or-high zero a h = rw (zero_below a h) refl
bit_or-high (suc w) a h =
    let p = pow_double w in
    let rest = bit_or-high w (a / 2) (omega arith) in
    let half : 2 ^ suc w / 2 ≡ 2 ^ w = omega arith in
    rw (bit_or-halves a (2 ^ suc w), half, rest) (omega arith)
