-- ===== src/Prelude/Bits.antt =====
-- Single bits of a number, and the bitwise operations through them.
use Prim.Native.Nat.{
  ℕ, zero, suc, ◌+◌, ◌-◌, ◌*◌, ◌/◌, ◌%◌, ◌^◌, ◌≤◌, ◌<◌, min, max, bit_and, bit_or, digits,
  bit_and-bitwise, bit_or-bitwise,
}
use mathlib.Core.Path.{◌≡◌, refl, sym, ap, ◌∙◌}
use mathlib.Core.Bool.{Bool, true, false, ◌||◌}
use native.Mathlib.Omega.{arith}
use native.Mathlib.Nat.{pow-suc, mod-lt, mod-eq_of_lt, div-add-mod, mul-add-mod_self_right}
use fluvora.Prelude.Tests.{◌==◌, ltb, leb, if◌then◌else◌}

-- Bit `d` of `a`, counted from the lowest.
unfoldable pub bit : ℕ → ℕ → Bool
bit a zero = a % 2 == 1
bit a (suc d) = bit (a / 2) d

-- The definition of a bitwise operation, by its effect on the lowest digit, needs no more fuel than
-- its first argument.
module _ (stop : ℕ → ℕ) (join : ℕ → ℕ → ℕ) where
  enough_digits : (m n a b : ℕ) → a ≤ m → a ≤ n → digits stop join m a b ≡ digits stop join n a b
  enough_digits zero zero zero b p q = refl
  enough_digits (suc m) zero zero b p q = refl
  enough_digits zero (suc n) zero b p q = refl
  enough_digits (suc m) (suc n) zero b p q = refl
  enough_digits zero n (suc a) b p q = absurd (omega arith)
  enough_digits (suc m) zero (suc a) b p q = absurd (omega arith)
  enough_digits (suc m) (suc n) (suc a) b p q =
      omega (arith, enough_digits m n (suc a / 2) (b / 2) (omega arith) (omega arith))

zero-bit_or : (b : ℕ) → bit_or 0 b ≡ b
zero-bit_or b = bit_or-bitwise 0 b

-- A bitwise "or" digit by digit.
pub bit_or-halves : (a b : ℕ) → bit_or a b ≡ bit_or (a / 2) (b / 2) * 2 + max (a % 2) (b % 2)
bit_or-halves zero b = omega (arith, zero-bit_or b, zero-bit_or (b / 2))
bit_or-halves (suc a) b =
    let h = suc a / 2 in
    omega (
      arith,
      bit_or-bitwise (suc a) b,
      bit_or-bitwise h (b / 2),
      enough_digits (λ b. b) max a h h (b / 2) (omega arith) (omega arith),
    )

zero-bit_and : (b : ℕ) → bit_and 0 b ≡ 0
zero-bit_and b = bit_and-bitwise 0 b

-- A bitwise "and" digit by digit.
pub bit_and-halves : (a b : ℕ) → bit_and a b ≡ bit_and (a / 2) (b / 2) * 2 + min (a % 2) (b % 2)
bit_and-halves zero b = omega (arith, zero-bit_and b, zero-bit_and (b / 2))
bit_and-halves (suc a) b =
    let h = suc a / 2 in
    omega (
      arith,
      bit_and-bitwise (suc a) b,
      bit_and-bitwise h (b / 2),
      enough_digits (λ b. zero) min a h h (b / 2) (omega arith) (omega arith),
    )

pub bit-bit_or : (d a b : ℕ) → bit (bit_or a b) d ≡ (bit a d || bit b d)
unfolding bit
bit-bit_or zero a b = ground (arith, bit_or-halves a b)
bit-bit_or (suc d) a b =
    let half : bit_or a b / 2 ≡ bit_or (a / 2) (b / 2) = omega (arith, bit_or-halves a b) in
    ap (λ x. bit x d) half ∙ bit-bit_or d (a / 2) (b / 2)

pub bit-zero : (d : ℕ) → bit 0 d ≡ false
unfolding bit
bit-zero zero = refl
bit-zero (suc d) = bit-zero d

pub pow_double : (d : ℕ) → 2 ^ suc d ≡ 2 * 2 ^ d
pow_double d = omega (arith, pow-suc 2 d)

-- One shifted to the left has one bit.
pub bit-pow : (d e : ℕ) → bit (2 ^ d) e ≡ (d == e)
unfolding bit
bit-pow zero zero = refl
bit-pow zero (suc e) = bit-zero e ∙ ground arith
bit-pow (suc d) zero = ground (arith, pow_double d)
bit-pow (suc d) (suc e) =
    let half : 2 ^ suc d / 2 ≡ 2 ^ d = omega (arith, pow_double d) in
    ap (λ x. bit x e) half ∙ bit-pow d e ∙ ground arith

pub bit_and_zero_within : (n a : ℕ) → a ≤ n → bit_and a 0 ≡ 0
bit_and_zero_within n zero h = refl
bit_and_zero_within zero (suc a) h = absurd (omega arith)
bit_and_zero_within (suc n) (suc a) h =
    omega (arith, bit_and-halves (suc a) 0, bit_and_zero_within n (suc a / 2) (omega arith))

-- `a & (1 << d) != 0` tests bit `d`.
pub bit_and-pow : (d a : ℕ) → bit_and a (2 ^ d) ≡ (if bit a d then 2 ^ d else 0)
unfolding bit
bit_and-pow zero a =
    ground (arith, bit_and-halves a 1, bit_and_zero_within (a / 2) (a / 2) (omega arith))
bit_and-pow (suc d) a =
    let half : 2 ^ suc d / 2 ≡ 2 ^ d = omega (arith, pow_double d) in
    ground (arith, bit_and-halves a (2 ^ suc d), bit_and-pow d (a / 2), pow_double d, half)

bit-double_zero : (x : ℕ) → bit (2 * x) 0 ≡ false
unfolding bit
bit-double_zero x = ground arith

bit-double_suc : (x e : ℕ) → bit (2 * x) (suc e) ≡ bit x e
unfolding bit
bit-double_suc x e = ap (λ (y : ℕ). bit y e) (omega arith)

shift_double : (k a : ℕ) → a * 2 ^ suc k ≡ 2 * (a * 2 ^ k)
shift_double k a = omega (arith, ap (λ (t : ℕ). a * t) (pow_double k))

-- A shift to the left by `k`, on bits.
pub bit-shift : (k a e : ℕ) → bit (a * 2 ^ k) e ≡ (if leb k e then bit a (e - k) else false)
bit-shift zero a e =
    let p : a * 1 ≡ a = omega arith in
    let q : e - 0 ≡ e = omega arith in let r : leb 0 e ≡ true = ground arith in rw (p, q, r)
bit-shift (suc k) a zero =
    let r : leb (suc k) 0 ≡ false = ground arith in
    ap (λ (x : ℕ). bit x 0) (shift_double k a) ∙ bit-double_zero (a * 2 ^ k) ∙ rw r
bit-shift (suc k) a (suc e) =
    let r : leb (suc k) (suc e) ≡ leb k e = ground arith in
    let q : suc e - suc k ≡ e - k = omega arith in
    ap (λ (x : ℕ). bit x (suc e)) (shift_double k a)
    ∙ bit-double_suc (a * 2 ^ k) e
    ∙ bit-shift k a e
    ∙ rw (r, q)

bit-suc : (a e : ℕ) → bit a (suc e) ≡ bit (a / 2) e
unfolding bit
bit-suc a e = refl

-- Halving a remainder.
pub mod_half : (m a : ℕ) → 0 < m → a % (2 * m) / 2 ≡ a / 2 % m
mod_half m a pos =
    let q = a / (2 * m) in
    let r = a % (2 * m) in
    let small : r / 2 < m = omega (arith, mod-lt a {m = 2 * m} (omega arith)) in
    let split : a / 2 ≡ q * m + r / 2 = omega (arith, div-add-mod a (2 * m)) in
    sym (mod-eq_of_lt small)
    ∙ sym (mul-add-mod_self_right q m (r / 2))
    ∙ ap (λ (x : ℕ). x % m) (sym split)

pub mod_parity : (m a : ℕ) → a % (2 * m) % 2 ≡ a % 2
mod_parity m a = omega (arith, div-add-mod a (2 * m))

pub pow_pos : (w : ℕ) → 0 < 2 ^ w
pow_pos zero = omega arith
pow_pos (suc w) = omega (arith, pow_double w, pow_pos w)

-- Only the low `w` bits stay.
pub bit-mod_pow : (w a e : ℕ) → bit (a % 2 ^ w) e ≡ (if ltb e w then bit a e else false)
bit-mod_pow zero a e =
    let p : a % 1 ≡ 0 = omega arith in
    let q : ltb e 0 ≡ false = ground arith in rw (p, q) (bit-zero e)
bit-mod_pow (suc w) a zero =
    let p : a % 2 ^ suc w % 2 ≡ a % 2 = rw (pow_double w) (mod_parity (2 ^ w) a) in
    let q : ltb 0 (suc w) ≡ true = ground arith in rw q (unfold bit in ap (λ (x : ℕ). x == 1) p)
bit-mod_pow (suc w) a (suc e) =
    let p : a % 2 ^ suc w / 2 ≡ a / 2 % 2 ^ w =
      rw (pow_double w) (mod_half (2 ^ w) a (pow_pos w)) in
    let q : ltb (suc e) (suc w) ≡ ltb e w = ground arith in
    simp (bit-suc, q) (ap (λ (x : ℕ). bit x e) p ∙ bit-mod_pow w (a / 2) e)

bit_and_le_within : (n a b : ℕ) → a ≤ n → bit_and a b ≤ b
bit_and_le_within n zero b h = omega (arith, zero-bit_and b)
bit_and_le_within zero (suc a) b h = absurd (omega arith)
bit_and_le_within (suc n) (suc a) b h =
    omega (arith, bit_and-halves (suc a) b, bit_and_le_within n (suc a / 2) (b / 2) (omega arith))

pub bit_and_le : (a b : ℕ) → bit_and a b ≤ b
bit_and_le a b = bit_and_le_within a a b (omega arith)
