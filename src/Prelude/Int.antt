-- ===== src/Prelude/Int.antt =====
-- Signed integers over the native numbers, under the library's names.
use Prim.Native.Nat.{ℕ, ◌-◌, ◌*◌, ◌%◌, ◌^◌, ◌<◌}
use mathlib.Core.Path.{◌≡◌}
use mathlib.Core.Bool.{Bool, true}
use native.Mathlib.Omega.{arith}
use fluvora.Prelude.Tests.{ltb, if◌then◌else◌}

-- `negsuc n` is -(n + 1).
pub data ℤ : Type 0 where
  pos : ℕ → ℤ
  negsuc : ℕ → ℤ

-- Whether a number is in the range of a signed integer of `w + 1` bits.
abbrev pub fits_signed : ℕ → ℤ → Bool
fits_signed w (pos n) = ltb n (2 ^ w)
fits_signed w (negsuc n) = ltb n (2 ^ w)

-- The low `w` bits of the two's complement.
abbrev pub to_word : ℕ → ℤ → ℕ
to_word w (pos n) = n % 2 ^ w
to_word w (negsuc n) = 2 ^ w - 1 - n % 2 ^ w

-- The signed number that a word of `w + 1` bits spells.
abbrev pub of_word : ℕ → ℕ → ℤ
of_word w v = if ltb v (2 ^ w) then pos v else negsuc (2 * 2 ^ w - 1 - v)

pub of_word-to_word-24 : (z : ℤ) → fits_signed 23 z ≡ true → of_word 23 (to_word 24 z) ≡ z
of_word-to_word-24 (pos n) h = ground arith
of_word-to_word-24 (negsuc n) h = ground arith

pub of_word-to_word-16 : (z : ℤ) → fits_signed 15 z ≡ true → of_word 15 (to_word 16 z) ≡ z
of_word-to_word-16 (pos n) h = ground arith
of_word-to_word-16 (negsuc n) h = ground arith

pub to_word-lt-24 : (z : ℤ) → to_word 24 z < 2 ^ 24
to_word-lt-24 (pos n) = omega arith
to_word-lt-24 (negsuc n) = omega arith

pub to_word-lt-16 : (z : ℤ) → to_word 16 z < 2 ^ 16
to_word-lt-16 (pos n) = omega arith
to_word-lt-16 (negsuc n) = omega arith
