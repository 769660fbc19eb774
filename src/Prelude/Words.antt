-- ===== src/Prelude/Words.antt =====
-- Arithmetic on machine words of `w` bits, `usize` being 64 bits wide.
use Prim.Native.Nat.{ℕ, ◌+◌, ◌-◌, ◌*◌, ◌^◌, ◌<◌, min}
use mathlib.Core.Path.{◌≡◌}
use native.Mathlib.Omega.{arith}
use mathlib.Core.Option.{Option, none, some}
use fluvora.Prelude.Tests.{ltb, if◌then◌else◌}

abbrev pub usize_bits : ℕ
usize_bits = 64

abbrev pub checked_add : ℕ → ℕ → ℕ → Option ℕ
checked_add w a b = if ltb (a + b) (2 ^ w) then some (a + b) else none

abbrev pub checked_mul : ℕ → ℕ → ℕ → Option ℕ
checked_mul w a b = if ltb (a * b) (2 ^ w) then some (a * b) else none

abbrev pub saturating_add : ℕ → ℕ → ℕ → ℕ
saturating_add w a b = min (a + b) (2 ^ w - 1)

abbrev pub saturating_mul : ℕ → ℕ → ℕ → ℕ
saturating_mul w a b = min (a * b) (2 ^ w - 1)

pub checked_add-some : (a b : ℕ) → a + b < 2 ^ 64 → checked_add usize_bits a b ≡ some (a + b)
checked_add-some a b h = ground arith

pub checked_mul-some : (a b : ℕ) → a * b < 2 ^ 64 → checked_mul usize_bits a b ≡ some (a * b)
checked_mul-some a b h = ground arith
