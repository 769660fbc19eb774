-- ===== src/Congestion/Signed.antt =====
-- The `i64` arithmetic of crates/webrtc/congestion-control/src/estimator.rs.
use fluvora.Prelude.{
  ℕ, zero, suc, ◌+◌, ◌-◌, ◌*◌, ◌/◌, ◌^◌, min, Bool, true, false, ltb, leb, if◌then◌else◌,
}
use fluvora.Prelude.Int.{ℤ, pos, negsuc, to_word, of_word}

-- `m - n` as an integer.
abbrev pub difference : ℕ → ℕ → ℤ
difference m n = if leb n m then pos (m - n) else negsuc (n - m - 1)

abbrev pub add : ℤ → ℤ → ℤ
add (pos m) (pos n) = pos (m + n)
add (pos m) (negsuc n) = difference m (n + 1)
add (negsuc m) (pos n) = difference n (m + 1)
add (negsuc m) (negsuc n) = negsuc (m + n + 1)

abbrev pub negate : ℤ → ℤ
negate (pos zero) = pos 0
negate (pos (suc n)) = negsuc n
negate (negsuc n) = pos (n + 1)

abbrev pub scale : ℕ → ℤ → ℤ
scale k (pos n) = pos (k * n)
scale k (negsuc n) = negate (pos (k * (n + 1)))

-- Rust's division rounds towards zero.
abbrev pub divide : ℤ → ℕ → ℤ
divide (pos n) k = pos (n / k)
divide (negsuc n) k = negate (pos ((n + 1) / k))

abbrev pub saturate : ℤ → ℤ
saturate (pos n) = pos (min n (2 ^ 63 - 1))
saturate (negsuc n) = negsuc (min n (2 ^ 63 - 1))

abbrev pub saturating_add : ℤ → ℤ → ℤ
saturating_add a b = saturate (add a b)

abbrev pub saturating_sub : ℤ → ℤ → ℤ
saturating_sub a b = saturate (add a (negate b))

-- The value that a computation leaves in an `i64` that wraps around.
abbrev pub wrap : ℤ → ℤ
wrap a = of_word 63 (to_word 64 a)

-- `a < n` and `n < a` for a natural number.
abbrev pub below : ℤ → ℕ → Bool
below (pos m) n = ltb m n
below (negsuc m) n = true

abbrev pub above : ℤ → ℕ → Bool
above (pos m) n = ltb n m
above (negsuc m) n = false

abbrev pub max_with : ℕ → ℤ → ℕ
max_with n (pos m) = if ltb n m then m else n
max_with n (negsuc m) = n
