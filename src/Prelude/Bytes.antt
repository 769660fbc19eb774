-- ===== src/Prelude/Bytes.antt =====
-- Big-endian integers: `uN::to_be_bytes` and `uN::from_be_bytes`.
use Prim.Native.Nat.{ℕ, zero, suc, ◌+◌, ◌*◌, ◌/◌, ◌%◌, ◌^◌, ◌<◌}
use mathlib.Core.Path.{◌≡◌, refl, ap, ◌∙◌}
use mathlib.Core.List.{List, [], ◌∷◌, ◌++◌}
use native.Mathlib.Omega.{arith}
use fluvora.Prelude.Lists.{length, length-append, All, All-append}

abbrev pub IsByte : ℕ → Type 0
IsByte b = b < 256

abbrev of_be_from : ℕ → List ℕ → ℕ
of_be_from acc [] = acc
of_be_from acc (b ∷ bs) = of_be_from (acc * 256 + b) bs

-- The number that the bytes spell, the most significant byte first.
abbrev pub of_be : List ℕ → ℕ
of_be bs = of_be_from 0 bs

-- The `n` low bytes of `v`, the most significant byte first.
abbrev pub to_be : ℕ → ℕ → List ℕ
to_be zero v = []
to_be (suc n) v = to_be n (v / 256) ++ ((v % 256) ∷ [])

pub length-to_be : (n v : ℕ) → length (to_be n v) ≡ n
length-to_be zero v = refl
length-to_be (suc n) v =
    omega (arith, length-append (to_be n (v / 256)) ((v % 256) ∷ []), length-to_be n (v / 256))

of_be_from-append :
    (acc : ℕ) (xs ys : List ℕ) → of_be_from acc (xs ++ ys) ≡ of_be_from (of_be_from acc xs) ys
of_be_from-append acc [] ys = refl
of_be_from-append acc (x ∷ xs) ys = of_be_from-append (acc * 256 + x) xs ys

pub of_be-to_be : (n v : ℕ) → v < 256 ^ n → of_be (to_be n v) ≡ v
of_be-to_be zero v h = omega arith
of_be-to_be (suc n) v h =
    of_be_from-append 0 (to_be n (v / 256)) ((v % 256) ∷ [])
    ∙ omega (arith, of_be-to_be n (v / 256) (omega arith))

pub to_be-IsByte : (n v : ℕ) → All IsByte (to_be n v)
to_be-IsByte zero v = tt
to_be-IsByte (suc n) v =
    All-append IsByte (to_be n (v / 256)) _ (to_be-IsByte n (v / 256)) (omega arith)

abbrev pub zeros : ℕ → List ℕ
zeros zero = []
zeros (suc n) = 0 ∷ zeros n

pub length-zeros : (n : ℕ) → length (zeros n) ≡ n
length-zeros zero = refl
length-zeros (suc n) = ap suc (length-zeros n)
