-- ===== src/Prelude/Sets.antt =====
-- `HashSet` as a list of distinct elements: `contains`, `insert`, `remove`, and `collect`.
use Prim.Native.Nat.{◌+◌, ◌≤◌}
use mathlib.Core.Path.{◌≡◌, refl}
use mathlib.Core.Bool.{Bool, true, false, ◌||◌}
use mathlib.Core.List.{List, [], ◌∷◌, ◌++◌}
use native.Mathlib.Omega.{arith}
use fluvora.Prelude.Tests.{if◌then◌else◌, Eq}
use fluvora.Prelude.Lists.{length, length-append}

module _ {ℓ} {A : Type ℓ} ⦃e : Eq A⦄ where
  unfoldable pub contains : A → List A → Bool
  contains a [] = false
  contains a (x ∷ xs) = e.beq x a || contains a xs

  unfoldable pub remove : A → List A → List A
  remove a [] = []
  remove a (x ∷ xs) = if e.beq x a then remove a xs else x ∷ remove a xs

  -- The set after `insert`; an element that is there already stays where it is.
  unfoldable pub insert : A → List A → List A
  insert a xs = if contains a xs then xs else xs ++ a ∷ []

  -- No element stands twice.
  abbrev pub Distinct : List A → Type 0
  Distinct [] = Unit {0}
  Distinct (x ∷ xs) = (contains x xs ≡ false) × Distinct xs

  pub beq_refl : (a : A) → e.beq a a ≡ true
  beq_refl a = (e.beq_iff a a).1 refl

  pub contains-append :
      (a : A) (xs ys : List A) → contains a (xs ++ ys) ≡ (contains a xs || contains a ys)
  unfolding contains
  contains-append a [] ys = refl
  contains-append a (x ∷ xs) ys = ground (arith, contains-append a xs ys)

  pub contains-insert :
      (b a : A) (xs : List A) → contains b (insert a xs) ≡ (e.beq a b || contains b xs)
  unfolding insert contains
  contains-insert b a xs = ground (arith, contains-append b xs (a ∷ []), e.beq_iff a b)

  pub contains-remove :
      (b a : A) (xs : List A)
      → contains b (remove a xs) ≡ (if e.beq a b then false else contains b xs)
  unfolding remove contains
  contains-remove b a [] = ground arith
  contains-remove b a (x ∷ xs) =
      ground (arith, contains-remove b a xs, e.beq_iff x a, e.beq_iff x b, e.beq_iff a b)

  pub remove-absent : (a : A) (xs : List A) → contains a xs ≡ false → remove a xs ≡ xs
  unfolding remove contains
  remove-absent a [] h = refl
  remove-absent a (x ∷ xs) h = ground (arith, remove-absent a xs)

  pub length-remove-le : (a : A) (xs : List A) → length (remove a xs) ≤ length xs
  unfolding remove
  length-remove-le a [] = omega arith
  length-remove-le a (x ∷ xs) = ground (arith, length-remove-le a xs)

  pub length-insert-le : (a : A) (xs : List A) → length (insert a xs) ≤ length xs + 1
  unfolding insert
  length-insert-le a xs = ground (arith, length-append xs (a ∷ []))

  pub remove-Distinct : (a : A) (xs : List A) → Distinct xs → Distinct (remove a xs)
  unfolding remove
  remove-Distinct a [] h = tt
  remove-Distinct a (x ∷ xs) h = ground (arith, remove-Distinct a xs h.1, contains-remove x a xs)

  pub append-Distinct :
      (a : A) (xs : List A) → contains a xs ≡ false → Distinct xs → Distinct (xs ++ a ∷ [])
  unfolding contains
  append-Distinct a [] h d = (refl, tt)
  append-Distinct a (x ∷ xs) h d = ground (
    arith,
    append-Distinct a xs (ground arith) d.1,
    contains-append x xs (a ∷ []),
    e.beq_iff x a,
    e.beq_iff a x,
  )

  pub insert-Distinct : (a : A) (xs : List A) → Distinct xs → Distinct (insert a xs)
  unfolding insert
  insert-Distinct a xs h = ground (arith, append-Distinct a xs)
