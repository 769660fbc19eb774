-- ===== src/Prelude/Sorting.antt =====
-- `sort_by_key` and `sort_unstable` on distinct keys, and `collect` into a set or a map.
use fluvora.Prelude.Tests.{nat_eq, leb, Bool-cases, if◌then◌else◌, ==_iff}
use Prim.Native.Nat.{ℕ, ◌+◌, ◌≤◌}
use mathlib.Core.Path.{◌≡◌, refl, subst, ◌∙◌}
use mathlib.Core.Bool.{Bool, false}
use mathlib.Core.Logic.{inl, inr}
use mathlib.Core.List.{List, [], ◌∷◌}
use native.Mathlib.Omega.{arith}
use fluvora.Prelude.Lists.{length, All}
use fluvora.Prelude.Sets.{contains, Distinct}
use fluvora.Prelude.Maps.{keys, lookup}

module _ {ℓ} {A : Type ℓ} (key : A → ℕ) where
  unfoldable pub place : A → List A → List A
  place a [] = a ∷ []
  place a (x ∷ xs) = if leb (key a) (key x) then a ∷ x ∷ xs else x ∷ place a xs

  unfoldable pub sort_by_key : List A → List A
  sort_by_key [] = []
  sort_by_key (x ∷ xs) = place x (sort_by_key xs)

  length-place : (a : A) (xs : List A) → length (place a xs) ≡ length xs + 1
  unfolding place
  length-place a [] = omega arith
  length-place a (x ∷ xs) = ground (arith, length-place a xs)

  pub length-sort : (xs : List A) → length (sort_by_key xs) ≡ length xs
  unfolding sort_by_key
  length-sort [] = refl
  length-sort (x ∷ xs) = omega (arith, length-place x (sort_by_key xs), length-sort xs)

  -- Every element has the property.
  place-All {κ} : (P : A → Type κ) (a : A) (xs : List A) → P a → All P xs → All P (place a xs)
  unfolding place
  place-All P a [] h hs = (h, tt)
  place-All P a (x ∷ xs) h hs = elim (Bool-cases (leb (key a) (key x))) [
    | inl e ↦ rw e (h, hs)
    | inr e ↦ rw e (hs.0, place-All P a xs h hs.1)
  ]

  pub sort-All {κ} : (P : A → Type κ) (xs : List A) → All P xs → All P (sort_by_key xs)
  unfolding sort_by_key
  sort-All P [] hs = tt
  sort-All P (x ∷ xs) hs = place-All P x (sort_by_key xs) hs.0 (sort-All P xs hs.1)

  All-place {κ} : (P : A → Type κ) (a : A) (xs : List A) → All P (place a xs) → P a × All P xs
  unfolding place
  All-place P a [] hs = (hs.0, tt)
  All-place P a (x ∷ xs) hs = elim (Bool-cases (leb (key a) (key x))) [
    | inl e ↦ subst (λ (b : Bool). All P (if b then a ∷ x ∷ xs else x ∷ place a xs)) e hs
    | inr e ↦
        let later : All P (x ∷ place a xs) =
          subst (λ (b : Bool). All P (if b then a ∷ x ∷ xs else x ∷ place a xs)) e hs in
        let rest = All-place P a xs later.1 in (rest.0, (later.0, rest.1))
  ]

  pub All-sort {κ} : (P : A → Type κ) (xs : List A) → All P (sort_by_key xs) → All P xs
  unfolding sort_by_key
  All-sort P [] hs = tt
  All-sort P (x ∷ xs) hs =
      let here = All-place P x (sort_by_key xs) hs in (here.0, All-sort P xs here.1)

  abbrev pub Ascending : List A → Type 0
  Ascending [] = Unit {0}
  Ascending (x ∷ xs) = All (λ y. key x ≤ key y) xs × Ascending xs

  All-above : (m n : ℕ) (xs : List A) → m ≤ n → All (λ y. n ≤ key y) xs → All (λ y. m ≤ key y) xs
  All-above m n [] le hs = tt
  All-above m n (x ∷ xs) le hs = (omega (arith, hs.0), All-above m n xs le hs.1)

  place-Ascending : (a : A) (xs : List A) → Ascending xs → Ascending (place a xs)
  unfolding place
  place-Ascending a [] h = (tt, tt)
  place-Ascending a (x ∷ xs) h = elim (Bool-cases (leb (key a) (key x))) [
    | inl e ↦
        let le : key a ≤ key x = ground arith in rw e ((le, All-above (key a) (key x) xs le h.0), h)
    | inr e ↦
        let le : key x ≤ key a = ground arith in
        rw e (place-All (λ y. key x ≤ key y) a xs le h.0, place-Ascending a xs h.1)
  ]

  pub sort-Ascending : (xs : List A) → Ascending (sort_by_key xs)
  unfolding sort_by_key
  sort-Ascending [] = tt
  sort-Ascending (x ∷ xs) = place-Ascending x (sort_by_key xs) (sort-Ascending xs)

-- Sets of numbers.
contains-place : (u a : ℕ) (xs : List ℕ) → contains u (place (λ x. x) a xs) ≡ contains u (a ∷ xs)
unfolding place contains
contains-place u a [] = refl
contains-place u a (x ∷ xs) = ground (arith, contains-place u a xs)

pub contains-sort : (u : ℕ) (xs : List ℕ) → contains u (sort_by_key (λ x. x) xs) ≡ contains u xs
unfolding sort_by_key contains
contains-sort u [] = refl
contains-sort u (x ∷ xs) =
    ground (arith, contains-place u x (sort_by_key (λ x. x) xs), contains-sort u xs)

place-Distinct :
    (a : ℕ) (xs : List ℕ) → contains a xs ≡ false → Distinct xs → Distinct (place (λ x. x) a xs)
unfolding place contains
place-Distinct a [] h d = (refl, tt)
place-Distinct a (x ∷ xs) h d =
    ground
      (arith, place-Distinct a xs (ground arith) d.1, contains-place x a xs, ==_iff x a, ==_iff a x)

pub sort-Distinct : (xs : List ℕ) → Distinct xs → Distinct (sort_by_key (λ x. x) xs)
unfolding sort_by_key
sort-Distinct [] d = tt
sort-Distinct (x ∷ xs) d =
    place-Distinct x (sort_by_key (λ x. x) xs) (contains-sort x xs ∙ d.0) (sort-Distinct xs d.1)

-- Maps with numbers for keys.
module _ {ℓ} {V : Type ℓ} where
  abbrev pub entry_key : ℕ × V → ℕ
  entry_key p = p.0

  lookup-place :
      (u : ℕ) (p : ℕ × V) (m : List (ℕ × V))
      → contains p.0 (keys m) ≡ false
      → lookup u (place entry_key p m) ≡ lookup u (p ∷ m)
  unfolding place lookup contains
  lookup-place u (k, v) [] h = refl
  lookup-place u (k, v) ((j, w) ∷ m) h =
      ground (arith, lookup-place u (k, v) m, ==_iff j u, ==_iff k u)

  contains-keys-place :
      (u : ℕ) (p : ℕ × V) (m : List (ℕ × V))
      → contains u (keys (place entry_key p m)) ≡ contains u (keys (p ∷ m))
  unfolding place contains
  contains-keys-place u (k, v) [] = refl
  contains-keys-place u (k, v) ((j, w) ∷ m) = ground (arith, contains-keys-place u (k, v) m)

  contains-keys-sort :
      (u : ℕ) (m : List (ℕ × V)) → contains u (keys (sort_by_key entry_key m)) ≡ contains u (keys m)
  unfolding sort_by_key contains
  contains-keys-sort u [] = refl
  contains-keys-sort u ((k, v) ∷ m) =
      ground (arith, contains-keys-place u (k, v) (sort_by_key entry_key m), contains-keys-sort u m)

  pub lookup-sort :
      (u : ℕ) (m : List (ℕ × V))
      → Distinct (keys m)
      → lookup u (sort_by_key entry_key m) ≡ lookup u m
  unfolding sort_by_key lookup
  lookup-sort u [] d = refl
  lookup-sort u ((k, v) ∷ m) d =
      lookup-place u (k, v) (sort_by_key entry_key m) (contains-keys-sort k m ∙ d.0)
      ∙ ground (arith, lookup-sort u m d.1)

  place-keys-Distinct :
      (p : ℕ × V) (m : List (ℕ × V))
      → contains p.0 (keys m) ≡ false
      → Distinct (keys m)
      → Distinct (keys (place entry_key p m))
  unfolding place contains
  place-keys-Distinct (k, v) [] h d = (refl, tt)
  place-keys-Distinct (k, v) ((j, w) ∷ m) h d = ground (
    arith,
    place-keys-Distinct (k, v) m (ground arith) d.1,
    contains-keys-place j (k, v) m,
    ==_iff j k,
    ==_iff k j,
  )

  pub sort-keys-Distinct :
      (m : List (ℕ × V)) → Distinct (keys m) → Distinct (keys (sort_by_key entry_key m))
  unfolding sort_by_key
  sort-keys-Distinct [] d = tt
  sort-keys-Distinct ((k, v) ∷ m) d =
      place-keys-Distinct (k, v) (sort_by_key entry_key m) (contains-keys-sort k m ∙ d.0)
        (sort-keys-Distinct m d.1)
