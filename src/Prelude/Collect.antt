-- ===== src/Prelude/Collect.antt =====
-- `collect` into a `HashSet` or a `HashMap`, which keeps one entry for each key.
use mathlib.Core.List.{List, [], ◌∷◌, ◌++◌, append_assoc, append-nil, map-append}
use mathlib.Core.Path.{◌≡◌, refl, sym, ◌∙◌, subst}
use mathlib.Core.Bool.{false}
use native.Mathlib.Omega.{arith}
use fluvora.Prelude.Tests.{Eq}
use fluvora.Prelude.Sets
use fluvora.Prelude.Sets.{contains, Distinct, contains-append}
use fluvora.Prelude.Maps
use fluvora.Prelude.Maps.{keys, lookup, is_some}

module _ {ℓ} {A : Type ℓ} ⦃e : Eq A⦄ where
  collect_set_from : List A → List A → List A
  collect_set_from set [] = set
  collect_set_from set (x ∷ xs) = collect_set_from (Sets.insert x set) xs

  unfoldable pub collect_set : List A → List A
  unfolding collect_set_from
  collect_set xs = collect_set_from [] xs

  pub absent_before :
      (set : List A) (x : A) (xs : List A) → Distinct (set ++ x ∷ xs) → contains x set ≡ false
  unfolding contains
  absent_before [] x xs d = refl
  absent_before (y ∷ set) x xs d = ground (
    arith,
    contains-append y set (x ∷ xs),
    absent_before set x xs d.1,
    e.beq_iff y x,
    e.beq_iff x y,
  )

  collect_set_from-Distinct :
      (set xs : List A) → Distinct (set ++ xs) → collect_set_from set xs ≡ set ++ xs
  unfolding collect_set_from Sets.insert
  collect_set_from-Distinct set [] d = sym (append-nil set)
  collect_set_from-Distinct set (x ∷ xs) d = rw (absent_before set x xs d) (
      collect_set_from-Distinct (set ++ x ∷ []) xs
        (subst Distinct (sym (append_assoc set (x ∷ []) xs)) d)
      ∙ append_assoc set (x ∷ []) xs)

  -- A list without repetitions is collected whole.
  pub collect_set-Distinct : (xs : List A) → Distinct xs → collect_set xs ≡ xs
  unfolding collect_set
  collect_set-Distinct xs d = collect_set_from-Distinct [] xs d

module _ {ℓ κ} {K : Type ℓ} {V : Type κ} ⦃e : Eq K⦄ where
  collect_map_from : List (K × V) → List (K × V) → List (K × V)
  collect_map_from m [] = m
  collect_map_from m ((k, v) ∷ entries) = collect_map_from (Maps.insert k v m) entries

  unfoldable pub collect_map : List (K × V) → List (K × V)
  unfolding collect_map_from
  collect_map entries = collect_map_from [] entries

  insert_absent :
      (k : K) (v : V) (m : List (K × V))
      → contains k (keys m) ≡ false
      → Maps.insert k v m ≡ m ++ (k, v) ∷ []
  unfolding Maps.insert contains
  insert_absent k v [] h = refl
  insert_absent k v ((j, w) ∷ m) h = ground (arith, insert_absent k v m)

  collect_map_from-Distinct :
      (m entries : List (K × V))
      → Distinct (keys (m ++ entries))
      → collect_map_from m entries ≡ m ++ entries
  unfolding collect_map_from
  collect_map_from-Distinct m [] d = sym (append-nil m)
  collect_map_from-Distinct m ((k, v) ∷ entries) d =
      rw
        (insert_absent k v m (
          absent_before (keys m) k (keys entries)
            (subst Distinct (map-append (λ p. p.0) m ((k, v) ∷ entries)) d)))
        (collect_map_from-Distinct (m ++ (k, v) ∷ []) entries
            (subst (λ l. Distinct (keys l)) (sym (append_assoc m ((k, v) ∷ []) entries)) d)
          ∙ append_assoc m ((k, v) ∷ []) entries)

  -- Entries with distinct keys are collected whole.
  pub collect_map-Distinct :
      (entries : List (K × V)) → Distinct (keys entries) → collect_map entries ≡ entries
  unfolding collect_map
  collect_map-Distinct entries d = collect_map_from-Distinct [] entries d
