-- ===== src/Congestion/Best.antt =====
-- Which option `LayerSelector::select` of crates/webrtc/congestion-control/src/layer.rs aims at.
use fluvora.Prelude.{
  ℕ, ◌≤◌, ◌<◌, ◌≡◌, ◌⊎◌, inl, inr, refl, ap, ◌∙◌, subst, none, some, List, [], ◌∷◌, length, All,
  head?, arith, Option-cases,
}
use mathlib.Core.List.{Mem, mem-cons_of_mem, mem-cons_self}
use fluvora.Prelude.Sorting.{
  sort_by_key, sort-All, All-sort, sort-Ascending, Ascending, length-sort,
}
use fluvora.Congestion.Selector.{LayerOption, last_affordable, affordable}

abbrev pub rate : LayerOption → ℕ
rate o = o.minimum_bitrate_bps

abbrev pub by_bitrate : List LayerOption → List LayerOption
by_bitrate options = sort_by_key rate options

-- Of the options that the target affords none has a higher bitrate, or the target affords none and
-- this is one of the lowest bitrate.
abbrev Preferred : ℕ → List LayerOption → LayerOption → Type 0
Preferred target options best =
    ((rate best ≤ target) × All (λ o. rate o ≤ target → rate o ≤ rate best) options)
    ⊎ All (λ o. (target < rate o) × (rate best ≤ rate o)) options

-- One of the options, and preferred among them.
abbrev pub Best : ℕ → List LayerOption → LayerOption → Type 0
Best target options best = Mem best options × Preferred target options best

Members : (options : List LayerOption) → All (λ o. Mem o options) options
Members options = within options options (λ o m. m)
  where
    within :
        (xs options : List LayerOption)
        → ((o : LayerOption) → Mem o xs → Mem o options)
        → All (λ o. Mem o options) xs
    within [] options f = tt
    within (x ∷ xs) options f =
        (f x mem-cons_self, within xs options λ o m. f o (mem-cons_of_mem x m))

last_affordable-none :
    (target : ℕ) (os : List LayerOption)
    → last_affordable target os ≡ none
    → All (λ o. target < rate o) os
unfolding last_affordable
last_affordable-none target [] h = tt
last_affordable-none target (o ∷ os) h = elim (Option-cases (last_affordable target os)) [
  | inl e ↦ (ground (arith, h, e), last_affordable-none target os e)
  | inr (best, e) ↦ absurd (ground (arith, h, e))
]

-- What holds of all options holds of the one found.
last_affordable-All :
    (P : LayerOption → Type 0) (target : ℕ) (os : List LayerOption) (best : LayerOption)
    → All P os
    → last_affordable target os ≡ some best
    → P best
unfolding last_affordable
last_affordable-All P target [] best hs h = absurd (ground arith)
last_affordable-All P target (o ∷ os) best hs h = elim (Option-cases (last_affordable target os)) [
  | inl e ↦ let same : o ≡ best = ground (arith, h, e) in subst P same hs.0
  | inr (other, e) ↦
      let same : other ≡ best = ground (arith, h, e) in
      last_affordable-All P target os best hs.1 (e ∙ ap some same)
]

last_affordable-some :
    (target : ℕ) (os : List LayerOption) (best : LayerOption)
    → Ascending rate os
    → last_affordable target os ≡ some best
    → (rate best ≤ target) × All (λ o. rate o ≤ target → rate o ≤ rate best) os
unfolding last_affordable
last_affordable-some target [] best asc h = absurd (ground arith)
last_affordable-some target (o ∷ os) best asc h = elim (Option-cases (last_affordable target os)) [
  | inl e ↦
      let same : o ≡ best = ground (arith, h, e) in
      let fits : rate o ≤ target = ground (arith, h, e) in
      subst
        (λ (b : LayerOption).
          (rate b ≤ target) × All (λ x. rate x ≤ target → rate x ≤ rate b) (o ∷ os))
        same (fits, ((λ _. omega arith), too_dear o os (last_affordable-none target os e)))
  | inr (other, e) ↦
      let same : other ≡ best = ground (arith, h, e) in
      let found = e ∙ ap some same in
      let later = last_affordable-some target os best asc.1 found in
      let above = last_affordable-All (λ x. rate o ≤ rate x) target os best asc.0 found in
      (later.0, ((λ _. above), later.1))
]
  where
    too_dear :
        (o : LayerOption) (os : List LayerOption)
        → All (λ x. target < rate x) os
        → All (λ x. rate x ≤ target → rate x ≤ rate o) os
    too_dear o [] hs = tt
    too_dear o (x ∷ xs) hs =
        let far = hs.0 in ((λ le. absurd (omega (arith, far, le))), too_dear o xs hs.1)

All-both :
    (target low : ℕ) (os : List LayerOption)
    → All (λ o. target < rate o) os
    → All (λ o. low ≤ rate o) os
    → All (λ o. (target < rate o) × (low ≤ rate o)) os
All-both target low [] a b = tt
All-both target low (o ∷ os) a b = ((a.0, b.0), All-both target low os a.1 b.1)

affordable-found :
    (target : ℕ) (os : List LayerOption) (best : LayerOption)
    → last_affordable target os ≡ some best
    → affordable target os ≡ some best
unfolding affordable
affordable-found target os best e = rw (affordable, e) refl

affordable-cheapest :
    (target : ℕ) (os : List LayerOption)
    → last_affordable target os ≡ none
    → affordable target os ≡ head? os
unfolding affordable
affordable-cheapest target os e = rw (affordable, e) refl

-- In a list that ascends, the option that is chosen is preferred, and has what all options have.
affordable-Preferred :
    (P : LayerOption → Type 0) (target : ℕ) (os : List LayerOption)
    → 1 ≤ length os
    → Ascending rate os
    → All P os
    → (best : LayerOption) × (affordable target os ≡ some best) × P best × Preferred target os best
affordable-Preferred P target [] long asc hs = absurd (omega arith)
affordable-Preferred P target (o ∷ os) long asc hs =
    elim (Option-cases (last_affordable target (o ∷ os))) [
      | inl e ↦
          let dear = last_affordable-none target (o ∷ os) e in
          (
            o,
            affordable-cheapest target (o ∷ os) e,
            hs.0,
            inr ((dear.0, omega arith), All-both target (rate o) os dear.1 asc.0),
          )
      | inr (best, e) ↦ (
        best,
        affordable-found target (o ∷ os) best e,
        last_affordable-All P target (o ∷ os) best hs e,
        inl (last_affordable-some target (o ∷ os) best asc e),
      )
    ]

-- Where there is an option, the best one is chosen.
pub affordable-Best :
    (target : ℕ) (options : List LayerOption)
    → 1 ≤ length options
    → (best : LayerOption) × (affordable target (by_bitrate options) ≡ some best)
      × Best target options best
affordable-Best target options long =
    let sorted = by_bitrate options in
    let (best, e, member, preferred) =
      affordable-Preferred (λ o. Mem o options) target sorted
        (omega (arith, length-sort rate options)) (sort-Ascending rate options)
        (sort-All rate (λ o. Mem o options) options (Members options)) in
    (
      best,
      e,
      (
        member,
        elim preferred [
          | inl (fits, most) ↦
              inl (fits, All-sort rate (λ o. rate o ≤ target → rate o ≤ rate best) options most)
          | inr dear ↦
              inr (All-sort rate (λ o. (target < rate o) × (rate best ≤ rate o)) options dear)
        ],
      ),
    )
