-- ===== src/Room/History.antt =====
-- The bounded histories that `Room::remember_command` and `Room::remember_gift_transaction` keep
-- (crates/foundation/domain/src/lib.rs): a set with the order in which its elements came.
use fluvora.Prelude.{
  ℕ, suc, ◌≤◌, ◌<◌, ◌≡◌, refl, sym, ap, true, false, List, [], ◌∷◌, ◌++◌, arith, ltb, if◌then◌else◌,
  Eq, length, length-append, ◌||◌, Bool-cases, inl, inr, subst, ◌⊎◌, ◌∙◌, ◌≢◌, All, All-append,
}
use mathlib.Core.List.{append_assoc}
use native.Mathlib.Decide.{dec_lt}
use fluvora.Prelude.Sets.{
  contains, insert, remove, Distinct, remove-absent, append-Distinct, contains-append, beq_refl,
}

module _ {ℓ} {A : Type ℓ} ⦃e : Eq A⦄ where
  -- `while order.len() > limit { if let Some(x) = order.pop_front() { set.remove(&x); } }`
  unfoldable pub evict : ℕ → List A → List A → List A × List A
  evict limit set [] = (set, [])
  evict limit set (x ∷ order) =
      let rest = evict limit (remove x set) order in
      if ltb limit (length (x ∷ order)) then rest else (set, x ∷ order)

  -- `if set.insert(a) { order.push_back(a) }`, then the loop.
  unfoldable pub remember : ℕ → A → List A → List A → List A × List A
  remember limit a set order =
      if contains a set then evict limit set order else evict limit (insert a set) (order ++ a ∷ [])

  -- The set holds what the order lists, nothing twice, and no more than the limit.
  pub record IsHistory (limit : ℕ) (set order : List A) : Type ℓ where
    pub same : set ≡ order
    pub distinct : Distinct order
    pub bounded : length order ≤ limit

  evict_within :
      (limit : ℕ) (set order : List A) → length order ≤ limit → evict limit set order ≡ (set, order)
  unfolding evict
  evict_within limit set [] h = refl
  evict_within limit set (x ∷ order) h = ground arith

  -- With one element too many the oldest goes.
  evict_oldest :
      (limit : ℕ) (x : A) (order : List A)
      → Distinct (x ∷ order)
      → length order ≡ limit
      → evict limit (x ∷ order) (x ∷ order) ≡ (order, order)
  unfolding evict remove
  evict_oldest limit x order d h =
      ground (arith, beq_refl x, remove-absent x order d.0, evict_within limit order order)

  remember_known :
      {limit : ℕ} (a : A) {set order : List A}
      → IsHistory limit set order
      → contains a set ≡ true
      → remember limit a set order ≡ (set, order)
  unfolding remember
  remember_known {limit} a {set} {order} h k =
      ground (arith, evict_within limit set order h.bounded)

  remember_fresh :
      {limit : ℕ} (a : A) {set order : List A}
      → IsHistory limit set order
      → contains a set ≡ false
      → length order < limit
      → remember limit a set order ≡ (order ++ a ∷ [], order ++ a ∷ [])
  unfolding remember insert
  remember_fresh {limit} a {set} {order} h k room = ground (
    arith,
    h.same,
    length-append order (a ∷ []),
    evict_within limit (set ++ a ∷ []) (order ++ a ∷ []),
  )

  remember_full :
      {limit : ℕ} (a x : A) {set rest : List A}
      → IsHistory limit set (x ∷ rest)
      → contains a set ≡ false
      → length (x ∷ rest) ≡ limit
      → remember limit a set (x ∷ rest) ≡ (rest ++ a ∷ [], rest ++ a ∷ [])
  unfolding remember insert
  remember_full {limit} a x {set} {rest} h k full = ground (
    arith,
    h.same,
    length-append rest (a ∷ []),
    append-Distinct a (x ∷ rest) (subst (λ s. contains a s ≡ false) h.same k) h.distinct,
    evict_oldest limit x (rest ++ a ∷ []),
  )

  -- What the loop removes when the history is full.
  oldest :
      {limit : ℕ} (a : A) (set order : List A)
      → 0 < limit
      → IsHistory limit set order
      → contains a set ≡ false
      → length order ≡ limit
      → (front rest : List A) × (order ≡ front ++ rest)
        × (length front ≤ 1)
        × ((front ≡ []) ⊎ (length order ≡ limit))
        × (contains a set ≡ false)
        × (length rest < limit)
        × (remember limit a set order ≡ (rest ++ a ∷ [], rest ++ a ∷ []))
  oldest a set [] pos h k full = absurd (omega arith)
  oldest a set (x ∷ rest) pos h k full =
      (x ∷ [], rest, refl, omega arith, inr full, k, omega arith, remember_full a x h k full)

  -- A known element changes nothing; a fresh one goes to the end, and at most one old one goes.
  abbrev pub Remembers : ℕ → A → List A → List A → Type ℓ
  Remembers limit a set order =
      ((contains a set ≡ true) × (remember limit a set order ≡ (set, order)))
      ⊎ ((front rest : List A) × (order ≡ front ++ rest)
          × (length front ≤ 1)
          × ((front ≡ []) ⊎ (length order ≡ limit))
          × (contains a set ≡ false)
          × (length rest < limit)
          × (remember limit a set order ≡ (rest ++ a ∷ [], rest ++ a ∷ [])))

  pub remember-Remembers :
      {limit : ℕ} (a : A) (set order : List A)
      → 0 < limit
      → IsHistory limit set order
      → Remembers limit a set order
  remember-Remembers {limit} a set order pos h = elim (Bool-cases (contains a set)) [
    | inl k ↦ inl (k, remember_known a h k)
    | inr k ↦ elim (dec_lt (length order) limit) [
      | yes room ↦ inr ([], order, refl, omega arith, inl refl, k, room, remember_fresh a h k room)
      | no full ↦ inr (oldest a set order pos h k (omega (arith, h.bounded)))
    ]
  ]

  -- `b` is among the last `k + 1` elements.
  abbrev pub Recent : ℕ → A → List A → Type ℓ
  Recent k b order = (front back : List A) × (order ≡ front ++ b ∷ back) × (length back ≤ k)

  pub contains-Recent :
      {k : ℕ} {b : A} {order : List A} → Recent k b order → contains b order ≡ true
  unfolding contains
  contains-Recent {k} {b} {order} (front, back, e, h) =
      subst (λ o. contains b o ≡ true) (sym e)
        (ground (arith, contains-append b front (b ∷ back), beq_refl b, ◌||◌))

  Distinct-append_right : (xs ys : List A) → Distinct (xs ++ ys) → Distinct ys
  Distinct-append_right [] ys d = d
  Distinct-append_right (x ∷ xs) ys d = Distinct-append_right xs ys d.1

  grown :
      {limit : ℕ} (a : A) (front rest : List A) {set : List A}
      → IsHistory limit set (front ++ rest)
      → contains a set ≡ false
      → length rest < limit
      → IsHistory limit (rest ++ a ∷ []) (rest ++ a ∷ [])
  grown {limit} a front rest {set} h k room =
      let absent : contains a (front ++ rest) ≡ false =
        subst (λ s. contains a s ≡ false) h.same k in
      record {
        same = refl;
        distinct =
            append-Distinct a rest (ground (arith, absent, contains-append a front rest))
              (Distinct-append_right front rest h.distinct);
        bounded = omega (arith, length-append rest (a ∷ []));
      }

  -- The history stays one.
  pub remember-IsHistory :
      {limit : ℕ} (a : A) (set order : List A)
      → 0 < limit
      → IsHistory limit set order
      → let r = remember limit a set order in IsHistory limit r.0 r.1
  remember-IsHistory {limit} a set order pos h = elim (remember-Remembers a set order pos h) [
    | inl (k, e) ↦ rw e h
    | inr (front, rest, o, _, _, k, room, e) ↦
        rw e (grown a front rest (subst (IsHistory limit set) o h) k room)
  ]

  -- An element that was not known is now the newest.
  pub remember-Recent_self :
      {limit : ℕ} (a : A) (set order : List A)
      → 0 < limit
      → IsHistory limit set order
      → contains a set ≡ false
      → Recent 0 a (remember limit a set order).1
  remember-Recent_self a set order pos h k = elim (remember-Remembers a set order pos h) [
    | inl (known, _) ↦ cc
    | inr (front, rest, o, _, _, _, room, e) ↦ rw e (rest, [], refl, omega arith)
  ]

  Recent-append :
      {k : ℕ} (b a : A) (rest before after : List A)
      → rest ≡ before ++ b ∷ after
      → length after ≤ k
      → Recent (suc k) b (rest ++ a ∷ [])
  Recent-append b a rest before after o le = (
    before,
    after ++ a ∷ [],
    ap (λ l. l ++ a ∷ []) o ∙ append_assoc before (b ∷ after) (a ∷ []),
    omega (arith, length-append after (a ∷ [])),
  )

  slide :
      {limit k : ℕ} (b a : A) (front rest before after : List A)
      → front ++ rest ≡ before ++ b ∷ after
      → length front ≤ 1
      → (front ≡ []) ⊎ (length (front ++ rest) ≡ limit)
      → length after ≤ k
      → suc k < limit
      → Recent (suc k) b (rest ++ a ∷ [])
  slide b a [] rest before after o short full le lt = Recent-append b a rest before after o le
  slide b a (f ∷ []) rest [] after o short full le lt = absurd (ground (arith, ap length o))
  slide b a (f ∷ []) rest (x ∷ before) after o short full le lt =
      Recent-append b a rest before after (cc) le
  slide b a (f ∷ g ∷ front) rest before after o short full le lt = absurd (omega arith)

  -- One more element pushes `b` back by one place at most, and out only at the limit.
  pub remember-Recent :
      {limit k : ℕ} {b : A} (a : A) (set order : List A)
      → IsHistory limit set order
      → suc k < limit
      → Recent k b order
      → Recent (suc k) b (remember limit a set order).1
  remember-Recent {limit} {k} {b} a set order h lt (before, after, p, le) =
      elim (remember-Remembers a set order (omega arith) h) [
        | inl (_, e) ↦ rw e (before, after, p, omega arith)
        | inr (front, rest, o, short, full, _, _, e) ↦ rw e (
            slide b a front rest before after (sym o ∙ p) short
              (subst (λ s. (front ≡ []) ⊎ (length s ≡ limit)) o full) le lt)
      ]

  All-append_right {κ} : (P : A → Type κ) (xs ys : List A) → All P (xs ++ ys) → All P ys
  All-append_right P [] ys h = h
  All-append_right P (x ∷ xs) ys h = All-append_right P xs ys h.1

  pub remember-All {κ} :
      {limit : ℕ} (P : A → Type κ) (a : A) (set order : List A)
      → 0 < limit
      → IsHistory limit set order
      → P a
      → All P order
      → All P (remember limit a set order).1
  remember-All P a set order pos h pa ps = elim (remember-Remembers a set order pos h) [
    | inl (_, e) ↦ rw e ps
    | inr (front, rest, o, _, _, _, _, e) ↦
        rw e
          (All-append P rest (a ∷ []) (All-append_right P front rest (subst (All P) o ps)) (pa, tt))
  ]

  -- What is remembered is never nothing.
  pub remember-ne-nil :
      {limit : ℕ} (a : A) (set order : List A)
      → 0 < limit
      → IsHistory limit set order
      → (remember limit a set order).1 ≢ []
  unfolding contains
  remember-ne-nil a set order pos h = elim (remember-Remembers a set order pos h) [
    | inl (k, e) ↦ rw e (λ nil. ground (arith, h.same, nil))
    | inr (front, [], o, _, _, _, _, e) ↦ rw e (λ nil. cc)
    | inr (front, x ∷ rest, o, _, _, _, _, e) ↦ rw e (λ nil. cc)
  ]
