-- ===== src/Rtp/Sequence.antt =====
-- `SequenceNumberExtender` and `TimestampExtender` of crates/webrtc/rtp/src/sequence.rs, and the
-- same computation as `estimate_index` in crates/webrtc/srtp/src/replay.rs. Values are `u64`.
use fluvora.Prelude.{
  ℕ, ◌+◌, ◌-◌, ◌*◌, ◌/◌, ◌%◌, ◌^◌, ◌≤◌, ◌<◌, ◌≡◌, refl, Option, none, some, ◌&&◌, arith, ltb, leb,
  if◌then◌else◌, List, [], ◌∷◌, map, ap,
}
use fluvora.Prelude.Words.{saturating_add}

-- `candidate -= modulus` stands under a guard that keeps it from underflow.
unfoldable pub extend_wrapping : ℕ → ℕ → ℕ → ℕ
extend_wrapping highest value modulus =
    let half = modulus / 2 in
    let base = highest - highest % modulus in
    let candidate = base + value in
    if ltb (saturating_add 64 candidate half) highest
    then saturating_add 64 candidate modulus
    else if ltb (saturating_add 64 highest half) candidate && leb modulus candidate
    then candidate - modulus
    else candidate

-- Both extenders hold the highest extended value.
pub record Extender : Type 0 where
  pub highest : Option ℕ

unfoldable pub new_extender : Extender
new_extender = record { highest = none }

abbrev extended : ℕ → Option ℕ → ℕ → ℕ
extended modulus none value = value
extended modulus (some highest) value = extend_wrapping highest value modulus

abbrev raised : Option ℕ → ℕ → Option ℕ
raised none e = some e
raised (some highest) e = if ltb highest e then some e else some highest

-- The body that the two `extend` methods share.
unfoldable pub extend_by : ℕ → Extender → ℕ → Extender × ℕ
unfolding extend_wrapping
extend_by modulus x value =
    let e = extended modulus x.highest value in (record { highest = raised x.highest e }, e)

unfoldable pub extend_sequence : Extender → ℕ → Extender × ℕ
unfolding extend_by
extend_sequence x value = extend_by (2 ^ 16) x value

unfoldable pub extend_timestamp : Extender → ℕ → Extender × ℕ
unfolding extend_by
extend_timestamp x value = extend_by (2 ^ 32) x value

-- `a` and `b` differ by at most `d`.
abbrev pub Near : ℕ → ℕ → ℕ → Type 0
Near d a b = (a ≤ b + d) × (b ≤ a + d)

-- The index whose low bits are `value`, if the stream has moved by less than half a cycle.
pub extend_wrapping16 :
    (highest index : ℕ)
    → Near (2 ^ 15 - 1) index highest
    → highest < 2 ^ 64 - 2 ^ 17
    → extend_wrapping highest (index % 2 ^ 16) (2 ^ 16) ≡ index
unfolding extend_wrapping
extend_wrapping16 highest index near room = ground arith

extend_wrapping32 :
    (highest index : ℕ)
    → Near (2 ^ 31 - 1) index highest
    → highest < 2 ^ 64 - 2 ^ 33
    → extend_wrapping highest (index % 2 ^ 32) (2 ^ 32) ≡ index
unfolding extend_wrapping
extend_wrapping32 highest index near room = ground arith

-- Each index is less than half a cycle from the highest before it, and below the end of `u64`.
abbrev pub Steady : ℕ → ℕ → List ℕ → Type 0
Steady half highest [] = Unit {0}
Steady half highest (i ∷ is) =
    (highest < 2 ^ 64 - 4 * half)
    × Near (half - 1) i highest
    × Steady half (if ltb highest i then i else highest) is

-- The extender over a stream of received values.
unfoldable pub extend_all : (Extender → ℕ → Extender × ℕ) → Extender → List ℕ → List ℕ
extend_all step x [] = []
extend_all step x (v ∷ vs) = let (x', e) = step x v in e ∷ extend_all step x' vs

raised_if : (h i : ℕ) → raised (some h) i ≡ some (if ltb h i then i else h)
raised_if h i = ground arith

module _ (highest index : ℕ) where
  abbrev after : Extender
  after = record { highest = some (if ltb highest index then index else highest) }

  extend_sequence_step :
      Near (2 ^ 15 - 1) index highest
      → highest < 2 ^ 64 - 2 ^ 17
      → extend_sequence (record { highest = some highest }) (index % 2 ^ 16) ≡ (after, index)
  unfolding extend_sequence
  extend_sequence_step near room =
      rw (extend_wrapping16 highest index near room)
        (ap (λ o. (record { highest = o }, index)) (raised_if highest index))

  extend_timestamp_step :
      Near (2 ^ 31 - 1) index highest
      → highest < 2 ^ 64 - 2 ^ 33
      → extend_timestamp (record { highest = some highest }) (index % 2 ^ 32) ≡ (after, index)
  unfolding extend_timestamp
  extend_timestamp_step near room =
      rw (extend_wrapping32 highest index near room)
        (ap (λ o. (record { highest = o }, index)) (raised_if highest index))

extend_sequence-all :
    (highest : ℕ) (is : List ℕ)
    → Steady (2 ^ 15) highest is
    → extend_all extend_sequence (record { highest = some highest }) (map (λ i. i % 2 ^ 16) is) ≡ is
unfolding extend_all
extend_sequence-all highest [] h = refl
extend_sequence-all highest (i ∷ is) (room, near, rest) =
    rw (extend_sequence_step highest i near (omega arith))
      (ap (◌∷◌ i) (extend_sequence-all (if ltb highest i then i else highest) is rest))

extend_timestamp-all :
    (highest : ℕ) (is : List ℕ)
    → Steady (2 ^ 31) highest is
    → extend_all extend_timestamp (record { highest = some highest }) (map (λ i. i % 2 ^ 32) is)
      ≡ is
unfolding extend_all
extend_timestamp-all highest [] h = refl
extend_timestamp-all highest (i ∷ is) (room, near, rest) =
    rw (extend_timestamp_step highest i near (omega arith))
      (ap (◌∷◌ i) (extend_timestamp-all (if ltb highest i then i else highest) is rest))

first_sequence :
    (first : ℕ)
    → first < 2 ^ 16
    → extend_sequence new_extender (first % 2 ^ 16) ≡ (record { highest = some first }, first)
unfolding extend_sequence new_extender
first_sequence first small =
    let e : first % 2 ^ 16 ≡ first = omega arith in
    ap (λ (v : ℕ). (record { highest = some v }, v)) e

first_timestamp :
    (first : ℕ)
    → first < 2 ^ 32
    → extend_timestamp new_extender (first % 2 ^ 32) ≡ (record { highest = some first }, first)
unfolding extend_timestamp new_extender
first_timestamp first small =
    let e : first % 2 ^ 32 ≡ first = omega arith in
    ap (λ (v : ℕ). (record { highest = some v }, v)) e

-- A new extender that is fed the low 16 bits of a stream of indexes returns the indexes, however
-- often the low bits wrap and in whatever order they come, if the first is in the first cycle and
-- each later one is less than half a cycle from the highest before it, which stays clear of the end
-- of `u64`.
pub extend_all-sequence :
    (first : ℕ) (is : List ℕ)
    → first < 2 ^ 16
    → Steady (2 ^ 15) first is
    → extend_all extend_sequence new_extender (map (λ i. i % 2 ^ 16) (first ∷ is)) ≡ first ∷ is
unfolding extend_all
extend_all-sequence first is small h =
    rw (first_sequence first small) (ap (◌∷◌ first) (extend_sequence-all first is h))

-- The extender of timestamps does the same with their low 32 bits.
pub extend_all-timestamp :
    (first : ℕ) (is : List ℕ)
    → first < 2 ^ 32
    → Steady (2 ^ 31) first is
    → extend_all extend_timestamp new_extender (map (λ i. i % 2 ^ 32) (first ∷ is)) ≡ first ∷ is
unfolding extend_all
extend_all-timestamp first is small h =
    rw (first_timestamp first small) (ap (◌∷◌ first) (extend_timestamp-all first is h))
