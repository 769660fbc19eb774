-- ===== src/Srtp/Index.antt =====
-- Packet indexes: what `estimate_index` recovers, and that a sender never uses an index twice.
use fluvora.Prelude.{
  ℕ, ◌+◌, ◌%◌, ◌^◌, ◌≤◌, ◌<◌, ◌≡◌, refl, Option, none, some, false, Result, ok, err, List, [], ◌∷◌,
  arith, Bool-cases, inl, inr, ltb, ◌⊎◌,
}
use fluvora.Srtp.Errors.{SrtpError, non_monotonic_sequence, packet_index_exhausted}
use fluvora.Srtp.Replay.{estimate_index, advance, at_most, max_srtp_index}

-- Where the index of a packet is less than half a cycle of 16 bits away from the highest index, which
-- fits 48 bits, the estimate from that highest index and the low 16 bits of the packet's index is the
-- packet's index.
pub estimate_index-near :
    (highest index : ℕ)
    → index < highest + 2 ^ 15
    → highest < index + 2 ^ 15
    → highest ≤ max_srtp_index
    → estimate_index (some highest) (index % 2 ^ 16) ≡ index
unfolding estimate_index
estimate_index-near highest index above below room = ground arith

abbrev pub prepend : Result SrtpError ℕ → List ℕ → List ℕ
prepend (ok index) rest = index ∷ rest
prepend (err e) rest = rest

-- Sending a list of sequence numbers: the indexes that were used, in order.
unfoldable pub advance_all : Option ℕ → List ℕ → List ℕ
advance_all highest [] = []
advance_all highest (s ∷ ss) = let (next, r) = advance highest s in prepend r (advance_all next ss)

-- Each index is above `floor` and the ones before it, and fits 48 bits.
abbrev pub Increasing : Option ℕ → List ℕ → Type 0
Increasing floor [] = Unit {0}
Increasing none (i ∷ is) = (i ≤ max_srtp_index) × Increasing (some i) is
Increasing (some floor) (i ∷ is) = (floor < i) × (i ≤ max_srtp_index) × Increasing (some i) is

abbrev pub Above : Option ℕ → ℕ → Type 0
Above none i = Unit {0}
Above (some floor) i = floor < i

at_most-Above : (highest : Option ℕ) (i : ℕ) → at_most highest i ≡ false → Above highest i
at_most-Above none i h = tt
at_most-Above (some h') i h = ground arith

grow :
    (highest : Option ℕ) (i : ℕ) (is : List ℕ)
    → i ≤ max_srtp_index
    → Above highest i
    → Increasing (some i) is
    → Increasing highest (i ∷ is)
grow none i is fits above h = (fits, h)
grow (some f) i is fits above h = (above, fits, h)

-- One packet: a new highest index, or no change.
pub advance_cases :
    (highest : Option ℕ) (s : ℕ)
    → ((i : ℕ) × (advance highest s ≡ (some i, ok i))
        × (i ≤ max_srtp_index)
        × Above highest i
        × (estimate_index highest s ≡ i))
      ⊎ ((e : SrtpError) × (advance highest s ≡ (highest, err e)))
unfolding advance
advance_cases highest s =
    let i = estimate_index highest s in
    elim (Bool-cases (at_most highest i)) [
      | inl old ↦ rw old (inr (non_monotonic_sequence, refl))
      | inr new ↦ elim (Bool-cases (ltb max_srtp_index i)) [
        | inl over ↦ rw (new, over) (inr (packet_index_exhausted, refl))
        | inr fits ↦ rw (new, fits) (inl (i, refl, ground arith, at_most-Above highest i new, refl))
      ]
    ]

advance_all-from : (ss : List ℕ) (highest : Option ℕ) → Increasing highest (advance_all highest ss)
unfolding advance_all
advance_all-from [] highest = tt
advance_all-from (s ∷ ss) highest = elim (advance_cases highest s) [
  | inl (i, e, fits, above, same) ↦
      rw e (grow highest i (advance_all (some i) ss) fits above (advance_all-from ss (some i)))
  | inr (x, e) ↦ rw e (advance_all-from ss highest)
]

-- Whatever sequence numbers a sender is asked for, the packet indexes that it uses grow strictly and
-- fit 48 bits, so that no index, and with it no key stream, is used twice.
pub advance_all-Increasing : (ss : List ℕ) → Increasing none (advance_all none ss)
advance_all-Increasing ss = advance_all-from ss none
