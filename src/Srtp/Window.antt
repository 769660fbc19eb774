-- ===== src/Srtp/Window.antt =====
-- The replay window against the list of all indexes that were accepted.
use Prim.Native.Nat.{bit_and, bit_or}
use fluvora.Prelude.{nat_eq}
use fluvora.Prelude.{
  ℕ, ◌-◌, ◌*◌, ◌%◌, ◌^◌, ◌≤◌, ◌<◌, ◌≡◌, refl, ◌∙◌, subst, Option, none, some, Bool, true, false,
  not, ltb, leb, ◌==◌, if◌then◌else◌, Result, ok, err, List, [], ◌∷◌, arith, ◌⊎◌, inl, inr,
  Bool-cases, Result-cases,
}
use native.Mathlib.Decide.{dec_lt}
use fluvora.Prelude.Bits.{bit, bit-bit_or, bit-pow, bit_and-pow, bit-shift, bit-mod_pow, pow_pos}
use fluvora.Prelude.Sets.{contains, Distinct}
use fluvora.Srtp.Errors.{SrtpError, replay_detected, packet_too_old}
use fluvora.Srtp.Replay.{
  ReplayWindow, empty_window, check, check_at, check_below, accept, accept_at, accept_below,
}

-- Below the highest index `m` the bitmap remembers the last 64 places.
pub record TracksBelow (bitmap m : ℕ) (accepted : List ℕ) : Type 0 where
  pub highest : contains m accepted ≡ true
  pub above : (i : ℕ) → m < i → contains i accepted ≡ false
  pub bits : (d : ℕ) → d < 64 → d ≤ m → bit bitmap d ≡ contains (m - d) accepted

abbrev pub TracksAt : Option ℕ → ℕ → List ℕ → Type 0
TracksAt none bitmap accepted = accepted ≡ []
TracksAt (some m) bitmap accepted = TracksBelow bitmap m accepted

abbrev pub Tracks : ReplayWindow → List ℕ → Type 0
Tracks w accepted = TracksAt w.maximum w.bitmap accepted

-- What the check answers, in terms of the accepted indexes.
abbrev pub Verdict : List ℕ → Option ℕ → ℕ → Result SrtpError (Unit {0}) → Type 0
Verdict accepted none i r = r ≡ ok tt
Verdict accepted (some m) i r =
    ((m < i) × (r ≡ ok tt))
    ⊎ ((i ≤ m) × (64 ≤ m - i) × (r ≡ err packet_too_old))
    ⊎ ((i ≤ m) × (m - i < 64) × (contains i accepted ≡ true) × (r ≡ err replay_detected))
    ⊎ ((i ≤ m) × (m - i < 64) × (contains i accepted ≡ false) × (r ≡ ok tt))

-- The test that the check makes on the bitmap.
tested : (a d : ℕ) → not (bit_and a (2 ^ d) == 0) ≡ bit a d
tested a d = ground (arith, bit_and-pow d a, pow_pos d)

check_below-Verdict :
    (w : ReplayWindow) (m : ℕ) (accepted : List ℕ) (i : ℕ)
    → TracksBelow w.bitmap m accepted
    → Verdict accepted (some m) i (check_below w m i)
unfolding check_below
check_below-Verdict w m accepted i t = rw (tested w.bitmap (m - i)) (elim (dec_lt m i) [
  | yes past ↦ ground arith
  | no inside ↦ let same : m - (m - i) ≡ i = omega arith in ground (arith, same, t.bits (m - i))
])

-- The bits of the window that moved up by `k`.
moved_up :
    (b k d : ℕ)
    → 0 < k
    → d < 64
    → bit (bit_or (b * 2 ^ k % 2 ^ 64) 1) d
      ≡ (if d == 0 then true else if leb k d then bit b (d - k) else false)
moved_up b k d pos small =
    bit-bit_or d (b * 2 ^ k % 2 ^ 64) 1
    ∙ ground (arith, bit-mod_pow 64 (b * 2 ^ k) d, bit-shift k b d, bit-pow 0 d)

advanced :
    (b m : ℕ) (accepted : List ℕ) (i : ℕ)
    → TracksBelow b m accepted
    → m < i
    → TracksBelow
        (if leb 64 (i - m) then 1 else bit_or (b * 2 ^ (i - m) % 2 ^ 64) 1)
        i
        (i ∷ accepted)
unfolding contains
advanced b m accepted i t past = record {
  highest = ground arith;
  above = λ j h. ground (arith, t.above j (omega arith));
  bits = λ d small within.
      let shifted : leb (i - m) d ≡ true → i - d ≡ m - (d - (i - m)) = λ h. ground arith in
      ground
        (arith, moved_up b (i - m) d, bit-pow 0 d, t.bits (d - (i - m)), t.above (i - d), shifted);
}

marked :
    (b m : ℕ) (accepted : List ℕ) (i : ℕ)
    → TracksBelow b m accepted
    → i ≤ m
    → m - i < 64
    → TracksBelow (bit_or b (2 ^ ((m - i) % 64))) m (i ∷ accepted)
unfolding contains
marked b m accepted i t inside recent =
    let same : (m - i) % 64 ≡ m - i = omega arith in
    rw same (record {
      highest = ground (arith, t.highest);
      above = λ j h. ground (arith, t.above j h);
      bits = λ d small within.
          ground (arith, bit-bit_or d b (2 ^ (m - i)), bit-pow (m - i) d, t.bits d);
    })

check_at-Verdict :
    (o : Option ℕ) (w : ReplayWindow) (accepted : List ℕ) (i : ℕ)
    → TracksAt o w.bitmap accepted
    → Verdict accepted o i (check_at o w i)
unfolding check_at
check_at-Verdict none w accepted i t = refl
check_at-Verdict (some m) w accepted i t = check_below-Verdict w m accepted i t

-- The check answers exactly by what was accepted: a new index above the highest or within the last
-- 64 places passes, one that was accepted there is a replay, and an older one is too old.
pub check-Verdict :
    (w : ReplayWindow) (accepted : List ℕ) (i : ℕ)
    → Tracks w accepted
    → Verdict accepted w.maximum i (check w i)
unfolding check
check-Verdict w accepted i t = check_at-Verdict w.maximum w accepted i t

accept_below-Tracks :
    (w : ReplayWindow) (m : ℕ) (accepted : List ℕ) (i : ℕ)
    → w.maximum ≡ some m
    → TracksBelow w.bitmap m accepted
    → (i ≤ m → m - i < 64)
    → Tracks (accept_below w m i) (i ∷ accepted)
unfolding accept_below
accept_below-Tracks w m accepted i e t recent = elim (Bool-cases (ltb m i)) [
  | inl past ↦ rw past (advanced w.bitmap m accepted i t (ground arith))
  | inr inside ↦
      rw inside (rw e (marked w.bitmap m accepted i t (ground arith) (recent (ground arith))))
]

first_accepted : (i : ℕ) → TracksBelow 1 i (i ∷ [])
unfolding contains
first_accepted i = record {
  highest = ground arith;
  above = λ j h. ground arith;
  bits = λ d small within. ground (arith, bit-pow 0 d);
}

accept_at-Tracks :
    (o : Option ℕ) (w : ReplayWindow) (accepted : List ℕ) (i : ℕ)
    → w.maximum ≡ o
    → TracksAt o w.bitmap accepted
    → Verdict accepted o i (ok tt)
    → Tracks (accept_at o w i) (i ∷ accepted) × (contains i accepted ≡ false)
unfolding accept_at
accept_at-Tracks none w accepted i e t v = rw t (first_accepted i, unfold contains in refl)
accept_at-Tracks (some m) w accepted i e t v =
    (accept_below-Tracks w m accepted i e t (λ h. ground arith), ground (arith, t.above i))

-- An index that passes the check was not accepted before, and after it the window tracks it too.
pub accept-Tracks :
    (w : ReplayWindow) (accepted : List ℕ) (i : ℕ)
    → Tracks w accepted
    → check w i ≡ ok tt
    → Tracks (accept w i) (i ∷ accepted) × (contains i accepted ≡ false)
unfolding accept
accept-Tracks w accepted i t passed =
    accept_at-Tracks w.maximum w accepted i refl t
      (subst (Verdict accepted w.maximum i) passed (check-Verdict w accepted i t))

-- `check` and, if it passes, `accept`, as `unprotect_rtp` calls them around the authentication.
unfoldable pub receive : ReplayWindow → ℕ → ReplayWindow × Bool
receive w i = elim (check w i) [ ok _ ↦ (accept w i, true) | err _ ↦ (w, false) ]

-- The indexes that pass, the newest first.
unfoldable pub receive_all : ReplayWindow → List ℕ → List ℕ → List ℕ
receive_all w accepted [] = accepted
receive_all w accepted (i ∷ is) =
    let (w', passed) = receive w i in receive_all w' (if passed then i ∷ accepted else accepted) is

receive-Tracks :
    (w : ReplayWindow) (accepted : List ℕ) (i : ℕ)
    → Tracks w accepted
    → Distinct accepted
    → let (w', passed) = receive w i in
      let accepted' = if passed then i ∷ accepted else accepted in
      Tracks w' accepted' × Distinct accepted'
unfolding receive
receive-Tracks w accepted i t d = elim (Result-cases (check w i)) [
  | inl (u, e) ↦
      let (t', fresh) = accept-Tracks w accepted i t e in rw (e, receive) (t', (fresh, d))
  | inr (x, e) ↦ rw (e, receive) (t, d)
]

receive_all-Distinct :
    (is : List ℕ) (w : ReplayWindow) (accepted : List ℕ)
    → Tracks w accepted
    → Distinct accepted
    → Distinct (receive_all w accepted is)
unfolding receive_all
receive_all-Distinct [] w accepted t d = d
receive_all-Distinct (i ∷ is) w accepted t d =
    let (t', d') = receive-Tracks w accepted i t d in
    receive_all-Distinct is (receive w i).0 _ t' d'

-- From an empty window on, no index passes twice, whatever arrives and in whatever order.
pub no_replay : (is : List ℕ) → Distinct (receive_all empty_window [] is)
unfolding empty_window
no_replay is = receive_all-Distinct is empty_window [] refl tt
