-- ===== src/Srtp/Tests.antt =====
-- Runs of the replay window, and the theorems of the SRTP modules at concrete inputs.
use fluvora.Prelude.{nat_eq}
use fluvora.Prelude.{ℕ, ◌^◌, ◌%◌, ◌≡◌, refl, List, [], ◌∷◌, arith, some, none, ok}
use fluvora.Prelude.Sets.{Distinct}
use fluvora.Srtp.Replay.{empty_window, check, accept, estimate_index, advance}
use fluvora.Srtp.Window.{
  Tracks, Verdict, check-Verdict, accept-Tracks, receive, receive_all, no_replay,
}
use fluvora.Srtp.Index.{estimate_index-near, advance_all, Increasing, advance_all-Increasing}

abbrev arrivals : List ℕ
arrivals = 100 ∷ 98 ∷ 98 ∷ 101 ∷ 100 ∷ 99 ∷ 20 ∷ []

accepted_arrivals : receive_all empty_window [] arrivals ≡ 99 ∷ 101 ∷ 98 ∷ 100 ∷ []
unfolding receive_all receive check accept empty_window
accepted_arrivals = refl

no_replay_example : Distinct (receive_all empty_window [] arrivals)
no_replay_example = no_replay arrivals

fresh-Tracks : Tracks empty_window []
unfolding empty_window
fresh-Tracks = refl

first_passes : check empty_window 100 ≡ ok tt
unfolding check empty_window
first_passes = refl

check-Verdict_example :
    Verdict (100 ∷ []) (accept empty_window 100).maximum 100 (check (accept empty_window 100) 100)
check-Verdict_example =
    check-Verdict (accept empty_window 100) (100 ∷ []) 100
      (accept-Tracks empty_window [] 100 fresh-Tracks first_passes).0

estimate_index-near_example : estimate_index (some 65_530) (65_540 % 2 ^ 16) ≡ 65_540
estimate_index-near_example =
    estimate_index-near 65_530 65_540 (omega arith) (omega arith) (omega arith)

advance_all-Increasing_example : Increasing none (advance_all none (65_535 ∷ 0 ∷ 0 ∷ 7 ∷ []))
advance_all-Increasing_example = advance_all-Increasing (65_535 ∷ 0 ∷ 0 ∷ 7 ∷ [])

sent_indexes : advance_all none (65_535 ∷ 0 ∷ 0 ∷ 7 ∷ []) ≡ 65_535 ∷ 65_536 ∷ 65_543 ∷ []
unfolding advance_all advance estimate_index
sent_indexes = refl
