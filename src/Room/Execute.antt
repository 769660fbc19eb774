-- ===== src/Room/Execute.antt =====
-- The ways in which `Room::execute` can end, as one rule that every fact about it uses.
use fluvora.Prelude.{nat_eq}
use fluvora.Prelude.{
  ℕ, ◌+◌, ◌^◌, ◌<◌, ◌≡◌, refl, true, false, arith, Result, ok, err, Bool-cases, inl, inr, ltb,
  tests, ◌≤◌,
}
use fluvora.Prelude.Sets
use fluvora.Room.Decide.{decide}
use fluvora.Room.Apply.{apply, commit, execute}
use fluvora.Room.Model.{
  RoomCommand, RoomEventKind, RoomEvent, CommandOutcome, applied, duplicate, Room, RoomError,
  sequence_exhausted, room_ended,
}

-- The event that `execute` makes of a decision.
abbrev pub next_event : Room → ℕ → ℕ → RoomEventKind → RoomEvent
next_event room command_id timestamp_millis kind = record {
  sequence = room.sequence + 1;
  command_id = command_id;
  timestamp_millis = timestamp_millis;
  kind = kind;
}

module _ {ℓ} (P : Room × Result RoomError CommandOutcome → Type ℓ) (room : Room)
    (command_id timestamp_millis : ℕ) where
  commit_cases :
      (decision : Result RoomError RoomEventKind)
      → ((e : RoomError) → decision ≡ err e → P (room, err e))
      → ((kind : RoomEventKind)
          → decision ≡ ok kind
          → 2 ^ 64 ≤ room.sequence + 1
          → P (room, err sequence_exhausted))
      → ((kind : RoomEventKind)
          → decision ≡ ok kind
          → room.sequence + 1 < 2 ^ 64
          → let event = next_event room command_id timestamp_millis kind in
            P (apply room event, ok (applied event)))
      → P (commit room command_id timestamp_millis decision)
  unfolding commit
  commit_cases (err e) refused exhausted done = refused e refl
  commit_cases (ok kind) refused exhausted done =
      elim (Bool-cases (ltb (room.sequence + 1) (2 ^ 64))) [
        | inl fits ↦ rw (fits, commit) (done kind refl (omega tests))
        | inr full ↦ rw (full, commit) (exhausted kind refl (ground arith))
      ]

  pub execute_cases :
      (command : RoomCommand)
      → (Sets.contains command_id room.processed_commands ≡ true → P (room, ok duplicate))
      → (Sets.contains command_id room.processed_commands ≡ false
          → room.ended ≡ true
          → P (room, err room_ended))
      → ((e : RoomError) → decide room command ≡ err e → P (room, err e))
      → ((kind : RoomEventKind)
          → decide room command ≡ ok kind
          → 2 ^ 64 ≤ room.sequence + 1
          → P (room, err sequence_exhausted))
      → ((kind : RoomEventKind)
          → Sets.contains command_id room.processed_commands ≡ false
          → room.ended ≡ false
          → decide room command ≡ ok kind
          → room.sequence + 1 < 2 ^ 64
          → let event = next_event room command_id timestamp_millis kind in
            P (apply room event, ok (applied event)))
      → P (execute room command_id timestamp_millis command)
  unfolding execute
  execute_cases command known over refused exhausted done =
      elim (Bool-cases (Sets.contains command_id room.processed_commands)) [
        | inl k ↦ rw k (known k)
        | inr fresh ↦ elim (Bool-cases room.ended) [
          | inl e ↦ simp (fresh, e) (over fresh e)
          | inr live ↦
              simp (fresh, live)
                (commit_cases (decide room command) refused exhausted
                  (λ kind d fits. done kind fresh live d fits))
        ]
      ]
