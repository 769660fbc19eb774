-- ===== src/Room/Idempotence.antt =====
-- Requests that come twice: the command history and the gift history of a room.
use fluvora.Prelude.{nat_eq, list_eq}
use fluvora.Prelude.{
  ℕ, suc, ◌+◌, ◌<◌, ◌≡◌, refl, sym, subst, true, List, [], ◌∷◌, arith, length, Result, ok,
}
use fluvora.Prelude.Sets
use fluvora.Room.History.{remember, Recent, remember-Recent, remember-Recent_self, contains-Recent}
use fluvora.Room.Apply.{apply, apply_kind, remember_command, execute}
use fluvora.Room.Execute.{next_event, execute_cases}
use fluvora.Room.Invariant.{IsValid, execute-IsValid}
use fluvora.Room.Replay.{Request, run}
use fluvora.Room.Model.{
  RoomCommand, RoomEventKind, created, RoomEvent, CommandOutcome, applied, duplicate, Room,
  RoomError, command_history_limit,
}

apply_kind_order :
    (kind : RoomEventKind) (room : Room)
    → ((apply_kind kind room).processed_commands ≡ room.processed_commands)
      × ((apply_kind kind room).command_order ≡ room.command_order)
unfolding apply_kind
apply_kind_order (created user mode) room = (refl, refl)
apply_kind_order _ room = (refl, refl)

apply_order :
    (room : Room) (event : RoomEvent)
    → (apply room event).command_order
      ≡ (remember command_history_limit event.command_id room.processed_commands
          room.command_order).1
unfolding apply remember_command
apply_order room event = let (p, o) = apply_kind_order event.kind room in rw (p, o)

pub run-IsValid :
    (requests : List Request) (room : Room) → IsValid room → IsValid (run room requests).0
unfolding run
run-IsValid [] room v = v
run-IsValid (r ∷ requests) room v =
    run-IsValid requests _ (execute-IsValid room r.command_id r.timestamp_millis r.command v)

execute-Recent :
    {k b : ℕ} (room : Room) (command_id timestamp_millis : ℕ) (command : RoomCommand)
    → IsValid room
    → suc k < command_history_limit
    → Recent k b room.command_order
    → Recent (suc k) b (execute room command_id timestamp_millis command).0.command_order
execute-Recent {k} {b} room command_id timestamp_millis command v lt (front, back, e, le) =
    execute_cases (λ r. Recent (suc k) b r.0.command_order) room command_id timestamp_millis command
      (λ _. kept) (λ _ _. kept) (λ _ _. kept) (λ _ _ _. kept)
      λ kind _ _ _ _. rw (apply_order room (next_event room command_id timestamp_millis kind)) (
        remember-Recent command_id room.processed_commands room.command_order v.commands lt
          (front, back, e, le))
  where
    kept : Recent (suc k) b room.command_order
    kept = (front, back, e, omega arith)

run-Recent :
    (requests : List Request) (k b : ℕ) (room : Room)
    → IsValid room
    → k + length requests < command_history_limit
    → Recent k b room.command_order
    → Recent (k + length requests) b (run room requests).0.command_order
unfolding run
run-Recent [] k b room v lt (front, back, e, le) = (front, back, e, omega arith)
run-Recent (r ∷ requests) k b room v lt h =
    let next = (execute room r.command_id r.timestamp_millis r.command).0 in
    let same : suc k + length requests ≡ k + suc (length requests) = omega arith in
    subst (λ n. Recent n b (run next requests).0.command_order) same
      (run-Recent requests (suc k) b next
        (execute-IsValid room r.command_id r.timestamp_millis r.command v) (omega arith)
        (execute-Recent room r.command_id r.timestamp_millis r.command v (omega arith) h))

known_duplicate :
    (room : Room) (command_id timestamp_millis : ℕ) (command : RoomCommand)
    → Sets.contains command_id room.processed_commands ≡ true
    → execute room command_id timestamp_millis command ≡ (room, ok duplicate)
unfolding execute
known_duplicate room command_id timestamp_millis command h = rw h

IsApplied : Result RoomError CommandOutcome → Type 0
IsApplied r = (event : RoomEvent) × (r ≡ ok (applied event))

-- An applied command is the newest of the history.
applied-Recent :
    (room : Room) (command_id timestamp_millis : ℕ) (command : RoomCommand)
    → IsValid room
    → let r = execute room command_id timestamp_millis command in
      IsApplied r.1 → Recent 0 command_id r.0.command_order
unfolding IsApplied
applied-Recent room command_id timestamp_millis command v =
    execute_cases (λ r. IsApplied r.1 → Recent 0 command_id r.0.command_order) room command_id
      timestamp_millis command (λ _ a. cc a.1) (λ _ _ a. cc a.1) (λ _ _ a. cc a.1)
      (λ _ _ _ a. cc a.1)
      λ kind fresh _ _ _ a.
        rw (apply_order room (next_event room command_id timestamp_millis kind)) (
          remember-Recent_self command_id room.processed_commands room.command_order (omega arith)
            v.commands fresh)

-- Once a command was applied to a valid room, the same identifier is answered `Duplicate`, with the
-- room left as it is, after any further requests, as long as these are fewer than 4096; whatever the
-- command and the time that come with the identifier.
pub execute_again :
    (room : Room) (command_id timestamp_millis : ℕ) (command : RoomCommand) (event : RoomEvent)
    (requests : List Request) (later : ℕ) (command' : RoomCommand)
    → IsValid room
    → (execute room command_id timestamp_millis command).1 ≡ ok (applied event)
    → length requests < 4096
    → let next = (execute room command_id timestamp_millis command).0 in
      let last = (run next requests).0 in
      execute last command_id later command' ≡ (last, ok duplicate)
unfolding IsApplied
execute_again room command_id timestamp_millis command event requests later command' v e few =
    let next = (execute room command_id timestamp_millis command).0 in
    let next_valid : IsValid next = execute-IsValid room command_id timestamp_millis command v in
    let last = (run next requests).0 in
    let recent : Recent (0 + length requests) command_id last.command_order =
      run-Recent requests 0 command_id next next_valid (omega arith)
        (applied-Recent room command_id timestamp_millis command v (event, e)) in
    known_duplicate last command_id later command' (
      subst (λ s. Sets.contains command_id s ≡ true)
        (sym (run-IsValid requests next next_valid).commands.same) (contains-Recent recent))
