-- ===== src/Room/Replay.antt =====
-- Event sourcing: the events that `Room::create` and `Room::execute` return rebuild the room by
-- `Room::restore` (crates/foundation/domain/src/lib.rs).
use fluvora.Prelude.{ℕ, ◌≡◌, refl, ◌∙◌, true, List, [], ◌∷◌, ◌++◌, arith, Result, ok, err}
use fluvora.Room.Apply.{apply, create, replay, restore, execute}
use fluvora.Room.Execute.{execute_cases}
use fluvora.Room.Model.{
  RoomMode, sfu, p2p, live, vod, mode_beq, RoomPolicy, RoomCommand, RoomEvent, CommandOutcome,
  applied, duplicate, Room, RoomError,
}

-- A command with its identifier and the server's time.
pub record Request : Type 0 where
  pub command_id : ℕ
  pub timestamp_millis : ℕ
  pub command : RoomCommand

abbrev pub emitted : Result RoomError CommandOutcome → List RoomEvent
emitted (ok (applied event)) = event ∷ []
emitted (ok duplicate) = []
emitted (err e) = []

-- A history of requests: the room after it, and the events that the caller persists.
unfoldable pub run : Room → List Request → Room × List RoomEvent
run room [] = (room, [])
run room (r ∷ requests) =
    let (next, outcome) = execute room r.command_id r.timestamp_millis r.command in
    let (last, events) = run next requests in (last, emitted outcome ++ events)

replay-append :
    (room next : Room) (first second : List RoomEvent)
    → replay room first ≡ ok next
    → replay room (first ++ second) ≡ replay next second
unfolding replay
replay-append room next [] second e = ground (arith, e)
replay-append room next (x ∷ first) second e =
    ground (arith, replay-append (apply room x) next first second)

-- One request: its events carry the room to the room after it.
replay-execute :
    (room : Room) (command_id timestamp_millis : ℕ) (command : RoomCommand)
    → let r = execute room command_id timestamp_millis command in replay room (emitted r.1) ≡ ok r.0
unfolding replay
replay-execute room command_id timestamp_millis command =
    execute_cases (λ r. replay room (emitted r.1) ≡ ok r.0) room command_id timestamp_millis command
      (λ _. refl) (λ _ _. refl) (λ _ _. refl) (λ _ _ _. refl) λ kind _ _ _ fits. ground arith

replay-run :
    (room : Room) (requests : List Request)
    → replay room (run room requests).1 ≡ ok (run room requests).0
unfolding run
replay-run room [] = unfold replay in refl
replay-run room (r ∷ requests) =
    let (next, outcome) = execute room r.command_id r.timestamp_millis r.command in
    replay-append room next (emitted outcome) (run next requests).1
      (replay-execute room r.command_id r.timestamp_millis r.command)
    ∙ replay-run next requests

mode_beq_refl : (mode : RoomMode) → mode_beq mode mode ≡ true
mode_beq_refl sfu = refl
mode_beq_refl p2p = refl
mode_beq_refl live = refl
mode_beq_refl vod = refl

-- A room that was created and then took any requests is restored exactly, in every field, from the
-- creation event followed by the events of the requests that were applied.
pub restore-run :
    (id : ℕ) (mode : RoomMode) (user : ℕ) (policy : RoomPolicy) (command_id timestamp_millis : ℕ)
    (requests : List Request)
    → let (room, event) = create id mode user policy command_id timestamp_millis in
      let (last, events) = run room requests in restore id mode policy (event ∷ events) ≡ ok last
unfolding restore create
restore-run id mode user policy command_id timestamp_millis requests =
    rw (mode_beq_refl mode) (replay-run _ requests)
