-- ===== src/Room/Apply.antt =====
-- `Room::empty`, `Room::apply`, `Room::create`, `Room::restore` and `Room::execute`
-- (crates/foundation/domain/src/lib.rs). A method that takes `&mut self` returns the room after it.
use fluvora.Prelude.{nat_eq, list_eq}
use fluvora.Prelude.{
  ℕ, ◌+◌, ◌%◌, ◌^◌, Bool, true, false, not, List, [], ◌∷◌, none, some, ◌==◌, if◌then◌else◌, Result,
  ok, err,
}
use fluvora.Prelude.Text.{Text}
use fluvora.Prelude.Words.{checked_add}
use fluvora.Prelude.Sets
use fluvora.Prelude.Maps
use fluvora.Room.History.{remember}
use fluvora.Room.Decide.{decide}
use fluvora.Room.Model.{
  RoomMode, mode_beq, MemberRole, host, can_publish, RoomPolicy, RoomCommand, RoomEventKind,
  created, member_joined, member_left, role_changed, publishing_started, publishing_stopped,
  chat_sent, gift_recorded, custom_data_sent, ended, RoomEvent, CommandOutcome, applied, duplicate,
  Room, RoomError, empty_event_stream, invalid_creation_event, event_sequence_gap,
  sequence_exhausted, room_ended, command_history_limit, gift_transaction_history_limit,
}

unfoldable pub empty : ℕ → RoomMode → RoomPolicy → Room
empty id mode policy = record {
  id = id;
  mode = mode;
  policy = policy;
  members = [];
  publishers = [];
  ended = false;
  sequence = 0;
  processed_commands = [];
  command_order = [];
  gift_transactions = [];
  gift_transaction_order = [];
}

unfoldable pub remember_command : ℕ → Room → Room
remember_command command_id room =
    let (set, order) =
      remember command_history_limit command_id room.processed_commands room.command_order in
    record room { processed_commands = set; command_order = order }

unfoldable pub remember_gift_transaction : Text → Room → Room
remember_gift_transaction transaction_id room =
    let (set, order) =
      remember gift_transaction_history_limit transaction_id room.gift_transactions
        room.gift_transaction_order in
    record room { gift_transactions = set; gift_transaction_order = order }

-- The common arm of `MemberJoined` and `RoleChanged`.
unfoldable pub set_member : ℕ → MemberRole → Room → Room
set_member user role room = record room {
  members = Maps.insert user role room.members;
  publishers = if can_publish role then room.publishers else Sets.remove user room.publishers;
}

unfoldable pub apply_kind : RoomEventKind → Room → Room
unfolding set_member remember_gift_transaction
apply_kind (created user mode) room = record room { members = Maps.insert user host room.members }
apply_kind (member_joined user role) room = set_member user role room
apply_kind (role_changed user role) room = set_member user role room
apply_kind (member_left user) room = record room {
  members = Maps.remove user room.members;
  publishers = Sets.remove user room.publishers;
}
apply_kind (publishing_started user) room = record room {
  publishers = Sets.insert user room.publishers;
}
apply_kind (publishing_stopped user) room = record room {
  publishers = Sets.remove user room.publishers;
}
apply_kind (gift_recorded sender receipt total_value) room =
    remember_gift_transaction receipt.transaction_id room
apply_kind (ended actor) room = record room { publishers = []; ended = true }
apply_kind (chat_sent user message_id text) room = room
apply_kind (custom_data_sent user custom) room = room

unfoldable pub apply : Room → RoomEvent → Room
unfolding apply_kind remember_command
apply room event =
    remember_command event.command_id
      (record (apply_kind event.kind room) { sequence = event.sequence })

unfoldable pub create : ℕ → RoomMode → ℕ → RoomPolicy → ℕ → ℕ → Room × RoomEvent
unfolding empty apply
create id mode user policy command_id timestamp_millis =
    let event : RoomEvent = record {
      sequence = 1;
      command_id = command_id;
      timestamp_millis = timestamp_millis;
      kind = created user mode;
    } in
    (apply (empty id mode policy) event, event)

-- The loop of `restore`; `u64` addition wraps.
unfoldable pub replay : Room → List RoomEvent → Result RoomError Room
replay room [] = ok room
replay room (event ∷ events) =
    let expected = (room.sequence + 1) % 2 ^ 64 in
    let rest = replay (apply room event) events in
    if event.sequence == expected then rest else err (event_sequence_gap expected event.sequence)

abbrev creates : RoomMode → RoomEventKind → Bool
creates mode (created user event_mode) = mode_beq event_mode mode
creates mode _ = false

unfoldable pub restore : ℕ → RoomMode → RoomPolicy → List RoomEvent → Result RoomError Room
unfolding replay empty
restore id mode policy [] = err empty_event_stream
restore id mode policy (first ∷ events) =
    if not (creates mode first.kind)
    then err invalid_creation_event
    else replay (empty id mode policy) (first ∷ events)

-- What `execute` does with the decision.
unfoldable pub commit :
    Room → ℕ → ℕ → Result RoomError RoomEventKind → Room × Result RoomError CommandOutcome
unfolding apply
commit room command_id timestamp_millis (err e) = (room, err e)
commit room command_id timestamp_millis (ok kind) = elim (checked_add 64 room.sequence 1) [
  | none ↦ (room, err sequence_exhausted)
  | some sequence ↦
      let event : RoomEvent = record {
        sequence = sequence;
        command_id = command_id;
        timestamp_millis = timestamp_millis;
        kind = kind;
      } in
      (apply room event, ok (applied event))
]

unfoldable pub execute : Room → ℕ → ℕ → RoomCommand → Room × Result RoomError CommandOutcome
unfolding commit
execute room command_id timestamp_millis command =
    if Sets.contains command_id room.processed_commands
    then (room, ok duplicate)
    else if room.ended
    then (room, err room_ended)
    else commit room command_id timestamp_millis (decide room command)
