-- ===== src/Room/Allowed.antt =====
-- What a decision of `Room::decide` guarantees of the event that it lets happen.
use fluvora.Prelude.{nat_eq, list_eq}
use fluvora.Prelude.{ℕ, ◌<◌, ◌≡◌, true, false, none, arith, length, Result, ok, err}
use fluvora.Prelude.Text.{Text}
use fluvora.Prelude.Sets
use fluvora.Prelude.Maps
use fluvora.Room.Decide.{
  valid_gift_text, decide_join, decide_leave, decide_role_change, decide_start_publishing,
  decide_stop_publishing, decide_chat, decide_gift, decide_custom_data, decide_end, decide,
}
use fluvora.Room.Members.{not_host, may_publish}
use fluvora.Room.Model.{
  vod, mode_beq, MemberRole, audience, is_host, VerifiedGiftReceipt, CustomData, RoomCommand, join,
  leave, set_role, start_publishing, stop_publishing, send_chat, record_verified_gift,
  send_custom_data, end, RoomEventKind, created, member_joined, member_left, role_changed,
  publishing_started, publishing_stopped, gift_recorded, Room, RoomError,
  max_gift_transaction_id_bytes,
}

-- The facts on the room that an event relies on.
abbrev pub Allowed : Room → RoomEventKind → Type 0
Allowed room (created user mode) = ⊥
Allowed room (member_joined user role) =
    (Maps.lookup user room.members ≡ none)
    × (length room.members < room.policy.max_members)
    × (role ≡ audience)
Allowed room (member_left user) =
    (Maps.is_some (Maps.lookup user room.members) ≡ true)
    × (not_host (Maps.lookup user room.members) ≡ true)
Allowed room (role_changed user role) =
    (Maps.is_some (Maps.lookup user room.members) ≡ true)
    × (not_host (Maps.lookup user room.members) ≡ true)
    × (is_host role ≡ false)
Allowed room (publishing_started user) =
    (may_publish (Maps.lookup user room.members) ≡ true)
    × (mode_beq room.mode vod ≡ false)
    × (Sets.contains user room.publishers ≡ false)
    × (length room.publishers < room.policy.max_publishers)
Allowed room (publishing_stopped user) = Sets.contains user room.publishers ≡ true
Allowed room (gift_recorded sender receipt total_value) =
    (valid_gift_text receipt.transaction_id max_gift_transaction_id_bytes ≡ true)
    × (Sets.contains receipt.transaction_id room.gift_transactions ≡ false)
Allowed room _ = Unit {0}

abbrev pub Ensures : (RoomEventKind → Type 0) → Result RoomError RoomEventKind → Type 0
Ensures P (ok kind) = P kind
Ensures P (err e) = Unit {0}

module _ (room : Room) where
  join-Allowed : (user : ℕ) → Ensures (Allowed room) (decide_join room user)
  unfolding decide_join
  join-Allowed user = ground arith

  leave-Allowed : (user : ℕ) → Ensures (Allowed room) (decide_leave room user)
  unfolding decide_leave
  leave-Allowed user = ground arith

  set_role-Allowed :
      (actor user : ℕ) (role : MemberRole)
      → Ensures (Allowed room) (decide_role_change room actor user role)
  unfolding decide_role_change
  set_role-Allowed actor user role = ground arith

  start_publishing-Allowed : (user : ℕ) → Ensures (Allowed room) (decide_start_publishing room user)
  unfolding decide_start_publishing
  start_publishing-Allowed user = ground arith

  stop_publishing-Allowed : (user : ℕ) → Ensures (Allowed room) (decide_stop_publishing room user)
  unfolding decide_stop_publishing
  stop_publishing-Allowed user = ground arith

  gift-Allowed :
      (sender : ℕ) (receipt : VerifiedGiftReceipt)
      → Ensures (Allowed room) (decide_gift room sender receipt)
  unfolding decide_gift
  gift-Allowed sender receipt = ground arith

  chat-Allowed :
      (user message_id : ℕ) (text : Text)
      → Ensures (Allowed room) (decide_chat room user message_id text)
  unfolding decide_chat
  chat-Allowed user message_id text = ground arith

  custom_data-Allowed :
      (user : ℕ) (custom : CustomData)
      → Ensures (Allowed room) (decide_custom_data room user custom)
  unfolding decide_custom_data
  custom_data-Allowed user custom = ground arith

  end-Allowed : (user : ℕ) → Ensures (Allowed room) (decide_end room user)
  unfolding decide_end
  end-Allowed user = ground arith

  -- Whatever the command, an event that `decide` lets happen is allowed.
  pub decide-Allowed : (command : RoomCommand) → Ensures (Allowed room) (decide room command)
  unfolding decide
  decide-Allowed (join user) = join-Allowed user
  decide-Allowed (leave user) = leave-Allowed user
  decide-Allowed (set_role actor user role) = set_role-Allowed actor user role
  decide-Allowed (start_publishing user) = start_publishing-Allowed user
  decide-Allowed (stop_publishing user) = stop_publishing-Allowed user
  decide-Allowed (send_chat user message_id text) = chat-Allowed user message_id text
  decide-Allowed (record_verified_gift sender receipt) = gift-Allowed sender receipt
  decide-Allowed (send_custom_data user custom) = custom_data-Allowed user custom
  decide-Allowed (end actor) = end-Allowed actor
