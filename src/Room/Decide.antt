-- ===== src/Room/Decide.antt =====
-- `Room::decide` and the checks of each command (crates/foundation/domain/src/lib.rs).
use fluvora.Prelude.{nat_eq, list_eq}
use fluvora.Prelude.{
  ℕ, Bool, false, not, ◌&&◌, ◌||◌, Option, none, some, ltb, leb, ◌==◌, if◌then◌else◌, length,
  is_empty, head?, get_last?, all, any, Result, ok, err, ◌>>=◌, ◌>>◌, fail_if, ok_or,
}
use fluvora.Prelude.Words.{checked_mul}
use fluvora.Prelude.Text.{Text, as_bytes, is_control, is_ascii_uppercase, is_ascii_alphanumeric}
use fluvora.Prelude.Sets
use fluvora.Prelude.Maps
use fluvora.Room.Model.{
  vod, mode_beq, MemberRole, audience, can_publish, can_moderate, is_host, is_co_host,
  VerifiedGiftReceipt, CustomData, RoomCommand, join, leave, set_role, start_publishing,
  stop_publishing, send_chat, record_verified_gift, send_custom_data, end, RoomEventKind,
  member_joined, member_left, role_changed, publishing_started, publishing_stopped, chat_sent,
  gift_recorded, custom_data_sent, ended, Room, RoomError, already_member, not_member,
  permission_denied, host_cannot_leave, member_limit, publisher_limit, already_publishing,
  not_publishing, invalid_chat_length, invalid_gift_receipt, duplicate_gift_transaction,
  gift_value_overflow, invalid_custom_data, max_custom_namespace_bytes,
  max_gift_transaction_id_bytes, max_gift_id_bytes,
}

-- `bytes.first().is_some_and(u8::is_ascii_alphanumeric)`, and the same of `last`.
abbrev is_alphanumeric_byte : Option ℕ → Bool
is_alphanumeric_byte none = false
is_alphanumeric_byte (some b) = is_ascii_alphanumeric b

unfoldable pub valid_custom_namespace : Text → Bool
valid_custom_namespace value =
    let bytes = as_bytes value in
    not (is_empty bytes)
    && leb (length bytes) max_custom_namespace_bytes
    && is_alphanumeric_byte (head? bytes)
    && is_alphanumeric_byte (get_last? bytes)
    && all (λ b. is_ascii_alphanumeric b || b == b'.' || b == b'_' || b == b'-') bytes

unfoldable pub valid_gift_text : Text → ℕ → Bool
valid_gift_text value maximum_bytes =
    not (is_empty value)
    && leb (length (as_bytes value)) maximum_bytes
    && not (any is_control value)

unfoldable pub require_member : Room → ℕ → Result RoomError MemberRole
require_member room user = ok_or (Maps.lookup user room.members) (not_member user)

unfoldable pub decide_join : Room → ℕ → Result RoomError RoomEventKind
decide_join room user =
    if Maps.is_some (Maps.lookup user room.members)
    then err (already_member user)
    else if leb room.policy.max_members (length room.members)
    then err member_limit
    else ok (member_joined user audience)

unfoldable pub decide_leave : Room → ℕ → Result RoomError RoomEventKind
unfolding require_member
decide_leave room user = do
  role ← require_member room user
  if is_host role then err host_cannot_leave else ok (member_left user)

unfoldable pub decide_role_change : Room → ℕ → ℕ → MemberRole → Result RoomError RoomEventKind
unfolding require_member
decide_role_change room actor user role = do
  actor_role ← require_member room actor
  current ← require_member room user
  if not (can_moderate actor_role)
        || (is_co_host actor_role && (is_host current || is_co_host current))
        || is_host current
        || is_host role
      then err (permission_denied actor)
      else ok (role_changed user role)

unfoldable pub decide_start_publishing : Room → ℕ → Result RoomError RoomEventKind
unfolding require_member
decide_start_publishing room user = do
  role ← require_member room user
  fail_if (mode_beq room.mode vod || not (can_publish role)) (permission_denied user)
  fail_if (Sets.contains user room.publishers) (already_publishing user)
  fail_if (leb room.policy.max_publishers (length room.publishers)) publisher_limit
  ok (publishing_started user)

unfoldable pub decide_stop_publishing : Room → ℕ → Result RoomError RoomEventKind
unfolding require_member
decide_stop_publishing room user = do
  role ← require_member room user
  fail_if (not (Sets.contains user room.publishers)) (not_publishing user)
  ok (publishing_stopped user)

unfoldable pub decide_chat : Room → ℕ → ℕ → Text → Result RoomError RoomEventKind
unfolding require_member
decide_chat room user message_id text = do
  role ← require_member room user
  fail_if (is_empty text || ltb room.policy.max_chat_bytes (length (as_bytes text)))
      (invalid_chat_length (length (as_bytes text)))
  ok (chat_sent user message_id text)

unfoldable pub decide_gift : Room → ℕ → VerifiedGiftReceipt → Result RoomError RoomEventKind
unfolding require_member
decide_gift room sender receipt = do
  sender_role ← require_member room sender
  recipient_role ← require_member room receipt.recipient
  fail_if
      (not (valid_gift_text receipt.transaction_id max_gift_transaction_id_bytes)
        || not (valid_gift_text receipt.gift_id max_gift_id_bytes)
        || receipt.quantity == 0
        || not (length (as_bytes receipt.currency) == 3)
        || not (all is_ascii_uppercase (as_bytes receipt.currency)))
      invalid_gift_receipt
  fail_if (Sets.contains receipt.transaction_id room.gift_transactions) duplicate_gift_transaction
  total_value ← ok_or (checked_mul 64 receipt.unit_value receipt.quantity) gift_value_overflow
  ok (gift_recorded sender receipt total_value)

unfoldable pub decide_custom_data : Room → ℕ → CustomData → Result RoomError RoomEventKind
unfolding require_member
decide_custom_data room user custom = do
  role ← require_member room user
  fail_if
      (not (valid_custom_namespace custom.namespace)
        || ltb room.policy.max_custom_data_bytes (length custom.payload))
      invalid_custom_data
  ok (custom_data_sent user custom)

unfoldable pub decide_end : Room → ℕ → Result RoomError RoomEventKind
unfolding require_member
decide_end room actor = do
  role ← require_member room actor
  if not (is_host role) then err (permission_denied actor) else ok (ended actor)

unfoldable pub decide : Room → RoomCommand → Result RoomError RoomEventKind
decide room (join user) = decide_join room user
decide room (leave user) = decide_leave room user
decide room (set_role actor user role) = decide_role_change room actor user role
decide room (start_publishing user) = decide_start_publishing room user
decide room (stop_publishing user) = decide_stop_publishing room user
decide room (send_chat user message_id text) = decide_chat room user message_id text
decide room (record_verified_gift sender receipt) = decide_gift room sender receipt
decide room (send_custom_data user custom) = decide_custom_data room user custom
decide room (end actor) = decide_end room actor
