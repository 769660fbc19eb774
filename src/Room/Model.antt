-- ===== src/Room/Model.antt =====
-- The data of the room aggregate (crates/foundation/domain/src/lib.rs): modes, roles, policy,
-- commands, events, the aggregate itself, its snapshot and its errors. Identifiers are numbers.
use fluvora.Prelude.{ℕ, Bool, true, false, List}
use fluvora.Prelude.Text.{Text}

abbrev pub max_chat_bytes_limit : ℕ
max_chat_bytes_limit = 4096

abbrev pub max_custom_namespace_bytes : ℕ
max_custom_namespace_bytes = 64

abbrev pub max_custom_data_bytes_limit : ℕ
max_custom_data_bytes_limit = 61440

abbrev pub command_history_limit : ℕ
command_history_limit = 4096

abbrev pub gift_transaction_history_limit : ℕ
gift_transaction_history_limit = 4096

abbrev pub max_gift_transaction_id_bytes : ℕ
max_gift_transaction_id_bytes = 512

abbrev pub max_gift_id_bytes : ℕ
max_gift_id_bytes = 256

pub data RoomMode : Type 0 where
  sfu p2p live vod : RoomMode

abbrev pub mode_beq : RoomMode → RoomMode → Bool
mode_beq sfu sfu = true
mode_beq p2p p2p = true
mode_beq live live = true
mode_beq vod vod = true
mode_beq _ _ = false

pub data MemberRole : Type 0 where
  host co_host publisher audience : MemberRole

abbrev pub can_publish : MemberRole → Bool
can_publish audience = false
can_publish _ = true

abbrev pub can_moderate : MemberRole → Bool
can_moderate host = true
can_moderate co_host = true
can_moderate _ = false

abbrev pub is_host : MemberRole → Bool
is_host host = true
is_host _ = false

abbrev pub is_co_host : MemberRole → Bool
is_co_host co_host = true
is_co_host _ = false

pub record RoomPolicy : Type 0 where
  pub max_members : ℕ
  pub max_publishers : ℕ
  pub max_chat_bytes : ℕ
  pub max_custom_data_bytes : ℕ

abbrev pub default_policy : RoomPolicy
default_policy = record {
  max_members = 10_000;
  max_publishers = 32;
  max_chat_bytes = max_chat_bytes_limit;
  max_custom_data_bytes = max_custom_data_bytes_limit;
}

pub record VerifiedGiftReceipt : Type 0 where
  pub transaction_id : Text
  pub gift_id : Text
  pub quantity : ℕ
  pub unit_value : ℕ
  pub currency : Text
  pub recipient : ℕ

pub record CustomData : Type 0 where
  pub namespace : Text
  pub schema_version : ℕ
  pub payload : List ℕ

pub data RoomCommand : Type 0 where
  join : ℕ → RoomCommand
  leave : ℕ → RoomCommand
  -- actor, user, role
  set_role : ℕ → ℕ → MemberRole → RoomCommand
  start_publishing : ℕ → RoomCommand
  stop_publishing : ℕ → RoomCommand
  -- user, message_id, text
  send_chat : ℕ → ℕ → Text → RoomCommand
  record_verified_gift : ℕ → VerifiedGiftReceipt → RoomCommand
  send_custom_data : ℕ → CustomData → RoomCommand
  end : ℕ → RoomCommand

pub data RoomEventKind : Type 0 where
  created : ℕ → RoomMode → RoomEventKind
  member_joined : ℕ → MemberRole → RoomEventKind
  member_left : ℕ → RoomEventKind
  role_changed : ℕ → MemberRole → RoomEventKind
  publishing_started : ℕ → RoomEventKind
  publishing_stopped : ℕ → RoomEventKind
  chat_sent : ℕ → ℕ → Text → RoomEventKind
  -- sender, receipt, total_value
  gift_recorded : ℕ → VerifiedGiftReceipt → ℕ → RoomEventKind
  custom_data_sent : ℕ → CustomData → RoomEventKind
  ended : ℕ → RoomEventKind

pub record RoomEvent : Type 0 where
  pub sequence : ℕ
  pub command_id : ℕ
  pub timestamp_millis : ℕ
  pub kind : RoomEventKind

pub data CommandOutcome : Type 0 where
  applied : RoomEvent → CommandOutcome
  duplicate : CommandOutcome

pub record Room : Type 0 where
  pub id : ℕ
  pub mode : RoomMode
  pub policy : RoomPolicy
  pub members : List (ℕ × MemberRole)
  pub publishers : List ℕ
  pub ended : Bool
  pub sequence : ℕ
  pub processed_commands : List ℕ
  pub command_order : List ℕ
  pub gift_transactions : List Text
  pub gift_transaction_order : List Text

pub record RoomSnapshot : Type 0 where
  pub schema_version : ℕ
  pub id : ℕ
  pub mode : RoomMode
  pub policy : RoomPolicy
  pub members : List (ℕ × MemberRole)
  pub publishers : List ℕ
  pub ended : Bool
  pub sequence : ℕ
  pub command_order : List ℕ
  pub gift_transaction_order : List Text

pub data RoomError : Type 0 where
  empty_event_stream : RoomError
  invalid_creation_event : RoomError
  invalid_snapshot : RoomError
  -- expected, actual
  event_sequence_gap : ℕ → ℕ → RoomError
  sequence_exhausted : RoomError
  room_ended : RoomError
  already_member : ℕ → RoomError
  not_member : ℕ → RoomError
  permission_denied : ℕ → RoomError
  host_cannot_leave : RoomError
  member_limit : RoomError
  publisher_limit : RoomError
  already_publishing : ℕ → RoomError
  not_publishing : ℕ → RoomError
  invalid_chat_length : ℕ → RoomError
  invalid_gift_receipt : RoomError
  duplicate_gift_transaction : RoomError
  gift_value_overflow : RoomError
  invalid_custom_data : RoomError
