-- ===== src/Room/Snapshot.antt =====
-- `Room::snapshot` and `Room::restore_snapshot` (crates/foundation/domain/src/lib.rs).
use fluvora.Prelude.{nat_eq, list_eq}
use fluvora.Prelude.{
  ℕ, Bool, not, ◌&&◌, ◌||◌, List, leb, ◌==◌, if◌then◌else◌, length, is_empty, all, Result, ok, err,
}
use fluvora.Prelude.Sorting.{sort_by_key, entry_key}
use fluvora.Prelude.Collect.{collect_set, collect_map}
use fluvora.Prelude.Maps
use fluvora.Room.Decide.{valid_gift_text}
use fluvora.Room.Members.{may_publish, count_hosts}
use fluvora.Room.Model.{
  MemberRole, RoomPolicy, Room, RoomSnapshot, RoomError, invalid_snapshot, max_chat_bytes_limit,
  max_custom_data_bytes_limit, command_history_limit, gift_transaction_history_limit,
  max_gift_transaction_id_bytes,
}

unfoldable pub snapshot : Room → RoomSnapshot
snapshot room = record {
  schema_version = 1;
  id = room.id;
  mode = room.mode;
  policy = room.policy;
  members = sort_by_key entry_key room.members;
  publishers = sort_by_key (λ u. u) room.publishers;
  ended = room.ended;
  sequence = room.sequence;
  command_order = room.command_order;
  gift_transaction_order = room.gift_transaction_order;
}

-- `(lo..=hi).contains(&n)`
abbrev pub within : ℕ → ℕ → ℕ → Bool
within lo hi n = leb lo n && leb n hi

unfoldable pub policy_valid : RoomPolicy → Bool
policy_valid policy =
    within 2 100_000 policy.max_members
    && within 1 1024 policy.max_publishers
    && within 1 max_chat_bytes_limit policy.max_chat_bytes
    && within 1 max_custom_data_bytes_limit policy.max_custom_data_bytes

unfoldable pub histories_valid : RoomSnapshot → Bool
histories_valid snapshot =
    not (is_empty snapshot.command_order)
    && leb (length snapshot.command_order) command_history_limit
    && length (collect_set snapshot.command_order) == length snapshot.command_order
    && leb (length snapshot.gift_transaction_order) gift_transaction_history_limit
    && length (collect_set snapshot.gift_transaction_order)
      == length snapshot.gift_transaction_order
    && all (λ t. valid_gift_text t max_gift_transaction_id_bytes) snapshot.gift_transaction_order

unfoldable pub membership_valid : RoomSnapshot → List (ℕ × MemberRole) → Bool
membership_valid snapshot members =
    not (is_empty members)
    && length members == length snapshot.members
    && leb (length members) snapshot.policy.max_members
    && count_hosts members == 1

unfoldable pub publishers_valid : RoomSnapshot → List (ℕ × MemberRole) → List ℕ → Bool
publishers_valid snapshot members publishers =
    length publishers == length snapshot.publishers
    && leb (length publishers) snapshot.policy.max_publishers
    && all (λ u. may_publish (Maps.lookup u members)) publishers
    && (not snapshot.ended || is_empty publishers)

unfoldable pub restore_snapshot : RoomSnapshot → Result RoomError Room
restore_snapshot snapshot =
    let members = collect_map snapshot.members in
    let publishers = collect_set snapshot.publishers in
    if not (snapshot.schema_version == 1)
      || snapshot.sequence == 0
      || not (policy_valid snapshot.policy)
      || not (histories_valid snapshot)
      || not (membership_valid snapshot members)
      || not (publishers_valid snapshot members publishers)
    then err invalid_snapshot
    else ok (record {
      id = snapshot.id;
      mode = snapshot.mode;
      policy = snapshot.policy;
      members = members;
      publishers = publishers;
      ended = snapshot.ended;
      sequence = snapshot.sequence;
      processed_commands = collect_set snapshot.command_order;
      command_order = snapshot.command_order;
      gift_transactions = collect_set snapshot.gift_transaction_order;
      gift_transaction_order = snapshot.gift_transaction_order;
    })
