-- ===== src/Room/Invariant.antt =====
-- The invariants of the room aggregate, and that `Room::execute` keeps them.
use fluvora.Prelude.{nat_eq, list_eq}
use fluvora.Prelude.{
  ℕ, ◌^◌, ◌<◌, ◌≡◌, ◌≢◌, refl, subst, true, false, List, [], ◌∷◌, arith, All, if◌then◌else◌,
}
use fluvora.Prelude.Sets
use fluvora.Prelude.Sets.{Distinct}
use fluvora.Prelude.Maps
use fluvora.Prelude.Maps.{keys}
use fluvora.Room.History.{IsHistory, remember-IsHistory, remember-All, remember-ne-nil}
use fluvora.Room.Decide.{valid_gift_text}
use fluvora.Room.Staff.{IsStaffed, hire, leave_staff, promote, start_staff, stop_staff, silence}
use fluvora.Room.Allowed.{Allowed, Ensures, decide-Allowed}
use fluvora.Room.Members.{count_hosts}
use fluvora.Room.Apply.{empty, create, apply, apply_kind, remember_command, execute}
use fluvora.Room.Execute.{next_event, execute_cases}
use fluvora.Room.Model.{
  RoomMode, RoomPolicy, vod, mode_beq, MemberRole, host, can_publish, RoomCommand, RoomEventKind,
  created, member_joined, member_left, role_changed, publishing_started, publishing_stopped,
  chat_sent, gift_recorded, custom_data_sent, ended, RoomEvent, Room, command_history_limit,
  gift_transaction_history_limit, max_gift_transaction_id_bytes,
}

abbrev pub IsGiftText : List ℕ → Type 0
IsGiftText t = valid_gift_text t max_gift_transaction_id_bytes ≡ true

-- All but the numbering of the events and of the commands.
pub record IsSound (room : Room) : Type 0 where
  pub staffed : IsStaffed room.policy room.members room.publishers
  -- Nobody publishes in an ended room or in a stored playback.
  pub ended_silent : room.ended ≡ true → room.publishers ≡ []
  pub vod_silent : mode_beq room.mode vod ≡ true → room.publishers ≡ []
  pub gifts :
      IsHistory gift_transaction_history_limit room.gift_transactions room.gift_transaction_order
  pub gift_texts : All IsGiftText room.gift_transaction_order

pub record IsValid (room : Room) : Type 0 where
  pub sound : IsSound room
  pub started : 0 < room.sequence
  pub in_range : room.sequence < 2 ^ 64
  pub commands : IsHistory command_history_limit room.processed_commands room.command_order
  pub commands_started : room.command_order ≢ []

-- A change of the staff alone.
restaff :
    {room : Room} (members : List (ℕ × MemberRole)) (publishers : List ℕ)
    → IsSound room
    → IsStaffed room.policy members publishers
    → (mode_beq room.mode vod ≡ true → publishers ≡ [])
    → room.ended ≡ false
    → IsSound (record room { members = members; publishers = publishers })
restaff members publishers h s q live = record {
  staffed = s;
  ended_silent = λ e. cc;
  vod_silent = q;
  gifts = h.gifts;
  gift_texts = h.gift_texts;
}

remove_silent :
    (user : ℕ) {publishers : List ℕ} → publishers ≡ [] → Sets.remove user publishers ≡ []
unfolding Sets.remove
remove_silent user e = rw e

still_silent :
    (user : ℕ) (role : MemberRole) {publishers : List ℕ}
    → publishers ≡ []
    → (if can_publish role then publishers else Sets.remove user publishers) ≡ []
still_silent user role e = ground (arith, remove_silent user e)

apply_kind-IsSound :
    {room : Room} (kind : RoomEventKind)
    → IsSound room
    → room.ended ≡ false
    → Allowed room kind
    → IsSound (apply_kind kind room)
unfolding apply_kind
apply_kind-IsSound (created user mode) h live a = absurd a
apply_kind-IsSound (member_joined user role) h live (fresh, fits, r) =
    restaff _ _ h (hire h.staffed user role fresh fits r)
      (λ v. still_silent user role (h.vod_silent v)) live
apply_kind-IsSound (role_changed user role) h live (there, plain, r) =
    restaff _ _ h (promote h.staffed user role there plain r)
      (λ v. still_silent user role (h.vod_silent v)) live
apply_kind-IsSound (member_left user) h live (there, plain) =
    restaff _ _ h (leave_staff h.staffed user plain) (λ v. remove_silent user (h.vod_silent v)) live
apply_kind-IsSound (publishing_started user) h live (may, mode, absent, fits) =
    restaff _ _ h (start_staff h.staffed user may fits) (λ v. cc) live
apply_kind-IsSound (publishing_stopped user) h live a =
    restaff _ _ h (stop_staff h.staffed user) (λ v. remove_silent user (h.vod_silent v)) live
apply_kind-IsSound {room} (gift_recorded sender receipt total_value) h live (t, absent) = record {
  staffed = h.staffed;
  ended_silent = h.ended_silent;
  vod_silent = h.vod_silent;
  gifts =
      remember-IsHistory receipt.transaction_id room.gift_transactions room.gift_transaction_order
        (omega arith) h.gifts;
  gift_texts =
      remember-All IsGiftText receipt.transaction_id room.gift_transactions
        room.gift_transaction_order (omega arith) h.gifts t h.gift_texts;
}
apply_kind-IsSound (ended actor) h live a = record {
  staffed = silence h.staffed;
  ended_silent = λ e. refl;
  vod_silent = λ e. refl;
  gifts = h.gifts;
  gift_texts = h.gift_texts;
}
apply_kind-IsSound (chat_sent user message_id text) h live a = h
apply_kind-IsSound (custom_data_sent user custom) h live a = h

-- The step that `apply` adds to the change itself: the sequence and the command history.
numbered :
    (room : Room) (command_id sequence : ℕ)
    → IsSound room
    → IsHistory command_history_limit room.processed_commands room.command_order
    → 0 < sequence
    → sequence < 2 ^ 64
    → IsValid (remember_command command_id (record room { sequence = sequence }))
unfolding remember_command
numbered room command_id sequence h c pos fits = record {
  sound = record {
    staffed = h.staffed;
    ended_silent = h.ended_silent;
    vod_silent = h.vod_silent;
    gifts = h.gifts;
    gift_texts = h.gift_texts;
  };
  started = pos;
  in_range = fits;
  commands =
      remember-IsHistory command_id room.processed_commands room.command_order (omega arith) c;
  commands_started =
      remember-ne-nil command_id room.processed_commands room.command_order (omega arith) c;
}

-- No change of state touches the command history.
apply_kind_commands :
    (kind : RoomEventKind) (room : Room)
    → IsHistory command_history_limit room.processed_commands room.command_order
    → IsHistory command_history_limit
        (apply_kind kind room).processed_commands
        (apply_kind kind room).command_order
unfolding apply_kind
apply_kind_commands (created user mode) room h = h
apply_kind_commands _ room h = h

apply-IsValid :
    {room : Room} (event : RoomEvent)
    → IsValid room
    → room.ended ≡ false
    → Allowed room event.kind
    → 0 < event.sequence
    → event.sequence < 2 ^ 64
    → IsValid (apply room event)
unfolding apply
apply-IsValid {room} event v live a pos fits =
    numbered (apply_kind event.kind room) event.command_id event.sequence
      (apply_kind-IsSound event.kind v.sound live a)
      (apply_kind_commands event.kind room v.commands) pos fits

-- Every command, whatever comes of it, leaves a valid room valid: the member map has distinct users,
-- one host and at most `max_members` entries; the publishers are distinct, at most `max_publishers`,
-- members whose role may publish, and none in an ended or a stored room; the sequence is a positive
-- `u64`; both histories are bounded, free of repetitions, and agree with their sets.
pub execute-IsValid :
    (room : Room) (command_id timestamp_millis : ℕ) (command : RoomCommand)
    → IsValid room
    → IsValid (execute room command_id timestamp_millis command).0
execute-IsValid room command_id timestamp_millis command v =
    execute_cases (λ r. IsValid r.0) room command_id timestamp_millis command (λ _. v) (λ _ _. v)
      (λ _ _. v) (λ _ _ _. v)
      λ kind _ live d fits.
        apply-IsValid (next_event room command_id timestamp_millis kind) v live
          (subst (Ensures (Allowed room)) d (decide-Allowed room command)) (omega arith) fits

-- A new room is valid, if its policy lets in one member at all.
pub create-IsValid :
    (id : ℕ) (mode : RoomMode) (user : ℕ) (policy : RoomPolicy) (command_id timestamp_millis : ℕ)
    → 0 < policy.max_members
    → IsValid (create id mode user policy command_id timestamp_millis).0
unfolding create empty Maps.insert count_hosts Sets.contains
create-IsValid id mode user policy command_id timestamp_millis fits =
    numbered (record (empty id mode policy) { members = (user, host) ∷ [] }) command_id 1
      (record {
        staffed = record {
          members_distinct = (refl, tt);
          members_bounded = fits;
          one_host = refl;
          publishers_distinct = tt;
          publishers_bounded = omega arith;
          publishers_allowed = λ u m. cc;
        };
        ended_silent = λ e. refl;
        vod_silent = λ e. refl;
        gifts = record { same = refl; distinct = tt; bounded = omega arith };
        gift_texts = tt;
      })
      (record { same = refl; distinct = tt; bounded = omega arith }) (omega arith) (omega arith)
