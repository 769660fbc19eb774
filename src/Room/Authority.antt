-- ===== src/Room/Authority.antt =====
-- Who may change a role: the host stays the host, and a role that publishes comes from a moderator.
use fluvora.Prelude.{nat_eq}
use fluvora.Prelude.{
  ℕ, ◌≡◌, ◌≢◌, refl, subst, true, false, some, arith, ok, ==_iff, ◌⊎◌, inl, inr, Option-cases,
}
use fluvora.Prelude.Maps
use fluvora.Room.Apply.{apply, apply_kind, remember_command, execute}
use fluvora.Room.Decide.{
  decide, decide_join, decide_leave, decide_role_change, decide_start_publishing,
  decide_stop_publishing, decide_chat, decide_gift, decide_custom_data, decide_end,
}
use fluvora.Room.Allowed.{Allowed, Ensures, decide-Allowed}
use fluvora.Room.Execute.{next_event, execute_cases}
use fluvora.Room.Model.{
  MemberRole, host, audience, can_publish, can_moderate, RoomCommand, join, leave, set_role,
  start_publishing, stop_publishing, send_chat, record_verified_gift, send_custom_data, end,
  RoomEventKind, created, member_joined, member_left, role_changed, RoomEvent, Room,
}

apply_members :
    (room : Room) (event : RoomEvent)
    → (apply room event).members ≡ (apply_kind event.kind room).members
unfolding apply remember_command
apply_members room event = refl

host_stays_kind :
    (room : Room) (kind : RoomEventKind) (u : ℕ)
    → Allowed room kind
    → Maps.lookup u room.members ≡ some host
    → Maps.lookup u (apply_kind kind room).members ≡ some host
unfolding apply_kind
host_stays_kind room (created user mode) u a h = absurd a
host_stays_kind room (member_joined user role) u a h =
    ground (arith, Maps.lookup-insert user u role room.members, ==_iff user u)
host_stays_kind room (role_changed user role) u a h =
    ground (arith, Maps.lookup-insert user u role room.members, ==_iff user u)
host_stays_kind room (member_left user) u a h =
    ground (arith, Maps.lookup-remove user u room.members, ==_iff user u)
host_stays_kind room _ u a h = h

-- The host of a room is its host after any command: nobody can demote, replace or remove the host.
pub host_stays :
    (room : Room) (command_id timestamp_millis : ℕ) (command : RoomCommand) (u : ℕ)
    → Maps.lookup u room.members ≡ some host
    → Maps.lookup u (execute room command_id timestamp_millis command).0.members ≡ some host
host_stays room command_id timestamp_millis command u h =
    execute_cases (λ r. Maps.lookup u r.0.members ≡ some host) room command_id timestamp_millis
      command (λ _. h) (λ _ _. h) (λ _ _. h) (λ _ _ _. h)
      λ kind _ _ d _. rw (apply_members room (next_event room command_id timestamp_millis kind)) (
        host_stays_kind room kind u (subst (Ensures (Allowed room)) d (decide-Allowed room command))
          h)

-- A moderator asked for the change, and outranks the member: a co-host cannot touch a co-host.
abbrev pub Granted : Room → RoomCommand → ℕ → MemberRole → Type 0
Granted room command u role =
    (actor : ℕ) × (actor_role : MemberRole) × (current : MemberRole) × (command
      ≡ set_role actor u role)
    × (Maps.lookup actor room.members ≡ some actor_role)
    × (can_moderate actor_role ≡ true)
    × (Maps.lookup u room.members ≡ some current)
    × ((actor_role ≡ host) ⊎ (can_moderate current ≡ false))

-- What a role change that is let happen has checked.
role_change_checked :
    (room : Room) (actor user : ℕ) (new : MemberRole) (kind : RoomEventKind)
    → decide_role_change room actor user new ≡ ok kind
    → (kind ≡ role_changed user new) × Granted room (set_role actor user new) user new
unfolding decide_role_change
role_change_checked room actor user new kind d =
    elim (Option-cases (Maps.lookup actor room.members)) [
      | inl e ↦ ground arith
      | inr (a, e) ↦ elim (Option-cases (Maps.lookup user room.members)) [
        | inl e' ↦ ground arith
        | inr (c, e') ↦ (ground arith, (actor, a, c, refl, e, ground arith, e', ground arith))
      ]
    ]

Granted-set_role :
    (room : Room) (actor user : ℕ) (new : MemberRole) (kind : RoomEventKind) (u : ℕ)
    (role : MemberRole)
    → decide_role_change room actor user new ≡ ok kind
    → Maps.lookup u room.members ≢ some role
    → Maps.lookup u (apply_kind kind room).members ≡ some role
    → Granted room (set_role actor user new) u role
unfolding apply_kind
Granted-set_role room actor user new kind u role d before after =
    let (k, g) = role_change_checked room actor user new kind d in
    let same : (user ≡ u) × (new ≡ role) =
      ground (arith, k, Maps.lookup-insert user u new room.members, ==_iff user u) in
    subst (λ x. Granted room (set_role actor user new) x role) same.0
      (subst (λ y. Granted room (set_role actor user new) user y) same.1 g)

join-ne-Granted :
    (room : Room) (user : ℕ) (kind : RoomEventKind) (u : ℕ) (role : MemberRole)
    → can_publish role ≡ true
    → decide_join room user ≡ ok kind
    → Maps.lookup u room.members ≢ some role
    → Maps.lookup u (apply_kind kind room).members ≢ some role
unfolding decide_join apply_kind
join-ne-Granted room user kind u role p d before after =
    ground (arith, Maps.lookup-insert user u audience room.members, ==_iff user u)

leave-ne-Granted :
    (room : Room) (user : ℕ) (kind : RoomEventKind) (u : ℕ) (role : MemberRole)
    → decide_leave room user ≡ ok kind
    → Maps.lookup u room.members ≢ some role
    → Maps.lookup u (apply_kind kind room).members ≢ some role
unfolding decide_leave apply_kind
leave-ne-Granted room user kind u role d before after =
    ground (arith, Maps.lookup-remove user u room.members, ==_iff user u)

module _ (room : Room) (kind : RoomEventKind) (u : ℕ) (role : MemberRole)
    (before : Maps.lookup u room.members ≢ some role)
    (after : Maps.lookup u (apply_kind kind room).members ≡ some role) where
  -- The commands that leave the members alone.
  unmoved : (apply_kind kind room).members ≡ room.members → ⊥
  unmoved e = before (subst (λ m. Maps.lookup u m ≡ some role) e after)

  Granted-decide :
      (command : RoomCommand)
      → can_publish role ≡ true
      → decide room command ≡ ok kind
      → Granted room command u role
  unfolding decide
  Granted-decide (join user) p d = absurd (join-ne-Granted room user kind u role p d before after)
  Granted-decide (leave user) p d = absurd (leave-ne-Granted room user kind u role d before after)
  Granted-decide (set_role actor user new) p d =
      Granted-set_role room actor user new kind u role d before after
  Granted-decide (start_publishing user) p d =
      absurd (unmoved (unfold apply_kind decide_start_publishing in ground arith))
  Granted-decide (stop_publishing user) p d =
      absurd (unmoved (unfold apply_kind decide_stop_publishing in ground arith))
  Granted-decide (send_chat user message_id text) p d =
      absurd (unmoved (unfold apply_kind decide_chat in ground arith))
  Granted-decide (record_verified_gift sender receipt) p d =
      absurd (unmoved (unfold apply_kind decide_gift in ground arith))
  Granted-decide (send_custom_data user custom) p d =
      absurd (unmoved (unfold apply_kind decide_custom_data in ground arith))
  Granted-decide (end actor) p d = absurd (unmoved (unfold apply_kind decide_end in ground arith))

-- If a command gives a user a role that may publish, which the user did not have before, then it is
-- a `SetRole` for that user and role, sent by a member who may moderate, and who is the host unless
-- the user's role before may not moderate.
pub role-Granted :
    (room : Room) (command_id timestamp_millis : ℕ) (command : RoomCommand) (u : ℕ)
    (role : MemberRole)
    → can_publish role ≡ true
    → Maps.lookup u room.members ≢ some role
    → Maps.lookup u (execute room command_id timestamp_millis command).0.members ≡ some role
    → Granted room command u role
role-Granted room command_id timestamp_millis command u role p before =
    execute_cases (λ r. Maps.lookup u r.0.members ≡ some role → Granted room command u role) room
      command_id timestamp_millis command (λ _ h. absurd (before h)) (λ _ _ h. absurd (before h))
      (λ _ _ h. absurd (before h)) (λ _ _ _ h. absurd (before h))
      λ kind _ _ d _ h.
        Granted-decide room kind u role before
          (subst (λ m. Maps.lookup u m ≡ some role)
            (apply_members room (next_event room command_id timestamp_millis kind)) h)
          command p d
