-- ===== src/Room/RoundTrip.antt =====
-- A snapshot of a valid room is accepted and gives the room back.
use fluvora.Prelude.{nat_eq, list_eq}
use fluvora.Prelude.{
  ℕ, ◌≡◌, refl, sym, ◌∙◌, Bool, true, not, ◌||◌, List, [], ◌∷◌, arith, is_empty, all, All, ok,
  ==_iff,
}
use fluvora.Prelude.Sorting.{
  place, sort_by_key, entry_key, length-sort, contains-sort, sort-Distinct, lookup-sort,
  sort-keys-Distinct,
}
use fluvora.Prelude.Collect.{collect_set-Distinct, collect_map-Distinct}
use fluvora.Prelude.Sets
use fluvora.Prelude.Maps
use fluvora.Prelude.Maps.{keys}
use fluvora.Room.Decide.{valid_gift_text}
use fluvora.Room.Members.{may_publish, count_hosts}
use fluvora.Room.Invariant.{IsValid}
use fluvora.Room.Snapshot.{
  snapshot, restore_snapshot, policy_valid, histories_valid, membership_valid, publishers_valid,
}
use fluvora.Room.Model.{MemberRole, Room, max_gift_transaction_id_bytes}

count_hosts-place :
    (user : ℕ) (role : MemberRole) (members : List (ℕ × MemberRole))
    → count_hosts (place entry_key (user, role) members) ≡ count_hosts ((user, role) ∷ members)
unfolding place count_hosts
count_hosts-place user role [] = refl
count_hosts-place user role ((u, r) ∷ members) = ground (arith, count_hosts-place user role members)

count_hosts-sort :
    (members : List (ℕ × MemberRole))
    → count_hosts (sort_by_key entry_key members) ≡ count_hosts members
unfolding sort_by_key count_hosts
count_hosts-sort [] = refl
count_hosts-sort ((u, r) ∷ members) =
    ground (arith, count_hosts-place u r (sort_by_key entry_key members), count_hosts-sort members)

all_of_contains :
    (p : ℕ → Bool) (xs : List ℕ)
    → ((u : ℕ) → Sets.contains u xs ≡ true → p u ≡ true)
    → all p xs ≡ true
unfolding Sets.contains
all_of_contains p [] h = refl
all_of_contains p (x ∷ xs) h =
    ground (arith, h x, all_of_contains p xs (λ u m. ground (arith, h u, ==_iff x u)), ==_iff x x)

all_of_All : (p : List ℕ → Bool) (xs : List (List ℕ)) → All (λ x. p x ≡ true) xs → all p xs ≡ true
all_of_All p [] h = refl
all_of_All p (x ∷ xs) h = ground (arith, all_of_All p xs h.1)

histories_valid-snapshot : (room : Room) → IsValid room → histories_valid (snapshot room) ≡ true
unfolding histories_valid snapshot
histories_valid-snapshot room v = ground (
  arith,
  collect_set-Distinct room.command_order v.commands.distinct,
  collect_set-Distinct room.gift_transaction_order v.sound.gifts.distinct,
  all_of_All (λ t. valid_gift_text t max_gift_transaction_id_bytes) room.gift_transaction_order
      v.sound.gift_texts,
)

membership_valid-snapshot :
    (room : Room)
    → IsValid room
    → membership_valid (snapshot room) (sort_by_key entry_key room.members) ≡ true
unfolding membership_valid snapshot count_hosts
membership_valid-snapshot room v = ground (
  arith,
  length-sort entry_key room.members,
  count_hosts-sort room.members,
  v.sound.staffed.members_bounded,
  v.sound.staffed.one_host,
)

sorted_may_publish :
    (room : Room) (u : ℕ)
    → IsValid room
    → Sets.contains u (sort_by_key (λ x. x) room.publishers) ≡ true
    → may_publish (Maps.lookup u (sort_by_key entry_key room.members)) ≡ true
sorted_may_publish room u v h =
    rw (lookup-sort u room.members v.sound.staffed.members_distinct)
      (v.sound.staffed.publishers_allowed u (sym (contains-sort u room.publishers) ∙ h))

silent-sort :
    (room : Room)
    → IsValid room
    → (not room.ended || is_empty (sort_by_key (λ x. x) room.publishers)) ≡ true
unfolding sort_by_key
silent-sort room v = ground (arith, v.sound.ended_silent)

publishers_valid-snapshot :
    (room : Room)
    → IsValid room
    → publishers_valid
        (snapshot room)
        (sort_by_key entry_key room.members)
        (sort_by_key (λ x. x) room.publishers)
      ≡ true
unfolding publishers_valid snapshot
publishers_valid-snapshot room v = ground (
  arith,
  length-sort (λ x. x) room.publishers,
  v.sound.staffed.publishers_bounded,
  silent-sort room v,
  all_of_contains (λ u. may_publish (Maps.lookup u (sort_by_key entry_key room.members)))
      (sort_by_key (λ x. x) room.publishers) (λ u. sorted_may_publish room u v),
)

-- The snapshot of a valid room whose policy is within the accepted ranges is restored to the same
-- room: every field is equal, but that the members and the publishers are listed in sorted order.
pub restore_snapshot-snapshot :
    (room : Room)
    → IsValid room
    → policy_valid room.policy ≡ true
    → restore_snapshot (snapshot room)
      ≡ ok (record room {
        members = sort_by_key entry_key room.members;
        publishers = sort_by_key (λ x. x) room.publishers;
      })
unfolding restore_snapshot snapshot
restore_snapshot-snapshot room v p =
    rw
      (
        collect_map-Distinct (sort_by_key entry_key room.members)
            (sort-keys-Distinct room.members v.sound.staffed.members_distinct),
        collect_set-Distinct (sort_by_key (λ x. x) room.publishers)
            (sort-Distinct room.publishers v.sound.staffed.publishers_distinct),
        collect_set-Distinct room.command_order v.commands.distinct,
        collect_set-Distinct room.gift_transaction_order v.sound.gifts.distinct,
      )
      (ground (
        arith,
        v.commands.same,
        v.sound.gifts.same,
        histories_valid-snapshot room v,
        membership_valid-snapshot room v,
        publishers_valid-snapshot room v,
      ))
