-- ===== src/Room/Staff.antt =====
-- The member map and the publisher set of a room together, and what each change does to them.
use fluvora.Prelude.{nat_eq}
use fluvora.Prelude.{
  ℕ, ◌<◌, ◌≤◌, ◌≡◌, true, false, List, [], none, arith, length, ==_iff, if◌then◌else◌,
}
use fluvora.Prelude.Sets
use fluvora.Prelude.Sets.{Distinct}
use fluvora.Prelude.Maps
use fluvora.Prelude.Maps.{keys}
use fluvora.Room.Members.{
  count_hosts, not_host, may_publish, count_hosts-insert, count_hosts-remove,
}
use fluvora.Room.Model.{RoomPolicy, MemberRole, audience, is_host, can_publish}

-- The members, and who of them publishes.
pub record IsStaffed (policy : RoomPolicy) (members : List (ℕ × MemberRole)) (publishers : List ℕ)
    : Type 0 where
  pub members_distinct : Distinct (keys members)
  pub members_bounded : length members ≤ policy.max_members
  pub one_host : count_hosts members ≡ 1
  pub publishers_distinct : Distinct publishers
  pub publishers_bounded : length publishers ≤ policy.max_publishers
  pub publishers_allowed :
      (u : ℕ) → Sets.contains u publishers ≡ true → may_publish (Maps.lookup u members) ≡ true

module _ {policy : RoomPolicy} {members : List (ℕ × MemberRole)} {publishers : List ℕ}
    (h : IsStaffed policy members publishers) (user : ℕ) where
  -- A new member or a new role, with `role` deciding whether the user may go on publishing.
  assign :
      (role : MemberRole)
      → length (Maps.insert user role members) ≤ policy.max_members
      → not_host (Maps.lookup user members) ≡ true
      → is_host role ≡ false
      → IsStaffed policy
          (Maps.insert user role members)
          (if can_publish role then publishers else Sets.remove user publishers)
  assign role fits plain r = record {
    members_distinct = Maps.insert-Distinct user role members h.members_distinct;
    members_bounded = fits;
    one_host = ground (arith, count_hosts-insert user role members, h.one_host);
    publishers_distinct =
        ground (
          arith,
          Sets.remove-Distinct user publishers h.publishers_distinct,
          h.publishers_distinct,
        );
    publishers_bounded =
        ground (arith, Sets.length-remove-le user publishers, h.publishers_bounded);
    publishers_allowed = λ u m. ground (
      arith,
      h.publishers_allowed u,
      Maps.lookup-insert user u role members,
      Sets.contains-remove u user publishers,
      ==_iff user u,
    );
  }

  pub hire :
      (role : MemberRole)
      → Maps.lookup user members ≡ none
      → length members < policy.max_members
      → role ≡ audience
      → IsStaffed policy
          (Maps.insert user role members)
          (if can_publish role then publishers else Sets.remove user publishers)
  hire role fresh room r =
      assign role (ground (arith, Maps.length-insert user role members)) (ground arith)
        (ground arith)

  pub promote :
      (role : MemberRole)
      → Maps.is_some (Maps.lookup user members) ≡ true
      → not_host (Maps.lookup user members) ≡ true
      → is_host role ≡ false
      → IsStaffed policy
          (Maps.insert user role members)
          (if can_publish role then publishers else Sets.remove user publishers)
  promote role there plain r =
      assign role (ground (arith, Maps.length-insert user role members, h.members_bounded)) plain r

  pub leave_staff :
      not_host (Maps.lookup user members) ≡ true
      → IsStaffed policy (Maps.remove user members) (Sets.remove user publishers)
  leave_staff plain = record {
    members_distinct = Maps.remove-Distinct user members h.members_distinct;
    members_bounded = omega (arith, Maps.length-remove-le user members, h.members_bounded);
    one_host = ground (arith, count_hosts-remove user members h.members_distinct, h.one_host);
    publishers_distinct = Sets.remove-Distinct user publishers h.publishers_distinct;
    publishers_bounded = omega (arith, Sets.length-remove-le user publishers, h.publishers_bounded);
    publishers_allowed = λ u m. ground (
      arith,
      h.publishers_allowed u,
      Maps.lookup-remove user u members,
      Sets.contains-remove u user publishers,
    );
  }

  pub start_staff :
      may_publish (Maps.lookup user members) ≡ true
      → length publishers < policy.max_publishers
      → IsStaffed policy members (Sets.insert user publishers)
  start_staff may room = record {
    members_distinct = h.members_distinct;
    members_bounded = h.members_bounded;
    one_host = h.one_host;
    publishers_distinct = Sets.insert-Distinct user publishers h.publishers_distinct;
    publishers_bounded = omega (arith, Sets.length-insert-le user publishers);
    publishers_allowed = λ u m.
        ground
          (arith, h.publishers_allowed u, Sets.contains-insert u user publishers, ==_iff user u);
  }

  pub stop_staff : IsStaffed policy members (Sets.remove user publishers)
  stop_staff = record {
    members_distinct = h.members_distinct;
    members_bounded = h.members_bounded;
    one_host = h.one_host;
    publishers_distinct = Sets.remove-Distinct user publishers h.publishers_distinct;
    publishers_bounded = omega (arith, Sets.length-remove-le user publishers, h.publishers_bounded);
    publishers_allowed =
        λ u m. ground (arith, h.publishers_allowed u, Sets.contains-remove u user publishers);
  }

pub silence :
    {policy : RoomPolicy} {members : List (ℕ × MemberRole)} {publishers : List ℕ}
    → IsStaffed policy members publishers
    → IsStaffed policy members []
unfolding Sets.contains
silence h = record {
  members_distinct = h.members_distinct;
  members_bounded = h.members_bounded;
  one_host = h.one_host;
  publishers_distinct = tt;
  publishers_bounded = omega arith;
  publishers_allowed = λ u m. cc;
}
