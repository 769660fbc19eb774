-- ===== src/Room/Members.antt =====
-- Facts on the member map of a room: how many hosts it has, and who may publish.
use fluvora.Prelude.{nat_eq}
use fluvora.Prelude.{
  ℕ, suc, ◌≡◌, Bool, true, false, List, [], ◌∷◌, Option, none, some, arith, if◌then◌else◌, ==_iff,
}
use fluvora.Prelude.Sets.{Distinct}
use fluvora.Prelude.Maps
use fluvora.Prelude.Maps.{keys}
use fluvora.Room.Model.{MemberRole, is_host, can_publish}

unfoldable pub count_hosts : List (ℕ × MemberRole) → ℕ
count_hosts [] = 0
count_hosts ((user, role) ∷ members) =
    if is_host role then suc (count_hosts members) else count_hosts members

-- `members.get(user).is_some_and(|role| role.can_publish())`
abbrev pub may_publish : Option MemberRole → Bool
may_publish none = false
may_publish (some role) = can_publish role

-- No member, or a member who is not the host.
abbrev pub not_host : Option MemberRole → Bool
not_host none = true
not_host (some role) = if is_host role then false else true

pub count_hosts-insert :
    (user : ℕ) (role : MemberRole) (members : List (ℕ × MemberRole))
    → is_host role ≡ false
    → not_host (Maps.lookup user members) ≡ true
    → count_hosts (Maps.insert user role members) ≡ count_hosts members
unfolding count_hosts Maps.insert Maps.lookup
count_hosts-insert user role [] h k = ground arith
count_hosts-insert user role ((u, r) ∷ members) h k =
    ground (arith, count_hosts-insert user role members)

pub count_hosts-remove :
    (user : ℕ) (members : List (ℕ × MemberRole))
    → Distinct (keys members)
    → not_host (Maps.lookup user members) ≡ true
    → count_hosts (Maps.remove user members) ≡ count_hosts members
unfolding count_hosts Maps.remove Maps.lookup
count_hosts-remove user [] d k = ground arith
count_hosts-remove user ((u, r) ∷ members) d k =
    ground (arith, count_hosts-remove user members d.1, Maps.contains-keys u members, ==_iff u user)
