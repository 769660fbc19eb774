-- ===== src/Room/Tests.antt =====
-- Runs of the room aggregate, and its theorems at concrete inputs.
use fluvora.Prelude.{nat_eq, list_eq}
use fluvora.Prelude.{◌≡◌, refl, [], ◌∷◌, arith, ok, some}
use fluvora.Prelude.Sets
use fluvora.Prelude.Maps
use fluvora.Prelude.Sorting.{sort_by_key, entry_key}
use fluvora.Prelude.Text.{as_bytes}
use fluvora.Room.History.{remember, evict}
use fluvora.Room.Decide.{decide, decide_join, decide_gift, decide_role_change, valid_gift_text}
use fluvora.Room.Apply.{create, execute, restore}
use fluvora.Room.Invariant.{IsValid, execute-IsValid, create-IsValid}
use fluvora.Room.Replay.{Request, run, restore-run}
use fluvora.Room.Idempotence.{execute_again}
use fluvora.Room.Gifts.{gift_again}
use fluvora.Room.Snapshot.{snapshot, restore_snapshot, policy_valid}
use fluvora.Room.RoundTrip.{restore_snapshot-snapshot}
use fluvora.Room.Authority.{host_stays, Granted, role-Granted}
use fluvora.Room.Model.{
  live, host, publisher, default_policy, join, set_role, record_verified_gift, VerifiedGiftReceipt,
  member_joined, audience, gift_recorded, applied, duplicate, Room,
}

abbrev gift : VerifiedGiftReceipt
gift = record {
  transaction_id = b't' ∷ b'1' ∷ [];
  gift_id = b'r' ∷ [];
  quantity = 3;
  unit_value = 5;
  currency = b'E' ∷ b'U' ∷ b'R' ∷ [];
  recipient = 10;
}

abbrev joins : Request
joins = record { command_id = 2; timestamp_millis = 200; command = join 20 }

abbrev promotes : Request
promotes = record { command_id = 3; timestamp_millis = 300; command = set_role 10 20 publisher }

stage-IsValid : IsValid (create 1 live 10 default_policy 1 100).0
stage-IsValid = create-IsValid 1 live 10 default_policy 1 100 (omega arith)

create-IsValid_example : IsValid (create 1 live 10 default_policy 1 100).0
create-IsValid_example = create-IsValid 1 live 10 default_policy 1 100 (omega arith)

execute-IsValid_example :
    IsValid (execute (create 1 live 10 default_policy 1 100).0 2 200 (join 20)).0
execute-IsValid_example =
    execute-IsValid (create 1 live 10 default_policy 1 100).0 2 200 (join 20) stage-IsValid

restore-run_example :
    let (room, event) = create 1 live 10 default_policy 1 100 in
    let (last, events) = run room (joins ∷ promotes ∷ []) in
    restore 1 live default_policy (event ∷ events) ≡ ok last
restore-run_example = restore-run 1 live 10 default_policy 1 100 (joins ∷ promotes ∷ [])

join_applied :
    (execute (create 1 live 10 default_policy 1 100).0 2 200 (join 20)).1
    ≡ ok (
        applied (record {
          sequence = 2;
          command_id = 2;
          timestamp_millis = 200;
          kind = member_joined 20 audience;
        }))
unfolding create execute decide decide_join remember evict Sets.contains Sets.insert Maps.insert
    Maps.lookup
join_applied = refl

execute_again_example :
    let next = (execute (create 1 live 10 default_policy 1 100).0 2 200 (join 20)).0 in
    let last = (run next (promotes ∷ [])).0 in execute last 2 900 (join 30) ≡ (last, ok duplicate)
execute_again_example =
    execute_again (create 1 live 10 default_policy 1 100).0 2 200 (join 20) _ (promotes ∷ []) 900
      (join 30) stage-IsValid join_applied (omega arith)

gift_applied :
    (execute (create 1 live 10 default_policy 1 100).0 2 200 (record_verified_gift 10 gift)).1
    ≡ ok (
        applied (record {
          sequence = 2;
          command_id = 2;
          timestamp_millis = 200;
          kind = gift_recorded 10 gift 15;
        }))
unfolding create execute decide decide_gift remember evict Sets.contains Sets.insert Maps.insert
    Maps.lookup valid_gift_text as_bytes
gift_applied = refl

gift_again_example :
    let next =
      (execute (create 1 live 10 default_policy 1 100).0 2 200 (record_verified_gift 10 gift)).0 in
    let last = (run next (promotes ∷ [])).0 in
    (execute last 7 900 (record_verified_gift 10 (record gift { quantity = 1 }))).0 ≡ last
gift_again_example =
    gift_again (create 1 live 10 default_policy 1 100).0 2 200 10 gift _ (promotes ∷ []) 7 900 10
      (record gift { quantity = 1 }) stage-IsValid gift_applied (omega arith) refl

restore_snapshot-snapshot_example :
    let room = (create 1 live 10 default_policy 1 100).0 in
    restore_snapshot (snapshot room)
    ≡ ok (record room {
      members = sort_by_key entry_key room.members;
      publishers = sort_by_key (λ x. x) room.publishers;
    })
unfolding create policy_valid
restore_snapshot-snapshot_example =
    restore_snapshot-snapshot (create 1 live 10 default_policy 1 100).0 stage-IsValid refl

host_stays_example :
    Maps.lookup 10 (execute (create 1 live 10 default_policy 1 100).0 2 200 (join 20)).0.members
    ≡ some host
unfolding create Maps.insert Maps.lookup
host_stays_example = host_stays (create 1 live 10 default_policy 1 100).0 2 200 (join 20) 10 refl

abbrev joined : Room
joined = (execute (create 1 live 10 default_policy 1 100).0 2 200 (join 20)).0

role-Granted_example : Granted joined (set_role 10 20 publisher) 20 publisher
unfolding create execute decide decide_join decide_role_change remember evict Sets.contains
    Sets.insert Sets.remove Maps.insert Maps.lookup
role-Granted_example =
    role-Granted joined 3 300 (set_role 10 20 publisher) 20 publisher refl (λ e. cc) refl
