-- ===== src/Room/Gifts.antt =====
-- A payment is recorded once: the gift history of a room.
use fluvora.Prelude.{nat_eq, list_eq}
use fluvora.Prelude.{
  ℕ, suc, ◌+◌, ◌<◌, ◌≡◌, refl, sym, subst, true, false, List, [], ◌∷◌, arith, length, Result, ok,
}
use fluvora.Prelude.Text.{Text}
use fluvora.Prelude.Sets
use fluvora.Room.History.{remember, Recent, remember-Recent, remember-Recent_self, contains-Recent}
use fluvora.Room.Apply.{apply, apply_kind, remember_command, execute}
use fluvora.Room.Decide.{decide, decide_gift}
use fluvora.Room.Execute.{next_event, execute_cases}
use fluvora.Room.Invariant.{IsValid, execute-IsValid}
use fluvora.Room.Idempotence.{run-IsValid}
use fluvora.Room.Replay.{Request, run}
use fluvora.Room.Model.{
  RoomCommand, record_verified_gift, VerifiedGiftReceipt, RoomEventKind, gift_recorded, RoomEvent,
  CommandOutcome, applied, Room, RoomError, gift_transaction_history_limit,
}

-- The gift history after a change of state.
abbrev gifts_after : Room → RoomEventKind → List Text
gifts_after room (gift_recorded sender receipt total_value) =
    (remember gift_transaction_history_limit receipt.transaction_id room.gift_transactions
      room.gift_transaction_order).1
gifts_after room _ = room.gift_transaction_order

apply_gifts :
    (room : Room) (event : RoomEvent) (kind : RoomEventKind)
    → event.kind ≡ kind
    → (apply room event).gift_transaction_order ≡ gifts_after room kind
unfolding apply apply_kind remember_command
apply_gifts room event (gift_recorded sender receipt total_value) e = rw e
apply_gifts room event _ e = rw e

gifts_after-Recent :
    {k : ℕ} {t : Text} (room : Room) (kind : RoomEventKind)
    → IsValid room
    → suc k < gift_transaction_history_limit
    → Recent k t room.gift_transaction_order
    → Recent (suc k) t (gifts_after room kind)
gifts_after-Recent room (gift_recorded sender receipt total_value) v lt h =
    remember-Recent receipt.transaction_id room.gift_transactions room.gift_transaction_order
      v.sound.gifts lt h
gifts_after-Recent room _ v lt (front, back, e, le) = (front, back, e, omega arith)

execute-Recent :
    {k : ℕ} {t : Text} (room : Room) (command_id timestamp_millis : ℕ) (command : RoomCommand)
    → IsValid room
    → suc k < gift_transaction_history_limit
    → Recent k t room.gift_transaction_order
    → Recent (suc k) t (execute room command_id timestamp_millis command).0.gift_transaction_order
execute-Recent {k} {t} room command_id timestamp_millis command v lt (front, back, e, le) =
    execute_cases (λ r. Recent (suc k) t r.0.gift_transaction_order) room command_id
      timestamp_millis command (λ _. kept) (λ _ _. kept) (λ _ _. kept) (λ _ _ _. kept)
      λ kind _ _ _ _.
        rw (apply_gifts room (next_event room command_id timestamp_millis kind) kind refl)
          (gifts_after-Recent room kind v lt (front, back, e, le))
  where
    kept : Recent (suc k) t room.gift_transaction_order
    kept = (front, back, e, omega arith)

run-Recent :
    (requests : List Request) (k : ℕ) (t : Text) (room : Room)
    → IsValid room
    → k + length requests < gift_transaction_history_limit
    → Recent k t room.gift_transaction_order
    → Recent (k + length requests) t (run room requests).0.gift_transaction_order
unfolding run
run-Recent [] k t room v lt (front, back, e, le) = (front, back, e, omega arith)
run-Recent (r ∷ requests) k t room v lt h =
    let next = (execute room r.command_id r.timestamp_millis r.command).0 in
    let same : suc k + length requests ≡ k + suc (length requests) = omega arith in
    subst (λ n. Recent n t (run next requests).0.gift_transaction_order) same
      (run-Recent requests (suc k) t next
        (execute-IsValid room r.command_id r.timestamp_millis r.command v) (omega arith)
        (execute-Recent room r.command_id r.timestamp_millis r.command v (omega arith) h))

-- A gift goes through only with a transaction that is not in the history, and names it.
gift-fresh :
    (room : Room) (sender : ℕ) (receipt : VerifiedGiftReceipt) (kind : RoomEventKind)
    → decide room (record_verified_gift sender receipt) ≡ ok kind
    → (Sets.contains receipt.transaction_id room.gift_transactions ≡ false)
      × (total : ℕ) × (kind ≡ gift_recorded sender receipt total)
unfolding decide decide_gift
gift-fresh room sender receipt kind e = ground arith

IsApplied : Result RoomError CommandOutcome → Type 0
IsApplied r = (event : RoomEvent) × (r ≡ ok (applied event))

applied-Recent :
    (room : Room) (command_id timestamp_millis sender : ℕ) (receipt : VerifiedGiftReceipt)
    → IsValid room
    → let r = execute room command_id timestamp_millis (record_verified_gift sender receipt) in
      IsApplied r.1 → Recent 0 receipt.transaction_id r.0.gift_transaction_order
unfolding IsApplied
applied-Recent room command_id timestamp_millis sender receipt v =
    execute_cases (λ r. IsApplied r.1 → Recent 0 receipt.transaction_id r.0.gift_transaction_order)
      room command_id timestamp_millis (record_verified_gift sender receipt) (λ _ a. cc a.1)
      (λ _ _ a. cc a.1) (λ _ _ a. cc a.1) (λ _ _ _ a. cc a.1)
      λ kind _ _ d _ a.
        let (fresh, total, e) = gift-fresh room sender receipt kind d in
        rw (apply_gifts room (next_event room command_id timestamp_millis kind) _ e) (
          remember-Recent_self receipt.transaction_id room.gift_transactions
            room.gift_transaction_order (omega arith) v.sound.gifts fresh)

known_gift :
    (room : Room) (command_id timestamp_millis sender : ℕ) (receipt : VerifiedGiftReceipt)
    → Sets.contains receipt.transaction_id room.gift_transactions ≡ true
    → (execute room command_id timestamp_millis (record_verified_gift sender receipt)).0 ≡ room
known_gift room command_id timestamp_millis sender receipt known =
    execute_cases (λ r. r.0 ≡ room) room command_id timestamp_millis
      (record_verified_gift sender receipt) (λ _. refl) (λ _ _. refl) (λ _ _. refl) (λ _ _ _. refl)
      λ kind _ _ d _. let (fresh, _, _) = gift-fresh room sender receipt kind d in cc (known, fresh)

-- Once a gift was applied to a valid room, no later gift with the same payment transaction changes
-- the room, whoever sends it and under whatever command identifier, as long as fewer than 4096
-- requests came in between.
pub gift_again :
    (room : Room) (command_id timestamp_millis sender : ℕ) (receipt : VerifiedGiftReceipt)
    (event : RoomEvent) (requests : List Request) (command_id' later sender' : ℕ)
    (receipt' : VerifiedGiftReceipt)
    → IsValid room
    → (execute room command_id timestamp_millis (record_verified_gift sender receipt)).1
      ≡ ok (applied event)
    → length requests < 4096
    → receipt'.transaction_id ≡ receipt.transaction_id
    → let next =
        (execute room command_id timestamp_millis (record_verified_gift sender receipt)).0 in
      let last = (run next requests).0 in
      (execute last command_id' later (record_verified_gift sender' receipt')).0 ≡ last
unfolding IsApplied
gift_again room command_id timestamp_millis sender receipt event requests command_id' later sender'
      receipt' v e few same =
    let command = record_verified_gift sender receipt in
    let next = (execute room command_id timestamp_millis command).0 in
    let next_valid : IsValid next = execute-IsValid room command_id timestamp_millis command v in
    let last = (run next requests).0 in
    let recent : Recent (0 + length requests) receipt.transaction_id last.gift_transaction_order =
      run-Recent requests 0 receipt.transaction_id next next_valid (omega arith)
        (applied-Recent room command_id timestamp_millis sender receipt v (event, e)) in
    known_gift last command_id' later sender' receipt' (
      rw same (
        subst (λ s. Sets.contains receipt.transaction_id s ≡ true)
          (sym (run-IsValid requests next next_valid).sound.gifts.same) (contains-Recent recent)))
