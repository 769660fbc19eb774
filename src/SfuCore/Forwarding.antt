-- ===== src/SfuCore/Forwarding.antt =====
-- What `forward` and `retransmit` promise: keyframe-safe switches, and a bounded cache.
use fluvora.Prelude.{
  ℕ, ◌+◌, ◌%◌, ◌^◌, ◌≤◌, ◌≡◌, refl, inl, inr, Bool, true, false, Option, none, some, List, [], ◌∷◌,
  length, ◌==◌, Result, ok, err, length-append, Bool-cases, arith,
}
use fluvora.Rtp.Errors.{RtpError}
use fluvora.Rtp.Packet.{Packet, parse}
use fluvora.SfuCore.Model.{PayloadInfo, PublishedTrack, ForwardedPacket, LayerSwitched}
use fluvora.SfuCore.DownTrack.{
  CachedPacket, DownTrack, ForwardDecision, is_some_of, expire, trim, expire_cache, store, rebase,
  rewrite_timestamp, retransmit,
}
use fluvora.SfuCore.Forward.{
  drop_decision, advance_state, finish, forward_parsed, forward_decided, forward,
}

unfoldable pub Bounded : DownTrack → Type 0
Bounded d = length d.cache ≤ d.cache_capacity

length-expire : (now age : ℕ) (cs : List CachedPacket) → length (expire now age cs) ≤ length cs
unfolding expire
length-expire now age [] = omega arith
length-expire now age (c ∷ cs) = ground (arith, length-expire now age cs)

length-trim :
    (capacity : ℕ) (cs : List CachedPacket)
    → 1 ≤ capacity
    → length (trim capacity cs) + 1 ≤ capacity
unfolding trim
length-trim capacity [] h = omega arith
length-trim capacity (c ∷ cs) h = ground (arith, length-trim capacity cs h)

store-Bounded :
    (now : ℕ) (p : ForwardedPacket) (d : DownTrack) → Bounded d → Bounded (store now p d)
unfolding store expire_cache Bounded
store-Bounded now p d h = elim (Bool-cases (d.cache_capacity == 0)) [
  | inl e ↦ rw e omega (arith, length-expire now d.cache_age d.cache)
  | inr e ↦ rw e omega (
    arith,
    length-append (trim d.cache_capacity (expire now d.cache_age d.cache))
        (record { inserted_at = now; packet = p } ∷ []),
    length-trim d.cache_capacity (expire now d.cache_age d.cache) (ground (arith, e)),
  )
]

rebase-cache :
    (input : ℕ) (switched : Bool) (o : Option ℕ) (d : DownTrack)
    → ((rebase input switched o d).1.cache ≡ d.cache)
      × ((rebase input switched o d).1.cache_capacity ≡ d.cache_capacity)
      × ((rebase input switched o d).1.next_sequence_number ≡ d.next_sequence_number)
      × ((rebase input switched o d).1.configuration ≡ d.configuration)
unfolding rebase
rebase-cache input switched none d = (refl, refl, refl, refl)
rebase-cache input true (some ssrc) d = (refl, refl, refl, refl)
rebase-cache input false (some ssrc) d = (refl, refl, refl, refl)

-- A packet that is let through takes one sequence number and leaves the cache to `store`.
pub advance_state-cache :
    (layer : ℕ) (parsed : Packet) (d : DownTrack)
    → ((advance_state layer parsed d).1.cache ≡ d.cache)
      × ((advance_state layer parsed d).1.cache_capacity ≡ d.cache_capacity)
      × ((advance_state layer parsed d).1.next_sequence_number
          ≡ (d.next_sequence_number + 1) % 2 ^ 16)
      × ((advance_state layer parsed d).1.configuration ≡ d.configuration)
unfolding advance_state rewrite_timestamp
advance_state-cache layer parsed d =
    let switched = is_some_of parsed.header.ssrc d.current_input_ssrc in
    elim (Bool-cases switched) [
      | inl e ↦
          rw e ground (arith, rebase-cache parsed.header.timestamp false d.current_input_ssrc d)
      | inr e ↦
          rw e ground (arith, rebase-cache parsed.header.timestamp true d.current_input_ssrc d)
    ]

finish-Bounded :
    (now layer : ℕ) (info : PayloadInfo) (event : Option LayerSwitched)
    (r : Result RtpError (List ℕ)) (d : DownTrack)
    → Bounded d
    → Bounded (finish now layer info event r d).1
unfolding finish
finish-Bounded now layer info event (err e) d h = h
finish-Bounded now layer info event (ok bytes) d h = store-Bounded now _ d h

forward_parsed-Bounded :
    (now layer : ℕ) (info : PayloadInfo) (input : List ℕ) (r : Result RtpError Packet)
    (d : DownTrack)
    → Bounded d
    → Bounded (forward_parsed now layer info input r d).1
unfolding forward_parsed Bounded
forward_parsed-Bounded now layer info input (err e) d h = h
forward_parsed-Bounded now layer info input (ok parsed) d h =
    let (same, capacity, next, conf) = advance_state-cache layer parsed d in
    finish-Bounded now layer info _ _ (advance_state layer parsed d).1
      (ground (arith, same, capacity))

forward_decided-Bounded :
    (now layer : ℕ) (info : PayloadInfo) (input : List ℕ) (o : Option ForwardDecision)
    (d : DownTrack)
    → Bounded d
    → Bounded (forward_decided now layer info input o d).1
unfolding forward_decided
forward_decided-Bounded now layer info input (some decision) d h = h
forward_decided-Bounded now layer info input none d h =
    forward_parsed-Bounded now layer info input (parse input) d h

-- The retransmission cache never holds more packets than its capacity: `forward` keeps the bound
-- whether it forwards, drops or fails, and so does `retransmit`.
pub forward-Bounded :
    (now now' layer : ℕ) (track : PublishedTrack) (info : PayloadInfo) (input requested : List ℕ)
    (d : DownTrack)
    → Bounded d
    → Bounded (forward now track layer info input d).1 × Bounded (retransmit now' requested d).1
unfolding forward retransmit expire_cache Bounded
forward-Bounded now now' layer track info input requested d h = (
  forward_decided-Bounded now layer info input (drop_decision track layer info d) d h,
  omega (arith, length-expire now' d.cache_age d.cache),
)
