-- ===== src/Srtp/Authentic.antt =====
-- What `unprotect_rtp` (crates/webrtc/srtp/src/context.rs) releases, and what it does on an error.
use fluvora.Prelude.{nat_eq}
use fluvora.Prelude.{
  ℕ, ◌-◌, ◌/◌, ◌^◌, ◌≡◌, refl, sym, ap, ◌∙◌, subst, Option, some, none, List, ◌++◌, length,
  length-drop, get_range, take, drop, ltb, ◌==◌, Result, ok, err, ok_or, arith, bind-inv,
  fail_if-inv, ok-injective, &&-inv, list_beq, list_beq_iff, inl, inr, Result-cases,
}
use fluvora.Prelude.Bytes.{to_be}
use fluvora.Prelude.Fields.{read_field}
use fluvora.Prelude.Maps
use fluvora.Rtp.Packet.{Packet, parse, parse_header_length, get_from}
use fluvora.Srtp.Errors.{SrtpError, authentication_failed, rtp}
use fluvora.Srtp.Crypt.{take-all}
use fluvora.Srtp.Keys.{Primitives, rtp_tag_len}
use fluvora.Srtp.Replay.{check, accept, estimate_index}
use fluvora.Srtp.Context.{
  SrtpContext, map_err, window_of, rollover_counter, authenticate_rtp, crypt, crypt_from,
  verify_tag, open_rtp, unprotect_rtp,
}

verify_tag-inv : (a b : List ℕ) → verify_tag a b ≡ ok tt → a ≡ b
unfolding verify_tag
verify_tag-inv a b h =
    (list_beq_iff a b).0 (&&-inv (length a == length b) (list_beq a b) (ground arith)).1

rollover_counter-inv : (index roc : ℕ) → rollover_counter index ≡ ok roc → roc ≡ index / 2 ^ 16
rollover_counter-inv index roc h = ground arith

ok_or-inv {ℓ κ} :
    {E : Type ℓ} {A : Type κ} (o : Option A) (e : E) (a : A) → ok_or o e ≡ ok a → o ≡ some a
ok_or-inv none e a h = absurd (ground arith)
ok_or-inv (some b) e a h = ap some (ok-injective h)

range-inv :
    (start stop : ℕ) (bytes payload : List ℕ)
    → get_range bytes start stop ≡ some payload
    → take (stop - start) (drop start bytes) ≡ payload
range-inv start stop bytes payload h = ground arith

get_from-inv :
    (start : ℕ) (bytes payload : List ℕ)
    → get_from bytes start ≡ some payload
    → payload ≡ drop start bytes
get_from-inv start bytes payload h =
    let all =
      subst (λ (n : ℕ). take n (drop start bytes) ≡ drop start bytes) (length-drop start bytes)
        (take-all (drop start bytes)) in
    sym (range-inv start (length bytes) bytes payload h) ∙ all

-- A packet that is opened: the source, the index and the plaintext that its bytes give, with the tag
-- that vouches for them.
pub record Opened (p : Primitives) (r : SrtpContext) (packet : List ℕ) (found : ℕ × ℕ × List ℕ)
    : Type 0 where
  encrypted : List ℕ
  tag : List ℕ
  header_len : ℕ
  sequence_number : ℕ
  before : encrypted ≡ take (length packet - rtp_tag_len r.profile) packet
  measured : parse_header_length encrypted ≡ ok header_len
  sequence : read_field authentication_failed 2 encrypted 2 ≡ ok sequence_number
  source : read_field authentication_failed 4 encrypted 8 ≡ ok found.0
  index : found.1 ≡ estimate_index (window_of r.inbound_rtp found.0).maximum sequence_number
  -- The tag behind the packet is the beginning of the MAC of what stands before it.
  mac :
      p.hmac_sha1 r.inbound_rtp_keys.authentication (encrypted ++ to_be 4 (found.1 / 2 ^ 16))
      ≡ some tag
  tagged : drop (length packet - rtp_tag_len r.profile) packet ≡ take (rtp_tag_len r.profile) tag
  fresh : check (window_of r.inbound_rtp found.0) found.1 ≡ ok tt
  -- The header is released as it came, and what follows it decrypted.
  decrypted :
      found.2
      ≡ take header_len encrypted
        ++ crypt p (drop header_len encrypted) r.inbound_rtp_keys found.0 found.1
  parsed : (q : Packet) × (parse found.2 ≡ ok q)

crypt_from-inv :
    (p : Primitives) (start : ℕ) (bytes : List ℕ) (r : SrtpContext) (ssrc index : ℕ)
    (plaintext : List ℕ)
    → crypt_from p start bytes authentication_failed r.inbound_rtp_keys ssrc index ≡ ok plaintext
    → plaintext ≡ take start bytes ++ crypt p (drop start bytes) r.inbound_rtp_keys ssrc index
unfolding crypt_from
crypt_from-inv p start bytes r ssrc index plaintext h =
    let (payload, e, h') =
      bind-inv (ok_or (get_from bytes start) authentication_failed) _ plaintext h in
    subst (λ (b : List ℕ). plaintext ≡ take start bytes ++ crypt p b r.inbound_rtp_keys ssrc index)
      (get_from-inv start bytes payload (ok_or-inv _ authentication_failed payload e))
      (sym (ok-injective h'))

map_err-inv {ℓ} :
    {E A : Type ℓ} (f : E → SrtpError) (m : Result E A) (a : A) → map_err f m ≡ ok a → m ≡ ok a
map_err-inv f (ok b) a h = ap ok (ok-injective h)
map_err-inv f (err e) a h = absurd (ground arith)

open_rtp-Opened :
    (p : Primitives) (r : SrtpContext) (packet : List ℕ) (found : ℕ × ℕ × List ℕ)
    → open_rtp p r packet ≡ ok found
    → Opened p r packet found
unfolding open_rtp authenticate_rtp
open_rtp-Opened p r packet found h =
    let n = rtp_tag_len r.profile in
    let encrypted = take (length packet - n) packet in
    let (enough, h1) = fail_if-inv (ltb (length packet) n) authentication_failed _ found h in
    let (header_len, e1, h2) = bind-inv (map_err rtp (parse_header_length encrypted)) _ found h1 in
    let (sequence_number, e2, h3) =
      bind-inv (read_field authentication_failed 2 encrypted 2) _ found h2 in
    let (ssrc, e3, h4) = bind-inv (read_field authentication_failed 4 encrypted 8) _ found h3 in
    let w = window_of r.inbound_rtp ssrc in
    let index = estimate_index w.maximum sequence_number in
    let (fresh, e4, h5) = bind-inv (check w index) _ found h4 in
    let (roc, e5, h6) = bind-inv (rollover_counter index) _ found h5 in
    let (expected, e6, h7) =
      bind-inv
        (ok_or (p.hmac_sha1 r.inbound_rtp_keys.authentication (encrypted ++ to_be 4 roc))
          authentication_failed)
        _ found h6 in
    let (verified, e7, h8) =
      bind-inv (verify_tag (take n expected) (drop (length packet - n) packet)) _ found h7 in
    let (plaintext, e8, h9) =
      bind-inv
        (crypt_from p header_len encrypted authentication_failed r.inbound_rtp_keys ssrc index) _
        found h8 in
    let (q, e9, h10) = bind-inv (map_err rtp (parse plaintext)) _ found h9 in
    let counter =
      ap (λ (c : ℕ). p.hmac_sha1 r.inbound_rtp_keys.authentication (encrypted ++ to_be 4 c))
        (sym (rollover_counter-inv index roc e5)) in
    subst (Opened p r packet) (ok-injective h10) (record {
      encrypted = encrypted;
      tag = expected;
      header_len = header_len;
      sequence_number = sequence_number;
      before = refl;
      measured = map_err-inv rtp (parse_header_length encrypted) header_len e1;
      sequence = e2;
      source = e3;
      index = refl;
      mac = counter ∙ ok_or-inv _ authentication_failed expected e6;
      tagged = sym (verify_tag-inv (take n expected) (drop (length packet - n) packet) e7);
      fresh = e4;
      decrypted = crypt_from-inv p header_len encrypted r ssrc index plaintext e8;
      parsed = (q, map_err-inv rtp (parse plaintext) q e9);
    })

-- The answer and the state after it.
abbrev pub Answered :
    Primitives → SrtpContext → List ℕ → SrtpContext × Result SrtpError (List ℕ) → Type 0
Answered p r packet (r', err e) = r' ≡ r
Answered p r packet (r', ok plaintext) =
    (ssrc : ℕ) × (index : ℕ) × Opened p r packet (ssrc, index, plaintext)
    × (r' ≡ record r {
      inbound_rtp = Maps.insert ssrc (accept (window_of r.inbound_rtp ssrc) index) r.inbound_rtp;
    })

-- Whatever bytes arrive: an error changes nothing of the context. A plaintext is released only where
-- the header of the bytes before the tag has a length, its SSRC and sequence number can be read, and
-- the index that the window of that SSRC estimates from that number passes the window; where the tag
-- is the beginning of the MAC over those bytes and the rollover counter of that index; and where the
-- plaintext, which is the header as it came followed by the rest decrypted under that SSRC and index,
-- parses as RTP. That index is then accepted in the window of that SSRC, and nothing else of the
-- context changes.
pub unprotect_rtp-Answered :
    (p : Primitives) (r : SrtpContext) (packet : List ℕ)
    → Answered p r packet (unprotect_rtp p r packet)
unfolding unprotect_rtp
unprotect_rtp-Answered p r packet = elim (Result-cases (open_rtp p r packet)) [
  | inl (found, e) ↦ rw e (found.0, found.1, open_rtp-Opened p r packet found e, refl)
  | inr (x, e) ↦ rw e refl
]
