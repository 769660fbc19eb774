-- ===== src/Srtp/Crypt.antt =====
-- What `crypt` and the tags of crates/webrtc/srtp/src/context.rs do to a packet.
use fluvora.Prelude.{
  ℕ, ◌≤◌, ◌≡◌, refl, sym, ap, some, true, ◌&&◌, List, [], ◌∷◌, ◌++◌, length, take, drop, leb, ok,
  arith, length-append, length-take, length-drop, take-append-drop, take-length_append,
  drop-length_append, list_beq_iff, ==_iff,
}
use fluvora.Rtp.Packet.{get_from}
use fluvora.Srtp.Errors.{SrtpError}
use fluvora.Srtp.Keys.{Primitives, Lawful, SessionKeys}
use fluvora.Srtp.Context.{crypt, crypt_from, verify_tag, make_iv}

pub take-all : (xs : List ℕ) → take (length xs) xs ≡ xs
take-all [] = refl
take-all (x ∷ xs) = ap (◌∷◌ x) (take-all xs)

pub take-split : (n : ℕ) (h t : List ℕ) → n ≡ length h → take n (h ++ t) ≡ h
take-split n h t e = rw e (take-length_append h t)

pub drop-split : (n : ℕ) (h t : List ℕ) → n ≡ length h → drop n (h ++ t) ≡ t
drop-split n h t e = rw e (drop-length_append h t)

get_from-drop : (xs : List ℕ) (n : ℕ) → n ≤ length xs → get_from xs n ≡ some (drop n xs)
get_from-drop xs n h =
    let test : (leb n (length xs) && leb (length xs) (length xs)) ≡ true = ground arith in
    let size = length-drop n xs in rw (test, sym size) (ap some (take-all (drop n xs)))

pub verify_tag-same : (tag : List ℕ) → verify_tag tag tag ≡ ok tt
unfolding verify_tag
verify_tag-same tag =
    rw ((==_iff (length tag) (length tag)).1 refl, (list_beq_iff tag tag).1 refl) refl

module _ (p : Primitives) (l : Lawful p) (start : ℕ) (packet : List ℕ) (keys : SessionKeys)
    (ssrc index : ℕ) (long : start ≤ length packet) where
  -- The packet with its bytes from `start` on encrypted.
  abbrev pub encrypted : List ℕ
  encrypted = take start packet ++ crypt p (drop start packet) keys ssrc index

  pub front_len : length (take start packet) ≡ start
  front_len = omega (arith, length-take start packet, long)

  pub length-crypt :
      length (crypt p (drop start packet) keys ssrc index) ≡ length (drop start packet)
  unfolding crypt
  length-crypt = l.length_kept keys.encryption (make_iv keys.salt ssrc index) (drop start packet)

  pub length-encrypted : length encrypted ≡ length packet
  length-encrypted = omega (
    arith,
    front_len,
    length-crypt,
    length-drop start packet,
    length-append (take start packet) (crypt p (drop start packet) keys ssrc index),
    long,
  )

  pub crypt_from-encrypted :
      (e : SrtpError) → crypt_from p start packet e keys ssrc index ≡ ok encrypted
  unfolding crypt_from
  crypt_from-encrypted e = rw (get_from-drop packet start long) refl

  -- Decryption under the same keys gives the packet again.
  pub crypt_from-twice :
      (e : SrtpError) → crypt_from p start encrypted e keys ssrc index ≡ ok packet
  unfolding crypt_from crypt
  crypt_from-twice e =
      let iv = make_iv keys.salt ssrc index in
      let back = l.applied_twice keys.encryption iv (drop start packet) in
      let size : start ≤ length encrypted = omega (arith, length-encrypted, long) in
      let front =
        take-split start (take start packet) (crypt p (drop start packet) keys ssrc index)
          (sym front_len) in
      let rest =
        drop-split start (take start packet) (crypt p (drop start packet) keys ssrc index)
          (sym front_len) in
      rw (get_from-drop encrypted start size, front, rest, back)
        (ap ok (take-append-drop start packet))
