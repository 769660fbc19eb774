-- ===== src/Rtp/Kept.antt =====
-- What `Rewrite::apply` leaves of a packet: everything but the fixed header fields.
use Prim.Native.Nat.{bit_and, bit_or}
use fluvora.Prelude.{
  ℕ, zero, suc, ◌+◌, ◌-◌, ◌*◌, ◌≤◌, ◌≡◌, refl, sym, ap, subst, ◌∙◌, Bool, Option, none, some, List,
  [], ◌∷◌, ◌++◌, length, take, drop, length-append, length-take, length-drop, drop-drop, ok,
  bind-inv, ok-injective, arith,
}
use fluvora.Prelude.Bytes.{to_be, length-to_be}
use fluvora.Rtp.Packet.{byte_at, parse}
use fluvora.Rtp.Build.{bit_of}
use fluvora.Rtp.Rewrite.{Rewrite, overwrite, overwrite_if, apply_payload_type, apply_marker, apply}

unfoldable pub Kept : List ℕ → List ℕ → Type 0
Kept out packet =
    (length out ≡ length packet)
    × (drop 12 out ≡ drop 12 packet)
    × (byte_at out 0 ≡ byte_at packet 0)

drop_past : (n : ℕ) (ys zs : List ℕ) → length ys ≤ n → drop n (ys ++ zs) ≡ drop (n - length ys) zs
drop_past n [] zs h = ap (λ (k : ℕ). drop k zs) (omega arith)
drop_past zero (y ∷ ys) zs h = absurd (omega arith)
drop_past (suc n) (y ∷ ys) zs h =
    drop_past n ys zs (omega arith) ∙ ap (λ (k : ℕ). drop k zs) (omega arith)

overwrite-drop :
    (n position : ℕ) (bytes packet : List ℕ)
    → position + length bytes ≤ n
    → n ≤ length packet
    → drop n (overwrite position bytes packet) ≡ drop n packet
overwrite-drop n position bytes packet fits long =
    let front = length-take position packet in
    let after = position + length bytes in
    drop_past n (take position packet) (bytes ++ drop after packet) (omega (arith, front))
    ∙ drop_past (n - length (take position packet)) bytes (drop after packet) (omega (arith, front))
    ∙ drop-drop after (n - length (take position packet) - length bytes) packet
    ∙ ap (λ (k : ℕ). drop k packet) (omega (arith, front))

pub overwrite-length :
    (position : ℕ) (bytes packet : List ℕ)
    → position + length bytes ≤ length packet
    → length (overwrite position bytes packet) ≡ length packet
overwrite-length position bytes packet fits = omega (
  arith,
  length-append (take position packet) (bytes ++ drop (position + length bytes) packet),
  length-append bytes (drop (position + length bytes) packet),
  length-take position packet,
  length-drop (position + length bytes) packet,
)

overwrite-first :
    (position : ℕ) (bytes packet : List ℕ)
    → 1 ≤ position
    → 1 ≤ length packet
    → byte_at (overwrite position bytes packet) 0 ≡ byte_at packet 0
overwrite-first zero bytes packet h l = absurd (omega arith)
overwrite-first (suc n) bytes [] h l = absurd (omega arith)
overwrite-first (suc n) bytes (b ∷ packet) h l = refl

overwrite-Kept :
    (position : ℕ) (bytes packet : List ℕ)
    → 1 ≤ position
    → position + length bytes ≤ 12
    → 12 ≤ length packet
    → Kept (overwrite position bytes packet) packet
unfolding Kept
overwrite-Kept position bytes packet h fits long = (
  overwrite-length position bytes packet (omega arith),
  overwrite-drop 12 position bytes packet fits long,
  overwrite-first position bytes packet h (omega arith),
)

overwrite_if-Kept :
    (position width : ℕ) (o : Option ℕ) (packet : List ℕ)
    → 1 ≤ position
    → position + width ≤ 12
    → 12 ≤ length packet
    → Kept (overwrite_if position width o packet) packet
unfolding Kept
overwrite_if-Kept position width none packet h fits long = (refl, refl, refl)
overwrite_if-Kept position width (some v) packet h fits long =
    overwrite-Kept position (to_be width v) packet h (omega (arith, length-to_be width v)) long

apply_marker-Kept :
    (o : Option Bool) (packet : List ℕ) → 12 ≤ length packet → Kept (apply_marker o packet) packet
unfolding Kept apply_marker
apply_marker-Kept none packet long = (refl, refl, refl)
apply_marker-Kept (some marker) packet long =
    overwrite-Kept 1 (bit_or (bit_and (byte_at packet 1) 0x7f) (bit_of marker * 128) ∷ []) packet
      (omega arith) (omega arith) long

pub apply_payload_type-Kept :
    (o : Option ℕ) (packet out : List ℕ)
    → 12 ≤ length packet
    → apply_payload_type o packet ≡ ok out
    → Kept out packet
unfolding apply_payload_type Kept
apply_payload_type-Kept none packet out long h =
    let same = ok-injective h in
    (
      ap (λ (xs : List ℕ). length xs) (sym same),
      ap (λ (xs : List ℕ). drop 12 xs) (sym same),
      ap (λ (xs : List ℕ). byte_at xs 0) (sym same),
    )
apply_payload_type-Kept (some t) packet out long h =
    let b = bit_or (bit_and (byte_at packet 1) 0x80) t in
    let same : overwrite 1 (b ∷ []) packet ≡ out = ground arith in
    subst (λ (xs : List ℕ). Kept xs packet) same
      (overwrite-Kept 1 (b ∷ []) packet (omega arith) (omega arith) long)

Kept-trans : (xs ys zs : List ℕ) → Kept xs ys → Kept ys zs → Kept xs zs
unfolding Kept
Kept-trans xs ys zs (a, b, c) (a', b', c') = (a ∙ a', b ∙ b', c ∙ c')

pub apply-Kept :
    (r : Rewrite) (packet out : List ℕ)
    → 12 ≤ length packet
    → apply r packet ≡ ok out
    → Kept out packet
unfolding apply Kept
apply-Kept r packet out long h =
    let (p, e1, h1) = bind-inv (parse packet) _ out h in
    let (typed, e2, h2) = bind-inv (apply_payload_type r.payload_type packet) _ out h1 in
    let marked = apply_marker r.marker typed in
    let a = overwrite_if 2 2 r.sequence_number marked in
    let b = overwrite_if 4 4 r.timestamp a in
    let k0 : Kept typed packet = apply_payload_type-Kept r.payload_type packet typed long e2 in
    let k1 : Kept marked typed = apply_marker-Kept r.marker typed (omega (arith, k0.0)) in
    let k2 : Kept a marked =
      overwrite_if-Kept 2 2 r.sequence_number marked (omega arith) (omega arith)
        (omega (arith, k0.0, k1.0)) in
    let k3 : Kept b a =
      overwrite_if-Kept 4 4 r.timestamp a (omega arith) (omega arith)
        (omega (arith, k0.0, k1.0, k2.0)) in
    let k4 =
      overwrite_if-Kept 8 4 r.ssrc b (omega arith) (omega arith)
        (omega (arith, k0.0, k1.0, k2.0, k3.0)) in
    subst (λ (xs : List ℕ). Kept xs packet) (ok-injective h2)
      (Kept-trans _ b packet k4 (
        Kept-trans b a packet k3
          (Kept-trans a marked packet k2 (Kept-trans marked typed packet k1 k0))))
