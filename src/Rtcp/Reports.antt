-- ===== src/Rtcp/Reports.antt =====
-- Reports, negative acknowledgements and picture loss: what is encoded is parsed.
use fluvora.Prelude.{
  ℕ, ◌+◌, ◌-◌, ◌*◌, ◌/◌, ◌%◌, ◌^◌, ◌<◌, ◌≤◌, ◌≡◌, refl, sym, ap, true, false, List, [], ◌∷◌, ◌++◌,
  length, drop, All, arith, map_ok-inv, subst, ltb, ◌==◌, ◌||◌, Result, ok, map_ok, bind-inv,
  ok-injective, length-append, inl, inr, not, Bool-cases,
}
use fluvora.Prelude.Bytes.{to_be}
use fluvora.Prelude.Int.{fits_signed, to_word, of_word-to_word-24, to_word-lt-24}
use fluvora.Prelude.Fields.{read_field, read_field-at, read_byte-at}
use fluvora.Rtcp.Model.{
  ReportBlock, SenderReport, ReceiverReport, NackEntry, GenericNack, PictureLossIndication,
  RtcpError, truncated_packet,
}
use fluvora.Rtcp.Fits.{Word32, BlockFits, SenderFits, EntryFits}
use fluvora.Rtcp.Parse.{
  parse_report_block, parse_report_blocks, parse_sender_report, parse_receiver_report,
  require_body_len, parse_entries, parse_nack, parse_pli,
}
use fluvora.Rtcp.Encode.{
  report_block_bytes, encode_report_blocks, encode_sender_report, encode_receiver_report,
  checked_count, entry_bytes, encode_nack, encode_pli,
}

-- A field behind `pre`, in a body short enough for the sum of the positions not to saturate.
word_at :
    (width v : ℕ) (pre post : List ℕ) (i : ℕ)
    → v < 256 ^ width
    → i ≡ length pre
    → i + width < 2 ^ 64
    → read_field truncated_packet width (pre ++ (to_be width v ++ post)) i ≡ ok v
word_at width v pre post i h e small = read_field-at truncated_packet width v pre post i e h small

pub parse_pli-encode_pli :
    (p : PictureLossIndication)
    → Word32 p.sender_ssrc
    → Word32 p.media_ssrc
    → parse_pli (encode_pli p) ≡ ok p
unfolding parse_pli encode_pli
parse_pli-encode_pli p s m =
    let first = word_at 4 p.sender_ssrc [] (to_be 4 p.media_ssrc) 0 s refl (omega arith) in
    let second = word_at 4 p.media_ssrc (to_be 4 p.sender_ssrc) [] 4 m refl (omega arith) in
    rw (first, second) refl

pub parse_report_block-bytes :
    (r : ReportBlock) (post : List ℕ)
    → BlockFits r
    → fits_signed 23 r.cumulative_lost ≡ true
    → parse_report_block (report_block_bytes r ++ post) ≡ ok r
unfolding parse_report_block report_block_bytes
parse_report_block-bytes r post f h =
    let loss = to_word 24 r.cumulative_lost in
    let p1 = to_be 4 r.ssrc ++ (r.fraction_lost ∷ []) in
    let p2 = p1 ++ to_be 3 loss in
    let p3 = p2 ++ to_be 4 r.extended_highest_sequence in
    let p4 = p3 ++ to_be 4 r.jitter in
    let p5 = p4 ++ to_be 4 r.last_sender_report in
    let q5 = to_be 4 r.delay_since_last_sender_report ++ post in
    let q4 = to_be 4 r.last_sender_report ++ q5 in
    let q3 = to_be 4 r.jitter ++ q4 in
    let q2 = to_be 4 r.extended_highest_sequence ++ q3 in
    let q1 = to_be 3 loss ++ q2 in
    let a = word_at 4 r.ssrc [] (r.fraction_lost ∷ q1) 0 f.ssrc refl (omega arith) in
    let b =
      read_byte-at truncated_packet r.fraction_lost (to_be 4 r.ssrc) q1 4 refl (omega arith) in
    let c = word_at 3 loss p1 q2 5 (to_word-lt-24 r.cumulative_lost) refl (omega arith) in
    let d = word_at 4 r.extended_highest_sequence p2 q3 8 f.highest refl (omega arith) in
    let e = word_at 4 r.jitter p3 q4 12 f.jitter refl (omega arith) in
    let g = word_at 4 r.last_sender_report p4 q5 16 f.last refl (omega arith) in
    let i = word_at 4 r.delay_since_last_sender_report p5 post 20 f.delay refl (omega arith) in
    rw (a, b, c, d, e, g, i, of_word-to_word-24 r.cumulative_lost h) refl

-- What `encode_report_blocks` needs of the first block, and how it goes on.
encode_report_blocks-inv :
    (r : ReportBlock) (rs : List ReportBlock) (bytes : List ℕ)
    → encode_report_blocks (r ∷ rs) ≡ ok bytes
    → (rest : List ℕ) × (encode_report_blocks rs ≡ ok rest)
      × (fits_signed 23 r.cumulative_lost ≡ true)
      × (report_block_bytes r ++ rest ≡ bytes)
unfolding encode_report_blocks
encode_report_blocks-inv r rs bytes h = elim (Bool-cases (fits_signed 23 r.cumulative_lost)) [
  | inl fits ↦
      let step : map_ok (λ tail. report_block_bytes r ++ tail) (encode_report_blocks rs)
          ≡ ok bytes =
        ground (arith, fits) in
      let (rest, e, eq) =
        map_ok-inv (λ tail. report_block_bytes r ++ tail) (encode_report_blocks rs) bytes step in
      (rest, e, fits, eq)
  | inr wide ↦ absurd (ground (arith, wide))
]

length-encode_report_blocks :
    (rs : List ReportBlock) (bytes : List ℕ)
    → encode_report_blocks rs ≡ ok bytes
    → length bytes ≡ length rs * 24
unfolding encode_report_blocks
length-encode_report_blocks [] bytes h =
    let nil = ap (λ (b : List ℕ). length b) (ok-injective h) in omega (arith, nil)
length-encode_report_blocks (r ∷ rs) bytes h =
    let (rest, e, fits, eq) = encode_report_blocks-inv r rs bytes h in
    let size = ap (λ (b : List ℕ). length b) eq in
    let block : length (report_block_bytes r) ≡ 24 = unfold report_block_bytes in refl in
    omega (
      arith,
      size,
      block,
      length-append (report_block_bytes r) rest,
      length-encode_report_blocks rs rest e,
    )

parse_report_blocks-encode :
    (rs : List ReportBlock) (bytes : List ℕ)
    → All BlockFits rs
    → encode_report_blocks rs ≡ ok bytes
    → parse_report_blocks (length rs) bytes ≡ ok rs
unfolding parse_report_blocks
parse_report_blocks-encode [] bytes f h = refl
parse_report_blocks-encode (r ∷ rs) bytes f h =
    let (rest, e, fits, eq) = encode_report_blocks-inv r rs bytes h in
    let block = parse_report_block-bytes r rest f.0 fits in
    let tail : drop 24 (report_block_bytes r ++ rest) ≡ rest = unfold report_block_bytes in refl in
    rw (sym eq, block, tail, parse_report_blocks-encode rs rest f.1 e) refl

pub checked_count-inv : (n count : ℕ) → checked_count n ≡ ok count → (n ≡ count) × (n ≤ 31)
unfolding checked_count
checked_count-inv n count h = ground arith

-- What a reader of packets of one type makes of an encoding: it gives the packet back, and the
-- encoding can be framed.
unfoldable pub Reads {ℓ} :
    {A : Type ℓ} → ℕ → (ℕ → List ℕ → Result RtcpError A) → A → ℕ × ℕ × List ℕ → Type ℓ
Reads packet_type read a t =
    (read t.0 t.2 ≡ ok a) × (t.1 ≡ packet_type) × (t.0 ≤ 31) × (length t.2 % 4 ≡ 0)

pub parse_receiver_report-encode :
    (r : ReceiverReport) (t : ℕ × ℕ × List ℕ)
    → Word32 r.sender_ssrc
    → All BlockFits r.reports
    → encode_receiver_report r ≡ ok t
    → Reads 201 parse_receiver_report r t
unfolding encode_receiver_report parse_receiver_report require_body_len Reads
parse_receiver_report-encode r t s f h =
    let (n, e1, h1) = bind-inv (checked_count (length r.reports)) _ t h in
    let (blocks, e2, h2) = bind-inv (encode_report_blocks r.reports) _ t h1 in
    let (counted, small) = checked_count-inv (length r.reports) n e1 in
    let long = length-encode_report_blocks r.reports blocks e2 in
    let sender = word_at 4 r.sender_ssrc [] blocks 0 s refl (omega arith) in
    let body = to_be 4 r.sender_ssrc ++ blocks in
    let total : (length body == 4 + length r.reports * 24) ≡ true = ground (arith, long) in
    subst (Reads 201 parse_receiver_report r) (ok-injective h2) (
      rw (sym counted, total, sender, parse_report_blocks-encode r.reports blocks f e2) refl,
      refl,
      omega (arith, counted, small),
      omega (arith, long),
    )

pub parse_sender_report-encode :
    (r : SenderReport) (t : ℕ × ℕ × List ℕ)
    → SenderFits r
    → encode_sender_report r ≡ ok t
    → Reads 200 parse_sender_report r t
unfolding encode_sender_report parse_sender_report require_body_len Reads
parse_sender_report-encode r t f h =
    let (n, e1, h1) = bind-inv (checked_count (length r.reports)) _ t h in
    let (blocks, e2, h2) = bind-inv (encode_report_blocks r.reports) _ t h1 in
    let (counted, small) = checked_count-inv (length r.reports) n e1 in
    let long = length-encode_report_blocks r.reports blocks e2 in
    let p1 = to_be 4 r.sender_ssrc in
    let p2 = p1 ++ to_be 8 r.ntp_timestamp in
    let p3 = p2 ++ to_be 4 r.rtp_timestamp in
    let p4 = p3 ++ to_be 4 r.sender_packet_count in
    let q4 = to_be 4 r.sender_octet_count ++ blocks in
    let q3 = to_be 4 r.sender_packet_count ++ q4 in
    let q2 = to_be 4 r.rtp_timestamp ++ q3 in
    let q1 = to_be 8 r.ntp_timestamp ++ q2 in
    let body = to_be 4 r.sender_ssrc ++ q1 in
    let a = word_at 4 r.sender_ssrc [] q1 0 f.sender refl (omega arith) in
    let b = word_at 8 r.ntp_timestamp p1 q2 4 f.ntp refl (omega arith) in
    let c = word_at 4 r.rtp_timestamp p2 q3 12 f.rtp refl (omega arith) in
    let d = word_at 4 r.sender_packet_count p3 q4 16 f.packets refl (omega arith) in
    let e = word_at 4 r.sender_octet_count p4 blocks 20 f.octets refl (omega arith) in
    let total : (length body == 24 + length r.reports * 24) ≡ true = ground (arith, long) in
    subst (Reads 200 parse_sender_report r) (ok-injective h2) (
      rw
          (
            sym counted,
            total,
            a,
            b,
            c,
            d,
            e,
            parse_report_blocks-encode r.reports blocks f.reports e2,
          )
          refl,
      refl,
      omega (arith, counted, small),
      omega (arith, long),
    )

length-entry_bytes : (xs : List NackEntry) → length (entry_bytes xs) ≡ length xs * 4
unfolding entry_bytes
length-entry_bytes [] = refl
length-entry_bytes (x ∷ xs) = omega (arith, length-entry_bytes xs)

parse_entries-bytes :
    (xs : List NackEntry) → All EntryFits xs → parse_entries (length xs) (entry_bytes xs) ≡ ok xs
unfolding parse_entries entry_bytes
parse_entries-bytes [] f = refl
parse_entries-bytes (x ∷ xs) f =
    let rest = to_be 2 x.lost_packet_bitmask ++ entry_bytes xs in
    let a = word_at 2 x.packet_id [] rest 0 f.0.0 refl (omega arith) in
    let b =
      word_at 2 x.lost_packet_bitmask (to_be 2 x.packet_id) (entry_bytes xs) 2 f.0.1 refl
        (omega arith) in
    rw (a, b, parse_entries-bytes xs f.1) refl

pub parse_nack-encode_nack :
    (n : GenericNack)
    → Word32 n.sender_ssrc
    → Word32 n.media_ssrc
    → All EntryFits n.entries
    → (parse_nack (encode_nack n) ≡ ok n) × (length (encode_nack n) % 4 ≡ 0)
unfolding parse_nack encode_nack
parse_nack-encode_nack n s m f =
    let entries = entry_bytes n.entries in
    let media = to_be 4 n.media_ssrc ++ entries in
    let body = to_be 4 n.sender_ssrc ++ media in
    let long = length-entry_bytes n.entries in
    let a = word_at 4 n.sender_ssrc [] media 0 s refl (omega arith) in
    let b = word_at 4 n.media_ssrc (to_be 4 n.sender_ssrc) entries 4 m refl (omega arith) in
    let whole : (ltb (length body) 8 || not ((length body - 8) % 4 == 0)) ≡ false =
      ground (arith, long) in
    let rounds : (length body - 8) / 4 ≡ length n.entries = omega (arith, long) in
    (rw (whole, rounds, parse_entries-bytes n.entries f, a, b) refl, omega (arith, long))
