-- ===== src/Rtcp/Feedback.antt =====
-- Transport-wide feedback: what is encoded is parsed.
use Prim.Native.Nat.{bit_and, bit_or}
use fluvora.Prelude.{
  ℕ, zero, suc, ◌-◌, ◌*◌, ◌^◌, ◌≤◌, ◌<◌, ◌≡◌, refl, sym, ap, ◌∙◌, Bool, true, false, ◌&&◌, List, [],
  ◌∷◌, map, length, All, arith, ◌⊎◌, inl, inr, &&-inv, not-inv, ltb→lt, Result, ok, err, list_beq,
  list_beq_iff, ◌==◌, ltb, not,
}
use fluvora.Rtcp.Model.{TwccStatus, RtcpError}
use fluvora.Rtcp.Twcc.{chunk_symbols, decode_chunk, chunk_bits, symbol_of}

-- The chunk of symbols, which depends on the statuses by their symbols only.
pub symbol_bits : ℕ → ℕ → List ℕ → ℕ
symbol_bits chunk shift [] = chunk
symbol_bits chunk shift (s ∷ ss) = symbol_bits (bit_or chunk (s * 2 ^ shift)) (shift - 2) ss

pub chunk_bits-symbols :
    (chunk shift : ℕ) (ss : List TwccStatus)
    → chunk_bits chunk shift ss ≡ symbol_bits chunk shift (map symbol_of ss)
unfolding chunk_bits symbol_bits
chunk_bits-symbols chunk shift [] = refl
chunk_bits-symbols chunk shift (s ∷ ss) =
    chunk_bits-symbols (bit_or chunk (symbol_of s * 2 ^ shift)) (shift - 2) ss

-- A test on all lists of at most `n` symbols below 3.
all_symbols : ℕ → (List ℕ → Bool) → Bool
all_symbols zero p = p []
all_symbols (suc n) p =
    p []
    && all_symbols n (λ ss. p (0 ∷ ss))
    && all_symbols n (λ ss. p (1 ∷ ss))
    && all_symbols n (λ ss. p (2 ∷ ss))

abbrev pub Symbol : ℕ → Type 0
Symbol s = s < 3

of_all_symbols :
    (n : ℕ) (p : List ℕ → Bool) (ss : List ℕ)
    → all_symbols n p ≡ true
    → length ss ≤ n
    → All Symbol ss
    → p ss ≡ true
unfolding all_symbols
of_all_symbols zero p [] h l a = h
of_all_symbols zero p (s ∷ ss) h l a = absurd (omega arith)
of_all_symbols (suc n) p [] h l a = ground arith
of_all_symbols (suc n) p (zero ∷ ss) h l a =
    of_all_symbols n (λ ss. p (0 ∷ ss)) ss (ground arith) (omega arith) a.1
of_all_symbols (suc n) p (suc zero ∷ ss) h l a =
    of_all_symbols n (λ ss. p (1 ∷ ss)) ss (ground arith) (omega arith) a.1
of_all_symbols (suc n) p (suc (suc zero) ∷ ss) h l a =
    of_all_symbols n (λ ss. p (2 ∷ ss)) ss (ground arith) (omega arith) a.1
of_all_symbols (suc n) p (suc (suc (suc s)) ∷ ss) h l a = absurd (omega (arith, a.0))

abbrev answers : List ℕ → Result RtcpError (List ℕ) → Bool
answers ss (ok symbols) = list_beq symbols ss
answers ss (err e) = false

answers-eq : (ss : List ℕ) (r : Result RtcpError (List ℕ)) → answers ss r ≡ true → r ≡ ok ss
answers-eq ss (ok symbols) h = ap ok ((list_beq_iff symbols ss).0 h)
answers-eq ss (err e) h = absurd (ground arith)

-- The chunk of a list of symbols: a word with both top bits set, which gives the symbols back when
-- as many are wanted.
chunk_test : List ℕ → Bool
chunk_test ss =
    let chunk = symbol_bits 0xc000 12 ss in
    answers ss (chunk_symbols 7 2 12 (length ss) chunk)
    && (ltb chunk 65536 && (not (bit_and chunk 0x8000 == 0) && not (bit_and chunk 0x4000 == 0)))

chunk_table : all_symbols 7 chunk_test ≡ true
unfolding all_symbols chunk_test symbol_bits chunk_symbols
chunk_table = refl

chunk_symbols_enough :
    (count width shift wanted chunk : ℕ)
    → count ≤ wanted
    → chunk_symbols count width shift wanted chunk ≡ chunk_symbols count width shift count chunk
unfolding chunk_symbols
chunk_symbols_enough zero width shift wanted chunk h = refl
chunk_symbols_enough (suc count) width shift wanted chunk h =
    let more : (wanted == 0) ≡ false = ground arith in
    let positive : (suc count == 0) ≡ false = ground arith in
    let less : suc count - 1 ≡ count = omega arith in
    rw
      (
        more,
        positive,
        less,
        chunk_symbols_enough count width (shift - width) (wanted - 1) chunk (omega arith),
      )
      refl

-- A chunk is decoded when it is full or the last one.
pub decode_chunk-symbols :
    (ss : List ℕ) (wanted : ℕ)
    → All Symbol ss
    → length ss ≤ 7
    → ((length ss ≡ 7) × (7 ≤ wanted)) ⊎ (length ss ≡ wanted)
    → (decode_chunk (symbol_bits 0xc000 12 ss) wanted ≡ ok ss)
      × (symbol_bits 0xc000 12 ss < 256 ^ 2)
unfolding decode_chunk chunk_test
decode_chunk-symbols ss wanted a l full =
    let chunk = symbol_bits 0xc000 12 ss in
    let test = of_all_symbols 7 chunk_test ss chunk_table l a in
    let (answer, rest) = &&-inv (answers ss (chunk_symbols 7 2 12 (length ss) chunk)) _ test in
    let (small, tops) = &&-inv (ltb chunk 65536) _ rest in
    let (first, second) = &&-inv (not (bit_and chunk 0x8000 == 0)) _ tops in
    let high = not-inv (bit_and chunk 0x8000 == 0) first in
    let two_bit = not-inv (bit_and chunk 0x4000 == 0) second in
    let exact = answers-eq ss (chunk_symbols 7 2 12 (length ss) chunk) answer in
    let same : chunk_symbols 7 2 12 wanted chunk ≡ chunk_symbols 7 2 12 (length ss) chunk =
      elim full [
        | inl (seven, more) ↦ rw seven (chunk_symbols_enough 7 2 12 wanted chunk more)
        | inr last ↦ ap (λ (n : ℕ). chunk_symbols 7 2 12 n chunk) (sym last)
      ] in
    (rw (high, two_bit) (same ∙ exact), ltb→lt chunk 65536 small)
