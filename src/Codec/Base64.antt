-- ===== src/Codec/Base64.antt =====
-- What base64 promises: decoding undoes encoding, byte for byte.
use Prim.Native.Nat.{bit_or}
use upmessenger.Base.{
  ℕ, ◌+◌, ◌*◌, ◌/◌, ◌%◌, ◌^◌, ◌<◌, ◌≡◌, refl, true, some, [], ◌∷◌, ◌++◌, arith, ap, ◌∙◌, Bytes,
  Text, AreBytes, all_of,
}
use upmessenger.Base.Bits.{bit_or-disjoint}
use upmessenger.Codec.{
  chunks3, chunks4, sextet, chunk_word, encode_chunk, encode_chunks, base64_encode, strip_pad,
  decode_chunks, word_bytes, has_val, base64_decode,
}
use upmessenger.Codec.Sextets.{
  sextet-ne-pad, has_val-sextet, b64_char-sextet, decode_two, decode_three, decode_four,
}

chunk_word_sum :
    (a b c : ℕ) → b < 256 → c < 256 → chunk_word (a ∷ b ∷ c ∷ []) ≡ (a * 256 + b) * 256 + c
unfolding chunk_word
chunk_word_sum a b c hb hc =
    let high : a * 2 ^ 16 + b * 2 ^ 8 ≡ (a * 256 + b) * 2 ^ 8 = omega arith in
    ap (λ n. bit_or n c) (bit_or-disjoint 16 a (b * 2 ^ 8) (omega arith) ∙ high)
    ∙ bit_or-disjoint 8 (a * 256 + b) c hc

-- The sextets of a word, highest first.
abbrev digit : ℕ → ℕ → ℕ
digit n shift = n / 2 ^ shift % 64

abbrev head_chars : ℕ → Text → Text
head_chars n rest = sextet (digit n 18) ∷ sextet (digit n 12) ∷ rest

encode_three :
    (a b c : ℕ)
    → encode_chunk (a ∷ b ∷ c ∷ [])
      ≡ let n = chunk_word (a ∷ b ∷ c ∷ []) in
        head_chars n (sextet (digit n 6) ∷ sextet (digit n 0) ∷ [])
unfolding encode_chunk
encode_three a b c = simp b64_char-sextet

encode_two :
    (a b : ℕ)
    → encode_chunk (a ∷ b ∷ [])
      ≡ let n = chunk_word (a ∷ b ∷ 0 ∷ []) in head_chars n (sextet (digit n 6) ∷ b'=' ∷ [])
unfolding encode_chunk chunk_word
encode_two a b = simp b64_char-sextet

encode_one :
    (a : ℕ)
    → encode_chunk (a ∷ []) ≡ let n = chunk_word (a ∷ 0 ∷ 0 ∷ []) in head_chars n (b'=' ∷ b'=' ∷ [])
unfolding encode_chunk chunk_word
encode_one a = simp b64_char-sextet

strip_pad-sextet :
    (v : ℕ) (rest : Text) → v < 64 → strip_pad (sextet v ∷ rest) ≡ sextet v ∷ strip_pad rest
unfolding strip_pad
strip_pad-sextet v rest lt = rw (sextet-ne-pad v lt)

-- The encoded text is accepted, and its chunks decode to the input.
abbrev Decodes : Text → Bytes → Type 0
Decodes text input =
    (all_of has_val (strip_pad text) ≡ true)
    × (decode_chunks (chunks4 (strip_pad text)) ≡ some input)

Decodes-four :
    (p q r t n : ℕ) (text : Text) (rest : Bytes)
    → p < 64
    → q < 64
    → r < 64
    → t < 64
    → ((p * 64 + q) * 64 + r) * 64 + t ≡ n
    → Decodes text rest
    → Decodes
        (sextet p ∷ sextet q ∷ sextet r ∷ sextet t ∷ text)
        (n / 2 ^ 16 % 256 ∷ n / 2 ^ 8 % 256 ∷ n % 256 ∷ rest)
unfolding decode_chunks chunks4 word_bytes
Decodes-four p q r t n text rest hp hq hr ht e h =
    rw
      (
        strip_pad-sextet p (sextet q ∷ sextet r ∷ sextet t ∷ text) hp,
        strip_pad-sextet q (sextet r ∷ sextet t ∷ text) hq,
        strip_pad-sextet r (sextet t ∷ text) hr,
        strip_pad-sextet t text ht,
        has_val-sextet p hp,
        has_val-sextet q hq,
        has_val-sextet r hr,
        has_val-sextet t ht,
        chunks4,
        decode_chunks,
        decode_four p q hp hq r hr t ht ∙ ap some e,
        h.1,
      )
      (h.0, refl)

Decodes-three :
    (a b c : ℕ) (text : Text) (rest : Bytes)
    → a < 256
    → b < 256
    → c < 256
    → Decodes text rest
    → Decodes (encode_chunk (a ∷ b ∷ c ∷ []) ++ text) (a ∷ b ∷ c ∷ rest)
Decodes-three a b c text rest ha hb hc h =
    let n : ℕ = (a * 256 + b) * 256 + c in
    let ea : n / 2 ^ 16 % 256 ≡ a = omega arith in
    let eb : n / 2 ^ 8 % 256 ≡ b = omega arith in
    let ec : n % 256 ≡ c = omega arith in
    rw (encode_three a b c, chunk_word_sum a b c hb hc)
      (rw (ea, eb, ec) at
        (Decodes-four (digit n 18) (digit n 12) (digit n 6) (digit n 0) n text rest (omega arith)
          (omega arith) (omega arith) (omega arith) (omega arith) h))

Decodes-two : (a b : ℕ) → a < 256 → b < 256 → Decodes (encode_chunk (a ∷ b ∷ []) ++ []) (a ∷ b ∷ [])
unfolding decode_chunks chunks4 word_bytes strip_pad
Decodes-two a b ha hb =
    let n : ℕ = (a * 256 + b) * 256 + 0 in
    let hp : digit n 18 < 64 = omega arith in
    let hq : digit n 12 < 64 = omega arith in
    let hr : digit n 6 < 64 = omega arith in
    let e : ((digit n 18 * 64 + digit n 12) * 64 + digit n 6) * 2 ^ 6 ≡ n = omega arith in
    let ea : n / 2 ^ 16 % 256 ≡ a = omega arith in
    let eb : n / 2 ^ 8 % 256 ≡ b = omega arith in
    rw
      (
        encode_two a b,
        chunk_word_sum a b 0 hb (omega arith),
        sextet-ne-pad (digit n 18) hp,
        sextet-ne-pad (digit n 12) hq,
        sextet-ne-pad (digit n 6) hr,
        has_val-sextet (digit n 18) hp,
        has_val-sextet (digit n 12) hq,
        has_val-sextet (digit n 6) hr,
        chunks4,
        decode_chunks,
        decode_three (digit n 18) (digit n 12) hp hq (digit n 6) hr ∙ ap some e,
        ea,
        eb,
      )
      (refl, refl)

Decodes-one : (a : ℕ) → a < 256 → Decodes (encode_chunk (a ∷ []) ++ []) (a ∷ [])
unfolding decode_chunks chunks4 word_bytes strip_pad
Decodes-one a ha =
    let n : ℕ = (a * 256 + 0) * 256 + 0 in
    let hp : digit n 18 < 64 = omega arith in
    let hq : digit n 12 < 64 = omega arith in
    let e : (digit n 18 * 64 + digit n 12) * 2 ^ 12 ≡ n = omega arith in
    let ea : n / 2 ^ 16 % 256 ≡ a = omega arith in
    rw
      (
        encode_one a,
        chunk_word_sum a 0 0 (omega arith) (omega arith),
        sextet-ne-pad (digit n 18) hp,
        sextet-ne-pad (digit n 12) hq,
        has_val-sextet (digit n 18) hp,
        has_val-sextet (digit n 12) hq,
        chunks4,
        decode_chunks,
        decode_two (digit n 18) (digit n 12) hp hq ∙ ap some e,
        ea,
      )
      (refl, refl)

Decodes-encode : (input : Bytes) → AreBytes input → Decodes (encode_chunks (chunks3 input)) input
unfolding encode_chunks chunks3
Decodes-encode [] h = unfold decode_chunks chunks4 strip_pad in (refl, refl)
Decodes-encode (a ∷ []) h = Decodes-one a h.0
Decodes-encode (a ∷ b ∷ []) h = Decodes-two a b h.0 h.1.0
Decodes-encode (a ∷ b ∷ c ∷ rest) h =
    Decodes-three a b c (encode_chunks (chunks3 rest)) rest h.0 h.1.0 h.1.1.0
      (Decodes-encode rest h.1.1.1)

-- Decoding the base64 text of any bytes gives the bytes back.
pub base64_decode-encode :
    (input : Bytes) → AreBytes input → base64_decode (base64_encode input) ≡ some input
unfolding base64_decode base64_encode
base64_decode-encode input h = let (valid, decoded) = Decodes-encode input h in rw (valid, decoded)
