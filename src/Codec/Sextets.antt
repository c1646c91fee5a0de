-- ===== src/Codec/Sextets.antt =====
-- The alphabet of base64 and the words that four sextets make.
use upmessenger.Base.{
  ℕ, suc, ◌+◌, ◌-◌, ◌*◌, ◌/◌, ◌%◌, ◌^◌, ◌<◌, ◌≡◌, refl, Bool, true, false, not, ◌&&◌, some, none,
  [], ◌∷◌, arith, ◌==◌, ap, ◌∙◌, Bytes, all_below, all_below_sound,
}
use upmessenger.Base.Bits.{bit_or-disjoint, bit_and-63}
use upmessenger.Codec.{sextet, b64_char, b64_val, has_val, decode_word}

-- `val` inverts the alphabet at `i`, and the character there is not the padding.
is_inverted : ℕ → Bool
is_inverted i =
    not (sextet i == b'=') && (elim (b64_val (sextet i)) [ none ↦ false | some v ↦ v == i ])

table : all_below 64 is_inverted ≡ true
unfolding all_below is_inverted sextet b64_val
table = refl

inverted : (i : ℕ) → i < 64 → is_inverted i ≡ true
inverted i lt = all_below_sound 64 is_inverted i table lt

-- No character of the alphabet is the padding.
pub sextet-ne-pad : (i : ℕ) → i < 64 → (sextet i == b'=') ≡ false
unfolding is_inverted
sextet-ne-pad i lt = ground (arith, inverted i lt)

pub b64_val-sextet : (i : ℕ) → i < 64 → b64_val (sextet i) ≡ some i
unfolding is_inverted
b64_val-sextet i lt = ground (arith, inverted i lt)

pub has_val-sextet : (i : ℕ) → i < 64 → has_val (sextet i) ≡ true
unfolding has_val
has_val-sextet i lt = rw (has_val, b64_val-sextet i lt)

pub b64_char-sextet : (n shift : ℕ) → b64_char n shift ≡ sextet (n / 2 ^ shift % 64)
unfolding b64_char
b64_char-sextet n shift = ap sextet (bit_and-63 (n / 2 ^ shift))

-- A step of the decoding loop adds the next six bits below the ones that are there.
decode_word_step :
    (i k x v out : ℕ) (chunk : Bytes)
    → v < 64
    → v * 2 ^ (18 - 6 * i) < 2 ^ k
    → x * 2 ^ k + v * 2 ^ (18 - 6 * i) ≡ out
    → decode_word i (x * 2 ^ k) (sextet v ∷ chunk) ≡ decode_word (suc i) out chunk
unfolding decode_word
decode_word_step i k x v out chunk lt low e =
    rw (b64_val-sextet v lt, decode_word)
      (ap (λ n. decode_word (suc i) n chunk) (bit_or-disjoint k x (v * 2 ^ (18 - 6 * i)) low ∙ e))

module _ (p q : ℕ) (hp : p < 64) (hq : q < 64) where
  decode_prefix :
      (chunk : Bytes)
      → decode_word 0 0 (sextet p ∷ sextet q ∷ chunk) ≡ decode_word 2 ((p * 64 + q) * 2 ^ 12) chunk
  decode_prefix chunk =
      decode_word_step 0 24 0 p (p * 2 ^ 18) (sextet q ∷ chunk) hp (omega arith) (omega arith)
      ∙ decode_word_step 1 18 p q ((p * 64 + q) * 2 ^ 12) chunk hq (omega arith) (omega arith)

  pub decode_two : decode_word 0 0 (sextet p ∷ sextet q ∷ []) ≡ some ((p * 64 + q) * 2 ^ 12)
  unfolding decode_word
  decode_two = decode_prefix []

  module _ (r : ℕ) (hr : r < 64) where
    decode_prefix3 :
        (chunk : Bytes)
        → decode_word 0 0 (sextet p ∷ sextet q ∷ sextet r ∷ chunk)
          ≡ decode_word 3 (((p * 64 + q) * 64 + r) * 2 ^ 6) chunk
    decode_prefix3 chunk =
        decode_prefix (sextet r ∷ chunk)
        ∙ decode_word_step 2 12 (p * 64 + q) r (((p * 64 + q) * 64 + r) * 2 ^ 6) chunk hr
            (omega arith) (omega arith)

    pub decode_three :
        decode_word 0 0 (sextet p ∷ sextet q ∷ sextet r ∷ [])
        ≡ some (((p * 64 + q) * 64 + r) * 2 ^ 6)
    unfolding decode_word
    decode_three = decode_prefix3 []

    pub decode_four :
        (t : ℕ)
        → t < 64
        → decode_word 0 0 (sextet p ∷ sextet q ∷ sextet r ∷ sextet t ∷ [])
          ≡ some (((p * 64 + q) * 64 + r) * 64 + t)
    unfolding decode_word
    decode_four t ht =
        decode_prefix3 (sextet t ∷ [])
        ∙ decode_word_step 3 6 ((p * 64 + q) * 64 + r) t (((p * 64 + q) * 64 + r) * 64 + t) [] ht
            (omega arith) (omega arith)
