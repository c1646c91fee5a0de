-- ===== src/Protocol/Identifiers.antt =====
-- The hexadecimal form of identifiers.
use mathlib.Core.Option.{some-injective}
use mathlib.Core.Path.{subst}
use upmessenger.Base.{
  ℕ, ◌+◌, ◌-◌, ◌*◌, ◌/◌, ◌%◌, ◌<◌, ◌≡◌, refl, ap, true, ◌&&◌, some, [], ◌∷◌, map, arith, Bytes,
  Text, AreBytes, length, all_of, ◌==◌, leb, if◌then◌else◌, ==_iff,
}
use upmessenger.Protocol.{
  upper_digit, encode_hex, is_ascii_hexdigit, hex_val, hex_pair, decode_pairs, decode_hex_16,
}
use upmessenger.Base.Options.{◌>>=◌, >>=-eq-some, guard-eq-some}

upper_digit-IsHex :
    (d : ℕ)
    → d < 16
    → (is_ascii_hexdigit (upper_digit d) ≡ true) × (hex_val (upper_digit d) ≡ some d)
unfolding upper_digit is_ascii_hexdigit hex_val
upper_digit-IsHex d lt = (ground arith, ground arith)

length-encode_hex : (bytes : Bytes) → length (encode_hex bytes) ≡ length bytes * 2
unfolding encode_hex
length-encode_hex [] = refl
length-encode_hex (b ∷ bytes) = omega (arith, length-encode_hex bytes)

encode_hex-digits :
    (bytes : Bytes) → AreBytes bytes → all_of is_ascii_hexdigit (encode_hex bytes) ≡ true
unfolding encode_hex
encode_hex-digits [] h = refl
encode_hex-digits (b ∷ bytes) h =
    let (high, _) = upper_digit-IsHex (b / 16) (omega arith) in
    let (low, _) = upper_digit-IsHex (b % 16) (omega arith) in
    rw (high, low) (encode_hex-digits bytes h.1)

hex_pair-digits :
    (b : ℕ) → b < 256 → hex_pair (upper_digit (b / 16)) (upper_digit (b % 16)) ≡ some b
unfolding hex_pair
hex_pair-digits b lt =
    let (_, high) = upper_digit-IsHex (b / 16) (omega arith) in
    let (_, low) = upper_digit-IsHex (b % 16) (omega arith) in
    rw (hex_pair, high, low) (ap some (omega arith))

decode_pairs-encode :
    (bytes : Bytes) → AreBytes bytes → decode_pairs (encode_hex bytes) ≡ some bytes
unfolding decode_pairs encode_hex
decode_pairs-encode [] h = refl
decode_pairs-encode (b ∷ bytes) h =
    ground (arith, hex_pair-digits b h.0, decode_pairs-encode bytes h.1)

-- An identifier of 16 bytes is read back from its hexadecimal form.
pub decode_hex_16-encode :
    (id : Bytes) → AreBytes id → length id ≡ 16 → decode_hex_16 (encode_hex id) ≡ some id
unfolding decode_hex_16
decode_hex_16-encode id h n =
    let n' : length (encode_hex id) ≡ 32 = omega (arith, length-encode_hex id) in
    rw (n', encode_hex-digits id h) (decode_pairs-encode id h)

-- `u8::to_ascii_uppercase`
abbrev pub to_ascii_uppercase : ℕ → ℕ
to_ascii_uppercase c = if leb b'a' c && leb c b'z' then c - 32 else c

hex_val-upper : (c d : ℕ) → hex_val c ≡ some d → (d < 16) × (upper_digit d ≡ to_ascii_uppercase c)
unfolding hex_val upper_digit
hex_val-upper c d h = (ground arith, ground arith)

hex_pair-upper :
    (hi lo b : ℕ)
    → hex_pair hi lo ≡ some b
    → (b < 256)
      × (upper_digit (b / 16) ≡ to_ascii_uppercase hi)
      × (upper_digit (b % 16) ≡ to_ascii_uppercase lo)
unfolding hex_pair
hex_pair-upper hi lo b e =
    let (h, eh, f) = >>=-eq-some (hex_val hi) (λ h. hex_val lo >>= λ l. some (h * 16 + l)) e in
    let (l, el, g) = >>=-eq-some (hex_val lo) (λ l. some (h * 16 + l)) f in
    let (high, upper_hi) = hex_val-upper hi h eh in
    let (low, upper_lo) = hex_val-upper lo l el in
    let value : h * 16 + l ≡ b = cc in
    let eh' : b / 16 ≡ h = omega arith in
    let el' : b % 16 ≡ l = omega arith in (omega arith, rw eh' upper_hi, rw el' upper_lo)

-- What the pairs of a text are read as.
abbrev IsRead : Text → Bytes → Type 0
IsRead value id =
    AreBytes id × (length value ≡ length id * 2) × (encode_hex id ≡ map to_ascii_uppercase value)

decode_pairs-upper : (value : Text) (id : Bytes) → decode_pairs value ≡ some id → IsRead value id
unfolding decode_pairs encode_hex
decode_pairs-upper [] id h = subst (IsRead []) (some-injective _ _ h) (tt, refl, refl)
decode_pairs-upper (c ∷ []) id h = cc
decode_pairs-upper (hi ∷ lo ∷ rest) id h =
    let (b, eb, f) =
      >>=-eq-some (hex_pair hi lo) (λ b. decode_pairs rest >>= λ out. some (b ∷ out)) h in
    let (out, eo, g) = >>=-eq-some (decode_pairs rest) (λ out. some (b ∷ out)) f in
    let (byte, upper_hi, upper_lo) = hex_pair-upper hi lo b eb in
    let (bytes, size, upper) = decode_pairs-upper rest out eo in
    subst (IsRead (hi ∷ lo ∷ rest)) (some-injective _ _ g)
      ((byte, bytes), omega arith, rw (upper_hi, upper_lo, upper))

-- A text that is accepted as an identifier gives 16 bytes, and their hexadecimal form is the text in
-- upper case.
pub encode_hex-decode :
    (value : Text) (id : Bytes)
    → decode_hex_16 value ≡ some id
    → AreBytes id × (length id ≡ 16) × (encode_hex id ≡ map to_ascii_uppercase value)
unfolding decode_hex_16
encode_hex-decode value id h =
    let (size, _, decoded) =
      guard-eq-some (length value == 32) (all_of is_ascii_hexdigit value) (decode_pairs value) h in
    let (bytes, twice, upper) = decode_pairs-upper value id decoded in
    let size' : length value ≡ 32 = (==_iff _ _).0 size in (bytes, omega arith, upper)
