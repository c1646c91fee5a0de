-- ===== src/Codec.antt =====
-- server/upm-server/src/util.rs: hexadecimal and base64. crates/upm-core/src/ratchet.rs holds the same
-- two base64 functions word for word, and the session model uses these.
mod Sextets
pub mod Base64
pub mod Examples
use Prim.Native.Nat.{bit_and, bit_or}
use upmessenger.Base.{
  ℕ, suc, ◌+◌, ◌-◌, ◌*◌, ◌/◌, ◌%◌, ◌^◌, Bool, true, false, not, ◌&&◌, Option, none, some, List, [],
  ◌∷◌, ◌++◌, Bytes, Text, codes, length, get_or, select, all_of, ltb, leb, ◌==◌, if◌then◌else◌,
}

-- A nibble as `write!` prints it under `{:X}` or `{:x}`.
unfoldable pub hex_digit : Bool → ℕ → ℕ
hex_digit upper d = if ltb d 10 then b'0' + d else (if upper then b'A' else b'a') + (d - 10)

unfoldable pub hex_encode : Bool → Bytes → Text
unfolding hex_digit
hex_encode upper [] = []
hex_encode upper (b ∷ bytes) =
    hex_digit upper (b / 16) ∷ hex_digit upper (b % 16) ∷ hex_encode upper bytes

abbrev pub b64_alphabet : Text
b64_alphabet = codes "ABCDEFGHIJKLMNOPQRSTUVWXYZabcdefghijklmnopqrstuvwxyz0123456789+/"

-- `slice::chunks(3)` and `slice::chunks(4)`
pub chunks3 : Bytes → List Bytes
chunks3 [] = []
chunks3 (a ∷ []) = (a ∷ []) ∷ []
chunks3 (a ∷ b ∷ []) = (a ∷ b ∷ []) ∷ []
chunks3 (a ∷ b ∷ c ∷ rest) = (a ∷ b ∷ c ∷ []) ∷ chunks3 rest

pub chunks4 : Bytes → List Bytes
chunks4 [] = []
chunks4 (a ∷ []) = (a ∷ []) ∷ []
chunks4 (a ∷ b ∷ []) = (a ∷ b ∷ []) ∷ []
chunks4 (a ∷ b ∷ c ∷ []) = (a ∷ b ∷ c ∷ []) ∷ []
chunks4 (a ∷ b ∷ c ∷ d ∷ rest) = (a ∷ b ∷ c ∷ d ∷ []) ∷ chunks4 rest

-- The 24 bits of a chunk, with absent bytes as 0.
pub chunk_word : Bytes → ℕ
chunk_word chunk =
    bit_or (bit_or (get_or chunk 0 0 * 2 ^ 16) (get_or chunk 1 0 * 2 ^ 8)) (get_or chunk 2 0)

-- B64_ALPHABET[i as usize]
pub sextet : ℕ → ℕ
sextet i = get_or b64_alphabet i 0

-- B64_ALPHABET[((n >> shift) & 0x3F) as usize]
pub b64_char : ℕ → ℕ → ℕ
unfolding sextet
b64_char n shift = sextet (bit_and (n / 2 ^ shift) 0x3F)

pub encode_chunk : Bytes → Text
unfolding chunk_word b64_char
encode_chunk chunk =
    let n = chunk_word chunk in
    b64_char n 18
    ∷ b64_char n 12
    ∷ (if ltb 1 (length chunk) then b64_char n 6 else b'=')
    ∷ (if ltb 2 (length chunk) then b64_char n 0 else b'=')
    ∷ []

pub encode_chunks : List Bytes → Text
encode_chunks [] = []
encode_chunks (chunk ∷ rest) = encode_chunk chunk ++ encode_chunks rest

unfoldable pub base64_encode : Bytes → Text
unfolding chunks3 encode_chunks encode_chunk
base64_encode input = encode_chunks (chunks3 input)

-- `val`
pub b64_val : ℕ → Option ℕ
b64_val c =
    if leb b'A' c && leb c b'Z'
    then some (c - b'A')
    else if leb b'a' c && leb c b'z'
    then some (c - b'a' + 26)
    else if leb b'0' c && leb c b'9'
    then some (c - b'0' + 52)
    else if c == b'+'
    then some 62
    else if c == b'/'
    then some 63
    else none

-- `val(b).is_some()`
pub has_val : ℕ → Bool
unfolding b64_val
has_val c = elim (b64_val c) [ none ↦ false | some v ↦ true ]

-- The loop `n |= val(c)? << (18 - 6 * i)`.
pub decode_word : ℕ → ℕ → Bytes → Option ℕ
decode_word i n [] = some n
decode_word i n (c ∷ chunk) = elim (b64_val c) [
  | none ↦ none
  | some v ↦ decode_word (suc i) (bit_or n (v * 2 ^ (18 - 6 * i))) chunk
]

-- The bytes that a chunk of the given length pushes.
pub word_bytes : ℕ → ℕ → Bytes
word_bytes len n =
    (n / 2 ^ 16 % 256) ∷ (if ltb 2 len then (n / 2 ^ 8 % 256) ∷ [] else [])
    ++ (if ltb 3 len then (n % 256) ∷ [] else [])

pub decode_chunks : List Bytes → Option Bytes
unfolding decode_word word_bytes b64_val
decode_chunks [] = some []
decode_chunks (chunk ∷ rest) = elim (decode_word 0 0 chunk) [
  | none ↦ none
  | some n ↦ elim (decode_chunks rest) [
    | none ↦ none
    | some out ↦ some (word_bytes (length chunk) n ++ out)
  ]
]

-- `input.bytes().filter(|&b| b != b'=')`
pub strip_pad : Text → Bytes
strip_pad = select (λ b. not (b == b'='))

unfoldable pub base64_decode : Text → Option Bytes
unfolding has_val chunks4 decode_chunks strip_pad
base64_decode input =
    let clean = strip_pad input in
    if all_of has_val clean then decode_chunks (chunks4 clean) else none

-- `bytes.try_into().ok()`: only an input of exactly `n` bytes.
unfoldable pub decode_fixed : ℕ → Text → Option Bytes
unfolding base64_decode
decode_fixed n base64 = elim (base64_decode base64) [
  | none ↦ none
  | some bytes ↦ if length bytes == n then some bytes else none
]
