-- ===== src/Protocol.antt =====
-- crates/upm-protocol/src/lib.rs: protocol versions and their negotiation, the identifiers and their
-- hexadecimal form, and the message envelope. Identifiers are the bytes of their `[u8; 16]`.
pub mod Negotiation
pub mod Identifiers
mod Examples
use upmessenger.Base.{
  ℕ, ◌+◌, ◌-◌, ◌*◌, ◌/◌, ◌%◌, Bool, true, false, not, ◌&&◌, ◌||◌, Option, none, some, List, [], ◌∷◌,
  min, max, Bytes, Text, Result, ok, err, length, all_of, ltb, leb, ◌==◌, if◌then◌else◌,
}
use upmessenger.Base.Options.{◌>>=◌}

-- `ProtocolVersion(pub u16)`
abbrev pub ProtocolVersion : Type 0
ProtocolVersion = ℕ

-- ProtocolVersion::CURRENT
abbrev pub current : ProtocolVersion
current = 4

pub record CompatibilityRange : Type 0 where
  pub lowest : ProtocolVersion
  pub highest : ProtocolVersion

unfoldable pub contains : CompatibilityRange → ProtocolVersion → Bool
contains r v = leb r.lowest v && leb v r.highest

pub this_build : CompatibilityRange
this_build = record { lowest = current; highest = current }

pub data NegotiationError : Type 0 where
  no_overlap : CompatibilityRange → CompatibilityRange → NegotiationError

pub negotiate : CompatibilityRange → CompatibilityRange → Result NegotiationError ProtocolVersion
negotiate here there =
    let max_common = min here.highest there.highest in
    let min_common = max here.lowest there.lowest in
    if leb min_common max_common then ok max_common else err (no_overlap here there)

abbrev pub MessageId : Type 0
MessageId = Bytes

abbrev pub PreKeyId : Type 0
PreKeyId = Bytes

abbrev pub DeviceId : Type 0
DeviceId = Bytes

pub record MessageEnvelope : Type 0 where
  pub protocol_version : ProtocolVersion
  pub message_id : MessageId
  pub sender_device_id : DeviceId
  pub recipient_device_id : DeviceId
  pub ciphertext : Bytes
  pub server_timestamp : ℕ
  pub expires_at : ℕ

-- A nibble as `write!` prints it under `{:X}`.
pub upper_digit : ℕ → ℕ
upper_digit d = if ltb d 10 then b'0' + d else b'A' + (d - 10)

-- `encode_hex`, which is also `to_hex` of each identifier.
unfoldable pub encode_hex : Bytes → Text
unfolding upper_digit
encode_hex [] = []
encode_hex (b ∷ bytes) = upper_digit (b / 16) ∷ upper_digit (b % 16) ∷ encode_hex bytes

-- `u8::is_ascii_hexdigit`
unfoldable pub is_ascii_hexdigit : ℕ → Bool
is_ascii_hexdigit c =
    leb b'0' c && leb c b'9' || leb b'A' c && leb c b'F' || leb b'a' c && leb c b'f'

-- The value of a digit under `from_str_radix(_, 16)`.
pub hex_val : ℕ → Option ℕ
hex_val c =
    if leb b'0' c && leb c b'9'
    then some (c - b'0')
    else if leb b'A' c && leb c b'F'
    then some (c - b'A' + 10)
    else if leb b'a' c && leb c b'f'
    then some (c - b'a' + 10)
    else none

-- `u8::from_str_radix(&value[i * 2..i * 2 + 2], 16).ok()`
pub hex_pair : ℕ → ℕ → Option ℕ
hex_pair hi lo = do h ← hex_val hi; l ← hex_val lo; some (h * 16 + l)

-- The loop over the pairs.
pub decode_pairs : Text → Option Bytes
decode_pairs [] = some []
decode_pairs (c ∷ []) = none
decode_pairs (hi ∷ lo ∷ rest) = do b ← hex_pair hi lo; out ← decode_pairs rest; some (b ∷ out)

-- `decode_hex_16`, which is also `from_hex` of each identifier.
unfoldable pub decode_hex_16 : Text → Option Bytes
decode_hex_16 value =
    if not (length value == 32) || not (all_of is_ascii_hexdigit value)
    then none
    else decode_pairs value
