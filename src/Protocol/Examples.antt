-- ===== src/Protocol/Examples.antt =====
-- The theorems at a concrete identifier.
use upmessenger.Base.{◌≡◌, refl, some, [], ◌∷◌, arith, Bytes, AreBytes}
use upmessenger.Protocol.{encode_hex, decode_hex_16}
use upmessenger.Protocol.Identifiers.{decode_hex_16-encode}

abbrev id : Bytes
id = 0 ∷ 15 ∷ 16 ∷ 127 ∷ 128 ∷ 159 ∷ 160 ∷ 171 ∷ 205 ∷ 239 ∷ 250 ∷ 251 ∷ 252 ∷ 253 ∷ 254 ∷ 255 ∷ []

id-AreBytes : AreBytes id
id-AreBytes = ground arith

decode_hex_16-encode_example : decode_hex_16 (encode_hex id) ≡ some id
decode_hex_16-encode_example = decode_hex_16-encode id id-AreBytes refl
