-- ===== src/Codec/Examples.antt =====
-- Runs of the codec on the inputs of util.rs's own tests.
use upmessenger.Codec.Base64.{base64_decode-encode}
use upmessenger.Base.{arith, ◌≡◌, refl, none, some, true, codes, ◌∷◌, []}
use upmessenger.Codec.{hex_encode, base64_encode, base64_decode}

hex_upper : hex_encode true (0 ∷ 171 ∷ 255 ∷ []) ≡ codes "00ABFF"
unfolding hex_encode
hex_upper = refl

encode_hello : base64_encode (codes "hello") ≡ codes "aGVsbG8="
unfolding base64_encode
encode_hello = refl

decode_hello : base64_decode (codes "aGVsbG8=") ≡ some (codes "hello")
unfolding base64_decode
decode_hello = refl

decode_invalid : base64_decode (codes "not-valid-base64!!") ≡ none
unfolding base64_decode
decode_invalid = refl

base64_decode-encode_example :
    base64_decode (base64_encode (1 ∷ 128 ∷ 255 ∷ 7 ∷ [])) ≡ some (1 ∷ 128 ∷ 255 ∷ 7 ∷ [])
base64_decode-encode_example = base64_decode-encode (1 ∷ 128 ∷ 255 ∷ 7 ∷ []) (ground arith)
