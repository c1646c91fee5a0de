-- ===== src/Api/Checks.antt =====
-- server/upm-server/src/api.rs: what a device must sign before the server takes its keys.
use upmessenger.Base.{
  List, [], ◌∷◌, ◌++◌, Bytes, Text, codes, Result, ok, ok_or, map_err, ◌>>=◌, ◌>>◌,
}
use upmessenger.Codec.{decode_fixed}
use upmessenger.Crypto.{Primitives, verify}
use upmessenger.Handshake.{one_time_prekey_signature_message}
use upmessenger.Protocol.{decode_hex_16}
use upmessenger.Server.Prekeys.{OneTimePreKeyRecord}
use upmessenger.Api.{Response, PublishKeysRequest, error}

abbrev pub invalid_bundle : Response
invalid_bundle = error 400 "invalid_key_bundle" "invalid X3DH device key material"

module _ (p : Primitives) where
  -- From the decoding of the stored identity key to the check of the signature.
  unfoldable pub check_keys : Text → PublishKeysRequest → Result Response (Unit {0})
  check_keys identity_public_key req = do
    identity ←
        ok_or (decode_fixed 32 identity_public_key)
          (error 500 "internal_error" "stored device identity key is invalid")
    exchange ← ok_or (decode_fixed 32 req.identity_exchange_public) invalid_bundle
    prekey ← ok_or (decode_fixed 32 req.signed_prekey_public) invalid_bundle
    signature ← ok_or (decode_fixed 64 req.signed_prekey_signature) invalid_bundle
    map_err
        (λ _. error 400 "invalid_key_bundle" "X3DH prekey signature does not match device identity")
        (verify p identity (codes "UPM/v4/signed-prekey/" ++ (exchange ++ prekey)) signature)

  unfoldable pub check_prekey : Bytes → OneTimePreKeyRecord → Result Response (Unit {0})
  check_prekey identity item = do
    id ←
        ok_or (decode_hex_16 item.prekey_id)
          (error 400 "invalid_prekey" "invalid one-time prekey id")
    public_key ←
        ok_or (decode_fixed 32 item.public_key)
          (error 400 "invalid_prekey" "invalid one-time prekey public key")
    signature ←
        ok_or (decode_fixed 64 item.signature)
          (error 400 "invalid_prekey" "invalid one-time prekey signature")
    map_err
        (λ _. error 400 "invalid_prekey" "one-time prekey signature does not match device identity")
        (verify p identity (one_time_prekey_signature_message id public_key) signature)

  -- The loop over the items, and the entries that it pushes.
  unfoldable pub check_prekeys :
      Bytes → List OneTimePreKeyRecord → Result Response (List OneTimePreKeyRecord)
  check_prekeys identity [] = ok []
  check_prekeys identity (item ∷ items) = do
    check_prekey identity item
    entries ← check_prekeys identity items
    ok (item ∷ entries)
