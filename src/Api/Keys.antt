-- ===== src/Api/Keys.antt =====
-- server/upm-server/src/api.rs: the publication of device keys and one-time prekeys, and their lookup.
use upmessenger.Base.{
  true, false, not, ◌&&◌, ◌||◌, Option, none, some, Text, ok_or, ensure, length, ltb, ◌==◌,
  if◌then◌else◌,
}
use upmessenger.Base.State.{lift, pure, ◌>>=◌, ◌>>◌}
use upmessenger.Codec.{decode_fixed}
use upmessenger.Protocol.{encode_hex, decode_hex_16}
use upmessenger.Server.{DbError, device_not_found}
use upmessenger.Server.Accounts.{
  DevicePreKeyBundle, get_device_identity_public_key, update_device_keys, get_device_prekey_bundle,
}
use upmessenger.Server.Prekeys.{
  OneTimePreKeyRecord, publish_one_time_prekeys, claim_one_time_prekey,
}
use upmessenger.Api.{
  Services, Draws, Handler, Response, with_db, error, answer, text_field, number_field, bool_field,
  end,
}
use upmessenger.Api.Paths.{is_empty}
use upmessenger.Api.Accounts.{valid_fixed}
use upmessenger.Api.Checks.{invalid_bundle, check_keys, check_prekeys}

abbrev pub invalid_device_id : Response
invalid_device_id =
    error 400 "invalid_device_id" "device_id must be 16 bytes encoded as 32 hex characters"

unfoldable pub publish_failed : DbError → Response
publish_failed device_not_found = error 404 "device_not_found" "unknown authenticated device"
publish_failed _ = error 500 "internal_error" "key publication failed"

unfoldable pub prekeys_failed : DbError → Response
prekeys_failed device_not_found = error 404 "device_not_found" "unknown authenticated device"
prekeys_failed _ = error 500 "internal_error" "one-time prekey publication failed"

unfoldable pub claim_failed : DbError → Response
claim_failed device_not_found = error 404 "device_not_found" "unknown target device"
claim_failed _ = error 500 "internal_error" "one-time prekey claim failed"

unfoldable pub lookup_failed : DbError → Response
lookup_failed device_not_found = error 404 "device_not_found" "unknown device_id"
lookup_failed _ = error 500 "internal_error" "key lookup failed"

unfoldable pub found_prekey : Option OneTimePreKeyRecord → Response
found_prekey none = answer 200 (bool_field "available" false end)
found_prekey (some record') = answer 200 (
    bool_field "available" true (
      text_field "prekey_id" record'.prekey_id (
        text_field "public_key" record'.public_key (text_field "signature" record'.signature end))))

-- The last test of `handle_get_device_keys`, and the answer.
unfoldable pub found_bundle : DevicePreKeyBundle → Response
found_bundle bundle =
    if is_empty bundle.identity_exchange_public
      || is_empty bundle.signed_prekey_public
      || is_empty bundle.signed_prekey_signature
    then error 409 "keys_unavailable" "device has not published a complete X3DH key bundle"
    else answer 200 (
        text_field "device_id" bundle.device_id (
          text_field "identity_public_key" bundle.identity_public_key (
            text_field "identity_exchange_public" bundle.identity_exchange_public (
              text_field "signed_prekey_public" bundle.signed_prekey_public
                (text_field "signed_prekey_signature" bundle.signed_prekey_signature end)))))

module _ (services : Services) (draws : Draws) where
  open services use {primitives, read_keys, read_prekeys, read_claim}

  unfoldable pub handle_publish_keys : Text → Text → Handler Response
  handle_publish_keys body authenticated_device = do
    req ← lift (ok_or (read_keys body) (error 400 "bad_request" "invalid key payload"))
    lift (
        ensure
          (valid_fixed 32 req.identity_exchange_public
            && valid_fixed 32 req.signed_prekey_public
            && valid_fixed 64 req.signed_prekey_signature)
          invalid_bundle)
    identity_public_key ←
        with_db publish_failed (get_device_identity_public_key authenticated_device)
    lift (check_keys primitives identity_public_key req)
    with_db publish_failed (
        update_device_keys authenticated_device req.identity_exchange_public
          req.signed_prekey_public req.signed_prekey_signature)
    pure (answer 200 (text_field "device_id" authenticated_device end))

  unfoldable pub handle_publish_one_time_prekeys : Text → Text → Handler Response
  handle_publish_one_time_prekeys body authenticated_device = do
    prekeys ←
        lift (ok_or (read_prekeys body) (error 400 "bad_request" "invalid one-time prekey payload"))
    lift (
        ensure (not ((length prekeys == 0) || ltb 128 (length prekeys)))
          (error 400 "invalid_prekeys" "one-time prekey batch size is invalid"))
    identity_public_key ←
        with_db prekeys_failed (get_device_identity_public_key authenticated_device)
    identity ← lift (
        ok_or (decode_fixed 32 identity_public_key)
          (error 500 "internal_error" "stored device identity key is invalid"))
    entries ← lift (check_prekeys primitives identity prekeys)
    published ←
        with_db prekeys_failed
          (publish_one_time_prekeys draws.handled_at authenticated_device entries)
    pure (answer 200 (number_field "published" published end))

  unfoldable pub handle_claim_one_time_prekey : Text → Handler Response
  handle_claim_one_time_prekey body = do
    requested ←
        lift (
          ok_or (read_claim body) (error 400 "bad_request" "invalid one-time prekey claim payload"))
    device_id ← lift (ok_or (decode_hex_16 requested) invalid_device_id)
    claimed ← with_db claim_failed (claim_one_time_prekey draws.handled_at (encode_hex device_id))
    pure (found_prekey claimed)

  unfoldable pub handle_get_device_keys : Text → Handler Response
  handle_get_device_keys device_id = do
    parsed ← lift (ok_or (decode_hex_16 device_id) invalid_device_id)
    bundle ← with_db lookup_failed (get_device_prekey_bundle (encode_hex parsed))
    pure (found_bundle bundle)
