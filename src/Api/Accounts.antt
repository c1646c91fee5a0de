-- ===== src/Api/Accounts.antt =====
-- server/upm-server/src/api.rs: registration, the directory, and the privacy setting.
use upmessenger.Base.{
  ℕ, Bool, true, false, not, ◌||◌, Option, none, some, Text, ok_or, ensure, length, ltb,
}
use upmessenger.Base.State.{lift, pure, ◌>>=◌, ◌>>◌}
use upmessenger.Codec.{decode_fixed}
use upmessenger.Server.{DbError, username_taken, device_not_found}
use upmessenger.Server.Accounts.{
  DirectoryEntry, register_account, resolve_username, resolve_upm_id, get_public_profile,
  set_directory_visibility, get_directory_visibility,
}
use upmessenger.Api.{
  Services, Draws, Handler, Response, with_db, any_error, error, answer, text_field, bool_field,
  end,
}

unfoldable pub is_some : Option Text → Bool
is_some none = false
is_some (some t) = true

-- `valid_public_key` and `valid_fixed_key`, for a key of 32 bytes; `valid_signature`, for 64
unfoldable pub valid_fixed : ℕ → Text → Bool
valid_fixed n candidate = is_some (decode_fixed n candidate)

unfoldable pub register_failed : DbError → Response
register_failed username_taken = error 409 "username_taken" "username is already registered"
register_failed _ = error 500 "internal_error" "registration failed"

-- The `match` on an entry of the directory.
unfoldable pub found_entry : Response → Option DirectoryEntry → Response
found_entry missing none = missing
found_entry missing (some entry) = answer 200 (
    text_field "upm_id" entry.upm_id (
      text_field "username" entry.username (
        text_field "device_id" entry.device_id
          (text_field "identity_public_key" entry.identity_public_key end))))

unfoldable pub found_profile : Option DirectoryEntry → Response
found_profile none = error 404 "not_found" "no such username"
found_profile (some entry) =
    answer 200 (text_field "username" entry.username (text_field "upm_id" entry.upm_id end))

unfoldable pub set_privacy_failed : DbError → Response
set_privacy_failed device_not_found = error 404 "device_not_found" "authenticated device not found"
set_privacy_failed _ = error 500 "internal_error" "privacy setting update failed"

unfoldable pub get_privacy_failed : DbError → Response
get_privacy_failed device_not_found = error 404 "device_not_found" "authenticated device not found"
get_privacy_failed _ = error 500 "internal_error" "privacy setting lookup failed"

module _ (services : Services) (draws : Draws) where
  open services use {to_lowercase, read_register, read_privacy}

  unfoldable pub handle_register : Text → Handler Response
  handle_register body = do
    req ← lift (ok_or (read_register body) (error 400 "bad_request" "invalid registration payload"))
    lift (
        ensure (not (ltb (length req.username) 3 || ltb 32 (length req.username)))
          (error 400 "invalid_username" "username must be 3-32 characters"))
    lift (
        ensure (valid_fixed 32 req.identity_public_key) (
          error 400 "invalid_key"
            "identity_public_key must be a base64-encoded 32-byte Ed25519 key"))
    acc ← with_db register_failed (
        register_account to_lowercase draws.account draws.handled_at req.username
          req.identity_public_key)
    pure (
        answer 201 (
          text_field "user_id" acc.user_id
            (text_field "upm_id" acc.upm_id (text_field "device_id" acc.device_id end))))

  unfoldable pub handle_resolve : Text → Handler Response
  handle_resolve username = do
    entry ←
        with_db (any_error (error 500 "internal_error" "resolve failed"))
          (resolve_username to_lowercase username)
    pure (found_entry (error 404 "not_found" "no such username") entry)

  unfoldable pub handle_resolve_upm_id : Text → Handler Response
  handle_resolve_upm_id upm_id = do
    entry ←
        with_db (any_error (error 500 "internal_error" "resolve failed")) (resolve_upm_id upm_id)
    pure (found_entry (error 404 "not_found" "no such UPM ID") entry)

  unfoldable pub handle_public_profile : Text → Handler Response
  handle_public_profile username = do
    entry ←
        with_db (any_error (error 500 "internal_error" "profile lookup failed"))
          (get_public_profile to_lowercase username)
    pure (found_profile entry)

  unfoldable pub handle_profile_privacy : Text → Text → Handler Response
  handle_profile_privacy body authenticated_device = do
    directory_visible ←
        lift (ok_or (read_privacy body) (error 400 "bad_request" "invalid privacy payload"))
    with_db set_privacy_failed (set_directory_visibility authenticated_device directory_visible)
    pure (answer 200 (bool_field "directory_visible" directory_visible end))

  unfoldable pub handle_get_profile_privacy : Text → Handler Response
  handle_get_profile_privacy authenticated_device = do
    directory_visible ← with_db get_privacy_failed (get_directory_visibility authenticated_device)
    pure (answer 200 (bool_field "directory_visible" directory_visible end))
