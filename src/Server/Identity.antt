-- ===== src/Server/Identity.antt =====
-- server/upm-server/src/auth.rs: the check of a signature against the identity key of a device.
use upmessenger.Base.{ℕ, not, Text, Result, ok_or, map_err, ensure, find_first, ltb, ◌>>=◌, ◌>>◌}
use upmessenger.Codec.{decode_fixed}
use upmessenger.Crypto.{Primitives, verify}
use upmessenger.Server.{Database, Challenge, SqliteError, device_named}

pub data AuthError : Type 0 where
  unknown_device no_challenge challenge_expired invalid_signature malformed invalid_session :
      AuthError
  sqlite : SqliteError → AuthError

-- What `verify_and_issue_session` checks once it has removed the challenge. It only reads the database.
unfoldable pub check_signature :
    Primitives → ℕ → Text → Text → Challenge → Database → Result AuthError (Unit {0})
check_signature p now device_id signature_base64 c db = do
  ensure (not (ltb c.expires_at now)) challenge_expired
  device ← ok_or (find_first (device_named device_id) db.devices) unknown_device
  public_key ← ok_or (decode_fixed 32 device.identity_public_key) malformed
  signature ← ok_or (decode_fixed 64 signature_base64) malformed
  map_err (λ _. invalid_signature) (verify p public_key c.challenge signature)
