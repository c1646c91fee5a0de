-- ===== src/Api/Login.antt =====
-- server/upm-server/src/api.rs: challenges, sessions, and the bearer token of a request.
use upmessenger.Base.{true, Option, none, some, [], Text, ok_or}
use upmessenger.Base.State.{lift, pure, ◌>>=◌, ◌>>◌}
use upmessenger.Codec.{base64_encode}
use upmessenger.Server.Identity.{
  AuthError, unknown_device, no_challenge, challenge_expired, invalid_signature, malformed,
}
use upmessenger.Server.Auth.{
  challenge_ttl_seconds, issue_challenge, verify_and_issue_session, authenticate, revoke_session,
}
use upmessenger.Api.{
  Services, Draws, Handler, Response, with_db, any_error, error, answer, text_field, number_field,
  bool_field, end,
}

unfoldable pub challenge_failed : AuthError → Response
challenge_failed unknown_device = error 404 "device_not_found" "unknown device_id"
challenge_failed _ = error 500 "internal_error" "challenge issuance failed"

unfoldable pub verify_failed : AuthError → Response
verify_failed invalid_signature = error 401 "invalid_signature" "signature does not verify"
verify_failed no_challenge = error 400 "no_challenge" "request a challenge first"
verify_failed challenge_expired =
    error 400 "challenge_expired" "challenge expired, request a new one"
verify_failed malformed = error 400 "bad_request" "malformed signature or stored key"
verify_failed unknown_device = error 404 "device_not_found" "unknown device_id"
verify_failed _ = error 500 "internal_error" "verification failed"

-- `bearer.unwrap_or("")`
unfoldable pub bearer_or_empty : Option Text → Text
bearer_or_empty none = []
bearer_or_empty (some token) = token

module _ (services : Services) (draws : Draws) where
  open services use {primitives, sha256, read_challenge, read_verify}

  unfoldable pub require_auth : Option Text → Handler Text
  require_auth bearer = do
    token ← lift (ok_or bearer (error 401 "unauthorized" "missing bearer session token"))
    with_db (any_error (error 401 "unauthorized" "invalid or expired session token"))
        (authenticate sha256 draws.authenticated_at token)

  unfoldable pub handle_auth_challenge : Text → Handler Response
  handle_auth_challenge body = do
    device_id ←
        lift (ok_or (read_challenge body) (error 400 "bad_request" "invalid challenge payload"))
    challenge ←
        with_db challenge_failed (issue_challenge draws.challenge draws.handled_at device_id)
    pure (
        answer 200 (
          text_field "challenge_base64" (base64_encode challenge)
            (number_field "ttl_seconds" challenge_ttl_seconds end)))

  unfoldable pub handle_auth_verify : Text → Handler Response
  handle_auth_verify body = do
    req ← lift (ok_or (read_verify body) (error 400 "bad_request" "invalid verify payload"))
    issued ← with_db verify_failed (
        verify_and_issue_session sha256 primitives draws.token draws.handled_at draws.stored_at
          req.device_id req.signature_base64)
    pure (answer 200 (text_field "session_token" issued.0 (number_field "expires_at" issued.1 end)))

  unfoldable pub handle_logout : Text → Handler Response
  handle_logout token = do
    with_db (any_error (error 401 "unauthorized" "session could not be revoked"))
        (revoke_session sha256 token)
    pure (answer 200 (bool_field "logged_out" true end))
