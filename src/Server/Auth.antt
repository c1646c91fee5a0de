-- ===== src/Server/Auth.antt =====
-- server/upm-server/src/auth.rs: the signature challenge and the bearer sessions. The random bytes and the
-- clock are arguments, and SHA-256 is the parameter `sha256`.
pub mod Challenges
pub mod Tokens
use upmessenger.Base.{
  ℕ, ◌+◌, ◌*◌, ◌≡◌, Bool, true, false, not, ◌&&◌, ◌||◌, Option, none, some, List, [], ◌∷◌, ◌++◌,
  Bytes, Text, str_eq, Result, ok, err, ok_or, map_err, ensure, find_first, select, length, all_of,
  ltb, ◌==◌, if◌then◌else◌,
}
use upmessenger.Base.State.{Exec, lift, pure, gets, modify, ◌>>=◌, ◌>>◌}
use upmessenger.Codec.{hex_encode, decode_fixed}
use upmessenger.Crypto.{Primitives, verify}
use upmessenger.Protocol.{is_ascii_hexdigit}
use upmessenger.Server.Identity.{
  AuthError, unknown_device, no_challenge, invalid_session, sqlite, check_signature,
}
use upmessenger.Server.{
  Database, Device, Challenge, Session, SqliteError, constraint_violation, device_named,
  device_exists,
}

abbrev pub challenge_ttl_seconds : ℕ
challenge_ttl_seconds = 120

abbrev pub session_ttl_seconds : ℕ
session_ttl_seconds = 30 * 24 * 3600

abbrev pub AuthAction : Type 0 → Type 0
AuthAction A = Exec Database AuthError A

abbrev pub challenge_of : Text → Challenge → Bool
challenge_of id c = str_eq c.device_id id

-- `INSERT ... ON CONFLICT(device_id) DO UPDATE`
pub upsert_challenge : Challenge → List Challenge → List Challenge
upsert_challenge c [] = c ∷ []
upsert_challenge c (x ∷ xs) =
    if str_eq x.device_id c.device_id then c ∷ xs else x ∷ upsert_challenge c xs

pub issue_challenge : Bytes → ℕ → Text → AuthAction Bytes
issue_challenge challenge now device_id db =
    if not (device_exists device_id db) then (err unknown_device, db) else (
      ok challenge,
      record db {
        auth_challenges =
            upsert_challenge
              (record {
                device_id = device_id;
                challenge = challenge;
                expires_at = now + challenge_ttl_seconds;
              })
              db.auth_challenges;
      },
    )

-- `token.len() == 64` and hexadecimal digits only
pub is_token : Text → Bool
is_token token = (length token == 64) && all_of is_ascii_hexdigit token

module _ (sha256 : Bytes → Bytes) where
  pub token_digest : Text → Text
  token_digest token = hex_encode false (sha256 token)

  abbrev pub session_of : Text → Session → Bool
  session_of token s = str_eq s.token_hash (token_digest token)

  -- The INSERT into `sessions`, whose key is `token_hash`.
  unfoldable pub insert_session : Session → AuthAction (Unit {0})
  insert_session s db = elim (find_first (λ r. str_eq r.token_hash s.token_hash) db.sessions) [
    | some r ↦ (err (sqlite constraint_violation), db)
    | none ↦ (ok tt, record db { sessions = db.sessions ++ (s ∷ []) })
  ]

  module _ (p : Primitives) where
    -- What follows the removal of the challenge. The clock is read for the expiry of the challenge, and
    -- again for the session.
    unfoldable pub issue_session : Bytes → ℕ → ℕ → Text → Text → Challenge → AuthAction (Text × ℕ)
    issue_session random now later device_id signature_base64 c = do
      gets (check_signature p now device_id signature_base64 c)
      insert_session (record {
        token_hash = token_digest (hex_encode false random);
        device_id = device_id;
        created_at = later;
        expires_at = later + session_ttl_seconds;
      })
      pure (hex_encode false random, later + session_ttl_seconds)

    unfoldable pub verify_and_issue_session : Bytes → ℕ → ℕ → Text → Text → AuthAction (Text × ℕ)
    verify_and_issue_session random now later device_id signature_base64 = do
      c ← gets (λ db. ok_or (find_first (challenge_of device_id) db.auth_challenges) no_challenge)
      modify λ db. record db {
        auth_challenges = select (λ x. not (challenge_of device_id x)) db.auth_challenges;
      }
      issue_session random now later device_id signature_base64 c

  pub authenticate : ℕ → Text → AuthAction Text
  authenticate now token db =
      if not (is_token token)
      then (err invalid_session, db)
      else elim (find_first (session_of token) db.sessions) [
        | none ↦ (err invalid_session, db)
        | some s ↦
            if ltb s.expires_at now
            then (
              err invalid_session,
              record db { sessions = select (λ r. not (session_of token r)) db.sessions },
            )
            else (ok s.device_id, db)
      ]

  pub revoke_session : Text → AuthAction (Unit {0})
  revoke_session token db =
      if not (is_token token)
      then (err invalid_session, db)
      else (ok tt, record db { sessions = select (λ r. not (session_of token r)) db.sessions })
