-- ===== src/Api/Access.antt =====
-- What a request gets that carries no valid bearer token.
use upmessenger.Base.{
  ◌<◌, ◌≡◌, refl, Bool, true, false, Option, none, some, arith, Text, err, find_first,
}
use upmessenger.Base.State.{◌>>=◌}
use upmessenger.Server.{Session}
use upmessenger.Server.Auth.{session_of}
use upmessenger.Server.Auth.Tokens.{authenticate-invalid}
use upmessenger.Api.{Services, Draws, AppState, Handler, Response, respond, error, with_db}
use upmessenger.Api.Login.{require_auth}
use upmessenger.Api.Folder.{Disk}
use upmessenger.Api.Routes.{Endpoint, serve}

-- The endpoints that answer without a token.
unfoldable pub is_open : Endpoint → Bool
is_open Endpoint.register = true
is_open Endpoint.auth_challenge = true
is_open Endpoint.auth_verify = true
is_open (Endpoint.resolve t) = true
is_open (Endpoint.resolve_id t) = true
is_open (Endpoint.public_profile t) = true
is_open (Endpoint.device_keys t) = true
is_open Endpoint.no_such_endpoint = true
is_open _ = false

-- Everything is as before but the limiters and the table of sessions.
pub record Untouched (s s' : AppState) : Type 0 where
  pub same_files : s'.attachment_dir ≡ s.attachment_dir
  pub same_tables : s'.db ≡ record s.db { sessions = s'.db.sessions }

module _ (services : Services) (draws : Draws) (disk : Disk) where
  open services use {sha256}

  -- No session that is stored under the digest of the token is still valid.
  unfoldable pub Refused : Option Text → AppState → Type 0
  Refused bearer s =
      (token : Text)
      → bearer ≡ some token
      → (x : Session) → find_first (session_of sha256 token) s.db.sessions ≡ some x
      → x.expires_at < draws.authenticated_at

  -- A refusal of the token, which leaves all but sessions untouched.
  pub record Denied (bearer : Option Text) (s : AppState) : Type 0 where
    pub denial : Response
    pub after : AppState
    pub unauthorized : denial.0 ≡ 401
    pub untouched : Untouched s after
    pub denied : require_auth services draws bearer s ≡ (err denial, after)

  pub require_auth-Denied :
      (bearer : Option Text) (s : AppState) → Refused bearer s → Denied bearer s
  unfolding Refused require_auth error with_db
  require_auth-Denied none s h = record {
    denial = error 401 "unauthorized" "missing bearer session token";
    after = s;
    unauthorized = refl;
    untouched = record { same_files = refl; same_tables = refl };
    denied = refl;
  }
  require_auth-Denied (some token) s h =
      let (sessions, e) =
        authenticate-invalid sha256 draws.authenticated_at token s.db (h token refl) in
      record {
        denial = error 401 "unauthorized" "invalid or expired session token";
        after = record s { db = record s.db { sessions = sessions } };
        unauthorized = refl;
        untouched = record { same_files = refl; same_tables = refl };
        denied = rw e;
      }

  -- The answer to a request that is refused.
  pub record IsRefused (s : AppState) (r : Response × AppState) : Type 0 where
    pub status : r.0.0 ≡ 401
    pub kept : Untouched s r.1

  denied-IsRefused :
      (bearer : Option Text) (s : AppState) (f : Text → Handler Response)
      → Refused bearer s
      → IsRefused s (respond ((require_auth services draws bearer >>= f) s))
  unfolding respond
  denied-IsRefused bearer s f h =
      let d = require_auth-Denied bearer s h in
      rw (d.denied) (record { status = d.unauthorized; kept = d.untouched })

  pub serve-IsRefused :
      (e : Endpoint) (url body : Text) (bearer : Option Text) (key : Text) (s : AppState)
      → is_open e ≡ false
      → Refused bearer s
      → IsRefused s (respond (serve services draws disk e url body bearer key s))
  unfolding serve is_open
  serve-IsRefused Endpoint.register url body bearer key s h r = absurd (ground (arith, h))
  serve-IsRefused Endpoint.auth_challenge url body bearer key s h r = absurd (ground (arith, h))
  serve-IsRefused Endpoint.auth_verify url body bearer key s h r = absurd (ground (arith, h))
  serve-IsRefused (Endpoint.resolve t) url body bearer key s h r = absurd (ground (arith, h))
  serve-IsRefused (Endpoint.resolve_id t) url body bearer key s h r = absurd (ground (arith, h))
  serve-IsRefused (Endpoint.public_profile t) url body bearer key s h r = absurd (ground (arith, h))
  serve-IsRefused (Endpoint.device_keys t) url body bearer key s h r = absurd (ground (arith, h))
  serve-IsRefused Endpoint.no_such_endpoint url body bearer key s h r = absurd (ground (arith, h))
  serve-IsRefused Endpoint.logout url body bearer key s h r = denied-IsRefused bearer s _ r
  serve-IsRefused Endpoint.set_privacy url body bearer key s h r = denied-IsRefused bearer s _ r
  serve-IsRefused Endpoint.get_privacy url body bearer key s h r = denied-IsRefused bearer s _ r
  serve-IsRefused Endpoint.publish_keys url body bearer key s h r = denied-IsRefused bearer s _ r
  serve-IsRefused Endpoint.publish_prekeys url body bearer key s h r = denied-IsRefused bearer s _ r
  serve-IsRefused Endpoint.claim_prekey url body bearer key s h r = denied-IsRefused bearer s _ r
  serve-IsRefused Endpoint.send url body bearer key s h r = denied-IsRefused bearer s _ r
  serve-IsRefused Endpoint.pull url body bearer key s h r = denied-IsRefused bearer s _ r
  serve-IsRefused Endpoint.ack url body bearer key s h r = denied-IsRefused bearer s _ r
  serve-IsRefused Endpoint.create_attachment url body bearer key s h r =
      denied-IsRefused bearer s _ r
  serve-IsRefused (Endpoint.delete_attachment t) url body bearer key s h r =
      denied-IsRefused bearer s _ r
