-- ===== src/Api/Routes.antt =====
-- server/upm-server/src/api.rs: the route table, and what each endpoint asks for before its handler runs.
use upmessenger.Base.{
  Bool, true, false, ◌&&◌, Option, none, some, List, [], ◌∷◌, Text, codes, err, ensure, find_first,
}
use upmessenger.Base.State.{lift, ◌>>=◌, ◌>>◌}
use upmessenger.RateLimit.{check}
use upmessenger.Api.{Services, Draws, AppState, Handler, Response, error, respond}
use upmessenger.Api.Paths.{Segment, literal, parameter, matches, bound, path_of, segments}
use upmessenger.Api.Requests.{Method, get, head, post, put, delete}
use upmessenger.Api.Accounts.{
  handle_register, handle_resolve, handle_resolve_upm_id, handle_public_profile,
  handle_profile_privacy, handle_get_profile_privacy,
}
use upmessenger.Api.Login.{
  require_auth, bearer_or_empty, handle_auth_challenge, handle_auth_verify, handle_logout,
}
use upmessenger.Api.Keys.{
  handle_get_device_keys, handle_publish_keys, handle_publish_one_time_prekeys,
  handle_claim_one_time_prekey,
}
use upmessenger.Api.Messages.{handle_send, handle_pull, handle_ack}
use upmessenger.Api.Folder.{Disk}
use upmessenger.Api.Files.{handle_attachment_create, handle_attachment_delete}

-- The arms of the `match` in `route`, each with its parameter.
pub data Endpoint : Type 0 where
  register auth_challenge auth_verify : Endpoint
  resolve resolve_id public_profile device_keys : Text → Endpoint
  logout set_privacy get_privacy publish_keys publish_prekeys claim_prekey : Endpoint
  send pull ack create_attachment : Endpoint
  delete_attachment : Text → Endpoint
  no_such_endpoint : Endpoint

unfoldable pub same_method : Method → Method → Bool
same_method get get = true
same_method head head = true
same_method post post = true
same_method put put = true
same_method delete delete = true
same_method _ _ = false

pub record Route : Type 0 where
  pub method : Method
  pub path : List Segment
  pub endpoint : Text → Endpoint

-- The patterns, in the order of the source.
abbrev pub routes : List Route
routes =
    let v1 = literal "v1" in
    record {
      method = post;
      path = v1 ∷ literal "account" ∷ literal "register" ∷ [];
      endpoint = λ _. register;
    }
    ∷ record {
      method = get;
      path = v1 ∷ literal "directory" ∷ literal "resolve" ∷ parameter ∷ [];
      endpoint = resolve;
    }
    ∷ record {
      method = get;
      path = v1 ∷ literal "directory" ∷ literal "resolve-id" ∷ parameter ∷ [];
      endpoint = resolve_id;
    }
    ∷ record {
      method = get;
      path = v1 ∷ literal "profile" ∷ literal "public" ∷ parameter ∷ [];
      endpoint = public_profile;
    }
    ∷ record {
      method = post;
      path = v1 ∷ literal "auth" ∷ literal "challenge" ∷ [];
      endpoint = λ _. auth_challenge;
    }
    ∷ record {
      method = post;
      path = v1 ∷ literal "auth" ∷ literal "verify" ∷ [];
      endpoint = λ _. auth_verify;
    }
    ∷ record {
      method = delete;
      path = v1 ∷ literal "auth" ∷ literal "session" ∷ [];
      endpoint = λ _. logout;
    }
    ∷ record {
      method = post;
      path = v1 ∷ literal "profile" ∷ literal "privacy" ∷ [];
      endpoint = λ _. set_privacy;
    }
    ∷ record {
      method = get;
      path = v1 ∷ literal "profile" ∷ literal "privacy" ∷ [];
      endpoint = λ _. get_privacy;
    }
    ∷ record {
      method = get;
      path = v1 ∷ literal "devices" ∷ literal "keys" ∷ parameter ∷ [];
      endpoint = device_keys;
    }
    ∷ record {
      method = post;
      path = v1 ∷ literal "devices" ∷ literal "keys" ∷ [];
      endpoint = λ _. publish_keys;
    }
    ∷ record {
      method = post;
      path = v1 ∷ literal "devices" ∷ literal "prekeys" ∷ [];
      endpoint = λ _. publish_prekeys;
    }
    ∷ record {
      method = post;
      path = v1 ∷ literal "devices" ∷ literal "prekeys" ∷ literal "claim" ∷ [];
      endpoint = λ _. claim_prekey;
    }
    ∷ record {
      method = post;
      path = v1 ∷ literal "messages" ∷ literal "send" ∷ [];
      endpoint = λ _. send;
    }
    ∷ record {
      method = get;
      path = v1 ∷ literal "messages" ∷ literal "pull" ∷ [];
      endpoint = λ _. pull;
    }
    ∷ record {
      method = post;
      path = v1 ∷ literal "messages" ∷ literal "ack" ∷ [];
      endpoint = λ _. ack;
    }
    ∷ record {
      method = post;
      path = v1 ∷ literal "attachments" ∷ literal "create" ∷ [];
      endpoint = λ _. create_attachment;
    }
    ∷ record {
      method = delete;
      path = v1 ∷ literal "attachments" ∷ parameter ∷ [];
      endpoint = delete_attachment;
    }
    ∷ []

unfoldable pub endpoint : Method → List Text → Endpoint
endpoint method segs =
    elim (find_first (λ r. same_method method r.method && matches r.path segs) routes) [
      | none ↦ no_such_endpoint
      | some r ↦ r.endpoint (bound r.path segs)
    ]

-- The limiter of the registrations, and of the attempts to authenticate.
unfoldable pub limit_registrations : Draws → Text → Handler (Unit {0})
limit_registrations draws key s =
    let (allowed, limiter) = check s.register_limiter draws.limited_again_at key in
    (
      ensure allowed (error 429 "rate_limited" "too many registration attempts, try again later"),
      record s { register_limiter = limiter },
    )

unfoldable pub limit_auth : Draws → Text → Handler (Unit {0})
limit_auth draws key s =
    let (allowed, limiter) = check s.auth_limiter draws.limited_again_at key in
    (
      ensure allowed (error 429 "rate_limited" "too many auth attempts, try again later"),
      record s { auth_limiter = limiter },
    )

unfoldable pub malformed_or : Option Text → Text
malformed_or none = codes "malformed"
malformed_or (some d) = d

module _ (services : Services) (draws : Draws) (disk : Disk) where
  unfoldable pub auth_rate_limit_key : Text → Text
  auth_rate_limit_key body = malformed_or (services.device_id_field body)

  -- The arms of the `match`: url, body, bearer token, and client key.
  unfoldable pub serve : Endpoint → Text → Text → Option Text → Text → Handler Response
  serve register url body bearer key = do
    limit_registrations draws key
    handle_register services draws body
  serve (resolve username) url body bearer key = handle_resolve services draws username
  serve (resolve_id upm_id) url body bearer key = handle_resolve_upm_id services draws upm_id
  serve (public_profile username) url body bearer key =
      handle_public_profile services draws username
  serve auth_challenge url body bearer key = do
    limit_auth draws (auth_rate_limit_key body)
    handle_auth_challenge services draws body
  serve auth_verify url body bearer key = do
    limit_auth draws (auth_rate_limit_key body)
    handle_auth_verify services draws body
  serve logout url body bearer key = do
    device ← require_auth services draws bearer
    handle_logout services draws (bearer_or_empty bearer)
  serve set_privacy url body bearer key = do
    device ← require_auth services draws bearer
    handle_profile_privacy services draws body device
  serve get_privacy url body bearer key = do
    device ← require_auth services draws bearer
    handle_get_profile_privacy services draws device
  serve (device_keys device_id) url body bearer key =
      handle_get_device_keys services draws device_id
  serve publish_keys url body bearer key = do
    device ← require_auth services draws bearer
    handle_publish_keys services draws body device
  serve publish_prekeys url body bearer key = do
    device ← require_auth services draws bearer
    handle_publish_one_time_prekeys services draws body device
  serve claim_prekey url body bearer key = do
    device ← require_auth services draws bearer
    handle_claim_one_time_prekey services draws body
  serve send url body bearer key = do
    device ← require_auth services draws bearer
    handle_send services draws body device
  serve pull url body bearer key = do
    device ← require_auth services draws bearer
    handle_pull services draws url device
  serve ack url body bearer key = do
    device ← require_auth services draws bearer
    handle_ack services draws body device
  serve create_attachment url body bearer key = do
    device ← require_auth services draws bearer
    handle_attachment_create services draws disk body device
  serve (delete_attachment id) url body bearer key = do
    device ← require_auth services draws bearer
    handle_attachment_delete services draws disk id device
  serve no_such_endpoint url body bearer key = lift (err (error 404 "not_found" "no such endpoint"))

  unfoldable pub route : Method → Text → Text → Option Text → Text → AppState → Response × AppState
  route method url body bearer key s =
      respond (serve (endpoint method (segments (path_of url))) url body bearer key s)
