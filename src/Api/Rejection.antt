-- ===== src/Api/Rejection.antt =====
-- A whole request that carries no valid bearer token, from the limiter to the answer.
use upmessenger.Base.{
  ◌+◌, ◌≤◌, ◌≡◌, refl, ap, Bool, true, false, not, ◌||◌, inl, inr, arith, Text, ltb, Bool-cases,
  Option-cases, length, take,
}
use upmessenger.RateLimit.{check}
use upmessenger.Api.{Services, Draws, AppState, error}
use upmessenger.Api.Paths.{matches, path_of, segments}
use upmessenger.Api.Requests.{Request, client_key, extract_bearer, is_utf8}
use upmessenger.Api.Folder.{Disk}
use upmessenger.Api.Routes.{endpoint, route}
use upmessenger.Api.Service.{
  Reply, status_of, blob_path, handle_blob, handle_json, handle_allowed, reply, max_json_body_bytes,
}
use upmessenger.Api.Access.{is_open, Untouched, Refused, require_auth-Denied, serve-IsRefused}

-- The answer to a request for what a device may do is an error, and nothing but limiters and sessions
-- changes.
pub record IsRejected (s : AppState) (r : Reply × AppState) : Type 0 where
  pub status : 400 ≤ status_of r.0
  pub kept : Untouched s r.1

-- Requests that act for a device.
unfoldable pub needs_token : Request → Bool
needs_token request =
    let segs = segments (path_of request.url) in
    matches blob_path segs || not (is_open (endpoint request.method segs))

module _ (services : Services) (draws : Draws) (disk : Disk) where
  handle_blob-IsRejected :
      (request : Request) (id : Text) (s : AppState)
      → Refused services draws disk (extract_bearer request) s
      → IsRejected s (handle_blob services draws disk request id s)
  unfolding handle_blob status_of
  handle_blob-IsRejected request id s h =
      let d = require_auth-Denied services draws disk (extract_bearer request) s h in
      rw (handle_blob, d.denied, ap (λ r. r.1) d.denied)
        (record { status = omega (arith, d.unauthorized); kept = d.untouched })

  handle_json-IsRejected :
      (request : Request) (s : AppState)
      → is_open (endpoint request.method (segments (path_of request.url))) ≡ false
      → Refused services draws disk (extract_bearer request) s
      → IsRejected s (handle_json services draws disk request s)
  unfolding handle_json status_of error route extract_bearer client_key
  handle_json-IsRejected request s closed h = elim (Option-cases request.body) [
    | inl e ↦
        rw e
          (record { status = omega arith; kept = record { same_files = refl; same_tables = refl } })
    | inr (sent, e) ↦
        elim (Bool-cases (ltb max_json_body_bytes (length (take (max_json_body_bytes + 1) sent)))) [
          | inl large ↦
              rw (e, large)
                (record {
                  status = omega arith;
                  kept = record { same_files = refl; same_tables = refl };
                })
          | inr small ↦ elim (Bool-cases (is_utf8 (take (max_json_body_bytes + 1) sent))) [
            | inr garbled ↦
                rw (e, small, garbled)
                  (record {
                    status = omega arith;
                    kept = record { same_files = refl; same_tables = refl };
                  })
            | inl text ↦
                let r =
                  serve-IsRefused services draws disk
                    (endpoint request.method (segments (path_of request.url))) request.url
                    (take (max_json_body_bytes + 1) sent) (extract_bearer request)
                    (client_key request) s closed h in
                rw (e, small, text) (record { status = omega (arith, r.status); kept = r.kept })
          ]
        ]
  ]

  handle_allowed-IsRejected :
      (request : Request) (s : AppState)
      → needs_token request ≡ true
      → Refused services draws disk (extract_bearer request) s
      → IsRejected s (handle_allowed services draws disk request s)
  unfolding needs_token handle_allowed
  handle_allowed-IsRejected request s needed h =
      elim (Bool-cases (matches blob_path (segments (path_of request.url)))) [
        | inl blob ↦ rw blob (handle_blob-IsRejected request _ s h)
        | inr other ↦
            let closed : is_open (endpoint request.method (segments (path_of request.url)))
                ≡ false =
              ground (arith, needed, other) in
            rw other (handle_json-IsRejected request s closed h)
      ]

  -- A request that acts for a device - any but registration, directory, profile, device keys and the two
  -- steps of the login - without a token under whose digest a session is valid gets an error status,
  -- and the server's tables but that of the sessions, and its files, stay as they were.
  pub reply-IsRejected :
      (request : Request) (s : AppState)
      → needs_token request ≡ true
      → Refused services draws disk (extract_bearer request) s
      → IsRejected s (reply services draws disk request s)
  unfolding reply status_of error Refused
  reply-IsRejected request s needed h =
      let (allowed, limiter) = check s.ip_limiter draws.limited_at (client_key request) in
      let s' : AppState = record s { ip_limiter = limiter } in
      elim (Bool-cases allowed) [
        | inl yes' ↦
            let r = handle_allowed-IsRejected request s' needed h in
            rw yes' (record {
              status = r.status;
              kept = record { same_files = r.kept.same_files; same_tables = r.kept.same_tables };
            })
        | inr no' ↦ rw no' (record {
          status = omega arith;
          kept = record { same_files = refl; same_tables = refl };
        })
      ]
