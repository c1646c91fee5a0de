-- ===== src/Api/Service.antt =====
-- server/upm-server/src/api.rs: one request from its arrival to the answer and the line in the log.
use upmessenger.Base.{
  ℕ, ◌+◌, ◌*◌, none, some, List, [], ◌∷◌, Text, map, Result, ok, err, length, take, ltb,
  if◌then◌else◌,
}
use upmessenger.RateLimit.{check}
use upmessenger.Api.{Services, Draws, AppState, Response, error}
use upmessenger.Api.Paths.{
  Segment, literal, parameter, matches, bound, path_of, segments, normalize_path_for_logging,
}
use upmessenger.Api.Requests.{
  Method, get, put, Request, upper, client_key, extract_bearer, capability_of, is_utf8,
}
use upmessenger.Api.Login.{require_auth}
use upmessenger.Api.Folder.{Disk}
use upmessenger.Api.Files.{FileResponse, handle_attachment_upload, handle_attachment_download}
use upmessenger.Api.Routes.{route}

-- An answer in JSON, or the bytes of an attachment.
pub data Reply : Type 0 where
  json : Response → Reply
  data_reply : FileResponse → Reply

unfoldable pub status_of : Reply → ℕ
status_of (json r) = r.0
status_of (data_reply r) = r.0

pub record LogLine : Type 0 where
  pub now : ℕ
  pub method : Method
  pub path : Text
  pub status : ℕ

unfoldable pub log_line : ℕ → Method → Text → ℕ → LogLine
log_line now method path status = record {
  now = now;
  method = method;
  path = normalize_path_for_logging path;
  status = status;
}

abbrev pub max_json_body_bytes : ℕ
max_json_body_bytes = 2 * 1024 * 1024

abbrev pub blob_path : List Segment
blob_path = literal "v1" ∷ literal "attachments" ∷ parameter ∷ literal "blob" ∷ []

-- What an upload or a download ends with, as a reply.
unfoldable pub file_reply : Result FileResponse FileResponse × AppState → Reply × AppState
file_reply (ok r, s) = (data_reply r, s)
file_reply (err r, s) = (data_reply r, s)

module _ (services : Services) (draws : Draws) (disk : Disk) where
  -- The `match` on the method of a request for a file.
  unfoldable pub transfer : Request → Text → Text → AppState → Reply × AppState
  transfer request id device s = elim request.method [
    | put ↦ file_reply (handle_attachment_upload services draws disk id device request.body s)
    | get ↦ file_reply (handle_attachment_download services draws disk id (capability_of request) s)
    | _ ↦ (data_reply (405, []), s)
  ]

  unfoldable pub handle_blob : Request → Text → AppState → Reply × AppState
  handle_blob request id s =
      let (authenticated, s') = require_auth services draws (extract_bearer request) s in
      elim authenticated [ ok device ↦ transfer request id device s' | err r ↦ (json r, s') ]

  -- The body of a JSON request: read up to the limit, and then checked.
  unfoldable pub handle_json : Request → AppState → Reply × AppState
  handle_json request s = elim request.body [
    | none ↦ (json (error 400 "bad_request" "request body could not be read"), s)
    | some sent ↦
        let raw_body = take (max_json_body_bytes + 1) sent in
        if ltb max_json_body_bytes (length raw_body)
        then (json (error 413 "request_too_large" "request body exceeds limit"), s)
        else if is_utf8 raw_body
        then (let (r, s') =
              route services draws disk request.method request.url raw_body (extract_bearer request)
                (client_key request) s in
            (json r, s'))
        else (json (error 400 "bad_request" "request body must be UTF-8 JSON"), s)
  ]

  -- What follows the limiter of the client's address.
  unfoldable pub handle_allowed : Request → AppState → Reply × AppState
  handle_allowed request s =
      let segs = segments (path_of request.url) in
      if matches blob_path segs
      then handle_blob request (map upper (bound blob_path segs)) s
      else handle_json request s

  unfoldable pub reply : Request → AppState → Reply × AppState
  reply request s =
      let (allowed, limiter) = check s.ip_limiter draws.limited_at (client_key request) in
      let s' : AppState = record s { ip_limiter = limiter } in
      if allowed
      then handle_allowed request s'
      else (json (error 429 "rate_limited" "too many requests, slow down"), s')

  unfoldable pub handle : Request → AppState → (Reply × LogLine) × AppState
  handle request s =
      let (r, s') = reply request s in
      ((r, log_line draws.logged_at request.method (path_of request.url) (status_of r)), s')
