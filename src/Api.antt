-- ===== src/Api.antt =====
-- server/upm-server/src/api.rs: the state of the HTTP server, its answers, and how a handler uses the
-- database. Each lock of the connection is one step. serde_json is a parameter: `Services` holds its parsers
-- of the request bodies, and an answer is the JSON value before `to_string`.
pub mod Paths
pub mod Requests
pub mod Accounts
pub mod Login
pub mod Checks
pub mod Keys
pub mod Messages
pub mod Folder
pub mod Files
pub mod Routes
pub mod Service
pub mod Access
pub mod Rejection
pub mod Transfers
pub mod Repeated
pub mod Relay
pub mod Published
pub mod Redaction
pub mod Examples
use Prim.Native.String.{String}
use upmessenger.Base.{ℕ, Bool, Option, List, Bytes, Text, codes, Result, ok, err, map_err}
use upmessenger.Base.State.{Exec}
use upmessenger.Crypto.{Primitives}
use upmessenger.RateLimit.{RateLimiter, check}
use upmessenger.Server.{Database}
use upmessenger.Server.Accounts.{RegisteredAccount}
use upmessenger.Server.Attachments.{AttachmentSlot}
use upmessenger.Server.Prekeys.{OneTimePreKeyRecord}

-- serde_json::Value, as far as `json!` writes it
mutual
  pub data Json : Type 0 where
    string : Text → Json
    number : ℕ → Json
    boolean : Bool → Json
    array : Items → Json
    object : Fields → Json

  pub data Items : Type 0 where
    nil : Items
    item : Json → Items → Items

  pub data Fields : Type 0 where
    end : Fields
    field : Text → Json → Fields → Fields

abbrev pub text_field : String → Text → Fields → Fields
text_field name value rest = field (codes name) (string value) rest

abbrev pub number_field : String → ℕ → Fields → Fields
number_field name value rest = field (codes name) (number value) rest

abbrev pub bool_field : String → Bool → Fields → Fields
bool_field name value rest = field (codes name) (boolean value) rest

abbrev pub Response : Type 0
Response = ℕ × Json

pub error : ℕ → String → String → Response
error status code message = (
  status,
  object (
      field (codes "error")
        (object (text_field "code" (codes code) (text_field "message" (codes message) end))) end),
)

-- `ok`, which writes the JSON value as text
abbrev pub answer : ℕ → Fields → Response
answer status fields = (status, object fields)

-- i64
pub data ℤ : Type 0 where
  pos : ℕ → ℤ
  negsuc : ℕ → ℤ

pub record RegisterRequest : Type 0 where
  pub username : Text
  pub identity_public_key : Text

pub record VerifyRequest : Type 0 where
  pub device_id : Text
  pub signature_base64 : Text

pub record PublishKeysRequest : Type 0 where
  pub identity_exchange_public : Text
  pub signed_prekey_public : Text
  pub signed_prekey_signature : Text

pub record SendRequest : Type 0 where
  pub protocol_version : ℕ
  pub message_id : Text
  pub recipient_device_id : Text
  pub ciphertext_base64 : Text
  pub ttl_seconds : Option ℤ

-- The libraries: `serde_json::from_str` for each request, and for the value of `device_id` in any JSON; SHA-256,
-- `str::to_lowercase`, and the cryptographic libraries. A request of one field is that field.
pub record Services : Type 0 where
  pub primitives : Primitives
  pub sha256 : Bytes → Bytes
  pub to_lowercase : Text → Text
  pub read_register : Text → Option RegisterRequest
  pub read_challenge : Text → Option Text
  pub read_verify : Text → Option VerifyRequest
  pub read_privacy : Text → Option Bool
  pub read_keys : Text → Option PublishKeysRequest
  pub read_prekeys : Text → Option (List OneTimePreKeyRecord)
  pub read_claim : Text → Option Text
  pub read_send : Text → Option SendRequest
  pub read_ack : Text → Option (List Text)
  pub read_attachment : Text → Option ℤ
  pub device_id_field : Text → Option Text

-- What one request reads from the world: the clock, at each place where it is read, and the random
-- identifiers.
pub record Draws : Type 0 where
  pub limited_at : ℕ
  pub limited_again_at : ℕ
  pub authenticated_at : ℕ
  pub handled_at : ℕ
  pub stored_at : ℕ
  pub logged_at : ℕ
  pub account : RegisteredAccount
  pub challenge : Bytes
  pub token : Bytes
  pub slot : AttachmentSlot

-- The files of the attachment directory, by name.
abbrev pub Directory : Type 0
Directory = List (Text × Bytes)

pub record AppState : Type 0 where
  pub db : Database
  pub attachment_dir : Directory
  pub ip_limiter : RateLimiter
  pub register_limiter : RateLimiter
  pub auth_limiter : RateLimiter

-- A handler, whose early `return`s are the errors.
abbrev pub Handler : Type 0 → Type 0
Handler A = Exec AppState Response A

-- A database operation under the lock, and the answer to its failure.
unfoldable pub with_db : {E A : Type 0} → (E → Response) → Exec Database E A → Handler A
with_db failed operation s =
    let (r, db) = operation s.db in (map_err failed r, record s { db = db })

-- The answer of a handler that has ended either way.
unfoldable pub respond : Result Response Response × AppState → Response × AppState
respond (ok r, s) = (r, s)
respond (err r, s) = (r, s)

-- `Err(_)`
abbrev pub any_error : {E : Type 0} → Response → E → Response
any_error r e = r
