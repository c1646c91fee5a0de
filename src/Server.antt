-- ===== src/Server.antt =====
-- server/upm-server/src/db.rs and auth.rs: the tables of the server's database. A table is the list of its
-- rows in the order in which they were inserted, and a statement is a function on that list. The connection
-- stands behind a mutex, so each operation is one step. The clock, the random identifiers, and the Unicode
-- and hash libraries are arguments.
pub mod Accounts
pub mod Prekeys
pub mod Queue
pub mod Attachments
pub mod Identity
pub mod Auth
pub mod Maintenance
pub mod Examples
use upmessenger.Base.{
  ℕ, ◌+◌, ◌%◌, ◌^◌, ◌≡◌, Bool, true, false, not, ◌&&◌, Option, none, some, List, [], ◌∷◌, ◌++◌,
  Bytes, Text, str_eq, Result, ok, err, find_first, ltb, if◌then◌else◌,
}
use upmessenger.Base.State.{Exec}

pub record User : Type 0 where
  pub user_id : Text
  pub upm_id : Text
  pub username : Text
  pub username_normalized : Text
  pub created_at : ℕ
  pub status : Text
  pub directory_visible : Bool

pub record Device : Type 0 where
  pub device_id : Text
  pub user_id : Text
  pub identity_public_key : Text
  pub identity_exchange_public : Option Text
  pub signed_prekey_public : Option Text
  pub signed_prekey_signature : Option Text
  pub capabilities : Text
  pub last_seen_coarse : Option ℕ

pub record OneTimePrekey : Type 0 where
  pub prekey_id : Text
  pub device_id : Text
  pub public_key : Text
  pub signature : Text
  pub created_at : ℕ
  pub claimed_at : Option ℕ

pub record Membership : Type 0 where
  pub conversation_id : Text
  pub user_id : Text
  pub role : Text
  pub joined_at : ℕ
  pub removed_at : Option ℕ

pub record Envelope : Type 0 where
  pub message_id : Text
  pub sender_device_id : Text
  pub recipient_device_id : Text
  pub ciphertext_blob : Bytes
  pub created_at : ℕ
  pub expires_at : ℕ
  pub delivery_state : Text
  pub protocol_version : ℕ

pub record Attachment : Type 0 where
  pub attachment_id : Text
  pub owner_message_id : Option Text
  pub owner_device_id : Option Text
  pub opaque_size : ℕ
  pub storage_key : Text
  pub capability_hash : Text
  pub expires_at : ℕ
  pub uploaded_at : Option ℕ

pub record Challenge : Type 0 where
  pub device_id : Text
  pub challenge : Bytes
  pub expires_at : ℕ

pub record Session : Type 0 where
  pub token_hash : Text
  pub device_id : Text
  pub created_at : ℕ
  pub expires_at : ℕ

pub record Database : Type 0 where
  pub users : List User
  pub devices : List Device
  pub one_time_prekeys : List OneTimePrekey
  pub memberships : List Membership
  pub message_envelopes : List Envelope
  pub attachments : List Attachment
  pub auth_challenges : List Challenge
  pub sessions : List Session

-- rusqlite::Error, where a statement violates a constraint of the schema
pub data SqliteError : Type 0 where
  constraint_violation : SqliteError

pub data DbError : Type 0 where
  username_taken user_not_found device_not_found invalid_envelope : DbError
  queue_quota_exceeded attachment_quota_exceeded : DbError
  sqlite : SqliteError → DbError

abbrev pub Action : Type 0 → Type 0
Action A = Exec Database DbError A

abbrev pub device_named : Text → Device → Bool
device_named id d = str_eq d.device_id id

-- `SELECT device_id FROM devices WHERE device_id = ?1`, and `is_some` of it
abbrev pub device_exists : Text → Database → Bool
device_exists id db = elim (find_first (device_named id) db.devices) [
  | none ↦ false
  | some d ↦ true
]

-- The order of i64 values that are written as u64 patterns.
abbrev pub before : ℕ → ℕ → Bool
before a b = ltb ((a + 2 ^ 63) % 2 ^ 64) ((b + 2 ^ 63) % 2 ^ 64)

-- `unchecked_transaction`, with a commit where the body succeeds and a rollback where it fails.
pub transaction : {A : Type 0} → Action A → Action A
transaction m db = let (r, db') = m db in elim r [ ok a ↦ (ok a, db') | err e ↦ (err e, db) ]
