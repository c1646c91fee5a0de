-- ===== src/Server/Maintenance.antt =====
-- server/upm-server/src/db.rs: the deletion of what has expired, the cleanup at start, and the operations of
-- the administrator. A DELETE of a row that another table still refers to violates a foreign key.
pub mod Deletion
use upmessenger.Base.{
  ℕ, ◌+◌, ◌≡◌, Bool, true, false, not, ◌&&◌, ◌||◌, Option, none, some, List, [], ◌∷◌, ◌++◌, map,
  Text, str_eq, Result, ok, err, find_first, select, count_of, length, ltb, leb, ◌==◌,
  if◌then◌else◌,
}
use upmessenger.Base.State.{Exec, lift, pure, gets, modify, ◌>>=◌, ◌>>◌}
use upmessenger.Protocol.{current}
use upmessenger.Server.{
  Database, User, Device, OneTimePrekey, Envelope, Attachment, Challenge, Session, DbError,
  user_not_found, sqlite, constraint_violation, Action, before,
}
use upmessenger.Server.Accounts.{user_normalized, device_of}
use upmessenger.Server.Attachments.{owned_by, sum_where, is_empty}
use upmessenger.Server.Queue.{is_queued}

-- The DELETE statements of `init_schema`.
pub drop_outdated : Database → Database
drop_outdated db = record db {
  message_envelopes = select (λ e. e.protocol_version == current) db.message_envelopes;
  one_time_prekeys = select (λ k. not (str_eq k.signature [])) db.one_time_prekeys;
  attachments = select (λ a. not (str_eq a.capability_hash [])) db.attachments;
}

unfoldable pub reap_expired_with_attachment_keys : ℕ → Action (List Text)
reap_expired_with_attachment_keys now db = (
  ok (map (λ a. a.storage_key) (select (λ a. leb a.expires_at now) db.attachments)),
  record db {
    message_envelopes = select (λ e. before now e.expires_at) db.message_envelopes;
    attachments = select (λ a. ltb now a.expires_at) db.attachments;
    auth_challenges = select (λ c. ltb now c.expires_at) db.auth_challenges;
    sessions = select (λ s. ltb now s.expires_at) db.sessions;
  },
)

pub record AdminStats : Type 0 where
  pub account_count : ℕ
  pub device_count : ℕ
  pub queued_message_count : ℕ
  pub attachment_count : ℕ
  pub attachment_bytes_total : ℕ

pub admin_stats : Action AdminStats
admin_stats = gets λ db. ok (record {
  account_count = length db.users;
  device_count = length db.devices;
  queued_message_count = count_of is_queued db.message_envelopes;
  attachment_count = length db.attachments;
  attachment_bytes_total = sum_where (λ a. true) db.attachments;
})

pub record AdminAccountSummary : Type 0 where
  pub username : Text
  pub upm_id : Text
  pub created_at : ℕ
  pub device_count : ℕ
  pub directory_visible : Bool

-- `ORDER BY u.created_at DESC`
pub by_creation_desc : AdminAccountSummary → List AdminAccountSummary → List AdminAccountSummary
by_creation_desc a [] = a ∷ []
by_creation_desc a (x ∷ xs) =
    if ltb a.created_at x.created_at then x ∷ by_creation_desc a xs else a ∷ x ∷ xs

pub order_desc : List AdminAccountSummary → List AdminAccountSummary
order_desc [] = []
order_desc (a ∷ rest) = by_creation_desc a (order_desc rest)

pub admin_list_accounts : Action (List AdminAccountSummary)
admin_list_accounts = gets λ db. ok (
    order_desc (
      map
        (λ u. record {
          username = u.username;
          upm_id = u.upm_id;
          created_at = u.created_at;
          device_count = count_of (device_of u.user_id) db.devices;
          directory_visible = u.directory_visible;
        })
        db.users))

-- The tables without the rows that refer to a device.
pub forget_device : Text → Database → Database
forget_device device db = record db {
  attachments = select (λ a. not (owned_by device a)) db.attachments;
  one_time_prekeys = select (λ k. not (str_eq k.device_id device)) db.one_time_prekeys;
  message_envelopes =
      select (λ e. not (str_eq e.sender_device_id device || str_eq e.recipient_device_id device))
        db.message_envelopes;
  sessions = select (λ s. not (str_eq s.device_id device)) db.sessions;
  auth_challenges = select (λ c. not (str_eq c.device_id device)) db.auth_challenges;
}

-- The loop over the devices, with the storage keys of the attachments that it deletes.
pub forget_devices : List Device → Action (List Text)
forget_devices [] = pure []
forget_devices (d ∷ devices) = do
  keys ← gets (λ db. ok (map (λ a. a.storage_key) (select (owned_by d.device_id) db.attachments)))
  modify (forget_device d.device_id)
  rest ← forget_devices devices
  pure (keys ++ rest)

-- How many rows refer to a device.
pub references_to_device : Text → Database → ℕ
references_to_device device db =
    count_of (owned_by device) db.attachments
    + count_of (λ k. str_eq k.device_id device) db.one_time_prekeys
    + count_of (λ e. str_eq e.sender_device_id device || str_eq e.recipient_device_id device)
        db.message_envelopes
    + count_of (λ s. str_eq s.device_id device) db.sessions
    + count_of (λ c. str_eq c.device_id device) db.auth_challenges

-- `DELETE FROM devices WHERE user_id = ?1`
pub delete_devices : Text → Action (Unit {0})
delete_devices user db =
    if count_of (λ d. device_of user d && not (references_to_device d.device_id db == 0)) db.devices
      == 0
    then (ok tt, record db { devices = select (λ d. not (device_of user d)) db.devices })
    else (err (sqlite constraint_violation), db)

-- `DELETE FROM users WHERE user_id = ?1`
pub delete_user : Text → Action (Unit {0})
delete_user user db =
    if count_of (device_of user) db.devices + count_of (λ m. str_eq m.user_id user) db.memberships
      == 0
    then (ok tt, record db { users = select (λ u. not (str_eq u.user_id user)) db.users })
    else (err (sqlite constraint_violation), db)

-- What follows once the account is found.
pub delete_account : User → Action (List Text)
delete_account u = do
  devices ← gets (λ db. ok (select (device_of u.user_id) db.devices))
  storage_keys ← forget_devices devices
  modify λ db. record db {
    memberships = select (λ m. not (str_eq m.user_id u.user_id)) db.memberships;
  }
  delete_devices u.user_id
  delete_user u.user_id
  pure storage_keys

module _ (to_lowercase : Text → Text) where
  pub admin_delete_account : Text → Action (List Text)
  admin_delete_account username db =
      elim (find_first (user_normalized (to_lowercase username)) db.users) [
        | none ↦ (err user_not_found, db)
        | some u ↦ delete_account u db
      ]
