-- ===== src/Server/Accounts.antt =====
-- server/upm-server/src/db.rs: accounts, the directory, and the keys of a device. The identifiers that the
-- source draws at random are arguments, and `str::to_lowercase` is the parameter `to_lowercase`.
pub mod Registration
pub mod Bundles
use upmessenger.Base.{
  ℕ, ◌≡◌, Bool, true, false, not, ◌&&◌, ◌||◌, Option, none, some, List, [], ◌∷◌, ◌++◌, map, Bytes,
  Text, codes, str_eq, Result, ok, err, ok_or, ensure, find_first, select, count_of, length, ◌==◌,
  if◌then◌else◌,
}
use upmessenger.Base.State.{Exec, lift, pure, gets, modify, ◌>>=◌, ◌>>◌}
use upmessenger.Server.{
  Database, User, Device, DbError, username_taken, device_not_found, sqlite, constraint_violation,
  Action, device_named, device_exists, transaction,
}

pub record RegisteredAccount : Type 0 where
  pub user_id : Text
  pub upm_id : Text
  pub device_id : Text

abbrev pub active : Text
active = codes "active"

-- A row that one of the UNIQUE columns keeps out.
unfoldable pub conflicts : User → User → Bool
conflicts u r =
    str_eq r.user_id u.user_id
    || str_eq r.upm_id u.upm_id
    || str_eq r.username u.username
    || str_eq r.username_normalized u.username_normalized

unfoldable pub insert_user : User → Action (Unit {0})
insert_user u db = elim (find_first (conflicts u) db.users) [
  | some r ↦ (err (sqlite constraint_violation), db)
  | none ↦ (ok tt, record db { users = db.users ++ (u ∷ []) })
]

unfoldable pub insert_device : Device → Action (Unit {0})
insert_device d db = elim (find_first (device_named d.device_id) db.devices) [
  | some r ↦ (err (sqlite constraint_violation), db)
  | none ↦ (ok tt, record db { devices = db.devices ++ (d ∷ []) })
]

-- The rows of a new account.
abbrev pub new_user : RegisteredAccount → Text → Text → ℕ → User
new_user ids username normalized now = record {
  user_id = ids.user_id;
  upm_id = ids.upm_id;
  username = username;
  username_normalized = normalized;
  created_at = now;
  status = active;
  directory_visible = true;
}

abbrev pub new_device : RegisteredAccount → Text → Device
new_device ids identity_public_key = record {
  device_id = ids.device_id;
  user_id = ids.user_id;
  identity_public_key = identity_public_key;
  identity_exchange_public = none;
  signed_prekey_public = none;
  signed_prekey_signature = none;
  capabilities = codes "[]";
  last_seen_coarse = none;
}

abbrev pub user_normalized : Text → User → Bool
user_normalized name u = str_eq u.username_normalized name

pub record DirectoryEntry : Type 0 where
  pub upm_id : Text
  pub username : Text
  pub device_id : Text
  pub identity_public_key : Text

abbrev pub device_of : Text → Device → Bool
device_of user d = str_eq d.user_id user

-- `SELECT ... FROM users u JOIN devices d ... ORDER BY d.rowid ASC LIMIT 1`, over the users that pass a test:
-- the first device whose user passes.
pub resolve_where : (User → Bool) → List User → List Device → Option DirectoryEntry
resolve_where test users [] = none
resolve_where test users (d ∷ devices) =
    let rest = resolve_where test users devices in
    elim (find_first (λ u. str_eq d.user_id u.user_id && test u) users) [
      | some u ↦ some (record {
        upm_id = u.upm_id;
        username = u.username;
        device_id = d.device_id;
        identity_public_key = d.identity_public_key;
      })
      | none ↦ rest
    ]

pub is_listed : User → Bool
is_listed u = str_eq u.status active && u.directory_visible

pub resolve_upm_id : Text → Action (Option DirectoryEntry)
resolve_upm_id upm_id db =
    (ok (resolve_where (λ u. str_eq u.upm_id upm_id && is_listed u) db.users db.devices), db)

module _ (to_lowercase : Text → Text) where
  unfoldable pub register_account : RegisteredAccount → ℕ → Text → Text → Action RegisteredAccount
  register_account ids now username identity_public_key db =
      let normalized = to_lowercase username in
      elim (find_first (user_normalized normalized) db.users) [
        | some u ↦ (err username_taken, db)
        | none ↦
            transaction
              (do
                insert_user (new_user ids username normalized now)
                insert_device (new_device ids identity_public_key)
                pure ids)
              db
      ]

  pub resolve_username : Text → Action (Option DirectoryEntry)
  resolve_username username db = (
    ok (
        resolve_where (λ u. user_normalized (to_lowercase username) u && is_listed u) db.users
          db.devices),
    db,
  )

  pub get_public_profile : Text → Action (Option DirectoryEntry)
  get_public_profile username = resolve_username username

-- `user_id = (SELECT user_id FROM devices WHERE device_id = ?1) AND status = 'active'`
pub owns : Text → Database → User → Bool
owns device_id db u = elim (find_first (device_named device_id) db.devices) [
  | none ↦ false
  | some d ↦ str_eq u.user_id d.user_id && str_eq u.status active
]

pub set_directory_visibility : Text → Bool → Action (Unit {0})
set_directory_visibility device_id visible db =
    let changed = count_of (owns device_id db) db.users in
    let users =
      map (λ u. if owns device_id db u then record u { directory_visible = visible } else u)
        db.users in
    (if changed == 0 then err device_not_found else ok tt, record db { users = users })

pub get_directory_visibility : Text → Action Bool
get_directory_visibility device_id = gets λ db.
    elim (find_first (device_named device_id) db.devices) [
      | none ↦ err device_not_found
      | some d ↦ elim (find_first (λ u. str_eq d.user_id u.user_id) db.users) [
        | none ↦ err device_not_found
        | some u ↦ ok u.directory_visible
      ]
    ]

unfoldable pub get_device_identity_public_key : Text → Action Text
get_device_identity_public_key device_id = gets λ db.
    elim (find_first (device_named device_id) db.devices) [
      | none ↦ err device_not_found
      | some d ↦ ok d.identity_public_key
    ]

unfoldable pub update_device_keys : Text → Text → Text → Text → Action (Unit {0})
update_device_keys device_id identity_exchange_public signed_prekey_public signed_prekey_signature
      db =
    if not (device_exists device_id db)
    then (err device_not_found, db)
    else (let updated =
          map
            (λ d.
              if device_named device_id d
              then record d {
                identity_exchange_public = some identity_exchange_public;
                signed_prekey_public = some signed_prekey_public;
                signed_prekey_signature = some signed_prekey_signature;
              }
              else d)
            db.devices in
        (
          if count_of (device_named device_id) db.devices == 0 then err device_not_found else ok tt,
          record db { devices = updated },
        ))

pub record DevicePreKeyBundle : Type 0 where
  pub device_id : Text
  pub identity_public_key : Text
  pub identity_exchange_public : Text
  pub signed_prekey_public : Text
  pub signed_prekey_signature : Text

-- Option::unwrap_or_default
unfoldable pub unwrap_or_default : Option Text → Text
unwrap_or_default none = []
unwrap_or_default (some t) = t

unfoldable pub get_device_prekey_bundle : Text → Action DevicePreKeyBundle
get_device_prekey_bundle device_id = gets λ db.
    elim (find_first (device_named device_id) db.devices) [
      | none ↦ err device_not_found
      | some d ↦ ok (record {
        device_id = d.device_id;
        identity_public_key = d.identity_public_key;
        identity_exchange_public = unwrap_or_default d.identity_exchange_public;
        signed_prekey_public = unwrap_or_default d.signed_prekey_public;
        signed_prekey_signature = unwrap_or_default d.signed_prekey_signature;
      })
    ]
