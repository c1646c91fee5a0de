-- ===== src/Server/Maintenance/Deletion.antt =====
-- The deletion of an account meets no foreign key, and leaves nothing of its devices.
use mathlib.Core.List.{Memᴰ}
use mathlib.Core.List.Memᴰ
use mathlib.Core.Bool.{true≢false}
use upmessenger.Base.Members.{Member-select}
use upmessenger.Base.{
  ◌≤◌, ◌≡◌, refl, sym, ap, true, false, Bool, not, ◌&&◌, ◌||◌, some, List, [], ◌∷◌, ◌++◌, map, inl,
  inr, arith, All, Text, str_eq, ok, find_first, count_of-select-not, select, count_of,
  count_of-select-le, ◌==◌, Bool-cases,
}
use upmessenger.Server.{Database, User, Device, Attachment}
use upmessenger.Server.Accounts.{user_normalized, device_of}
use upmessenger.Server.Attachments.{owned_by}
use upmessenger.Server.Maintenance.{
  forget_device, forget_devices, references_to_device, delete_devices, delete_user, delete_account,
  admin_delete_account,
}

-- The tables after the loop over the devices.
forget_all : List Device → Database → Database
forget_all [] db = db
forget_all (d ∷ ds) db = forget_all ds (forget_device d.device_id db)

-- The storage keys of the attachments that the loop deletes.
abbrev pub keys_of : List Device → Database → List Text
keys_of [] db = []
keys_of (d ∷ ds) db =
    map (λ a. a.storage_key) (select (owned_by d.device_id) db.attachments)
    ++ keys_of ds (forget_device d.device_id db)

forget_devices-all :
    (ds : List Device) (db : Database)
    → forget_devices ds db ≡ (ok (keys_of ds db), forget_all ds db)
unfolding forget_devices forget_all
forget_devices-all [] db = refl
forget_devices-all (d ∷ ds) db = rw (forget_devices-all ds (forget_device d.device_id db)) refl

-- Whether an attachment belongs to one of some devices.
abbrev pub held_by : List Device → Attachment → Bool
held_by [] a = false
held_by (d ∷ ds) a = owned_by d.device_id a || held_by ds a

-- The key of each attachment of the devices is among them.
pub keys_of-Member :
    (ds : List Device) (db : Database) {a : Attachment}
    → held_by ds a ≡ true
    → Memᴰ a db.attachments
    → Memᴰ a.storage_key (keys_of ds db)
unfolding forget_device
keys_of-Member [] db h m = absurd (true≢false (sym h))
keys_of-Member (x ∷ ds) db {a} h m = elim (Bool-cases (owned_by x.device_id a)) [
  | inl here ↦
      Memᴰ.append_left (keys_of ds (forget_device x.device_id db))
        (Memᴰ.map (λ r. r.storage_key) (Member-select (owned_by x.device_id) here m))
  | inr other ↦
      Memᴰ.append_right (map (λ r. r.storage_key) (select (owned_by x.device_id) db.attachments)) (
        keys_of-Member ds (forget_device x.device_id db) (rw other at h)
          (Member-select (λ r. not (owned_by x.device_id r)) (ap not other) m))
]

references-forgotten : (d : Text) (db : Database) → references_to_device d (forget_device d db) ≡ 0
unfolding references_to_device forget_device
references-forgotten d db = omega (
  arith,
  count_of-select-not (owned_by d) db.attachments,
  count_of-select-not (λ k. str_eq k.device_id d) db.one_time_prekeys,
  count_of-select-not (λ e. str_eq e.sender_device_id d || str_eq e.recipient_device_id d)
      db.message_envelopes,
  count_of-select-not (λ s. str_eq s.device_id d) db.sessions,
  count_of-select-not (λ c. str_eq c.device_id d) db.auth_challenges,
)

references-forget_device :
    (x d : Text) (db : Database)
    → references_to_device x (forget_device d db) ≤ references_to_device x db
unfolding references_to_device forget_device
references-forget_device x d db = omega (
  arith,
  count_of-select-le (owned_by x) (λ a. not (owned_by d a)) db.attachments,
  count_of-select-le (λ k. str_eq k.device_id x) (λ k. not (str_eq k.device_id d))
      db.one_time_prekeys,
  count_of-select-le (λ e. str_eq e.sender_device_id x || str_eq e.recipient_device_id x)
      (λ e. not (str_eq e.sender_device_id d || str_eq e.recipient_device_id d))
      db.message_envelopes,
  count_of-select-le (λ s. str_eq s.device_id x) (λ s. not (str_eq s.device_id d)) db.sessions,
  count_of-select-le (λ c. str_eq c.device_id x) (λ c. not (str_eq c.device_id d))
      db.auth_challenges,
)

references-forget_all :
    (x : Text) (ds : List Device) (db : Database)
    → references_to_device x (forget_all ds db) ≤ references_to_device x db
unfolding forget_all
references-forget_all x [] db = omega arith
references-forget_all x (d ∷ ds) db = omega (
  arith,
  references-forget_all x ds (forget_device d.device_id db),
  references-forget_device x d.device_id db,
)

-- No row refers to a device.
abbrev pub IsFree : Database → Device → Type 0
IsFree db d = references_to_device d.device_id db ≡ 0

forget_all-IsFree : (ds : List Device) (db : Database) → All (IsFree (forget_all ds db)) ds
unfolding forget_all
forget_all-IsFree [] db = tt
forget_all-IsFree (d ∷ ds) db = (
  omega (
    arith,
    references-forget_all d.device_id ds (forget_device d.device_id db),
    references-forgotten d.device_id db,
  ),
  forget_all-IsFree ds (forget_device d.device_id db),
)

forget_all-devices : (ds : List Device) (db : Database) → (forget_all ds db).devices ≡ db.devices
unfolding forget_all forget_device
forget_all-devices [] db = refl
forget_all-devices (d ∷ ds) db = forget_all-devices ds (forget_device d.device_id db)

none_referenced :
    (user : Text) (db : Database) (ds : List Device)
    → All (IsFree db) (select (device_of user) ds)
    → count_of (λ d. device_of user d && not (references_to_device d.device_id db == 0)) ds ≡ 0
none_referenced user db [] free = refl
none_referenced user db (d ∷ ds) free = elim (Bool-cases (device_of user d)) [
  | inr e ↦ rw e (none_referenced user db ds (rw e at free))
  | inl e ↦ let (h, hs) = rw e at free in rw (e, h) (none_referenced user db ds hs)
]

-- The tables after the deletion of an account.
pub deleted : User → Database → Database
deleted u db =
    let forgotten = forget_all (select (device_of u.user_id) db.devices) db in
    record forgotten {
      memberships = select (λ m. not (str_eq m.user_id u.user_id)) forgotten.memberships;
      devices = select (λ d. not (device_of u.user_id d)) forgotten.devices;
      users = select (λ x. not (str_eq x.user_id u.user_id)) forgotten.users;
    }

delete_account-deleted :
    (u : User) (db : Database)
    → delete_account u db
      ≡ (ok (keys_of (select (device_of u.user_id) db.devices) db), deleted u db)
unfolding delete_account delete_devices delete_user deleted references_to_device
delete_account-deleted u db =
    let ds : List Device = select (device_of u.user_id) db.devices in
    let f : Database = forget_all ds db in
    let e = forget_devices-all ds db in
    let db' : Database = record f {
      memberships = select (λ m. not (str_eq m.user_id u.user_id)) f.memberships;
    } in
    let free : count_of
          (λ d. device_of u.user_id d && not (references_to_device d.device_id db' == 0)) f.devices
        ≡ 0 =
      rw (forget_all-devices ds db)
        (none_referenced u.user_id db' db.devices (forget_all-IsFree ds db)) in
    let left : count_of (device_of u.user_id) (select (λ d. not (device_of u.user_id d)) f.devices)
        ≡ 0 =
      count_of-select-not (device_of u.user_id) f.devices in
    let members : count_of (λ m. str_eq m.user_id u.user_id) db'.memberships ≡ 0 =
      count_of-select-not (λ m. str_eq m.user_id u.user_id) f.memberships in
    rw (e, free, left, members) refl

-- The deletion of a known account succeeds: no statement of it meets a foreign key. Afterwards no attachment,
-- prekey, message, session or challenge refers to a device that the account had, and neither a device nor the
-- user of the account is left.
pub admin_delete_account_lem :
    (to_lowercase : Text → Text) (name : Text) (u : User) (db : Database)
    → find_first (user_normalized (to_lowercase name)) db.users ≡ some u
    → (keys : List Text) × (db' : Database) × (admin_delete_account to_lowercase name db
        ≡ (ok keys, db'))
      × All (IsFree db') (select (device_of u.user_id) db.devices)
      × (count_of (device_of u.user_id) db'.devices ≡ 0)
      × (count_of (λ x. str_eq x.user_id u.user_id) db'.users ≡ 0)
unfolding admin_delete_account deleted references_to_device
admin_delete_account_lem to_lowercase name u db found =
    let ds : List Device = select (device_of u.user_id) db.devices in
    let e = delete_account-deleted u db in
    (
      keys_of ds db,
      deleted u db,
      rw (admin_delete_account, found, e),
      forget_all-IsFree ds db,
      count_of-select-not (device_of u.user_id) (forget_all ds db).devices,
      count_of-select-not (λ x. str_eq x.user_id u.user_id) (forget_all ds db).users,
    )

-- The same, with the storage keys that the administrator is given.
pub admin_delete_account-keys :
    (to_lowercase : Text → Text) (name : Text) (u : User) (db : Database)
    → find_first (user_normalized (to_lowercase name)) db.users ≡ some u
    → admin_delete_account to_lowercase name db
      ≡ (ok (keys_of (select (device_of u.user_id) db.devices) db), deleted u db)
unfolding admin_delete_account
admin_delete_account-keys to_lowercase name u db found =
    rw (admin_delete_account, found) (delete_account-deleted u db)

pub deleted-IsFree :
    (u : User) (db : Database)
    → All (IsFree (deleted u db)) (select (device_of u.user_id) db.devices)
      × (count_of (device_of u.user_id) (deleted u db).devices ≡ 0)
      × (count_of (λ x. str_eq x.user_id u.user_id) (deleted u db).users ≡ 0)
unfolding deleted references_to_device
deleted-IsFree u db =
    let ds : List Device = select (device_of u.user_id) db.devices in
    (
      forget_all-IsFree ds db,
      count_of-select-not (device_of u.user_id) (forget_all ds db).devices,
      count_of-select-not (λ x. str_eq x.user_id u.user_id) (forget_all ds db).users,
    )
