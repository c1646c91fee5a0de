-- ===== src/Admin/Effects.antt =====
-- Which requests to the dashboard change anything, and what a deletion leaves.
use mathlib.Core.List.{Memᴰ}
use upmessenger.Base.{
  none, ◌≡◌, refl, Bool, true, false, ◌&&◌, Option, some, List, [], ◌∷◌, Text, All, find_first,
  select, count_of, str_eq, if◌then◌else◌, Bool-cases, inl, inr, arith,
}
use upmessenger.Base.Members.{select-Member}
use upmessenger.Server.{SqliteError, User}
use upmessenger.Server.Accounts.{user_normalized, device_of}
use upmessenger.Server.Maintenance.Deletion.{
  IsFree, deleted, held_by, keys_of, keys_of-Member, deleted-IsFree, admin_delete_account-keys,
}
use upmessenger.Api.{AppState, object, text_field, end}
use upmessenger.Api.Folder.{read_file, attachment_path}
use upmessenger.Api.Paths.{matches, bound, path_of, segments}
use upmessenger.Api.Requests.{
  Method, get, head, post, put, delete, connect, options, trace, patch, non_standard,
}
use upmessenger.Sweep.{remove_blobs}
use upmessenger.Sweep.Files.{remove_blobs-read}
use upmessenger.Admin.{
  IpAddr, is_loopback, handle, dispatch, delete_path, delete_files, admin_delete_account_json, json,
}

abbrev is_post : Method → Bool
is_post post = true
is_post _ = false

-- Whether a request asks for a deletion, and comes from the machine itself.
abbrev pub deletes : Option IpAddr → Method → Text → Bool
deletes remote_addr method url =
    is_loopback remote_addr && (is_post method && matches delete_path (segments (path_of url)))

module _ (sqlite_message : SqliteError → Text) (to_lowercase : Text → Text)
    (removed : Text → Bool) where
  dispatch_same :
      (method : Method) (seg : List Text) (s : AppState)
      → (is_post method && matches delete_path seg) ≡ false
      → (dispatch sqlite_message to_lowercase removed method seg s).1 ≡ s
  unfolding dispatch
  dispatch_same post seg s e = rw e refl
  dispatch_same get seg s e = ground arith
  dispatch_same head seg s e = refl
  dispatch_same put seg s e = refl
  dispatch_same delete seg s e = refl
  dispatch_same connect seg s e = refl
  dispatch_same options seg s e = refl
  dispatch_same trace seg s e = refl
  dispatch_same patch seg s e = refl
  dispatch_same (non_standard name) seg s e = refl

  -- A request to the dashboard that is not a POST to the path of a deletion, or does not come from the machine
  -- itself, changes neither the database nor the files.
  pub handle_same :
      (remote_addr : Option IpAddr) (method : Method) (url : Text) (s : AppState)
      → deletes remote_addr method url ≡ false
      → (handle sqlite_message to_lowercase removed remote_addr method url s).1 ≡ s
  unfolding handle
  handle_same remote_addr method url s e = elim (Bool-cases (is_loopback remote_addr)) [
    | inr far ↦ rw far refl
    | inl near ↦ rw near (dispatch_same method (segments (path_of url)) s (rw near at e))
  ]

All-Member : {A : Type 0} (P : A → Type 0) (xs : List A) → ((x : A) → Memᴰ x xs → P x) → All P xs
All-Member P [] f = tt
All-Member P (x ∷ xs) f = (f x (Memᴰ.head refl), All-Member P xs (λ y m. f y (Memᴰ.tail m)))

-- The name in the path of a deletion.
abbrev pub named : Text → Text
named url = bound delete_path (segments (path_of url))

module _ (sqlite_message : SqliteError → Text) (to_lowercase : Text → Text) (removed : Text → Bool)
    (remote_addr : Option IpAddr) (url : Text) (s : AppState) (u : User) where
  handle-deleted :
      is_loopback remote_addr ≡ true
      → matches delete_path (segments (path_of url)) ≡ true
      → find_first (user_normalized (to_lowercase (named url))) s.db.users ≡ some u
      → handle sqlite_message to_lowercase removed remote_addr post url s ≡ (
        (200, json (object (text_field "deleted" (named url) end))),
        record s {
          db = deleted u s.db;
          attachment_dir =
              remove_blobs removed
                (keys_of (select (device_of u.user_id) s.db.devices) s.db)
                s.attachment_dir;
        },
      )
  unfolding handle dispatch admin_delete_account_json delete_files
  handle-deleted near path found =
      rw (near, path, admin_delete_account-keys to_lowercase (named url) u s.db found) refl

  -- A POST from the machine itself that names an account is answered 200, whatever the account has. No row then
  -- refers to a device that the account had, and neither a device nor the user of it is left. The file of each
  -- attachment of one of its devices is gone, or as it was if its removal fails.
  pub handle-delete :
      is_loopback remote_addr ≡ true
      → matches delete_path (segments (path_of url)) ≡ true
      → find_first (user_normalized (to_lowercase (named url))) s.db.users ≡ some u
      → let (answer, s') = handle sqlite_message to_lowercase removed remote_addr post url s in
        let devices = select (device_of u.user_id) s.db.devices in
        (answer ≡ (200, json (object (text_field "deleted" (named url) end))))
        × All (IsFree s'.db) devices
        × (count_of (device_of u.user_id) s'.db.devices ≡ 0)
        × (count_of (λ x. str_eq x.user_id u.user_id) s'.db.users ≡ 0)
        × All
            (λ a. read_file (attachment_path a.storage_key) s'.attachment_dir ≡ (
              if removed a.storage_key
              then none
              else read_file (attachment_path a.storage_key) s.attachment_dir))
            (select (held_by devices) s.db.attachments)
  handle-delete near path found =
      let devices = select (device_of u.user_id) s.db.devices in
      let (free, no_device, no_user) = deleted-IsFree u s.db in
      rw (handle-deleted near path found) (
        refl,
        free,
        no_device,
        no_user,
        All-Member _ (select (held_by devices) s.db.attachments) (λ a m.
            let (row, held) = select-Member (held_by devices) s.db.attachments m in
            remove_blobs-read removed a.storage_key (keys_of devices s.db) s.attachment_dir
              (keys_of-Member devices s.db held row)),
      )
