-- ===== src/Admin/Examples.antt =====
-- The theorems on the dashboard, at a server that holds a file of Alice.
use upmessenger.Base.{
  ◌≡◌, refl, true, false, none, some, [], ◌∷◌, Text, codes, str_eq, All, select, count_of,
  find_first,
}
use upmessenger.Server.{Attachment, SqliteError}
use upmessenger.Server.Accounts.{device_of, user_normalized}
use upmessenger.Server.Maintenance.{AdminAccountSummary}
use upmessenger.Server.Maintenance.Deletion.{IsFree, held_by}
use upmessenger.Server.Examples.Tables.{tables, alice, alice_device}
use upmessenger.Api.{AppState, object, text_field, end}
use upmessenger.Api.Folder.{read_file, attachment_path}
use upmessenger.Api.Paths.{
  matches, bound, path_of, segments, split, push_first, first_or_empty, is_empty,
  trim_start_matches, trim_end_matches,
}
use upmessenger.Api.Requests.{post}
use upmessenger.Api.Examples.Setting.{server}
use upmessenger.Admin.{v4, account_row, handle, json, delete_path, is_loopback, loopback}
use upmessenger.Admin.Markup.{Contains, account_row-verbatim}
use upmessenger.Admin.Effects.{deletes, handle_same, handle-delete}

abbrev quoted : AdminAccountSummary
quoted = record {
  username = codes "');alert(1)//";
  upm_id = codes "7F3A-91D2-4C2M";
  created_at = 100;
  device_count = 1;
  directory_visible = true;
}

account_row-verbatim_example :
    Contains (codes "deleteAccount('');alert(1)//')") (account_row quoted)
account_row-verbatim_example = account_row-verbatim quoted refl

abbrev sqlite_message : SqliteError → Text
sqlite_message e = []

abbrev file : Attachment
file = record {
  attachment_id = codes "A0";
  owner_message_id = none;
  owner_device_id = some alice_device;
  opaque_size = 3;
  storage_key = codes "F0";
  capability_hash = codes "H";
  expires_at = 5000;
  uploaded_at = some 4000;
}

abbrev holding : AppState
holding = record server {
  db = record tables { attachments = file ∷ [] };
  attachment_dir = (codes "F0.blob", 7 ∷ 8 ∷ 9 ∷ []) ∷ [];
}

abbrev url : Text
url = codes "/admin/api/accounts/alice/delete"

far : deletes (some (v4 10 0 0 1)) post url ≡ false
unfolding is_loopback loopback
far = refl

handle_same_example :
    (handle sqlite_message (λ t. t) (λ key. true) (some (v4 10 0 0 1)) post url holding).1 ≡ holding
handle_same_example =
    handle_same sqlite_message (λ t. t) (λ key. true) (some (v4 10 0 0 1)) post url holding far

near : is_loopback (some (v4 127 0 0 1)) ≡ true
unfolding is_loopback loopback
near = refl

path : matches delete_path (segments (path_of url)) ≡ true
unfolding matches delete_path segments path_of split push_first first_or_empty is_empty
    trim_start_matches trim_end_matches str_eq
path = refl

name : bound delete_path (segments (path_of url)) ≡ codes "alice"
unfolding bound delete_path segments path_of split push_first first_or_empty is_empty
    trim_start_matches trim_end_matches
name = refl

found :
    find_first (user_normalized (bound delete_path (segments (path_of url)))) holding.db.users
    ≡ some alice
unfolding str_eq
found = rw name refl

handle-delete_example :
    let (answer, s') =
      handle sqlite_message (λ t. t) (λ key. true) (some (v4 127 0 0 1)) post url holding in
    let devices = select (device_of (codes "A")) tables.devices in
    (answer ≡ (
      200,
      json (object (text_field "deleted" (bound delete_path (segments (path_of url))) end)),
    ))
    × All (IsFree s'.db) devices
    × (count_of (device_of (codes "A")) s'.db.devices ≡ 0)
    × (count_of (λ x. str_eq x.user_id (codes "A")) s'.db.users ≡ 0)
    × All
        (λ a. read_file (attachment_path a.storage_key) s'.attachment_dir ≡ none)
        (select (held_by devices) (file ∷ []))
handle-delete_example =
    handle-delete sqlite_message (λ t. t) (λ key. true) (some (v4 127 0 0 1)) url holding alice near
      path found
