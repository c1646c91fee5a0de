-- ===== src/Admin.antt =====
-- server/upm-server/src/admin.rs: the dashboard of the administrator, on a port of its own. The page is what is
-- put into its fixed text: the numbers and the rows of the table. Whether the removal of a file succeeds is an
-- argument.
pub mod Markup
pub mod Effects
mod Examples
use upmessenger.Base.{
  ℕ, zero, suc, ◌+◌, ◌/◌, ◌%◌, ◌≡◌, Bool, true, false, ◌&&◌, Option, none, some, List, [], ◌∷◌,
  ◌++◌, Text, codes, str_eq, Result, ok, err, ltb, ◌==◌, if◌then◌else◌,
}
use upmessenger.Server.{
  Database, DbError, SqliteError, username_taken, user_not_found, device_not_found,
  invalid_envelope, queue_quota_exceeded, attachment_quota_exceeded, sqlite,
}
use upmessenger.Server.Maintenance.{
  AdminStats, AdminAccountSummary, admin_stats, admin_list_accounts, admin_delete_account,
}
use upmessenger.Api.{
  AppState, Json, Items, Fields, string, object, array, nil, item, end, field, text_field,
  number_field, bool_field,
}
use upmessenger.Api.Paths.{Segment, literal, parameter, matches, bound, path_of, segments}
use upmessenger.Api.Requests.{Method, get, post}
use upmessenger.Sweep.{remove_blobs}

-- std::net::IpAddr, by octets and by 16-bit groups
pub data IpAddr : Type 0 where
  v4 : ℕ → ℕ → ℕ → ℕ → IpAddr
  v6 : List ℕ → IpAddr

-- `is_loopback` of an address: 127.0.0.0/8, and ::1
unfoldable pub loopback : IpAddr → Bool
loopback (v4 a b c d) = a == 127
loopback (v6 groups) = str_eq groups (0 ∷ 0 ∷ 0 ∷ 0 ∷ 0 ∷ 0 ∷ 0 ∷ 1 ∷ [])

unfoldable pub is_loopback : Option IpAddr → Bool
is_loopback none = false
is_loopback (some addr) = loopback addr

-- str::replace, of a character
unfoldable pub replace : ℕ → Text → Text → Text
replace c entity [] = []
replace c entity (x ∷ xs) =
    let rest = replace c entity xs in if x == c then entity ++ rest else x ∷ rest

unfoldable pub html_escape : Text → Text
html_escape s =
    replace b'"' (codes "&quot;")
      (replace b'>' (codes "&gt;") (replace b'<' (codes "&lt;") (replace b'&' (codes "&amp;") s)))

-- The digits of a number, before others; the fuel is above the number.
unfoldable pub digits_before : ℕ → ℕ → Text → Text
digits_before zero n rest = rest
digits_before (suc fuel) n rest =
    if ltb n 10 then (48 + n) ∷ rest else digits_before fuel (n / 10) ((48 + n % 10) ∷ rest)

unfoldable pub to_string : ℕ → Text
to_string n = digits_before (suc n) n []

-- What `write!` adds for an account.
unfoldable pub account_row : AdminAccountSummary → Text
account_row a =
    codes "<tr><td>"
    ++ (html_escape a.username
        ++ (codes "</td><td>"
            ++ (html_escape a.upm_id
                ++ (codes "</td><td>"
                    ++ (to_string a.device_count
                        ++ (codes "</td><td>"
                            ++ ((if a.directory_visible then codes "yes" else codes "no")
                                ++ (codes "</td><td><button onclick=\"deleteAccount('"
                                    ++ (html_escape a.username
                                        ++ codes "')\">Delete</button></td></tr>")))))))))

unfoldable pub account_rows : List AdminAccountSummary → Text
account_rows [] = []
account_rows (a ∷ accounts) = account_row a ++ account_rows accounts

-- The body of an answer.
pub data Content : Type 0 where
  plain : Text → Content
  json : Json → Content
  page : Option AdminStats → Text → Content

abbrev pub Answer : Type 0
Answer = ℕ × Content

-- `serde_json::to_value(stats)`
unfoldable pub stats_json : AdminStats → Json
stats_json stats = object (
    number_field "account_count" stats.account_count (
      number_field "device_count" stats.device_count (
        number_field "queued_message_count" stats.queued_message_count (
          number_field "attachment_count" stats.attachment_count
            (number_field "attachment_bytes_total" stats.attachment_bytes_total end)))))

unfoldable pub account_json : AdminAccountSummary → Json
account_json a = object (
    text_field "username" a.username (
      text_field "upm_id" a.upm_id (
        number_field "created_at" a.created_at (
          number_field "device_count" a.device_count
            (bool_field "directory_visible" a.directory_visible end)))))

unfoldable pub account_items : List AdminAccountSummary → Items
account_items [] = nil
account_items (a ∷ accounts) = item (account_json a) (account_items accounts)

-- `.ok()` and `.unwrap_or_default()`
unfoldable pub stats_of : Result DbError AdminStats → Option AdminStats
stats_of (ok stats) = some stats
stats_of (err e) = none

unfoldable pub accounts_of : Result DbError (List AdminAccountSummary) → List AdminAccountSummary
accounts_of (ok accounts) = accounts
accounts_of (err e) = []

unfoldable pub render_dashboard : AppState → Content
render_dashboard s =
    page (stats_of (admin_stats s.db).0) (account_rows (accounts_of (admin_list_accounts s.db).0))

unfoldable pub delete_path : List Segment
delete_path =
    literal "admin" ∷ literal "api" ∷ literal "accounts" ∷ parameter ∷ literal "delete" ∷ []

module _ (sqlite_message : SqliteError → Text) where
  -- The messages of `DbError`.
  unfoldable pub message : DbError → Text
  message username_taken = codes "username already taken"
  message user_not_found = codes "user not found"
  message device_not_found = codes "device not found"
  message invalid_envelope = codes "invalid message envelope"
  message queue_quota_exceeded = codes "message queue quota exceeded"
  message attachment_quota_exceeded = codes "attachment storage quota exceeded for this device"
  message (sqlite e) = sqlite_message e

  unfoldable pub failed : DbError → Answer
  failed e = (500, json (object (text_field "error" (message e) end)))

  unfoldable pub admin_stats_json : AppState → Answer
  admin_stats_json s = elim (admin_stats s.db).0 [
    | ok stats ↦ (200, json (stats_json stats))
    | err e ↦ failed e
  ]

  unfoldable pub admin_accounts_json : AppState → Answer
  admin_accounts_json s = elim (admin_list_accounts s.db).0 [
    | ok accounts ↦
        (200, json (object (field (codes "accounts") (array (account_items accounts)) end)))
    | err e ↦ failed e
  ]

  -- The error answers of a deletion.
  unfoldable pub not_deleted : DbError → Answer
  not_deleted user_not_found =
      (404, json (object (text_field "error" (codes "no such account") end)))
  not_deleted e = failed e

  module _ (to_lowercase : Text → Text) (removed : Text → Bool) where
    -- What follows the deletion in the database.
    unfoldable pub delete_files :
        Text → Result DbError (List Text) × Database → AppState → Answer × AppState
    delete_files username (err e, db) s = (not_deleted e, record s { db = db })
    delete_files username (ok keys, db) s = (
      (200, json (object (text_field "deleted" username end))),
      record s { db = db; attachment_dir = remove_blobs removed keys s.attachment_dir },
    )

    unfoldable pub admin_delete_account_json : Text → AppState → Answer × AppState
    admin_delete_account_json username s =
        delete_files username (admin_delete_account to_lowercase username s.db) s

    -- The `match` on the method and the segments of the path.
    unfoldable pub dispatch : Method → List Text → AppState → Answer × AppState
    dispatch get seg s =
        if matches [] seg
        then ((200, render_dashboard s), s)
        else if matches (literal "admin" ∷ []) seg
        then ((200, render_dashboard s), s)
        else if matches (literal "admin" ∷ literal "api" ∷ literal "stats" ∷ []) seg
        then (admin_stats_json s, s)
        else if matches (literal "admin" ∷ literal "api" ∷ literal "accounts" ∷ []) seg
        then (admin_accounts_json s, s)
        else ((404, plain (codes "not found")), s)
    dispatch post seg s =
        if matches delete_path seg
        then admin_delete_account_json (bound delete_path seg) s
        else ((404, plain (codes "not found")), s)
    dispatch _ seg s = ((404, plain (codes "not found")), s)

    unfoldable pub handle : Option IpAddr → Method → Text → AppState → Answer × AppState
    handle remote_addr method url s =
        if is_loopback remote_addr
        then dispatch method (segments (path_of url)) s
        else ((403, plain (codes "admin dashboard is only reachable from localhost")), s)
