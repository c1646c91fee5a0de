-- ===== src/Sweep.antt =====
-- server/upm-server/src/main.rs: the sweep, which deletes expired rows and the files of expired attachments. Whether
-- the removal of a file succeeds is an argument. The checkpoint of the log changes no table.
pub mod Files
mod Examples
use upmessenger.Base.{ℕ, ◌≡◌, Bool, List, [], ◌∷◌, Text, Result, ok, err, if◌then◌else◌}
use upmessenger.Server.{Database, DbError}
use upmessenger.Server.Maintenance.{reap_expired_with_attachment_keys}
use upmessenger.Api.{AppState, Directory}
use upmessenger.Api.Folder.{remove_file, attachment_path}

-- The loop over the storage keys; a removal that fails is only logged.
unfoldable pub remove_blobs : (Text → Bool) → List Text → Directory → Directory
remove_blobs removed [] files = files
remove_blobs removed (key ∷ keys) files =
    let rest = if removed key then remove_file (attachment_path key) files else files in
    remove_blobs removed keys rest

-- The keys of a deletion, and none where it failed.
unfoldable pub keys_or_empty : Result DbError (List Text) → List Text
keys_or_empty (ok keys) = keys
keys_or_empty (err e) = []

unfoldable pub run_sweep : ℕ → (Text → Bool) → AppState → AppState
run_sweep now removed s =
    let (result, db) = reap_expired_with_attachment_keys now s.db in
    record s {
      db = db;
      attachment_dir = remove_blobs removed (keys_or_empty result) s.attachment_dir;
    }
