-- ===== src/Api/Files.antt =====
-- server/upm-server/src/api.rs: attachments: their slots, their upload and their download.
use upmessenger.Base.{
  ℕ, ◌+◌, ◌-◌, ◌*◌, ◌^◌, true, not, Option, none, [], Bytes, Text, codes, str_eq, ok, err, ok_or,
  map_err, ensure, length, take, leb, ◌==◌, min, if◌then◌else◌,
}
use Prim.Native.String.{String}
use upmessenger.Base.State.{Exec, lift, pure, gets, modify, ◌>>=◌, ◌>>◌}
use upmessenger.Protocol.{decode_hex_16}
use upmessenger.Server.{Database, DbError, device_not_found, attachment_quota_exceeded}
use upmessenger.Server.Attachments.{
  AttachmentRecord, attachment_capability_matches, create_attachment, get_attachment,
  mark_attachment_uploaded, delete_attachment,
}
use upmessenger.Api.{
  Services, Draws, AppState, Handler, Response, with_db, any_error, error, answer, text_field,
  bool_field, end,
}
use upmessenger.Api.Messages.{out_of_range, as_u64}
use upmessenger.Api.Folder.{
  Disk, on_files, read_file, write_file, rename_file, try_remove, attachment_path, part_path,
}

-- The answer to an upload or a download: status and bytes.
abbrev pub FileResponse : Type 0
FileResponse = ℕ × Bytes

abbrev pub FileHandler : Type 0 → Type 0
FileHandler A = Exec AppState FileResponse A

abbrev pub max_attachment_bytes : ℕ
max_attachment_bytes = 100 * 1024 * 1024

unfoldable pub create_failed : DbError → Response
create_failed attachment_quota_exceeded =
    error 507 "attachment_quota_exceeded"
      "this device's total attachment storage quota is exhausted; delete old attachments first"
create_failed device_not_found = error 404 "device_not_found" "unknown device"
create_failed _ = error 500 "internal_error" "attachment slot creation failed"

-- A database operation of an upload or a download, and the answer to its failure.
unfoldable pub with_file_db : {E A : Type 0} → FileResponse → Exec Database E A → FileHandler A
with_file_db failed operation s =
    let (r, db) = operation s.db in (map_err (λ _. failed) r, record s { db = db })

abbrev pub message : ℕ → String → FileResponse
message status text = (status, codes text)

-- `get_attachment` on an identifier that is well-formed, in an upload or a download.
unfoldable pub find_attachment : Text → FileHandler AttachmentRecord
find_attachment attachment_id = do
  id ← lift (ok_or (decode_hex_16 attachment_id) (message 400 "invalid attachment id"))
  found ← with_file_db (message 500 "attachment lookup failed") (get_attachment attachment_id)
  lift (ok_or found (message 404 "attachment not found"))

-- `create_dir_all`, the write to the temporary file, and the renaming.
unfoldable pub store_file : Disk → Text → Bytes → FileHandler (Unit {0})
store_file disk storage_key bytes s =
    let written = on_files (write_file (part_path storage_key) bytes) s in
    let partly = on_files (write_file (part_path storage_key) disk.left_by_failure) s in
    let cleaned = try_remove disk (part_path storage_key) in
    let failure = message 500 "attachment storage failed" in
    if not disk.directory_made
    then (err (message 500 "attachment storage unavailable"), s)
    else if not disk.written
    then (err failure, cleaned partly)
    else if not disk.renamed
    then (err failure, cleaned written)
    else (
      ok tt,
      on_files (rename_file (part_path storage_key) (attachment_path storage_key)) written,
    )

-- The `match` on `mark_attachment_uploaded`.
unfoldable pub mark_uploaded : Draws → Disk → Text → Text → Text → FileHandler FileResponse
mark_uploaded draws disk attachment_id authenticated_device storage_key s =
    let (r, db) =
      mark_attachment_uploaded draws.stored_at attachment_id authenticated_device s.db in
    let s' : AppState = record s { db = db } in
    let removed = try_remove disk (attachment_path storage_key) s' in
    elim r [
      | ok marked ↦
          if marked
          then (ok (204, []), s')
          else (err (message 404 "attachment state changed"), removed)
      | err e ↦ (err (message 500 "attachment state update failed"), removed)
    ]

module _ (services : Services) (draws : Draws) (disk : Disk) where
  open services use {sha256, read_attachment}

  unfoldable pub handle_attachment_create : Text → Text → Handler Response
  handle_attachment_create body authenticated_device = do
    opaque_size ←
        lift (ok_or (read_attachment body) (error 400 "bad_request" "invalid attachment payload"))
    lift (
        ensure (not (out_of_range max_attachment_bytes opaque_size))
          (error 400 "attachment_too_large" "opaque_size exceeds server limit"))
    slot ← with_db create_failed (
        create_attachment sha256 draws.slot draws.handled_at draws.stored_at authenticated_device
          (as_u64 opaque_size))
    pure (
        answer 201 (
          text_field "attachment_id" slot.attachment_id
            (text_field "capability" slot.capability end)))

  unfoldable pub handle_attachment_delete : Text → Text → Handler Response
  handle_attachment_delete attachment_id authenticated_device = do
    found ←
        with_db (any_error (error 500 "internal_error" "attachment lookup failed"))
          (get_attachment attachment_id)
    attachment ← lift (ok_or found (error 404 "not_found" "no such attachment"))
    lift (
        ensure (str_eq attachment.owner_device_id authenticated_device)
          (error 403 "forbidden" "attachment does not belong to authenticated device"))
    deleted ←
        with_db (any_error (error 500 "internal_error" "attachment deletion failed"))
          (delete_attachment authenticated_device attachment_id)
    lift (ensure deleted (error 404 "not_found" "no such attachment"))
    modify (try_remove disk (attachment_path attachment.storage_key))
    pure (answer 200 (bool_field "deleted" true end))

  -- The body is what the client sends, or nothing where it cannot be read.
  unfoldable pub handle_attachment_upload : Text → Text → Option Bytes → FileHandler FileResponse
  handle_attachment_upload attachment_id authenticated_device body = do
    attachment ← find_attachment attachment_id
    lift (ensure (str_eq attachment.owner_device_id authenticated_device) (message 403 "forbidden"))
    lift (
        ensure (not (leb attachment.expires_at draws.handled_at))
          (message 410 "attachment expired"))
    sent ← lift (ok_or body (message 400 "attachment upload could not be read"))
    let bytes = take (min (attachment.opaque_size + 1) (2 ^ 64 - 1)) sent
    lift (
        ensure (length bytes == attachment.opaque_size)
          (message 400 "attachment size does not match reserved size"))
    store_file disk attachment.storage_key bytes
    mark_uploaded draws disk attachment_id authenticated_device attachment.storage_key

  unfoldable pub handle_attachment_download : Text → Option Text → FileHandler FileResponse
  handle_attachment_download attachment_id capability = do
    attachment ← find_attachment attachment_id
    lift (
        ensure (not (leb attachment.expires_at draws.handled_at))
          (message 410 "attachment expired"))
    given ← lift (ok_or capability (message 403 "attachment capability required"))
    lift (
        ensure (attachment_capability_matches sha256 attachment given)
          (message 403 "invalid attachment capability"))
    lift (ensure attachment.uploaded (message 404 "attachment blob not available"))
    bytes ← gets (λ s.
        ok_or
          (if disk.readable
            then read_file (attachment_path attachment.storage_key) s.attachment_dir
            else none)
          (message 404 "attachment blob not found"))
    lift (
        ensure (length bytes == attachment.opaque_size)
          (message 500 "attachment integrity check failed"))
    pure (200, bytes)
