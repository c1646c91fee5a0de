-- ===== src/Api/Repeated.antt =====
-- A second upload to a slot that has been filled.
use upmessenger.Base.{
  ◌<◌, ◌≡◌, refl, true, false, some, [], arith, Bytes, Text, str_eq_refl, ok, err, find_first,
  length, leb, ◌==◌,
}
use upmessenger.Server.Attachments.{
  attachment_named, is_uploaded, text_or_default, attachment_capability_matches,
  mark_attachment_uploaded,
}
use upmessenger.Server.Attachments.Uploads.{
  record_of, mark_attachment_uploaded-again, count_of-mark,
}
use upmessenger.Api.{Services, Draws, AppState, Directory}
use upmessenger.Api.Folder.{
  Disk, on_files, write_file, remove_file, rename_file, try_remove, attachment_path, part_path,
}
use upmessenger.Api.Files.{
  message, mark_uploaded, handle_attachment_upload, handle_attachment_download,
}
use upmessenger.Api.Transfers.{
  Sound, Reserved, stored, uploaded, store_file-ok, find_attachment-found, upload-stored,
  row-stored, read_file-remove, take-sent,
}

module _ (services : Services) (disk : Disk) (works : Sound disk) (draws : Draws) (id device : Text)
    (bytes : Bytes) (s : AppState) (r : Reserved id device bytes draws.handled_at s)
    (again : Draws) where
  open services use {sha256}

  -- The state after the first upload.
  filled : AppState
  filled = stored services disk works draws id device bytes r.row.storage_key s

  mark-filled :
      ((mark_attachment_uploaded again.stored_at id device filled.db).0 ≡ ok false)
      × (find_first
            (attachment_named id)
            (mark_attachment_uploaded again.stored_at id device filled.db).1.attachments
          ≡ some (uploaded services disk works draws id device bytes s r))
  unfolding filled stored uploaded
  mark-filled =
      mark_attachment_uploaded-again draws.stored_at again.stored_at id device r.row filled.db
        (row-stored services disk works draws id device bytes s r)
        (count_of-mark draws.stored_at id device s.db.attachments)

  -- The state after the second upload.
  emptied : AppState
  emptied = record filled {
    attachment_dir = remove_file (attachment_path r.row.storage_key) (
        rename_file (part_path r.row.storage_key) (attachment_path r.row.storage_key)
          (write_file (part_path r.row.storage_key) bytes filled.attachment_dir));
    db = (mark_attachment_uploaded again.stored_at id device filled.db).1;
  }

  mark_uploaded-filled :
      (files : Directory)
      → mark_uploaded again disk id device r.row.storage_key
          (record filled { attachment_dir = files })
        ≡ (
          err (message 404 "attachment state changed"),
          record filled {
            attachment_dir = remove_file (attachment_path r.row.storage_key) files;
            db = (mark_attachment_uploaded again.stored_at id device filled.db).1;
          },
        )
  unfolding mark_uploaded try_remove on_files
  mark_uploaded-filled files = rw (mark_uploaded, mark-filled.0, works.removed)

  upload-emptied :
      again.handled_at < r.row.expires_at
      → handle_attachment_upload services again disk id device (some bytes) filled
        ≡ (err (message 404 "attachment state changed"), emptied)
  unfolding handle_attachment_upload text_or_default filled stored uploaded emptied
  upload-emptied soon =
      let alive : leb r.row.expires_at again.handled_at ≡ false = ground (arith, soon) in
      let same : (length bytes == r.row.opaque_size) ≡ true = ground (arith, r.size) in
      rw
        (
          find_attachment-found services disk works id r.parsed
              (uploaded services disk works draws id device bytes s r) filled r.well_formed
              (row-stored services disk works draws id device bytes s r),
          r.owner,
          str_eq_refl device,
          alive,
          take-sent services disk works draws id device bytes s r,
          same,
          store_file-ok services disk works r.row.storage_key bytes filled,
        )
        (mark_uploaded-filled _)

  module _ (last : Draws) (given : Text)
      (opens : attachment_capability_matches sha256 (record_of r.row) given ≡ true) where
    -- For a slot that its owner has reserved and filled with a body of the reserved size, on a file system that
    -- does not fail and before the slot expires: a second upload of the body is answered 404, and after it
    -- the download that shows the slot's capability is answered 404, for the file is gone.
    pub upload_again :
        again.handled_at < r.row.expires_at
        → last.handled_at < r.row.expires_at
        → let first = handle_attachment_upload services draws disk id device (some bytes) s in
          let second =
            handle_attachment_upload services again disk id device (some bytes) first.1 in
          (first.0 ≡ ok (204, []))
          × (second.0 ≡ err (message 404 "attachment state changed"))
          × (handle_attachment_download services last disk id (some given) second.1
              ≡ (err (message 404 "attachment blob not found"), second.1))
    unfolding handle_attachment_download filled emptied uploaded is_uploaded
        attachment_capability_matches
    upload_again soon still =
        let a = uploaded services disk works draws id device bytes s r in
        let first = upload-stored services disk works draws id device bytes s r in
        let alive : leb r.row.expires_at last.handled_at ≡ false = ground (arith, still) in
        rw (first, upload-emptied soon)
          (
            refl,
            refl,
            rw (
              find_attachment-found services disk works id r.parsed a emptied r.well_formed
                  mark-filled.1,
              alive,
              opens,
              works.readable,
              read_file-remove (attachment_path r.row.storage_key) _,
            ),
          )
