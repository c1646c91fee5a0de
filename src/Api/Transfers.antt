-- ===== src/Api/Transfers.antt =====
-- The upload of an attachment and its later download.
use upmessenger.Base.{
  ℕ, zero, suc, ◌+◌, ◌-◌, ◌≤◌, ◌<◌, ◌^◌, ◌≡◌, refl, ap, ◌∙◌, true, false, none, some, [], ◌∷◌,
  arith, Bytes, Text, str_eq_refl, ok, find_first, find_first_sound, length, take, min, leb, ◌==◌,
  map,
}
use upmessenger.Protocol.{decode_hex_16}
use upmessenger.Server.{Attachment}
use upmessenger.Server.Attachments.{
  attachment_named, is_pending, is_some_text, is_uploaded, text_or_default,
  attachment_capability_matches,
}
use upmessenger.Server.Attachments.Uploads.{
  record_of, mark, get_attachment-found, mark_attachment_uploaded-pending,
}
use upmessenger.Api.{Services, Draws, AppState, Directory}
use upmessenger.Api.Folder.{
  Disk, on_files, read_file, write_file, remove_file, rename_file, attachment_path, part_path,
}
use upmessenger.Api.Files.{
  with_file_db, find_attachment, store_file, mark_uploaded, handle_attachment_upload,
  handle_attachment_download,
}

pub read_file-remove :
    (name : Text) (files : Directory) → read_file name (remove_file name files) ≡ none
unfolding read_file remove_file
read_file-remove name [] = refl
read_file-remove name ((n, bytes) ∷ files) = ground (arith, read_file-remove name files)

read_file-write :
    (name : Text) (bytes : Bytes) (files : Directory)
    → read_file name (write_file name bytes files) ≡ some bytes
unfolding read_file write_file
read_file-write name bytes files = rw (str_eq_refl name)

read_file-rename :
    (old new : Text) (bytes : Bytes) (files : Directory)
    → read_file new (rename_file old new (write_file old bytes files)) ≡ some bytes
unfolding rename_file read_file
read_file-rename old new bytes files =
    rw (rename_file, read_file-write old bytes files) (read_file-write new bytes _)

pub take-all : (n : ℕ) (bytes : Bytes) → length bytes ≤ n → take n bytes ≡ bytes
take-all zero [] h = refl
take-all (suc n) [] h = refl
take-all zero (b ∷ bytes) h = absurd (omega arith)
take-all (suc n) (b ∷ bytes) h = ap (λ rest. b ∷ rest) (take-all n bytes (omega arith))

-- An operation of the file system never fails.
pub record Sound (disk : Disk) : Type 0 where
  pub directory_made : disk.directory_made ≡ true
  pub written : disk.written ≡ true
  pub renamed : disk.renamed ≡ true
  pub removed : disk.removed ≡ true
  pub readable : disk.readable ≡ true

-- The row of an attachment that the device `device` may upload.
pub record Reserved (id device : Text) (bytes : Bytes) (now : ℕ) (s : AppState) : Type 0 where
  pub row : Attachment
  pub parsed : Bytes
  pub well_formed : decode_hex_16 id ≡ some parsed
  pub found : find_first (attachment_named id) s.db.attachments ≡ some row
  pub owner : row.owner_device_id ≡ some device
  pub pending : row.uploaded_at ≡ none
  pub size : length bytes ≡ row.opaque_size
  pub size_fits : row.opaque_size < 2 ^ 63
  pub in_time : now < row.expires_at

module _ (services : Services) (disk : Disk) (works : Sound disk) where
  open services use {sha256}

  -- The state after an upload.
  unfoldable pub stored : Draws → Text → Text → Bytes → Text → AppState → AppState
  stored draws id device bytes key s =
      let files : Directory = write_file (part_path key) bytes s.attachment_dir in
      record s {
        attachment_dir = rename_file (part_path key) (attachment_path key) files;
        db = record s.db { attachments = map (mark draws.stored_at id device) s.db.attachments };
      }

  pub store_file-ok :
      (key : Text) (bytes : Bytes) (s : AppState)
      → store_file disk key bytes s ≡ (
        ok tt,
        record s {
          attachment_dir =
              rename_file
                (part_path key)
                (attachment_path key)
                (write_file (part_path key) bytes s.attachment_dir);
        },
      )
  unfolding store_file on_files
  store_file-ok key bytes s = rw (works.directory_made, works.written, works.renamed)

  pub find_attachment-found :
      (id : Text) (parsed : Bytes) (a : Attachment) (s : AppState)
      → decode_hex_16 id ≡ some parsed
      → find_first (attachment_named id) s.db.attachments ≡ some a
      → find_attachment id s ≡ (ok (record_of a), s)
  unfolding find_attachment with_file_db text_or_default is_uploaded
  find_attachment-found id parsed a s e found = rw (e, get_attachment-found id a s.db found)

  module _ (draws : Draws) (id device : Text) (bytes : Bytes) (s : AppState)
      (r : Reserved id device bytes draws.handled_at s) where
    pub take-sent : take (min (r.row.opaque_size + 1) (2 ^ 64 - 1)) bytes ≡ bytes
    take-sent = take-all _ bytes (omega (arith, r.size, r.size_fits))

    mark-stored :
        (files : Directory)
        → mark_uploaded draws disk id device r.row.storage_key (record s { attachment_dir = files })
          ≡ (
            ok (204, []),
            record s {
              attachment_dir = files;
              db = record s.db {
                attachments = map (mark draws.stored_at id device) s.db.attachments;
              };
            },
          )
    unfolding mark_uploaded is_pending is_uploaded is_some_text
    mark-stored files =
        let pending : is_pending id device r.row ≡ true = rw (
          find_first_sound (attachment_named id) s.db.attachments r.row r.found,
          r.owner,
          str_eq_refl device,
          r.pending,
        ) in
        let (e, _) =
          mark_attachment_uploaded-pending draws.stored_at id device r.row s.db r.found pending in
        rw (mark_uploaded, e, ap (λ r. r.1) e)

    pub upload-stored :
        handle_attachment_upload services draws disk id device (some bytes) s
        ≡ (ok (204, []), stored draws id device bytes r.row.storage_key s)
    unfolding handle_attachment_upload text_or_default stored
    upload-stored =
        let alive : leb r.row.expires_at draws.handled_at ≡ false = ground (arith, r.in_time) in
        let same : (length bytes == r.row.opaque_size) ≡ true = ground (arith, r.size) in
        rw
          (
            find_attachment-found id r.parsed r.row s r.well_formed r.found,
            r.owner,
            str_eq_refl device,
            alive,
            take-sent,
            same,
            store_file-ok r.row.storage_key bytes s,
          )
          (mark-stored _)

    -- The row after the upload.
    unfoldable pub uploaded : Attachment
    uploaded = record r.row { uploaded_at = some draws.stored_at }

    pub row-stored :
        find_first
          (attachment_named id)
          (stored draws id device bytes r.row.storage_key s).db.attachments
        ≡ some uploaded
    unfolding stored uploaded is_pending is_uploaded is_some_text
    row-stored =
        let pending : is_pending id device r.row ≡ true = rw (
          find_first_sound (attachment_named id) s.db.attachments r.row r.found,
          r.owner,
          str_eq_refl device,
          r.pending,
        ) in
        (mark_attachment_uploaded-pending draws.stored_at id device r.row s.db r.found pending).1

    module _ (later : Draws) (given : Text)
        (opens : attachment_capability_matches sha256 (record_of r.row) given ≡ true) where
      -- For a slot that its owner has reserved and not filled, and a body of the reserved size, on a file
      -- system that does not fail: the upload is answered 204. Whatever else has changed since, a
      -- download before the slot expires that shows the slot's capability is answered with the bytes
      -- that were sent, where the row and the file of the slot are still as the upload left them.
      pub download-upload :
          (s'' : AppState)
          → later.handled_at < r.row.expires_at
          → let s' = (handle_attachment_upload services draws disk id device (some bytes) s).1 in
            find_first (attachment_named id) s''.db.attachments
              ≡ find_first (attachment_named id) s'.db.attachments
            → let s' = (handle_attachment_upload services draws disk id device (some bytes) s).1 in
              read_file (attachment_path r.row.storage_key) s''.attachment_dir
                ≡ read_file (attachment_path r.row.storage_key) s'.attachment_dir
              → ((handle_attachment_upload services draws disk id device (some bytes) s).0
                  ≡ ok (204, []))
                × (handle_attachment_download services later disk id (some given) s''
                    ≡ (ok (200, bytes), s''))
      unfolding handle_attachment_download stored uploaded is_uploaded attachment_capability_matches
      download-upload s'' soon same_row same_file =
          let s' : AppState = stored draws id device bytes r.row.storage_key s in
          let row : find_first (attachment_named id) s''.db.attachments ≡ some uploaded =
            same_row
            ∙ ap (λ x. find_first (attachment_named id) x.1.db.attachments) upload-stored
            ∙ row-stored in
          let file : read_file (attachment_path r.row.storage_key) s''.attachment_dir ≡ some bytes =
            same_file
            ∙ ap (λ x. read_file (attachment_path r.row.storage_key) x.1.attachment_dir)
                upload-stored
            ∙ read_file-rename (part_path r.row.storage_key) (attachment_path r.row.storage_key)
                bytes s.attachment_dir in
          let found = find_attachment-found id r.parsed uploaded s'' r.well_formed row in
          let alive : leb r.row.expires_at later.handled_at ≡ false = ground (arith, soon) in
          let same : (length bytes == r.row.opaque_size) ≡ true = ground (arith, r.size) in
          (ap (λ x. x.0) upload-stored, rw (found, alive, opens, works.readable, file, same))
