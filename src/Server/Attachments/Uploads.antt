-- ===== src/Server/Attachments/Uploads.antt =====
-- The row of an attachment, before and after its upload.
use upmessenger.Base.{
  ℕ, ◌≤◌, ◌≡◌, refl, ap, ◌∙◌, Bool, true, false, some, List, [], ◌∷◌, map, arith, Text, ok,
  find_first, count_of, ltb, if◌then◌else◌, Bool-cases, inl, inr,
}
use upmessenger.Server.{Database, Attachment}
use upmessenger.Server.Attachments.{
  AttachmentRecord, attachment_named, is_pending, is_uploaded, text_or_default, get_attachment,
  mark_attachment_uploaded,
}

-- What `get_attachment` makes of a row.
abbrev pub record_of : Attachment → AttachmentRecord
record_of a = record {
  attachment_id = a.attachment_id;
  owner_device_id = text_or_default a.owner_device_id;
  opaque_size = a.opaque_size;
  storage_key = a.storage_key;
  capability_hash = a.capability_hash;
  expires_at = a.expires_at;
  uploaded = is_uploaded a.uploaded_at;
}

pub get_attachment-found :
    (id : Text) (a : Attachment) (db : Database)
    → find_first (attachment_named id) db.attachments ≡ some a
    → get_attachment id db ≡ (ok (some (record_of a)), db)
unfolding get_attachment
get_attachment-found id a db e = rw e

count_of-found :
    (p q : Attachment → Bool) (a : Attachment) (xs : List Attachment)
    → find_first p xs ≡ some a
    → q a ≡ true
    → 1 ≤ count_of q xs
count_of-found p q a [] e h = absurd (ground arith)
count_of-found p q a (x ∷ xs) e h = elim (Bool-cases (p x)) [
  | inl here ↦ ground (arith, here, h, e)
  | inr there ↦ ground (arith, there, h, e, count_of-found p q a xs)
]

module _ (now : ℕ) (id owner : Text) where
  -- The UPDATE on one row.
  abbrev pub mark : Attachment → Attachment
  mark a = if is_pending id owner a then record a { uploaded_at = some now } else a

  pub find_first-mark :
      (xs : List Attachment) (a : Attachment)
      → find_first (attachment_named id) xs ≡ some a
      → find_first (attachment_named id) (map mark xs) ≡ some (mark a)
  unfolding is_pending is_uploaded
  find_first-mark [] a e = absurd (ground arith)
  find_first-mark (x ∷ xs) a e = ground (arith, find_first-mark xs a)

  pub count_of-mark : (xs : List Attachment) → count_of (is_pending id owner) (map mark xs) ≡ 0
  unfolding is_pending is_uploaded
  count_of-mark [] = refl
  count_of-mark (x ∷ xs) = ground (arith, count_of-mark xs)

  -- The first upload marks the row.
  pub mark_attachment_uploaded-pending :
      (a : Attachment) (db : Database)
      → find_first (attachment_named id) db.attachments ≡ some a
      → is_pending id owner a ≡ true
      → (mark_attachment_uploaded now id owner db
          ≡ (ok true, record db { attachments = map mark db.attachments }))
        × (find_first (attachment_named id) (map mark db.attachments)
            ≡ some (record a { uploaded_at = some now }))
  unfolding mark_attachment_uploaded
  mark_attachment_uploaded-pending a db e h =
      let n = count_of-found (attachment_named id) (is_pending id owner) a db.attachments e h in
      let some_changed : ltb 0 (count_of (is_pending id owner) db.attachments) ≡ true =
        ground arith in
      (rw some_changed, find_first-mark db.attachments a e ∙ rw h)

module _ (now later : ℕ) (id owner : Text) where
  -- A second UPDATE finds no row that waits for its upload, and leaves the row as it is.
  pub mark_attachment_uploaded-again :
      (a : Attachment) (db : Database)
      → find_first (attachment_named id) db.attachments ≡ some (record a { uploaded_at = some now })
      → count_of (is_pending id owner) db.attachments ≡ 0
      → ((mark_attachment_uploaded later id owner db).0 ≡ ok false)
        × (find_first
              (attachment_named id)
              (mark_attachment_uploaded later id owner db).1.attachments
            ≡ some (record a { uploaded_at = some now }))
  unfolding mark_attachment_uploaded is_pending is_uploaded
  mark_attachment_uploaded-again a db e none_left =
      let marked = find_first-mark later id owner db.attachments _ e in
      (rw none_left, marked ∙ ap some (ground arith))
