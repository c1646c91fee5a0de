-- ===== src/Server/Attachments/Storage.antt =====
-- The storage that a device can reserve, and the capability of a new slot.
use upmessenger.Base.{
  ℕ, ◌+◌, ◌≤◌, ◌≡◌, refl, Bool, true, false, none, some, List, [], ◌∷◌, ◌++◌, arith, Bytes, Text,
  str_eq_refl, ok, find_first, find_first-append,
}
use upmessenger.Server.{Database, Attachment}
use upmessenger.Server.Attachments.{
  AttachmentSlot, AttachmentRecord, sum_where, is_committed, max_device_attachment_bytes,
  default_attachment_ttl_seconds, attachment_named, insert_attachment, hash_capability, is_empty,
  attachment_capability_matches, create_attachment, get_attachment, text_or_default, is_uploaded,
}

sum_where-append :
    (p : Attachment → Bool) (xs : List Attachment) (a : Attachment)
    → sum_where p (xs ++ (a ∷ [])) ≤ sum_where p xs + a.opaque_size
unfolding sum_where
sum_where-append p [] a = ground arith
sum_where-append p (x ∷ xs) a = ground (arith, sum_where-append p xs a)

module _ (sha256 : Bytes → Bytes) (slot r : AttachmentSlot) (now later : ℕ) (device : Text)
    (size : ℕ) (db : Database)
    (h : (create_attachment sha256 slot now later device size db).0 ≡ ok r) where
  created : Attachment
  created = record {
    attachment_id = slot.attachment_id;
    owner_message_id = none;
    owner_device_id = some device;
    opaque_size = size;
    storage_key = slot.storage_key;
    capability_hash = hash_capability sha256 slot.capability;
    expires_at = later + default_attachment_ttl_seconds;
    uploaded_at = none;
  }

  create_attachment-created :
      (find_first (attachment_named slot.attachment_id) db.attachments ≡ none)
      × (sum_where (is_committed device now) db.attachments + size ≤ max_device_attachment_bytes)
      × (create_attachment sha256 slot now later device size db
          ≡ (ok slot, record db { attachments = db.attachments ++ (created ∷ []) }))
  unfolding create_attachment insert_attachment created
  create_attachment-created = (ground arith, ground arith, ground arith)

  -- After a slot was reserved, the sizes of the attachments of the device that had not expired when the
  -- limit was checked, the new one among them, sum to at most 500 MiB.
  pub create_attachment_quota :
      sum_where
        (is_committed device now)
        (create_attachment sha256 slot now later device size db).1.attachments
      ≤ max_device_attachment_bytes
  unfolding created
  create_attachment_quota =
      let (fresh, room, e) = create_attachment-created in
      rw e (omega (arith, room, sum_where-append (is_committed device now) db.attachments created))

  -- After a slot was reserved, and where the digest of its capability is not empty, it is found under
  -- its identifier with its owner and size, awaits its upload, and opens to the capability that was
  -- given out.
  pub get_attachment-create :
      is_empty sha256 (hash_capability sha256 slot.capability) ≡ false
      → (a : AttachmentRecord) × ((get_attachment slot.attachment_id
            (create_attachment sha256 slot now later device size db).1).0
          ≡ ok (some a))
        × (a.owner_device_id ≡ device)
        × (a.opaque_size ≡ size)
        × (a.uploaded ≡ false)
        × (attachment_capability_matches sha256 a slot.capability ≡ true)
  unfolding get_attachment created text_or_default is_uploaded attachment_capability_matches
  get_attachment-create full =
      let (fresh, room, e) = create_attachment-created in
      let found =
        find_first-append (attachment_named slot.attachment_id) db.attachments created fresh
          (str_eq_refl slot.attachment_id) in
      (
        record {
          attachment_id = slot.attachment_id;
          owner_device_id = device;
          opaque_size = size;
          storage_key = slot.storage_key;
          capability_hash = hash_capability sha256 slot.capability;
          expires_at = later + default_attachment_ttl_seconds;
          uploaded = false;
        },
        rw (e, found),
        refl,
        refl,
        refl,
        rw (full, str_eq_refl (hash_capability sha256 slot.capability)),
      )
